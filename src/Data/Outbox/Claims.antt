-- ===== src/Data/Outbox/Claims.antt =====
-- `ClaimOutboxMessage`: which message a claim gives out.
use bakery_go.Common.{
  ◌≡◌, refl, true, false, List, [], ◌∷◌, Option, none, some, arith, Bool-cases, inl, inr, ap, ◌∙◌,
  sym, subst,
}
use bakery_go.Common.Int.{ℤ, eqb_ℤ, ltb_ℤ}
use bakery_go.Data.Db.{OutboxRow, Tables, Db, Result, ok, exec}
use bakery_go.Data.Db.Hoare.{Holds, Holds-mono, exec-Holds, ok_value}
use bakery_go.Data.Outbox.{older, oldest_unsent, mark_sent, claimed, claim_outbox_message}

module _ {P : Type 0} where
  abbrev value : OutboxRow P → Option (OutboxRow P) → OutboxRow P
  value a none = a
  value a (some b) = b

  some_value : (a b : OutboxRow P) → some a ≡ some b → a ≡ b
  some_value a b e = ap (value a) e

  -- The older of a row and a rest is one of them.
  older_apart :
      (id : ℤ) (m : OutboxRow P) (rest : Option (OutboxRow P))
      → eqb_ℤ m.id id ≡ false
      → ((k : OutboxRow P) → rest ≡ some k → eqb_ℤ k.id id ≡ false)
      → eqb_ℤ (older m rest).id id ≡ false
  older_apart id m none miss h = miss
  older_apart id m (some k) miss h = elim (Bool-cases (ltb_ℤ k.created_at m.created_at)) [
    | inl older_k ↦ rw older_k (h k refl)
    | inr older_m ↦ rw older_m miss
  ]

  -- No row that was marked is given out again.
  marked_apart :
      (id : ℤ) (ms : List (OutboxRow P)) (n : OutboxRow P)
      → oldest_unsent (mark_sent id ms) ≡ some n
      → eqb_ℤ n.id id ≡ false
  unfolding oldest_unsent mark_sent
  marked_apart id [] n e = absurd (ground (arith, e))
  marked_apart id (m ∷ ms) n e = elim (Bool-cases (eqb_ℤ m.id id)) [
    | inl hit ↦ marked_apart id ms n (sym (rw hit refl) ∙ e)
    | inr miss ↦ elim (Bool-cases m.sent) [
      | inl s ↦ marked_apart id ms n (sym (rw (miss, s) refl) ∙ e)
      | inr u ↦
          let rest = oldest_unsent (mark_sent id ms) in
          subst (λ (k : OutboxRow P). eqb_ℤ k.id id ≡ false)
            (some_value (older m rest) n (sym (rw (miss, u) refl) ∙ e))
            (older_apart id m rest miss (λ k f. marked_apart id ms k f))
    ]
  ]

  -- What a claim gives out, if anything, has another id.
  abbrev pub Other : ℤ → Option (OutboxRow P) → Type 0
  Other id none = Unit {0}
  Other id (some n) = eqb_ℤ n.id id ≡ false

module _ {F P : Type 0} where
  -- What a claim has done: it gives out nothing and changes nothing, or it gives out the oldest
  -- unsent message as sent and marks its row.
  abbrev pub Claimed : Tables F P → Option (OutboxRow P) → Tables F P → Type 0
  Claimed t none t' = (oldest_unsent t.outbox ≡ none) × (t' ≡ t)
  Claimed t (some m) t' =
      (r : OutboxRow P) × (oldest_unsent t.outbox ≡ some r)
      × (m ≡ record r { sent = true })
      × (t' ≡ record t { outbox = mark_sent m.id t.outbox })

  claimed-Claimed :
      (t : Tables F P) (o : Option (OutboxRow P)) (a : Option (OutboxRow P)) (t' : Tables F P)
      → oldest_unsent t.outbox ≡ o
      → claimed o t ≡ ok (a, t')
      → Claimed t a t'
  claimed-Claimed t none a t' e h =
      subst (λ (p : Option (OutboxRow P) × Tables F P). Claimed t p.0 p.1)
        (ok_value (none, t) (a, t') h) (e, refl)
  claimed-Claimed t (some r) a t' e h =
      subst (λ (p : Option (OutboxRow P) × Tables F P). Claimed t p.0 p.1)
        (ok_value (some (record r { sent = true }), record t { outbox = mark_sent r.id t.outbox })
          (a, t') h)
        (r, e, refl, refl)

  -- A claim gives out the oldest unsent message, and its row is marked as sent, or there is none and
  -- nothing changes. If it fails, nothing changes.
  pub claim_outbox_message-Claimed :
      (d : Db F P) → Holds (Claimed d.tables) (λ t. t ≡ d.tables) (claim_outbox_message d)
  unfolding claim_outbox_message
  claim_outbox_message-Claimed d =
      let f = λ (t : Tables F P). claimed (oldest_unsent t.outbox) t in
      Holds-mono (λ a t. f d.tables ≡ ok (a, t)) (λ t. t ≡ d.tables) (Claimed d.tables)
        (λ t. t ≡ d.tables) (λ a t h. claimed-Claimed d.tables _ a t refl h) (λ _ e. e) (exec f d)
        (exec-Holds f d)

  Claimed-Other :
      (id : ℤ) (t : Tables F P) (a : Option (OutboxRow P)) (u t' : Tables F P)
      → u ≡ record t { outbox = mark_sent id t.outbox }
      → Claimed u a t'
      → Other id a
  Claimed-Other id t none u t' e c = tt
  Claimed-Other id t (some n) u t' e c =
      let row = ap (λ (x : Tables F P). oldest_unsent x.outbox) (sym e) ∙ c.1 in
      ap (λ (x : OutboxRow P). eqb_ℤ x.id id) c.2 ∙ marked_apart id t.outbox c.0 row

  -- Two claims, one after the other, never give out the same message.
  pub claim_outbox_message_twice :
      (d d' : Db F P) (m : OutboxRow P)
      → claim_outbox_message d ≡ (ok (some m), d')
      → Holds (λ a _. Other m.id a) (λ t. t ≡ d'.tables) (claim_outbox_message d')
  claim_outbox_message_twice d d' m first =
      let c =
        subst
          (λ (r : Result (Option (OutboxRow P)) × Db F P).
            Holds (Claimed d.tables) (λ t. t ≡ d.tables) r)
          first (claim_outbox_message-Claimed d) in
      Holds-mono (Claimed d'.tables) (λ t. t ≡ d'.tables) (λ a _. Other m.id a) (λ t. t ≡ d'.tables)
        (λ a t h. Claimed-Other m.id d.tables a d'.tables t c.3 h) (λ _ e. e)
        (claim_outbox_message d') (claim_outbox_message-Claimed d')
