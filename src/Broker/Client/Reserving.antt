-- ===== src/Broker/Client/Reserving.antt =====
-- What the client's ReserveInventory takes from the stock, over a network that loses requests and
-- answers.
use bakery_go.Common.{
  ℕ, zero, suc, ◌≡◌, refl, true, false, Option, none, some, ◌⊎◌, inl, inr, arith, Bool-cases,
}
use bakery_go.Common.Int.{ℤ, pos, ◌+ℤ◌, ◌≤ℤ◌, ◌<ℤ◌, eqb_ℤ, IsInt32, int_laws}
use bakery_go.Resilience.Breaker.{CircuitBreaker}
use bakery_go.Resilience.Retry.{Result, success, breaker_open, cancelled_by, exhausted, retry}
use bakery_go.Data.Db
use bakery_go.Data.Db.{Tables, Db, ok, err}
use bakery_go.Data.Db.Hoare.{Holds}
use bakery_go.Data.Stock.Draws.{share, Draws, Draws-none, Draws-trans, AsTaken-Draws}
use bakery_go.Proto.{ReserveInventoryRequest, ReserveInventoryResult}
use bakery_go.Server.BrokerService
use bakery_go.Server.BrokerService.Reserving.{Reserves, reserve_inventory-Reserves}
use bakery_go.Broker.Client.{
  Network, receive, send, attempt, state_after, reply_of, reply_after, result_of, attempts, call,
  answer, retry_config, reserve_inventory,
}

share_positive : (j id f : ℤ) → pos 0 <ℤ f → pos 0 ≤ℤ share id j f
share_positive j id f p = elim (Bool-cases (eqb_ℤ id j)) [
  | inl hit ↦ rw hit (omega (arith, p))
  | inr miss ↦ rw miss (omega arith)
]

module _ (j : ℤ) (req : ReserveInventoryRequest) where
  -- What a reply tells of the bread `j`, of which `m` units are gone.
  abbrev pub Tells : Option ReserveInventoryResult → ℤ → Type 0
  Tells none m = pos 0 ≤ℤ m
  Tells (some r) m =
      (pos 0 ≤ℤ m)
      × ((r.reserved ≡ false)
          ⊎ ((r.reserved ≡ true) × (share req.bread_id j r.quantity_fulfilled ≤ℤ m)))

module _ {F P : Type 0} (j : ℤ) (req : ReserveInventoryRequest) where
  -- What some attempts have taken, and their last answer.
  abbrev Took : Tables F P → (ReserveInventoryResult ⊎ Db.Error) × Db F P → Type 0
  Took t (inl r, d) = (m : ℤ) × Tells j req (some r) m × Draws j m t d.tables
  Took t (inr e, d) = (m : ℤ) × (pos 0 ≤ℤ m) × Draws j m t d.tables

  answer-Took :
      (t : Tables F P) (x : Db.Result ReserveInventoryResult × Db F P)
      → Holds (Reserves req t) (λ _. false ≡ true) x
      → Took t (answer x)
  answer-Took t (ok r, d) (inl h) = (
    share req.bread_id j r.quantity_fulfilled,
    (share_positive j req.bread_id r.quantity_fulfilled h.1.3, inr (h.0, omega arith)),
    AsTaken-Draws req.bread_id req.quantity_requested j r.quantity_fulfilled t d.tables h.1,
  )
  answer-Took t (ok r, d) (inr h) = (pos 0, (omega arith, inl h.0), Draws-none j t d.tables h.2)
  answer-Took t (err e, d) h = absurd (ground (arith, h))

  module _ (net : Network Db.Error)
      (h : Db F P → (ReserveInventoryResult ⊎ Db.Error) × Db F P) where
    receive-Took :
        (t : Tables F P) (lost : Option Db.Error) (x : (ReserveInventoryResult ⊎ Db.Error) × Db F P)
        → Took t x
        → Took t (receive net h lost x)
    receive-Took t none x a = a
    receive-Took t (some e) (inl r, d) a = (a.0, a.1.0, a.2)
    receive-Took t (some e) (inr x, d) a = a

    send-Took :
        (lost back : Option Db.Error) (d : Db F P)
        → Took d.tables (h d)
        → Took d.tables (send net h lost back d)
    send-Took (some e) back d a = (pos 0, omega arith, Draws-none j d.tables d.tables refl)
    send-Took none back d a = receive-Took d.tables back (h d) a

    Took-after :
        (m : ℤ) (t u : Tables F P) (x : (ReserveInventoryResult ⊎ Db.Error) × Db F P)
        → pos 0 ≤ℤ m
        → Draws j m t u
        → Took u x
        → Took t x
    Took-after m t u (inl r, d) p w (n, tells, v) = (
      m +ℤ n,
      (
        omega (int_laws, p, tells.0),
        elim tells.1 [
          | inl missed ↦ inl missed
          | inr got ↦ inr (got.0, omega (int_laws, p, got.1))
        ],
      ),
      Draws-trans j m n t u d.tables w v,
    )
    Took-after m t u (inr e, d) p w (n, q, v) =
        (m +ℤ n, omega (int_laws, p, q), Draws-trans j m n t u d.tables w v)

    Took-total :
        (t : Tables F P) (x : (ReserveInventoryResult ⊎ Db.Error) × Db F P)
        → Took t x
        → (m : ℤ) × (pos 0 ≤ℤ m) × Draws j m t x.1.tables
    Took-total t (inl r, d) (m, tells, w) = (m, tells.0, w)
    Took-total t (inr e, d) k = k

    Took-reply :
        (t : Tables F P) (x : (ReserveInventoryResult ⊎ Db.Error) × Db F P)
        → Took t x
        → (m : ℤ) × Tells j req (reply_of net h x.0) m × Draws j m t x.1.tables
    Took-reply t (inl r, d) k = k
    Took-reply t (inr e, d) k = k

  module _ (net : Network Db.Error) (fits : IsInt32 req.quantity_requested) where
    abbrev server : Db F P → (ReserveInventoryResult ⊎ Db.Error) × Db F P
    server d = answer (BrokerService.reserve_inventory req d)

    attempt-Took :
        (n : ℕ) (d : Db F P) → Took d.tables (attempt net server n (state_after net server n d))
    unfolding state_after
    attempt-Took zero d = send-Took net server (net.request_lost 0) (net.reply_lost 0) d (
        answer-Took d.tables (BrokerService.reserve_inventory req d)
          (reserve_inventory-Reserves req d fits))
    attempt-Took (suc n) d =
        let s = state_after net server (suc n) d in
        let before =
          Took-total net server d.tables (attempt net server n (state_after net server n d))
            (attempt-Took n d) in
        Took-after net server before.0 d.tables s.tables (attempt net server (suc n) s) before.1
          before.2
          (send-Took net server (net.request_lost (suc n)) (net.reply_lost (suc n)) s (
            answer-Took s.tables (BrokerService.reserve_inventory req s)
              (reserve_inventory-Reserves req s fits)))

    -- What a call has taken.
    abbrev pub Called : Tables F P → Option ReserveInventoryResult × Db F P → Type 0
    Called t (reply, d) = (m : ℤ) × Tells j req reply m × Draws j m t d.tables

    after-Called :
        (n : ℕ) (d : Db F P) (result : Result Db.Error)
        → Called d.tables
            (result_of net server result (reply_after net server n d), state_after net server n d)
    unfolding state_after
    after-Called zero d success = (pos 0, omega arith, Draws-none j d.tables d.tables refl)
    after-Called zero d (breaker_open w) = (pos 0, omega arith, Draws-none j d.tables d.tables refl)
    after-Called zero d (cancelled_by e) = (pos 0, omega arith, Draws-none j d.tables d.tables refl)
    after-Called zero d (exhausted n e) = (pos 0, omega arith, Draws-none j d.tables d.tables refl)
    after-Called (suc n) d success =
        Took-reply net server d.tables (attempt net server n (state_after net server n d))
          (attempt-Took n d)
    after-Called (suc n) d (breaker_open w) =
        Took-total net server d.tables (attempt net server n (state_after net server n d))
          (attempt-Took n d)
    after-Called (suc n) d (cancelled_by e) =
        Took-total net server d.tables (attempt net server n (state_after net server n d))
          (attempt-Took n d)
    after-Called (suc n) d (exhausted m e) =
        Took-total net server d.tables (attempt net server n (state_after net server n d))
          (attempt-Took n d)

    -- The client's call: a reply that tells of units means that they are gone.
    pub reserve_inventory-Called :
        (double : ℤ → ℤ) (cb : CircuitBreaker) (d : Db F P)
        → let x = reserve_inventory net double cb req d in Called d.tables (x.0, x.1.1)
    unfolding call
    reserve_inventory-Called double cb d =
        let run = retry (retry_config double) (attempts net server d) (some cb) in
        after-Called run.calls d run.result
