-- ===== src/Server/Settlement/Routing.antt =====
-- Which stream a settlement reaches.
use text.Mathlib.TextPositions.{eq_refl as str_eq_refl}
use bakery_go.Common.{
  Bool, subst, ℕ, ◌<◌, ◌≡◌, refl, true, false, Option, none, some, String, arith, str_eq, eq_iff,
  ◌==◌, Bool-cases, inl, inr, ap, ◌∙◌, sym, ◌⊎◌, List, [], ◌∷◌, Option-cases, suc,
}
use bakery_go.Server.Settlement.{
  Channel, open_empty, open_with, closed, Dispatcher, new_settlement_dispatcher, set_waiter,
  close_of, close, Sent, sent, full, panics, register, unregister, look_up, try_send, send,
}

-- What happens at a dispatcher.
pub data Event (O : Type 0) : Type 0 where
  registers : String → Event O
  unregisters : String → Event O
  sends : ℕ → O → Event O  -- of a delivery that has looked the channel up before

-- Where a waiter in a changed map comes from.
waiter_kept :
    (u v : String) (c : ℕ) (f : String → Option ℕ)
    → set_waiter u none f v ≡ some c
    → (str_eq v u ≡ false) × (f v ≡ some c)
waiter_kept u v c f e = elim (Bool-cases (str_eq v u)) [
  | inl hit ↦ absurd (ground (arith, e, hit))
  | inr miss ↦ (miss, ground (arith, e, miss))
]

waiter_new :
    (u v : String) (n c : ℕ) (f : String → Option ℕ)
    → set_waiter u (some n) f v ≡ some c
    → ((str_eq v u ≡ true) × (c ≡ n)) ⊎ ((str_eq v u ≡ false) × (f v ≡ some c))
waiter_new u v n c f e = elim (Bool-cases (str_eq v u)) [
  | inl hit ↦ inl (hit, ground (arith, e, hit))
  | inr miss ↦ inr (miss, ground (arith, e, miss))
]

both_equal : (u v w : String) → str_eq v u ≡ true → str_eq w u ≡ true → str_eq v w ≡ true
both_equal u v w a b = ground (arith, a, b, eq_iff v u, eq_iff w u, eq_iff v w)

same_ℕ : (a b : ℕ) → (a == b) ≡ true → b ≡ a
same_ℕ a b h = ground arith

abbrev pub is_panic : Sent → Bool
is_panic sent = false
is_panic full = false
is_panic panics = true

module _ {O : Type 0} where
  unfoldable pub step : Event O → Dispatcher O → Dispatcher O
  unfolding register unregister send
  step (registers u) sd = (register u sd).1
  step (unregisters u) sd = unregister u sd
  step (sends c o) sd = (send o c sd).1

  unfoldable pub run : List (Event O) → Dispatcher O → Dispatcher O
  unfolding step
  run [] sd = sd
  run (e ∷ es) sd = run es (step e sd)

  abbrev pub IsOpen : Channel O → Type 0
  IsOpen open_empty = Unit {0}
  IsOpen (open_with o) = Unit {0}
  IsOpen (closed b) = false ≡ true

  -- A waiter's channel was made before, is open, and is no other UUID's.
  pub record Inv (sd : Dispatcher O) : Type 0 where
    pub made : (u : String) (c : ℕ) → sd.waiters u ≡ some c → c < sd.next
    pub is_open : (u : String) (c : ℕ) → sd.waiters u ≡ some c → IsOpen (sd.channels c)
    pub apart :
        (u v : String) (c : ℕ) → sd.waiters u ≡ some c → sd.waiters v ≡ some c → str_eq u v ≡ true

  new-Inv : Inv new_settlement_dispatcher
  new-Inv = record { made = λ u c e. cc; is_open = λ u c e. cc; apart = λ u v c e f. cc }

  -- The channels after a close: only that of the waiter for `u` is another.
  close_of_other :
      (u v : String) (c : ℕ) (sd : Dispatcher O)
      → Inv sd
      → sd.waiters v ≡ some c
      → str_eq v u ≡ false
      → close_of (sd.waiters u) sd.channels c ≡ sd.channels c
  close_of_other u v c sd h e ne = elim (Option-cases (sd.waiters u)) [
    | inl gone ↦ rw gone refl
    | inr here ↦ elim (Bool-cases (c == here.0)) [
      | inl hit ↦
          absurd (ground (arith, ne, h.apart v u c e (here.1 ∙ ap some (same_ℕ c here.0 hit))))
      | inr miss ↦ rw (here.1, miss) refl
    ]
  ]

  register-Inv : (u : String) (sd : Dispatcher O) → Inv sd → Inv (register u sd).1
  unfolding register
  register-Inv u sd h = record {
    made = λ v c e. elim (waiter_new u v sd.next c sd.waiters e) [
      | inl new ↦ omega (arith, new.1)
      | inr old ↦ omega (arith, h.made v c old.1)
    ];
    is_open = λ v c e. elim (waiter_new u v sd.next c sd.waiters e) [
      | inl new ↦ let hit : (c == sd.next) ≡ true = ground (arith, new.1) in rw hit tt
      | inr old ↦
          let miss : (c == sd.next) ≡ false = ground (arith, h.made v c old.1) in
          rw miss (subst IsOpen (sym (close_of_other u v c sd h old.1 old.0)) (h.is_open v c old.1))
    ];
    apart = λ v w c e f. elim (waiter_new u v sd.next c sd.waiters e) [
      | inl a ↦ elim (waiter_new u w sd.next c sd.waiters f) [
        | inl b ↦ both_equal u v w a.0 b.0
        | inr b ↦ absurd (omega (arith, a.1, h.made w c b.1))
      ]
      | inr a ↦ elim (waiter_new u w sd.next c sd.waiters f) [
        | inl b ↦ absurd (omega (arith, b.1, h.made v c a.1))
        | inr b ↦ h.apart v w c a.1 b.1
      ]
    ];
  }

  unregister-Inv : (u : String) (sd : Dispatcher O) → Inv sd → Inv (unregister u sd)
  unfolding unregister
  unregister-Inv u sd h = record {
    made = λ v c e. h.made v c (waiter_kept u v c sd.waiters e).1;
    is_open = λ v c e.
        let k = waiter_kept u v c sd.waiters e in
        subst IsOpen (sym (close_of_other u v c sd h k.1 k.0)) (h.is_open v c k.1);
    apart = λ v w c e f.
        h.apart v w c (waiter_kept u v c sd.waiters e).1 (waiter_kept u w c sd.waiters f).1;
  }

  try_send-Inv :
      (o : O) (c : ℕ) (sd : Dispatcher O) (x : Channel O) → Inv sd → Inv (try_send o c sd x).1
  try_send-Inv o c sd open_empty h = record {
    made = h.made;
    is_open = λ v i e. elim (Bool-cases (i == c)) [
      | inl hit ↦ rw hit tt
      | inr miss ↦ rw miss (h.is_open v i e)
    ];
    apart = h.apart;
  }
  try_send-Inv o c sd (open_with p) h = h
  try_send-Inv o c sd (closed b) h = h

  step-Inv : (e : Event O) (sd : Dispatcher O) → Inv sd → Inv (step e sd)
  unfolding step send
  step-Inv (registers u) sd h = register-Inv u sd h
  step-Inv (unregisters u) sd h = unregister-Inv u sd h
  step-Inv (sends c o) sd h = try_send-Inv o c sd (sd.channels c) h

  run-Inv : (es : List (Event O)) (sd : Dispatcher O) → Inv sd → Inv (run es sd)
  unfolding run
  run-Inv [] sd h = h
  run-Inv (e ∷ es) sd h = run-Inv es (step e sd) (step-Inv e sd h)

  -- After any registrations, cancellations and sends, in any order, also sends of deliveries that
  -- have looked their channel up long before: the channel of a waiter in the map was made by a
  -- registration, is open, and belongs to one UUID only.
  pub run_dispatcher-Inv : (es : List (Event O)) → Inv (run es new_settlement_dispatcher)
  run_dispatcher-Inv es = run-Inv es new_settlement_dispatcher new-Inv

  send_open :
      (o : O) (c : ℕ) (sd : Dispatcher O) (x : Channel O)
      → IsOpen x
      → is_panic (try_send o c sd x).0 ≡ false
  send_open o c sd open_empty h = refl
  send_open o c sd (open_with p) h = refl
  send_open o c sd (closed b) h = absurd (ground (arith, h))

  send_close :
      (o : O) (c : ℕ) (sd : Dispatcher O) (x : Channel O)
      → is_panic (try_send o c sd (close x)).0 ≡ true
  send_close o c sd open_empty = refl
  send_close o c sd (open_with p) = refl
  send_close o c sd (closed b) = refl

  -- A race of a delivery with the end of its stream. Whatever has happened before, and once a
  -- delivery has looked up the channel of its order: a send before any other event is no panic, but
  -- if the stream's Unregister, or the Register of another stream for the order, comes in between,
  -- the channel is closed and the send is a panic.
  pub send_after_unregister :
      (es : List (Event O)) (u : String) (o : O) (c : ℕ)
      → let sd = run es new_settlement_dispatcher in
        look_up u sd ≡ some c
        → (is_panic (send o c sd).0 ≡ false)
          × (is_panic (send o c (unregister u sd)).0 ≡ true)
          × (is_panic (send o c (register u sd).1).0 ≡ true)
  unfolding send register unregister
  send_after_unregister es u o c found =
      let sd = run es new_settlement_dispatcher in
      let inv = run_dispatcher-Inv es in
      let here : (c == c) ≡ true = ground arith in
      let older : (c == sd.next) ≡ false = ground (arith, inv.made u c found) in
      (
        send_open o c sd (sd.channels c) (inv.is_open u c found),
        rw (found, here) (send_close o c _ (sd.channels c)),
        rw (older, found, here) (send_close o c _ (sd.channels c)),
      )

  -- Two streams for the same order, whatever has happened before. The second registration closes the
  -- channel of the first stream, without a message. When the first stream then ends, its Unregister
  -- closes the channel of the second one, without a message too, and no waiter is left.
  pub unregister_displaced :
      (es : List (Event O)) (u : String)
      → let first = register u (run es new_settlement_dispatcher) in
        let second = register u first.1 in
        let s = unregister u second.1 in
        (second.1.channels first.0 ≡ closed none)
        × (second.1.channels second.0 ≡ open_empty)
        × (s.channels second.0 ≡ closed none)
        × (look_up u s ≡ none)
  unfolding register unregister
  unregister_displaced es u =
      let n = (run es new_settlement_dispatcher).next in
      let here : (n == n) ≡ true = ground arith in
      let below : (n == suc n) ≡ false = ground arith in
      let there : (suc n == suc n) ≡ true = ground arith in
      let itself = str_eq_refl u in
      (rw (itself, below, here) refl, rw there refl, rw (itself, there) refl, rw itself refl)
