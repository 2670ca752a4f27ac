-- ===== src/Data/Baking/Requests.antt =====
-- What `ClaimPendingMakeOrders` gives out.
use bakery_go.Common.{
  ◌≡◌, refl, List, [], ◌∷◌, ℕ, zero, suc, ◌≤◌, length, ap, ◌∙◌, sym, subst, arith, Bool-cases, inl,
  inr,
}
use bakery_go.Common.Int.{ℤ, pos, leb_ℤ, pos_part}
use bakery_go.Common.Sorting.{Sorter}
use bakery_go.Data.Types.{PendingMakeOrder}
use bakery_go.Data.Db.{Tables, Db, ok, exec}
use bakery_go.Data.Db.Hoare.{Holds, Holds-mono, exec-Holds, ok_value}
use bakery_go.Data.Baking.{
  still_pending, first, by_age, claimable, claim_rows, claim_pending_make_orders,
}

pub length-first : (n : ℕ) (l : List PendingMakeOrder) → length (first n l) ≤ n
unfolding first
length-first zero l = omega arith
length-first (suc n) [] = omega arith
length-first (suc n) (o ∷ l) = omega (arith, length-first n l)

module _ {F P : Type 0} where
  claimed_rows :
      (order_by : Sorter PendingMakeOrder) (count : ℤ) (t : Tables F P) (l : List PendingMakeOrder)
      (t' : Tables F P)
      → claim_rows order_by count t ≡ ok (l, t')
      → (l ≡ claimable order_by count t) × (t' ≡ t)
  claimed_rows order_by count t l t' h = elim (Bool-cases (leb_ℤ (pos 0) count)) [
    | inl fine ↦
        let p = ok_value (claimable order_by count t, t) (l, t') (sym (rw fine refl) ∙ h) in
        (
          sym (ap (λ (q : List PendingMakeOrder × Tables F P). q.0) p),
          sym (ap (λ (q : List PendingMakeOrder × Tables F P). q.1) p),
        )
    | inr bad ↦ absurd (ground (arith, h, bad))
  ]

  -- A claim does not claim: it gives out at most `count` of the pending requests, by age, and leaves
  -- all of them pending, so that a second claim, by this or another worker, gives out the same ones.
  pub claim_pending_make_orders_again :
      (order_by : Sorter PendingMakeOrder) (count : ℤ) (d : Db F P)
      → Holds
          (λ l t.
            (length l ≤ pos_part count)
            × ((d' : Db F P)
                → d'.tables ≡ t
                → Holds
                    (λ l' _. l' ≡ l)
                    (λ _. Unit {0})
                    (claim_pending_make_orders order_by count d')))
          (λ t. t ≡ d.tables)
          (claim_pending_make_orders order_by count d)
  unfolding claim_pending_make_orders
  claim_pending_make_orders_again order_by count d =
      let read = claim_rows {F = F} {P = P} order_by count in
      Holds-mono (λ l t. read d.tables ≡ ok (l, t)) (λ t. t ≡ d.tables) _ (λ t. t ≡ d.tables)
        (λ l t h.
          let k = claimed_rows order_by count d.tables l t h in
          (
            subst (λ (x : List PendingMakeOrder). length x ≤ pos_part count) (sym k.0)
                (length-first (pos_part count)
                  (order_by.sort by_age (still_pending d.tables.pending))),
            λ d' e.
                Holds-mono (λ l' t'. read d'.tables ≡ ok (l', t')) (λ t'. t' ≡ d'.tables)
                  (λ l' _. l' ≡ l) (λ _. Unit {0})
                  (λ l' t' h'.
                    (claimed_rows order_by count d'.tables l' t' h').0
                    ∙ ap (claimable order_by count) (e ∙ k.1)
                    ∙ sym k.0)
                  (λ _ _. tt) (exec read d') (exec-Holds read d'),
          ))
        (λ _ e. e) (exec read d) (exec-Holds read d)
