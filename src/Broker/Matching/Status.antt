-- ===== src/Broker/Matching/Status.antt =====
-- The order-level status of a matching result, told apart by what it means.
use bakery_go.Common.{
  ◌≡◌, refl, ◌≢◌, ◌↔◌, inl, inr, Bool, true, false, String, arith, ◌&&◌, not, Bool-cases, eq_iff,
  sym, ap,
}
use bakery_go.Common.Int.{ℤ, pos, ◌<ℤ◌, ◌≤ℤ◌, ltb_ℤ, eqb_ℤ, eq_of_parts, pos_part, neg_part}
use bakery_go.Broker.Matching.{order_status}

-- Every requested unit was granted, and there was one.
abbrev pub AllGranted : ℤ → ℤ → Type 0
AllGranted units requested = (units ≡ requested) × (pos 0 <ℤ requested)

-- The four order-level statuses, told by the units reported and requested and by what was rejected.
abbrev pub StatusMeans : String → Bool → ℤ → ℤ → Type 0
StatusMeans s rejected units requested =
    ((s ≡ "rejected") ↔ (rejected ≡ true))
    × ((s ≡ "processed") ↔ ((rejected ≡ false) × AllGranted units requested))
    × ((s ≡ "partially_processed")
        ↔ ((rejected ≡ false) × (pos 0 <ℤ units) × ¬ AllGranted units requested))
    × ((s ≡ "failed") ↔ ((rejected ≡ false) × (units ≤ℤ pos 0) × ¬ AllGranted units requested))

apart_rp : ◌≢◌ {A = String} "rejected" "processed"
apart_rp = ground (arith, eq_iff "rejected" "processed")

apart_ra : ◌≢◌ {A = String} "rejected" "partially_processed"
apart_ra = ground (arith, eq_iff "rejected" "partially_processed")

apart_rf : ◌≢◌ {A = String} "rejected" "failed"
apart_rf = ground (arith, eq_iff "rejected" "failed")

apart_pa : ◌≢◌ {A = String} "processed" "partially_processed"
apart_pa = ground (arith, eq_iff "processed" "partially_processed")

apart_pf : ◌≢◌ {A = String} "processed" "failed"
apart_pf = ground (arith, eq_iff "processed" "failed")

apart_af : ◌≢◌ {A = String} "partially_processed" "failed"
apart_af = ground (arith, eq_iff "partially_processed" "failed")

granted_of :
    (units requested : ℤ)
    → (eqb_ℤ units requested && ltb_ℤ (pos 0) requested) ≡ true
    → AllGranted units requested
granted_of units requested full =
    (ground (arith, full, eq_of_parts units requested), ground (arith, full))

not_granted_of :
    (units requested : ℤ)
    → (eqb_ℤ units requested && ltb_ℤ (pos 0) requested) ≡ false
    → ¬ AllGranted units requested
not_granted_of units requested short h =
    ground (arith, short, ap pos_part h.0, ap neg_part h.0, h.1)

pub order_status-StatusMeans :
    (rejected partial : Bool) (units requested : ℤ)
    → (rejected && not partial) ≡ rejected
    → StatusMeans (order_status rejected partial units requested) rejected units requested
unfolding order_status
order_status-StatusMeans true partial units requested strict = rw strict (
  (λ _. refl, λ _. refl),
  (λ e. absurd (apart_rp e), λ h. cc),
  (λ e. absurd (apart_ra e), λ h. cc),
  (λ e. absurd (apart_rf e), λ h. cc),
)
order_status-StatusMeans false partial units requested strict =
    elim (Bool-cases (eqb_ℤ units requested && ltb_ℤ (pos 0) requested)) [
      | inl full ↦
          let same = granted_of units requested full in
          rw full (
            (λ e. absurd (apart_rp (sym e)), λ h. cc),
            (λ _. (refl, same), λ _. refl),
            (λ e. absurd (apart_pa e), λ h. absurd (h.2 same)),
            (λ e. absurd (apart_pf e), λ h. absurd (h.2 same)),
          )
      | inr short ↦
          let other = not_granted_of units requested short in
          elim (Bool-cases (ltb_ℤ (pos 0) units)) [
            | inl some_units ↦
                rw (short, some_units)
                  (
                    (λ e. absurd (apart_ra (sym e)), λ h. cc),
                    (λ e. absurd (apart_pa (sym e)), λ h. absurd (other h.1)),
                    (λ _. (refl, ground (arith, some_units), other), λ _. refl),
                    (λ e. absurd (apart_af e), λ h. absurd (ground (arith, some_units, h.1))),
                  )
            | inr no_units ↦
                rw (short, no_units)
                  (
                    (λ e. absurd (apart_rf (sym e)), λ h. cc),
                    (λ e. absurd (apart_pf (sym e)), λ h. absurd (other h.1)),
                    (λ e. absurd (apart_af (sym e)), λ h. absurd (ground (arith, no_units, h.1))),
                    (λ _. (refl, ground (arith, no_units), other), λ _. refl),
                  )
          ]
    ]
