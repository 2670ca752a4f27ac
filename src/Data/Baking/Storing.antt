-- ===== src/Data/Baking/Storing.antt =====
-- What `InsertPendingMakeOrder` adds.
use bakery_go.Common.{
  ◌≡◌, refl, [], ◌∷◌, ◌++◌, ap, ◌∙◌, sym, arith, Bool-cases, inl, inr, ◌||◌, not,
}
use bakery_go.Common.Int.{ℤ, pos, ◌+ℤ◌}
use bakery_go.Data.Types.{PendingMakeOrder}
use bakery_go.Data.Db.{Tables, Db, ok, exec}
use bakery_go.Data.Db.Hoare.{Holds, Holds-mono, exec-Holds, ok_value}
use bakery_go.Data.Orders.{has_bread}
use bakery_go.Data.Baking.{
  valid_pending_status, valid_source, has_pending, insert_pending_row, insert_pending_make_order,
}

module _ {F P : Type 0} where
  -- The row is added, and nothing else changes.
  abbrev pub with_pending : PendingMakeOrder → Tables F P → Tables F P
  with_pending row t = record t { pending = t.pending ++ row ∷ [] }

  insert_pending_row-Row :
      (row : PendingMakeOrder) (t : Tables F P) (id : ℤ) (t' : Tables F P)
      → insert_pending_row row t ≡ ok (id, t')
      → t' ≡ with_pending row t
  unfolding insert_pending_row
  insert_pending_row-Row row t id t' h =
      elim (Bool-cases (not (valid_pending_status row.status) || not (valid_source row.source))) [
        | inl bad ↦ absurd (ground (arith, h, bad))
        | inr good ↦ elim (Bool-cases (has_pending row.id t.pending)) [
          | inl taken ↦ absurd (ground (arith, h, good, taken))
          | inr fresh ↦ elim (Bool-cases (has_bread row.bread_id t.breads)) [
            | inr missing ↦ absurd (ground (arith, h, good, fresh, missing))
            | inl there ↦
                let e : insert_pending_row row t ≡ ok (row.id, with_pending row t) =
                  rw (good, fresh, there) refl in
                sym (
                  ap (λ (q : ℤ × Tables F P). q.1)
                    (ok_value (row.id, with_pending row t) (id, t') (sym e ∙ h)))
          ]
        ]
      ]

  -- The row of a request that went through.
  abbrev pub stored_row : ℤ → PendingMakeOrder → Db F P → PendingMakeOrder
  stored_row now order d = record order { id = d.next_pending; created_at = now }

  pub insert_pending_make_order-Holds :
      (now : ℤ) (order : PendingMakeOrder) (d : Db F P)
      → Holds
          (λ _ t. t ≡ with_pending (stored_row now order d) d.tables)
          (λ t. t ≡ d.tables)
          (insert_pending_make_order now order d)
  unfolding insert_pending_make_order
  insert_pending_make_order-Holds now order d =
      let row = stored_row now order d in
      let d' = record d { next_pending = d.next_pending +ℤ pos 1 } in
      Holds-mono (λ id t. insert_pending_row row d.tables ≡ ok (id, t)) (λ t. t ≡ d.tables)
        (λ _ t. t ≡ with_pending row d.tables) (λ t. t ≡ d.tables)
        (λ id t h. insert_pending_row-Row row d.tables id t h) (λ _ e. e)
        (exec (insert_pending_row row) d') (exec-Holds (insert_pending_row row) d')
