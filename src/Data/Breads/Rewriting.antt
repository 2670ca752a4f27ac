-- ===== src/Data/Breads/Rewriting.antt =====
-- What an UPDATE of a bread leaves of every row.
use bakery_go.Common.{
  ◌≡◌, refl, List, [], ◌∷◌, sym, ap, arith, Bool-cases, inl, inr, if◌then◌else◌, ◌∙◌,
}
use bakery_go.Common.Int.{ℤ, eqb_ℤ}
use bakery_go.Data.Types.{Bread}
use bakery_go.Data.Db.{Tables, Db, ok, exec}
use bakery_go.Data.Db.Hoare.{Holds, Holds-mono, exec-Holds, ok_value}
use bakery_go.Data.Stock.{non_negative}
use bakery_go.Data.Stock.Rows.{map_option, eqb_ℤ_eq}
use bakery_go.Data.Breads.{bread_by_id, change_bread, rewritten, checked_breads, update_bread}

module _ {F : Type 0} where
  -- A row of the id `id` is changed by `f`, which keeps the id, and no other row is.
  pub bread_by_id-change_bread :
      (id j : ℤ) (f : Bread F → Bread F) (bs : List (Bread F))
      → ((b : Bread F) → (f b).id ≡ b.id)
      → bread_by_id j (change_bread id f bs)
        ≡ map_option (λ b. if eqb_ℤ j id then f b else b) (bread_by_id j bs)
  unfolding bread_by_id change_bread
  bread_by_id-change_bread id j f [] same = refl
  bread_by_id-change_bread id j f (b ∷ bs) same =
      let rest = bread_by_id-change_bread id j f bs same in
      ground (arith, rest, same b, eqb_ℤ_eq b.id j, eqb_ℤ_eq b.id id, eqb_ℤ_eq j id)

module _ {F P : Type 0} where
  abbrev pub Rewritten : Bread F → Tables F P → Tables F P → Type 0
  Rewritten bread t t' = t' ≡ record t { breads = change_bread bread.id (rewritten bread) t.breads }

  checked_breads-whole :
      (bs : List (Bread F)) (t t' : Tables F P) (x : Unit {0})
      → checked_breads bs t ≡ ok (x, t')
      → t' ≡ record t { breads = bs }
  checked_breads-whole bs t t' x h = elim (Bool-cases (non_negative bs)) [
    | inl good ↦
        let u = record t { breads = bs } in
        let e : checked_breads bs t ≡ ok (tt, u) = rw good refl in
        sym (ap (λ (q : Unit {0} × Tables F P). q.1) (ok_value (tt, u) (x, t') (sym e ∙ h)))
    | inr bad ↦ absurd (ground (arith, h, bad))
  ]

  pub update_bread-Rewritten :
      (bread : Bread F) (d : Db F P)
      → Holds (λ _ t. Rewritten bread d.tables t) (λ t. t ≡ d.tables) (update_bread bread d)
  unfolding update_bread
  update_bread-Rewritten bread d =
      let f =
        λ (t : Tables F P). checked_breads (change_bread bread.id (rewritten bread) t.breads) t in
      Holds-mono (λ x t. f d.tables ≡ ok (x, t)) (λ t. t ≡ d.tables)
        (λ _ t. Rewritten bread d.tables t) (λ t. t ≡ d.tables)
        (λ x t h.
          checked_breads-whole (change_bread bread.id (rewritten bread) d.tables.breads) d.tables t
            x h)
        (λ _ e. e) (exec f d) (exec-Holds f d)
