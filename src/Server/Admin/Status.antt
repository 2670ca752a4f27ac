-- ===== src/Server/Admin/Status.antt =====
-- What `UpdateOrderStatus` stores and answers.
use mathlib.Core.Option.{some-injective}
use bakery_go.Common.{
  ◌≡◌, ◌⊎◌, inl, inr, refl, true, false, List, [], ◌∷◌, Option, none, some, ap, ◌∙◌, sym, subst,
  arith, String, str_eq, eq_iff, Bool-cases, ◌&&◌, not,
}
use bakery_go.Common.Int.{ℤ, int32}
use bakery_go.Common.Floats.{Floats}
use bakery_go.Data.Types.{BuyOrder}
use bakery_go.Data.Db.{OrderRow, Tables, Db, Result, ok, err, exec}
use bakery_go.Data.Db.Hoare.{Holds, Holds-mono, exec-Holds, ok_value}
use bakery_go.Data.Stock.Rows.{map_option}
use bakery_go.Data.Orders
use bakery_go.Data.Orders.{
  order_by_uuid, details_in, set_status, valid_status, shown_status, is_some, read_order,
  update_status_rows, get_buy_order_by_uuid,
}
use bakery_go.Data.Orders.Reading.{total_cost, get_order_total_cost}
use bakery_go.Data.Orders.Reading.Found.{FoundBy, get_buy_order_by_uuid-FoundBy}
use bakery_go.Proto.{BuyOrderSummary}
use bakery_go.Server.Shop.{Reply, replied, fails, internal}
use bakery_go.Server.Lookup.Replies.{get_order_total_cost-Holds}
use bakery_go.Server.Admin.{
  bill_if_completed, answer_order, with_order, after_update, update_order_status,
}

abbrev with_status : String → OrderRow → OrderRow
with_status s o = record o { status = s }

order_by_uuid-set_status :
    (u s : String) (l : List OrderRow)
    → order_by_uuid u (set_status u s l) ≡ map_option (with_status s) (order_by_uuid u l)
unfolding order_by_uuid set_status
order_by_uuid-set_status u s [] = refl
order_by_uuid-set_status u s (o ∷ os') = elim (Bool-cases (str_eq o.buy_order_uuid u)) [
  | inl hit ↦ rw (hit, hit) refl
  | inr miss ↦ rw (miss, miss) (order_by_uuid-set_status u s os')
]

-- The constraint of the table has no status `completed`.
not_completed : (s : String) → valid_status s ≡ true → str_eq s "completed" ≡ false
unfolding valid_status
not_completed s v = elim (Bool-cases (str_eq s "completed")) [
  | inl e ↦
      let bad : valid_status "completed" ≡ true =
        subst (λ x. valid_status x ≡ true) ((eq_iff s "completed").0 e) v in
      cc
  | inr e ↦ e
]

shown_valid : (s : String) → valid_status s ≡ true → shown_status s ≡ s
unfolding valid_status
shown_valid s v = elim (Bool-cases (str_eq s "")) [
  | inl e ↦
      let bad : valid_status "" ≡ true = subst (λ x. valid_status x ≡ true) ((eq_iff s "").0 e) v in
      cc
  | inr e ↦ rw e refl
]

module _ {F P : Type 0} where
  abbrev pub with_status_of : String → String → Tables F P → Tables F P
  with_status_of uuid s t = record t { orders = set_status uuid s t.orders }

  -- The update of a status that the table admits, or of no row.
  abbrev Updated : String → String → Tables F P → Tables F P → Type 0
  Updated uuid s t t' =
      (t' ≡ with_status_of uuid s t)
      × ((is_some (order_by_uuid uuid t.orders) && not (valid_status s)) ≡ false)

  update_status_rows-Updated :
      (uuid s : String) (t t' : Tables F P) (x : Unit {0})
      → update_status_rows uuid s t ≡ ok (x, t')
      → Updated uuid s t t'
  unfolding update_status_rows
  update_status_rows-Updated uuid s t t' x h =
      let bad = is_some (order_by_uuid uuid t.orders) && not (valid_status s) in
      elim (Bool-cases bad) [
        | inl e ↦ absurd (ground (arith, h, e))
        | inr e ↦
            let u = with_status_of uuid s t in
            let same : update_status_rows uuid s t ≡ ok (tt, u) = rw e refl in
            (
              sym (
                  ap (λ (p : Unit {0} × Tables F P). p.1)
                    (ok_value (tt, u) (x, t') (sym same ∙ h))),
              e,
            )
      ]

  update_order_status-Updated :
      (uuid s : String) (d : Db F P)
      → Holds
          (λ _ t. Updated uuid s d.tables t)
          (λ t. t ≡ d.tables)
          (Orders.update_order_status uuid s d)
  unfolding Orders.update_order_status
  update_order_status-Updated uuid s d =
      let f = update_status_rows uuid s in
      Holds-mono (λ x t. f d.tables ≡ ok (x, t)) (λ t. t ≡ d.tables)
        (λ _ t. Updated uuid s d.tables t) (λ t. t ≡ d.tables)
        (λ x t h. update_status_rows-Updated uuid s d.tables t x h) (λ _ e. e) (exec f d)
        (exec-Holds f d)

  -- The row of the order as it was: a row that is found after the update was there before, and then
  -- the table admits the status.
  row_before :
      (uuid s : String) (t : Tables F P) (o : Option OrderRow) (r : OrderRow)
      → order_by_uuid uuid t.orders ≡ o
      → (is_some o && not (valid_status s)) ≡ false
      → map_option (with_status s) o ≡ some r
      → (q : OrderRow) × (order_by_uuid uuid t.orders ≡ some q)
        × (r ≡ with_status s q)
        × (valid_status s ≡ true)
  row_before uuid s t none r e v h = absurd (ground (arith, h))
  row_before uuid s t (some q) r e v h =
      (q, e, sym (some-injective (with_status s q) r h), ground (arith, v))

module _ {F P : Type 0} (fl : Floats F) (to_numeric : F → F) (tax_rate : F) (now : ℤ)
    (number : String) where
  -- A reply tells of the order with the UUID, under the new status, and nothing but that status has
  -- changed. A call that fails has changed nothing, or stored the status before it failed.
  abbrev pub Answers : String → String → Tables F P → Reply (BuyOrderSummary F) × Db F P → Type 0
  Answers uuid s t (fails c, d) =
      (c ≡ internal) × ((d.tables ≡ t) ⊎ (d.tables ≡ with_status_of uuid s t))
  Answers uuid s t (replied l, d) =
      (r : OrderRow) × (order_by_uuid uuid t.orders ≡ some r)
      × (valid_status s ≡ true)
      × (str_eq s "completed" ≡ false)
      × (d.tables ≡ with_status_of uuid s t)
      × (l.id ≡ int32 r.id)
      × (l.customer_id ≡ int32 r.customer_id)
      × (l.buy_order_uuid ≡ r.buy_order_uuid)
      × (l.status ≡ s)
      × ((l.total_cost ≡ total_cost fl r.id d.tables) ⊎ (l.total_cost ≡ fl.zero))

  -- A status that the table admits bills nothing.
  unbilled :
      (s : String) (o : BuyOrder F) (c : F) (d : Db F P)
      → valid_status s ≡ true
      → bill_if_completed fl to_numeric tax_rate now number s o c d ≡ d
  unbilled s o c d v = rw (not_completed s v) refl

  answer_order-Answers :
      (uuid s : String) (t : Tables F P) (q : OrderRow) (o : BuyOrder F) (x : Result F × Db F P)
      → order_by_uuid uuid t.orders ≡ some q
      → valid_status s ≡ true
      → o ≡ read_order fl (with_status s q) (details_in q.id (with_status_of uuid s t))
      → Holds
          (λ c t'.
            (c ≡ total_cost fl q.id (with_status_of uuid s t)) × (t' ≡ with_status_of uuid s t))
          (λ t'. t' ≡ with_status_of uuid s t)
          x
      → Answers uuid s t (answer_order fl to_numeric tax_rate now number s o x)
  answer_order-Answers uuid s t q o (ok c, d) row v same h = rw (unbilled s o c d v) (
      (
        q,
        row,
        v,
        not_completed s v,
        h.1,
        ap (λ (x : BuyOrder F). int32 x.id) same,
        ap (λ (x : BuyOrder F). int32 x.customer_id) same,
        ap (λ (x : BuyOrder F). x.buy_order_uuid) same,
        ap (λ (x : BuyOrder F). x.status) same ∙ shown_valid s v,
        inl (h.0 ∙ ap (total_cost fl q.id) (sym h.1)),
      ))
  answer_order-Answers uuid s t q o (err e, d) row v same h = rw (unbilled s o fl.zero d v) (
      (
        q,
        row,
        v,
        not_completed s v,
        h,
        ap (λ (x : BuyOrder F). int32 x.id) same,
        ap (λ (x : BuyOrder F). int32 x.customer_id) same,
        ap (λ (x : BuyOrder F). x.buy_order_uuid) same,
        ap (λ (x : BuyOrder F). x.status) same ∙ shown_valid s v,
        inr refl,
      ))

  with_order-Answers :
      (uuid s : String) (t t1 : Tables F P) (x : Result (BuyOrder F) × Db F P)
      → Updated uuid s t t1
      → Holds (FoundBy fl (order_by_uuid uuid) t1) (λ t'. t' ≡ t1) x
      → Answers uuid s t (with_order fl to_numeric tax_rate now number s x)
  with_order-Answers uuid s t t1 (err e, d) u h = (refl, inr (h ∙ u.0))
  with_order-Answers uuid s t t1 (ok o, d) u h =
      let after = ap (λ (x : Tables F P). order_by_uuid uuid x.orders) u.0 in
      let b =
        row_before uuid s t (order_by_uuid uuid t.orders) h.1.0 refl u.1
          (sym (order_by_uuid-set_status uuid s t.orders) ∙ sym after ∙ h.1.1) in
      let same =
        h.1.2
        ∙ ap (λ (r : OrderRow). read_order fl r (details_in r.id t1)) b.2
        ∙ ap (λ (x : Tables F P). read_order fl (with_status s b.0) (details_in b.0.id x)) u.0 in
      let id_is = ap (λ (x : BuyOrder F). x.id) same in
      answer_order-Answers uuid s t b.0 o (get_order_total_cost fl o.id d) b.1 b.3 same (
        subst
          (λ (i : ℤ).
            Holds
              (λ c t'.
                (c ≡ total_cost fl i (with_status_of uuid s t)) × (t' ≡ with_status_of uuid s t))
              (λ t'. t' ≡ with_status_of uuid s t) (get_order_total_cost fl o.id d))
          id_is
          (subst
            (λ (x : Tables F P).
              Holds (λ c t'. (c ≡ total_cost fl o.id x) × (t' ≡ x)) (λ t'. t' ≡ x)
                (get_order_total_cost fl o.id d))
            (h.0 ∙ u.0) (get_order_total_cost-Holds fl o.id d)))

  after_update-Answers :
      (uuid s : String) (t : Tables F P) (x : Result (Unit {0}) × Db F P)
      → Holds (λ _ t'. Updated uuid s t t') (λ t'. t' ≡ t) x
      → Answers uuid s t (after_update fl to_numeric tax_rate now number uuid s x)
  after_update-Answers uuid s t (err e, d) h = (refl, inl h)
  after_update-Answers uuid s t (ok y, d) h =
      with_order-Answers uuid s t d.tables (get_buy_order_by_uuid fl uuid d) h
        (get_buy_order_by_uuid-FoundBy fl uuid d)

  -- UpdateOrderStatus. A reply tells of the order that had the UUID, under the new status, which is
  -- one that the table admits; that status is stored and nothing else has changed. So no reply is
  -- ever about the status `completed`, and no call makes an invoice. A call that fails has the code
  -- for an internal error, and it has changed nothing or stored the status before it failed.
  pub update_order_status-Answers :
      (uuid s : String) (d : Db F P)
      → Answers uuid s d.tables (update_order_status fl to_numeric tax_rate now number uuid s d)
  unfolding update_order_status
  update_order_status-Answers uuid s d =
      after_update-Answers uuid s d.tables (Orders.update_order_status uuid s d)
        (update_order_status-Updated uuid s d)
