-- ===== src/Server/Listing/Owned.antt =====
-- Whose orders a list of a customer's orders shows.
use mathlib.Core.Option
use bakery_go.Common.{
  ◌≡◌, refl, Bool, true, false, List, [], ◌∷◌, Option, none, some, ap, ◌∙◌, sym, subst, All,
  Bool-cases, inl, inr,
}
use bakery_go.Common.Int.{ℤ, eqb_ℤ, int32}
use bakery_go.Common.Floats.{Floats}
use bakery_go.Common.Sorting.{Sorter, All-perm}
use bakery_go.Data.Types.{BuyOrder}
use bakery_go.Data.Db.{OrderRow, DetailRow, Tables, Db, Result, ok, err, exec, pure}
use bakery_go.Data.Db.Hoare.{Holds, Holds-mono, and_then-Holds, exec-Holds, ok_value}
use bakery_go.Data.Stock.Rows.{eqb_ℤ_eq}
use bakery_go.Data.Orders.{details_in}
use bakery_go.Data.Orders.Reading.{
  orders_of, id_desc, consed, query_details, or_skip, read_each, get_customer_orders,
  get_order_total_cost,
}
use bakery_go.Data.Accounts.{
  Customer, Accounts, customer_by_id, get_customer_by_id, query, query_under, or_no_rows,
  without_password,
}
use bakery_go.Proto.{BuyOrderSummary, CustomerOrdersResponse}
use bakery_go.Server.Shop.{Reply, replied, fails}
use bakery_go.Server.Lookup.Replies.{get_order_total_cost-Holds}
use bakery_go.Server.Listing.{
  my_summary, total_or_zero, summarise, orders_response, orders_for, get_my_orders,
}

-- Rows and orders of the customer.
orders_of-own :
    (c : ℤ) (l : List OrderRow) → All (λ o. eqb_ℤ o.customer_id c ≡ true) (orders_of c l)
unfolding orders_of
orders_of-own c [] = tt
orders_of-own c (o ∷ os') = elim (Bool-cases (eqb_ℤ o.customer_id c)) [
  | inl own ↦ rw own ((own, orders_of-own c os'))
  | inr other ↦ rw other (orders_of-own c os')
]

-- What a look-up of a customer gives out.
abbrev pub FoundCustomer : ℤ → Accounts → Result Customer → Type 0
FoundCustomer id a (err e) = Unit {0}
FoundCustomer id a (ok c) =
    (row : Customer) × (customer_by_id id a.customers ≡ some row)
    × (c.name ≡ row.name)
    × (c.email ≡ row.email)

get_customer_by_id-Found : (id : ℤ) (a : Accounts) → FoundCustomer id a (get_customer_by_id id a).0
unfolding get_customer_by_id query
get_customer_by_id-Found id a = faults a.faults
  where
    row :
        (o : Option Customer)
        → customer_by_id id a.customers ≡ o
        → FoundCustomer id a (or_no_rows (Option.map without_password o))
    row none e = tt
    row (some c) e = (c, e, refl, refl)

    faults :
        (fs : List Bool)
        → FoundCustomer id a
            (query_under fs
              (λ b. (or_no_rows (Option.map without_password (customer_by_id id b.customers)), b))
              a).0
    faults [] = row (customer_by_id id a.customers) refl
    faults (false ∷ fs) = row (customer_by_id id a.customers) refl
    faults (true ∷ fs) = tt

module _ {F P : Type 0} (fl : Floats F) where
  abbrev pub OfCustomer : ℤ → Tables F P → List (BuyOrder F) → Tables F P → Type 0
  OfCustomer c t os' t' = All (λ (o : BuyOrder F). eqb_ℤ o.customer_id c ≡ true) os' × (t' ≡ t)

  or_skip-own :
      (c : ℤ) (o : OrderRow) (t : Tables F P) (r : Result (List (DetailRow F)) × Db F P)
      → eqb_ℤ o.customer_id c ≡ true
      → r.1.tables ≡ t
      → Holds
          (λ (x : Option (BuyOrder F)) t'.
            ((l : List (BuyOrder F))
              → All (λ (o : BuyOrder F). eqb_ℤ o.customer_id c ≡ true) l
              → All (λ (o : BuyOrder F). eqb_ℤ o.customer_id c ≡ true) (consed x l))
            × (t' ≡ t))
          (λ t'. t' ≡ t)
          (or_skip fl o r)
  or_skip-own c o t (ok rows, d) own e = (λ l h. (own, h), e)
  or_skip-own c o t (err x, d) own e = (λ l h. h, e)

  query_details-tables : (id : ℤ) (d : Db F P) → (query_details fl id d).1.tables ≡ d.tables
  unfolding query_details
  query_details-tables id d =
      let f = λ (t : Tables F P). ok (details_in id t, t) in go (exec f d) (exec-Holds f d)
    where
      go :
          (r : Result (List (DetailRow F)) × Db F P)
          → Holds
              (λ a t.
                let found : Result (List (DetailRow F) × Tables F P) =
                  ok (details_in id d.tables, d.tables) in
                found ≡ ok (a, t))
              (λ t. t ≡ d.tables)
              r
          → r.1.tables ≡ d.tables
      go (err e, d') h = h
      go (ok l, d') h = sym (
          ap (λ (q : List (DetailRow F) × Tables F P). q.1)
            (ok_value (details_in id d.tables, d.tables) (l, d'.tables) h))

  read_each-own :
      (c : ℤ) (rows : List OrderRow) (d : Db F P)
      → All (λ o. eqb_ℤ o.customer_id c ≡ true) rows
      → Holds (OfCustomer c d.tables) (λ t. t ≡ d.tables) (read_each fl rows d)
  unfolding read_each
  read_each-own c [] d own = (tt, refl)
  read_each-own c (o ∷ os') d own =
      and_then-Holds _ (λ t. t ≡ d.tables) (OfCustomer c d.tables) (λ t. t ≡ d.tables) _
        (or_skip fl o (query_details fl o.id d))
        (or_skip-own c o d.tables (query_details fl o.id d) own.0 (query_details-tables o.id d))
        (λ first d' h.
          and_then-Holds (OfCustomer c d'.tables) (λ t. t ≡ d'.tables) (OfCustomer c d.tables)
            (λ t. t ≡ d.tables) (λ rest. pure (consed first rest)) (read_each fl os' d')
            (read_each-own c os' d' own.1) (λ rest d'' k. (h.0 rest k.0, k.1 ∙ h.1))
            (λ t e. e ∙ h.1))
        (λ _ e. e)

  get_customer_orders-own :
      (order_by : Sorter OrderRow) (c : ℤ) (d : Db F P)
      → Holds (OfCustomer c d.tables) (λ t. t ≡ d.tables) (get_customer_orders fl order_by c d)
  unfolding get_customer_orders
  get_customer_orders-own order_by c d =
      let rows = λ (t : Tables F P). order_by.sort id_desc (orders_of c t.orders) in
      let f = λ (t : Tables F P). ok (rows t, t) in
      and_then-Holds (λ l t. f d.tables ≡ ok (l, t)) (λ t. t ≡ d.tables) (OfCustomer c d.tables)
        (λ t. t ≡ d.tables) _ (exec f d) (exec-Holds f d)
        (λ l d' h.
          let p = ok_value (rows d.tables, d.tables) (l, d'.tables) h in
          let same : d'.tables ≡ d.tables = sym (ap (λ (q : List OrderRow × Tables F P). q.1) p) in
          let own =
            subst (λ (r : List OrderRow). All (λ o. eqb_ℤ o.customer_id c ≡ true) r)
              (ap (λ (q : List OrderRow × Tables F P). q.0) p)
              (All-perm (λ (o : OrderRow). eqb_ℤ o.customer_id c) (rows d.tables)
                (orders_of c d.tables.orders) (order_by.perm id_desc (orders_of c d.tables.orders))
                (orders_of-own c d.tables.orders)) in
          Holds-mono (OfCustomer c d'.tables) (λ t. t ≡ d'.tables) (OfCustomer c d.tables)
            (λ t. t ≡ d.tables) (λ os' t k. (k.0, k.1 ∙ same)) (λ t e. e ∙ same) (read_each fl l d')
            (read_each-own c l d' own))
        (λ _ e. e)

  total_or_zero-tables :
      (id : ℤ) (d : Db F P) → (total_or_zero fl (get_order_total_cost fl id d)).1.tables ≡ d.tables
  total_or_zero-tables id d =
      go _ (get_order_total_cost fl id d) (get_order_total_cost-Holds fl id d)
    where
      go :
          (Q : F → Tables F P → Type 0) (r : Result F × Db F P)
          → Holds (λ c t. Q c t × (t ≡ d.tables)) (λ t. t ≡ d.tables) r
          → (total_or_zero fl r).1.tables ≡ d.tables
      go Q (ok c, d') h = h.1
      go Q (err e, d') h = h

  my_summaries-own :
      (c : ℤ) (os' : List (BuyOrder F)) (d : Db F P)
      → All (λ (o : BuyOrder F). eqb_ℤ o.customer_id c ≡ true) os'
      → let r = summarise fl my_summary os' d in
        All (λ (s : BuyOrderSummary F). s.customer_id ≡ int32 c) r.0 × (r.1.tables ≡ d.tables)
  unfolding summarise
  my_summaries-own c [] d own = (tt, refl)
  my_summaries-own c (o ∷ os') d own =
      let d' = (total_or_zero fl (get_order_total_cost fl o.id d)).1 in
      let rest = my_summaries-own c os' d' own.1 in
      ((ap int32 (eqb_ℤ_eq o.customer_id c own.0), rest.0), rest.1 ∙ total_or_zero-tables o.id d)

  -- A reply shows the customer of the id, and orders of that customer only.
  abbrev pub ShowsOwn :
      ℤ → Accounts × Db F P → Reply (CustomerOrdersResponse F) × (Accounts × Db F P) → Type 0
  ShowsOwn id (a, d) (fails c, (a', d')) = d'.tables ≡ d.tables
  ShowsOwn id (a, d) (replied l, (a', d')) =
      (c : Customer) × (customer_by_id id a.customers ≡ some c)
      × (l.customer.name ≡ c.name)
      × (l.customer.email ≡ c.email)
      × All (λ (s : BuyOrderSummary F). s.customer_id ≡ int32 id) l.orders
      × (d'.tables ≡ d.tables)

  orders_response-ShowsOwn :
      (id : ℤ) (a a' : Accounts) (d : Db F P) (row c : Customer)
      (r : Result (List (BuyOrder F)) × Db F P)
      → customer_by_id id a.customers ≡ some row
      → (c.name ≡ row.name) × (c.email ≡ row.email)
      → Holds (OfCustomer id d.tables) (λ t. t ≡ d.tables) r
      → let x = orders_response fl my_summary c r in ShowsOwn id (a, d) (x.0, (a', x.1))
  orders_response-ShowsOwn id a a' d row c (err e, d') known same h = h
  orders_response-ShowsOwn id a a' d row c (ok os', d') known same h =
      let s = my_summaries-own id os' d' h.0 in (row, known, same.0, same.1, s.0, s.1 ∙ h.1)

  orders_for-ShowsOwn :
      (order_by : Sorter OrderRow) (id : ℤ) (a : Accounts) (d : Db F P)
      (r : Result Customer × Accounts)
      → FoundCustomer id a r.0
      → ShowsOwn id (a, d) (orders_for fl my_summary order_by id r d)
  orders_for-ShowsOwn order_by id a d (err e, a') h = refl
  orders_for-ShowsOwn order_by id a d (ok c, a') h =
      orders_response-ShowsOwn id a a' d h.0 c (get_customer_orders fl order_by id d) h.1 (h.2, h.3)
        (get_customer_orders-own order_by id d)

  -- GetMyOrders. A reply shows the name and the email of the customer with the id in the request,
  -- and only orders of that customer, with its id as a 32-bit number. No call changes the tables.
  pub get_my_orders-ShowsOwn :
      (order_by : Sorter OrderRow) (id : ℤ) (a : Accounts) (d : Db F P)
      → ShowsOwn id (a, d) (get_my_orders fl order_by id (a, d))
  unfolding get_my_orders
  get_my_orders-ShowsOwn order_by id a d =
      orders_for-ShowsOwn order_by id a d (get_customer_by_id id a) (get_customer_by_id-Found id a)
