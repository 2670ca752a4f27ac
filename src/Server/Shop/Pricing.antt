-- ===== src/Server/Shop/Pricing.antt =====
-- What `BuyBread` orders, and at which prices.
use bakery_go.Common.{
  ◌≡◌, refl, List, [], ◌∷◌, ◌++◌, Option, none, some, ap, ◌∙◌, sym, arith, subst, ◌⊎◌, inl, inr,
  Bool, true, Bool-cases, String, str_eq, false, if◌then◌else◌,
}
use bakery_go.Common.Int.{ℤ, pos, eqb_ℤ, ◌+ℤ◌, int64}
use bakery_go.Common.Floats.{Floats}
use bakery_go.Data.Types.{Bread, BuyOrder}
use bakery_go.Data.Db.{Tables, Db, Result, ok, apply, statement, exec, breaks, later}
use bakery_go.Data.Db.Hoare.{Holds, Holds-mono, exec-Holds, ok_value}
use bakery_go.Data.Breads.{bread_by_id, bread_or_no_rows, get_bread_by_id}
use bakery_go.Proto
use bakery_go.Proto.{BuyOrderPreferences, BreadRequest, BreadResponse}
use bakery_go.Server.Shop.{
  Reply, replied, fails, Call, Counter, uuid_or, bought, priced, look_up_each, ordered_by,
  send_order, buy_bread,
}

module _ {F : Type 0} where
  -- An ordered bread: that of the catalogue with the requested number, or, if the query fails or
  -- the catalogue has no bread of the id, that of the client with the client's price.
  abbrev pub PricedFrom : List (Bread F) → Bool → Proto.Bread F → Bread F → Type 0
  PricedFrom catalogue failed bread b =
      ((c : Bread F) × (bread_by_id bread.id catalogue ≡ some c)
        × (failed ≡ false)
        × (b ≡ record c { quantity = bread.quantity; status = "Bought" }))
      ⊎ (((failed ≡ true) ⊎ (bread_by_id bread.id catalogue ≡ none))
          × (b.id ≡ bread.id)
          × (b.price ≡ bread.price)
          × (b.quantity ≡ bread.quantity)
          × (b.status ≡ "Bought"))

  -- `faults` are those of the statements to come, one for each bread.
  abbrev pub AllPriced : List (Bread F) → List Bool → List (Proto.Bread F) → List (Bread F) → Type 0
  AllPriced catalogue faults [] [] = Unit
  AllPriced catalogue faults [] (b ∷ bs) = ⊥
  AllPriced catalogue faults (r ∷ rs) [] = ⊥
  AllPriced catalogue faults (r ∷ rs) (b ∷ bs) =
      PricedFrom catalogue (breaks faults) r b × AllPriced catalogue (later faults) rs bs

module _ {F P : Type 0} where
  found_bread :
      (o : Option (Bread F)) (t t' : Tables F P) (b : Bread F)
      → bread_or_no_rows o t ≡ ok (b, t')
      → (o ≡ some b) × (t' ≡ t)
  found_bread none t t' b h = absurd (ground (arith, h))
  found_bread (some c) t t' b h =
      let p = ok_value (c, t) (b, t') h in
      (
        ap (λ (q : Bread F × Tables F P). some q.0) p,
        sym (ap (λ (q : Bread F × Tables F P). q.1) p),
      )

  -- GetBreadByID gives out the row of the id and changes nothing.
  pub get_bread_by_id-Holds :
      (id : ℤ) (d : Db F P)
      → Holds
          (λ b t. (bread_by_id id d.tables.breads ≡ some b) × (t ≡ d.tables))
          (λ t. t ≡ d.tables)
          (get_bread_by_id id d)
  unfolding get_bread_by_id
  get_bread_by_id-Holds id d =
      let read = λ (t : Tables F P). bread_or_no_rows (bread_by_id id t.breads) t in
      Holds-mono (λ b t. read d.tables ≡ ok (b, t)) (λ t. t ≡ d.tables)
        (λ b t. (bread_by_id id d.tables.breads ≡ some b) × (t ≡ d.tables)) (λ t. t ≡ d.tables)
        (λ b t h. found_bread (bread_by_id id d.tables.breads) d.tables t b h) (λ _ e. e)
        (exec read d) (exec-Holds read d)

  -- A look-up of a bread as far as the price needs it: what is ordered, the tables, and the
  -- statements to come.
  abbrev LooksUp : Proto.Bread F → Tables F P → List Bool → Result (Bread F) × Db F P → Type 0
  LooksUp bread t faults r =
      PricedFrom t.breads (breaks faults) bread (priced bread r.0)
      × (r.1.tables ≡ t)
      × (r.1.faults ≡ later faults)

  found-LooksUp :
      (bread : Proto.Bread F) (t : Tables F P) (faults : List Bool) (d : Db F P)
      (o : Option (Bread F))
      → breaks faults ≡ false
      → bread_by_id bread.id t.breads ≡ o
      → d.tables ≡ t
      → d.faults ≡ later faults
      → LooksUp bread t faults (apply (bread_or_no_rows o t) d)
  found-LooksUp bread t faults d none going e same rest =
      (inr (inr e, refl, refl, refl, refl), same, rest)
  found-LooksUp bread t faults d (some c) going e same rest = (inl (c, e, going, refl), refl, rest)

  look_up-LooksUp :
      (bread : Proto.Bread F) (d : Db F P) (faults : List Bool)
      → d.faults ≡ faults
      → LooksUp bread d.tables faults (get_bread_by_id bread.id d)
  unfolding get_bread_by_id exec statement
  look_up-LooksUp bread d [] e = rw e (
      found-LooksUp bread d.tables [] (record d { faults = [] })
        (bread_by_id bread.id d.tables.breads) refl refl refl refl)
  look_up-LooksUp bread d (false ∷ fs) e = rw e (
      found-LooksUp bread d.tables (false ∷ fs) (record d { faults = fs })
        (bread_by_id bread.id d.tables.breads) refl refl refl refl)
  look_up-LooksUp bread d (true ∷ fs) e =
      rw e ((inr (inl refl, refl, refl, refl, refl), refl, refl))

  look_up_each-AllPriced :
      (bs : List (Proto.Bread F)) (d : Db F P)
      → AllPriced d.tables.breads d.faults bs (look_up_each bs d).0
        × ((look_up_each bs d).1.tables ≡ d.tables)
  unfolding look_up_each
  look_up_each-AllPriced [] d = (tt, refl)
  look_up_each-AllPriced (b ∷ bs) d =
      let one = look_up-LooksUp b d d.faults refl in
      let d' = (get_bread_by_id b.id d).1 in
      let rest = look_up_each-AllPriced bs d' in
      let bread_list = (look_up_each bs d').0 in
      (
        (
          one.0,
          subst (λ (fs : List Bool). AllPriced d.tables.breads fs bs bread_list) one.2
              (subst (λ (t : Tables F P). AllPriced t.breads d'.faults bs bread_list) one.1 rest.0),
        ),
        rest.1 ∙ one.1,
      )

module _ {F : Type 0} (fl : Floats F) where
  -- The order has the buyer's preferences, and the weakest ones by default.
  abbrev pub Preferred : Option (BuyOrderPreferences F) → BuyOrder F → Type 0
  Preferred none o =
      (o.bid_price ≡ fl.zero) × (o.allow_partial ≡ false) × (o.skip_unavailable_items ≡ false)
  Preferred (some p) o =
      (o.bid_price ≡ p.bid_price)
      × (o.allow_partial ≡ p.allow_partial)
      × (o.skip_unavailable_items ≡ p.skip_unavailable_items)

  -- Whose order it is, and under which UUID and number.
  abbrev pub Addressed :
      {B : Type 0} → Call B → ℤ → BreadRequest F → List (Bread F) → BuyOrder F → Type 0
  Addressed call sequence req breads o =
      (o.buy_order_uuid
        ≡ (if str_eq req.buy_order_uuid "" then call.new_uuid else req.buy_order_uuid))
      × (o.customer_id
          ≡ (if eqb_ℤ call.context_customer (pos 0) then pos 1 else call.context_customer))
      × (o.sequence_number ≡ sequence)
      × (o.breads ≡ breads)
      × Preferred req.preferences o

  uuid_or-if : (new uuid : String) → uuid_or new uuid ≡ (if str_eq uuid "" then new else uuid)
  uuid_or-if new uuid = elim (Bool-cases (str_eq uuid "")) [
    | inl blank ↦ rw blank refl
    | inr given ↦ rw given refl
  ]

  pub ordered_by-Addressed :
      {B : Type 0} (call : Call B) (sequence : ℤ) (uuid : String) (breads : List (Bread F))
      (rs : List (Proto.Bread F)) (o : Option (BuyOrderPreferences F))
      → let req : BreadRequest F = record { breads = rs; buy_order_uuid = uuid; preferences = o } in
        Addressed call sequence req breads (ordered_by fl call sequence req breads)
  ordered_by-Addressed call sequence uuid breads rs none =
      (uuid_or-if call.new_uuid uuid, refl, refl, refl, (refl, refl, refl))
  ordered_by-Addressed call sequence uuid breads rs (some p) =
      (uuid_or-if call.new_uuid uuid, refl, refl, refl, (refl, refl, refl))

module _ {F P B : Type 0} (fl : Floats F) (marshal : BuyOrder F → Option B) where
  -- A call that was answered has published one order, and one that was refused none.
  abbrev pub Bought :
      Call B → BreadRequest F → Counter F P B → Reply (BreadResponse F) × Counter F P B → Type 0
  Bought call req s (replied r, s') =
      (breads : List (Bread F)) × (bytes : B) × AllPriced s.db.tables.breads s.db.faults req.breads
        breads
      × (marshal (ordered_by fl call s'.order_sequence req breads) ≡ some bytes)
      × (s'.order_sequence ≡ int64 (s.order_sequence +ℤ pos 1))
      × (s'.queue ≡ s.queue ++ bytes ∷ [])
      × (r ≡ bought breads)
      × (s'.db.tables ≡ s.db.tables)
  Bought call req s (fails c, s') = (s'.queue ≡ s.queue) × (s'.db.tables ≡ s.db.tables)

  send_order-Bought :
      (call : Call B) (req : BreadRequest F) (s : Counter F P B) (o : Option B)
      → let sequence = int64 (s.order_sequence +ℤ pos 1) in
        let looked = look_up_each req.breads s.db in
        let order = ordered_by fl call sequence req looked.0 in
        marshal order ≡ o
        → Bought call req s (
            send_order fl marshal call order o
              (record s { db = looked.1; order_sequence = sequence }))
  send_order-Bought call req s none m = (refl, (look_up_each-AllPriced req.breads s.db).1)
  send_order-Bought call req s (some bytes) m =
      let looked = look_up_each-AllPriced req.breads s.db in
      elim (Bool-cases call.is_cancelled) [
        | inl cancelled ↦ rw cancelled ((refl, looked.1))
        | inr going ↦ elim (Bool-cases (call.publish_works bytes)) [
          | inr broken ↦ rw (going, broken) ((refl, looked.1))
          | inl works ↦
              rw (going, works)
                (((look_up_each req.breads s.db).0, bytes, looked.0, m, refl, refl, refl, looked.1))
        ]
      ]

  -- BuyBread. A call that is answered has published one order: under the UUID of the request or the
  -- new one, with the next sequence number, for the customer of the context or customer 1, with the
  -- preferences, and with every requested bread as the catalogue has it, at its price, or at the
  -- client's price where, and only where, the look-up failed or the catalogue has no such bread. The reply lists those breads. A call that fails
  -- publishes nothing, and neither changes the tables.
  pub buy_bread-Bought :
      (call : Call B) (req : BreadRequest F) (s : Counter F P B)
      → Bought call req s (buy_bread fl marshal call req s)
  unfolding buy_bread
  buy_bread-Bought call req s =
      let looked = look_up_each req.breads s.db in
      let order = ordered_by fl call (int64 (s.order_sequence +ℤ pos 1)) req looked.0 in
      elim (Bool-cases call.connected) [
        | inl there ↦ rw there (send_order-Bought call req s (marshal order) refl)
        | inr away ↦ rw away ((refl, refl))
      ]
