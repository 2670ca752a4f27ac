-- ===== src/Broker/Purchase.antt =====
-- A purchase from the request to the stored order: BuyBread of server/gRPCBakery.go publishes it,
-- processOneOrder of broker/main.go takes it from the queue and calls, through Retry, ReportOrder of
-- server/broker_service.go stores it, and a look-up of data/models.go reads it. In between,
-- anything may happen to the database.
use mathlib.Core.List.{Perm}
use bakery_go.Resilience.Breaker.{CircuitBreaker}
use bakery_go.Data.Db
use bakery_go.Broker.Client.{Network}
use bakery_go.Broker.Client.Retried.{reported}
use bakery_go.Broker.Client.Replies.{StoredAs}
use bakery_go.Broker.Client.Reporting.{Settled, process_one_order-Settled}
use bakery_go.Common.{
  ◌≡◌, inl, inr, refl, List, [], ◌∷◌, ◌++◌, Option, none, some, map, sym, ap, ◌∙◌, subst, String,
  if◌then◌else◌, str_eq, arith,
}
use bakery_go.Common.Int.{ℤ, int32}
use bakery_go.Common.Floats.{Floats}
use bakery_go.Data.Types.{Bread, BuyOrder}
use bakery_go.Data.Db.{DetailRow, Tables, Db, Result, ok, err}
use bakery_go.Data.Db.Hoare.{Holds, Holds-mono}
use bakery_go.Data.Orders.{order_by_uuid, get_buy_order_by_uuid}
use bakery_go.Data.Orders.Reading.Found.{FoundBy, get_buy_order_by_uuid-FoundBy}
use bakery_go.Data.Orders.Reading.RoundTrip.{Referring, Inserted-Reads, bare}
use bakery_go.Proto.{BreadRequest, BreadResponse, BrokerOrderResult}
use bakery_go.Server.BrokerService.{proto_to_data_buy_order, proto_to_data_breads, ordered_bread}
use bakery_go.Server.Shop.{Call, Counter, Reply, replied, ordered_by, buy_bread}
use bakery_go.Server.Shop.Pricing.{
  AllPriced, Bought, buy_bread-Bought, Addressed, ordered_by-Addressed,
}
use bakery_go.Broker.Orders.{Verdict, pending_item, data_to_proto_buy_order, process_one_order}

module _ {F : Type 0} where
  -- A bread of an order as the database keeps it.
  abbrev pub stored_bread : (F → F) → Bread F → Bread F
  stored_bread numeric b = record {
    id = int32 b.id;
    name = "";
    price = numeric b.price;
    quantity = int32 b.quantity;
    image = "";
    description = "";
    kind = "";
    status = "";
  }

  bare-stored :
      (numeric : F → F) (bs : List (Bread F))
      → map (bare numeric) (map ordered_bread (map pending_item bs)) ≡ map (stored_bread numeric) bs
  bare-stored numeric [] = refl
  bare-stored numeric (b ∷ bs) =
      ap (λ (l : List (Bread F)). stored_bread numeric b ∷ l) (bare-stored numeric bs)

module _ {F P : Type 0} (fl : Floats F) where
  -- What is read of an order under its UUID: whose it is, and its breads, in any order.
  abbrev pub ReadsAs : (F → F) → BuyOrder F → Db F P → Type 0
  ReadsAs numeric order d =
      Holds
        (λ (o : BuyOrder F) _.
          (o.customer_id ≡ int32 order.customer_id)
          × (o.buy_order_uuid ≡ order.buy_order_uuid)
          × (o.status ≡ "processing")
          × Perm o.breads (map (stored_bread numeric) order.breads))
        (λ t. t ≡ d.tables) (get_buy_order_by_uuid fl order.buy_order_uuid d)

  -- After an answer the order can be read.
  abbrev pub Readable : Option BrokerOrderResult → (F → F) → BuyOrder F → Db F P → Type 0
  Readable none numeric order d = Unit
  Readable (some r) numeric order d = ReadsAs numeric order d

  StoredAs-ReadsAs :
      (order : BuyOrder F) (t : Tables F P) (d : Db F P) (id : ℤ)
      → ((rows : List (DetailRow F)) → Perm (t.scanned rows) rows)
      → Referring t.orders t.details
      → StoredAs (data_to_proto_buy_order order) t id d.tables
      → ReadsAs t.numeric order d
  unfolding data_to_proto_buy_order proto_to_data_buy_order proto_to_data_breads
  StoredAs-ReadsAs order t d id scans refs new =
      let uuid = order.buy_order_uuid in
      let p = data_to_proto_buy_order order in
      let stored = proto_to_data_buy_order p in
      let breads = proto_to_data_breads p.items in
      Holds-mono (FoundBy fl (order_by_uuid uuid) d.tables) (λ t'. t' ≡ d.tables)
        (λ (o : BuyOrder F) _.
          (o.customer_id ≡ int32 order.customer_id)
          × (o.buy_order_uuid ≡ uuid)
          × (o.status ≡ "processing")
          × Perm o.breads (map (stored_bread t.numeric) order.breads))
        (λ t'. t' ≡ d.tables)
        (λ o t' b.
          let k =
            Inserted-Reads fl stored breads t d.tables id o b.1.0 scans refs new b.1.1 b.1.2 in
          (
            k.1,
            k.2,
            k.3,
            subst (λ (l : List (Bread F)). Perm o.breads l) (bare-stored t.numeric order.breads)
                k.4,
          ))
        (λ _ e. e) (get_buy_order_by_uuid fl uuid d) (get_buy_order_by_uuid-FoundBy fl uuid d)

  Settled-Readable :
      (order : BuyOrder F) (buffer : List (BuyOrder F)) (t : Tables F P)
      (reply : Option BrokerOrderResult) (o : Verdict × (List (BuyOrder F) × Db F P))
      → ((rows : List (DetailRow F)) → Perm (t.scanned rows) rows)
      → Referring t.orders t.details
      → order_by_uuid order.buy_order_uuid t.orders ≡ none
      → Settled order buffer t reply o
      → Readable reply t.numeric order o.1.1
  Settled-Readable order buffer t none (v, (b, d)) scans refs fresh h = tt
  Settled-Readable order buffer t (some r) (v, (b, d)) scans refs fresh h = elim h.2 [
    | inl dup ↦ elim dup.2 [
      | inl known ↦ absurd (ground (arith, known.1.1, fresh))
      | inr new ↦ StoredAs-ReadsAs order t d new.0 scans refs new.1
    ]
    | inr new ↦ StoredAs-ReadsAs order t d new.0 scans refs new.3
  ]

  -- A purchase, from the request to the stored order. If BuyBread answers, it has published one
  -- message: for the customer of the context or customer 1, under the UUID of the request or the
  -- new one, with the preferences, and with every requested bread as the catalogue has it, at its
  -- price, or at the client's price where, and only where, the look-up failed or the catalogue has
  -- no such bread. Whenever the broker takes that message, over whatever network, while the UUID is
  -- no order's: if the client gets an answer in the end, the delivery is acknowledged, the order is
  -- buffered for matching if the answer is that it was accepted, and not if it is that it is a
  -- duplicate, an earlier attempt of this call having stored it, and a look-up by the
  -- UUID that succeeds reads that customer, the status `processing` and those breads, in any order,
  -- the prices in the precision of the column and the numbers cut to 32 bits. If it gets none, the
  -- message goes back to the queue, the buffer is as it was, and the order is stored once at most.
  -- (json.Unmarshal reads what json.Marshal wrote, a SELECT gives out each row once, and the details
  -- refer to orders.)
  pub purchase-Delivered :
      {B : Type 0} (net : Network Db.Error) (double : ℤ → ℤ) (cb : CircuitBreaker)
      (marshal : BuyOrder F → Option B) (unmarshal : B → Option (BuyOrder F))
      (readable : (o : BuyOrder F) (bytes : B) → marshal o ≡ some bytes → unmarshal bytes ≡ some o)
      (call : Call B) (req : BreadRequest F) (s s' : Counter F P B) (r : BreadResponse F)
      (buffer : List (BuyOrder F)) (d : Db F P)
      → buy_bread fl marshal call req s ≡ (replied r, s')
      → ((rows : List (DetailRow F)) → Perm (d.tables.scanned rows) rows)
      → Referring d.tables.orders d.tables.details
      → order_by_uuid
          (if str_eq req.buy_order_uuid "" then call.new_uuid else req.buy_order_uuid)
          d.tables.orders
        ≡ none
      → (bytes : B) × (order : BuyOrder F) × (s'.queue ≡ s.queue ++ bytes ∷ [])
        × Addressed fl call s'.order_sequence req order.breads order
        × AllPriced s.db.tables.breads s.db.faults req.breads order.breads
        × (let reply = (reported net double cb fl (data_to_proto_buy_order order) d).0 in
            let o = process_one_order unmarshal (reported net double cb fl) bytes buffer d in
            Settled order buffer d.tables reply o × Readable reply d.tables.numeric order o.1.1)
  purchase-Delivered net double cb marshal unmarshal readable call req s s' r buffer d done scans
        refs fresh =
      let b =
        subst (λ (x : Reply (BreadResponse F) × Counter F P _). Bought fl marshal call req s x) done
          (buy_bread-Bought fl marshal call req s) in
      let order = ordered_by fl call s'.order_sequence req b.0 in
      let a =
        ordered_by-Addressed fl call s'.order_sequence req.buy_order_uuid b.0 req.breads
          req.preferences in
      let settled =
        process_one_order-Settled fl net double cb unmarshal b.1 order buffer d
          (readable order b.1 b.3) in
      (
        b.1,
        order,
        b.5,
        (a.0, a.1, a.2, refl, a.4),
        subst (λ (l : List (Bread F)). AllPriced s.db.tables.breads s.db.faults req.breads l)
            (sym a.3) b.2,
        (
          settled,
          Settled-Readable order buffer d.tables
              (reported net double cb fl (data_to_proto_buy_order order) d).0
              (process_one_order unmarshal (reported net double cb fl) b.1 buffer d) scans refs
              (ap (λ (u : String). order_by_uuid u d.tables.orders) a.0 ∙ fresh) settled,
        ),
      )
