-- ===== src/Server/Shop.antt =====
-- server/gRPCBakery.go: CheckBreadInventory and BuyBread. Parameters are the new UUID, the customer
-- of the context (`GetCustomerIDFromContext`), json.Marshal (`B` are bytes), and what the queue
-- answers. The fields of time are left out.
pub mod Pricing
use bakery_go.Common.{
  Bool, true, false, List, [], ◌∷◌, ◌++◌, Option, none, some, map, String, if◌then◌else◌, str_eq,
  not, ◌||◌,
}
use bakery_go.Common.Int.{ℤ, pos, ◌+ℤ◌, eqb_ℤ, int32, int64}
use bakery_go.Common.Floats.{Floats}
use bakery_go.Data.Types.{Bread, BuyOrder}
use bakery_go.Data.Db.{Db, Result, ok, err}
use bakery_go.Data.Breads.{get_available_bread, get_bread_by_id}
use bakery_go.Proto
use bakery_go.Proto.{BreadRequest, BreadResponse, BuyOrderPreferences}

-- The codes of the handlers' errors; `unknown` is that of an error without one.
pub data Code : Type 0 where
  unknown not_found internal canceled deadline_exceeded : Code

pub data Reply (A : Type 0) : Type 0 where
  replied : A → Reply A
  fails : Code → Reply A

-- What a call of BuyBread meets outside the program.
pub record Call (B : Type 0) : Type 0 where
  pub new_uuid : String
  pub context_customer : ℤ
  pub connected : Bool  -- to the queue, with a channel
  pub is_cancelled : Bool
  pub publish_works : B → Bool

pub record Counter (F P B : Type 0) : Type 0 where
  pub db : Db F P
  pub order_sequence : ℤ
  pub queue : List B  -- buy-bread-order

abbrev pub uuid_or : String → String → String
uuid_or new_uuid uuid = if not (str_eq uuid "") then uuid else new_uuid

abbrev pub customer_or_first : ℤ → ℤ
customer_or_first id = if eqb_ℤ id (pos 0) then pos 1 else id

module _ {F : Type 0} where
  abbrev pub proto_bread : Bread F → Proto.Bread F
  proto_bread b = record {
    id = int32 b.id;
    name = b.name;
    price = b.price;
    quantity = int32 b.quantity;
    description = b.description;
    kind = b.kind;
    status = b.status;
    image = b.image;
  }

  abbrev pub client_bread : Proto.Bread F → Bread F
  client_bread bread = record {
    id = bread.id;
    name = bread.name;
    price = bread.price;
    quantity = bread.quantity;
    image = bread.image;
    description = "";
    kind = bread.kind;
    status = "Bought";
  }

  abbrev pub catalogue_bread : Proto.Bread F → Bread F → Bread F
  catalogue_bread bread bread_db = record bread_db { quantity = bread.quantity; status = "Bought" }

  abbrev pub preferred : Option (BuyOrderPreferences F) → BuyOrder F → BuyOrder F
  preferred none order = order
  preferred (some p) order = record order {
    bid_price = p.bid_price;
    allow_partial = p.allow_partial;
    skip_unavailable_items = p.skip_unavailable_items;
  }

  -- The order without its breads.
  abbrev pub new_order : Floats F → String → ℤ → ℤ → BreadRequest F → BuyOrder F
  new_order fl uuid customer sequence req = preferred req.preferences (record {
    id = pos 0;
    customer_id = customer;
    buy_order_uuid = uuid;
    breads = [];
    status = "";
    sequence_number = sequence;
    bid_price = fl.zero;
    allow_partial = false;
    skip_unavailable_items = false;
    matched_items = [];
  })

  abbrev pub bought : List (Bread F) → BreadResponse F
  bought breads = record {
    breads = map proto_bread breads;
    buy_order_id = int32 (pos 0);
    buy_order_uuid = "";
  }

  abbrev pub priced : Proto.Bread F → Result (Bread F) → Bread F
  priced bread (err e) = client_bread bread
  priced bread (ok bread_db) = catalogue_bread bread bread_db

  abbrev pub ordered_by :
      {B : Type 0} → Floats F → Call B → ℤ → BreadRequest F → List (Bread F) → BuyOrder F
  ordered_by fl call sequence req breads =
      record (new_order fl (uuid_or call.new_uuid req.buy_order_uuid)
        (customer_or_first call.context_customer) sequence req) { breads = breads }

module _ {F P : Type 0} where
  abbrev pub inventory : Result (List (Bread F)) × Db F P → Reply (List (Proto.Bread F)) × Db F P
  inventory (err e, d) = (fails unknown, d)
  inventory (ok [], d) = (fails not_found, d)
  inventory (ok (b ∷ bs), d) = (replied (map proto_bread (b ∷ bs)), d)

  unfoldable pub check_bread_inventory : Db F P → Reply (List (Proto.Bread F)) × Db F P
  unfolding get_available_bread
  check_bread_inventory d = inventory (get_available_bread d)

  unfoldable pub look_up_each : List (Proto.Bread F) → Db F P → List (Bread F) × Db F P
  unfolding get_bread_by_id
  look_up_each [] d = ([], d)
  look_up_each (b ∷ bs) d =
      let (r, d') = get_bread_by_id b.id d in
      let (rest, d'') = look_up_each bs d' in (priced b r ∷ rest, d'')

module _ {F P B : Type 0} (fl : Floats F) (marshal : BuyOrder F → Option B) where
  abbrev pub send_order :
      Call B → BuyOrder F → Option B → Counter F P B → Reply (BreadResponse F) × Counter F P B
  send_order call order none s = (fails internal, s)
  send_order call order (some bytes) s =
      if call.is_cancelled
      then (fails canceled, s)
      else if call.publish_works bytes
      then (replied (bought order.breads), record s { queue = s.queue ++ bytes ∷ [] })
      else (fails internal, s)

  abbrev pub buy_connected :
      Call B → BreadRequest F → Counter F P B → Reply (BreadResponse F) × Counter F P B
  buy_connected call req s =
      let sequence = int64 (s.order_sequence +ℤ pos 1) in
      let looked = look_up_each req.breads s.db in
      let order = ordered_by fl call sequence req looked.0 in
      send_order call order (marshal order) (record s { db = looked.1; order_sequence = sequence })

  unfoldable pub buy_bread :
      Call B → BreadRequest F → Counter F P B → Reply (BreadResponse F) × Counter F P B
  unfolding look_up_each
  buy_bread call req s = if call.connected then buy_connected call req s else (fails unknown, s)
