-- ===== src/Server/Restock.antt =====
-- server/rabbitBakery.go: checkBread, which asks for more of what is running low, initializeBakery,
-- and listenForBreadMade, one confirmation at a time. Parameters are json's functions (`B` are
-- bytes), the time and `cents`, which stands for the float64 literals of the prices. A connection, a
-- channel and a publication are one step, which may fail: `links` says which of those to come do.
pub mod Passes
pub mod Requested
pub mod Arriving
use bakery_go.Common.{
  Bool, true, false, List, [], ◌∷◌, ◌++◌, Option, none, some, String, if◌then◌else◌,
}
use bakery_go.Common.Int.{ℤ, pos, leb_ℤ}
use bakery_go.Data.Types.{Bread, PendingMakeOrder}
use bakery_go.Data.Db.{Db, Error, Result, ok, err, M, pure, ◌>>=◌, ◌>>◌}
use bakery_go.Data.Stock.{adjust_bread_quantity}
use bakery_go.Data.Breads.{get_available_bread, insert_bread, insert_bread_maker}
use bakery_go.Data.Baking.{insert_pending_make_order}
use bakery_go.Makers.{MakeBreadMessage, BreadMadeMessage}

-- What becomes of a delivery: Ack, Nack without requeue, Nack with requeue.
pub data Delivery : Type 0 where
  acked discarded requeued : Delivery

pub record Kitchen (F P B : Type 0) : Type 0 where
  pub db : Db F P
  pub orders : List B  -- the queue make-bread-order
  pub links : List Bool

module _ {F : Type 0} where
  abbrev pub request_for : Bread F → PendingMakeOrder
  request_for b = record {
    id = pos 0;
    bread_id = b.id;
    requested_quantity = pos 50;
    status = "pending";
    source = "auto";
    created_at = pos 0;
  }

  abbrev pub make_message : Bread F → MakeBreadMessage F
  make_message b = record {
    id = b.id;
    name = b.name;
    quantity = pos 50;
    description = b.description;
    kind = b.kind;
    price = b.price;
    status = "pending";
    image = b.image;
  }

  abbrev new_bread : String → F → String → String → String → Bread F
  new_bread name price description kind image = record {
    id = pos 0;
    name = name;
    price = price;
    quantity = pos 1;
    image = image;
    description = description;
    kind = kind;
    status = "available";
  }

  abbrev pub initial_breads : (ℤ → F) → List (Bread F)
  initial_breads cents =
      new_bread "Cinnamon Roll" (cents (pos 299))
        "Cinnamon Roll, a classic bakery bread with cinnamon and sugar" "Sweet Bread"
        "https://cdn.pixabay.com/photo/2019/12/25/17/55/cinnamon-roll-4719023_1280.jpg"
      ∷ new_bread "Sourdough Bread" (cents (pos 199))
          "Sourdough Bread, a classic bakery bread with a sour taste" "Sour Bread"
          "https://cdn.pixabay.com/photo/2020/11/28/12/25/bread-5784572_1280.jpg"
      ∷ new_bread "Baguette" (cents (pos 149)) "Baguette, a classic bakery bread with a long shape"
          "French Bread" "https://cdn.pixabay.com/photo/2017/06/23/23/57/bread-2436370_1280.jpg"
      ∷ new_bread "Pretzel" (cents (pos 249)) "Pretzel, a classic bakery bread with a salty taste"
          "Salty Bread" "https://cdn.pixabay.com/photo/2017/09/05/17/18/pretzel-2718477_1280.jpg"
      ∷ new_bread "Bolillo" (cents (pos 79)) "Bolillo, a classic bakery bread with a soft texture"
          "Soft Bread" "https://cdn.pixabay.com/photo/2019/02/07/21/19/bobbin-lace-3982200_1280.jpg"
      ∷ new_bread "Croissant" (cents (pos 119))
          "Croissant, a classic bakery bread with a buttery taste" "Buttery Bread"
          "https://cdn.pixabay.com/photo/2012/02/29/12/17/bread-18987_1280.jpg"
      ∷ new_bread "Brioche" (cents (pos 159)) "Brioche, a classic bakery bread with a sweet taste"
          "Sweet Bread" "https://cdn.pixabay.com/photo/2021/01/16/21/05/brioche-5923399_1280.jpg"
      ∷ []

module _ {F P : Type 0} where
  unfoldable pub insert_breads : List (Bread F) → M (Db F P) (Unit {0})
  unfolding insert_bread
  insert_breads [] = pure tt
  insert_breads (b ∷ bs) = do bread_id ← insert_bread b; insert_breads bs

  -- It stops at the first error, which is dropped.
  unfoldable pub initialize_bakery : (ℤ → F) → Db F P → Db F P
  unfolding insert_breads insert_bread_maker
  initialize_bakery cents d =
      ((insert_breads (initial_breads cents) >>= (λ _. insert_bread_maker)) d).1

module _ {F P B : Type 0} (marshal : MakeBreadMessage F → Option B) where
  abbrev pub publish : B → List Bool → Kitchen F P B → Kitchen F P B
  publish bytes [] k = record k { orders = k.orders ++ bytes ∷ [] }
  publish bytes (false ∷ ls) k = record k { orders = k.orders ++ bytes ∷ []; links = ls }
  publish bytes (true ∷ ls) k = record k { links = ls }

  abbrev pub publish_marshalled : Option B → Kitchen F P B → Kitchen F P B
  publish_marshalled none k = k
  publish_marshalled (some bytes) k = publish bytes k.links k

  abbrev pub after_request : Bread F → Result ℤ × Db F P → Kitchen F P B → Kitchen F P B
  after_request b (err e, d) k = record k { db = d }
  after_request b (ok id, d) k = publish_marshalled (marshal (make_message b)) (record k { db = d })

  abbrev pub replenish : ℤ → Bread F → Kitchen F P B → Kitchen F P B
  replenish now b k = after_request b (insert_pending_make_order now (request_for b) k.db) k

  unfoldable pub check_each : ℤ → List (Bread F) → Kitchen F P B → Kitchen F P B
  unfolding insert_pending_make_order
  check_each now [] k = k
  check_each now (b ∷ bs) k =
      check_each now bs (if leb_ℤ b.quantity (pos 10) then replenish now b k else k)

  abbrev pub after_breads :
      (ℤ → F) → ℤ → Result (List (Bread F)) × Db F P → Kitchen F P B → Option Error × Kitchen F P B
  after_breads cents now (err e, d) k = (some e, record k { db = d })
  after_breads cents now (ok [], d) k = (none, record k { db = initialize_bakery cents d })
  after_breads cents now (ok (b ∷ bs), d) k = (none, check_each now (b ∷ bs) (record k { db = d }))

  unfoldable pub check_bread : (ℤ → F) → ℤ → Kitchen F P B → Option Error × Kitchen F P B
  unfolding get_available_bread initialize_bakery check_each
  check_bread cents now k = after_breads cents now (get_available_bread k.db) k

module _ {F P : Type 0} where
  abbrev pub after_adjust : Result Bool × Db F P → Delivery × Db F P
  after_adjust (err e, d) = (requeued, d)
  after_adjust (ok whole, d) = (acked, d)

  abbrev pub adjust_for : Option BreadMadeMessage → Db F P → Delivery × Db F P
  adjust_for none d = (discarded, d)
  adjust_for (some msg) d = after_adjust (adjust_bread_quantity msg.bread_id msg.quantity d)

  -- One delivery in `listenForBreadMade`.
  unfoldable pub handle_bread_made :
      {B : Type 0} → (B → Option BreadMadeMessage) → B → Db F P → Delivery × Db F P
  unfolding adjust_bread_quantity
  handle_bread_made unmarshal body d = adjust_for (unmarshal body) d
