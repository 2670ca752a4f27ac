-- ===== src/Server/Restock/Requested.antt =====
-- What a check of the stock asks for.
use bakery_go.Common.{◌≡◌, List, Option, none, some}
use bakery_go.Common.Int.{ℤ}
use bakery_go.Data.Types.{Bread, PendingMakeOrder}
use bakery_go.Data.Db.{Db, Error, ok}
use bakery_go.Data.Breads.{get_available_bread}
use bakery_go.Makers.{MakeBreadMessage}
use bakery_go.Server.Restock.{Kitchen}
use bakery_go.Server.Restock.Passes.{Pass, Added}

module _ {F P B : Type 0} (marshal : MakeBreadMessage F → Option B) (now : ℤ) where
  -- What a pass from `k` to `k'` over the breads has added.
  abbrev pub Passed : List (Bread F) → Kitchen F P B → Kitchen F P B → Type 0
  Passed bs k k' =
      (rs : List PendingMakeOrder) × (ms : List B) × Pass marshal now bs k.db k.links rs ms
      × Added k k' rs ms

  -- What a check of a bakery with the breads `bs` in its stock does: the first statement reads
  -- them, and then comes the pass.
  abbrev pub Checked : List (Bread F) → Kitchen F P B → Option Error × Kitchen F P B → Type 0
  Checked bs k (none, k') =
      (d : Db F P) × (get_available_bread k.db ≡ (ok bs, d))
      × Passed bs (record k { db = d }) k'
      × (d.tables ≡ k.db.tables)
  Checked bs k (some e, k') = (k'.db.tables ≡ k.db.tables) × (k'.orders ≡ k.orders)
