-- ===== src/Data/Db.antt =====
-- The database behind data/models.go: the tables of bakery.sql that orders and stock use, and a
-- monad for the statements. A statement may fail at any time (connection, time-out): `faults` says
-- of each statement to come whether it does. The CHECK and UNIQUE constraints are those of
-- bakery.sql. Values are taken to fit their columns, and no column is NULL. A transaction, and a
-- statement outside one, is atomic: the row locks of SELECT FOR UPDATE see to that.
pub mod Hoare
use bakery_go.Common.{ℕ, Bool, true, false, List, [], ◌∷◌, String}
use bakery_go.Common.Int.{ℤ}
use bakery_go.Data.Types.{
  Bread, MakeOrderRow, MakeDetailRow, PendingMakeOrder, Invoice, InvoiceItem,
}

-- A row of buy_order. The columns that no statement of the package writes keep their defaults and
-- are left out: sequence_number, bid_price, allow_partial, skip_unavailable_items.
pub record OrderRow : Type 0 where
  pub id : ℤ
  pub customer_id : ℤ
  pub buy_order_uuid : String
  pub status : String

-- A row of order_details.
pub record DetailRow (F : Type 0) : Type 0 where
  pub buy_order_id : ℤ
  pub bread_id : ℤ
  pub quantity : ℤ
  pub price : F
  pub status : String

-- A row of outbox; `P` is the type of its payloads.
pub record OutboxRow (P : Type 0) : Type 0 where
  pub id : ℤ
  pub payload : P
  pub sent : Bool
  pub created_at : ℤ

pub record Tables (F P : Type 0) : Type 0 where
  pub customers : List ℤ  -- the ids of the table customer
  pub breads : List (Bread F)
  pub orders : List OrderRow
  pub details : List (DetailRow F)
  pub outbox : List (OutboxRow P)
  pub makers : List ℤ  -- the ids of the table bread_maker
  pub make_orders : List MakeOrderRow
  pub make_details : List MakeDetailRow
  pub pending : List PendingMakeOrder
  pub invoices : List (Invoice F)
  pub invoice_items : List (InvoiceItem F)
  pub numeric : F → F  -- what numeric(10,2) keeps of a price
  -- The order in which a SELECT without ORDER BY gives out rows of order_details.
  pub scanned : List (DetailRow F) → List (DetailRow F)

-- A rollback does not take back what the sequences behind the ids gave out.
pub record Db (F P : Type 0) : Type 0 where
  pub tables : Tables F P
  pub next_order : ℤ
  pub next_outbox : ℤ
  pub next_bread : ℤ
  pub next_maker : ℤ
  pub next_make : ℤ
  pub next_pending : ℤ
  pub next_invoice : ℤ
  pub next_item : ℤ
  pub faults : List Bool

-- `errors.Is` tells these apart; wrapping keeps them.
pub data Error : Type 0 where
  db_error no_rows insufficient_stock check_violation unique_violation : Error
  foreign_key_violation : Error

pub data Result {ℓ} (A : Type ℓ) : Type ℓ where
  ok : A → Result A
  err : Error → Result A

abbrev pub M : Type 0 → Type 0 → Type 0
M D A = D → Result A × D

module _ {D : Type 0} where
  abbrev pub pure : {A : Type 0} → A → M D A
  pure a d = (ok a, d)

  abbrev pub fail : {A : Type 0} → Error → M D A
  fail e d = (err e, d)

  abbrev pub and_then : {A B : Type 0} → Result A × D → (A → M D B) → Result B × D
  and_then (ok a, d) f = f a d
  and_then (err e, d) f = (err e, d)

  infixl 5 ◌>>=◌ ◌>>◌
  abbrev pub ◌>>=◌ : {A B : Type 0} → M D A → (A → M D B) → M D B
  ◌>>=◌ m f d = and_then (m d) f

  abbrev pub ◌>>◌ : {B : Type 0} → M D (Unit {0}) → M D B → M D B
  m >> k = m >>= λ _. k

-- Whether the next statement fails, and the chances of those after it.
abbrev pub breaks : List Bool → Bool
breaks [] = false
breaks (fault ∷ faults) = fault

abbrev pub later : List Bool → List Bool
later [] = []
later (fault ∷ faults) = faults

module _ {F P : Type 0} where
  abbrev fault_of : List Bool → M (Db F P) (Unit {0})
  fault_of [] d = (ok tt, d)
  fault_of (false ∷ fs) d = (ok tt, record d { faults = fs })
  fault_of (true ∷ fs) d = (err db_error, record d { faults = fs })

  -- The chance of every statement to fail before it does anything.
  unfoldable pub statement : M (Db F P) (Unit {0})
  statement d = fault_of d.faults d

  abbrev pub get : M (Db F P) (Tables F P)
  get d = (ok d.tables, d)

  abbrev pub put : Tables F P → M (Db F P) (Unit {0})
  put t d = (ok tt, record d { tables = t })

  abbrev pub apply : {A : Type 0} → Result (A × Tables F P) → M (Db F P) A
  apply (ok (a, t)) d = (ok a, record d { tables = t })
  apply (err e) d = (err e, d)

  -- A statement whose effect on the tables is `f`. One that fails has none.
  unfoldable pub exec : {A : Type 0} → (Tables F P → Result (A × Tables F P)) → M (Db F P) A
  unfolding statement
  exec f = do statement; t ← get; apply (f t)

  -- Rollback after an error, also one of the commit itself.
  abbrev pub rollback : {A : Type 0} → Tables F P → Result A × Db F P → Result A × Db F P
  rollback t (ok a, d) = (ok a, d)
  rollback t (err e, d) = (err e, record d { tables = t })

  -- BeginTx, the body, Commit, and the deferred Rollback.
  unfoldable pub transaction : {A : Type 0} → M (Db F P) A → M (Db F P) A
  unfolding statement
  transaction body d = rollback d.tables ((do statement; a ← body; statement; pure a) d)
