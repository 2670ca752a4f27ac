-- ===== src/Data/Accounts.antt =====
-- The accounts in data/models.go: InsertCustomer, GetCustomerByEmail, GetCustomerByID,
-- GetAllCustomers, PasswordMatches, InsertAdminUser, GetAdminUserByUsername, GetAdminUserByID, over
-- the tables customer and admin_users. A query may fail before it does
-- anything: `faults` says which of those to come do. Parameter is the hash of a password, which has
-- no value for a password that bcrypt refuses. No column is NULL, and dates are left out.
pub mod Kept
use bakery_go.Common.{
  Bool, true, false, List, [], ◌∷◌, ◌++◌, Option, none, some, String, if◌then◌else◌, ◌||◌, str_eq,
  map,
}
use mathlib.Core.Option
use bakery_go.Common.Sorting.{Sorter}
use bakery_go.Common.Int.{ℤ, pos, ◌+ℤ◌, eqb_ℤ, ltb_ℤ}
use bakery_go.Data.Db.{db_error, no_rows, unique_violation, Result, ok, err, M}

-- `password` is a hash in a stored row.
pub record Customer : Type 0 where
  pub id : ℤ
  pub name : String
  pub email : String
  pub password : String

pub record AdminUser : Type 0 where
  pub id : ℤ
  pub username : String
  pub email : String
  pub password : String
  pub role : String

pub record Accounts : Type 0 where
  pub customers : List Customer
  pub admin_users : List AdminUser
  pub next_customer : ℤ
  pub next_admin : ℤ
  pub faults : List Bool

-- A query, which fails or not as the faults say.
abbrev pub query_under : {A : Type 0} → List Bool → M Accounts A → M Accounts A
query_under [] m a = m a
query_under (false ∷ fs) m a = m (record a { faults = fs })
query_under (true ∷ fs) m a = (err db_error, record a { faults = fs })

unfoldable pub query : {A : Type 0} → M Accounts A → M Accounts A
query m a = query_under a.faults m a

abbrev pub or_no_rows : {A : Type 0} → Option A → Result A
or_no_rows none = err no_rows
or_no_rows (some x) = ok x

-- WHERE email = $1
unfoldable pub customer_by_email : String → List Customer → Option Customer
customer_by_email e [] = none
customer_by_email e (c ∷ cs) = if str_eq c.email e then some c else customer_by_email e cs

-- WHERE username = $1
unfoldable pub admin_by_username : String → List AdminUser → Option AdminUser
admin_by_username n [] = none
admin_by_username n (u ∷ us) = if str_eq u.username n then some u else admin_by_username n us

-- WHERE id = $1
unfoldable pub customer_by_id : ℤ → List Customer → Option Customer
customer_by_id id [] = none
customer_by_id id (c ∷ cs) = if eqb_ℤ c.id id then some c else customer_by_id id cs

unfoldable pub admin_by_id : ℤ → List AdminUser → Option AdminUser
admin_by_id id [] = none
admin_by_id id (u ∷ us) = if eqb_ℤ u.id id then some u else admin_by_id id us

-- The columns that a query without the password reads.
abbrev pub without_password : Customer → Customer
without_password c = record c { password = "" }

abbrev pub customer_id_asc : Customer → Customer → Bool
customer_id_asc a b = ltb_ℤ a.id b.id

-- Whether a row has the key or one of the unique columns.
unfoldable pub customer_taken : Customer → List Customer → Bool
customer_taken row [] = false
customer_taken row (c ∷ cs) =
    (eqb_ℤ c.id row.id || str_eq c.email row.email) || customer_taken row cs

unfoldable pub admin_taken : AdminUser → List AdminUser → Bool
admin_taken row [] = false
admin_taken row (u ∷ us) =
    (eqb_ℤ u.id row.id || (str_eq u.username row.username || str_eq u.email row.email))
    || admin_taken row us

unfoldable pub get_customer_by_email : String → M Accounts Customer
unfolding query customer_by_email
get_customer_by_email email = query (λ a. (or_no_rows (customer_by_email email a.customers), a))

unfoldable pub get_admin_user_by_username : String → M Accounts AdminUser
unfolding query admin_by_username
get_admin_user_by_username username =
    query (λ a. (or_no_rows (admin_by_username username a.admin_users), a))

unfoldable pub get_customer_by_id : ℤ → M Accounts Customer
unfolding query customer_by_id
get_customer_by_id id =
    query (λ a. (or_no_rows (Option.map without_password (customer_by_id id a.customers)), a))

unfoldable pub get_all_customers : Sorter Customer → M Accounts (List Customer)
unfolding query
get_all_customers order_by =
    query (λ a. (ok (map without_password (order_by.sort customer_id_asc a.customers)), a))

unfoldable pub get_admin_user_by_id : ℤ → M Accounts AdminUser
unfolding query admin_by_id
get_admin_user_by_id id = query (λ a. (or_no_rows (admin_by_id id a.admin_users), a))

-- What bcrypt says of a hash and a password.
pub data Comparison : Type 0 where
  matches mismatched broken : Comparison

abbrev pub password_matches : (String → String → Comparison) → String → Customer → Result Bool
password_matches compare plain_text customer = elim (compare customer.password plain_text) [
  | matches ↦ ok true
  | mismatched ↦ ok false
  | broken ↦ err db_error
]

-- INSERT … RETURNING id. The sequence goes on even if the row is refused.
abbrev pub store_customer : Customer → M Accounts ℤ
store_customer row a =
    if customer_taken row a.customers
    then (err unique_violation, a)
    else (ok row.id, record a { customers = a.customers ++ row ∷ [] })

abbrev pub store_admin : AdminUser → M Accounts ℤ
store_admin row a =
    if admin_taken row a.admin_users
    then (err unique_violation, a)
    else (ok row.id, record a { admin_users = a.admin_users ++ row ∷ [] })

module _ (hash : String → Option String) where
  abbrev pub insert_hashed_customer : Customer → Option String → M Accounts ℤ
  insert_hashed_customer c none a = (err db_error, a)
  insert_hashed_customer c (some h) a =
      query (store_customer (record c { id = a.next_customer; password = h }))
        (record a { next_customer = a.next_customer +ℤ pos 1 })

  unfoldable pub insert_customer : Customer → M Accounts ℤ
  unfolding query customer_taken ◌+ℤ◌
  insert_customer customer a = insert_hashed_customer customer (hash customer.password) a

  abbrev pub insert_hashed_admin : AdminUser → Option String → M Accounts ℤ
  insert_hashed_admin u none a = (err db_error, a)
  insert_hashed_admin u (some h) a =
      query (store_admin (record u { id = a.next_admin; password = h }))
        (record a { next_admin = a.next_admin +ℤ pos 1 })

  unfoldable pub insert_admin_user : AdminUser → M Accounts ℤ
  unfolding query admin_taken ◌+ℤ◌
  insert_admin_user user a = insert_hashed_admin user (hash user.password) a
