-- ===== src/Data/Accounts/Kept.antt =====
-- What `InsertAdminUser` adds, and that the account is found again.
use text.Mathlib.TextPositions.{eq_refl as str_eq_refl}
use bakery_go.Common.{
  ◌≡◌, refl, true, false, Bool, List, [], ◌∷◌, ◌++◌, Option, none, some, String, arith, Bool-cases,
  inl, inr, str_eq, ap, sym, ◌∙◌,
}
use bakery_go.Common.Int.{ℤ, pos, ◌+ℤ◌}
use bakery_go.Data.Db.{Result, ok, err}
use bakery_go.Data.Accounts.{
  AdminUser, Accounts, query_under, query, admin_by_username, admin_taken, store_admin,
  insert_hashed_admin, insert_admin_user,
}

-- The row of a new account.
abbrev pub admin_row : ℤ → String → AdminUser → AdminUser
admin_row id h user = record user { id = id; password = h }

-- A call that succeeds has added the account with its hash, under the next id and with columns that
-- no account had, and one that fails has added none.
abbrev pub Kept : (String → Option String) → AdminUser → Accounts → Result ℤ × Accounts → Type 0
Kept hash user a (ok id, a') =
    (h : String) × (hash user.password ≡ some h)
    × (id ≡ a.next_admin)
    × (admin_taken (admin_row id h user) a.admin_users ≡ false)
    × (a'.admin_users ≡ a.admin_users ++ admin_row id h user ∷ [])
    × (a'.customers ≡ a.customers)
Kept hash user a (err e, a') = (a'.admin_users ≡ a.admin_users) × (a'.customers ≡ a.customers)

module _ (hash : String → Option String) (user : AdminUser) (a : Accounts) where
  store_admin-Kept :
      (h : String) (b : Accounts)
      → hash user.password ≡ some h
      → b.admin_users ≡ a.admin_users
      → b.customers ≡ a.customers
      → Kept hash user a (store_admin (admin_row a.next_admin h user) b)
  store_admin-Kept h b e same others =
      let row = admin_row a.next_admin h user in
      elim (Bool-cases (admin_taken row b.admin_users)) [
        | inl taken ↦ rw taken ((same, others))
        | inr fresh ↦ rw fresh (
            (
              h,
              e,
              refl,
              ap (admin_taken row) (sym same) ∙ fresh,
              ap (λ (l : List AdminUser). l ++ row ∷ []) same,
              others,
            ))
      ]

  query_under-Kept :
      (h : String) (fs : List Bool)
      → hash user.password ≡ some h
      → Kept hash user a (
          query_under fs
            (store_admin (admin_row a.next_admin h user))
            (record a { next_admin = a.next_admin +ℤ pos 1 }))
  query_under-Kept h [] e =
      store_admin-Kept h (record a { next_admin = a.next_admin +ℤ pos 1 }) e refl refl
  query_under-Kept h (false ∷ fs) e =
      store_admin-Kept h (record a { next_admin = a.next_admin +ℤ pos 1; faults = fs }) e refl refl
  query_under-Kept h (true ∷ fs) e = (refl, refl)

  hashed-Kept :
      (o : Option String)
      → hash user.password ≡ o
      → Kept hash user a (insert_hashed_admin hash user o a)
  unfolding query
  hashed-Kept none e = (refl, refl)
  hashed-Kept (some h) e = query_under-Kept h a.faults e

  pub insert_admin_user-Kept : Kept hash user a (insert_admin_user hash user a)
  unfolding insert_admin_user
  insert_admin_user-Kept = hashed-Kept (hash user.password) refl

pub admin_by_username-append :
    (row : AdminUser) (us : List AdminUser)
    → admin_taken row us ≡ false
    → admin_by_username row.username (us ++ row ∷ []) ≡ some row
unfolding admin_by_username admin_taken
admin_by_username-append row [] fresh = rw (str_eq_refl row.username) refl
admin_by_username-append row (u ∷ us) fresh = elim (Bool-cases (str_eq u.username row.username)) [
  | inl hit ↦ absurd (ground (arith, hit, fresh))
  | inr miss ↦ rw miss (admin_by_username-append row us (ground (arith, fresh)))
]
