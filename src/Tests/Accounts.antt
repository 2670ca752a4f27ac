-- ===== src/Tests/Accounts.antt =====
-- An administrator makes another one, who logs in.
use mathlib.Core.Option.{some-injective}
use bakery_go.Common.{
  ◌≡◌, refl, Bool, [], ◌∷◌, Option, none, some, String, str_eq, ap, ◌∙◌, if◌then◌else◌,
}
use bakery_go.Common.Int.{pos, ◌+ℤ◌, int32}
use bakery_go.Data.Accounts.{Customer, AdminUser, Accounts}
use bakery_go.Server.Rbac.{Claims, Context}
use bakery_go.Server.Auth.{
  replied, successful, shown_admin, admin_claims, admin_login, create_admin_user,
}
use bakery_go.Server.Auth.Tokens.{Created, create_admin_user-Created, create-admin_login}
use text.Mathlib.TextPositions.{eq_refl as str_eq_refl}

-- A hash is the password itself, and a token says the type of its user.
abbrev hash : String → Option String
hash p = some p

abbrev matches : String → String → Bool
matches h p = str_eq h p

abbrev pub ana : Customer
ana = record { id = pos 8; name = "Ana"; email = "ana@b.c"; password = "masa" }

abbrev luz : AdminUser
luz = record {
  id = pos 0;
  username = "luz";
  email = "luz@b.c";
  password = "harina";
  role = "admin";
}

abbrev pub boss : AdminUser
boss = record { id = pos 1; username = "boss"; email = "boss@b.c"; password = "x"; role = "admin" }

abbrev pub accounts : Accounts
accounts = record {
  customers = ana ∷ [];
  admin_users = boss ∷ [];
  next_customer = pos 9;
  next_admin = pos 2;
  faults = [];
}

abbrev parse : String → Option Claims
parse t = if str_eq t "t" then some (admin_claims boss) else none

abbrev call : Context
call = record {
  metadata = some (("authorization", "t" ∷ []) ∷ []);
  peer = none;
  claims = none;
  customer_id = none;
}

create_admin_user-Created_example :
    Created parse hash call luz accounts (create_admin_user parse hash call luz accounts)
create_admin_user-Created_example = create_admin_user-Created parse hash call luz accounts

abbrev with_luz : Accounts
with_luz = record accounts {
  admin_users = boss ∷ record luz { id = pos 2 } ∷ [];
  next_admin = pos 3;
}

create-admin_login_example :
    (admin_login matches (λ c. some c.username) "luz" "harina" with_luz).0
    ≡ replied (successful "luz" (shown_admin (pos 2) luz))
unfolding create_admin_user ◌+ℤ◌ int32
create-admin_login_example =
    create-admin_login parse hash call luz accounts with_luz (shown_admin (pos 2) luz) matches
      (λ c. some c.username) "luz" (λ p h e. ap (str_eq h) (some-injective p h e) ∙ str_eq_refl h)
      refl refl refl
