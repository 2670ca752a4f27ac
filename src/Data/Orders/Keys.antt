-- ===== src/Data/Orders/Keys.antt =====
-- The keys of the table buy_order under the operations on it.
use bakery_go.Common.{
  ◌≡◌, refl, List, [], ◌∷◌, ◌++◌, none, some, String, arith, str_eq, eq_iff, if◌then◌else◌,
}
use bakery_go.Data.Db.{OrderRow}
use bakery_go.Data.Orders.{order_by_uuid}

-- uq_buy_order_uuid
abbrev pub UniqueUuids : List OrderRow → Type 0
UniqueUuids [] = Unit {0}
UniqueUuids (o ∷ os') = (order_by_uuid o.buy_order_uuid os' ≡ none) × UniqueUuids os'

pub order_by_uuid-append :
    (u : String) (l : List OrderRow) (o : OrderRow)
    → order_by_uuid u l ≡ none
    → order_by_uuid u (l ++ o ∷ []) ≡ (if str_eq o.buy_order_uuid u then some o else none)
unfolding order_by_uuid
order_by_uuid-append u [] o h = refl
order_by_uuid-append u (p ∷ l) o h = ground (arith, h, order_by_uuid-append u l o)

pub UniqueUuids-append :
    (l : List OrderRow) (o : OrderRow)
    → UniqueUuids l
    → order_by_uuid o.buy_order_uuid l ≡ none
    → UniqueUuids (l ++ o ∷ [])
unfolding order_by_uuid
UniqueUuids-append [] o u h = (refl, tt)
UniqueUuids-append (p ∷ l) o u h = (
  ground (
    arith,
    h,
    u.0,
    order_by_uuid-append p.buy_order_uuid l o,
    eq_iff p.buy_order_uuid o.buy_order_uuid,
    eq_iff o.buy_order_uuid p.buy_order_uuid,
  ),
  UniqueUuids-append l o u.1 (ground (arith, h)),
)
