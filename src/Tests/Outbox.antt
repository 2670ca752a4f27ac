-- ===== src/Tests/Outbox.antt =====
-- An outbox with two messages.
use bakery_go.Common.{◌≡◌, refl, true, false, [], ◌∷◌}
use bakery_go.Common.Int.{ℤ, pos}
use bakery_go.Data.Db.{OutboxRow, Db}
use bakery_go.Data.Outbox.{claim_outbox_message}
use bakery_go.Tests.Stock.{tables, healthy}

abbrev late : OutboxRow ℤ
late = record { id = pos 1; payload = pos 10; sent = false; created_at = pos 6 }

abbrev early : OutboxRow ℤ
early = record { id = pos 2; payload = pos 20; sent = false; created_at = pos 5 }

abbrev waiting : Db ℤ ℤ
waiting = record healthy { tables = record tables { outbox = late ∷ early ∷ [] } }

abbrev once_claimed : Db ℤ ℤ
once_claimed = record healthy {
  tables = record tables { outbox = late ∷ record early { sent = true } ∷ [] };
}

oldest_first : (claim_outbox_message waiting).1 ≡ once_claimed
unfolding claim_outbox_message
oldest_first = refl
