-- ===== src/Data/Outbox.antt =====
-- The outbox in data/models.go: InsertOutboxMessage, ClaimOutboxMessage, DeleteOutboxMessage, and
-- the INSERT of server/broker_service.go, whose id comes from the sequence. Concurrent claims are
-- taken one after another: SKIP LOCKED lets none wait for a row that another one claims.
pub mod Claims
use bakery_go.Common.{
  Bool, true, false, List, [], ◌∷◌, ◌++◌, Option, none, some, if◌then◌else◌, ◌||◌,
}
use bakery_go.Common.Int.{ℤ, pos, ◌+ℤ◌, eqb_ℤ, ltb_ℤ}
use bakery_go.Data.Db.{OutboxRow, Tables, Db, unique_violation, Result, ok, err, M, exec}

module _ {P : Type 0} where
  unfoldable pub has_message : ℤ → List (OutboxRow P) → Bool
  has_message id [] = false
  has_message id (m ∷ ms) = eqb_ℤ m.id id || has_message id ms

  abbrev pub older : OutboxRow P → Option (OutboxRow P) → OutboxRow P
  older m none = m
  older m (some n) = if ltb_ℤ n.created_at m.created_at then n else m

  -- SELECT … WHERE sent = false ORDER BY created_at ASC LIMIT 1
  unfoldable pub oldest_unsent : List (OutboxRow P) → Option (OutboxRow P)
  oldest_unsent [] = none
  oldest_unsent (m ∷ ms) =
      let rest = oldest_unsent ms in if m.sent then rest else some (older m rest)

  -- UPDATE outbox SET sent = true WHERE id = $1
  unfoldable pub mark_sent : ℤ → List (OutboxRow P) → List (OutboxRow P)
  mark_sent id [] = []
  mark_sent id (m ∷ ms) =
      let rest = mark_sent id ms in
      if eqb_ℤ m.id id then record m { sent = true } ∷ rest else m ∷ rest

  -- DELETE FROM outbox WHERE id = $1
  unfoldable pub delete_message : ℤ → List (OutboxRow P) → List (OutboxRow P)
  delete_message id [] = []
  delete_message id (m ∷ ms) =
      let rest = delete_message id ms in if eqb_ℤ m.id id then rest else m ∷ rest

module _ {F P : Type 0} where
  unfoldable pub append_message : OutboxRow P → Tables F P → Result (Unit {0} × Tables F P)
  unfolding has_message
  append_message m t =
      if has_message m.id t.outbox
      then err unique_violation
      else ok (tt, record t { outbox = t.outbox ++ m ∷ [] })

  -- INSERT INTO outbox (payload, sent, created_at) VALUES ($1, false, NOW())
  unfoldable pub insert_payload : ℤ → P → M (Db F P) (Unit {0})
  unfolding exec append_message ◌+ℤ◌
  insert_payload now payload d =
      exec
        (append_message
          (record { id = d.next_outbox; payload = payload; sent = false; created_at = now }))
        (record d { next_outbox = d.next_outbox +ℤ pos 1 })

  unfoldable pub insert_outbox_message : OutboxRow P → M (Db F P) (Unit {0})
  unfolding exec append_message
  insert_outbox_message message = exec (append_message (record message { sent = false }))

  abbrev pub claimed :
      Option (OutboxRow P) → Tables F P → Result (Option (OutboxRow P) × Tables F P)
  claimed none t = ok (none, t)
  claimed (some m) t =
      ok (some (record m { sent = true }), record t { outbox = mark_sent m.id t.outbox })

  unfoldable pub claim_outbox_message : M (Db F P) (Option (OutboxRow P))
  unfolding exec oldest_unsent mark_sent
  claim_outbox_message = exec (λ t. claimed (oldest_unsent t.outbox) t)

  abbrev ignored : Result (Unit {0}) × Db F P → Result (Unit {0}) × Db F P
  ignored (r, d) = (ok tt, d)

  -- An error is logged only.
  unfoldable pub delete_outbox_message : ℤ → M (Db F P) (Unit {0})
  unfolding exec delete_message
  delete_outbox_message id d =
      ignored (exec (λ t. ok (tt, record t { outbox = delete_message id t.outbox })) d)
