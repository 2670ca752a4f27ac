-- ===== src/Server/BrokerService/Settling.antt =====
-- `ReportMatchingResults`: what it stores of a batch.
use mathlib.Core.List.{append-nil, append_assoc}
use bakery_go.Common.{
  ◌≡◌, refl, true, false, List, [], ◌∷◌, ◌++◌, arith, ap, ◌∙◌, sym, subst, Bool-cases, inl, inr,
  ◌&&◌, not, map,
}
use bakery_go.Common.Int.{ℤ, pos, ◌+ℤ◌}
use bakery_go.Data.Db.{OutboxRow, OrderRow, Tables, Db, ok, exec, ◌>>◌}
use bakery_go.Data.Db.Hoare.{
  Holds, Holds-mono, and_then-Holds, exec-Holds, ok_value, transaction-Holds,
}
use bakery_go.Data.Orders.{
  set_status, update_status_rows, update_order_status, valid_status, is_some, order_by_uuid,
}
use bakery_go.Data.Outbox.{append_message, insert_payload, has_message}
use bakery_go.Proto.{MatchingBatchResult}
use bakery_go.Server.BrokerService.{
  Json, matching_result_to_payload, persist_results, persist_all, report_matching_results,
}

-- The statuses after some results, the later ones over the earlier.
unfoldable pub settled : {F : Type 0} → List (MatchingBatchResult F) → List OrderRow → List OrderRow
unfolding set_status
settled [] l = l
settled (r ∷ rs) l = settled rs (set_status r.buy_order_uuid r.order_status l)

-- Messages with their payloads in the order given, all unsent.
abbrev pub Carries : {P : Type 0} → List P → List (OutboxRow P) → Type 0
Carries [] [] = Unit {0}
Carries [] (m ∷ ms) = false ≡ true
Carries (p ∷ ps) [] = false ≡ true
Carries {P} (p ∷ ps) (m ∷ ms) = (m.payload ≡ p) × (m.sent ≡ false) × Carries ps ms

module _ {F P : Type 0} where
  -- The orders have the statuses of the results, and the outbox has one more message for each of
  -- them, in their order. Nothing else has changed.
  abbrev pub Stored : Json F P → List (MatchingBatchResult F) → Tables F P → Tables F P → Type 0
  Stored json results t t' =
      (ms : List (OutboxRow P)) × Carries (map (matching_result_to_payload json) results) ms
      × (t' ≡ record t { orders = settled results t.orders; outbox = t.outbox ++ ms })

  abbrev Updates : MatchingBatchResult F → Tables F P → Tables F P → Type 0
  Updates r t t' = t' ≡ record t { orders = set_status r.buy_order_uuid r.order_status t.orders }

  update_status_rows-Updates :
      (r : MatchingBatchResult F) (t : Tables F P) (x : Unit {0}) (t' : Tables F P)
      → update_status_rows r.buy_order_uuid r.order_status t ≡ ok (x, t')
      → Updates r t t'
  unfolding update_status_rows
  update_status_rows-Updates r t x t' h =
      let refused =
        is_some (order_by_uuid r.buy_order_uuid t.orders) && not (valid_status r.order_status) in
      let new = record t { orders = set_status r.buy_order_uuid r.order_status t.orders } in
      elim (Bool-cases refused) [
        | inl a ↦ absurd (ground (arith, h, a))
        | inr a ↦
            let e : update_status_rows r.buy_order_uuid r.order_status t ≡ ok (tt, new) =
              rw a refl in
            sym (ap (λ (p : Unit {0} × Tables F P). p.1) (ok_value (tt, new) (x, t') (sym e ∙ h)))
      ]

  append_message_adds :
      (m : OutboxRow P) (t : Tables F P) (x : Unit {0}) (t' : Tables F P)
      → append_message m t ≡ ok (x, t')
      → t' ≡ record t { outbox = t.outbox ++ m ∷ [] }
  unfolding append_message
  append_message_adds m t x t' h =
      let new = record t { outbox = t.outbox ++ m ∷ [] } in
      elim (Bool-cases (has_message m.id t.outbox)) [
        | inl a ↦ absurd (ground (arith, h, a))
        | inr a ↦
            let e : append_message m t ≡ ok (tt, new) = rw a refl in
            sym (ap (λ (p : Unit {0} × Tables F P). p.1) (ok_value (tt, new) (x, t') (sym e ∙ h)))
      ]

  -- One message more.
  abbrev Queued : P → Tables F P → Tables F P → Type 0
  Queued p t t' =
      (m : OutboxRow P) × (m.payload ≡ p)
      × (m.sent ≡ false)
      × (t' ≡ record t { outbox = t.outbox ++ m ∷ [] })

  insert_payload-Queued :
      (now : ℤ) (p : P) (d : Db F P)
      → Holds (λ _. Queued p d.tables) (λ t. t ≡ d.tables) (insert_payload now p d)
  unfolding insert_payload
  insert_payload-Queued now p d =
      let m : OutboxRow P = record {
        id = d.next_outbox;
        payload = p;
        sent = false;
        created_at = now;
      } in
      let d0 : Db F P = record d { next_outbox = d.next_outbox +ℤ pos 1 } in
      Holds-mono (λ x t. append_message m d.tables ≡ ok (x, t)) (λ t. t ≡ d.tables)
        (λ _. Queued p d.tables) (λ t. t ≡ d.tables)
        (λ x t h. (m, refl, refl, append_message_adds m d.tables x t h)) (λ _ e. e)
        (exec (append_message m) d0) (exec-Holds (append_message m) d0)

  one_more :
      (json : Json F P) (r : MatchingBatchResult F) (rs : List (MatchingBatchResult F))
      (t u v w : Tables F P)
      → Updates r t u
      → Queued (matching_result_to_payload json r) u v
      → Stored json rs v w
      → Stored json (r ∷ rs) t w
  unfolding settled
  one_more json r rs t u v w a b c =
      let u' : Tables F P = record t {
        orders = set_status r.buy_order_uuid r.order_status t.orders;
      } in
      let v' : Tables F P = record u' { outbox = t.outbox ++ b.0 ∷ [] } in
      let same : v ≡ v' =
        b.3 ∙ ap (λ (x : Tables F P). record x { outbox = x.outbox ++ b.0 ∷ [] }) a in
      (
        b.0 ∷ c.0,
        (b.1, b.2, c.1),
        c.2
            ∙ ap
                (λ (x : Tables F P). record x {
                  orders = settled rs x.orders;
                  outbox = x.outbox ++ c.0;
                })
                same
            ∙ ap
                (λ (l : List (OutboxRow P)). record v' {
                  orders = settled rs v'.orders;
                  outbox = l;
                })
                (append_assoc t.outbox (b.0 ∷ []) c.0),
      )

  update_order_status-Updates :
      (r : MatchingBatchResult F) (d : Db F P)
      → Holds
          (λ _. Updates r d.tables)
          (λ _. Unit {0})
          (update_order_status r.buy_order_uuid r.order_status d)
  unfolding update_order_status
  update_order_status-Updates r d =
      let f = update_status_rows r.buy_order_uuid r.order_status in
      Holds-mono (λ x t. f d.tables ≡ ok (x, t)) (λ t. t ≡ d.tables) (λ _. Updates r d.tables)
        (λ _. Unit {0}) (λ x t h. update_status_rows-Updates r d.tables x t h) (λ _ _. tt)
        (exec f d) (exec-Holds f d)

  persist_results-Stored :
      (json : Json F P) (now : ℤ) (results : List (MatchingBatchResult F)) (d : Db F P)
      → Holds
          (λ _. Stored json results d.tables)
          (λ _. Unit {0})
          (persist_results json now results d)
  unfolding persist_results settled
  persist_results-Stored json now [] d = (
    [],
    tt,
    ap (λ (l : List (OutboxRow P)). record d.tables { outbox = l })
        (sym (append-nil d.tables.outbox)),
  )
  persist_results-Stored json now (r ∷ rs) d =
      let p = matching_result_to_payload json r in
      and_then-Holds (λ _. Updates r d.tables) (λ _. Unit {0}) (λ _. Stored json (r ∷ rs) d.tables)
        (λ _. Unit {0}) (λ _. insert_payload now p >> persist_results json now rs)
        (update_order_status r.buy_order_uuid r.order_status d) (update_order_status-Updates r d)
        (λ _ d1 a.
          and_then-Holds (λ _. Queued p d1.tables) (λ t. t ≡ d1.tables)
            (λ _. Stored json (r ∷ rs) d.tables) (λ _. Unit {0}) (λ _. persist_results json now rs)
            (insert_payload now p d1) (insert_payload-Queued now p d1)
            (λ _ d2 b.
              Holds-mono (λ _. Stored json rs d2.tables) (λ _. Unit {0})
                (λ _. Stored json (r ∷ rs) d.tables) (λ _. Unit {0})
                (λ _ t c. one_more json r rs d.tables d1.tables d2.tables t a b c) (λ _ _. tt)
                (persist_results json now rs d2) (persist_results-Stored json now rs d2))
            (λ _ _. tt))
        (λ _ _. tt)

  -- A confirmed batch is stored as a whole: the orders have the statuses of its results, later ones
  -- over earlier ones, the outbox has one unsent message more for each result, in their order and
  -- with its payload, and nothing else has changed. If the handler fails, at whatever result, the
  -- tables are as they were.
  pub report_matching_results-Stored :
      (json : Json F P) (now : ℤ) (results : List (MatchingBatchResult F)) (d : Db F P)
      → Holds
          (λ c t. (c.accepted ≡ true) × Stored json results d.tables t)
          (λ t. t ≡ d.tables)
          (report_matching_results json now results d)
  unfolding report_matching_results
  report_matching_results-Stored json now results d =
      transaction-Holds (λ c t. (c.accepted ≡ true) × Stored json results d.tables t)
        (persist_all json now results) d
        (λ d' e.
          and_then-Holds (λ _. Stored json results d'.tables) (λ _. Unit {0})
            (λ c t. (c.accepted ≡ true) × Stored json results d.tables t) (λ _. Unit {0}) _
            (persist_results json now results d') (persist_results-Stored json now results d')
            (λ _ d'' h. (refl, subst (λ (t0 : Tables F P). Stored json results t0 d''.tables) e h))
            (λ _ _. tt))
