-- ===== src/Server/Restock/Passes.antt =====
-- The requests and messages of `replenish`, for one bread after another.
use mathlib.Core.List.{append-nil, append_assoc}
use bakery_go.Common.{
  ◌≡◌, refl, true, false, Bool, List, [], ◌∷◌, ◌++◌, Option, none, some, ap, ◌∙◌, sym,
}
use bakery_go.Common.Int.{ℤ, pos, leb_ℤ}
use bakery_go.Data.Types.{Bread, PendingMakeOrder}
use bakery_go.Data.Db.{Tables, Db, Error, Result, ok, err, breaks, later}
use bakery_go.Data.Db.Hoare.{Holds}
use bakery_go.Data.Baking.{insert_pending_make_order}
use bakery_go.Data.Baking.Storing.{with_pending, stored_row, insert_pending_make_order-Holds}
use bakery_go.Makers.{MakeBreadMessage}
use bakery_go.Server.Restock.{
  Kitchen, request_for, make_message, publish, publish_marshalled, after_request, replenish,
}

-- A stored request for 50 of the bread.
abbrev pub AsksFor : {F : Type 0} → Bread F → PendingMakeOrder → Type 0
AsksFor b r =
    (r.bread_id ≡ b.id)
    × (r.requested_quantity ≡ pos 50)
    × (r.status ≡ "pending")
    × (r.source ≡ "auto")

-- A pass over the breads, from a database and with the faults of the publishing to come, with the
-- requests that it stores and the messages that it publishes. For a bread of which there are more
-- than 10 there is nothing. For another one the request is stored, unless that fails, and then the
-- message is published, unless it cannot be marshalled or the publishing fails.
pub data Pass {F P B : Type 0} (marshal : MakeBreadMessage F → Option B) (now : ℤ)
    : List (Bread F) → Db F P → List Bool → List PendingMakeOrder → List B → Type 0 where
  done : {d : Db F P} {ls : List Bool} → Pass marshal now [] d ls [] []
  enough :
      {b : Bread F} {bs : List (Bread F)} {d : Db F P} {ls : List Bool} {rs : List PendingMakeOrder}
      {ms : List B}
      → leb_ℤ b.quantity (pos 10) ≡ false
      → Pass marshal now bs d ls rs ms
      → Pass marshal now (b ∷ bs) d ls rs ms
  refused :
      {b : Bread F} {bs : List (Bread F)} {d d' : Db F P} {ls : List Bool}
      {rs : List PendingMakeOrder} {ms : List B} {e : Error}
      → leb_ℤ b.quantity (pos 10) ≡ true
      → insert_pending_make_order now (request_for b) d ≡ (err e, d')
      → Pass marshal now bs d' ls rs ms
      → Pass marshal now (b ∷ bs) d ls rs ms
  stored :
      {b : Bread F} {bs : List (Bread F)} {d d' : Db F P} {ls : List Bool} {r : PendingMakeOrder}
      {rs : List PendingMakeOrder} {ms : List B} {id : ℤ}
      → leb_ℤ b.quantity (pos 10) ≡ true
      → insert_pending_make_order now (request_for b) d ≡ (ok id, d')
      → AsksFor b r
      → marshal (make_message b) ≡ none
      → Pass marshal now bs d' ls rs ms
      → Pass marshal now (b ∷ bs) d ls (r ∷ rs) ms
  unsent :
      {b : Bread F} {bs : List (Bread F)} {d d' : Db F P} {ls ls' : List Bool}
      {r : PendingMakeOrder} {rs : List PendingMakeOrder} {ms : List B} {id : ℤ}
      → leb_ℤ b.quantity (pos 10) ≡ true
      → insert_pending_make_order now (request_for b) d ≡ (ok id, d')
      → AsksFor b r
      → breaks ls ≡ true
      → ls' ≡ later ls
      → Pass marshal now bs d' ls' rs ms
      → Pass marshal now (b ∷ bs) d ls (r ∷ rs) ms
  asked :
      {b : Bread F} {bs : List (Bread F)} {d d' : Db F P} {ls ls' : List Bool}
      {r : PendingMakeOrder} {rs : List PendingMakeOrder} {bytes : B} {ms : List B} {id : ℤ}
      → leb_ℤ b.quantity (pos 10) ≡ true
      → insert_pending_make_order now (request_for b) d ≡ (ok id, d')
      → AsksFor b r
      → marshal (make_message b) ≡ some bytes
      → breaks ls ≡ false
      → ls' ≡ later ls
      → Pass marshal now bs d' ls' rs ms
      → Pass marshal now (b ∷ bs) d ls (r ∷ rs) (bytes ∷ ms)

module _ {F P B : Type 0} where
  -- Requests and messages are added at the end, and the stock is left alone.
  abbrev pub Added : Kitchen F P B → Kitchen F P B → List PendingMakeOrder → List B → Type 0
  Added k k' rs ms =
      (k'.db.tables.pending ≡ k.db.tables.pending ++ rs)
      × (k'.orders ≡ k.orders ++ ms)
      × (k'.db.tables.breads ≡ k.db.tables.breads)

  pub Added-trans :
      (k k1 k2 : Kitchen F P B) (r1 r2 : List PendingMakeOrder) (m1 m2 : List B)
      → Added k k1 r1 m1
      → Added k1 k2 r2 m2
      → Added k k2 (r1 ++ r2) (m1 ++ m2)
  Added-trans k k1 k2 r1 r2 m1 m2 x y = (
    y.0 ∙ ap (λ (l : List PendingMakeOrder). l ++ r2) x.0 ∙ append_assoc k.db.tables.pending r1 r2,
    y.1 ∙ ap (λ (l : List B). l ++ m2) x.1 ∙ append_assoc k.orders m1 m2,
    y.2 ∙ x.2,
  )

module _ {F P B : Type 0} (marshal : MakeBreadMessage F → Option B) (now : ℤ) where
  -- Replenishing one bread is the first step of a pass, whatever follows.
  abbrev pub One : Bread F → Kitchen F P B → Kitchen F P B → Type 0
  One b k k' =
      (bs : List (Bread F)) (rs : List PendingMakeOrder) (ms : List B)
      → Pass marshal now bs k'.db k'.links rs ms
      → (rs0 : List PendingMakeOrder) × (ms0 : List B) × Added k k' rs0 ms0
        × Pass marshal now (b ∷ bs) k.db k.links (rs0 ++ rs) (ms0 ++ ms)

  module _ (b : Bread F) (k : Kitchen F P B) (low : leb_ℤ b.quantity (pos 10) ≡ true) where
    abbrev row : PendingMakeOrder
    row = stored_row now (request_for b) k.db

    -- The request is stored, and the tables are those after it.
    abbrev Requested : ℤ → Db F P → Type 0
    Requested id d =
        (insert_pending_make_order now (request_for b) k.db ≡ (ok id, d))
        × (d.tables ≡ with_pending row k.db.tables)

    sent-Added :
        (id : ℤ) (bytes : B) (d : Db F P) (links : List Bool)
        → Requested id d
        → Added k
            (record k { db = d; orders = k.orders ++ bytes ∷ []; links = links })
            (row ∷ [])
            (bytes ∷ [])
    sent-Added id bytes d links q =
        (ap (λ (t : Tables F P). t.pending) q.1, refl, ap (λ (t : Tables F P). t.breads) q.1)

    unsent-Added :
        (id : ℤ) (d : Db F P) (links : List Bool)
        → Requested id d
        → Added k (record k { db = d; links = links }) (row ∷ []) []
    unsent-Added id d links q = (
      ap (λ (t : Tables F P). t.pending) q.1,
      sym (append-nil k.orders),
      ap (λ (t : Tables F P). t.breads) q.1,
    )

    publish-One :
        (id : ℤ) (d : Db F P) (bytes : B) (links : List Bool)
        → Requested id d
        → marshal (make_message b) ≡ some bytes
        → k.links ≡ links
        → One b k (publish marshal bytes links (record k { db = d }))
    publish-One id d bytes [] q m l bs rs ms p = (
      row ∷ [],
      bytes ∷ [],
      sent-Added id bytes d k.links q,
      Pass.asked low q.0 (refl, refl, refl, refl) m (ap breaks l) (l ∙ sym (ap later l)) p,
    )
    publish-One id d bytes (false ∷ ls) q m l bs rs ms p = (
      row ∷ [],
      bytes ∷ [],
      sent-Added id bytes d ls q,
      Pass.asked low q.0 (refl, refl, refl, refl) m (ap breaks l) (sym (ap later l)) p,
    )
    publish-One id d bytes (true ∷ ls) q m l bs rs ms p = (
      row ∷ [],
      [],
      unsent-Added id d ls q,
      Pass.unsent low q.0 (refl, refl, refl, refl) (ap breaks l) (sym (ap later l)) p,
    )

    marshalled-One :
        (id : ℤ) (d : Db F P) (o : Option B)
        → Requested id d
        → marshal (make_message b) ≡ o
        → One b k (publish_marshalled marshal o (record k { db = d }))
    marshalled-One id d none q m bs rs ms p = (
      row ∷ [],
      [],
      unsent-Added id d k.links q,
      Pass.stored low q.0 (refl, refl, refl, refl) m p,
    )
    marshalled-One id d (some bytes) q m bs rs ms p =
        publish-One id d bytes k.links q m refl bs rs ms p

    request-One :
        (r : Result ℤ × Db F P)
        → insert_pending_make_order now (request_for b) k.db ≡ r
        → Holds (λ _ t. t ≡ with_pending row k.db.tables) (λ t. t ≡ k.db.tables) r
        → One b k (after_request marshal b r k)
    request-One (err e, d) i h bs rs ms p = (
      [],
      [],
      (
        ap (λ (t : Tables F P). t.pending) h ∙ sym (append-nil k.db.tables.pending),
        sym (append-nil k.orders),
        ap (λ (t : Tables F P). t.breads) h,
      ),
      Pass.refused low i p,
    )
    request-One (ok id, d) i h bs rs ms p =
        marshalled-One id d (marshal (make_message b)) (i, h) refl bs rs ms p

    pub replenish-One : One b k (replenish marshal now b k)
    replenish-One =
        request-One (insert_pending_make_order now (request_for b) k.db) refl
          (insert_pending_make_order-Holds now (request_for b) k.db)
