-- ===== src/Server/Bakehouse/Sending.antt =====
-- What the calls that fill a queue have published.
use mathlib.Core.List.{append-nil, append_assoc}
use bakery_go.Common.{
  ◌≡◌, refl, true, false, Bool, List, [], ◌∷◌, ◌++◌, Option, none, some, ◌∙◌, sym, Bool-cases, inl,
  inr,
}
use bakery_go.Proto
use bakery_go.Server.Shop.{Reply, replied, fails}
use bakery_go.Server.Bakehouse.{with_first, ready, publish_one, publish_each, send_bread_to_bakery}

module _ {F B : Type 0} (marshal : Proto.Bread F → Option B) where
  -- Each bread was published as it was received, and the reply has it in its new status.
  abbrev pub AllSent : List (Proto.Bread F) → List B → List (Proto.Bread F) → Type 0
  AllSent [] [] [] = Unit
  AllSent [] [] (m ∷ ms) = ⊥
  AllSent [] (x ∷ xs) ms = ⊥
  AllSent (b ∷ bs) [] ms = ⊥
  AllSent (b ∷ bs) (x ∷ xs) [] = ⊥
  AllSent (b ∷ bs) (x ∷ xs) (m ∷ ms) =
      (marshal b ≡ some x) × (m ≡ record b { status = "bread ready to consume" }) × AllSent bs xs ms

  -- What was added to the queue, of all the breads if there is a reply.
  abbrev pub Sent : List (Proto.Bread F) → List B → Reply (List (Proto.Bread F)) × List B → Type 0
  Sent bs queue (replied ms, queue') = (xs : List B) × AllSent bs xs ms × (queue' ≡ queue ++ xs)
  Sent bs queue (fails c, queue') = (xs : List B) × (queue' ≡ queue ++ xs)

module _ {F B : Type 0} (marshal : Proto.Bread F → Option B) (publish_works : B → Bool) where
  longer-Sent :
      (b : Proto.Bread F) (bs : List (Proto.Bread F)) (bytes : B) (queue : List B)
      (r : Reply (List (Proto.Bread F)) × List B)
      → marshal b ≡ some bytes
      → Sent marshal bs (queue ++ bytes ∷ []) r
      → Sent marshal (b ∷ bs) queue (with_first (ready b) r.0, r.1)
  longer-Sent b bs bytes queue (replied ms, q) m s =
      (bytes ∷ s.0, (m, refl, s.1), s.2 ∙ append_assoc queue (bytes ∷ []) s.0)
  longer-Sent b bs bytes queue (fails c, q) m s =
      (bytes ∷ s.0, s.1 ∙ append_assoc queue (bytes ∷ []) s.0)

  publish_one-Sent :
      (b : Proto.Bread F) (bs : List (Proto.Bread F)) (o : Option B) (queue : List B)
      → marshal b ≡ o
      → ((q : List B) → Sent marshal bs q (publish_each marshal publish_works ready bs q))
      → Sent marshal (b ∷ bs) queue (
          publish_one marshal publish_works ready b o queue
            (publish_each marshal publish_works ready bs))
  publish_one-Sent b bs none queue m rest = ([], sym (append-nil queue))
  publish_one-Sent b bs (some bytes) queue m rest = elim (Bool-cases (publish_works bytes)) [
    | inl works ↦ rw works (
        longer-Sent b bs bytes queue
          (publish_each marshal publish_works ready bs (queue ++ bytes ∷ [])) m
          (rest (queue ++ bytes ∷ [])))
    | inr broken ↦ rw broken (([], sym (append-nil queue)))
  ]

  publish_each-Sent :
      (bs : List (Proto.Bread F)) (queue : List B)
      → Sent marshal bs queue (publish_each marshal publish_works ready bs queue)
  unfolding publish_each
  publish_each-Sent [] queue = ([], tt, sym (append-nil queue))
  publish_each-Sent (b ∷ bs) queue =
      publish_one-Sent b bs (marshal b) queue refl (publish_each-Sent bs)

  -- SendBreadToBakery. A call that is answered has published every bread in its order, but as it was
  -- received: the new status is set after the bread is marshalled, so only the reply has it. A call
  -- that fails may have published some breads, and none is taken back.
  pub send_bread_to_bakery-Sent :
      (connected : Bool) (breads : List (Proto.Bread F)) (queue : List B)
      → Sent marshal breads queue
          (send_bread_to_bakery marshal publish_works connected breads queue)
  unfolding send_bread_to_bakery
  send_bread_to_bakery-Sent true breads queue = publish_each-Sent breads queue
  send_bread_to_bakery-Sent false breads queue = ([], sym (append-nil queue))
