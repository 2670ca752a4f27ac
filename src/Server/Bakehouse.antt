-- ===== src/Server/Bakehouse.antt =====
-- server/gRPCBakery.go: BakeBread, SendBreadToBakery and RemoveBread, which put breads into a queue,
-- and MadeBreadStream and RemoveBreadStream, which take them out of one. Parameters are json's
-- functions (`B` are bytes) and what the queue and the stream answer.
pub mod Sending
use bakery_go.Common.{Bool, true, false, List, [], ◌∷◌, ◌++◌, Option, none, some, if◌then◌else◌}
use bakery_go.Proto
use bakery_go.Server.Shop.{Reply, replied, fails, unknown, internal}

-- The calls at the queue and the stream, those included that fail.
pub data Event (F B : Type 0) : Type 0 where
  sends : List (Proto.Bread F) → Event F B
  acks nacks : B → Event F B

module _ {F : Type 0} where
  abbrev pub with_first :
      Proto.Bread F → Reply (List (Proto.Bread F)) → Reply (List (Proto.Bread F))
  with_first b (fails c) = fails c
  with_first b (replied bs) = replied (b ∷ bs)

  abbrev pub unchanged : Proto.Bread F → Proto.Bread F
  unchanged b = b

  abbrev pub ready : Proto.Bread F → Proto.Bread F
  ready b = record b { status = "bread ready to consume" }

module _ {F B : Type 0} (marshal : Proto.Bread F → Option B) (publish_works : B → Bool) where
  abbrev pub publish_one :
      (Proto.Bread F → Proto.Bread F)
      → Proto.Bread F
      → Option B
      → List B
      → (List B → Reply (List (Proto.Bread F)) × List B)
      → Reply (List (Proto.Bread F)) × List B
  publish_one change b none queue rest = (fails internal, queue)
  publish_one change b (some bytes) queue rest =
      let (r, queue') = rest (queue ++ bytes ∷ []) in
      if publish_works bytes then (with_first (change b) r, queue') else (fails internal, queue)

  -- The loop that the three calls share; `change` is what it does to a bread between its
  -- marshalling and its publication.
  unfoldable pub publish_each :
      (Proto.Bread F → Proto.Bread F)
      → List (Proto.Bread F)
      → List B
      → Reply (List (Proto.Bread F)) × List B
  publish_each change [] queue = (replied [], queue)
  publish_each change (b ∷ bs) queue =
      publish_one change b (marshal b) queue (publish_each change bs)

  unfoldable pub bake_bread :
      Bool → List (Proto.Bread F) → List B → Reply (List (Proto.Bread F)) × List B
  unfolding publish_each
  bake_bread connected breads bread_to_make =
      if connected
      then publish_each unchanged breads bread_to_make
      else (fails unknown, bread_to_make)

  unfoldable pub send_bread_to_bakery :
      Bool → List (Proto.Bread F) → List B → Reply (List (Proto.Bread F)) × List B
  unfolding publish_each
  send_bread_to_bakery connected breads bread_in_bakery =
      if connected
      then publish_each ready breads bread_in_bakery
      else (fails unknown, bread_in_bakery)

  unfoldable pub remove_bread :
      Bool → List (Proto.Bread F) → List B → Reply (List (Proto.Bread F)) × List B
  unfolding publish_each
  remove_bread connected breads bread_removed =
      if connected
      then publish_each unchanged breads bread_removed
      else (fails unknown, bread_removed)

abbrev pub Stream : Type 0 → Type 0 → Type 0
Stream F B = List (Event F B) × Reply (Unit {0})

module _ {F B : Type 0} where
  abbrev pub event_first : Event F B → Stream F B → Stream F B
  event_first e (es, r) = (e ∷ es, r)

module _ {F B : Type 0} (unmarshal : B → Option (Proto.Bread F))
    (send_works : List (Proto.Bread F) → Bool) (ack_works nack_works : B → Bool) where
  -- A reply, and the Ack of its delivery.
  abbrev pub send_and_ack : B → List (Proto.Bread F) → Stream F B → Stream F B
  send_and_ack d breads rest =
      event_first (sends breads)
        (event_first (acks d) (if ack_works d then rest else ([], fails unknown)))

  -- An error of the stream is lost: what is returned is the answer to the Nack.
  abbrev pub deliver_made :
      List (Proto.Bread F)
      → B
      → Option (Proto.Bread F)
      → (List (Proto.Bread F) → Stream F B)
      → Stream F B
  deliver_made delivered d none rest =
      (nacks d ∷ [], if nack_works d then fails internal else fails unknown)
  deliver_made delivered d (some bread) rest =
      let now = delivered ++ bread ∷ [] in
      if send_works now
      then send_and_ack d now (rest now)
      else (sends now ∷ nacks d ∷ [], if nack_works d then replied tt else fails unknown)

  -- Every reply has all the breads that have been delivered so far.
  unfoldable pub made_bread_stream : List B → List (Proto.Bread F) → Stream F B
  made_bread_stream [] delivered = ([], replied tt)
  made_bread_stream (d ∷ ds) delivered =
      deliver_made delivered d (unmarshal d) (made_bread_stream ds)

  -- A delivery that cannot be read or sent is neither acknowledged nor given back.
  abbrev pub deliver_removed : B → Option (Proto.Bread F) → Stream F B → Stream F B
  deliver_removed d none rest = ([], fails internal)
  deliver_removed d (some bread) rest =
      if send_works (bread ∷ [])
      then send_and_ack d (bread ∷ []) rest
      else (sends (bread ∷ []) ∷ [], fails unknown)

  unfoldable pub remove_bread_stream : List B → Stream F B
  remove_bread_stream [] = ([], replied tt)
  remove_bread_stream (d ∷ ds) = deliver_removed d (unmarshal d) (remove_bread_stream ds)
