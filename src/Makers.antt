-- ===== src/Makers.antt =====
-- makers/main.go: one delivery of an order to bake, from processOrder to its acknowledgement. The
-- consumer waits for the worker's result, so deliveries are handled one after another. Parameters
-- are json's functions (`B` are bytes) and what the queue answers.
pub mod Delivery
use bakery_go.Common.{Bool, true, false, List, [], ◌∷◌, Option, none, some, String}
use bakery_go.Common.Int.{ℤ}

pub record MakeBreadMessage (F : Type 0) : Type 0 where
  pub id : ℤ
  pub name : String
  pub quantity : ℤ
  pub description : String
  pub kind : String  -- `Type`
  pub price : F
  pub status : String
  pub image : String

pub record BreadMadeMessage : Type 0 where
  pub bread_id : ℤ
  pub quantity : ℤ

-- The calls at the queue, those included that fail.
pub data Action (B : Type 0) : Type 0 where
  publishes : B → Action B
  acks nacks : Action B

pub data Outcome : Type 0 where
  made : Outcome
  nacked : Outcome
  nack_failed : Outcome
  ack_failed : Outcome

-- `ackDelivery` and `nackDelivery`, by whether the queue takes the call.
abbrev pub ack_delivery : Bool → Outcome
ack_delivery true = made
ack_delivery false = ack_failed

abbrev pub nack_delivery : Bool → Outcome
nack_delivery true = nacked
nack_delivery false = nack_failed

module _ {F B : Type 0} (unmarshal : B → Option (MakeBreadMessage F))
    (marshal : BreadMadeMessage → Option B) (publish_works : B → Bool)
    (ack_works nack_works : Bool) where
  abbrev pub confirmation_of : Option (MakeBreadMessage F) → Option BreadMadeMessage
  confirmation_of none = none
  confirmation_of (some msg) = some (record { bread_id = msg.id; quantity = msg.quantity })

  unfoldable pub process_order : B → Option BreadMadeMessage
  process_order body = confirmation_of (unmarshal body)

  abbrev pub after_publish : B → Bool → Outcome × List (Action B)
  after_publish bytes true = (ack_delivery ack_works, publishes bytes ∷ acks ∷ [])
  after_publish bytes false = (nack_delivery nack_works, publishes bytes ∷ nacks ∷ [])

  abbrev pub publish_confirmation : Option B → Outcome × List (Action B)
  publish_confirmation none = (nack_delivery nack_works, nacks ∷ [])
  publish_confirmation (some bytes) = after_publish bytes (publish_works bytes)

  abbrev pub after_process : Option BreadMadeMessage → Outcome × List (Action B)
  after_process none = (nack_delivery nack_works, nacks ∷ [])
  after_process (some c) = publish_confirmation (marshal c)

  unfoldable pub process_single_message : B → Outcome × List (Action B)
  unfolding process_order
  process_single_message body = after_process (process_order body)
