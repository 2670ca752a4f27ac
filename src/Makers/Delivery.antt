-- ===== src/Makers/Delivery.antt =====
-- When a delivery is acknowledged.
use bakery_go.Common.{
  ◌≡◌, refl, Bool, true, false, List, [], ◌∷◌, Option, none, some, ◌⊎◌, inl, inr, Bool-cases,
}
use bakery_go.Makers.{
  MakeBreadMessage, BreadMadeMessage, Action, publishes, acks, nacks, Outcome, confirmation_of,
  process_order, nack_delivery, ack_delivery, publish_confirmation, after_process,
  process_single_message,
}

module _ {F B : Type 0} (unmarshal : B → Option (MakeBreadMessage F))
    (marshal : BreadMadeMessage → Option B) (publish_works : B → Bool)
    (ack_works nack_works : Bool) where
  -- The confirmation of a delivery was published: that of the bread and the number it asks for.
  abbrev pub Confirmed : B → B → Type 0
  Confirmed body bytes =
      (m : MakeBreadMessage F) × (unmarshal body ≡ some m)
      × (marshal (record { bread_id = m.id; quantity = m.quantity }) ≡ some bytes)
      × (publish_works bytes ≡ true)

  -- The body is no order, or its confirmation cannot be marshalled.
  abbrev pub Unusable : B → Type 0
  Unusable body =
      (unmarshal body ≡ none)
      ⊎ ((m : MakeBreadMessage F) × (unmarshal body ≡ some m)
          × (marshal (record { bread_id = m.id; quantity = m.quantity }) ≡ none))

  -- The confirmation of the delivery is there, and the queue does not take it.
  abbrev pub Unpublished : B → B → Type 0
  Unpublished body bytes =
      (m : MakeBreadMessage F) × (unmarshal body ≡ some m)
      × (marshal (record { bread_id = m.id; quantity = m.quantity }) ≡ some bytes)
      × (publish_works bytes ≡ false)

  -- What was called at the queue: a confirmation and then an Ack, or a Nack alone, or a Nack after
  -- an attempt to publish that failed.
  abbrev pub Handled : B → Outcome × List (Action B) → Type 0
  Handled body r =
      ((bytes : B) × Confirmed body bytes
        × (r ≡ (ack_delivery ack_works, publishes bytes ∷ acks ∷ [])))
      ⊎ ((Unusable body × (r ≡ (nack_delivery nack_works, nacks ∷ [])))
          ⊎ ((bytes : B) × Unpublished body bytes
              × (r ≡ (nack_delivery nack_works, publishes bytes ∷ nacks ∷ []))))

  abbrev after : Option BreadMadeMessage → Outcome × List (Action B)
  after = after_process unmarshal marshal publish_works ack_works nack_works

  published-Handled :
      (body : B) (m : MakeBreadMessage F) (o : Option B)
      → unmarshal body ≡ some m
      → marshal (record { bread_id = m.id; quantity = m.quantity }) ≡ o
      → Handled body (publish_confirmation unmarshal marshal publish_works ack_works nack_works o)
  published-Handled body m none e f = inr (inl (inr (m, e, f), refl))
  published-Handled body m (some bytes) e f = elim (Bool-cases (publish_works bytes)) [
    | inl works ↦ rw works (inl (bytes, (m, e, f, works), refl))
    | inr fails ↦ rw fails (inr (inr (bytes, (m, e, f, fails), refl)))
  ]

  parsed-Handled :
      (body : B) (o : Option (MakeBreadMessage F))
      → unmarshal body ≡ o
      → Handled body
          (after (confirmation_of unmarshal marshal publish_works ack_works nack_works o))
  parsed-Handled body none e = inr (inl (inl e, refl))
  parsed-Handled body (some m) e = published-Handled body m _ e refl

  -- A delivery on every branch. Either the confirmation of the bread and the number that the
  -- delivery asks for is published and then the delivery is acknowledged; or the body is no order,
  -- or the confirmation cannot be marshalled, and there is a Nack alone; or the queue does not take
  -- that confirmation, and there is a Nack after the attempt. Whether the queue takes the Ack or
  -- the Nack decides the outcome.
  pub process_single_message-Handled :
      (body : B)
      → Handled body
          (process_single_message unmarshal marshal publish_works ack_works nack_works body)
  unfolding process_single_message process_order
  process_single_message-Handled body = parsed-Handled body (unmarshal body) refl
