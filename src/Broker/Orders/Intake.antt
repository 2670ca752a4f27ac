-- ===== src/Broker/Orders/Intake.antt =====
-- The broker's buffer of orders between the intake and the matching engine.
use mathlib.Core.List.{append-nil, append_assoc}
use bakery_go.Common.{
  ◌≡◌, inl, inr, refl, List, [], ◌∷◌, ◌++◌, sym, ap, ◌∙◌, Bool-cases, leb, length,
}
use bakery_go.Data.Types.{BuyOrder}
use bakery_go.Broker.Orders.{Event, added, ticked, polled, match_step, match_run, match_batch_size}

module _ {F : Type 0} where
  -- The orders that some events add, in their order.
  unfoldable pub arrivals : List (Event F) → List (BuyOrder F)
  arrivals [] = []
  arrivals (added o ∷ es) = o ∷ arrivals es
  arrivals (ticked ∷ es) = arrivals es
  arrivals (polled ∷ es) = arrivals es

  unfoldable pub concat : List (List (BuyOrder F)) → List (BuyOrder F)
  concat [] = []
  concat (b ∷ bs) = b ++ concat bs

  -- One event moves orders from the front of the queue to a batch, or adds one at its end.
  match_step_keeps :
      (e : Event F) (buffer : List (BuyOrder F))
      → let r = match_step e buffer in r.0 ++ r.1 ≡ buffer ++ arrivals (e ∷ [])
  unfolding match_step arrivals
  match_step_keeps (added o) buffer = refl
  match_step_keeps ticked buffer = refl
  match_step_keeps polled buffer = elim (Bool-cases (leb match_batch_size (length buffer))) [
    | inl full ↦ rw full refl
    | inr few ↦ rw few (sym (append-nil buffer))
  ]

  arrivals_cons :
      (e : Event F) (es : List (Event F)) → arrivals (e ∷ es) ≡ arrivals (e ∷ []) ++ arrivals es
  unfolding arrivals
  arrivals_cons (added o) es = refl
  arrivals_cons ticked es = refl
  arrivals_cons polled es = refl

  -- No order is lost, served twice or overtaken on the way through the buffer: after any events, the
  -- batches that were handed to the matching engine, one after another, and then what is left in
  -- the buffer, are the orders that were in the buffer and those that were added, in that order.
  pub match_run_keeps :
      (es : List (Event F)) (buffer : List (BuyOrder F))
      → let r = match_run es buffer in concat r.0 ++ r.1 ≡ buffer ++ arrivals es
  unfolding match_run concat arrivals
  match_run_keeps [] buffer = sym (append-nil buffer)
  match_run_keeps (e ∷ es) buffer =
      let s = match_step e buffer in
      let r = match_run es s.1 in
      append_assoc s.0 (concat r.0) r.1
      ∙ ap (λ (l : List (BuyOrder F)). s.0 ++ l) (match_run_keeps es s.1)
      ∙ sym (append_assoc s.0 s.1 (arrivals es))
      ∙ ap (λ (l : List (BuyOrder F)). l ++ arrivals es) (match_step_keeps e buffer)
      ∙ append_assoc buffer (arrivals (e ∷ [])) (arrivals es)
      ∙ ap (λ (l : List (BuyOrder F)). buffer ++ l) (sym (arrivals_cons e es))
