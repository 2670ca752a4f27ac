-- ===== src/Buyers/Outcome.antt =====
-- How a cycle ends, and when a goroutine can go on.
use bakery_go.Common.{ℕ, zero, suc, ◌+◌, ◌≤◌, ◌≡◌, refl, arith, ◌⊎◌, inl, inr}
use bakery_go.Buyers.Places.{Inv, run-Inv, flag}
use bakery_go.Buyers.{
  Main, sending, selecting, succeeded, failed, cancelled, Buyer, waiting, buying, telling,
  reporting, Stream, opening, listening, reading, finishing, Waiter, for_buyer, for_stream,
  announcing, Cycle, start, Step, signal, buy, open_stream, tell, receive, end_of_stream,
  report_buyer, report_stream, announce, fail, stop, Run,
}

-- What a successful cycle has done.
abbrev pub Bought : Cycle → Type 0
Bought c =
    (c.accepted ≡ 1)
    × (c.unread ≡ 0)
    × (c.errors ≡ 0)
    × (c.stream ≡ Stream.returned)
    × (c.buyer ≡ waiting)

-- The server accepts one order of a cycle at most, also where the answer to BuyBread is lost. When
-- the cycle reports success, it has accepted one, the stream was read to its end, which may come
-- without any response, and no goroutine has met an error. And buySomeBread has not returned then:
-- it waits for another signal.
pub run-Bought :
    (responses n : ℕ) (c : Cycle)
    → Run (start responses) n c
    → (c.accepted ≤ 1) × (c.main ≡ succeeded → Bought c)
run-Bought responses n c r = let i = run-Inv r in (ground (arith, i), λ e. ground (arith, i, e))

-- The step is not one of the context.
abbrev pub Goes : Cycle → Type 0
Goes c = (d : Cycle) × Step c d × (d.is_cancelled ≡ c.is_cancelled)

module _ {c : Cycle} (i : Inv c) (in_select : c.main ≡ selecting) where
  fails_or_stops : (n : ℕ) → c.errors ≡ n → 1 ≤ c.errors + flag c.is_cancelled → Goes c
  fails_or_stops (suc n) e some_reason = (_, fail n in_select e, refl)
  fails_or_stops zero e some_reason = (_, stop in_select (ground arith), refl)

  reads : (n : ℕ) → c.unread ≡ n → c.stream ≡ reading → Goes c
  reads zero e s = (_, end_of_stream s e, refl)
  reads (suc n) e s = (_, receive n s e, refl)

  while_telling : (s : Stream) → c.stream ≡ s → c.buyer ≡ telling → Goes c
  while_telling opening e b = (_, open_stream e, refl)
  while_telling listening e b = (_, tell b e, refl)
  while_telling reading e b = absurd (ground (arith, i))
  while_telling finishing e b = absurd (ground (arith, i))
  while_telling Stream.returned e b = fails_or_stops c.errors refl (ground (arith, i))

  while_streaming : (s : Stream) → c.stream ≡ s → c.buyer ≡ waiting → c.waiter ≡ for_stream → Goes c
  while_streaming opening e b w = absurd (ground (arith, i))
  while_streaming listening e b w = absurd (ground (arith, i))
  while_streaming reading e b w = reads c.unread refl e
  while_streaming finishing e b w = (_, report_stream e w, refl)
  while_streaming Stream.returned e b w = fails_or_stops c.errors refl (ground (arith, i))

  while_waiting : (w : Waiter) → c.waiter ≡ w → c.buyer ≡ waiting → Goes c
  while_waiting for_buyer e b = absurd (ground (arith, i))
  while_waiting for_stream e b = while_streaming c.stream refl b e
  while_waiting announcing e b = (_, announce in_select e, refl)
  while_waiting Waiter.returned e b = absurd (ground (arith, i))

  in_select-Goes : (b : Buyer) → c.buyer ≡ b → Goes c
  in_select-Goes waiting e = while_waiting c.waiter refl e
  in_select-Goes buying e = (_, buy e, refl)
  in_select-Goes telling e = while_telling c.stream refl e
  in_select-Goes reporting e = (_, report_buyer e (ground (arith, i)), refl)
  in_select-Goes Buyer.returned e = fails_or_stops c.errors refl (ground (arith, i))

-- A cycle never waits for ever: as long as it has not returned, some goroutine can go on, whatever
-- has happened, without the context being cancelled for that. (The calls to the server are
-- answered.)
pub run-Goes :
    (responses n : ℕ) (c : Cycle)
    → Run (start responses) n c
    → ((c.main ≡ succeeded) ⊎ ((c.main ≡ failed) ⊎ (c.main ≡ cancelled))) ⊎ Goes c
run-Goes responses n c r = go c.main refl
  where
    go :
        (m : Main)
        → c.main ≡ m
        → ((c.main ≡ succeeded) ⊎ ((c.main ≡ failed) ⊎ (c.main ≡ cancelled))) ⊎ Goes c
    go sending e = inr (_, signal e (ground (arith, run-Inv r)), refl)
    go selecting e = inr (in_select-Goes (run-Inv r) e c.buyer refl)
    go succeeded e = inl (inl e)
    go failed e = inl (inr (inl e))
    go cancelled e = inl (inr (inr e))
