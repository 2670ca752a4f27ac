-- ===== src/Buyers.antt =====
-- buyers/main.go: one cycle of the buyer (runBuyCycle), with the goroutines buySomeBread and
-- buyBreadStream and the one that waits for both, as a relation of steps. Their channels are
-- unbuffered, so that a send and its receipt are one step; errChan has room for both errors. What
-- the server answers is open: each call is answered or fails, a failed BuyBread with the order
-- accepted or not, and the stream gives a number of
-- responses, its end, or an error. The breads that are bought are constants and left out.
pub mod Ending
pub mod Places
pub mod Outcome
use bakery_go.Common.{ℕ, zero, suc, Bool, true, false, ◌≡◌}

-- runBuyCycle: before its send to buyBreadChan, in its select, and its results.
pub data Main : Type 0 where
  sending selecting succeeded failed cancelled : Main

-- buySomeBread: in its select, in the call of BuyBread, before its sends to breadBoughtChan and to
-- doneBuy.
pub data Buyer : Type 0 where
  waiting buying telling reporting returned : Buyer

-- buyBreadStream: in the call of BuyBreadStream, in its select, in its loop over the stream, before
-- its send to doneStream.
pub data Stream : Type 0 where
  opening listening reading finishing returned : Stream

-- The goroutine that waits for both: before its receipt from doneBuy, before that from doneStream,
-- and before its send to globalDone.
pub data Waiter : Type 0 where
  for_buyer for_stream announcing returned : Waiter

pub record Cycle : Type 0 where
  pub main : Main
  pub buyer : Buyer
  pub stream : Stream
  pub waiter : Waiter
  pub errors : ℕ  -- in errChan
  pub is_cancelled : Bool  -- the context
  pub unread : ℕ  -- the responses that the stream has still to give
  pub accepted : ℕ  -- the orders that the server has accepted

abbrev pub start : ℕ → Cycle
start responses = record {
  main = sending;
  buyer = waiting;
  stream = opening;
  waiter = for_buyer;
  errors = 0;
  is_cancelled = false;
  unread = responses;
  accepted = 0;
}

pub data Step (c : Cycle) : Cycle → Type 0 where
  signal :
      c.main ≡ sending → c.buyer ≡ waiting → Step c (record c { main = selecting; buyer = buying })
  buy : c.buyer ≡ buying → Step c (record c { buyer = telling; accepted = suc c.accepted })
  buy_fails : c.buyer ≡ buying → Step c (record c { buyer = returned; errors = suc c.errors })
  answer_lost :
      c.buyer ≡ buying
      → Step c (record c { buyer = returned; errors = suc c.errors; accepted = suc c.accepted })
  open_stream : c.stream ≡ opening → Step c (record c { stream = listening })
  open_fails : c.stream ≡ opening → Step c (record c { stream = returned; errors = suc c.errors })
  tell :
      c.buyer ≡ telling
      → c.stream ≡ listening
      → Step c (record c { buyer = reporting; stream = reading })
  give_up : c.stream ≡ listening → c.is_cancelled ≡ true → Step c (record c { stream = returned })
  receive : (n : ℕ) → c.stream ≡ reading → c.unread ≡ suc n → Step c (record c { unread = n })
  end_of_stream : c.stream ≡ reading → c.unread ≡ 0 → Step c (record c { stream = finishing })
  receive_fails :
      c.stream ≡ reading → Step c (record c { stream = returned; errors = suc c.errors })
  report_buyer :
      c.buyer ≡ reporting
      → c.waiter ≡ for_buyer
      → Step c (record c { buyer = waiting; waiter = for_stream })
  report_stream :
      c.stream ≡ finishing
      → c.waiter ≡ for_stream
      → Step c (record c { stream = returned; waiter = announcing })
  announce :
      c.main ≡ selecting
      → c.waiter ≡ announcing
      → Step c (record c { main = succeeded; waiter = returned })
  fail :
      (n : ℕ)
      → c.main ≡ selecting
      → c.errors ≡ suc n
      → Step c (record c { main = failed; errors = n })
  stop : c.main ≡ selecting → c.is_cancelled ≡ true → Step c (record c { main = cancelled })
  cancel : c.is_cancelled ≡ false → Step c (record c { is_cancelled = true })

-- A run of a number of steps.
pub data Run (c : Cycle) : ℕ → Cycle → Type 0 where
  here : Run c 0 c
  next : {n : ℕ} {d e : Cycle} → Run c n d → Step d e → Run c (suc n) e
