-- ===== src/Buyers/Places.antt =====
-- Where the goroutines of a cycle can be at the same time, and what errors there are then.
use bakery_go.Common.{ℕ, Bool, true, false, ◌+◌, ◌≤◌, ◌≡◌, refl, arith}
use bakery_go.Buyers.{
  Main, sending, selecting, succeeded, failed, cancelled, Buyer, waiting, buying, telling,
  reporting, Stream, opening, listening, reading, finishing, Waiter, for_buyer, for_stream,
  announcing, Cycle, start, Step, signal, buy, buy_fails, answer_lost, open_stream, open_fails,
  tell, give_up, receive, end_of_stream, receive_fails, report_buyer, report_stream, announce, fail,
  stop, cancel, Run, here, next,
}

-- Whether the stream has been told that the order is accepted: before, it may have ended; after, it
-- is read.
abbrev pub before_telling : Stream → Bool
before_telling opening = true
before_telling listening = true
before_telling reading = false
before_telling finishing = false
before_telling Stream.returned = true

abbrev pub after_telling : Stream → Bool
after_telling opening = false
after_telling listening = false
after_telling reading = true
after_telling finishing = true
after_telling Stream.returned = true

abbrev pub has_returned : Stream → Bool
has_returned opening = false
has_returned listening = false
has_returned reading = false
has_returned finishing = false
has_returned Stream.returned = true

-- Where the goroutines can be at the same time.
abbrev pub fits_waiter : Waiter → Buyer → Stream → Bool
fits_waiter for_buyer waiting s = false
fits_waiter for_buyer buying s = before_telling s
fits_waiter for_buyer telling s = before_telling s
fits_waiter for_buyer reporting s = after_telling s
fits_waiter for_buyer Buyer.returned s = before_telling s
fits_waiter for_stream waiting s = after_telling s
fits_waiter for_stream buying s = false
fits_waiter for_stream telling s = false
fits_waiter for_stream reporting s = false
fits_waiter for_stream Buyer.returned s = false
fits_waiter announcing waiting s = has_returned s
fits_waiter announcing buying s = false
fits_waiter announcing telling s = false
fits_waiter announcing reporting s = false
fits_waiter announcing Buyer.returned s = false
fits_waiter Waiter.returned waiting s = has_returned s
fits_waiter Waiter.returned buying s = false
fits_waiter Waiter.returned telling s = false
fits_waiter Waiter.returned reporting s = false
fits_waiter Waiter.returned Buyer.returned s = false

abbrev pub fits_start : Buyer → Stream → Waiter → Bool
fits_start waiting s for_buyer = before_telling s
fits_start waiting s for_stream = false
fits_start waiting s announcing = false
fits_start waiting s Waiter.returned = false
fits_start buying s w = false
fits_start telling s w = false
fits_start reporting s w = false
fits_start Buyer.returned s w = false

abbrev pub unless_announced : Waiter → Buyer → Stream → Bool
unless_announced for_buyer b s = fits_waiter for_buyer b s
unless_announced for_stream b s = fits_waiter for_stream b s
unless_announced announcing b s = fits_waiter announcing b s
unless_announced Waiter.returned b s = false

abbrev pub if_announced : Waiter → Buyer → Stream → Bool
if_announced for_buyer b s = false
if_announced for_stream b s = false
if_announced announcing b s = false
if_announced Waiter.returned b s = fits_waiter Waiter.returned b s

abbrev pub fits : Main → Buyer → Stream → Waiter → Bool
fits sending b s w = fits_start b s w
fits selecting b s w = unless_announced w b s
fits succeeded b s w = if_announced w b s
fits failed b s w = unless_announced w b s
fits cancelled b s w = unless_announced w b s

abbrev pub bought : Main → Buyer → ℕ
bought sending b = 0
bought m waiting = 1
bought m buying = 0
bought m telling = 1
bought m reporting = 1
bought m Buyer.returned = 0

abbrev pub lost_buyer : Buyer → ℕ
lost_buyer Buyer.returned = 1
lost_buyer waiting = 0
lost_buyer buying = 0
lost_buyer telling = 0
lost_buyer reporting = 0

-- A stream that has returned without a word to the waiter.
abbrev pub lost_stream : Waiter → Stream → ℕ
lost_stream for_buyer Stream.returned = 1
lost_stream for_stream Stream.returned = 1
lost_stream announcing s = 0
lost_stream Waiter.returned s = 0
lost_stream w opening = 0
lost_stream w listening = 0
lost_stream w reading = 0
lost_stream w finishing = 0

abbrev pub taken : Main → ℕ
taken failed = 1
taken sending = 0
taken selecting = 0
taken succeeded = 0
taken cancelled = 0

abbrev pub flag : Bool → ℕ
flag true = 1
flag false = 0

abbrev pub Drained : Stream → Waiter → ℕ → Type 0
Drained finishing w n = n ≡ 0
Drained s announcing n = n ≡ 0
Drained s Waiter.returned n = n ≡ 0
Drained s for_buyer n = Unit {0}
Drained s for_stream n = Unit {0}

pub record Inv (c : Cycle) : Type 0 where
  pub together : fits c.main c.buyer c.stream c.waiter ≡ true
  pub counted :
      bought c.main c.buyer ≤ c.accepted × (c.accepted ≤ bought c.main c.buyer + lost_buyer c.buyer)
  pub few_errors : c.errors + taken c.main ≤ lost_buyer c.buyer + lost_stream c.waiter c.stream
  pub enough_errors :
      lost_buyer c.buyer + lost_stream c.waiter c.stream
      ≤ c.errors + taken c.main + flag c.is_cancelled
  pub buyer_error : lost_buyer c.buyer ≤ c.errors + taken c.main
  pub drained : Drained c.stream c.waiter c.unread

start-Inv : (n : ℕ) → Inv (start n)
start-Inv n = record {
  together = refl;
  counted = (omega arith, omega arith);
  few_errors = omega arith;
  enough_errors = omega arith;
  buyer_error = omega arith;
  drained = tt;
}

step-Inv : {c d : Cycle} → Step c d → Inv c → Inv d
step-Inv (signal a b) i = ground arith
step-Inv (buy a) i = ground arith
step-Inv (buy_fails a) i = ground arith
step-Inv (answer_lost a) i = ground arith
step-Inv (open_stream a) i = ground arith
step-Inv (open_fails a) i = ground arith
step-Inv (tell a b) i = ground arith
step-Inv (give_up a b) i = ground arith
step-Inv (receive n a b) i = ground arith
step-Inv (end_of_stream a b) i = ground arith
step-Inv (receive_fails a) i = ground arith
step-Inv (report_buyer a b) i = ground arith
step-Inv (report_stream a b) i = ground arith
step-Inv (announce a b) i = ground arith
step-Inv (fail n a b) i = ground arith
step-Inv (stop a b) i = ground arith
step-Inv (cancel a) i = ground arith

pub run-Inv : {responses n : ℕ} {c : Cycle} → Run (start responses) n c → Inv c
run-Inv {responses} here = start-Inv responses
run-Inv (next r s) = step-Inv s (run-Inv r)
