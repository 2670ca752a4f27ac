-- ===== src/Buyers/Ending.antt =====
-- The length of a run of a cycle.
use bakery_go.Common.{ℕ, Bool, true, false, ◌+◌, ◌≤◌, ◌<◌, arith}
use bakery_go.Buyers.{
  Main, sending, selecting, succeeded, failed, cancelled, Buyer, waiting, buying, telling,
  reporting, Stream, opening, listening, reading, finishing, Waiter, for_buyer, for_stream,
  announcing, Cycle, start, Step, signal, buy, buy_fails, answer_lost, open_stream, open_fails,
  tell, give_up, receive, end_of_stream, receive_fails, report_buyer, report_stream, announce, fail,
  stop, cancel, Run, here, next,
}

-- What is left to do at most.
abbrev main_left : Main → ℕ
main_left sending = 5
main_left selecting = 1
main_left succeeded = 0
main_left failed = 0
main_left cancelled = 0

abbrev buyer_left : Buyer → ℕ
buyer_left waiting = 0
buyer_left buying = 3
buyer_left telling = 2
buyer_left reporting = 1
buyer_left Buyer.returned = 0

abbrev stream_left : Stream → ℕ
stream_left opening = 4
stream_left listening = 3
stream_left reading = 2
stream_left finishing = 1
stream_left Stream.returned = 0

abbrev waiter_left : Waiter → ℕ
waiter_left for_buyer = 3
waiter_left for_stream = 2
waiter_left announcing = 1
waiter_left Waiter.returned = 0

abbrev context_left : Bool → ℕ
context_left true = 0
context_left false = 1

abbrev pub left : Cycle → ℕ
left c =
    main_left c.main
    + buyer_left c.buyer
    + stream_left c.stream
    + waiter_left c.waiter
    + context_left c.is_cancelled
    + c.unread

step-left : {c d : Cycle} → Step c d → left d < left c
step-left (signal a b) = ground arith
step-left (buy a) = ground arith
step-left (buy_fails a) = ground arith
step-left (answer_lost a) = ground arith
step-left (open_stream a) = ground arith
step-left (open_fails a) = ground arith
step-left (tell a b) = ground arith
step-left (give_up a b) = ground arith
step-left (receive n a b) = ground arith
step-left (end_of_stream a b) = ground arith
step-left (receive_fails a) = ground arith
step-left (report_buyer a b) = ground arith
step-left (report_stream a b) = ground arith
step-left (announce a b) = ground arith
step-left (fail n a b) = ground arith
step-left (stop a b) = ground arith
step-left (cancel a) = ground arith

run-left : {c d : Cycle} {n : ℕ} → Run c n d → n + left d ≤ left c
run-left here = omega arith
run-left (next r s) = omega (arith, run-left r, step-left s)

-- Every cycle ends: whatever the server answers and in whatever order the goroutines go on, none
-- makes more than 13 steps and one for each response that the stream gives.
pub run-ends : (responses n : ℕ) (c : Cycle) → Run (start responses) n c → n ≤ 13 + responses
run-ends responses n c r = omega (arith, run-left r)
