-- ===== src/Tests/Buyers.antt =====
-- A cycle of the buyer that succeeds, and one in which a call fails.
use bakery_go.Common.{◌≡◌, ◌≤◌, ◌+◌, ◌⊎◌, refl}
use bakery_go.Buyers.{
  Cycle, Stream, Waiter, start, selecting, succeeded, failed, cancelled, telling, signal, buy,
  open_fails, open_stream, tell, receive, end_of_stream, report_buyer, report_stream, announce, Run,
  here, next,
}
use bakery_go.Buyers.Ending.{run-ends}
use bakery_go.Buyers.Outcome.{Bought, run-Bought, Goes, run-Goes}

-- A stream of one response, to its end.
abbrev settled : Cycle
settled = record (start 1) {
  main = succeeded;
  stream = Stream.returned;
  waiter = Waiter.returned;
  unread = 0;
  accepted = 1;
}

abbrev bought : Run (start 1) 9 settled
bought =
    next
      (next
        (next
          (next
            (next
              (next (next (next (next here (signal refl refl)) (buy refl)) (open_stream refl))
                (tell refl refl))
              (report_buyer refl refl))
            (receive 0 refl refl))
          (end_of_stream refl refl))
        (report_stream refl refl))
      (announce refl refl)

run-ends_example : 9 ≤ 13 + 1
run-ends_example = run-ends 1 9 settled bought

run-Bought_example : (settled.accepted ≤ 1) × (settled.main ≡ succeeded → Bought settled)
run-Bought_example = run-Bought 1 9 settled bought

-- After the order, the call for the stream fails.
abbrev stuck : Cycle
stuck = record (start 1) {
  main = selecting;
  buyer = telling;
  stream = Stream.returned;
  accepted = 1;
  errors = 1;
}

abbrev without_stream : Run (start 1) 3 stuck
without_stream = next (next (next here (signal refl refl)) (buy refl)) (open_fails refl)

run-Goes_example :
    ((stuck.main ≡ succeeded) ⊎ ((stuck.main ≡ failed) ⊎ (stuck.main ≡ cancelled))) ⊎ Goes stuck
run-Goes_example = run-Goes 1 3 stuck without_stream
