-- ===== src/Server/Settlement.antt =====
-- server/settlement_dispatcher.go: the waiters of the streams, by the UUIDs of their orders. A
-- channel with a buffer for one message is known by a number; the lock makes Register and
-- Unregister atomic, so goroutines are a sequence of events. `deliver` is its attempts, one every
-- 50 ms: an attempt is a look-up under the lock, and then a send without it. The map is a function,
-- and the flag `closed` of a waiter that is in the map is always false, since each method that sets
-- it takes the waiter out; that the flag is read is part of the look-up.
pub mod Routing
use bakery_go.Common.{
  ℕ, suc, Bool, true, false, List, [], ◌∷◌, Option, none, some, String, if◌then◌else◌, str_eq, ◌==◌,
}

-- A channel: closed or open, and the message in its buffer.
pub data Channel (O : Type 0) : Type 0 where
  open_empty : Channel O
  open_with : O → Channel O
  closed : Option O → Channel O

-- A send that does not wait: it is done, or there is no room, or, on a closed channel, it is a panic.
pub data Sent : Type 0 where
  sent full panics : Sent

pub record Dispatcher (O : Type 0) : Type 0 where
  pub waiters : String → Option ℕ
  pub channels : ℕ → Channel O
  pub next : ℕ

abbrev pub set_waiter : String → Option ℕ → (String → Option ℕ) → String → Option ℕ
set_waiter u c f v = if str_eq v u then c else f v

module _ {O : Type 0} where
  abbrev pub new_settlement_dispatcher : Dispatcher O
  new_settlement_dispatcher = record { waiters = λ _. none; channels = λ _. open_empty; next = 0 }

  -- `close(ch)`: what is in the buffer can still be received.
  abbrev pub close : Channel O → Channel O
  close open_empty = closed none
  close (open_with o) = closed (some o)
  close (closed b) = closed b

  abbrev pub set_channel : ℕ → Channel O → (ℕ → Channel O) → ℕ → Channel O
  set_channel c x f i = if i == c then x else f i

  abbrev pub close_of : Option ℕ → (ℕ → Channel O) → ℕ → Channel O
  close_of none f = f
  close_of (some c) f = set_channel c (close (f c)) f

  -- `Register`: the channel of the new waiter, in place of one that is there.
  unfoldable pub register : String → Dispatcher O → ℕ × Dispatcher O
  register uuid sd = (
    sd.next,
    record {
      waiters = set_waiter uuid (some sd.next) sd.waiters;
      channels = set_channel sd.next open_empty (close_of (sd.waiters uuid) sd.channels);
      next = suc sd.next;
    },
  )

  unfoldable pub unregister : String → Dispatcher O → Dispatcher O
  unregister uuid sd = record sd {
    waiters = set_waiter uuid none sd.waiters;
    channels = close_of (sd.waiters uuid) sd.channels;
  }

  -- The two steps of an attempt of `deliver`. It gives the lock back after the look-up, so that other
  -- goroutines may come between them.
  abbrev pub look_up : String → Dispatcher O → Option ℕ
  look_up uuid sd = sd.waiters uuid

  abbrev pub try_send : O → ℕ → Dispatcher O → Channel O → Sent × Dispatcher O
  try_send o c sd open_empty =
      (sent, record sd { channels = set_channel c (open_with o) sd.channels })
  try_send o c sd (open_with p) = (full, sd)
  try_send o c sd (closed b) = (panics, sd)

  unfoldable pub send : O → ℕ → Dispatcher O → Sent × Dispatcher O
  send o c sd = try_send o c sd (sd.channels c)

  -- The stream's receive from its channel.
  abbrev pub received : Channel O → Option O
  received open_empty = none
  received (open_with o) = some o
  received (closed b) = b
