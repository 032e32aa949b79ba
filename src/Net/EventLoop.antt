-- ===== src/Net/EventLoop.antt =====
-- src/net/event_loop.h and src/net/event_loop.cpp: the loop around epoll_wait. `S` is what the
-- handlers work on, the loop's own fields among it; `E` is an event with the kernel's answers to its
-- handler, and `T` what the kernel answers to `onTick`. `none` is a failed assertion of a handler, or
-- a loop that still waits.
pub mod Keeps
use Prim.Native.Nat.{bit_and, bit_or}
use tiny_redis.Base.{
  ℕ, ◌+◌, ◌%◌, Bool, true, false, not, Option, none, some, List, [], ◌∷◌, ◌==◌, if◌then◌else◌,
}
use tiny_redis.Bits.{word}
use tiny_redis.Net.Kernel.{
  epollin, epollout, epollerr, epollhup, eintr, WaitAnswer, woke, wait_failed,
}

pub record EventLoop : Type 0 where
  pub tick_count : ℕ
  pub stop_requested : Bool

abbrev pub new : EventLoop
new = record { tick_count = 0; stop_requested = false }

unfoldable pub stop : EventLoop → EventLoop
stop l = record l { stop_requested = true }

unfoldable pub has_bits : ℕ → ℕ → Bool
has_bits events mask = not (bit_and events mask == 0)

-- The methods of the handler that an event is for, in their order.
unfoldable pub dispatch_event : {S : Type 0} → ℕ → (S → Option S) → (S → Option S) → S → Option S
unfolding has_bits
dispatch_event events on_readable on_writable s =
    elim (if has_bits events (bit_or epollin (bit_or epollerr epollhup))
      then on_readable s
      else some s) [
        | none ↦ none
        | some s' ↦ if has_bits events epollout then on_writable s' else some s'
      ]

-- One return of epoll_wait. A signal whose handler calls `stop` may come while the loop waits.
pub record Wake (E T : Type 0) : Type 0 where
  pub signalled : Bool
  pub answer : WaitAnswer E
  pub at_tick : T

-- How `run` ends: it returns, or throws the errno.
pub data Exit (S : Type 0) : Type 0 where
  returned : S → Exit S
  thrown : ℕ → S → Exit S

-- How a round ends: with the next one, or with an exception.
pub data Round (S : Type 0) : Type 0 where
  goes_on : S → Round S
  throws : ℕ → S → Round S

module _ {S E T : Type 0} (loop : S → EventLoop) (set_loop : EventLoop → S → S)
    (deliver : E → S → Option S) (on_tick : T → S → Option S) where
  -- The loop over the events of a batch.
  unfoldable pub deliver_all : List E → S → Option S
  deliver_all [] s = some s
  deliver_all (e ∷ es) s = elim (deliver e s) [ none ↦ none | some s' ↦ deliver_all es s' ]

  unfoldable pub count_tick : S → S
  count_tick s = set_loop (record (loop s) { tick_count = ((loop s).tick_count + 1) % word }) s

  -- The batch, and the tick behind it.
  unfoldable pub run_batch : List E → T → S → Option S
  unfolding deliver_all count_tick
  run_batch es at_tick s = elim (deliver_all es (count_tick s)) [
    | none ↦ none
    | some s' ↦ on_tick at_tick s'
  ]

  unfoldable pub take_signal : Bool → S → S
  unfolding stop
  take_signal signalled s = if signalled then set_loop (stop (loop s)) s else s

  unfoldable pub after_wait : WaitAnswer E → T → S → Option (Round S)
  unfolding run_batch
  after_wait (wait_failed e) at_tick s = some (if e == eintr then goes_on s else throws e s)
  after_wait (woke es) at_tick s = elim (run_batch es at_tick s) [
    | none ↦ none
    | some s' ↦ some (goes_on s')
  ]

  -- `stopRequested_.store(false)`
  unfoldable pub clear_stop : S → S
  clear_stop s = set_loop (record (loop s) { stop_requested = false }) s

  unfoldable pub run : List (Wake E T) → S → Option (Exit S)
  unfolding take_signal after_wait clear_stop
  run [] s = if (loop s).stop_requested then some (returned (clear_stop s)) else none
  run (w ∷ ws) s = elim ((loop s).stop_requested) [
    | true ↦ some (returned (clear_stop s))
    | false ↦ elim (after_wait w.answer w.at_tick (take_signal w.signalled s)) [
      | none ↦ none
      | some (goes_on s') ↦ run ws s'
      | some (throws e s') ↦ some (thrown e (clear_stop s'))
    ]
  ]
