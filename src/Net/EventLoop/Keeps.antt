-- ===== src/Net/EventLoop/Keeps.antt =====
-- src/net/event_loop.cpp: an invariant of the methods of a handler, through `dispatchEvent`.
use Prim.Native.Nat.{bit_or}
use tiny_redis.Base.{ℕ, Bool, true, false, Option, none, some, if◌then◌else◌}
use tiny_redis.Net.Connection.Settled.{Ensures}
use tiny_redis.Net.EventLoop.{has_bits, dispatch_event}
use tiny_redis.Net.Kernel.{epollin, epollout, epollerr, epollhup}

pub dispatch_event-keeps :
    {S : Type 0} (I : S → Type 0) (events : ℕ) (reads writes : S → Option S) (s : S)
    → ((s' : S) → I s' → Ensures I (reads s'))
    → ((s' : S) → I s' → Ensures I (writes s'))
    → I s
    → Ensures I (dispatch_event events reads writes s)
unfolding dispatch_event
dispatch_event-keeps {S} I events reads writes s on_read on_write h =
    next (if has_bits events (bit_or epollin (bit_or epollerr epollhup)) then reads s else some s)
      (first (has_bits events (bit_or epollin (bit_or epollerr epollhup))))
  where
    first : (b : Bool) → Ensures I (if b then reads s else some s)
    first true = on_read s h
    first false = h

    second : (b : Bool) (s' : S) → I s' → Ensures I (if b then writes s' else some s')
    second true s' k = on_write s' k
    second false s' k = k

    next :
        (o : Option S)
        → Ensures I o
        → Ensures I (elim o [
          | none ↦ none
          | some s' ↦ if has_bits events epollout then writes s' else some s'
        ])
    next none k = tt
    next (some s') k = second (has_bits events epollout) s' k
