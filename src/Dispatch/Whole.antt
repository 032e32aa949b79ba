-- ===== src/Dispatch/Whole.antt =====
-- src/core/command.cpp: `dispatch` over all its commands.
use tiny_redis.Base.Bytes.{codes}
use tiny_redis.Base.Int.{pos}
use tiny_redis.Base.{
  ℕ, ◌+◌, ◌<◌, Bool, true, false, Option, none, some, ◌≡◌, refl, length, ◌==◌, if◌then◌else◌,
}
use tiny_redis.Buffer.Queue.{IsValid as IsQueue}
use tiny_redis.Buffer.{Buffer}
use tiny_redis.Dispatch.Line.{is_line-find_spec}
use tiny_redis.Dispatch.Replies.{
  Replies, simple_string-Replies, integer-Replies, bulk-Replies, wrong_arity-Replies,
  unknown_command-Replies, cmd_ping-Replies,
}
use tiny_redis.Dispatch.Served.{
  Serves, ServesLate, cmd_get-Serves, cmd_del-Serves, cmd_exists-Serves,
}
use tiny_redis.Dispatch.Writes.{
  cmd_set-Serves, cmd_expire-Serves, cmd_ttl-ServesLate, cmd_flushall-Serves,
}
use tiny_redis.Dispatch.Words.{
  Cmd, Spec, get, set, del, exists, expire, ttl, ping, echo, dbsize, flushall, quit, arg, find_spec,
  arity_ok, unknown_command, wrong_arity,
}
use tiny_redis.Dispatch.{cmd_flushall, keep_open, goes_on, run_command, dispatch, DispatchResult}
use tiny_redis.Entry.{u32}
use tiny_redis.Resp.Reply.{is_line}
use tiny_redis.Resp.{Command}
use tiny_redis.Store.Cap.{IsReady}
use tiny_redis.Store.{Store, size}
use tiny_redis.Table.Pool.{EntryPool}

module _ {p : EntryPool} where
  -- What `dispatch` leaves, for an empty request or for another: a store that is ready, and one reply.
  -- It fails before half a second of the clock at most.
  abbrev pub Dispatched : ℕ → Bool → Buffer → Option (DispatchResult × Store p × Buffer) → Type 0
  Dispatched clock is_blank out none = clock < 500
  Dispatched clock is_blank out (some (d, s, out')) =
      IsReady s × (if is_blank then out' ≡ out else Replies out out')

  module _ (s : Store p) (h : IsReady s) (cmd : Command) (clock : ℕ) (out : Buffer)
      (q : IsQueue out) where
    abbrev Ran : Option (DispatchResult × Store p × Buffer) → Type 0
    Ran o = Dispatched clock false out o

    goes_on-Ran : (o : Option (Store p × Buffer)) → Serves out o → Ran (goes_on o)
    unfolding goes_on
    goes_on-Ran none r = absurd r
    goes_on-Ran (some (s', out')) r = r

    goes_on_late : (o : Option (Store p × Buffer)) → ServesLate clock out o → Ran (goes_on o)
    unfolding goes_on
    goes_on_late none r = r
    goes_on_late (some (s', out')) r = r

    run_command-Ran :
        (c : Cmd) (fuel : ℕ)
        → length (arg cmd 1) + length (arg cmd 2) < u32
        → Ran (run_command c fuel s cmd (pos clock) out)
    unfolding run_command
    run_command-Ran get fuel small = goes_on-Ran _ (cmd_get-Serves s h cmd (pos clock) out q)
    run_command-Ran set fuel small = goes_on-Ran _ (cmd_set-Serves s h cmd clock out q fuel small)
    run_command-Ran del fuel small = goes_on-Ran _ (cmd_del-Serves s h cmd (pos clock) out q)
    run_command-Ran exists fuel small = goes_on-Ran _ (cmd_exists-Serves s h cmd (pos clock) out q)
    run_command-Ran expire fuel small = goes_on-Ran _ (cmd_expire-Serves s h cmd clock out q)
    run_command-Ran ttl fuel small = goes_on_late _ (cmd_ttl-ServesLate s h cmd clock out q)
    run_command-Ran ping fuel small = (h, cmd_ping-Replies out q cmd)
    run_command-Ran echo fuel small = (h, bulk-Replies out q (arg cmd 1))
    run_command-Ran dbsize fuel small = (h, integer-Replies out q (pos (size s)))
    run_command-Ran flushall fuel small =
        goes_on-Ran (some (cmd_flushall s cmd out)) (cmd_flushall-Serves s h cmd clock out q)
    run_command-Ran quit fuel small = (h, simple_string-Replies out q (codes "OK") refl)

    dispatch-Dispatched :
        (fuel : ℕ)
        → length (arg cmd 1) + length (arg cmd 2) < u32
        → Dispatched clock (cmd.argc == 0) out (dispatch fuel s cmd (pos clock) out)
    unfolding dispatch
    dispatch-Dispatched fuel small = at_argc (cmd.argc == 0)
      where
        at_arity :
            (spec : Spec) (b : Bool)
            → is_line spec.name ≡ true
            → Ran (elim b [
              | false ↦ some (keep_open, s, wrong_arity spec.name out)
              | true ↦ run_command spec.cmd fuel s cmd (pos clock) out
            ])
        at_arity spec false line = (h, wrong_arity-Replies out q spec.name line)
        at_arity spec true line = run_command-Ran spec.cmd fuel small

        at_spec :
            (o : Option Spec)
            → find_spec (arg cmd 0) ≡ o
            → Ran (elim o [
              | none ↦ some (keep_open, s, unknown_command cmd out)
              | some spec ↦ elim (arity_ok spec cmd.argc) [
                | false ↦ some (keep_open, s, wrong_arity spec.name out)
                | true ↦ run_command spec.cmd fuel s cmd (pos clock) out
              ]
            ])
        at_spec none e = (h, unknown_command-Replies out q cmd)
        at_spec (some spec) e =
            at_arity spec (arity_ok spec cmd.argc) (is_line-find_spec (arg cmd 0) spec e)

        at_argc :
            (b : Bool)
            → Dispatched clock b out (elim b [
              | true ↦ some (keep_open, s, out)
              | false ↦ elim (find_spec (arg cmd 0)) [
                | none ↦ some (keep_open, s, unknown_command cmd out)
                | some spec ↦ elim (arity_ok spec cmd.argc) [
                  | false ↦ some (keep_open, s, wrong_arity spec.name out)
                  | true ↦ run_command spec.cmd fuel s cmd (pos clock) out
                ]
              ]
            ])
        at_argc true = (h, refl)
        at_argc false = at_spec (find_spec (arg cmd 0)) refl

  -- On a ready store, which has a valid table of a power of two of buckets, refuses new keys at its cap,
  -- has room in the pool for as many and deadlines of 64 bits, with a clock of at least 500 milliseconds,
  -- a valid output buffer and two first arguments whose lengths fit together in 32 bits: `dispatch`
  -- returns, no assertion of the store or of the table fails and the rounding of TTL does not overflow,
  -- the store is ready again, and one reply is added to the output, of which a simple string or an error
  -- is one line whatever the client sent; an empty request adds nothing. With an earlier clock it may
  -- fail, and if it returns the same holds.
  pub dispatch_lem :
      (fuel : ℕ) (s : Store p) (cmd : Command) (clock : ℕ) (out : Buffer)
      → IsReady s
      → IsQueue out
      → length (arg cmd 1) + length (arg cmd 2) < u32
      → Dispatched clock (cmd.argc == 0) out (dispatch fuel s cmd (pos clock) out)
  dispatch_lem fuel s cmd clock out h q small = dispatch-Dispatched s h cmd clock out q fuel small
