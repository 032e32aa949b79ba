-- ===== src/Dispatch.antt =====
-- src/core/command.h and src/core/command.cpp: a parsed command is run on the store and its reply
-- is appended to the output buffer. `none` is a failed assertion of the store, a signed overflow,
-- or an eviction that has run out of fuel. `fuel` is that of the eviction, and `now` the machine's
-- clock.
pub mod Words
pub mod Reads
pub mod Deletes
pub mod Line
pub mod Range
pub mod Replies
pub mod Served
pub mod Writes
pub mod Whole
use tiny_redis.Base.Bytes.{Bytes, codes}
use tiny_redis.Base.Int.{ℤ, pos, negsuc, ltb_ℤ, ◌+ℤ◌}
use tiny_redis.Base.{
  ℕ, zero, suc, ◌+◌, ◌*◌, Bool, true, false, ◌&&◌, ◌||◌, not, Option, none, some, List, [], ◌∷◌,
  get_or, drop, take, ltb, leb, ◌==◌, if◌then◌else◌,
}
use tiny_redis.Buffer.{Buffer}
use tiny_redis.Dispatch.Words.{
  Cmd, Spec, get, set, del, exists, expire, ttl, ping, echo, dbsize, flushall, quit, arg, args_from,
  iequals, find_spec, arity_ok, parse_int, div_ℤ, deadline, unknown_command, wrong_arity,
  invalid_expire, not_integer, syntax_error, oom,
}
use tiny_redis.Entry.{no_expiry, value}
use tiny_redis.Resp.Reply.{simple_string, error, integer, bulk, null_bulk}
use tiny_redis.Resp.{Command}
use tiny_redis.Store.Set.{set as set_key}
use tiny_redis.Store.{Store, size, find, erase, set_expire_at, ttl_ms, clear, keep_ttl, max_int64}
use tiny_redis.Table.Pool.{EntryPool}

pub data DispatchResult : Type 0 where
  keep_open close_connection : DispatchResult

-- What the option loop of `cmdSet` ends with: an error reply, or the deadline.
pub data SetOptions : Type 0 where
  refused : Bytes → SetOptions
  invalid : SetOptions
  deadline_at : ℤ → SetOptions

-- The value of EX or PX.
unfoldable pub option_deadline : Option ℤ → ℕ → ℤ → Option (Option ℤ)
option_deadline none unit now = none
option_deadline (some n) unit now = some (if ltb_ℤ (pos 0) n then deadline n unit now else none)

-- The option loop, over the arguments that are left; a value is taken with its option.
unfoldable pub set_options : List Bytes → ℤ → ℤ → Bool → SetOptions
unfolding option_deadline
set_options [] now expire_at have = deadline_at expire_at
set_options (opt ∷ []) now expire_at have =
    if iequals opt (codes "keepttl") && not have then deadline_at keep_ttl else refused syntax_error
set_options (opt ∷ n ∷ rest) now expire_at have = elim (iequals opt (codes "keepttl") && not have) [
  | true ↦ set_options (n ∷ rest) now keep_ttl true
  | false ↦ elim (not (iequals opt (codes "ex") || iequals opt (codes "px")) || have) [
    | true ↦ refused syntax_error
    | false ↦
        elim (option_deadline (parse_int n) (if iequals opt (codes "ex") then 1000 else 1) now) [
          | none ↦ refused not_integer
          | some none ↦ invalid
          | some (some at) ↦ set_options rest now at true
        ]
  ]
]

unfoldable pub cmd_ping : Command → Buffer → Buffer
cmd_ping cmd out =
    if ltb 2 cmd.argc
    then wrong_arity (codes "ping") out
    else if cmd.argc == 2
    then bulk out (arg cmd 1)
    else simple_string out (codes "PONG")

module _ {p : EntryPool} where
  unfoldable pub cmd_set : ℕ → Store p → Command → ℤ → Buffer → Option (Store p × Buffer)
  unfolding set_options
  cmd_set fuel store cmd now out = elim (set_options (args_from cmd 3) now no_expiry false) [
    | refused msg ↦ some (store, error out msg)
    | invalid ↦ some (store, invalid_expire (codes "set") out)
    | deadline_at at ↦ elim (set_key fuel store (arg cmd 1) (arg cmd 2) at now) [
      | none ↦ none
      | some (true, s) ↦ some (s, simple_string out (codes "OK"))
      | some (false, s) ↦ some (s, error out oom)
    ]
  ]

  -- The reply of an operation that returns a bool.
  unfoldable pub reply_bool : Buffer → Option (Bool × Store p) → Option (Store p × Buffer)
  reply_bool out none = none
  reply_bool out (some (b, s)) = some (s, integer out (pos (if b then 1 else 0)))

  unfoldable pub cmd_expire : Store p → Command → ℤ → Buffer → Option (Store p × Buffer)
  unfolding reply_bool
  cmd_expire store cmd now out = elim (parse_int (arg cmd 2)) [
    | none ↦ some (store, error out not_integer)
    | some secs ↦ elim (ltb_ℤ (pos 0) secs) [
      | false ↦ reply_bool out (erase store (arg cmd 1) now)
      | true ↦ elim (deadline secs 1000 now) [
        | none ↦ some (store, invalid_expire (codes "expire") out)
        | some at ↦ reply_bool out (set_expire_at store (arg cmd 1) at now)
      ]
    ]
  ]

  -- `none` is also the signed overflow of the rounding, which the source leaves undefined.
  unfoldable pub cmd_ttl : Store p → Command → ℤ → Buffer → Option (Store p × Buffer)
  cmd_ttl store cmd now out = elim (ttl_ms store (arg cmd 1) now) [
    | none ↦ none
    | some (ms, s) ↦ elim (ltb_ℤ ms (pos 0)) [
      | true ↦ some (s, integer out ms)
      | false ↦ elim (ltb_ℤ (pos max_int64) (ms +ℤ pos 500)) [
        | true ↦ none
        | false ↦ some (s, integer out (div_ℤ (ms +ℤ pos 500) 1000))
      ]
    ]
  ]

  unfoldable pub cmd_get : Store p → Command → ℤ → Buffer → Option (Store p × Buffer)
  cmd_get store cmd now out = elim (find store (arg cmd 1) now true) [
    | none ↦ none
    | some (none, s) ↦ some (s, null_bulk out)
    | some (some e, s) ↦ some (s, bulk out (value (s.table.cells e)))
  ]

  -- The loop of `cmdDel`.
  unfoldable pub erase_all : List Bytes → ℤ → ℕ → Store p → Option (ℕ × Store p)
  erase_all [] now n s = some (n, s)
  erase_all (k ∷ ks) now n s = elim (erase s k now) [
    | none ↦ none
    | some (b, s') ↦ erase_all ks now (n + (if b then 1 else 0)) s'
  ]

  unfoldable pub cmd_del : Store p → Command → ℤ → Buffer → Option (Store p × Buffer)
  unfolding erase_all
  cmd_del store cmd now out = elim (erase_all (args_from cmd 1) now 0 store) [
    | none ↦ none
    | some (n, s) ↦ some (s, integer out (pos n))
  ]

  -- The loop of `cmdExists`.
  unfoldable pub count_found : List Bytes → ℤ → ℕ → Store p → Option (ℕ × Store p)
  count_found [] now n s = some (n, s)
  count_found (k ∷ ks) now n s = elim (find s k now false) [
    | none ↦ none
    | some (none, s') ↦ count_found ks now n s'
    | some (some _, s') ↦ count_found ks now (n + 1) s'
  ]

  unfoldable pub cmd_exists : Store p → Command → ℤ → Buffer → Option (Store p × Buffer)
  unfolding count_found
  cmd_exists store cmd now out = elim (count_found (args_from cmd 1) now 0 store) [
    | none ↦ none
    | some (n, s) ↦ some (s, integer out (pos n))
  ]

  unfoldable pub cmd_flushall : Store p → Command → Buffer → Store p × Buffer
  cmd_flushall store cmd out =
      if ltb 2 cmd.argc
        || (cmd.argc == 2
            && (not (iequals (arg cmd 1) (codes "async"))
                && not (iequals (arg cmd 1) (codes "sync"))))
      then (store, error out syntax_error)
      else (clear store, simple_string out (codes "OK"))

  -- `break` out of the `switch`, or an assertion that failed.
  unfoldable pub goes_on : Option (Store p × Buffer) → Option (DispatchResult × Store p × Buffer)
  goes_on none = none
  goes_on (some (s, out)) = some (keep_open, s, out)

  -- The `switch`.
  unfoldable pub run_command :
      Cmd → ℕ → Store p → Command → ℤ → Buffer → Option (DispatchResult × Store p × Buffer)
  unfolding goes_on cmd_set cmd_expire cmd_ttl cmd_get cmd_del cmd_exists cmd_flushall cmd_ping
  run_command get fuel s cmd now out = goes_on (cmd_get s cmd now out)
  run_command set fuel s cmd now out = goes_on (cmd_set fuel s cmd now out)
  run_command del fuel s cmd now out = goes_on (cmd_del s cmd now out)
  run_command exists fuel s cmd now out = goes_on (cmd_exists s cmd now out)
  run_command expire fuel s cmd now out = goes_on (cmd_expire s cmd now out)
  run_command ttl fuel s cmd now out = goes_on (cmd_ttl s cmd now out)
  run_command ping fuel s cmd now out = some (keep_open, s, cmd_ping cmd out)
  run_command echo fuel s cmd now out = some (keep_open, s, bulk out (arg cmd 1))
  run_command dbsize fuel s cmd now out = some (keep_open, s, integer out (pos (size s)))
  run_command flushall fuel s cmd now out = goes_on (some (cmd_flushall s cmd out))
  run_command quit fuel s cmd now out = some (close_connection, s, simple_string out (codes "OK"))

  unfoldable pub dispatch :
      ℕ → Store p → Command → ℤ → Buffer → Option (DispatchResult × Store p × Buffer)
  unfolding run_command
  dispatch fuel s cmd now out = elim (cmd.argc == 0) [
    | true ↦ some (keep_open, s, out)
    | false ↦ elim (find_spec (arg cmd 0)) [
      | none ↦ some (keep_open, s, unknown_command cmd out)
      | some spec ↦ elim (arity_ok spec cmd.argc) [
        | false ↦ some (keep_open, s, wrong_arity spec.name out)
        | true ↦ run_command spec.cmd fuel s cmd now out
      ]
    ]
  ]
