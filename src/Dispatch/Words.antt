-- ===== src/Dispatch/Words.antt =====
-- src/core/command.cpp: the table of commands, the words and numbers in their arguments, and the error
-- replies.
use tiny_redis.Base.Bytes.{Bytes, codes}
use tiny_redis.Base.Int.{ℤ, pos, negsuc, ltb_ℤ, sub_ℕ, ◌+ℤ◌, ◌-ℤ◌, ◌*ℤ◌}
use tiny_redis.Base.{
  ℕ, suc, ◌+◌, ◌-◌, ◌*◌, ◌/◌, ◌^◌, Bool, true, false, ◌&&◌, ◌||◌, not, Option, none, some, List, [],
  ◌∷◌, ◌++◌, get_or, drop, take, ltb, leb, ◌==◌, if◌then◌else◌,
}
use tiny_redis.Buffer.{Buffer}
use tiny_redis.Entry.{eqb_ℤ}
use tiny_redis.Resp.Reader.{is_digit}
use tiny_redis.Resp.Reply.{error}
use tiny_redis.Resp.{Command}

pub data Cmd : Type 0 where
  get set del exists expire ttl ping echo dbsize flushall quit : Cmd

pub record Spec : Type 0 where
  pub name : Bytes
  pub cmd : Cmd
  pub arity : ℤ

abbrev pub specs : List Spec
specs =
    record { name = codes "get"; cmd = get; arity = pos 2 }
    ∷ record { name = codes "set"; cmd = set; arity = negsuc 2 }
    ∷ record { name = codes "del"; cmd = del; arity = negsuc 1 }
    ∷ record { name = codes "exists"; cmd = exists; arity = negsuc 1 }
    ∷ record { name = codes "expire"; cmd = expire; arity = pos 3 }
    ∷ record { name = codes "ttl"; cmd = ttl; arity = pos 2 }
    ∷ record { name = codes "ping"; cmd = ping; arity = negsuc 0 }
    ∷ record { name = codes "echo"; cmd = echo; arity = pos 2 }
    ∷ record { name = codes "dbsize"; cmd = dbsize; arity = pos 1 }
    ∷ record { name = codes "flushall"; cmd = flushall; arity = negsuc 0 }
    ∷ record { name = codes "quit"; cmd = quit; arity = negsuc 0 }
    ∷ []

abbrev pub not_integer : Bytes
not_integer = codes "ERR value is not an integer or out of range"

abbrev pub syntax_error : Bytes
syntax_error = codes "ERR syntax error"

abbrev pub oom : Bytes
oom = codes "OOM command not allowed when used memory > 'maxmemory'."

-- `cmd[i]`, and the arguments from the `i`-th on.
abbrev pub arg : Command → ℕ → Bytes
arg cmd i = get_or cmd.argv i []

abbrev pub args_from : Command → ℕ → List Bytes
args_from cmd i = drop i (take cmd.argc cmd.argv)

unfoldable pub lower : ℕ → ℕ
lower c = if leb b'A' c && leb c b'Z' then c - b'A' + b'a' else c

unfoldable pub iequals : Bytes → Bytes → Bool
unfolding lower
iequals [] [] = true
iequals [] (r ∷ rs) = false
iequals (c ∷ cs) [] = false
iequals (c ∷ cs) (r ∷ rs) = lower c == r && iequals cs rs

-- `lookup`
unfoldable pub find_in_specs : List Spec → Bytes → Option Spec
find_in_specs [] name = none
find_in_specs (s ∷ rest) name = if iequals name s.name then some s else find_in_specs rest name

unfoldable pub find_spec : Bytes → Option Spec
unfolding find_in_specs
find_spec name = find_in_specs specs name

unfoldable pub arity_ok : Spec → ℕ → Bool
arity_ok spec argc =
    if ltb_ℤ (pos 0) spec.arity
    then eqb_ℤ (pos argc) spec.arity
    else not (ltb_ℤ (pos argc) (pos 0 -ℤ spec.arity))

-- `std::from_chars` up to the end of the text: the digits behind an optional minus sign.
unfoldable pub all_digits : ℕ → Bytes → Option ℕ
all_digits n [] = some n
all_digits n (c ∷ cs) = if is_digit c then all_digits (n * 10 + (c - b'0')) cs else none

-- The sign and the range of `std::int64_t`.
unfoldable pub in_range : Bool → Option ℕ → Option ℤ
in_range minus none = none
in_range true (some n) = if leb n (2 ^ 63) then some (sub_ℕ 0 n) else none
in_range false (some n) = if ltb n (2 ^ 63) then some (pos n) else none

unfoldable pub parse_int : Bytes → Option ℤ
unfolding all_digits in_range
parse_int [] = none
parse_int (c ∷ []) = in_range false (all_digits 0 (c ∷ []))
parse_int (c ∷ d ∷ ds) =
    if c == b'-'
    then in_range true (all_digits 0 (d ∷ ds))
    else in_range false (all_digits 0 (c ∷ d ∷ ds))

-- `/` of the source, which cuts towards zero.
unfoldable pub div_ℤ : ℤ → ℕ → ℤ
div_ℤ (pos a) d = pos (a / d)
div_ℤ (negsuc a) d = sub_ℕ 0 (suc a / d)

unfoldable pub deadline : ℤ → ℕ → ℤ → Option ℤ
unfolding div_ℤ
deadline n unit_ms now =
    if ltb_ℤ (div_ℤ (pos (2 ^ 63 - 1) -ℤ now) unit_ms) n
    then none
    else some (now +ℤ n *ℤ pos unit_ms)

unfoldable pub sanitized : Bytes → Bytes
sanitized [] = []
sanitized (c ∷ cs) = (if c == b'\r' || c == b'\n' then b' ' else c) ∷ sanitized cs

-- The text that `appendSanitized` adds.
unfoldable pub append_sanitized : Bytes → Bytes → Bytes
unfolding sanitized
append_sanitized dst s = dst ++ sanitized (take 128 s)

-- The loop over the arguments.
unfoldable pub quoted_args : Bytes → List Bytes → Bytes
unfolding append_sanitized
quoted_args msg [] = msg
quoted_args msg (a ∷ rest) = quoted_args (append_sanitized (msg ++ codes "'") a ++ codes "' ") rest

unfoldable pub unknown_command : Command → Buffer → Buffer
unfolding quoted_args append_sanitized
unknown_command cmd out =
    let msg = append_sanitized (codes "ERR unknown command '") (arg cmd 0) in
    error out (quoted_args (msg ++ codes "', with args beginning with: ") (args_from cmd 1))

unfoldable pub wrong_arity : Bytes → Buffer → Buffer
wrong_arity name out =
    error out (codes "ERR wrong number of arguments for '" ++ (name ++ codes "' command"))

unfoldable pub invalid_expire : Bytes → Buffer → Buffer
invalid_expire name out =
    error out (codes "ERR invalid expire time in '" ++ (name ++ codes "' command"))
