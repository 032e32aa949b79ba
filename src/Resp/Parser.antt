-- ===== src/Resp/Parser.antt =====
-- src/core/resp.cpp: `parseInline`, `parseArray` and `parseCommand`. The `Command` that the caller
-- reuses is an argument and a result.
pub mod Stable
pub mod Rounds
pub mod RoundTrip
pub mod Bounds
pub mod Written
pub mod Slots
pub mod Short
use tiny_redis.Base.Bytes.{Bytes}
use tiny_redis.Base.{
  ℕ, zero, suc, ◌+◌, Bool, ◌||◌, Option, none, some, List, [], ◌∷◌, length, set, ◌==◌,
  if◌then◌else◌,
}
use tiny_redis.Resp.Outcome.{Step, done, more, bad, ◌>>=◌, accept, require}
use tiny_redis.Resp.Reader.{read_line, take_bytes, header_value}
use tiny_redis.Resp.{
  Error, Command, ParseStatus, ParseResult, Line, strict, inline, max_args, max_bulk_length,
  max_inline_length, max_header_length, incomplete_result, fail, clear, publish,
}

abbrev success : ℕ → ParseResult
success n = record { status = ParseStatus.ok; consumed = n; error = [] }

-- `find_first_not_of(" \t", pos)` and `find_first_of(" \t", start)`, as what follows from there.
abbrev pub is_blank : ℕ → Bool
is_blank c = c == b' ' || c == b'\t'

unfoldable pub skip_blanks : Bytes → Bytes
skip_blanks [] = []
skip_blanks (c ∷ cs) = if is_blank c then skip_blanks cs else c ∷ cs

unfoldable pub first_word : Bytes → Bytes
first_word [] = []
first_word (c ∷ cs) = if is_blank c then [] else c ∷ first_word cs

unfoldable pub after_word : Bytes → Bytes
after_word [] = []
after_word (c ∷ cs) = if is_blank c then c ∷ cs else after_word cs

-- The loop of `parseInline`, with one round of fuel for each byte and one more. `none` is the failure
-- on a word too many; the result is `n` and the slots.
unfoldable pub inline_args : ℕ → Bytes → ℕ → List Bytes → Option (ℕ × List Bytes)
inline_args zero text n argv = some (n, argv)
inline_args (suc fuel) text n argv = elim (skip_blanks text) [
  | [] ↦ some (n, argv)
  | c ∷ cs ↦
      let rest =
        inline_args fuel (after_word (c ∷ cs)) (n + 1) (set argv n (first_word (c ∷ cs))) in
      if n == max_args then none else rest
]

inline_result : ℕ → Command → Option (ℕ × List Bytes) → ParseResult × Command
inline_result next out none = (fail Error.arg_length, out)
inline_result next out (some (n, argv)) = (success next, publish (record out { argv = argv }) n)

finish_inline : Command → Step Line → ParseResult × Command
unfolding inline_result
finish_inline out more = (incomplete_result, out)
finish_inline out (bad e) = (fail e, out)
finish_inline out (done line) =
    inline_result line.next out (inline_args (length line.text + 1) line.text 0 out.argv)

unfoldable pub parse_inline : Bytes → Command → ParseResult × Command
unfolding finish_inline
parse_inline input out =
    finish_inline out (accept Error.inline_length (read_line input 0 max_inline_length inline))

-- The header `*n`: the count and the offset behind it.
unfoldable pub read_header : Bytes → Step (ℕ × ℕ)
read_header input = do
  header ← accept Error.arg_length (read_line input 0 max_header_length strict)
  count ← require Error.arg_length (header_value header.text b'*' max_args)
  done (count, header.next)

-- One round of the loop: the element's bytes and the offset behind them.
unfoldable pub array_elem : Bytes → ℕ → Step Line
array_elem input cursor = do
  elem ← accept Error.bulk_length (read_line input cursor max_header_length strict)
  len ← require Error.bulk_length (header_value elem.text b'$' max_bulk_length)
  accept Error.bulk_length (take_bytes input elem.next len)

-- The loop, `left` rounds before its end: how it ended, and the slots written so far.
unfoldable pub array_elems : ℕ → ℕ → Bytes → ℕ → List Bytes → Step ℕ × List Bytes
array_elems zero i input cursor argv = (done cursor, argv)
array_elems (suc left) i input cursor argv = elim (array_elem input cursor) [
  | more ↦ (more, argv)
  | bad e ↦ (bad e, argv)
  | done payload ↦ array_elems left (i + 1) input payload.next (set argv i payload.text)
]

finish_array : ℕ → Command → Step ℕ → ParseResult × Command
finish_array count out more = (incomplete_result, out)
finish_array count out (bad e) = (fail e, out)
finish_array count out (done cursor) = (success cursor, publish out count)

after_header : Bytes → Command → Step (ℕ × ℕ) → ParseResult × Command
unfolding finish_array
after_header input out more = (incomplete_result, out)
after_header input out (bad e) = (fail e, out)
after_header input out (done (count, cursor)) =
    let (end, argv) = array_elems count 0 input cursor out.argv in
    finish_array count (record out { argv = argv }) end

unfoldable pub parse_array : Bytes → Command → ParseResult × Command
unfolding after_header
parse_array input out = after_header input out (read_header input)

-- `if (res.status != ParseStatus::kOk) clear(out)`
pub clear_unless_ok : ParseStatus → ParseResult × Command → ParseResult × Command
clear_unless_ok ParseStatus.ok r = r
clear_unless_ok _ (res, out) = (res, clear out)

unfoldable pub parse_command : Bytes → Command → ParseResult × Command
unfolding clear_unless_ok
parse_command [] out = (incomplete_result, clear out)
parse_command (c ∷ cs) out =
    let r = if c == b'*' then parse_array (c ∷ cs) out else parse_inline (c ∷ cs) out in
    clear_unless_ok r.0.status r
