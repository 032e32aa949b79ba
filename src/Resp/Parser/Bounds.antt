-- ===== src/Resp/Parser/Bounds.antt =====
-- What a caller of `parseCommand` relies on: how many bytes to drop, and which slots hold arguments.
use mathlib.Core.Path.{subst}
use tiny_redis.Base.Bytes.{Bytes}
use tiny_redis.Base.{
  ℕ, ◌+◌, ◌≤◌, ◌<◌, [], ◌∷◌, ◌≡◌, refl, ◌∙◌, arith, inl, inr, length, ◌==◌, Bool-cases,
  Option-cases,
}
use tiny_redis.Resp.Outcome.{Step, done, more, bad, accept, Step-cases, accept_done}
use tiny_redis.Resp.Parser.Stable.{form_of}
use tiny_redis.Resp.Parser.{
  inline_args, inline_result, finish_inline, parse_inline, read_header, array_elems, finish_array,
  after_header, parse_array, clear_unless_ok, parse_command,
}
use tiny_redis.Resp.Reader.Bounds.{read_line-bounds}
use tiny_redis.Resp.Reader.{read_line}
use tiny_redis.Resp.{
  Error, Command, ParseStatus, ParseResult, Line, inline, max_args, max_inline_length,
  incomplete_result, error_to_string, fail, clear,
}
use tiny_redis.Resp.Parser.Rounds.{
  IsClean, publish-IsClean, clear-IsClean, read_header_done, array_elems_done, length-array_elems,
  inline_args_few,
}

-- The verdict of a sub-parser, before the command is cleared.
abbrev Verdict : ParseStatus → Bytes → ParseResult → Command → Type 0
Verdict ParseStatus.ok input res cmd =
    (0 < res.consumed) × (res.consumed ≤ length input) × IsClean cmd
Verdict ParseStatus.incomplete input res cmd = res ≡ incomplete_result
Verdict ParseStatus.protocol_error input res cmd =
    (res.consumed ≡ 0) × ((e : Error) × (res.error ≡ error_to_string e))

abbrev IsVerdict : Bytes → ParseResult × Command → Type 0
IsVerdict input r = Verdict r.0.status input r.0 r.1

finish_array-IsVerdict :
    (input : Bytes) (count : ℕ) (out : Command) (m : Step ℕ)
    → count ≤ max_args
    → length out.argv ≡ max_args
    → ((end : ℕ) → m ≡ done end → (0 < end) × (end ≤ length input))
    → IsVerdict input (finish_array count out m)
unfolding finish_array
finish_array-IsVerdict input count out more c w h = refl
finish_array-IsVerdict input count out (bad e) c w h = unfold fail in (refl, (e, refl))
finish_array-IsVerdict input count out (done end) c w h =
    ((h end refl).0, (h end refl).1, publish-IsClean out count w c)

parse_array-IsVerdict :
    (input : Bytes) (out : Command)
    → length out.argv ≡ max_args
    → IsVerdict input (parse_array input out)
unfolding parse_array after_header
parse_array-IsVerdict input out w = elim (Step-cases (read_header input)) [
  | inl e ↦ rw e refl
  | inr (inr (b, e)) ↦ rw e (unfold fail in (refl, (b, refl)))
  | inr (inl ((count, cursor), e)) ↦
      let (few, low, high) = read_header_done input count cursor e in
      rw e (
        finish_array-IsVerdict input count _ (array_elems count 0 input cursor out.argv).0 few
          (length-array_elems count 0 input cursor out.argv ∙ w)
          (λ end d. omega (arith, array_elems_done count 0 input cursor end out.argv high d)))
]

inline_result-IsVerdict :
    (input : Bytes) (out : Command) (next : ℕ) (text : Bytes)
    → length out.argv ≡ max_args
    → 0 < next
    → next ≤ length input
    → IsVerdict input (inline_result next out (inline_args (length text + 1) text 0 out.argv))
unfolding inline_result
inline_result-IsVerdict input out next text w low high =
    elim (Option-cases (inline_args (length text + 1) text 0 out.argv)) [
      | inl e ↦ rw e (unfold fail in (refl, (Error.arg_length, refl)))
      | inr ((n, argv), e) ↦
          let (few, width) =
            inline_args_few (length text + 1) text 0 n out.argv argv (omega arith) e in
          rw e (low, high, publish-IsClean (record out { argv = argv }) n (width ∙ w) few)
    ]

finish_inline-IsVerdict :
    (input : Bytes) (out : Command) (m : Step Line)
    → length out.argv ≡ max_args
    → ((l : Line) → m ≡ done l → (0 < l.next) × (l.next ≤ length input))
    → IsVerdict input (finish_inline out m)
unfolding finish_inline
finish_inline-IsVerdict input out more w h = refl
finish_inline-IsVerdict input out (bad e) w h = unfold fail in (refl, (e, refl))
finish_inline-IsVerdict input out (done l) w h =
    inline_result-IsVerdict input out l.next l.text w (h l refl).0 (h l refl).1

parse_inline-IsVerdict :
    (input : Bytes) (out : Command)
    → length out.argv ≡ max_args
    → IsVerdict input (parse_inline input out)
unfolding parse_inline
parse_inline-IsVerdict input out w =
    let line = read_line input 0 max_inline_length inline in
    finish_inline-IsVerdict input out (accept Error.inline_length line) w (λ l d.
      let (same, found) = accept_done Error.inline_length line l d in
      rw same (read_line-bounds input 0 max_inline_length inline found))

-- What `parseCommand` leaves to its caller, by status.
abbrev pub Outcome : ParseStatus → Bytes → ParseResult → Command → Type 0
Outcome ParseStatus.ok input res cmd = (0 < res.consumed) × (res.consumed ≤ length input)
Outcome ParseStatus.incomplete input res cmd = (res ≡ incomplete_result) × (cmd.argc ≡ 0)
Outcome ParseStatus.protocol_error input res cmd =
    (res.consumed ≡ 0) × (cmd.argc ≡ 0) × ((e : Error) × (res.error ≡ error_to_string e))

clear_unless_ok-Outcome :
    (input : Bytes) (res : ParseResult) (out : Command) (s : ParseStatus)
    → s ≡ res.status
    → Verdict s input res out
    → (let r = clear_unless_ok s (res, out) in Outcome r.0.status input r.0 r.1 × IsClean r.1)
unfolding clear_unless_ok
clear_unless_ok-Outcome input res out ParseStatus.ok e v =
    (subst (λ t. Outcome t input res out) e (v.0, v.1), v.2)
clear_unless_ok-Outcome input res out ParseStatus.incomplete e v = (
  subst (λ t. Outcome t input res (clear out)) e (v, (clear-IsClean out).1),
  (clear-IsClean out).0,
)
clear_unless_ok-Outcome input res out ParseStatus.protocol_error e v = (
  subst (λ t. Outcome t input res (clear out)) e (v.0, (clear-IsClean out).1, v.1),
  (clear-IsClean out).0,
)

form_of-IsVerdict :
    (c : ℕ) (input : Bytes) (out : Command)
    → length out.argv ≡ max_args
    → IsVerdict input (form_of c input out)
form_of-IsVerdict c input out w = elim (Bool-cases (c == b'*')) [
  | inl array ↦ rw array (parse_array-IsVerdict input out w)
  | inr other ↦ rw other (parse_inline-IsVerdict input out w)
]

-- Whatever the input, `parseCommand` leaves a command of sixteen slots of which those past `argc` are
-- empty. A parsed command consumes at least one byte and at most the input; a request that is not
-- complete consumes nothing and reports nothing; a protocol error consumes nothing and has the text of
-- one of the three errors; and in these two cases the command has no argument.
pub parse_command-Outcome :
    (input : Bytes) (out : Command)
    → length out.argv ≡ max_args
    → (let r = parse_command input out in Outcome r.0.status input r.0 r.1 × IsClean r.1)
unfolding parse_command
parse_command-Outcome [] out w = ((refl, (clear-IsClean out).1), (clear-IsClean out).0)
parse_command-Outcome (c ∷ cs) out w =
    let r = form_of c (c ∷ cs) out in
    clear_unless_ok-Outcome (c ∷ cs) r.0 r.1 r.0.status refl (form_of-IsVerdict c (c ∷ cs) out w)
