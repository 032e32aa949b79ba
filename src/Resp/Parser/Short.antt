-- ===== src/Resp/Parser/Short.antt =====
-- How long the arguments of a parsed command can be.
use tiny_redis.Base.Bytes.{Bytes}
use tiny_redis.Base.{
  ℕ, zero, suc, ◌+◌, ◌-◌, ◌≤◌, Bool, true, false, Option, none, some, List, [], ◌∷◌, ◌≡◌, refl, ap,
  arith, inl, inr, length, take, drop, set, min, length-take, ltb, leb, ◌==◌, if◌then◌else◌,
  Bool-cases,
}
use tiny_redis.Resp.Reply.{is_line}
use tiny_redis.Resp.Outcome.{
  Step, done, more, bad, accept, require, Step-cases, accept_done, bind_done, require_done,
}
use tiny_redis.Resp.Parser.Stable.{form_of}
use tiny_redis.Resp.Parser.{
  inline_args, inline_result, finish_inline, parse_inline, read_header, array_elem, array_elems,
  finish_array, after_header, parse_array, clear_unless_ok, parse_command,
}
use tiny_redis.Resp.Parser.Slots.{
  AllShort, AllShort-replicate, AllShort-set, publish-AllShort, ShortArgs, inline_args-ShortArgs,
}
use tiny_redis.Resp.Reader.{read_line, take_bytes, header_value, line_verdict, line_end}
use tiny_redis.Resp.Reader.Bounds.{header_value-le}
use tiny_redis.Resp.{
  Error, Command, ParseStatus, ParseResult, Line, Framing, strict, inline, max_args,
  max_bulk_length, max_inline_length, max_header_length, error_to_string, fail, clear,
}

text-line_verdict :
    (rest scan : Bytes) (at max_len : ℕ) (hit : Option (ℕ × Bool))
    → length (line_verdict rest at max_len scan hit).text ≤ max_len
unfolding line_verdict
text-line_verdict rest scan at max_len none = ground arith
text-line_verdict rest scan at max_len (some (lf, cr)) =
    let len = if cr then lf - 1 else lf in
    elim (Bool-cases (ltb max_len len)) [
      | inl long ↦ rw long (omega arith)
      | inr short ↦ rw (short, length-take) (ground (arith, short))
    ]

text-read_line :
    (input : Bytes) (at max_len : ℕ) (f : Framing)
    → length (read_line input at max_len f).text ≤ max_len
unfolding read_line
text-read_line input at max_len f =
    let rest = drop at input in
    let scan = take (min (length rest) (max_len + 2)) rest in
    elim (Bool-cases (leb (length input) at)) [
      | inl over ↦ rw over (omega arith)
      | inr inside ↦ rw inside (text-line_verdict rest scan at max_len (line_end f false 0 scan))
    ]

text-take_bytes : (input : Bytes) (at len : ℕ) → length (take_bytes input at len).text ≤ len
unfolding take_bytes
text-take_bytes input at len = ground (arith, length-take len (drop at input))

text-array_elem :
    (input : Bytes) (cursor : ℕ) (payload : Line)
    → array_elem input cursor ≡ done payload
    → length payload.text ≤ max_bulk_length
unfolding array_elem
text-array_elem input cursor payload h =
    let (elem, at_line, rest) =
      bind_done (accept Error.bulk_length (read_line input cursor max_header_length strict)) _
        payload h in
    let (len, number, last) =
      bind_done (require Error.bulk_length (header_value elem.text b'$' max_bulk_length)) _ payload
        rest in
    let le =
      header_value-le elem.text b'$' max_bulk_length len
        (require_done Error.bulk_length _ len number) in
    let (same, found) =
      accept_done Error.bulk_length (take_bytes input elem.next len) payload last in
    omega (arith, ap (λ (l : Line). length l.text) same, text-take_bytes input elem.next len, le)

array_elems-AllShort :
    (left i : ℕ) (input : Bytes) (cursor : ℕ) (argv : List Bytes)
    → AllShort argv
    → AllShort (array_elems left i input cursor argv).1
unfolding array_elems
array_elems-AllShort zero i input cursor argv h = h
array_elems-AllShort (suc left) i input cursor argv h =
    elim (Step-cases (array_elem input cursor)) [
      | inl e ↦ rw (array_elems, e) h
      | inr (inr (b, e)) ↦ rw (array_elems, e) h
      | inr (inl (payload, e)) ↦
          rw (array_elems, e)
            (array_elems-AllShort left (i + 1) input payload.next (set argv i payload.text)
              (AllShort-set argv i payload.text h (text-array_elem input cursor payload e)))
    ]

-- The slots are short, and the error text is one line.
abbrev pub Short : ParseResult × Command → Type 0
Short r = AllShort r.1.argv × (is_line r.0.error ≡ true)

fail-is_line : (e : Error) → is_line (fail e).error ≡ true
unfolding fail error_to_string
fail-is_line Error.arg_length = refl
fail-is_line Error.bulk_length = refl
fail-is_line Error.inline_length = refl

finish_array-Short :
    (count : ℕ) (out : Command) (m : Step ℕ) → AllShort out.argv → Short (finish_array count out m)
unfolding finish_array
finish_array-Short count out more h = (h, refl)
finish_array-Short count out (bad e) h = (h, fail-is_line e)
finish_array-Short count out (done end) h = (publish-AllShort out count h, refl)

parse_array-Short :
    (input : Bytes) (out : Command) → AllShort out.argv → Short (parse_array input out)
unfolding parse_array after_header
parse_array-Short input out h = elim (Step-cases (read_header input)) [
  | inl e ↦ rw e (h, refl)
  | inr (inr (b, e)) ↦ rw e (h, fail-is_line b)
  | inr (inl ((count, cursor), e)) ↦ rw e (
      finish_array-Short count _ (array_elems count 0 input cursor out.argv).0
        (array_elems-AllShort count 0 input cursor out.argv h))
]

inline_result-Short :
    (next : ℕ) (out : Command) (r : Option (ℕ × List Bytes))
    → AllShort out.argv
    → ShortArgs r
    → Short (inline_result next out r)
unfolding inline_result
inline_result-Short next out none h k = (h, fail-is_line Error.arg_length)
inline_result-Short next out (some (n, argv)) h k =
    (publish-AllShort (record out { argv = argv }) n k, refl)

finish_inline-Short :
    (out : Command) (m : Step Line)
    → AllShort out.argv
    → ((l : Line) → m ≡ done l → length l.text ≤ max_bulk_length)
    → Short (finish_inline out m)
unfolding finish_inline
finish_inline-Short out more h k = (h, refl)
finish_inline-Short out (bad e) h k = (h, fail-is_line e)
finish_inline-Short out (done l) h k =
    inline_result-Short l.next out (inline_args (length l.text + 1) l.text 0 out.argv) h
      (inline_args-ShortArgs (length l.text + 1) l.text 0 out.argv (k l refl) h)

parse_inline-Short :
    (input : Bytes) (out : Command) → AllShort out.argv → Short (parse_inline input out)
unfolding parse_inline
parse_inline-Short input out h =
    let line = read_line input 0 max_inline_length inline in
    finish_inline-Short out (accept Error.inline_length line) h (λ l d.
      let (same, found) = accept_done Error.inline_length line l d in
      omega (
        arith,
        ap (λ (x : Line). length x.text) same,
        text-read_line input 0 max_inline_length inline,
      ))

clear-AllShort : (out : Command) → AllShort (clear out).argv
unfolding clear
clear-AllShort out = AllShort-replicate max_args

clear_unless_ok-Short :
    (s : ParseStatus) (r : ParseResult × Command) → Short r → Short (clear_unless_ok s r)
unfolding clear_unless_ok
clear_unless_ok-Short ParseStatus.ok r h = h
clear_unless_ok-Short ParseStatus.incomplete r h = (clear-AllShort r.1, h.1)
clear_unless_ok-Short ParseStatus.protocol_error r h = (clear-AllShort r.1, h.1)

pub parse_command-Short :
    (input : Bytes) (out : Command) → AllShort out.argv → Short (parse_command input out)
unfolding parse_command
parse_command-Short [] out h = (clear-AllShort out, refl)
parse_command-Short (c ∷ cs) out h =
    let r = form_of c (c ∷ cs) out in
    clear_unless_ok-Short r.0.status r (elim (Bool-cases (c == b'*')) [
      | inl array ↦ rw array (parse_array-Short (c ∷ cs) out h)
      | inr other ↦ rw other (parse_inline-Short (c ∷ cs) out h)
    ])
