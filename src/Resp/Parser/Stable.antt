-- ===== src/Resp/Parser/Stable.antt =====
-- `parseCommand` on the bytes read so far, and on more of them.
use tiny_redis.Base.Bytes.{Bytes}
use tiny_redis.Base.{
  ℕ, zero, suc, ◌+◌, List, [], ◌∷◌, ◌++◌, ◌≡◌, ◌≢◌, refl, sym, ap, ◌∙◌, inl, inr, set, ◌==◌,
  if◌then◌else◌, Bool-cases,
}
use tiny_redis.Resp.Outcome.{Step, done, more, bad, ◌>>=◌, accept, require, Step-cases}
use tiny_redis.Resp.Parser.{
  finish_inline, parse_inline, read_header, array_elem, array_elems, finish_array, after_header,
  parse_array, clear_unless_ok, parse_command,
}
use tiny_redis.Resp.Reader.Stable.{read_line-append, take_bytes-append}
use tiny_redis.Resp.Reader.{read_line, take_bytes, header_value}
use tiny_redis.Resp.{
  Error, Command, ParseStatus, ParseResult, Line, LineStatus, Framing, strict, inline,
  max_bulk_length, max_inline_length, max_header_length,
}

-- A bind that is out keeps its value when its second half keeps what it has out.
bind_stable {ℓ κ} :
    {A : Type ℓ} {B : Type κ} (m : Step A) (f g : A → Step B)
    → ((a : A) → m ≡ done a → f a ≢ more → g a ≡ f a)
    → (m >>= f) ≢ more
    → (m >>= g) ≡ (m >>= f)
bind_stable (done a) f g keep h = keep a refl h
bind_stable more f g keep h = refl
bind_stable (bad e) f g keep h = refl

accept-incomplete :
    (e : Error) (line : Line) → line.status ≡ LineStatus.incomplete → accept e line ≡ more
unfolding accept
accept-incomplete e line h = rw h

bind-ne-more {ℓ κ} :
    {A : Type ℓ} {B : Type κ} (m : Step A) (f : A → Step B) → (m >>= f) ≢ more → m ≢ more
bind-ne-more m f h e = h (rw e)

accept_line :
    (e : Error) (input ys : Bytes) (at max_len : ℕ) (framing : Framing)
    → accept e (read_line input at max_len framing) ≢ more
    → read_line (input ++ ys) at max_len framing ≡ read_line input at max_len framing
accept_line e input ys at max_len framing h =
    read_line-append framing input ys at max_len
      (λ s. h (accept-incomplete e (read_line input at max_len framing) s))

read_header-append :
    (input ys : Bytes) → read_header input ≢ more → read_header (input ++ ys) ≡ read_header input
unfolding read_header
read_header-append input ys h =
    rw (accept_line Error.arg_length input ys 0 max_header_length strict (bind-ne-more _ _ h))

-- The two halves of a round behind its header line.
abbrev take_payload : Bytes → Line → ℕ → Step Line
take_payload input elem len = accept Error.bulk_length (take_bytes input elem.next len)

abbrev elem_rest : Bytes → Line → Step Line
elem_rest input elem =
    require Error.bulk_length (header_value elem.text b'$' max_bulk_length)
    >>= take_payload input elem

take_payload-append :
    (input ys : Bytes) (elem : Line) (len : ℕ)
    → take_payload input elem len ≢ more
    → take_payload (input ++ ys) elem len ≡ take_payload input elem len
take_payload-append input ys elem len h = rw (
    take_bytes-append input ys elem.next len
      (λ s. h (accept-incomplete Error.bulk_length (take_bytes input elem.next len) s)))

elem_rest-append :
    (input ys : Bytes) (elem : Line)
    → elem_rest input elem ≢ more
    → elem_rest (input ++ ys) elem ≡ elem_rest input elem
elem_rest-append input ys elem =
    bind_stable (require Error.bulk_length (header_value elem.text b'$' max_bulk_length))
      (take_payload input elem) (take_payload (input ++ ys) elem)
      (λ len _. take_payload-append input ys elem len)

array_elem-append :
    (input ys : Bytes) (cursor : ℕ)
    → array_elem input cursor ≢ more
    → array_elem (input ++ ys) cursor ≡ array_elem input cursor
unfolding array_elem
array_elem-append input ys cursor h =
    rw (accept_line Error.bulk_length input ys cursor max_header_length strict (bind-ne-more _ _ h))
      (bind_stable (accept Error.bulk_length (read_line input cursor max_header_length strict))
        (elem_rest input) (elem_rest (input ++ ys)) (λ elem _. elem_rest-append input ys elem) h)

module _ (left i : ℕ) (input : Bytes) (cursor : ℕ) (argv : List Bytes) where
  pub array_elems-more :
      array_elem input cursor ≡ more → array_elems (suc left) i input cursor argv ≡ (more, argv)
  unfolding array_elems
  array_elems-more e = rw (e, array_elems)

  pub array_elems-bad :
      (b : Error)
      → array_elem input cursor ≡ bad b
      → array_elems (suc left) i input cursor argv ≡ (bad b, argv)
  unfolding array_elems
  array_elems-bad b e = rw (e, array_elems)

  pub array_elems-done :
      (payload : Line)
      → array_elem input cursor ≡ done payload
      → array_elems (suc left) i input cursor argv
        ≡ array_elems left (i + 1) input payload.next (set argv i payload.text)
  unfolding array_elems
  array_elems-done payload e = rw (e, array_elems)

array_elems-append :
    (left i : ℕ) (input ys : Bytes) (cursor : ℕ) (argv : List Bytes)
    → (array_elems left i input cursor argv).0 ≢ more
    → array_elems left i (input ++ ys) cursor argv ≡ array_elems left i input cursor argv
array_elems-append zero i input ys cursor argv h = unfold array_elems in refl
array_elems-append (suc left) i input ys cursor argv h =
    elim (Step-cases (array_elem input cursor)) [
      | inl e ↦ absurd (h (rw (array_elems-more left i input cursor argv e)))
      | inr (inl (payload, e)) ↦
          let e' = array_elem-append input ys cursor (rw e (λ x. cc)) ∙ e in
          let step = array_elems-done left i input cursor argv payload e in
          array_elems-done left i (input ++ ys) cursor argv payload e'
          ∙ array_elems-append left (i + 1) input ys payload.next (set argv i payload.text)
              (rw step at h)
          ∙ sym step
      | inr (inr (b, e)) ↦
          let e' = array_elem-append input ys cursor (rw e (λ x. cc)) ∙ e in
          array_elems-bad left i (input ++ ys) cursor argv b e'
          ∙ sym (array_elems-bad left i input cursor argv b e)
    ]

finish_array-more :
    (count : ℕ) (out : Command) (end : Step ℕ)
    → end ≡ more
    → (finish_array count out end).0.status ≡ ParseStatus.incomplete
unfolding finish_array
finish_array-more count out end e = rw (e, finish_array)

after_header-append :
    (input ys : Bytes) (out : Command) (m : Step (ℕ × ℕ))
    → (after_header input out m).0.status ≢ ParseStatus.incomplete
    → after_header (input ++ ys) out m ≡ after_header input out m
unfolding after_header
after_header-append input ys out more h = refl
after_header-append input ys out (bad e) h = refl
after_header-append input ys out (done (count, cursor)) h = rw (
    array_elems-append count 0 input ys cursor out.argv
      (λ e. h (finish_array-more count _ (array_elems count 0 input cursor out.argv).0 e)))

parse_array-append :
    (input ys : Bytes) (out : Command)
    → (parse_array input out).0.status ≢ ParseStatus.incomplete
    → parse_array (input ++ ys) out ≡ parse_array input out
unfolding parse_array
parse_array-append input ys out h =
    rw (read_header-append input ys (λ e. h (rw e (unfold after_header in refl))))
      (after_header-append input ys out (read_header input) h)

parse_inline-append :
    (input ys : Bytes) (out : Command)
    → (parse_inline input out).0.status ≢ ParseStatus.incomplete
    → parse_inline (input ++ ys) out ≡ parse_inline input out
unfolding parse_inline
parse_inline-append input ys out h = rw (
    accept_line Error.inline_length input ys 0 max_inline_length inline
      (λ e. h (rw e (unfold finish_inline in refl))))

pub clear_unless_ok-result :
    (r : ParseResult × Command) (s : ParseStatus) → (clear_unless_ok s r).0 ≡ r.0
unfolding clear_unless_ok
clear_unless_ok-result r ParseStatus.ok = refl
clear_unless_ok-result r _ = refl

abbrev pub form_of : ℕ → Bytes → Command → ParseResult × Command
form_of c input out = if c == b'*' then parse_array input out else parse_inline input out

form_of-append :
    (c : ℕ) (input ys : Bytes) (out : Command)
    → (form_of c input out).0.status ≢ ParseStatus.incomplete
    → form_of c (input ++ ys) out ≡ form_of c input out
form_of-append c input ys out h = elim (Bool-cases (c == b'*')) [
  | inl array ↦ rw array (parse_array-append input ys out (rw array at h))
  | inr other ↦ rw other (parse_inline-append input ys out (rw other at h))
]

-- Once `parseCommand` has a verdict on the bytes read so far, a command or a protocol error, it has
-- the same verdict, the same command and the same count of consumed bytes whatever bytes follow.
pub parse_command-append :
    (input ys : Bytes) (out : Command)
    → (parse_command input out).0.status ≢ ParseStatus.incomplete
    → parse_command (input ++ ys) out ≡ parse_command input out
unfolding parse_command
parse_command-append [] ys out h = absurd (h refl)
parse_command-append (c ∷ cs) ys out h =
    let r = form_of c (c ∷ cs) out in
    rw (
      form_of-append c (c ∷ cs) ys out
        (λ e. h (ap (λ (p : ParseResult). p.status) (clear_unless_ok-result r r.0.status) ∙ e)))
