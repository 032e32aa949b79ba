-- ===== src/Resp/Parser/Rounds.antt =====
-- The loops of the two request parsers: how far they read, and how many slots they fill.
use tiny_redis.Base.Bytes.{Bytes}
use tiny_redis.Base.{
  ℕ, zero, suc, ◌+◌, ◌-◌, ◌≤◌, ◌<◌, none, some, List, [], ◌∷◌, ◌++◌, ◌≡◌, refl, sym, ap, ◌∙◌, arith,
  inl, inr, length, take, drop, set, replicate, length-append, length-set, length-take,
  length-replicate, drop-append_length, ◌==◌, if◌then◌else◌, List-cases,
}
use tiny_redis.Resp.Outcome.{
  done, accept, require, Step-cases, accept_done, bind_done, require_done,
}
use tiny_redis.Resp.Parser.Stable.{array_elems-more, array_elems-bad, array_elems-done}
use tiny_redis.Resp.Parser.{
  inline_args, skip_blanks, first_word, after_word, read_header, array_elem, array_elems,
}
use tiny_redis.Resp.Reader.Bounds.{read_line-bounds, take_bytes-bounds, header_value-le}
use tiny_redis.Resp.Reader.{read_line, take_bytes, header_value}
use tiny_redis.Resp.{
  Error, Command, Line, strict, max_args, max_bulk_length, max_header_length, clear, publish,
}

-- Sixteen slots, and every slot past `argc` is empty.
pub record IsClean (cmd : Command) : Type 0 where
  pub slots : length cmd.argv ≡ max_args
  pub few : cmd.argc ≤ max_args
  pub blank : drop cmd.argc cmd.argv ≡ replicate (max_args - cmd.argc) []

pub publish-IsClean :
    (out : Command) (n : ℕ) → length out.argv ≡ max_args → n ≤ max_args → IsClean (publish out n)
unfolding publish
publish-IsClean out n h l =
    let width : length (take n out.argv) ≡ n = length-take n out.argv ∙ omega arith in
    record {
      slots = rw (length-append, width, length-replicate) (omega arith);
      few = l;
      blank =
          ap (λ (k : ℕ). drop k (take n out.argv ++ replicate (max_args - n) [])) (sym width)
          ∙ drop-append_length (take n out.argv) (replicate (max_args - n) []);
    }

pub clear-IsClean : (out : Command) → IsClean (clear out) × ((clear out).argc ≡ 0)
unfolding clear
clear-IsClean out = (record { slots = refl; few = omega arith; blank = refl }, refl)

pub read_header_done :
    (input : Bytes) (count next : ℕ)
    → read_header input ≡ done (count, next)
    → (count ≤ max_args) × (0 < next) × (next ≤ length input)
unfolding read_header
read_header_done input count next h =
    let line = read_line input 0 max_header_length strict in
    let (header, first, rest) = bind_done (accept Error.arg_length line) _ (count, next) h in
    let (same, found) = accept_done Error.arg_length line header first in
    let (n, number, last) =
      bind_done (require Error.arg_length (header_value header.text b'*' max_args)) _ (count, next)
        rest in
    let (low, high) = read_line-bounds input 0 max_header_length strict found in
    let le =
      header_value-le header.text b'*' max_args n (require_done Error.arg_length _ n number) in
    let next' : header.next ≡ line.next = ap (λ (l : Line). l.next) same in
    (ground arith, ground arith, ground arith)

array_elem_done :
    (input : Bytes) (cursor : ℕ) (payload : Line)
    → array_elem input cursor ≡ done payload
    → (cursor < payload.next) × (payload.next ≤ length input)
unfolding array_elem
array_elem_done input cursor payload h =
    let line = read_line input cursor max_header_length strict in
    let (elem, first, rest) = bind_done (accept Error.bulk_length line) _ payload h in
    let (same, found) = accept_done Error.bulk_length line elem first in
    let (len, number, last) =
      bind_done (require Error.bulk_length (header_value elem.text b'$' max_bulk_length)) _ payload
        rest in
    let (low, high) = read_line-bounds input cursor max_header_length strict found in
    let taken = take_bytes input elem.next len in
    let (same', found') = accept_done Error.bulk_length taken payload last in
    let (low', high') = take_bytes-bounds input elem.next len found' in
    let next : elem.next ≡ line.next = ap (λ (l : Line). l.next) same in
    let next' : payload.next ≡ taken.next = ap (λ (l : Line). l.next) same' in
    (omega arith, omega arith)

pub array_elems_done :
    (left i : ℕ) (input : Bytes) (cursor end : ℕ) (argv : List Bytes)
    → cursor ≤ length input
    → (array_elems left i input cursor argv).0 ≡ done end
    → (cursor ≤ end) × (end ≤ length input)
array_elems_done zero i input cursor end argv l h =
    let same : cursor ≡ end = unfold array_elems in ground arith in (omega arith, omega arith)
array_elems_done (suc left) i input cursor end argv l h =
    elim (Step-cases (array_elem input cursor)) [
      | inl e ↦ absurd (let h' = rw (array_elems-more left i input cursor argv e) at h in cc)
      | inr (inl (payload, e)) ↦
          let (low, high) = array_elem_done input cursor payload e in
          let h' = rw (array_elems-done left i input cursor argv payload e) at h in
          omega (
            arith,
            array_elems_done left (i + 1) input payload.next end (set argv i payload.text) high h',
          )
      | inr (inr (b, e)) ↦
          absurd (let h' = rw (array_elems-bad left i input cursor argv b e) at h in cc)
    ]

pub length-array_elems :
    (left i : ℕ) (input : Bytes) (cursor : ℕ) (argv : List Bytes)
    → length (array_elems left i input cursor argv).1 ≡ length argv
length-array_elems zero i input cursor argv = unfold array_elems in refl
length-array_elems (suc left) i input cursor argv = elim (Step-cases (array_elem input cursor)) [
  | inl e ↦ rw (array_elems-more left i input cursor argv e)
  | inr (inl (payload, e)) ↦ rw (array_elems-done left i input cursor argv payload e) (
      length-array_elems left (i + 1) input payload.next (set argv i payload.text)
      ∙ length-set argv i payload.text)
  | inr (inr (b, e)) ↦ rw (array_elems-bad left i input cursor argv b e)
]

pub inline_args_end :
    (fuel : ℕ) (text : Bytes) (n : ℕ) (argv : List Bytes)
    → skip_blanks text ≡ []
    → inline_args (suc fuel) text n argv ≡ some (n, argv)
unfolding inline_args
inline_args_end fuel text n argv e = rw (e, inline_args)

pub inline_args_word :
    (fuel : ℕ) (text : Bytes) (n : ℕ) (argv : List Bytes) (c : ℕ) (cs : Bytes)
    → skip_blanks text ≡ c ∷ cs
    → inline_args (suc fuel) text n argv ≡ (
        if n == max_args
        then none
        else inline_args fuel (after_word (c ∷ cs)) (n + 1) (set argv n (first_word (c ∷ cs))))
unfolding inline_args
inline_args_word fuel text n argv c cs e = rw (e, inline_args) (ground arith)

-- The loop of `parseInline` fills at most sixteen slots.
pub inline_args_few :
    (fuel : ℕ) (text : Bytes) (n m : ℕ) (argv argv' : List Bytes)
    → n ≤ max_args
    → inline_args fuel text n argv ≡ some (m, argv')
    → (m ≤ max_args) × (length argv' ≡ length argv)
inline_args_few zero text n m argv argv' l h = unfold inline_args in ground arith
inline_args_few (suc fuel) text n m argv argv' l h = elim (List-cases (skip_blanks text)) [
  | inl e ↦ let h' = rw (inline_args_end fuel text n argv e) at h in ground arith
  | inr (c, cs, e) ↦
      let h' = rw (inline_args_word fuel text n argv c cs e) at h in
      ground (
        arith,
        inline_args_few fuel (after_word (c ∷ cs)) (n + 1) m (set argv n (first_word (c ∷ cs)))
            argv',
        length-set argv n (first_word (c ∷ cs)),
      )
]
