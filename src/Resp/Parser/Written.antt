-- ===== src/Resp/Parser/Written.antt =====
-- A request on the wire, read one element at a time.
use tiny_redis.Base.Bytes.{Bytes}
use tiny_redis.Base.{
  ℕ, zero, suc, ◌+◌, ◌≤◌, ◌<◌, List, [], ◌∷◌, ◌++◌, append_assoc, append-nil, ◌≡◌, ◌≢◌, refl, sym,
  ap, ◌∙◌, arith, length, take, set, length-append, length-set,
}
use tiny_redis.Resp.Outcome.{done, accept}
use tiny_redis.Resp.Parser.Stable.{array_elems-done}
use tiny_redis.Resp.Parser.{read_header, array_elem, array_elems}
use tiny_redis.Resp.Reader.Found.{
  decimal_short, read_line_found, header_value_found, take_bytes_found,
}
use tiny_redis.Resp.Reader.{read_line, take_bytes}
use tiny_redis.Resp.Reply.Wire.{line_bytes, bulk_bytes}
use tiny_redis.Resp.Reply.{crlf, decimal}
use tiny_redis.Resp.{Error, Line, LineStatus, strict, max_args, max_bulk_length, max_header_length}

-- A request on the wire: the array header and a bulk string for each argument.
abbrev pub elems_bytes : List Bytes → Bytes
elems_bytes [] = []
elems_bytes (s ∷ args) = bulk_bytes s ++ elems_bytes args

abbrev pub request_bytes : List Bytes → Bytes
request_bytes args = line_bytes b'*' (decimal (length args)) ++ elems_bytes args

-- Every argument is within the bulk limit.
abbrev pub AreShort : List Bytes → Type 0
AreShort [] = Unit {0}
AreShort (s ∷ args) = (length s ≤ max_bulk_length) × AreShort args

abbrev found_line : Bytes → ℕ → Line
found_line text next = record { status = LineStatus.found; text = text; next = next }

accept_found :
    (e : Error) (text : Bytes) (next : ℕ)
    → accept e (found_line text next) ≡ done (found_line text next)
unfolding accept
accept_found e text next = refl

-- A number's line, behind `pre`, and the offset behind it.
header_line :
    (pre rest : Bytes) (type n : ℕ)
    → type ≢ b'\n'
    → n ≤ max_bulk_length
    → read_line (pre ++ (line_bytes type (decimal n) ++ rest)) (length pre) max_header_length strict
      ≡ found_line (type ∷ decimal n) (length pre + (length (decimal n) + 3))
header_line pre rest type n t h =
    let (short, no_lf) = decimal_short 8 n (omega arith) in
    read_line_found pre (type ∷ decimal n) rest max_header_length (t, no_lf) (omega arith)
    ∙ ap (λ (k : ℕ). found_line (type ∷ decimal n) k)
        (let e : length pre + (suc (length (decimal n)) + 2)
              ≡ length pre + (length (decimal n) + 3) =
            omega arith in
          e)

array_elem_found :
    (pre s rest : Bytes)
    → length s ≤ max_bulk_length
    → array_elem (pre ++ (bulk_bytes s ++ rest)) (length pre)
      ≡ done (found_line s (length pre + length (bulk_bytes s)))
unfolding array_elem
array_elem_found pre s rest h =
    let head = line_bytes b'$' (decimal (length s)) in
    let input = pre ++ (bulk_bytes s ++ rest) in
    let first : read_line input (length pre) max_header_length strict
        ≡ found_line (b'$' ∷ decimal (length s)) (length pre + (length (decimal (length s)) + 3)) =
      ap (λ (t : Bytes). read_line (pre ++ t) (length pre) max_header_length strict)
        (append_assoc head (s ++ crlf) rest)
      ∙ header_line pre ((s ++ crlf) ++ rest) b'$' (length s) (omega arith) h in
    let behind : length pre + (length (decimal (length s)) + 3) ≡ length (pre ++ head) =
      omega (arith, length-append pre head, length-append (decimal (length s)) crlf) in
    let split : input ≡ (pre ++ head) ++ ((s ++ crlf) ++ rest) =
      ap (λ (t : Bytes). pre ++ t) (append_assoc head (s ++ crlf) rest)
      ∙ sym (append_assoc pre head ((s ++ crlf) ++ rest)) in
    let end : length (pre ++ head) + (length s + 2) ≡ length pre + length (bulk_bytes s) =
      omega (arith, length-append pre head, length-append head (s ++ crlf), length-append s crlf) in
    let second : take_bytes input (length pre + (length (decimal (length s)) + 3)) (length s)
        ≡ found_line s (length pre + length (bulk_bytes s)) =
      ap (λ (t : Bytes). take_bytes t (length pre + (length (decimal (length s)) + 3)) (length s))
        split
      ∙ ap (λ (k : ℕ). take_bytes ((pre ++ head) ++ ((s ++ crlf) ++ rest)) k (length s)) behind
      ∙ take_bytes_found (pre ++ head) s rest
      ∙ ap (found_line s) end in
    rw
      (
        first,
        accept_found,
        header_value_found b'$' (length s) max_bulk_length h (omega arith),
        second,
      )
      (accept_found Error.bulk_length s (length pre + length (bulk_bytes s)))

-- The slots after the loop has written `args` from slot `i` on.
abbrev pub write_all : ℕ → List Bytes → List Bytes → List Bytes
write_all i [] argv = argv
write_all i (s ∷ args) argv = write_all (i + 1) args (set argv i s)

pub array_elems_found :
    (args : List Bytes) (i : ℕ) (pre rest : Bytes) (argv : List Bytes)
    → AreShort args
    → array_elems (length args) i (pre ++ (elems_bytes args ++ rest)) (length pre) argv
      ≡ (done (length pre + length (elems_bytes args)), write_all i args argv)
array_elems_found [] i pre rest argv h =
    unfold array_elems in
    ap (λ (k : ℕ). (done k, argv)) (let e : length pre ≡ length pre + 0 = omega arith in e)
array_elems_found (s ∷ args) i pre rest argv h =
    let more_bytes = elems_bytes args ++ rest in
    let input = pre ++ (elems_bytes (s ∷ args) ++ rest) in
    let first : input ≡ pre ++ (bulk_bytes s ++ more_bytes) =
      ap (λ (t : Bytes). pre ++ t) (append_assoc (bulk_bytes s) (elems_bytes args) rest) in
    let second : pre ++ (bulk_bytes s ++ more_bytes) ≡ (pre ++ bulk_bytes s) ++ more_bytes =
      sym (append_assoc pre (bulk_bytes s) more_bytes) in
    let next : length pre + length (bulk_bytes s) ≡ length (pre ++ bulk_bytes s) =
      sym (length-append pre (bulk_bytes s)) in
    let end : length (pre ++ bulk_bytes s) + length (elems_bytes args)
        ≡ length pre + length (elems_bytes (s ∷ args)) =
      omega (
        arith,
        length-append pre (bulk_bytes s),
        length-append (bulk_bytes s) (elems_bytes args),
      ) in
    array_elems-done (length args) i input (length pre) argv
      (found_line s (length pre + length (bulk_bytes s)))
      (ap (λ (t : Bytes). array_elem t (length pre)) first ∙ array_elem_found pre s more_bytes h.0)
    ∙ ap
        (λ (t : Bytes).
          array_elems (length args) (i + 1) t (length pre + length (bulk_bytes s)) (set argv i s))
        (first ∙ second)
    ∙ ap
        (λ (k : ℕ).
          array_elems (length args) (i + 1) ((pre ++ bulk_bytes s) ++ more_bytes) k (set argv i s))
        next
    ∙ array_elems_found args (i + 1) (pre ++ bulk_bytes s) rest (set argv i s) h.1
    ∙ ap (λ (k : ℕ). (done k, write_all (i + 1) args (set argv i s))) end

take-set_below : (n i : ℕ) (xs : List Bytes) (v : Bytes) → n ≤ i → take n (set xs i v) ≡ take n xs
take-set_below zero i xs v h = refl
take-set_below (suc n) i [] v h = refl
take-set_below (suc n) zero (x ∷ xs) v h = absurd (omega arith)
take-set_below (suc n) (suc i) (x ∷ xs) v h = ap (◌∷◌ x) (take-set_below n i xs v (omega arith))

take-set_last :
    (i : ℕ) (xs : List Bytes) (v : Bytes)
    → i < length xs
    → take (suc i) (set xs i v) ≡ take i xs ++ v ∷ []
take-set_last i [] v h = absurd (omega arith)
take-set_last zero (x ∷ xs) v h = refl
take-set_last (suc i) (x ∷ xs) v h = ap (◌∷◌ x) (take-set_last i xs v (omega arith))

pub take-write_all :
    (args : List Bytes) (i : ℕ) (argv : List Bytes)
    → i + length args ≤ length argv
    → take (i + length args) (write_all i args argv) ≡ take i argv ++ args
take-write_all [] i argv h =
    ap (λ (k : ℕ). take k argv) (let e : i + 0 ≡ i = omega arith in e)
    ∙ sym (append-nil (take i argv))
take-write_all (s ∷ args) i argv h =
    ap (λ (k : ℕ). take k (write_all (i + 1) args (set argv i s)))
      (let e : i + suc (length args) ≡ i + 1 + length args = omega arith in e)
    ∙ take-write_all args (i + 1) (set argv i s) (rw length-set (omega arith))
    ∙ ap (λ (t : List Bytes). t ++ args)
        (ap (λ (k : ℕ). take k (set argv i s)) (let e : i + 1 ≡ suc i = omega arith in e)
          ∙ take-set_last i argv s (omega arith))
    ∙ append_assoc (take i argv) (s ∷ []) args

pub read_header_found :
    (n : ℕ) (rest : Bytes)
    → n ≤ max_args
    → read_header (line_bytes b'*' (decimal n) ++ rest)
      ≡ done (n, length (line_bytes b'*' (decimal n)))
unfolding read_header
read_header_found n rest h =
    let input = line_bytes b'*' (decimal n) ++ rest in
    let first = header_line [] rest b'*' n (omega arith) (omega arith) in
    rw (first, accept_found, header_value_found b'*' n max_args h (omega arith))
      (ap (λ (k : ℕ). done (n, k)) (omega (arith, length-append (decimal n) crlf)))
