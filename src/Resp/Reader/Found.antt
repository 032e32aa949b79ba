-- ===== src/Resp/Reader/Found.antt =====
-- The readers on well-formed input: a header line, a number in it, and a payload.
use native.Mathlib.Nat.{pow-suc}
use tiny_redis.Base.Bytes.{Bytes}
use tiny_redis.Base.{
  ℕ, zero, suc, ◌+◌, ◌-◌, ◌*◌, ◌/◌, ◌%◌, ◌^◌, ◌≤◌, ◌<◌, min, Bool, true, false, none, some, [], ◌∷◌,
  ◌++◌, append_assoc, ◌≡◌, ◌≢◌, refl, ap, ◌∙◌, arith, inl, inr, length, take, drop, get_or, ltb,
  leb, ◌==◌, Bool-cases, length-append, take_all, take-append, take-append_length, take-min-length,
  drop-append_length, get_or-append_right, ◌||◌,
}
use tiny_redis.Bits.{word}
use tiny_redis.Resp.Reader.Numbers.{decimal_digit, decimal_push, read_int-decimal}
use tiny_redis.Resp.Reader.Stable.{ends_cr, line_end-append_none}
use tiny_redis.Resp.Reader.{line_end, line_verdict, read_line, take_bytes, header_value}
use tiny_redis.Resp.Reply.{crlf, decimal}
use tiny_redis.Resp.{LineStatus, strict}

-- No byte of the text is an LF.
abbrev pub HasNoLf : Bytes → Type 0
HasNoLf [] = Unit {0}
HasNoLf (c ∷ cs) = (c ≢ b'\n') × HasNoLf cs

HasNoLf-concat : (xs : Bytes) (c : ℕ) → HasNoLf xs → c ≢ b'\n' → HasNoLf (xs ++ c ∷ [])
HasNoLf-concat [] c h n = (n, tt)
HasNoLf-concat (x ∷ xs) c h n = (h.0, HasNoLf-concat xs c h.1 n)

-- A number below 10 ^ (k + 1) has at most k + 1 digits, and none of them is an LF.
pub decimal_short : (k n : ℕ) → n < 10 ^ suc k → (length (decimal n) ≤ suc k) × HasNoLf (decimal n)
decimal_short zero n h = rw (decimal_digit n (omega arith)) (omega arith, (omega arith, tt))
decimal_short (suc k) n h = elim (Bool-cases (ltb n 10)) [
  | inl small ↦ rw (decimal_digit n (ground arith)) (omega arith, (ground arith, tt))
  | inr big ↦
      let (len, no_lf) = decimal_short k (n / 10) (let e = pow-suc 10 (suc k) in omega arith) in
      let whole : decimal n ≡ decimal (n / 10) ++ (b'0' + n % 10) ∷ [] =
        ap decimal (let e : n ≡ n / 10 * 10 + n % 10 = omega arith in e)
        ∙ decimal_push (n / 10) (n % 10) (ground arith) (omega arith) in
      rw whole (
        omega (arith, length-append (decimal (n / 10)) ((b'0' + n % 10) ∷ []), len),
        HasNoLf-concat (decimal (n / 10)) (b'0' + n % 10) no_lf (omega arith),
      )
]

line_end_no_lf : (cr : Bool) (i : ℕ) (xs : Bytes) → HasNoLf xs → line_end strict cr i xs ≡ none
unfolding line_end
line_end_no_lf cr i [] h = refl
line_end_no_lf cr i (x ∷ xs) h =
    let other : (x == b'\n') ≡ false = ground (arith, h.0) in
    rw other (line_end_no_lf (x == b'\r') (i + 1) xs h.1)

line_end-crlf :
    (cr : Bool) (i : ℕ) (rest : Bytes) → line_end strict cr i (crlf ++ rest) ≡ some (i + 1, true)
unfolding line_end
line_end-crlf cr i rest = refl

-- The search over a line's text and its terminator.
line_end_found :
    (text z : Bytes)
    → HasNoLf text
    → line_end strict false 0 ((text ++ crlf) ++ z) ≡ some (0 + length text + 1, true)
line_end_found text z h =
    ap (line_end strict false 0) (append_assoc text crlf z)
    ∙ line_end-append_none strict false 0 text (crlf ++ z) (line_end_no_lf false 0 text h)
    ∙ line_end-crlf (ends_cr false text) (0 + length text) z

-- A line that ends in CRLF, behind `pre`.
pub read_line_found :
    (pre text rest : Bytes) (max_len : ℕ)
    → HasNoLf text
    → length text ≤ max_len
    → read_line (pre ++ ((text ++ crlf) ++ rest)) (length pre) max_len strict
      ≡ record { status = LineStatus.found; text = text; next = length pre + (length text + 2) }
unfolding read_line
read_line_found pre text rest max_len h l =
    let line = text ++ crlf in
    let n : length line ≡ length text + 2 = length-append text crlf in
    let inside : leb (length (pre ++ (line ++ rest))) (length pre) ≡ false =
      ground (arith, length-append pre (line ++ rest), length-append line rest) in
    let z = take (max_len + 2 - length line) rest in
    let scan : take (min (length (line ++ rest)) (max_len + 2)) (line ++ rest) ≡ line ++ z =
      take-min-length (max_len + 2) (line ++ rest)
      ∙ take-append (max_len + 2) line rest
      ∙ ap (λ (t : Bytes). t ++ z) (take_all (max_len + 2) line (omega arith)) in
    let text' : take (0 + length text + 1 - 1) (line ++ rest) ≡ text =
      ap (λ (k : ℕ). take k (line ++ rest))
        (let e : 0 + length text + 1 - 1 ≡ length text = omega arith in e)
      ∙ ap (take (length text)) (append_assoc text crlf rest)
      ∙ take-append_length text (crlf ++ rest) in
    let fits : ltb max_len (0 + length text + 1 - 1) ≡ false = ground arith in
    let end : length pre + (0 + length text + 1) + 1 ≡ length pre + (length text + 2) =
      omega arith in
    rw (inside, drop-append_length pre (line ++ rest), scan, line_end_found text z h)
      (unfold line_verdict in rw (fits, text', end))

-- A header line holds its number.
pub header_value_found :
    (type n limit : ℕ) → n ≤ limit → n < word → header_value (type ∷ decimal n) type limit ≡ some n
unfolding header_value
header_value_found type n limit h l = rw (read_int-decimal n l) (ground arith)

-- A payload with its CRLF, behind `pre`.
pub take_bytes_found :
    (pre s rest : Bytes)
    → take_bytes (pre ++ ((s ++ crlf) ++ rest)) (length pre) (length s)
      ≡ record { status = LineStatus.found; text = s; next = length pre + (length s + 2) }
unfolding take_bytes
take_bytes_found pre s rest =
    let tail = (s ++ crlf) ++ rest in
    let n : length tail ≡ length s + 2 + length rest =
      omega (arith, length-append (s ++ crlf) rest, length-append s crlf) in
    let at : (i : ℕ)
        → get_or (pre ++ tail) (length pre + (length s + i)) 0 ≡ get_or (crlf ++ rest) i 0 =
      λ i.
        get_or-append_right pre tail (length s + i) 0
        ∙ ap (λ (t : Bytes). get_or t (length s + i) 0) (append_assoc s crlf rest)
        ∙ get_or-append_right s (crlf ++ rest) i 0 in
    let cr : get_or (pre ++ tail) (length pre + length s) 0 ≡ b'\r' =
      ap (λ (k : ℕ). get_or (pre ++ tail) k 0)
        (let e : length pre + length s ≡ length pre + (length s + 0) = omega arith in e)
      ∙ at 0 in
    let lf : get_or (pre ++ tail) (length pre + length s + 1) 0 ≡ b'\n' =
      ap (λ (k : ℕ). get_or (pre ++ tail) k 0)
        (let e : length pre + length s + 1 ≡ length pre + (length s + 1) = omega arith in e)
      ∙ at 1 in
    let text : take (length s) (drop (length pre) (pre ++ tail)) ≡ s =
      ap (take (length s)) (drop-append_length pre tail ∙ append_assoc s crlf rest)
      ∙ take-append_length s (crlf ++ rest) in
    let inside : ltb (length (pre ++ tail)) (length pre) ≡ false =
      ground (arith, length-append pre tail) in
    let room : (ltb (length (pre ++ tail) - length pre) 2
          || ltb (length (pre ++ tail) - length pre - 2) (length s))
        ≡ false =
      ground (arith, length-append pre tail) in
    let end : length pre + length s + 2 ≡ length pre + (length s + 2) = omega arith in
    rw (inside, room, cr, lf, text, end)
