-- ===== src/Resp/Reader.antt =====
-- src/core/resp.cpp: `readLine`, `takeBytes`, `readInt` and `headerValue`.
pub mod Stable
pub mod Bounds
pub mod Found
pub mod Numbers
use tiny_redis.Base.Bytes.{Bytes, codes, equal}
use tiny_redis.Base.{
  ℕ, ◌+◌, ◌-◌, ◌*◌, ◌/◌, ◌%◌, min, Bool, true, false, not, ◌&&◌, ◌||◌, Option, none, some, List, [],
  ◌∷◌, length, take, drop, get_or, ltb, leb, ◌==◌, if◌then◌else◌,
}
use tiny_redis.Bits.{word}
use tiny_redis.Resp.{Line, LineStatus, Framing, strict, inline}

-- A `Line{}`, and one with a verdict and nothing else.
abbrev pub verdict : LineStatus → Line
verdict s = record { status = s; text = []; next = 0 }

abbrev pub is_inline : Framing → Bool
is_inline inline = true
is_inline strict = false

-- The search for the terminator: the offset of the first LF that ends a line, and whether a CR stands
-- in front of it. `cr` tells whether the byte before this one is a CR, `i` is the offset of this one.
-- An LF that ends no line is passed over, as `from = lf + 1` does.
unfoldable pub line_end : Framing → Bool → ℕ → Bytes → Option (ℕ × Bool)
line_end framing cr i [] = none
line_end framing cr i (c ∷ cs) =
    if c == b'\n' && (cr || is_inline framing)
    then some (i, cr)
    else line_end framing (c == b'\r') (i + 1) cs

-- What `readLine` makes of the search; `rest` is the input from `at` on and `scan` its window.
unfoldable pub line_verdict : Bytes → ℕ → ℕ → Bytes → Option (ℕ × Bool) → Line
line_verdict rest at max_len scan none =
    let avail = length rest in
    if leb (max_len + 2) avail
      || (avail == max_len + 1 && not (get_or scan (length scan - 1) 0 == b'\r'))
    then verdict LineStatus.too_long
    else verdict LineStatus.incomplete
line_verdict rest at max_len scan (some (lf, cr)) =
    let len = if cr then lf - 1 else lf in
    if ltb max_len len
    then verdict LineStatus.too_long
    else record { status = LineStatus.found; text = take len rest; next = at + lf + 1 }

unfoldable pub read_line : Bytes → ℕ → ℕ → Framing → Line
read_line input at max_len framing =
    if leb (length input) at
    then verdict LineStatus.incomplete
    else (let rest = drop at input in
        let scan = take (min (length rest) (max_len + 2)) rest in
        line_verdict rest at max_len scan (line_end framing false 0 scan))

unfoldable pub take_bytes : Bytes → ℕ → ℕ → Line
take_bytes input at len =
    if ltb (length input) at
    then verdict LineStatus.incomplete
    else (let avail = length input - at in
        if ltb avail 2 || ltb (avail - 2) len
        then verdict LineStatus.incomplete
        else if not (get_or input (at + len) 0 == b'\r')
            || not (get_or input (at + len + 1) 0 == b'\n')
        then verdict LineStatus.bad_trailer
        else record {
          status = LineStatus.found;
          text = take len (drop at input);
          next = at + len + 2;
        })

-- `std::numeric_limits<std::size_t>::max()`
abbrev pub size_max : ℕ
size_max = word - 1

abbrev pub is_digit : ℕ → Bool
is_digit c = not (ltb c b'0' || ltb b'9' c)

-- The loop of `readInt`, with the exact bound tested before each digit is added.
unfoldable pub read_digits : ℕ → Bytes → Option ℕ
read_digits v [] = some v
read_digits v (c ∷ cs) =
    if not (is_digit c)
    then none
    else if ltb ((size_max - (c - b'0')) / 10) v
    then none
    else read_digits ((v * 10 + (c - b'0')) % word) cs

unfoldable pub read_int : Bytes → Option ℕ
read_int [] = none
read_int (c ∷ cs) =
    if equal (c ∷ cs) (codes "0")
    then some 0
    else if ltb c b'1' || ltb b'9' c
    then none
    else read_digits 0 (c ∷ cs)

-- A number behind its type byte, at most `limit`.
at_most : ℕ → Option ℕ → Option ℕ
at_most limit none = none
at_most limit (some v) = if ltb limit v then none else some v

unfoldable pub header_value : Bytes → ℕ → ℕ → Option ℕ
unfolding at_most
header_value [] type limit = none
header_value (c ∷ cs) type limit = if not (c == type) then none else at_most limit (read_int cs)
