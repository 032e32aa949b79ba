-- ===== src/Resp/Reply.antt =====
-- src/core/resp.cpp, namespace `reply`: the encoders.
pub mod Wire
use tiny_redis.Base.Bytes.{Bytes, codes}
use tiny_redis.Base.Int.{ℤ, pos, negsuc}
use tiny_redis.Base.{
  ℕ, zero, suc, ◌+◌, ◌/◌, ◌%◌, Bool, true, ◌&&◌, ◌||◌, not, List, [], ◌∷◌, ◌++◌, length, ltb, ◌==◌,
  if◌then◌else◌,
}
use tiny_redis.Buffer.{Buffer, append, append_byte}

-- `std::to_chars` in base ten: the last digit behind those of the tenth part.
unfoldable pub decimal_from : ℕ → ℕ → Bytes
decimal_from zero n = b'0' ∷ []
decimal_from (suc fuel) n =
    let front = decimal_from fuel (n / 10) in
    if ltb n 10 then (b'0' + n) ∷ [] else front ++ (b'0' + n % 10) ∷ []

unfoldable pub decimal : ℕ → Bytes
decimal n = decimal_from n n

unfoldable pub signed_decimal : ℤ → Bytes
signed_decimal (pos n) = decimal n
signed_decimal (negsuc n) = b'-' ∷ decimal (suc n)

abbrev pub crlf : Bytes
crlf = codes "\r\n"

unfoldable pub append_line : Buffer → ℕ → Bytes → Buffer
append_line out type body = append (append (append_byte out type) body) crlf

-- No byte ends a line.
abbrev pub is_line : Bytes → Bool
is_line [] = true
is_line (c ∷ cs) = not (c == b'\r' || c == b'\n') && is_line cs

-- The assertion, that `is_line s` holds, is a condition of the theorems.
unfoldable pub simple_string : Buffer → Bytes → Buffer
simple_string out s = append_line out b'+' s

unfoldable pub error : Buffer → Bytes → Buffer
error out msg = append_line out b'-' msg

unfoldable pub integer : Buffer → ℤ → Buffer
integer out v = append_line out b':' (signed_decimal v)

unfoldable pub bulk : Buffer → Bytes → Buffer
bulk out s = append (append (append_line out b'$' (decimal (length s))) s) crlf

unfoldable pub null_bulk : Buffer → Buffer
null_bulk out = append out (codes "$-1\r\n")

unfoldable pub array_header : Buffer → ℕ → Buffer
array_header out n = append_line out b'*' (decimal n)
