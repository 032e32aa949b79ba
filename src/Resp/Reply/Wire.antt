-- ===== src/Resp/Reply/Wire.antt =====
-- What each encoder puts behind the bytes that wait in the buffer.
use tiny_redis.Base.Bytes.{Bytes, codes}
use tiny_redis.Base.Int.{ℤ}
use tiny_redis.Base.{ℕ, [], ◌∷◌, ◌++◌, append_assoc, true, ◌≡◌, ap, ◌∙◌, length}
use tiny_redis.Buffer.Queue.{IsValid, append_lem, append_byte_lem}
use tiny_redis.Buffer.{Buffer, readable, append, append_byte}
use tiny_redis.Resp.Reply.{
  crlf, decimal, signed_decimal, append_line, simple_string, error, integer, bulk, null_bulk,
  array_header, is_line,
}

-- A line of the protocol, and a bulk string.
abbrev pub line_bytes : ℕ → Bytes → Bytes
line_bytes type body = type ∷ (body ++ crlf)

abbrev pub bulk_bytes : Bytes → Bytes
bulk_bytes s = line_bytes b'$' (decimal (length s)) ++ (s ++ crlf)

-- `after` is a valid buffer that shows the bytes of `before` and then `bytes`.
pub record Appends (before after : Buffer) (bytes : Bytes) : Type 0 where
  pub valid : IsValid after
  pub shows : readable after ≡ readable before ++ bytes

pub append-Appends : (b : Buffer) (bytes : Bytes) → IsValid b → Appends b (append b bytes) bytes
append-Appends b bytes v =
    let (valid, shows) = append_lem b bytes v in record { valid = valid; shows = shows }

-- Two appends in a row.
pub Appends-trans :
    {a b c : Buffer} {xs ys : Bytes} → Appends a b xs → Appends b c ys → Appends a c (xs ++ ys)
Appends-trans {a} {b} {c} {xs} {ys} p q = record {
  valid = q.valid;
  shows = q.shows ∙ ap (λ (z : Bytes). z ++ ys) p.shows ∙ append_assoc (readable a) xs ys;
}

append_byte-Appends : (b : Buffer) (c : ℕ) → IsValid b → Appends b (append_byte b c) (c ∷ [])
append_byte-Appends b c v =
    let (valid, shows) = append_byte_lem b c v in record { valid = valid; shows = shows }

pub append_line-Appends :
    (b : Buffer) (type : ℕ) (body : Bytes)
    → IsValid b
    → Appends b (append_line b type body) (line_bytes type body)
unfolding append_line
append_line-Appends b type body v =
    let p = append_byte-Appends b type v in
    let q = Appends-trans p (append-Appends (append_byte b type) body p.valid) in
    Appends-trans q (append-Appends (append (append_byte b type) body) crlf q.valid)

bulk-Appends : (b : Buffer) (s : Bytes) → IsValid b → Appends b (bulk b s) (bulk_bytes s)
unfolding bulk
bulk-Appends b s v =
    let head = append_line b b'$' (decimal (length s)) in
    let p = append_line-Appends b b'$' (decimal (length s)) v in
    let q = append-Appends head s p.valid in
    Appends-trans p (Appends-trans q (append-Appends (append head s) crlf q.valid))

-- On a valid buffer, for a line `s`, with no byte that ends it, as the assertion on a simple string asks,
-- and for any bytes `w`: each reply encoder keeps the buffer valid and adds one RESP value behind the
-- bytes that wait in it, or the header of one: a simple string or an error of `s`, an integer, a bulk
-- string of `w` with its length, the null bulk, or an array header.
pub replies-Appends :
    (b : Buffer) (s w : Bytes) (v : ℤ) (n : ℕ)
    → IsValid b
    → is_line s ≡ true
    → Appends b (simple_string b s) (b'+' ∷ (s ++ crlf))
      × Appends b (error b s) (b'-' ∷ (s ++ crlf))
      × Appends b (integer b v) (b':' ∷ (signed_decimal v ++ crlf))
      × Appends b (bulk b w) (b'$' ∷ (decimal (length w) ++ crlf) ++ (w ++ crlf))
      × Appends b (null_bulk b) (codes "$-1\r\n")
      × Appends b (array_header b n) (b'*' ∷ (decimal n ++ crlf))
unfolding simple_string error integer null_bulk array_header
replies-Appends b s w v n valid line = (
  append_line-Appends b b'+' s valid,
  append_line-Appends b b'-' s valid,
  append_line-Appends b b':' (signed_decimal v) valid,
  bulk-Appends b w valid,
  append-Appends b (codes "$-1\r\n") valid,
  append_line-Appends b b'*' (decimal n) valid,
)
