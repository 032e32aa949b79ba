-- ===== src/Resp/Reader/Bounds.antt =====
-- The offsets that the readers hand on, against the input.
use tiny_redis.Base.Bytes.{Bytes}
use tiny_redis.Base.{
  ℕ, ◌+◌, ◌≤◌, ◌<◌, min, Bool, false, Option, none, some, [], ◌∷◌, ◌≡◌, refl, arith, inl, inr,
  length, take, drop, leb, Bool-cases, length-take, length-drop,
}
use tiny_redis.Resp.Reader.Stable.{line_end-bounds}
use tiny_redis.Resp.Reader.{line_end, line_verdict, read_line, take_bytes, header_value}
use tiny_redis.Resp.{LineStatus, Framing}

line_verdict_found :
    (rest scan : Bytes) (at max_len : ℕ) (hit : Option (ℕ × Bool))
    → (line_verdict rest at max_len scan hit).status ≡ LineStatus.found
    → (lf : ℕ) × (cr : Bool) × (hit ≡ some (lf, cr))
      × ((line_verdict rest at max_len scan hit).next ≡ at + lf + 1)
unfolding line_verdict
line_verdict_found rest scan at max_len none h = ground arith
line_verdict_found rest scan at max_len (some (lf, cr)) h = (lf, cr, refl, ground arith)

pub read_line-bounds :
    (input : Bytes) (at max_len : ℕ) (framing : Framing)
    → (read_line input at max_len framing).status ≡ LineStatus.found
    → (at < (read_line input at max_len framing).next)
      × ((read_line input at max_len framing).next ≤ length input)
unfolding read_line
read_line-bounds input at max_len framing h = elim (Bool-cases (leb (length input) at)) [
  | inl past ↦ absurd (let h' = rw past at h in cc)
  | inr inside ↦
      let rest = drop at input in
      let scan = take (min (length rest) (max_len + 2)) rest in
      let (lf, cr, hit, next) =
        line_verdict_found rest scan at max_len (line_end framing false 0 scan) (rw inside at h) in
      let low = line_end-bounds framing false 0 scan lf cr hit in
      rw (inside, next)
        (ground
          (arith, low, length-take (min (length rest) (max_len + 2)) rest, length-drop at input))
]

pub take_bytes-bounds :
    (input : Bytes) (at len : ℕ)
    → (take_bytes input at len).status ≡ LineStatus.found
    → (at < (take_bytes input at len).next) × ((take_bytes input at len).next ≤ length input)
unfolding take_bytes
take_bytes-bounds input at len h = ground arith

pub header_value-le :
    (line : Bytes) (type limit v : ℕ) → header_value line type limit ≡ some v → v ≤ limit
unfolding header_value
header_value-le [] type limit v h = ground arith
header_value-le (c ∷ cs) type limit v h = ground arith
