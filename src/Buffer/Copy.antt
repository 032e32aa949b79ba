-- ===== src/Buffer/Copy.antt =====
-- Copies into an array, seen through its slices.
use tiny_redis.Base.Bytes.{Bytes}
use tiny_redis.Base.{
  ℕ, ◌+◌, ◌≤◌, ◌≡◌, ap, ◌∙◌, arith, ◌++◌, length, take, drop, length-append, length-take,
  length-drop, take-append_left, take-append_length, drop-append_length, take-take,
}
use tiny_redis.Buffer.{copy_at}

pub length-copy_at :
    (xs : Bytes) (at : ℕ) (bytes : Bytes)
    → at + length bytes ≤ length xs
    → length (copy_at xs at bytes) ≡ length xs
length-copy_at xs at bytes h =
    rw (length-append, length-append, length-take, length-drop) (omega arith)

-- What was copied is read back.
pub read-copy_at :
    (xs : Bytes) (at : ℕ) (bytes : Bytes)
    → at ≤ length xs
    → take (length bytes) (drop at (copy_at xs at bytes)) ≡ bytes
read-copy_at xs at bytes h =
    let rest = drop (at + length bytes) xs in
    let width : at ≡ length (take at xs) = omega (arith, length-take at xs) in
    ap (λ (k : ℕ). take (length bytes) (drop k (copy_at xs at bytes))) width
    ∙ ap (take (length bytes)) (drop-append_length (take at xs) (bytes ++ rest))
    ∙ take-append_length bytes rest

-- What stands in front of a copy stays.
pub take-copy_at :
    (xs : Bytes) (at n : ℕ) (bytes : Bytes)
    → n ≤ at
    → at ≤ length xs
    → take n (copy_at xs at bytes) ≡ take n xs
take-copy_at xs at n bytes h l =
    take-append_left n (take at xs) _ (rw length-take (omega arith)) ∙ take-take n at xs h
