-- ===== src/Tests/Words.antt =====
-- Runs of src/core/bits.cpp, and its theorems at concrete inputs.
use tiny_redis.Base.{ℕ, ◌+◌, ◌-◌, ◌*◌, ◌^◌, ◌≤◌, ◌<◌, suc, ◌≡◌, ◌↔◌, refl, arith}
use tiny_redis.Bits.Cursor.{cursor_at, cursor_cycle, doubling_keeps_order}
use tiny_redis.Bits.Pow2.{next_pow2_least}
use tiny_redis.Bits.{reverse_bits, next_cursor, next_pow2, bit_ceil, bit_ceil_from, splitmix64}

-- The order of the scan over eight buckets.
cursor_runs : (next_cursor 0 7 ≡ 4) × (next_cursor 4 7 ≡ 2) × (next_cursor 7 7 ≡ 0)
unfolding next_cursor
cursor_runs = (refl, refl, refl)

pow2_runs : (next_pow2 0 ≡ 1) × (next_pow2 1024 ≡ 1024) × (next_pow2 1025 ≡ 2048)
unfolding next_pow2 bit_ceil bit_ceil_from
pow2_runs = (refl, refl, refl)

-- The first output of the generator from seed 0, as in its reference implementation.
splitmix_runs : (splitmix64 0).0 ≡ 0xe220a8397b1dcdaf
unfolding splitmix64
splitmix_runs = refl

cursor_cycle_example :
    ((cursor_at 3 1 ≡ 4) ↔ (1 ≡ reverse_bits 4 (2 ^ 3 - 1)))
    × (reverse_bits 4 (2 ^ 3 - 1) < 2 ^ 3)
    × (cursor_at 3 (2 ^ 3) ≡ 0)
cursor_cycle_example = cursor_cycle 3 4 1 (omega arith) (omega arith) (omega arith)

doubling_keeps_order_example :
    (reverse_bits (1 * 2 ^ 2 + 1) (2 ^ suc 2 - 1) < reverse_bits 3 (2 ^ suc 2 - 1))
    ↔ (reverse_bits 1 (2 ^ 2 - 1) < reverse_bits 3 (2 ^ 2 - 1))
doubling_keeps_order_example =
    doubling_keeps_order 2 1 3 1 (omega arith) (omega arith) (omega arith) (omega arith)

next_pow2_least_example :
    (e : ℕ) × (next_pow2 1025 ≡ 2 ^ e) × (1025 ≤ next_pow2 1025) × (next_pow2 1025 ≤ 2 ^ 11)
next_pow2_least_example = next_pow2_least 1025 11 (omega arith) (omega arith)
