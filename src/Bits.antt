-- ===== src/Bits.antt =====
-- src/core/bits.h and src/core/bits.cpp: rounding to a power of two, the reverse-binary cursor of
-- the bucket scan, and the splitmix64 generator. Words are numbers with the wrap written out.
pub mod Reverse
pub mod Cursor
pub mod Pow2
use Prim.Native.Nat.{bit_and, bit_or, bit_xor}
use tiny_redis.Base.{
  ℕ, zero, suc, ◌+◌, ◌-◌, ◌*◌, ◌/◌, ◌%◌, ◌^◌, Bool, ◌&&◌, not, ltb, leb, ◌==◌, if◌then◌else◌,
}

-- The range of `std::size_t` and `std::uint64_t`.
abbrev pub word : ℕ
word = 2 ^ 64

-- The loop of `reverseBits`: one round for each bit of the mask, so 64 rounds are enough.
unfoldable pub reverse_loop : ℕ → ℕ → ℕ → ℕ → ℕ
reverse_loop zero m v out = out
reverse_loop (suc fuel) m v out =
    let rest = reverse_loop fuel (m / 2) (v / 2) (bit_or (out * 2 % word) (bit_and v 1)) in
    if m == 0 then out else rest

unfoldable pub reverse_bits : ℕ → ℕ → ℕ
unfolding reverse_loop
reverse_bits v mask = reverse_loop 64 mask v 0

-- `std::bit_ceil`, the smallest power of two that is at least `n`: 64 doublings reach any word.
unfoldable pub bit_ceil_from : ℕ → ℕ → ℕ → ℕ
bit_ceil_from zero p n = p
bit_ceil_from (suc fuel) p n =
    let rest = bit_ceil_from fuel (p * 2) n in if leb n p then p else rest

unfoldable pub bit_ceil : ℕ → ℕ
bit_ceil n = bit_ceil_from 64 1 n

-- `std::has_single_bit`, whether `n` is a power of two.
unfoldable pub has_single_bit : ℕ → Bool
has_single_bit n = not (n == 0) && bit_and n (n - 1) == 0

unfoldable pub next_pow2 : ℕ → ℕ
next_pow2 n = if n == 0 then 1 else bit_ceil n

unfoldable pub next_cursor : ℕ → ℕ → ℕ
unfolding reverse_bits
next_cursor cursor mask =
    let r = (reverse_bits cursor mask + 1) % word in if ltb mask r then 0 else reverse_bits r mask

-- `splitmix64`: the output and the advanced state.
unfoldable pub splitmix64 : ℕ → ℕ × ℕ
splitmix64 state =
    let s : ℕ = (state + 0x9e3779b97f4a7c15) % word in
    let z₁ : ℕ = bit_xor s (s / 2 ^ 30) * 0xbf58476d1ce4e5b9 % word in
    let z₂ : ℕ = bit_xor z₁ (z₁ / 2 ^ 27) * 0x94d049bb133111eb % word in
    (bit_xor z₂ (z₂ / 2 ^ 31), s)
