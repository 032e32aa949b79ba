-- ===== src/Bits/Pow2.antt =====
-- `nextPow2` and `std::has_single_bit` against the powers of two.
use Prim.Native.Nat.{bit_and}
use native.Mathlib.Decide.{dec_lt}
use native.Mathlib.Nat.{pow-suc, pow-le-pow_right}
use tiny_redis.Base.Bit.{two_pow_pos, bit_and_step}
use tiny_redis.Base.{
  ℕ, zero, suc, ◌+◌, ◌*◌, ◌-◌, ◌/◌, ◌%◌, ◌^◌, ◌≤◌, ◌<◌, ◌≡◌, refl, ◌∙◌, arith, leb, inl, inr, true,
  false, if◌then◌else◌, Bool-cases,
}
use tiny_redis.Bits.{bit_ceil_from, bit_ceil, next_pow2, has_single_bit}

bit_ceil_from-suc :
    (fuel p n : ℕ)
    → bit_ceil_from (suc fuel) p n ≡ (if leb n p then p else bit_ceil_from fuel (p * 2) n)
unfolding bit_ceil_from
bit_ceil_from-suc fuel p n = ground arith

-- A power of two that falls short lies below every one that does not.
low-suc : (k j n : ℕ) → leb n (2 ^ k) ≡ false → n ≤ 2 ^ j → k ≤ j → suc k ≤ j
low-suc k j n short q l = elim (dec_lt k j) [
  | yes p ↦ p
  | no p ↦ let e : j ≡ k = omega arith in absurd (ground (arith, rw e at q))
]

bit_ceil_from_lem :
    (fuel k n : ℕ)
    → n ≤ 2 ^ (k + fuel)
    → ((j : ℕ) → n ≤ 2 ^ j → k ≤ j)
    → (e : ℕ) × (bit_ceil_from fuel (2 ^ k) n ≡ 2 ^ e) × (n ≤ 2 ^ e) × ((j : ℕ) → n ≤ 2 ^ j → e ≤ j)
bit_ceil_from_lem zero k n h low =
    (k, unfold bit_ceil_from in refl, rw (let e : k + 0 ≡ k = omega arith in e) at h, low)
bit_ceil_from_lem (suc fuel) k n h low = elim (Bool-cases (leb n (2 ^ k))) [
  | inl fits ↦ (k, rw (bit_ceil_from-suc, fits), ground arith, low)
  | inr short ↦
      let more : (j : ℕ) → n ≤ 2 ^ j → suc k ≤ j = λ j q. low-suc k j n short q (low j q) in
      let (e, run, above, least) =
        bit_ceil_from_lem fuel (suc k) n
          (rw (let e : k + suc fuel ≡ suc k + fuel = omega arith in e) at h) more in
      (e, rw (bit_ceil_from-suc, short, ← pow-suc 2 k) run, above, least)
]

next_pow2-suc : (n : ℕ) → next_pow2 (suc n) ≡ bit_ceil_from 64 1 (suc n)
unfolding next_pow2 bit_ceil
next_pow2-suc n = ground arith

-- For a request of at most 2 ^ 63 the result is a power of two, it is at least the request, and it is
-- at most every power of two, `2 ^ j`, that is at least the request.
pub next_pow2_least :
    (n j : ℕ)
    → n ≤ 2 ^ 63
    → n ≤ 2 ^ j
    → (e : ℕ) × (next_pow2 n ≡ 2 ^ e) × (n ≤ next_pow2 n) × (next_pow2 n ≤ 2 ^ j)
next_pow2_least zero j h l =
    let one : next_pow2 0 ≡ 1 = unfold next_pow2 in refl in
    (0, one, omega arith, omega (arith, two_pow_pos j))
next_pow2_least (suc n) j h l =
    let (e, run, above, least) =
      bit_ceil_from_lem 64 0 (suc n) (omega arith) (λ i q. omega arith) in
    let whole : next_pow2 (suc n) ≡ 2 ^ e = next_pow2-suc n ∙ run in
    let up : 2 ^ e ≤ 2 ^ j = pow-le-pow_right {n = 2} (omega arith) (least j l) in
    (e, whole, omega arith, omega arith)

bit_and-double : (n : ℕ) → 0 < n → bit_and (n * 2) (n * 2 - 1) ≡ bit_and n (n - 1) * 2
bit_and-double n low =
    let half : (n * 2) / 2 ≡ n = omega arith in
    let half' : (n * 2 - 1) / 2 ≡ n - 1 = omega arith in
    let even : (n * 2) % 2 ≡ 0 = omega arith in
    bit_and_step (n * 2) (n * 2 - 1) ∙ (rw (half, half', even) (omega arith))

-- Twice a power of two is a power of two, and so is every `2 ^ k`.
pub has_single_bit-double : (n : ℕ) → has_single_bit n ≡ true → has_single_bit (n * 2) ≡ true
unfolding has_single_bit
has_single_bit-double n h =
    let low : 0 < n = ground (arith, h) in ground (arith, h, bit_and-double n low)

pub has_single_bit-pow : (k : ℕ) → has_single_bit (2 ^ k) ≡ true
has_single_bit-pow zero = unfold has_single_bit in refl
has_single_bit-pow (suc k) = rw pow-suc (has_single_bit-double (2 ^ k) (has_single_bit-pow k))

-- The result is a power of two for every request, also where the 64 doublings end.
bit_ceil_from-single :
    (fuel p n : ℕ) → has_single_bit p ≡ true → has_single_bit (bit_ceil_from fuel p n) ≡ true
bit_ceil_from-single zero p n h = unfold bit_ceil_from in h
bit_ceil_from-single (suc fuel) p n h =
    let rest = bit_ceil_from-single fuel (p * 2) n (has_single_bit-double p h) in
    elim (Bool-cases (leb n p)) [
      | inl fits ↦ rw (bit_ceil_from-suc, fits) h
      | inr short ↦ rw (bit_ceil_from-suc, short) rest
    ]

pub next_pow2-single : (n : ℕ) → has_single_bit (next_pow2 n) ≡ true
next_pow2-single zero = unfold next_pow2 in has_single_bit-pow 0
next_pow2-single (suc n) =
    rw (next_pow2-suc n) (bit_ceil_from-single 64 1 (suc n) (has_single_bit-pow 0))
