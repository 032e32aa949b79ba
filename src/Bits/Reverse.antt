-- ===== src/Bits/Reverse.antt =====
-- `reverseBits` against a recursive description of the reversal of `k` bits.
use Prim.Native.Nat.{bit_and, bit_or}
use native.Mathlib.Nat.{pow-suc, pow-le-pow_right, mod-eq_of_lt}
use tiny_redis.Base.Bit.{bit_and-one, double-bit_or, two_pow_pos}
use tiny_redis.Base.{
  ℕ, zero, suc, ◌+◌, ◌-◌, ◌*◌, ◌/◌, ◌%◌, ◌^◌, ◌≤◌, ◌<◌, ◌≡◌, refl, ap, ◌∙◌, arith,
}
use tiny_redis.Bits.{word, reverse_loop, reverse_bits}

-- The number whose `k` low bits are those of `v` in reverse.
unfoldable pub rev : ℕ → ℕ → ℕ
rev zero v = 0
rev (suc k) v = v % 2 * 2 ^ k + rev k (v / 2)

pub rev-lt : (k v : ℕ) → rev k v < 2 ^ k
unfolding rev
rev-lt zero v = omega arith
rev-lt (suc k) v = rw (pow-suc 2 k) (grind (arith, rev-lt k (v / 2)))

pub rev-suc : (k v : ℕ) → rev (suc k) v ≡ v % 2 * 2 ^ k + rev k (v / 2)
unfolding rev
rev-suc k v = refl

-- The reversal read from the other end.
pub rev_top : (k b w : ℕ) → w < 2 ^ k → b < 2 → rev (suc k) (b * 2 ^ k + w) ≡ rev k w * 2 + b
rev_top zero b w h l = unfold rev in omega arith
rev_top (suc k) b w h l =
    let p = pow-suc 2 k in
    let bp = ap (λ (t : ℕ). b * t) p in
    let half : (b * 2 ^ suc k + w) / 2 ≡ b * 2 ^ k + w / 2 = omega (arith, bp) in
    let low : (b * 2 ^ suc k + w) % 2 ≡ w % 2 = omega (arith, bp) in
    rw (rev-suc (suc k) (b * 2 ^ suc k + w), half, low, rev-suc k w)
      (omega (arith, p, ap (λ (t : ℕ). w % 2 * t) p, rev_top k b (w / 2) (omega (arith, p)) l))

-- Reversing twice gives the number back.
pub rev-rev : (k v : ℕ) → v < 2 ^ k → rev k (rev k v) ≡ v
rev-rev zero v h = unfold rev in omega arith
rev-rev (suc k) v h =
    rw (rev-suc k v, rev_top k (v % 2) (rev k (v / 2)) (rev-lt k (v / 2)) (omega arith))
      (omega (arith, rev-rev k (v / 2) (omega (arith, pow-suc 2 k))))

reverse_loop-suc :
    (fuel m v out : ℕ)
    → 0 < m
    → out * 2 < word
    → reverse_loop (suc fuel) m v out ≡ reverse_loop fuel (m / 2) (v / 2) (out * 2 + v % 2)
reverse_loop-suc fuel m v out h l =
    let digit : bit_or (out * 2 % word) (bit_and v 1) ≡ out * 2 + v % 2 =
      rw (mod-eq_of_lt l, bit_and-one) (double-bit_or out (v % 2) (omega arith)) in
    rw (← digit) (unfold reverse_loop in ground arith)

-- One more digit leaves room in the word.
room :
    (out d p : ℕ)
    → (out + 1) * (p * 2) ≤ word
    → d < 2
    → 0 < p
    → (out * 2 < word) × ((out * 2 + d + 1) * p ≤ word)
room out zero p h l q = (grind arith, grind arith)
room out (suc zero) p h l q = (grind arith, grind arith)
room out (suc (suc d)) p h l q = absurd (omega arith)

pub reverse_loop-rev :
    (k fuel v out : ℕ)
    → k ≤ fuel
    → (out + 1) * 2 ^ k ≤ word
    → reverse_loop fuel (2 ^ k - 1) v out ≡ out * 2 ^ k + rev k v
reverse_loop-rev zero zero v out l h = unfold reverse_loop rev in omega arith
reverse_loop-rev zero (suc fuel) v out l h = unfold reverse_loop rev in omega arith
reverse_loop-rev (suc k) zero v out l h = absurd (omega arith)
reverse_loop-rev (suc k) (suc fuel) v out l h =
    let p = pow-suc 2 k in
    let pos = two_pow_pos k in
    let fits = room out (v % 2) (2 ^ k) (rw p at h) (omega arith) pos in
    let half : (2 ^ suc k - 1) / 2 ≡ 2 ^ k - 1 = omega (arith, p) in
    rw
      (
        reverse_loop-suc fuel (2 ^ suc k - 1) v out (omega (arith, p)) fits.0,
        half,
        reverse_loop-rev k fuel (v / 2) (out * 2 + v % 2) (omega arith) fits.1,
        rev-suc k v,
      )
      (omega (arith, ap (λ (t : ℕ). out * t) p))

-- On a table of `2 ^ k` buckets the loop reverses the `k` low bits.
pub reverse_bits-rev : (k v : ℕ) → k ≤ 64 → reverse_bits v (2 ^ k - 1) ≡ rev k v
reverse_bits-rev k v h =
    unfold reverse_bits in
    (reverse_loop-rev k 64 v 0 h (omega (arith, pow-le-pow_right {n = 2} (omega arith) h))
      ∙ omega arith)
