-- ===== src/Base/Bit.antt =====
-- The native bit operations at variables: their law for the lowest digit, and what follows.
use Prim.Native.Nat.{
  ℕ, zero, suc, ◌+◌, ◌-◌, ◌*◌, ◌/◌, ◌%◌, ◌^◌, ◌≤◌, ◌<◌, min, max, bit_and, bit_or, digits,
  bit_and-bitwise, bit_or-bitwise,
}
use mathlib.Core.Path.{◌≡◌, refl, sym, ap, ◌∙◌}
use native.Mathlib.Nat.{
  div-add-mod', add-mul-mod_self_right, mod-eq_of_lt, mod-lt, pow-suc, one-le-pow,
}
use native.Mathlib.Omega.{arith}

-- `digits` for any pair of a tail and a digit operation.
module _ (tail : ℕ → ℕ) (join : ℕ → ℕ → ℕ) where
  base_digits : (i y : ℕ) → digits tail join i 0 y ≡ tail y
  base_digits zero y = refl
  base_digits (suc i) y = refl

  -- Rounds past the digits of the first number add nothing.
  spare_rounds : (x y i j : ℕ) → x ≤ i → x ≤ j → digits tail join i x y ≡ digits tail join j x y
  spare_rounds zero y i j l m = base_digits i y ∙ sym (base_digits j y)
  spare_rounds (suc x) y zero j l m = absurd (omega arith)
  spare_rounds (suc x) y (suc i) zero l m = absurd (omega arith)
  spare_rounds (suc x) y (suc i) (suc j) l m =
      let half = spare_rounds (suc x / 2) (y / 2) i j (omega arith) (omega arith) in
      omega (arith, half)

  lowest_digit :
      (x y : ℕ)
      → tail y ≡ tail (y / 2) * 2 + join 0 (y % 2)
      → digits tail join x x y ≡ digits tail join (x / 2) (x / 2) (y / 2) * 2 + join (x % 2) (y % 2)
  lowest_digit zero y h = h
  lowest_digit (suc x) y h =
      let half = spare_rounds (suc x / 2) (y / 2) x (suc x / 2) (omega arith) (omega arith) in
      omega (arith, half)

-- The lowest digit of the two operations.
pub bit_and_step : (x y : ℕ) → bit_and x y ≡ bit_and (x / 2) (y / 2) * 2 + min (x % 2) (y % 2)
bit_and_step x y =
    let law = lowest_digit (λ t. zero) min x y (omega arith) in
    omega (arith, law, bit_and-bitwise x y, bit_and-bitwise (x / 2) (y / 2))

pub bit_or_step : (x y : ℕ) → bit_or x y ≡ bit_or (x / 2) (y / 2) * 2 + max (x % 2) (y % 2)
bit_or_step x y =
    let law = lowest_digit (λ t. t) max x y (omega arith) in
    omega (arith, law, bit_or-bitwise x y, bit_or-bitwise (x / 2) (y / 2))

-- With 0 on the right; the bound is for the recursion on halves.
right_zero : (bound x : ℕ) → x ≤ bound → (bit_and x 0 ≡ 0) × (bit_or x 0 ≡ x)
right_zero bound zero l = (bit_and-bitwise 0 0, bit_or-bitwise 0 0)
right_zero zero (suc x) l = absurd (omega arith)
right_zero (suc bound) (suc x) l =
    let (low, same) = right_zero bound (suc x / 2) (omega arith) in
    (omega (arith, low, bit_and_step (suc x) 0), omega (arith, same, bit_or_step (suc x) 0))

pub bit_and-one : (x : ℕ) → bit_and x 1 ≡ x % 2
bit_and-one x = omega (arith, (right_zero (x / 2) (x / 2) (omega arith)).0, bit_and_step x 1)

bounded_mask : (bound x mask : ℕ) → mask ≤ bound → bit_and x mask ≤ mask
bounded_mask bound x zero l = omega (arith, (right_zero x x (omega arith)).0)
bounded_mask zero x (suc mask) l = absurd (omega arith)
bounded_mask (suc bound) x (suc mask) l =
    let half = bounded_mask bound (x / 2) (suc mask / 2) (omega arith) in
    omega (arith, half, bit_and_step x (suc mask))

-- A masked value is at most the mask.
pub bit_and-le : (a b : ℕ) → bit_and a b ≤ b
bit_and-le a b = bounded_mask b a b (omega arith)

pub two_pow_pos : (k : ℕ) → 0 < 2 ^ k
two_pow_pos k = one-le-pow k 2 (omega arith)

-- The lowest digit of a remainder by an even number.
pub mod_double : (p a : ℕ) → 0 < p → a % (p * 2) ≡ a / 2 % p * 2 + a % 2
mod_double p a h =
    let r : ℕ = a / 2 % p * 2 + a % 2 in
    let whole : a ≡ r + a / 2 / p * (p * 2) = omega (arith, div-add-mod' (a / 2) p) in
    ap (λ (t : ℕ). t % (p * 2)) whole
    ∙ add-mul-mod_self_right r (a / 2 / p) (p * 2)
    ∙ mod-eq_of_lt (omega (arith, mod-lt (a / 2) h))

-- A mask of `k` ones is a remainder.
pub bit_and-ones : (k a : ℕ) → bit_and a (2 ^ k - 1) ≡ a % 2 ^ k
bit_and-ones zero a = omega (arith, (right_zero a a (omega arith)).0)
bit_and-ones (suc k) a =
    let p = two_pow_pos k in
    rw (pow-suc 2 k, mod_double (2 ^ k) a p)
      (omega (
        arith,
        bit_and_step a (2 ^ k * 2 - 1),
        ap (bit_and (a / 2)) (let e : (2 ^ k * 2 - 1) / 2 ≡ 2 ^ k - 1 = omega arith in e),
        bit_and-ones k (a / 2),
      ))

-- A bit set below an even number is added to it.
pub double-bit_or : (a b : ℕ) → b < 2 → bit_or (a * 2) b ≡ a * 2 + b
double-bit_or a b h = omega (
  arith,
  bit_or_step (a * 2) b,
  ap (bit_or (a * 2 / 2)) (let e : b / 2 ≡ 0 = omega arith in e),
  (right_zero (a * 2 / 2) (a * 2 / 2) (omega arith)).1,
)
