-- ===== src/Bits/Cursor.antt =====
-- The scan cursor over the buckets of a table, and over those of a table of twice as many.
use native.Mathlib.Nat.{pow-le-pow_right, mod-eq_of_lt}
use tiny_redis.Base.Bit.{two_pow_pos}
use tiny_redis.Base.{
  ℕ, zero, suc, ◌+◌, ◌-◌, ◌*◌, ◌^◌, ◌<◌, ◌≡◌, ◌↔◌, refl, ap, sym, ◌∙◌, arith, ltb, if◌then◌else◌,
}
use tiny_redis.Bits.Reverse.{rev, rev-lt, rev-rev, rev-suc, rev_top, reverse_bits-rev}
use tiny_redis.Bits.{word, reverse_bits, next_cursor}

-- One step of the cursor is one step of a counter on the reversed bits.
pub next_cursor-rev :
    (k c : ℕ)
    → k < 64
    → next_cursor c (2 ^ k - 1) ≡ (if ltb (2 ^ k - 1) (rev k c + 1) then 0 else rev k (rev k c + 1))
unfolding next_cursor
next_cursor-rev k c h =
    let small : rev k c + 1 < word =
      omega (
        arith,
        rev-lt k c,
        pow-le-pow_right {n = 2} (omega arith) {i = k} {j = 63} (omega arith),
      ) in
    rw (
      reverse_bits-rev k c (omega arith),
      mod-eq_of_lt small,
      reverse_bits-rev k (rev k c + 1) (omega arith),
    )

-- The cursor after `i` calls that started at 0.
unfoldable pub cursor_at : ℕ → ℕ → ℕ
cursor_at k zero = 0
cursor_at k (suc i) = next_cursor (cursor_at k i) (2 ^ k - 1)

pub rev-zero : (k : ℕ) → rev k 0 ≡ 0
rev-zero zero = unfold rev in refl
rev-zero (suc k) = rw rev-suc (omega (arith, rev-zero k))

pub cursor_at-rev : (k i : ℕ) → k < 64 → i < 2 ^ k → cursor_at k i ≡ rev k i
unfolding cursor_at
cursor_at-rev k zero h l = sym (rev-zero k)
cursor_at-rev k (suc i) h l =
    rw (cursor_at-rev k i h (omega arith), next_cursor-rev k (rev k i) h, rev-rev k i (omega arith))
      (ground (arith, ap (rev k) (let e : i + 1 ≡ suc i = omega arith in e)))

cursor_at_last : (k n : ℕ) → k < 64 → suc n ≡ 2 ^ k → cursor_at k (suc n) ≡ 0
unfolding cursor_at
cursor_at_last k n h e =
    rw (cursor_at-rev k n h (omega arith), next_cursor-rev k (rev k n) h, rev-rev k n (omega arith))
      (ground arith)

-- On a table of `2 ^ k` buckets, `k` below 64, the calls of `nextCursor` that start at 0 reach every
-- bucket exactly once before the cycle ends: of the first `2 ^ k` cursors the one at bucket `b` is
-- number `reverseBits(b)` and no other, and the call after the last of them returns 0.
pub cursor_cycle :
    (k b i : ℕ)
    → k < 64
    → b < 2 ^ k
    → i < 2 ^ k
    → ((cursor_at k i ≡ b) ↔ (i ≡ reverse_bits b (2 ^ k - 1)))
      × (reverse_bits b (2 ^ k - 1) < 2 ^ k)
      × (cursor_at k (2 ^ k) ≡ 0)
cursor_cycle k b i h l q = rw (reverse_bits-rev k b (omega arith)) (
  (
    λ e. sym (rev-rev k i q) ∙ ap (rev k) (sym (cursor_at-rev k i h q) ∙ e),
    λ e. ap (cursor_at k) e ∙ cursor_at-rev k (rev k b) h (rev-lt k b) ∙ rev-rev k b l,
  ),
  rev-lt k b,
  (let e : suc (2 ^ k - 1) ≡ 2 ^ k = omega (arith, two_pow_pos k) in
      ap (cursor_at k) (sym e) ∙ cursor_at_last k (2 ^ k - 1) h e),
)

-- When a table of `2 ^ k` buckets, `k` below 64, has doubled in mid-cycle, a bucket of the new table,
-- the old bucket `b` or its upper half `b + 2 ^ k`, comes before cursor `c` in the new cycle exactly
-- when `b` came before `c` in the old one, by the number of the call that reaches it.
pub doubling_keeps_order :
    (k b c half : ℕ)
    → k < 64
    → b < 2 ^ k
    → c < 2 ^ k
    → half < 2
    → (reverse_bits (half * 2 ^ k + b) (2 ^ suc k - 1) < reverse_bits c (2 ^ suc k - 1))
      ↔ (reverse_bits b (2 ^ k - 1) < reverse_bits c (2 ^ k - 1))
doubling_keeps_order k b c half l p q h =
    let old : rev (suc k) c ≡ rev k c * 2 =
      ap (rev (suc k)) (let e : c ≡ 0 * 2 ^ k + c = omega arith in e)
      ∙ rev_top k 0 c q (omega arith)
      ∙ omega arith in
    rw
      (
        reverse_bits-rev (suc k) (half * 2 ^ k + b) (omega arith),
        reverse_bits-rev (suc k) c (omega arith),
        reverse_bits-rev k b (omega arith),
        reverse_bits-rev k c (omega arith),
        rev_top k half b p h,
        old,
      )
      (λ l. omega arith, λ l. omega arith)
