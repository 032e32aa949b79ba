-- ===== src/Resp/Reader/Numbers.antt =====
-- `readInt` against the decimal form that `std::to_chars` writes.
use tiny_redis.Base.Bytes.{Bytes, codes, equal, equal_iff}
use tiny_redis.Base.{
  ℕ, zero, suc, ◌+◌, ◌-◌, ◌*◌, ◌/◌, ◌%◌, ◌≤◌, ◌<◌, false, some, [], ◌∷◌, ◌++◌, append_assoc,
  append-nil, ◌⊎◌, ◌≡◌, ◌↔◌, refl, sym, ap, ◌∙◌, arith, inl, inr, ltb, if◌then◌else◌, Bool-cases,
}
use tiny_redis.Bits.{word}
use tiny_redis.Resp.Reader.{read_digits, read_int}
use tiny_redis.Resp.Reply.{decimal_from, decimal}

decimal_from-suc :
    (f n : ℕ)
    → decimal_from (suc f) n
      ≡ (if ltb n 10 then (b'0' + n) ∷ [] else decimal_from f (n / 10) ++ (b'0' + n % 10) ∷ [])
unfolding decimal_from
decimal_from-suc f n = ground arith

-- Fuel of the number itself is enough: more changes nothing.
decimal_from_fuel : (f g n : ℕ) → n ≤ f → n ≤ g → decimal_from f n ≡ decimal_from g n
decimal_from_fuel zero zero n h k = refl
decimal_from_fuel zero (suc g) zero h k = unfold decimal_from in refl
decimal_from_fuel zero (suc g) (suc n) h k = absurd (omega arith)
decimal_from_fuel (suc f) zero zero h k = unfold decimal_from in refl
decimal_from_fuel (suc f) zero (suc n) h k = absurd (omega arith)
decimal_from_fuel (suc f) (suc g) n h k = elim (Bool-cases (ltb n 10)) [
  | inl small ↦ rw (decimal_from-suc f n, decimal_from-suc g n, small)
  | inr big ↦ rw (
    decimal_from-suc f n,
    decimal_from-suc g n,
    big,
    decimal_from_fuel f g (n / 10) (ground arith) (ground arith),
  )
]

pub decimal_digit : (n : ℕ) → n < 10 → decimal n ≡ (b'0' + n) ∷ []
unfolding decimal
decimal_digit n h =
    decimal_from_fuel n (suc n) n (omega arith) (omega arith) ∙ decimal_from-suc n n ∙ ground arith

-- One more digit at the right end.
pub decimal_push : (w d : ℕ) → 1 ≤ w → d < 10 → decimal (w * 10 + d) ≡ decimal w ++ (b'0' + d) ∷ []
unfolding decimal
decimal_push w d h l =
    let n : ℕ = w * 10 + d in
    let q : n / 10 ≡ w = omega arith in
    let r : n % 10 ≡ d = omega arith in
    let big : ltb n 10 ≡ false = ground arith in
    decimal_from_fuel n (suc n) n (omega arith) (omega arith)
    ∙ decimal_from-suc n n
    ∙ rw (big, q, r, decimal_from_fuel n w w (omega arith) (omega arith))

read_digits-append :
    (xs ys : Bytes) (v w : ℕ)
    → read_digits v xs ≡ some w
    → read_digits v (xs ++ ys) ≡ read_digits w ys
unfolding read_digits
read_digits-append [] ys v w h = ground arith
read_digits-append (x ∷ xs) ys v w h =
    ground (arith, read_digits-append xs ys ((v * 10 + (x - b'0')) % word) w)

-- The exact bound: the next digit is taken when, and only when, the number stays in the word.
read_digit :
    (w d : ℕ) (ys : Bytes)
    → d < 10
    → w * 10 + d < word
    → read_digits w ((b'0' + d) ∷ ys) ≡ read_digits (w * 10 + d) ys
unfolding read_digits
read_digit w d ys h l = ground arith

read_digits-decimal_from : (f n : ℕ) → n ≤ f → n < word → read_digits 0 (decimal_from f n) ≡ some n
read_digits-decimal_from zero zero h l = unfold decimal_from read_digits in refl
read_digits-decimal_from zero (suc n) h l = absurd (omega arith)
read_digits-decimal_from (suc f) n h l = elim (Bool-cases (ltb n 10)) [
  | inl small ↦
      rw (decimal_from-suc f n, small, read_digit 0 n [] (ground arith) (omega arith))
        (unfold read_digits in ap some (omega arith))
  | inr big ↦
      let front = read_digits-decimal_from f (n / 10) (ground arith) (omega arith) in
      rw
        (
          decimal_from-suc f n,
          big,
          read_digits-append (decimal_from f (n / 10)) ((b'0' + n % 10) ∷ []) 0 (n / 10) front,
          read_digit (n / 10) (n % 10) [] (omega arith) (omega arith),
        )
        (unfold read_digits in ap some (omega arith))
]

-- A positive number starts with a digit from 1 to 9.
decimal_from_head :
    (f n : ℕ)
    → n ≤ f
    → 1 ≤ n
    → (c : ℕ) × (cs : Bytes) × (decimal_from f n ≡ c ∷ cs) × (b'1' ≤ c) × (c ≤ b'9')
decimal_from_head zero n h l = absurd (omega arith)
decimal_from_head (suc f) n h l = elim (Bool-cases (ltb n 10)) [
  | inl small ↦ (b'0' + n, [], rw (decimal_from-suc f n, small), omega arith, ground arith)
  | inr big ↦
      let (c, cs, e, lo, hi) = decimal_from_head f (n / 10) (ground arith) (ground arith) in
      (c, cs ++ (b'0' + n % 10) ∷ [], rw (decimal_from-suc f n, big, e), lo, hi)
]

read_int_head :
    (c : ℕ) (cs : Bytes) → b'1' ≤ c → c ≤ b'9' → read_int (c ∷ cs) ≡ read_digits 0 (c ∷ cs)
unfolding read_int
read_int_head c cs lo hi = unfold equal in ground arith

pub read_int-decimal : (n : ℕ) → n < word → read_int (decimal n) ≡ some n
read_int-decimal zero h = unfold read_int decimal decimal_from equal in refl
read_int-decimal (suc n) h =
    let (c, cs, e, lo, hi) = decimal_from_head (suc n) (suc n) (omega arith) (omega arith) in
    let d : decimal (suc n) ≡ c ∷ cs = unfold decimal in e in
    rw d (
      read_int_head c cs lo hi
      ∙ ap (read_digits 0) (sym e)
      ∙ read_digits-decimal_from (suc n) (suc n) (omega arith) h)

read_digits_inv :
    (c : ℕ) (cs : Bytes) (w v : ℕ)
    → read_digits w (c ∷ cs) ≡ some v
    → (b'0' ≤ c)
      × (c ≤ b'9')
      × (w * 10 + (c - b'0') < word)
      × (read_digits (w * 10 + (c - b'0')) cs ≡ some v)
unfolding read_digits
read_digits_inv c cs w v e = ground arith

read_digits_sound :
    (ys : Bytes) (w v : ℕ)
    → 1 ≤ w
    → w < word
    → read_digits w ys ≡ some v
    → (decimal w ++ ys ≡ decimal v) × (v < word)
read_digits_sound [] w v h l e =
    let same : w ≡ v = unfold read_digits in ground arith in
    rw (append-nil, same) (refl, omega arith)
read_digits_sound (c ∷ cs) w v h l e =
    let (lo, hi, small, rest) = read_digits_inv c cs w v e in
    let d : ℕ = c - b'0' in
    let (whole, bound) = read_digits_sound cs (w * 10 + d) v (omega arith) small rest in
    let digit : b'0' + d ≡ c = omega arith in
    (
      ap (λ (k : ℕ). decimal w ++ k ∷ cs) (sym digit)
          ∙ sym (append_assoc (decimal w) ((b'0' + d) ∷ []) cs)
          ∙ ap (λ (z : Bytes). z ++ cs) (sym (decimal_push w d h (omega arith)))
          ∙ whole,
      bound,
    )

read_int_inv :
    (c : ℕ) (cs : Bytes) (v : ℕ)
    → read_int (c ∷ cs) ≡ some v
    → ((c ∷ cs ≡ codes "0") × (v ≡ 0))
      ⊎ ((b'1' ≤ c) × (c ≤ b'9') × (read_digits 0 (c ∷ cs) ≡ some v))
unfolding read_int
read_int_inv c cs v e = elim (Bool-cases (equal (c ∷ cs) (codes "0"))) [
  | inl zero_text ↦ inl ((equal_iff _ _).0 zero_text, ground arith)
  | inr other ↦ inr (ground arith, ground arith, ground arith)
]

read_int_sound : (s : Bytes) (v : ℕ) → read_int s ≡ some v → (s ≡ decimal v) × (v < word)
read_int_sound [] v e = absurd (unfold read_int in cc)
read_int_sound (c ∷ cs) v e = elim (read_int_inv c cs v e) [
  | inl (text, zero_value) ↦
      rw (text, zero_value) (unfold decimal decimal_from in refl, omega arith)
  | inr (lo, hi, digits) ↦
      let (_, _, small, rest) = read_digits_inv c cs 0 v digits in
      let d : ℕ = 0 * 10 + (c - b'0') in
      let (whole, bound) = read_digits_sound cs d v (omega arith) small rest in
      let digit : b'0' + d ≡ c = omega arith in
      (
        ap (λ (k : ℕ). k ∷ cs) (sym digit)
            ∙ ap (λ (z : Bytes). z ++ cs) (sym (decimal_digit d (omega arith)))
            ∙ whole,
        bound,
      )
]

-- `readInt` accepts a text with value `v` exactly when `v` fits the word and the text is the decimal
-- form of `v`: no sign, no leading zero, no blank, no overflow.
pub read_int_iff : (s : Bytes) (v : ℕ) → (read_int s ≡ some v) ↔ ((s ≡ decimal v) × (v < word))
read_int_iff s v = (read_int_sound s v, λ h. rw h.0 (read_int-decimal v h.1))
