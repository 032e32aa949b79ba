-- ===== src/Table/Chains.antt =====
-- Blocks in chains: how often a block stands in a chain, and how many entries the buckets hold.
use tiny_redis.Base.Bit.{bit_and-le}
use tiny_redis.Base.Bytes.{Bytes, equal}
use tiny_redis.Base.{
  ℕ, zero, suc, ◌+◌, ◌-◌, ◌≤◌, ◌<◌, Bool, true, false, ◌&&◌, none, some, List, [], ◌∷◌, ◌≡◌, ◌≢◌,
  refl, ap, arith, inl, inr, length, get_or, set, replicate, ◌==◌, if◌then◌else◌, Bool-cases,
}
use tiny_redis.Entry.{Entry, key}
use tiny_redis.Table.{slot, find_in, unlink}

abbrev pub count : ℕ → List ℕ → ℕ
count a [] = 0
count a (x ∷ xs) = (if x == a then 1 else 0) + count a xs

abbrev pub total : List (List ℕ) → ℕ
total [] = 0
total (c ∷ cs) = length c + total cs

pub count-le : (a : ℕ) (c : List ℕ) → count a c ≤ length c
count-le a [] = omega arith
count-le a (x ∷ xs) = let rest = count-le a xs in ground arith

pub slot-lt : (n h : ℕ) → 0 < n → slot n h < n
unfolding slot
slot-lt n h l = omega (arith, bit_and-le h (n - 1))

module _ {ℓ} {A : Type ℓ} where
  pub get_or-set_self :
      (xs : List A) (i : ℕ) (v d : A) → i < length xs → get_or (set xs i v) i d ≡ v
  get_or-set_self [] i v d h = absurd (omega arith)
  get_or-set_self (x ∷ xs) zero v d h = refl
  get_or-set_self (x ∷ xs) (suc i) v d h = get_or-set_self xs i v d (omega arith)

  pub get_or-set_ne :
      (xs : List A) (i j : ℕ) (v d : A) → i ≢ j → get_or (set xs i v) j d ≡ get_or xs j d
  get_or-set_ne [] i j v d h = refl
  get_or-set_ne (x ∷ xs) zero zero v d h = absurd (h refl)
  get_or-set_ne (x ∷ xs) zero (suc j) v d h = refl
  get_or-set_ne (x ∷ xs) (suc i) zero v d h = refl
  get_or-set_ne (x ∷ xs) (suc i) (suc j) v d h = get_or-set_ne xs i j v d (λ e. h (ap suc e))

  pub get_or-replicate : (n i : ℕ) (d : A) → get_or (replicate n d) i d ≡ d
  get_or-replicate zero i d = refl
  get_or-replicate (suc n) zero d = refl
  get_or-replicate (suc n) (suc i) d = get_or-replicate n i d

-- A bucket after another one, or itself, was replaced.
pub count-set :
    (a i j : ℕ) (bs : List (List ℕ)) (c : List ℕ)
    → i < length bs
    → count a (get_or (set bs i c) j []) ≡ (if i == j then count a c else count a (get_or bs j []))
count-set a i j bs c h = elim (Bool-cases (i == j)) [
  | inl same ↦
      let e : i ≡ j = ground arith in rw (same, ← e) (ap (count a) (get_or-set_self bs i c [] h))
  | inr other ↦ rw other (ap (count a) (get_or-set_ne bs i j c [] (ground arith)))
]

pub total-set :
    (bs : List (List ℕ)) (i : ℕ) (c : List ℕ)
    → i < length bs
    → total (set bs i c) + length (get_or bs i []) ≡ total bs + length c
total-set [] i c h = absurd (omega arith)
total-set (x ∷ bs) zero c h = omega arith
total-set (x ∷ bs) (suc i) c h = omega (arith, total-set bs i c (omega arith))

pub total-replicate : (n : ℕ) → total (replicate n []) ≡ 0
total-replicate zero = refl
total-replicate (suc n) = omega (arith, total-replicate n)

unlink_here : (a : ℕ) (xs : List ℕ) → unlink a (a ∷ xs) ≡ some xs
unfolding unlink
unlink_here a xs = let e : (a == a) ≡ true = ground arith in rw e

unlink_later :
    (a x : ℕ) (xs ys : List ℕ)
    → (x == a) ≡ false
    → unlink a xs ≡ some ys
    → unlink a (x ∷ xs) ≡ some (x ∷ ys)
unfolding unlink
unlink_later a x xs ys e run = rw (e, run)

-- A block that stands in a chain is taken out of it, once.
pub unlink_lem :
    (a : ℕ) (c : List ℕ)
    → 0 < count a c
    → (c' : List ℕ) × (unlink a c ≡ some c')
      × (length c' + 1 ≡ length c)
      × ((b : ℕ) → count b c' + (if a == b then 1 else 0) ≡ count b c)
unlink_lem a [] h = absurd (omega arith)
unlink_lem a (x ∷ xs) h = elim (Bool-cases (x == a)) [
  | inl here ↦
      let e : x ≡ a = ground arith in rw e (xs, unlink_here a xs, omega arith, λ b. omega arith)
  | inr later ↦
      let (ys, run, len, counts) = unlink_lem a xs (ground arith) in
      (x ∷ ys, unlink_later a x xs ys later run, omega arith, λ b. omega (arith, counts b))
]

module _ (cells : ℕ → Entry) (h : ℕ) (k : Bytes) where
  -- The test of `find` on an entry.
  abbrev pub matches : ℕ → Bool
  matches e = (cells e).hash == h && ((cells e).key_len == length k && equal (key (cells e)) k)

  pub find_in-some :
      (c : List ℕ) (a : ℕ) → find_in cells h k c ≡ some a → (0 < count a c) × (matches a ≡ true)
  unfolding find_in
  find_in-some [] a e = cc
  find_in-some (x ∷ xs) a e = elim (Bool-cases (matches x)) [
    | inl hit ↦
        let same : some x ≡ some a = rw hit at e in
        let e' : x ≡ a = cc in (ground arith, rw (← e') hit)
    | inr miss ↦ let (low, m) = find_in-some xs a (rw miss at e) in (omega arith, m)
  ]

  pub find_in-none :
      (c : List ℕ) (a : ℕ) → find_in cells h k c ≡ none → 0 < count a c → matches a ≡ false
  unfolding find_in
  find_in-none [] a e low = absurd (omega arith)
  find_in-none (x ∷ xs) a e low = elim (Bool-cases (matches x)) [
    | inl hit ↦ absurd (let e' : some x ≡ none = rw hit at e in cc)
    | inr miss ↦ elim (Bool-cases (x == a)) [
      | inl same ↦ let e' : x ≡ a = ground arith in rw (← e') miss
      | inr other ↦ find_in-none xs a (rw miss at e) (ground arith)
    ]
  ]
