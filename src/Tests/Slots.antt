-- ===== src/Tests/Slots.antt =====
-- A concrete pool for the runs of the table: one bit for each block.
use tiny_redis.Base.{
  ℕ, zero, suc, ◌+◌, ◌≤◌, Bool, true, false, Option, none, some, List, [], ◌∷◌, ◌≡◌, refl, sym, ap,
  ◌∙◌, arith, inl, inr, get_or, set, leb, ◌==◌, if◌then◌else◌, Bool-cases,
}
use tiny_redis.Table.Pool.{EntryPool, pool_capacity}

abbrev pub ones : List Bool → ℕ
ones [] = 0
ones (b ∷ bs) = (if b then 1 else 0) + ones bs

-- The lowest free block, and the bits with it taken.
unfoldable pub take_free : List Bool → ℕ × List Bool
take_free [] = (0, true ∷ [])
take_free (false ∷ bs) = (0, true ∷ bs)
take_free (true ∷ bs) = let (a, rest) = take_free bs in (suc a, true ∷ rest)

unfoldable pub allocate : List Bool → Option (ℕ × List Bool)
allocate bs = if leb pool_capacity (ones bs) then none else some (take_free bs)

empty_taken : (b : ℕ) → get_or (true ∷ []) b false ≡ (if 0 == b then true else false)
empty_taken zero = refl
empty_taken (suc b) = ground arith

first_taken :
    (bs : List Bool) (b : ℕ)
    → get_or (true ∷ bs) b false ≡ (if 0 == b then true else get_or (false ∷ bs) b false)
first_taken bs zero = refl
first_taken bs (suc b) = ground arith

later_taken :
    (bs s : List Bool) (a : ℕ)
    → ((b : ℕ) → get_or s b false ≡ (if a == b then true else get_or bs b false))
    → (b : ℕ)
    → get_or (true ∷ s) b false ≡ (if suc a == b then true else get_or (true ∷ bs) b false)
later_taken bs s a h zero = ground arith
later_taken bs s a h (suc b) = let r = h b in ground arith

pub take_free_lem :
    (bs : List Bool)
    → (get_or bs (take_free bs).0 false ≡ false)
      × (ones (take_free bs).1 ≡ ones bs + 1)
      × ((b : ℕ)
          → get_or (take_free bs).1 b false
            ≡ (if (take_free bs).0 == b then true else get_or bs b false))
unfolding take_free
take_free_lem [] = (refl, omega arith, empty_taken)
take_free_lem (false ∷ bs) = (refl, omega arith, first_taken bs)
take_free_lem (true ∷ bs) =
    let (fresh, n, rest) = take_free_lem bs in
    (fresh, omega (arith, n), later_taken bs (take_free bs).1 (take_free bs).0 rest)

pub free_lem :
    (bs : List Bool) (a b : ℕ)
    → get_or bs a false ≡ true
    → get_or (set bs a false) b false ≡ (if a == b then false else get_or bs b false)
free_lem [] a b l = absurd (let x : false ≡ true = l in cc)
free_lem (x ∷ bs) zero zero l = refl
free_lem (x ∷ bs) zero (suc b) l = ground arith
free_lem (x ∷ bs) (suc a) zero l = ground arith
free_lem (x ∷ bs) (suc a) (suc b) l = let rest = free_lem bs a b l in ground arith

pub ones-free :
    (bs : List Bool) (a : ℕ) → get_or bs a false ≡ true → ones (set bs a false) + 1 ≡ ones bs
ones-free [] a l = absurd (let x : false ≡ true = l in cc)
ones-free (x ∷ bs) zero l = ground arith
ones-free (x ∷ bs) (suc a) l = omega (arith, ones-free bs a l)

pub allocated :
    (bs : List Bool) (a : ℕ) (s : List Bool) → allocate bs ≡ some (a, s) → take_free bs ≡ (a, s)
unfolding allocate
allocated bs a s e = elim (Bool-cases (leb pool_capacity (ones bs))) [
  | inl full ↦ let x : Path (Option (ℕ × List Bool)) none (some (a, s)) = rw full at e in absurd cc
  | inr room ↦
      let x : Path (Option (ℕ × List Bool)) (some (take_free bs)) (some (a, s)) = rw room at e in cc
]

pub refused : (bs : List Bool) → allocate bs ≡ none → pool_capacity ≤ ones bs
unfolding allocate
refused bs e = elim (Bool-cases (leb pool_capacity (ones bs))) [
  | inl full ↦ ground arith
  | inr room ↦ let x : some (take_free bs) ≡ none = rw room at e in absurd cc
]

-- The bits obey the laws of the interface.
abbrev pub slots : EntryPool
slots = record {
  State = List Bool;
  empty = [];
  try_allocate = allocate;
  deallocate = λ s a. set s a false;
  live = λ s a. get_or s a false;
  used = ones;
  live-empty = λ a. refl;
  used-empty = refl;
  allocate_fresh = λ s a s' e.
      let q = allocated s a s' e in
      ap (λ (r : ℕ × List Bool). get_or s (r.0) false) (sym q) ∙ (take_free_lem s).0;
  live-allocate = λ s a s' b e.
      let q = allocated s a s' e in
      ap (λ (r : ℕ × List Bool). get_or (r.1) b false) (sym q)
      ∙ (take_free_lem s).2 b
      ∙ ap (λ (r : ℕ × List Bool). if r.0 == b then true else get_or s b false) q;
  used-allocate = λ s a s' e.
      let q = allocated s a s' e in
      ap (λ (r : ℕ × List Bool). ones (r.1)) (sym q) ∙ (take_free_lem s).1;
  allocate_full = refused;
  live-deallocate = free_lem;
  used-deallocate = ones-free;
}
