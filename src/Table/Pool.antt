-- ===== src/Table/Pool.antt =====
-- The interface of the pool allocator, a third-party header: a fixed number of blocks, handed out and
-- given back. `live` says which blocks are handed out, `used` how many.
use tiny_redis.Base.{
  ℕ, ◌+◌, ◌^◌, ◌≤◌, Bool, true, false, Option, none, some, ◌≡◌, ◌==◌, if◌then◌else◌,
}

-- `TINYREDIS_POOL_CAPACITY`, unless the build sets another.
abbrev pub pool_capacity : ℕ
pool_capacity = 2 ^ 18

pub record EntryPool : Type 1 where
  pub State : Type 0
  pub empty : State
  pub try_allocate : State → Option (ℕ × State)
  pub deallocate : State → ℕ → State
  pub live : State → ℕ → Bool
  pub used : State → ℕ
  pub live-empty : (a : ℕ) → live empty a ≡ false
  pub used-empty : used empty ≡ 0
  -- A block that is handed out was free, and is the only one whose status changes.
  pub allocate_fresh :
      (s : State) (a : ℕ) (s' : State) → try_allocate s ≡ some (a, s') → live s a ≡ false
  pub live-allocate :
      (s : State) (a : ℕ) (s' : State) (b : ℕ)
      → try_allocate s ≡ some (a, s')
      → live s' b ≡ (if a == b then true else live s b)
  pub used-allocate :
      (s : State) (a : ℕ) (s' : State) → try_allocate s ≡ some (a, s') → used s' ≡ used s + 1
  -- Only an exhausted pool refuses.
  pub allocate_full : (s : State) → try_allocate s ≡ none → pool_capacity ≤ used s
  pub live-deallocate :
      (s : State) (a b : ℕ)
      → live s a ≡ true
      → live (deallocate s a) b ≡ (if a == b then false else live s b)
  pub used-deallocate : (s : State) (a : ℕ) → live s a ≡ true → used (deallocate s a) + 1 ≡ used s
