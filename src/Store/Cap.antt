-- ===== src/Store/Cap.antt =====
-- What is asked of a store that the commands work on, and what its operations keep of that.
pub mod Kept
pub mod Rounding
use tiny_redis.Base.{ℕ, ◌≤◌, Option, none, some, ◌≡◌, ◌∙◌, arith}
use tiny_redis.Store.Timely.{IsTimely, TimelyAnswer}
use tiny_redis.Store.{Store, no_eviction}
use tiny_redis.Table.Invariant.{IsValid}
use tiny_redis.Table.Pool.{EntryPool, pool_capacity}

module _ {p : EntryPool} where
  -- A store that the commands of a client work on: its table is valid, it refuses new keys at its cap,
  -- the pool has room for as many, and the deadlines are 64-bit integers.
  pub record IsReady (s : Store p) : Type 0 where
    pub valid : IsValid s.table
    pub no_evict : s.policy ≡ no_eviction
    pub fits : s.max_keys ≤ pool_capacity
    pub timely : IsTimely s.table.cells

  abbrev pub SameCap : Store p → Store p → Type 0
  SameCap s s' =
      (s'.policy ≡ s.policy)
      × (s'.max_keys ≡ s.max_keys)
      × (IsTimely s.table.cells → IsTimely s'.table.cells)

  -- The policy and the cap alone.
  abbrev pub KeepsSettings {ℓ} : {A : Type ℓ} → Store p → Option (A × Store p) → Type 0
  KeepsSettings s none = Unit
  KeepsSettings s (some (r, s')) = (s'.policy ≡ s.policy) × (s'.max_keys ≡ s.max_keys)

  -- The same for an operation that may fail, and returns something besides the store.
  abbrev pub KeepsCap {ℓ} : {A : Type ℓ} → Store p → Option (A × Store p) → Type 0
  KeepsCap s none = Unit
  KeepsCap s (some (r, s')) = SameCap s s'

  pub ready : {s s' : Store p} → IsReady s → SameCap s s' → IsValid s'.table → IsReady s'
  ready h (policy, cap, timely) v = record {
    valid = v;
    no_evict = policy ∙ h.no_evict;
    fits = omega (arith, cap, h.fits);
    timely = timely h.timely;
  }

  pub KeepsCap-trans {ℓ} :
      {A : Type ℓ} (s s' : Store p) (o : Option (A × Store p))
      → SameCap s s'
      → KeepsCap s' o
      → KeepsCap s o
  KeepsCap-trans s s' none h k = tt
  KeepsCap-trans s s' (some (r, t)) (policy, cap, timely) (policy', cap', timely') =
      (policy' ∙ policy, cap' ∙ cap, λ h. timely' (timely h))

  pub settings-KeepsCap {ℓ} :
      {A : Type ℓ} (s : Store p) (o : Option (A × Store p))
      → KeepsSettings s o
      → (IsTimely s.table.cells → TimelyAnswer o)
      → KeepsCap s o
  settings-KeepsCap s none h k = tt
  settings-KeepsCap s (some (r, s')) (policy, cap) k = (policy, cap, k)
