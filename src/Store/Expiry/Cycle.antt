-- ===== src/Store/Expiry/Cycle.antt =====
-- `activeExpireCycle` against what can be seen.
use tiny_redis.Base.Bytes.{Bytes}
use tiny_redis.Base.Int.{ℤ}
use tiny_redis.Base.{ℕ, ◌+◌, ◌≤◌, ◌<◌, true, Option, some, List, ◌≡◌}
use tiny_redis.Store.Expiry.{Pass}
use tiny_redis.Store.Lookup.{fresh_at, visible}
use tiny_redis.Store.Cap.{SameCap}
use tiny_redis.Store.Timely.{IsTimely}
use tiny_redis.Store.{Store, ExpireCycleResult}
use tiny_redis.Table.Chains.{count}
use tiny_redis.Table.Invariant.{IsValid}
use tiny_redis.Table.Pool.{EntryPool}
use tiny_redis.Table.View.{look}
use tiny_redis.Table.{Table, size}

module _ {p : EntryPool} (now : ℤ) where
  -- A pass on a table goes on: the table is valid, the same can be seen, and what is gone is counted.
  record IsUnseen (s s' : Pass p) : Type 0 where
    valid : IsValid s'.table
    same : (j : Bytes) → look (fresh_at now) s'.table j ≡ look (fresh_at now) s.table j
    tally : size s'.table + s'.expired_count ≡ size s.table + s.expired_count
    in_time : IsTimely s.table.cells → IsTimely s'.table.cells

  -- The blocks of a chain, each once, are all handed out.
  record IsChain (t : Table p) (chain : List ℕ) : Type 0 where
    once : (b : ℕ) → count b chain ≤ 1
    alive : (b : ℕ) → 0 < count b chain → p.live t.pool b ≡ true

  -- What the cycle, or the rest of it, does to a store.
  abbrev Swept : ExpireCycleResult → Store p → Option (ExpireCycleResult × Store p) → Type 0
  Swept r s o =
      (r' : ExpireCycleResult) × (s' : Store p) × (o ≡ some (r', s'))
      × IsValid s'.table
      × ((j : Bytes) → visible s' now j ≡ visible s now j)
      × SameCap s s'
      × (size s'.table + r'.reaped ≡ size s.table + r.reaped)
