-- ===== src/Store/Set.antt =====
-- src/core/store.cpp: `set`. The fuel is that of the eviction.
pub mod Writes
pub mod Outcome
use tiny_redis.Base.Bytes.{Bytes}
use tiny_redis.Base.Int.{ℤ, ltb_ℤ}
use tiny_redis.Base.{ℕ, Bool, true, false, ◌&&◌, not, Option, none, some, leb, if◌then◌else◌}
use tiny_redis.Entry.{eqb_ℤ, no_expiry}
use tiny_redis.Table.Pool.{EntryPool}
use tiny_redis.Store.Evict.{evict_one}
use tiny_redis.Store.{Store, no_eviction, all_keys_lru, size, drop_entry, lookup, stamp, keep_ttl}
use tiny_redis.Table.{insert, assign}

-- Past its deadline: neither sentinel, and before `now`.
unfoldable pub is_past : ℤ → ℤ → Bool
is_past expire_at now =
    not (eqb_ℤ expire_at no_expiry) && (not (eqb_ℤ expire_at keep_ttl) && ltb_ℤ expire_at now)

module _ {p : EntryPool} where
  unfoldable pub overwrite : Store p → ℕ → Bytes → ℤ → ℤ → Store p
  unfolding stamp
  overwrite s a v expire_at now =
      let s' = record s { table = assign s.table a v } in
      stamp s' a (if eqb_ℤ keep_ttl expire_at then (s'.table.cells a).expires_at_ms else expire_at)
        now

  -- The insertion at the end of `set`; `none` is the failed assertion on a full pool, or in `insert`.
  unfoldable pub insert_new : Store p → Bytes → Bytes → ℤ → ℤ → Option (Bool × Store p)
  unfolding stamp
  insert_new s k v expire_at now = elim (insert s.table k v) [
    | none ↦ none
    | some (none, t) ↦ none
    | some (some a, t) ↦ some (
      true,
      stamp (record s { table = t }) a (if eqb_ℤ expire_at keep_ttl then no_expiry else expire_at)
          now,
    )
  ]

  -- The cap: `none` refuses, `some` goes on with the store that has room.
  unfoldable pub set_new : ℕ → Store p → Bytes → Bytes → ℤ → ℤ → Option (Bool × Store p)
  unfolding evict_one insert_new
  set_new fuel s k v expire_at now = elim (leb s.max_keys (size s)) [
    | false ↦ insert_new s k v expire_at now
    | true ↦ elim s.policy [
      | no_eviction ↦ some (false, s)
      | all_keys_lru ↦ elim (evict_one fuel s now) [
        | none ↦ none
        | some s' ↦ insert_new s' k v expire_at now
      ]
    ]
  ]

  unfoldable pub set : ℕ → Store p → Bytes → Bytes → ℤ → ℤ → Option (Bool × Store p)
  unfolding lookup drop_entry overwrite set_new is_past
  set fuel s k v expire_at now = elim (lookup s k now) [
    | none ↦ none
    | some (found, s') ↦ elim (is_past expire_at now) [
      | true ↦ elim found [
        | none ↦ some (true, s')
        | some a ↦ elim (drop_entry s' a) [ none ↦ none | some s'' ↦ some (true, s'') ]
      ]
      | false ↦ elim found [
        | none ↦ set_new fuel s' k v expire_at now
        | some a ↦ some (true, overwrite s' a v expire_at now)
      ]
    ]
  ]
