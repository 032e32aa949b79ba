-- ===== src/Store.antt =====
-- src/core/store.h and src/core/store.cpp: the table with deadlines, a cap on the keys and two
-- counters. An operation that reaches a failed assertion gives `none`. `now` is the machine's clock,
-- read by the caller.
pub mod Evict
pub mod Set
pub mod Expiry
pub mod Lookup
pub mod Find
pub mod Ttl
pub mod Timely
pub mod Cap
pub mod Deadline
use Prim.Native.Nat.{bit_xor}
use tiny_redis.Base.Bytes.{Bytes}
use tiny_redis.Base.Int.{ℤ, pos, negsuc, ltb_ℤ, ◌-ℤ◌}
use tiny_redis.Base.{
  ℕ, zero, suc, ◌+◌, ◌-◌, ◌*◌, ◌%◌, ◌^◌, max, Bool, true, false, ◌&&◌, ◌||◌, not, Option, none,
  some, List, [], ◌∷◌, length, get_or, ltb, leb, ◌==◌, if◌then◌else◌,
}
use tiny_redis.Bits.{word, next_cursor}
use tiny_redis.Entry.{Entry, eqb_ℤ, no_expiry, u32, expired}
use tiny_redis.Table.Pool.{EntryPool, pool_capacity}
use tiny_redis.Table.{
  Table, update, size as table_size, new as new_table, find as find_entry, insert, assign, remove,
  clear as clear_table, sample_some, scan_bucket,
}

-- `std::numeric_limits<std::int64_t>::max()`
abbrev pub max_int64 : ℕ
max_int64 = 2 ^ 63 - 1

abbrev pub max_passes : ℕ
max_passes = 16

abbrev pub keep_ttl : ℤ
keep_ttl = negsuc 1

pub data EvictionPolicy : Type 0 where
  no_eviction all_keys_lru : EvictionPolicy

pub record ExpireCycleResult : Type 0 where
  pub reaped : ℕ
  pub passes : ℕ

pub record Config : Type 0 where
  pub initial_buckets : ℕ
  pub max_keys : ℕ
  pub seed : ℕ
  pub lru_samples : ℕ
  pub policy : EvictionPolicy

pub record Store (p : EntryPool) : Type 0 where
  pub rng_state : ℕ
  pub max_keys : ℕ
  pub expire_cursor : ℕ
  pub evictions : ℕ
  pub expired_keys : ℕ
  pub lru_samples : ℕ
  pub table : Table p
  pub policy : EvictionPolicy

-- `static_cast<std::uint32_t>(now)`
unfoldable pub clock32 : ℤ → ℕ
clock32 (pos n) = n % u32
clock32 (negsuc n) = u32 - 1 - n % u32

-- `idle`: the difference of two clocks, which wraps.
unfoldable pub idle : Entry → ℤ → ℕ
unfolding clock32
idle e now = (clock32 now + (u32 - e.lru_clock)) % u32

unfoldable pub resolve_max_keys : ℕ → ℕ
resolve_max_keys n = if n == 0 then pool_capacity else n

-- `cfg.seed`, or what the random device gave in its place.
unfoldable pub resolve_seed : ℕ → ℕ → ℕ
resolve_seed seed random = if not (seed == 0) then seed else random

-- A write through an `Entry*`.
abbrev pub write : {p : EntryPool} → Table p → ℕ → Entry → Table p
write t a e = record t { cells = update t.cells a e }

module _ {p : EntryPool} where
  abbrev pub size : Store p → ℕ
  size s = table_size s.table

  -- The constructor that takes the seed; `memory` is the pool's memory before anything is written.
  unfoldable pub new : Config → ℕ → (ℕ → Entry) → Store p
  unfolding resolve_max_keys
  new cfg seed memory =
      let buckets =
        if cfg.max_keys == 0 then cfg.initial_buckets else max cfg.initial_buckets cfg.max_keys in
      record {
        rng_state = bit_xor 0x9e3779b97f4a7c15 seed;
        max_keys = resolve_max_keys cfg.max_keys;
        expire_cursor = 0;
        evictions = 0;
        expired_keys = 0;
        lru_samples = cfg.lru_samples;
        table = new_table buckets seed memory;
        policy = cfg.policy;
      }

  -- `table_.remove(e)`
  unfoldable pub drop_entry : Store p → ℕ → Option (Store p)
  drop_entry s a = elim (remove s.table a) [ none ↦ none | some t ↦ some (record s { table = t }) ]

  -- `table_.remove(e); ++expiredKeys_`
  unfoldable pub reap : Store p → ℕ → Option (Store p)
  unfolding drop_entry
  reap s a = elim (drop_entry s a) [
    | none ↦ none
    | some s' ↦ some (record s' { expired_keys = (s'.expired_keys + 1) % word })
  ]

  unfoldable pub lookup : Store p → Bytes → ℤ → Option (Option ℕ × Store p)
  unfolding reap
  lookup s k now = elim (find_entry s.table k) [
    | none ↦ some (none, s)
    | some a ↦ elim (expired (s.table.cells a) now) [
      | true ↦ elim (reap s a) [ none ↦ none | some s' ↦ some (none, s') ]
      | false ↦ some (some a, s)
    ]
  ]

  -- Sets the entry's access clock.
  unfoldable pub touch_entry : Store p → ℕ → ℤ → Store p
  unfolding clock32
  touch_entry s a now = record s {
    table = write s.table a (record (s.table.cells a) { lru_clock = clock32 now });
  }

  unfoldable pub find : Store p → Bytes → ℤ → Bool → Option (Option ℕ × Store p)
  unfolding lookup touch_entry
  find s k now touch = elim (lookup s k now) [
    | none ↦ none
    | some (none, s') ↦ some (none, s')
    | some (some a, s') ↦ some (some a, if touch then touch_entry s' a now else s')
  ]

  -- The deadline and the access clock of an entry that was just written.
  unfoldable pub stamp : Store p → ℕ → ℤ → ℤ → Store p
  unfolding clock32
  stamp s a expires now = record s {
    table =
        write s.table a
          (record (s.table.cells a) { expires_at_ms = expires; lru_clock = clock32 now });
  }

  unfoldable pub erase : Store p → Bytes → ℤ → Option (Bool × Store p)
  unfolding lookup drop_entry
  erase s k now = elim (lookup s k now) [
    | none ↦ none
    | some (none, s') ↦ some (false, s')
    | some (some a, s') ↦ elim (drop_entry s' a) [ none ↦ none | some s'' ↦ some (true, s'') ]
  ]

  -- `none` is also a failed assertion on a sentinel as the deadline of a key that is there.
  unfoldable pub set_expire_at : Store p → Bytes → ℤ → ℤ → Option (Bool × Store p)
  unfolding lookup drop_entry stamp
  set_expire_at s k expire_at now = elim (lookup s k now) [
    | none ↦ none
    | some (none, s') ↦ some (false, s')
    | some (some a, s') ↦ elim (eqb_ℤ expire_at keep_ttl || eqb_ℤ expire_at no_expiry) [
      | true ↦ none
      | false ↦ elim (ltb_ℤ expire_at now) [
        | true ↦ elim (drop_entry s' a) [ none ↦ none | some s'' ↦ some (true, s'') ]
        | false ↦ some (true, stamp s' a expire_at now)
      ]
    ]
  ]

  unfoldable pub ttl_ms : Store p → Bytes → ℤ → Option (ℤ × Store p)
  unfolding lookup
  ttl_ms s k now = elim (lookup s k now) [
    | none ↦ none
    | some (none, s') ↦ some (negsuc 1, s')
    | some (some a, s') ↦
        let at = (s'.table.cells a).expires_at_ms in
        some (if eqb_ℤ at no_expiry then no_expiry else at -ℤ now, s')
  ]

  unfoldable pub clear : Store p → Store p
  clear s = record s { table = clear_table s.table; expire_cursor = 0 }
