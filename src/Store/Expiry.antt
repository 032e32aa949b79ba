-- ===== src/Store/Expiry.antt =====
-- src/core/store.cpp: `activeExpireCycle`. Its loops have bounds of their own, which are the fuel.
pub mod Cycle
use tiny_redis.Base.Int.{ℤ}
use tiny_redis.Base.{
  ℕ, zero, suc, ◌+◌, ◌*◌, ◌%◌, Bool, true, false, ◌||◌, Option, none, some, ltb, leb,
}
use tiny_redis.Bits.{word}
use tiny_redis.Entry.{expired}
use tiny_redis.Table.Pool.{EntryPool}
use tiny_redis.Store.{Store, max_passes, ExpireCycleResult}
use tiny_redis.Table.{Table, remove, scan_bucket}

-- The local variables of a pass of the expiry cycle, with the table that it works on.
pub record Pass (p : EntryPool) : Type 0 where
  pub table : Table p
  pub sampled : ℕ
  pub expired_count : ℕ

module _ {p : EntryPool} where
  -- `expireVisitor`
  unfoldable pub expire_visitor : ℤ → ℕ → Pass p → Option (Pass p)
  expire_visitor now a s =
      let seen : Pass p = record s { sampled = s.sampled + 1 } in
      elim (expired (s.table.cells a) now) [
        | false ↦ some seen
        | true ↦ elim (remove s.table a) [
          | none ↦ none
          | some t ↦ some (record seen { table = t; expired_count = s.expired_count + 1 })
        ]
      ]

  -- The loop over the buckets, `left` of them at most: whether the cursor wrapped, and where it stands.
  unfoldable pub expire_pass : ℕ → ℕ → ℤ → ℕ → Pass p → Option (Bool × ℕ × Pass p)
  unfolding expire_visitor
  expire_pass zero limit now cursor s = some (false, cursor, s)
  expire_pass (suc left) limit now cursor s = elim (ltb s.sampled limit) [
    | false ↦ some (false, cursor, s)
    | true ↦ elim (scan_bucket s.table cursor (expire_visitor now) s) [
      | none ↦ none
      | some (zero, s') ↦ some (true, 0, s')
      | some (suc c, s') ↦ expire_pass left limit now (suc c) s'
    ]
  ]

  -- The loop over the passes, `left` of them at most.
  unfoldable pub expire_passes :
      ℕ → ℕ → ℤ → ExpireCycleResult → Store p → Option (ExpireCycleResult × Store p)
  unfolding expire_pass
  expire_passes zero limit now r s = some (r, s)
  expire_passes (suc left) limit now r s =
      let start : Pass p = record { table = s.table; sampled = 0; expired_count = 0 } in
      elim (expire_pass (limit * 20 % word) limit now s.expire_cursor start) [
        | none ↦ none
        | some (wrapped, cursor, pass) ↦
            let s' : Store p = record s {
              table = pass.table;
              expire_cursor = cursor;
              expired_keys = (s.expired_keys + pass.expired_count) % word;
            } in
            let r' : ExpireCycleResult = record {
              reaped = r.reaped + pass.expired_count;
              passes = r.passes + 1;
            } in
            elim (wrapped || leb (pass.expired_count * 10) pass.sampled) [
              | true ↦ some (r', s')
              | false ↦ expire_passes left limit now r' s'
            ]
      ]

  unfoldable pub active_expire_cycle : Store p → ℤ → ℕ → Option (ExpireCycleResult × Store p)
  unfolding expire_passes
  active_expire_cycle s now sample_limit =
      expire_passes max_passes sample_limit now (record { reaped = 0; passes = 0 }) s
