-- ===== src/Store/Evict.antt =====
-- src/core/store.cpp: `evictOne`. Its drawing loop runs on fuel, `fuel` draws at most, and `none` is
-- also a loop that has drawn nothing by then.
use tiny_redis.Base.Int.{ℤ}
use tiny_redis.Base.{
  ℕ, zero, suc, ◌+◌, ◌%◌, Bool, true, false, Option, none, some, List, [], ◌∷◌, ltb, ◌==◌,
  if◌then◌else◌,
}
use tiny_redis.Bits.{word}
use tiny_redis.Entry.{Entry, expired}
use tiny_redis.Table.Pool.{EntryPool}
use tiny_redis.Store.{Store, size, drop_entry, reap, idle}
use tiny_redis.Table.{Table, sample_some}

-- `toEvict == nullptr || idle(e, now) > idle(toEvict, now)`
unfoldable pub is_longer : (ℕ → Entry) → ℕ → ℤ → Option ℕ → Bool
unfolding idle
is_longer cells e now none = true
is_longer cells e now (some v) = ltb (idle (cells v) now) (idle (cells e) now)

module _ {p : EntryPool} where
  -- The loop that draws a sample: `fuel` draws at most. A failed loop is `none`.
  unfoldable pub draw_sample : ℕ → Table p → ℕ → ℕ → Option (List ℕ × ℕ)
  draw_sample zero t room rng = none
  draw_sample (suc fuel) t room rng =
      let (taken, rng') = sample_some t room rng in
      elim taken [ [] ↦ draw_sample fuel t room rng' | a ∷ rest ↦ some (a ∷ rest, rng') ]

  -- The loop over the sample: what is expired goes, and the longest idle of the rest is kept in mind.
  unfoldable pub pick_victim :
      ℤ → List ℕ → Store p → Bool → Option ℕ → Option (Store p × Bool × Option ℕ)
  unfolding reap is_longer
  pick_victim now [] s has_expired to_evict = some (s, has_expired, to_evict)
  pick_victim now (e ∷ es) s has_expired to_evict = elim (expired (s.table.cells e) now) [
    | true ↦ elim (reap s e) [ none ↦ none | some s' ↦ pick_victim now es s' true to_evict ]
    | false ↦
        pick_victim now es s has_expired
          (if is_longer s.table.cells e now to_evict then some e else to_evict)
  ]

  -- The end of `evictOne`: `none` is the null pointer handed to `remove`.
  unfoldable pub evict_victim : Store p → Bool → Option ℕ → Option (Store p)
  unfolding drop_entry
  evict_victim s true victim = some s
  evict_victim s false none = none
  evict_victim s false (some a) = elim (drop_entry s a) [
    | none ↦ none
    | some s' ↦ some (record s' { evictions = (s'.evictions + 1) % word })
  ]

  unfoldable pub evict_one : ℕ → Store p → ℤ → Option (Store p)
  unfolding draw_sample pick_victim evict_victim
  evict_one fuel s now = elim (size s == 0) [
    | true ↦ none
    | false ↦ elim (draw_sample fuel s.table s.lru_samples s.rng_state) [
      | none ↦ none
      | some (sample, rng) ↦
          elim (pick_victim now sample (record s { rng_state = rng }) false none) [
            | none ↦ none
            | some (s', has_expired, victim) ↦ evict_victim s' has_expired victim
          ]
    ]
  ]
