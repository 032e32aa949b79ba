-- ===== src/Store/Cap/Kept.antt =====
-- The policy, the cap and the range of the deadlines, through each operation of the store.
use tiny_redis.Base.Bytes.{Bytes}
use tiny_redis.Base.Int.{ℤ, negsuc, ltb_ℤ, ◌-ℤ◌}
use tiny_redis.Base.{
  ℕ, Bool, true, false, ◌||◌, Option, none, some, ◌≡◌, ◌∙◌, refl, arith, leb, if◌then◌else◌,
}
use tiny_redis.Entry.{eqb_ℤ, no_expiry}
use tiny_redis.Store.Cap.{SameCap, KeepsSettings, KeepsCap, settings-KeepsCap}
use tiny_redis.Store.Set.{is_past, set, set_new, overwrite, insert_new}
use tiny_redis.Store.Timely.{
  IsTimely, IsInt64, TimelyAnswer, drop_entry-TimelyStore, stamp-IsTimely, touch_entry-IsTimely,
  lookup-Timely, dropped-Timely, overwrite-IsTimely, insert_new-Timely,
}
use tiny_redis.Store.{
  Store, EvictionPolicy, no_eviction, all_keys_lru, drop_entry, reap, stamp, touch_entry, keep_ttl,
  lookup, find, erase, set_expire_at, ttl_ms, clear, size,
}
use tiny_redis.Store.Evict.{evict_one}
use tiny_redis.Table.Pool.{EntryPool}
use tiny_redis.Table.{clear as clear_table}

module _ {p : EntryPool} where
  lookup-KeepsSettings : (s : Store p) (k : Bytes) (now : ℤ) → KeepsSettings s (lookup s k now)
  unfolding lookup reap drop_entry
  lookup-KeepsSettings s k now = ground arith

  find-KeepsSettings :
      (s : Store p) (k : Bytes) (now : ℤ) (touch : Bool) → KeepsSettings s (find s k now touch)
  unfolding find
  find-KeepsSettings s k now touch = ground (arith, lookup-KeepsSettings s k now)

  find-Timely :
      (s : Store p) (k : Bytes) (now : ℤ) (touch : Bool)
      → IsTimely s.table.cells
      → TimelyAnswer (find s k now touch)
  unfolding find
  find-Timely s k now touch h = on (lookup s k now) (lookup-Timely s k now h)
    where
      touched :
          (b : Bool) (s' : Store p) (a : ℕ)
          → IsTimely s'.table.cells
          → IsTimely (if b then touch_entry s' a now else s').table.cells
      touched true s' a k' = touch_entry-IsTimely s' a now k'
      touched false s' a k' = k'

      on :
          (o : Option (Option ℕ × Store p))
          → TimelyAnswer o
          → TimelyAnswer (elim o as (λ _. Option (Option ℕ × Store p)) [
            | none ↦ none
            | some (none, s') ↦ some (none, s')
            | some (some a, s') ↦ some (some a, if touch then touch_entry s' a now else s')
          ])
      on none k' = tt
      on (some (none, s')) k' = k'
      on (some (some a, s')) k' = touched touch s' a k'

  pub find-KeepsCap :
      (s : Store p) (k : Bytes) (now : ℤ) (touch : Bool) → KeepsCap s (find s k now touch)
  find-KeepsCap s k now touch =
      settings-KeepsCap s _ (find-KeepsSettings s k now touch) (find-Timely s k now touch)

  erase-KeepsSettings : (s : Store p) (k : Bytes) (now : ℤ) → KeepsSettings s (erase s k now)
  unfolding erase drop_entry
  erase-KeepsSettings s k now = ground (arith, lookup-KeepsSettings s k now)

  erase-Timely :
      (s : Store p) (k : Bytes) (now : ℤ) → IsTimely s.table.cells → TimelyAnswer (erase s k now)
  unfolding erase
  erase-Timely s k now h = on (lookup s k now) (lookup-Timely s k now h)
    where
      on :
          (o : Option (Option ℕ × Store p))
          → TimelyAnswer o
          → TimelyAnswer (elim o as (λ _. Option (Bool × Store p)) [
            | none ↦ none
            | some (none, s') ↦ some (false, s')
            | some (some a, s') ↦ elim (drop_entry s' a) [
              | none ↦ none
              | some s'' ↦ some (true, s'')
            ]
          ])
      on none k' = tt
      on (some (none, s')) k' = k'
      on (some (some a, s')) k' = dropped-Timely (drop_entry s' a) (drop_entry-TimelyStore s' a k')

  pub erase-KeepsCap : (s : Store p) (k : Bytes) (now : ℤ) → KeepsCap s (erase s k now)
  erase-KeepsCap s k now =
      settings-KeepsCap s _ (erase-KeepsSettings s k now) (erase-Timely s k now)

  set_expire_at-KeepsSettings :
      (s : Store p) (k : Bytes) (at now : ℤ) → KeepsSettings s (set_expire_at s k at now)
  unfolding set_expire_at drop_entry
  set_expire_at-KeepsSettings s k at now = ground (arith, lookup-KeepsSettings s k now)

  set_expire_at-Timely :
      (s : Store p) (k : Bytes) (at now : ℤ)
      → IsInt64 at
      → IsTimely s.table.cells
      → TimelyAnswer (set_expire_at s k at now)
  unfolding set_expire_at
  set_expire_at-Timely s k at now fits h = on (lookup s k now) (lookup-Timely s k now h)
    where
      stamps :
          (b c : Bool) (s' : Store p) (a : ℕ)
          → IsTimely s'.table.cells
          → TimelyAnswer (elim b as (λ _. Option (Bool × Store p)) [
            | true ↦ none
            | false ↦ elim c [
              | true ↦ elim (drop_entry s' a) [ none ↦ none | some s'' ↦ some (true, s'') ]
              | false ↦ some (true, stamp s' a at now)
            ]
          ])
      stamps true c s' a k' = tt
      stamps false true s' a k' = dropped-Timely (drop_entry s' a) (drop_entry-TimelyStore s' a k')
      stamps false false s' a k' = stamp-IsTimely s' a at now k' fits

      on :
          (o : Option (Option ℕ × Store p))
          → TimelyAnswer o
          → TimelyAnswer (elim o as (λ _. Option (Bool × Store p)) [
            | none ↦ none
            | some (none, s') ↦ some (false, s')
            | some (some a, s') ↦ elim (eqb_ℤ at keep_ttl || eqb_ℤ at no_expiry) [
              | true ↦ none
              | false ↦ elim (ltb_ℤ at now) [
                | true ↦ elim (drop_entry s' a) [ none ↦ none | some s'' ↦ some (true, s'') ]
                | false ↦ some (true, stamp s' a at now)
              ]
            ]
          ])
      on none k' = tt
      on (some (none, s')) k' = k'
      on (some (some a, s')) k' =
          stamps (eqb_ℤ at keep_ttl || eqb_ℤ at no_expiry) (ltb_ℤ at now) s' a k'

  pub set_expire_at-KeepsCap :
      (s : Store p) (k : Bytes) (at now : ℤ) → IsInt64 at → KeepsCap s (set_expire_at s k at now)
  set_expire_at-KeepsCap s k at now fits =
      settings-KeepsCap s _ (set_expire_at-KeepsSettings s k at now)
        (set_expire_at-Timely s k at now fits)

  ttl_ms-KeepsSettings : (s : Store p) (k : Bytes) (now : ℤ) → KeepsSettings s (ttl_ms s k now)
  unfolding ttl_ms
  ttl_ms-KeepsSettings s k now = ground (arith, lookup-KeepsSettings s k now)

  ttl_ms-Timely :
      (s : Store p) (k : Bytes) (now : ℤ) → IsTimely s.table.cells → TimelyAnswer (ttl_ms s k now)
  unfolding ttl_ms
  ttl_ms-Timely s k now h = on (lookup s k now) (lookup-Timely s k now h)
    where
      on :
          (o : Option (Option ℕ × Store p))
          → TimelyAnswer o
          → TimelyAnswer (elim o as (λ _. Option (ℤ × Store p)) [
            | none ↦ none
            | some (none, s') ↦ some (negsuc 1, s')
            | some (some a, s') ↦
                let at = (s'.table.cells a).expires_at_ms in
                some (if eqb_ℤ at no_expiry then no_expiry else at -ℤ now, s')
          ])
      on none k' = tt
      on (some (none, s')) k' = k'
      on (some (some a, s')) k' = k'

  pub ttl_ms-KeepsCap : (s : Store p) (k : Bytes) (now : ℤ) → KeepsCap s (ttl_ms s k now)
  ttl_ms-KeepsCap s k now =
      settings-KeepsCap s _ (ttl_ms-KeepsSettings s k now) (ttl_ms-Timely s k now)

  pub clear-SameCap : (s : Store p) → SameCap s (clear s)
  unfolding clear clear_table
  clear-SameCap s = (refl, refl, λ h. h)

  set-KeepsSettings :
      (fuel : ℕ) (s : Store p) (k w : Bytes) (at now : ℤ)
      → s.policy ≡ no_eviction
      → KeepsSettings s (set fuel s k w at now)
  unfolding set set_new overwrite insert_new stamp drop_entry
  set-KeepsSettings fuel s k w at now h = ground (arith, lookup-KeepsSettings s k now)

  set_new-Timely :
      (fuel : ℕ) (s : Store p) (k w : Bytes) (at now : ℤ)
      → IsInt64 at
      → s.policy ≡ no_eviction
      → IsTimely s.table.cells
      → TimelyAnswer (set_new fuel s k w at now)
  unfolding set_new
  set_new-Timely fuel s k w at now fits policy h = on (leb s.max_keys (size s)) s.policy policy
    where
      on :
          (b : Bool) (e : EvictionPolicy)
          → e ≡ no_eviction
          → TimelyAnswer (elim b as (λ _. Option (Bool × Store p)) [
            | false ↦ insert_new s k w at now
            | true ↦ elim e [
              | no_eviction ↦ some (false, s)
              | all_keys_lru ↦ elim (evict_one fuel s now) [
                | none ↦ none
                | some s' ↦ insert_new s' k w at now
              ]
            ]
          ])
      on false e q = insert_new-Timely s k w at now h fits
      on true no_eviction q = h
      on true all_keys_lru q = absurd (let x = q in cc)

  -- The rest of `set`, behind `lookup`.
  set-Timely :
      (fuel : ℕ) (s : Store p) (k w : Bytes) (at now : ℤ)
      → IsInt64 at
      → s.policy ≡ no_eviction
      → IsTimely s.table.cells
      → TimelyAnswer (set fuel s k w at now)
  unfolding set
  set-Timely fuel s k w at now fits policy h =
      on (lookup s k now) (lookup-Timely s k now h) (lookup-KeepsSettings s k now)
    where
      rest :
          (b : Bool) (found : Option ℕ) (s' : Store p)
          → IsTimely s'.table.cells
          → s'.policy ≡ no_eviction
          → TimelyAnswer (elim b as (λ _. Option (Bool × Store p)) [
            | true ↦ elim found [
              | none ↦ some (true, s')
              | some a ↦ elim (drop_entry s' a) [ none ↦ none | some s'' ↦ some (true, s'') ]
            ]
            | false ↦ elim found [
              | none ↦ set_new fuel s' k w at now
              | some a ↦ some (true, overwrite s' a w at now)
            ]
          ])
      rest true none s' k' q = k'
      rest true (some a) s' k' q = dropped-Timely (drop_entry s' a) (drop_entry-TimelyStore s' a k')
      rest false none s' k' q = set_new-Timely fuel s' k w at now fits q k'
      rest false (some a) s' k' q = overwrite-IsTimely s' a w at now k' fits

      on :
          (o : Option (Option ℕ × Store p))
          → TimelyAnswer o
          → KeepsSettings s o
          → TimelyAnswer (elim o as (λ _. Option (Bool × Store p)) [
            | none ↦ none
            | some (found, s') ↦ elim (is_past at now) [
              | true ↦ elim found [
                | none ↦ some (true, s')
                | some a ↦ elim (drop_entry s' a) [ none ↦ none | some s'' ↦ some (true, s'') ]
              ]
              | false ↦ elim found [
                | none ↦ set_new fuel s' k w at now
                | some a ↦ some (true, overwrite s' a w at now)
              ]
            ]
          ])
      on none k' same = tt
      on (some (found, s')) k' (same, _) = rest (is_past at now) found s' k' (same ∙ policy)

  pub set-KeepsCap :
      (fuel : ℕ) (s : Store p) (k w : Bytes) (at now : ℤ)
      → s.policy ≡ no_eviction
      → IsInt64 at
      → KeepsCap s (set fuel s k w at now)
  set-KeepsCap fuel s k w at now h fits =
      settings-KeepsCap s _ (set-KeepsSettings fuel s k w at now h)
        (set-Timely fuel s k w at now fits h)
