-- ===== src/Store/Timely.antt =====
-- The deadlines of the entries, against the range of `std::int64_t`, the type of the field.
use tiny_redis.Base.Bytes.{Bytes}
use tiny_redis.Base.Int.{ℤ, pos, ltb_ℤ}
use tiny_redis.Base.{
  ℕ, ◌+◌, ◌%◌, Bool, true, false, Option, none, some, ◌≡◌, refl, arith, if◌then◌else◌,
}
use tiny_redis.Bits.{word}
use tiny_redis.Entry.{Entry, no_expiry, eqb_ℤ, expired}
use tiny_redis.Store.Set.{overwrite, insert_new}
use tiny_redis.Store.{Store, drop_entry, reap, stamp, touch_entry, lookup, keep_ttl, max_int64}
use tiny_redis.Table.Cell.{new_entry, assign_entry}
use tiny_redis.Table.Pool.{EntryPool}
use tiny_redis.Table.{
  Table, update, rehash, maybe_grow, link_new, insert, find as find_entry, assign, remove,
}

abbrev pub IsInt64 : ℤ → Type 0
IsInt64 at = ltb_ℤ (pos max_int64) at ≡ false

-- Each block's deadline, of whatever its memory holds.
abbrev pub IsTimely : (ℕ → Entry) → Type 0
IsTimely cells = (a : ℕ) → IsInt64 (cells a).expires_at_ms

update-IsTimely :
    (cells : ℕ → Entry) (a : ℕ) (e : Entry)
    → IsTimely cells
    → IsInt64 e.expires_at_ms
    → IsTimely (update cells a e)
update-IsTimely cells a e h k b = ground (arith, k, h b)

new_entry-timely : (seed : ℕ) (k v : Bytes) → IsInt64 (new_entry seed k v).expires_at_ms
unfolding new_entry
new_entry-timely seed k v = refl

module _ {p : EntryPool} where
  -- For an operation that may fail.
  abbrev pub TimelyTable : Option (Table p) → Type 0
  TimelyTable none = Unit
  TimelyTable (some t) = IsTimely t.cells

  abbrev TimelyInsert : Option (Option ℕ × Table p) → Type 0
  TimelyInsert none = Unit
  TimelyInsert (some (a, t)) = IsTimely t.cells

  abbrev pub TimelyAnswer {ℓ} : {A : Type ℓ} → Option (A × Store p) → Type 0
  TimelyAnswer none = Unit
  TimelyAnswer (some (ok, s)) = IsTimely s.table.cells

  abbrev pub TimelyStore : Option (Store p) → Type 0
  TimelyStore none = Unit
  TimelyStore (some s) = IsTimely s.table.cells

  pub remove-TimelyTable : (t : Table p) (a : ℕ) → IsTimely t.cells → TimelyTable (remove t a)
  unfolding remove
  remove-TimelyTable t a h = ground (arith, h)

  pub drop_entry-TimelyStore :
      (s : Store p) (a : ℕ) → IsTimely s.table.cells → TimelyStore (drop_entry s a)
  unfolding drop_entry
  drop_entry-TimelyStore s a h = ground (arith, remove-TimelyTable s.table a h)

  maybe_grow-TimelyTable : (t : Table p) → IsTimely t.cells → TimelyTable (maybe_grow t)
  unfolding maybe_grow rehash
  maybe_grow-TimelyTable t h = ground (arith, h)

  link_new-IsTimely :
      (t : Table p) (k v : Bytes) (a : ℕ) (pool : p.State)
      → IsTimely t.cells
      → IsTimely (link_new t k v a pool).cells
  unfolding link_new
  link_new-IsTimely t k v a pool h =
      update-IsTimely t.cells a (new_entry t.hash_seed k v) h (new_entry-timely t.hash_seed k v)

  pub stamp-IsTimely :
      (s : Store p) (a : ℕ) (at now : ℤ)
      → IsTimely s.table.cells
      → IsInt64 at
      → IsTimely (stamp s a at now).table.cells
  unfolding stamp
  stamp-IsTimely s a at now h k = update-IsTimely s.table.cells a _ h k

  pub touch_entry-IsTimely :
      (s : Store p) (a : ℕ) (now : ℤ)
      → IsTimely s.table.cells
      → IsTimely (touch_entry s a now).table.cells
  unfolding touch_entry
  touch_entry-IsTimely s a now h = update-IsTimely s.table.cells a _ h (h a)

  assign-IsTimely :
      (t : Table p) (a : ℕ) (v : Bytes) → IsTimely t.cells → IsTimely (assign t a v).cells
  unfolding assign assign_entry
  assign-IsTimely t a v h = update-IsTimely t.cells a _ h (h a)

  pub overwrite-IsTimely :
      (s : Store p) (a : ℕ) (v : Bytes) (at now : ℤ)
      → IsTimely s.table.cells
      → IsInt64 at
      → IsTimely (overwrite s a v at now).table.cells
  unfolding overwrite
  overwrite-IsTimely s a v at now h k =
      let s' : Store p = record s { table = assign s.table a v } in
      let h' = assign-IsTimely s.table a v h in
      stamp-IsTimely s' a _ now h' (pick (eqb_ℤ keep_ttl at))
    where
      pick : (b : Bool) → IsInt64 (if b then ((assign s.table a v).cells a).expires_at_ms else at)
      pick true = assign-IsTimely s.table a v h a
      pick false = k

  insert-Timely : (t : Table p) (k v : Bytes) → IsTimely t.cells → TimelyInsert (insert t k v)
  unfolding insert
  insert-Timely t k v h = on (p.try_allocate t.pool)
    where
      grown :
          (a : ℕ) (o : Option (Table p))
          → TimelyTable o
          → TimelyInsert (elim o [ none ↦ none | some t' ↦ some (some a, t') ])
      grown a none k = tt
      grown a (some t') k = k

      on :
          (o : Option (ℕ × p.State))
          → TimelyInsert (elim o [
            | none ↦ some (none, t)
            | some (a, pool) ↦ elim (maybe_grow (link_new t k v a pool)) [
              | none ↦ none
              | some t' ↦ some (some a, t')
            ]
          ])
      on none = h
      on (some (a, pool)) =
          grown a (maybe_grow (link_new t k v a pool))
            (maybe_grow-TimelyTable (link_new t k v a pool) (link_new-IsTimely t k v a pool h))

  pub insert_new-Timely :
      (s : Store p) (k v : Bytes) (at now : ℤ)
      → IsTimely s.table.cells
      → IsInt64 at
      → TimelyAnswer (insert_new s k v at now)
  unfolding insert_new
  insert_new-Timely s k v at now h fits = on (insert s.table k v) (insert-Timely s.table k v h)
    where
      pick : (b : Bool) → IsInt64 (if b then no_expiry else at)
      pick true = refl
      pick false = fits

      on :
          (o : Option (Option ℕ × Table p))
          → TimelyInsert o
          → TimelyAnswer (elim o [
            | none ↦ none
            | some (none, t) ↦ none
            | some (some a, t) ↦ some (
              true,
              stamp (record s { table = t }) a (if eqb_ℤ at keep_ttl then no_expiry else at) now,
            )
          ])
      on none k' = tt
      on (some (none, t)) k' = tt
      on (some (some a, t)) k' =
          stamp-IsTimely (record s { table = t }) a _ now k' (pick (eqb_ℤ at keep_ttl))

  reap-TimelyStore : (s : Store p) (a : ℕ) → IsTimely s.table.cells → TimelyStore (reap s a)
  unfolding reap
  reap-TimelyStore s a h = on (drop_entry s a) (drop_entry-TimelyStore s a h)
    where
      on :
          (o : Option (Store p))
          → TimelyStore o
          → TimelyStore (elim o [
            | none ↦ none
            | some s' ↦ some (record s' { expired_keys = (s'.expired_keys + 1) % word })
          ])
      on none k = k
      on (some s') k = k

  pub lookup-Timely :
      (s : Store p) (k : Bytes) (now : ℤ) → IsTimely s.table.cells → TimelyAnswer (lookup s k now)
  unfolding lookup
  lookup-Timely s k now h = on (find_entry s.table k)
    where
      reaped :
          (o : Option (Store p))
          → TimelyStore o
          → TimelyAnswer (elim o as (λ _. Option (Option ℕ × Store p)) [
            | none ↦ none
            | some s' ↦ some (none, s')
          ])
      reaped none h' = tt
      reaped (some s') h' = h'

      at :
          (a : ℕ) (b : Bool)
          → TimelyAnswer (elim b as (λ _. Option (Option ℕ × Store p)) [
            | true ↦ elim (reap s a) [ none ↦ none | some s' ↦ some (none, s') ]
            | false ↦ some (some a, s)
          ])
      at a true = reaped (reap s a) (reap-TimelyStore s a h)
      at a false = h

      on :
          (o : Option ℕ)
          → TimelyAnswer (elim o as (λ _. Option (Option ℕ × Store p)) [
            | none ↦ some (none, s)
            | some a ↦ elim (expired (s.table.cells a) now) [
              | true ↦ elim (reap s a) [ none ↦ none | some s' ↦ some (none, s') ]
              | false ↦ some (some a, s)
            ]
          ])
      on none = h
      on (some a) = at a (expired (s.table.cells a) now)

  pub dropped-Timely :
      (o : Option (Store p))
      → TimelyStore o
      → TimelyAnswer
          (elim o as (λ _. Option (Bool × Store p)) [ none ↦ none | some s' ↦ some (true, s') ])
  dropped-Timely none h = tt
  dropped-Timely (some s') h = h
