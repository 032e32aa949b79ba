-- ===== src/Store/Set/Outcome.antt =====
-- `set`, on each of its branches, in a store that refuses new keys at its cap.
use mathlib.Core.Path.{subst}
use tiny_redis.Base.Bytes.{Bytes, equal, equal_iff}
use tiny_redis.Base.Int.{ℤ}
use tiny_redis.Base.{
  ℕ, ◌+◌, ◌≤◌, ◌<◌, Bool, true, false, Option, none, some, ◌≡◌, refl, sym, ap, ◌∙◌, inl, inr, arith,
  length, leb, tests, if◌then◌else◌, Bool-cases,
}
use tiny_redis.Entry.{u32}
use tiny_redis.Store.Lookup.{fresh_at, visible, IsFound, lookup_lem}
use tiny_redis.Store.Set.{is_past, overwrite, insert_new, set_new, set}
use tiny_redis.Store.{Store, no_eviction, lookup, drop_entry, size}
use tiny_redis.Store.Set.Writes.{Rest, lookup-Rest, overwrite_lem, insert_new_lem}
use tiny_redis.Table.Cell.Content.{length-key}
use tiny_redis.Table.Invariant.{IsValid}
use tiny_redis.Table.Pool.{EntryPool, pool_capacity}
use tiny_redis.Table.Remove.{remove_lem}
use tiny_redis.Table.{Table, remove}

module _ {p : EntryPool} where
  -- The answer of `set`, and what can be seen after it.
  pub record SetAnswer (s s' : Store p) (k w : Bytes) (at now : ℤ) (ok : Bool) : Type 0 where
    pub valid : IsValid s'.table
    pub seen :
        (j : Bytes)
        → visible s' now j ≡ (
            if ok
            then if equal j k then (if is_past at now then none else some w) else visible s now j
            else visible s now j)
    pub refused :
        ok ≡ false → (visible s now k ≡ none) × (is_past at now ≡ false) × (s.max_keys ≤ size s)

  set_past_new :
      (fuel : ℕ) (s s' : Store p) (k w : Bytes) (at now : ℤ)
      → lookup s k now ≡ some (none, s')
      → is_past at now ≡ true
      → set fuel s k w at now ≡ some (true, s')
  unfolding set
  set_past_new fuel s s' k w at now run past = rw (set, run, past) refl

  set_past_old :
      (fuel : ℕ) (s s' : Store p) (k w : Bytes) (at now : ℤ) (a : ℕ) (t : Table p)
      → lookup s k now ≡ some (some a, s')
      → is_past at now ≡ true
      → remove s'.table a ≡ some t
      → set fuel s k w at now ≡ some (true, record s' { table = t })
  unfolding set drop_entry
  set_past_old fuel s s' k w at now a t run past gone = rw (set, run, past, drop_entry, gone) refl

  set_overwrites :
      (fuel : ℕ) (s s' : Store p) (k w : Bytes) (at now : ℤ) (a : ℕ)
      → lookup s k now ≡ some (some a, s')
      → is_past at now ≡ false
      → set fuel s k w at now ≡ some (true, overwrite s' a w at now)
  unfolding set
  set_overwrites fuel s s' k w at now a run later = rw (set, run, later) refl

  set_refuses :
      (fuel : ℕ) (s s' : Store p) (k w : Bytes) (at now : ℤ)
      → lookup s k now ≡ some (none, s')
      → is_past at now ≡ false
      → leb s'.max_keys (size s') ≡ true
      → s'.policy ≡ no_eviction
      → set fuel s k w at now ≡ some (false, s')
  unfolding set set_new
  set_refuses fuel s s' k w at now run later at_cap policy =
      simp (set, run, later, set_new, at_cap, policy) refl

  set_inserts :
      (fuel : ℕ) (s s' : Store p) (k w : Bytes) (at now : ℤ)
      → lookup s k now ≡ some (none, s')
      → is_past at now ≡ false
      → leb s'.max_keys (size s') ≡ false
      → set fuel s k w at now ≡ insert_new s' k w at now
  unfolding set set_new
  set_inserts fuel s s' k w at now run later room = rw (set, run, later, set_new, room) refl

  abbrev SetResult : ℕ → Store p → Bytes → Bytes → ℤ → ℤ → Type 0
  SetResult fuel s k w at now =
      (ok : Bool) × (s' : Store p) × (set fuel s k w at now ≡ some (ok, s'))
      × SetAnswer s s' k w at now ok

  -- A deadline in the past takes the key away.
  past_lem :
      (fuel : ℕ) (s s' : Store p) (k w : Bytes) (at now : ℤ) (r : Option ℕ)
      → lookup s k now ≡ some (r, s')
      → IsValid s'.table
      → ((j : Bytes) → visible s' now j ≡ visible s now j)
      → IsFound s' k now r
      → is_past at now ≡ true
      → SetResult fuel s k w at now
  past_lem fuel s s' k w at now none run v same found past = (
    true,
    s',
    set_past_new fuel s s' k w at now run past,
    record {
      valid = v;
      seen = λ j. rw past (elim (Bool-cases (equal j k)) [
        | inl here ↦ rw here (ap (visible s' now) ((equal_iff j k).0 here) ∙ found)
        | inr there ↦ rw there (same j)
      ]);
      refused = λ e. absurd (let x : true ≡ false = e in cc);
    },
  )
  past_lem fuel s s' k w at now (some a) run v same (l, e, fresh, seen) past =
      let (t, gone, tv, _, looks) = remove_lem s'.table a v l in
      (
        true,
        record s' { table = t },
        set_past_old fuel s s' k w at now a t run past gone,
        record {
          valid = tv;
          seen = λ j. rw past (
              looks (fresh_at now) j
              ∙ ap (λ (x : Bytes). if equal j x then none else visible s' now j) e
              ∙ ap (λ (o : Option Bytes). if equal j k then none else o) (same j));
          refused = λ e. absurd (let x : true ≡ false = e in cc);
        },
      )

  -- An entry that is there is overwritten.
  found_lem :
      (fuel : ℕ) (s s' : Store p) (k w : Bytes) (at now : ℤ) (a : ℕ)
      → lookup s k now ≡ some (some a, s')
      → IsValid s'.table
      → ((j : Bytes) → visible s' now j ≡ visible s now j)
      → IsFound s' k now (some a)
      → length k + length w < u32
      → is_past at now ≡ false
      → SetResult fuel s k w at now
  found_lem fuel s s' k w at now a run v same (l, e, fresh, seen) small later =
      let len = length-key (s'.table.cells a) (v.sound a l) in
      let fits : (s'.table.cells a).key_len + length w < u32 =
        omega (arith, len, ap length e, small) in
      let (v₁, sees) = overwrite_lem s' a w at now v l fits fresh later in
      (
        true,
        overwrite s' a w at now,
        set_overwrites fuel s s' k w at now a run later,
        record {
          valid = v₁;
          seen = λ j. rw later (
              sees j
              ∙ ap (λ (x : Bytes). if equal j x then some w else visible s' now j) e
              ∙ ap (λ (o : Option Bytes). if equal j k then some w else o) (same j));
          refused = λ e. absurd (let x : true ≡ false = e in cc);
        },
      )

  -- A new key is refused at the cap, and inserted below it.
  new_lem :
      (fuel : ℕ) (s s' : Store p) (k w : Bytes) (at now : ℤ)
      → lookup s k now ≡ some (none, s')
      → IsValid s'.table
      → ((j : Bytes) → visible s' now j ≡ visible s now j)
      → IsFound s' k now none
      → Rest s k (some (none, s'))
      → length k + length w < u32
      → s.policy ≡ no_eviction
      → s.max_keys ≤ pool_capacity
      → is_past at now ≡ false
      → SetResult fuel s k w at now
  new_lem fuel s s' k w at now run v same found (absent, policy, cap, fewer) small no_evict room
        later =
      elim (Bool-cases (leb s'.max_keys (size s'))) [
        | inl at_cap ↦ (
          false,
          s',
          set_refuses fuel s s' k w at now run later at_cap (policy ∙ no_evict),
          record {
            valid = v;
            seen = same;
            refused = λ _. (sym (same k) ∙ found, later, omega (tests, at_cap, cap, fewer));
          },
        )
        | inr below ↦
            let less : size s' < s'.max_keys = ground (arith, below) in
            let (s₁, ran, v₁, _, sees) =
              insert_new_lem s' k w at now v small absent (omega (arith, less, cap, room)) later in
            (
              true,
              s₁,
              set_inserts fuel s s' k w at now run later below ∙ ran,
              record {
                valid = v₁;
                seen = λ j.
                    rw later (
                      sees j ∙ ap (λ (o : Option Bytes). if equal j k then some w else o) (same j));
                refused = λ e. absurd (let x : true ≡ false = e in cc);
              },
            )
      ]

  -- In a valid store that does not evict, with a cap that the pool has room for, and a key and a value
  -- whose lengths fit together in 32 bits, `set` returns and leaves a valid table. If it accepts, the
  -- value can be seen under the key, or nothing if the deadline is past, and every other key is seen as
  -- before. It refuses only a key that cannot be seen, with no deadline past, in a store that has
  -- reached its cap, and then what can be seen is the same.
  pub set_lem :
      (fuel : ℕ) (s : Store p) (k w : Bytes) (at now : ℤ)
      → IsValid s.table
      → length k + length w < u32
      → s.policy ≡ no_eviction
      → s.max_keys ≤ pool_capacity
      → SetResult fuel s k w at now
  set_lem fuel s k w at now v small no_evict room =
      let (r, s', run, v', same, found) = lookup_lem s k now v in
      let rest = subst (Rest s k) run (lookup-Rest s k now v) in
      elim (Bool-cases (is_past at now)) [
        | inl past ↦ past_lem fuel s s' k w at now r run v' same found past
        | inr later ↦ by_result r s' run v' same found rest later
      ]
    where
      by_result :
          (r : Option ℕ) (s' : Store p)
          → lookup s k now ≡ some (r, s')
          → IsValid s'.table
          → ((j : Bytes) → visible s' now j ≡ visible s now j)
          → IsFound s' k now r
          → Rest s k (some (r, s'))
          → is_past at now ≡ false
          → SetResult fuel s k w at now
      by_result none s' run v' same found rest later =
          new_lem fuel s s' k w at now run v' same found rest small no_evict room later
      by_result (some a) s' run v' same found rest later =
          found_lem fuel s s' k w at now a run v' same found small later
