-- ===== src/Store/Lookup.antt =====
-- Lazy expiry: what `lookup` and `erase` do to the pairs that have not expired.
use tiny_redis.Base.Bytes.{Bytes, equal, equal_iff}
use tiny_redis.Base.Int.{ℤ}
use tiny_redis.Base.{
  ℕ, ◌+◌, ◌%◌, Bool, true, false, Option, none, some, ◌≡◌, refl, sym, ap, ◌∙◌, inl, inr,
  if◌then◌else◌, Bool-cases, Option-cases,
}
use tiny_redis.Bits.{word}
use tiny_redis.Entry.{Entry, key, value, expired}
use tiny_redis.Store.{Store, lookup, reap, drop_entry, erase}
use tiny_redis.Table.Invariant.{IsValid}
use tiny_redis.Table.Lookup.{find_iff}
use tiny_redis.Table.Pool.{EntryPool}
use tiny_redis.Table.Remove.{remove_lem}
use tiny_redis.Table.View.{look, look-at, look-absent}
use tiny_redis.Table.{Table, find as find_entry, remove as remove_entry}

-- The value of an entry that has not expired.
abbrev pub fresh_at : ℤ → Entry → Option Bytes
fresh_at now e = if expired e now then none else some (value e)

abbrev pub is_some : Option Bytes → Bool
is_some none = false
is_some (some _) = true

fresh_at-old : (e : Entry) (now : ℤ) → expired e now ≡ true → fresh_at now e ≡ none
fresh_at-old e now old = rw (fresh_at, old)

fresh_at-new : (e : Entry) (now : ℤ) → expired e now ≡ false → fresh_at now e ≡ some (value e)
fresh_at-new e now fresh = rw (fresh_at, fresh)

module _ {p : EntryPool} where
  -- The value that a client can see under a key.
  abbrev pub visible : Store p → ℤ → Bytes → Option Bytes
  visible s now j = look (fresh_at now) s.table j

  -- What `lookup` found: nothing to see, or a live entry that has the key and has not expired.
  abbrev pub IsFound : Store p → Bytes → ℤ → Option ℕ → Type 0
  IsFound s k now none = visible s now k ≡ none
  IsFound s k now (some a) =
      (p.live s.table.pool a ≡ true)
      × (key (s.table.cells a) ≡ k)
      × (expired (s.table.cells a) now ≡ false)
      × (visible s now k ≡ some (value (s.table.cells a)))

  -- The entry was there and had expired.
  pub lookup_reaps :
      (s : Store p) (k : Bytes) (now : ℤ) (a : ℕ) (t : Table p)
      → find_entry s.table k ≡ some a
      → expired (s.table.cells a) now ≡ true
      → remove_entry s.table a ≡ some t
      → lookup s k now
        ≡ some (none, record s { table = t; expired_keys = (s.expired_keys + 1) % word })
  unfolding lookup reap drop_entry
  lookup_reaps s k now a t hit old run = rw (lookup, hit, old, reap, drop_entry, run)

  pub lookup_misses :
      (s : Store p) (k : Bytes) (now : ℤ)
      → find_entry s.table k ≡ none
      → lookup s k now ≡ some (none, s)
  unfolding lookup
  lookup_misses s k now absent = rw (lookup, absent)

  pub lookup_hits :
      (s : Store p) (k : Bytes) (now : ℤ) (a : ℕ)
      → find_entry s.table k ≡ some a
      → expired (s.table.cells a) now ≡ false
      → lookup s k now ≡ some (some a, s)
  unfolding lookup
  lookup_hits s k now a hit fresh = rw (lookup, hit, fresh)

  -- The removal of an expired entry is not seen.
  pub unseen :
      (t t' : Table p) (now : ℤ) (a : ℕ) (j : Bytes)
      → find_entry t (key (t.cells a)) ≡ some a
      → expired (t.cells a) now ≡ true
      → look (fresh_at now) t' j
        ≡ (if equal j (key (t.cells a)) then none else look (fresh_at now) t j)
      → look (fresh_at now) t' j ≡ look (fresh_at now) t j
  unseen t t' now a j hit old e = elim (Bool-cases (equal j (key (t.cells a)))) [
    | inl same ↦
        let q : j ≡ key (t.cells a) = (equal_iff j (key (t.cells a))).0 same in
        let gone : look (fresh_at now) t' j ≡ none = e ∙ rw same refl in
        gone
        ∙ sym (
            look-at (fresh_at now) t j a (ap (find_entry t) q ∙ hit)
            ∙ fresh_at-old (t.cells a) now old)
    | inr other ↦ e ∙ rw other refl
  ]

  pub lookup_lem :
      (s : Store p) (k : Bytes) (now : ℤ)
      → IsValid s.table
      → (r : Option ℕ) × (s' : Store p) × (lookup s k now ≡ some (r, s'))
        × IsValid s'.table
        × ((j : Bytes) → visible s' now j ≡ visible s now j)
        × IsFound s' k now r
  lookup_lem s k now v = elim (Option-cases (find_entry s.table k)) [
    | inl absent ↦ (
      none,
      s,
      lookup_misses s k now absent,
      v,
      λ j. refl,
      look-absent (fresh_at now) s.table k absent,
    )
    | inr (a, hit) ↦
        let (l, e) = (find_iff s.table v k a).0 hit in
        elim (Bool-cases (expired (s.table.cells a) now)) [
          | inl old ↦
              let (t, run, v', _, looks) = remove_lem s.table a v l in
              let at_key : find_entry s.table (key (s.table.cells a)) ≡ some a =
                ap (find_entry s.table) e ∙ hit in
              (
                none,
                record s { table = t; expired_keys = (s.expired_keys + 1) % word },
                lookup_reaps s k now a t hit old run,
                v',
                λ j. unseen s.table t now a j at_key old (looks (fresh_at now) j),
                looks (fresh_at now) k
                    ∙ (let same : equal k (key (s.table.cells a)) ≡ true =
                          (equal_iff k (key (s.table.cells a))).1 (sym e) in
                        rw same refl),
              )
          | inr fresh ↦ (
            some a,
            s,
            lookup_hits s k now a hit fresh,
            v,
            λ j. refl,
            (
              l,
              e,
              fresh,
              look-at (fresh_at now) s.table k a hit ∙ fresh_at-new (s.table.cells a) now fresh,
            ),
          )
        ]
  ]

  erase_misses :
      (s s' : Store p) (k : Bytes) (now : ℤ)
      → lookup s k now ≡ some (none, s')
      → erase s k now ≡ some (false, s')
  unfolding erase
  erase_misses s s' k now run = rw (erase, run)

  erase_drops :
      (s s' : Store p) (k : Bytes) (now : ℤ) (a : ℕ) (t : Table p)
      → lookup s k now ≡ some (some a, s')
      → remove_entry s'.table a ≡ some t
      → erase s k now ≡ some (true, record s' { table = t })
  unfolding erase drop_entry
  erase_drops s s' k now a t run gone = rw (erase, run, drop_entry, gone)

  -- On a valid table `erase` returns whether the key could be seen, the table is valid after it, the
  -- key can no longer be seen, and every other key is seen as before.
  pub erase_lem :
      (s : Store p) (k : Bytes) (now : ℤ)
      → IsValid s.table
      → (s' : Store p) × (erase s k now ≡ some (is_some (visible s now k), s'))
        × IsValid s'.table
        × ((j : Bytes) → visible s' now j ≡ (if equal j k then none else visible s now j))
  erase_lem s k now v =
      let (r, s', run, v', same, found) = lookup_lem s k now v in go r s' run v' same found
    where
      go :
          (r : Option ℕ) (s' : Store p)
          → lookup s k now ≡ some (r, s')
          → IsValid s'.table
          → ((j : Bytes) → visible s' now j ≡ visible s now j)
          → IsFound s' k now r
          → (s'' : Store p) × (erase s k now ≡ some (is_some (visible s now k), s''))
            × IsValid s''.table
            × ((j : Bytes) → visible s'' now j ≡ (if equal j k then none else visible s now j))
      go none s' run v' same found = (
        s',
        erase_misses s s' k now run
            ∙ ap (λ (o : Option Bytes). some (is_some o, s')) (sym found ∙ same k),
        v',
        λ j. elim (Bool-cases (equal j k)) [
          | inl here ↦ rw here (ap (visible s' now) ((equal_iff j k).0 here) ∙ found)
          | inr there ↦ rw there (same j)
        ],
      )
      go (some a) s' run v' same (l, e, fresh, seen) =
          let (t, gone, tv, _, looks) = remove_lem s'.table a v' l in
          (
            record s' { table = t },
            erase_drops s s' k now a t run gone
                ∙ ap (λ (o : Option Bytes). some (is_some o, record s' { table = t }))
                    (sym seen ∙ same k),
            tv,
            λ j.
                looks (fresh_at now) j
                ∙ ap (λ (x : Bytes). if equal j x then none else visible s' now j) e
                ∙ ap (λ (o : Option Bytes). if equal j k then none else o) (same j),
          )
