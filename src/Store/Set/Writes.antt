-- ===== src/Store/Set/Writes.antt =====
-- What `set` writes: a new value and deadline for an entry that is there, or a new entry.
use tiny_redis.Base.Bytes.{Bytes, equal, equal_iff}
use tiny_redis.Base.Int.{ℤ, ltb_ℤ}
use tiny_redis.Base.{
  ℕ, ◌+◌, ◌≤◌, ◌<◌, Bool, true, false, Option, none, some, ◌≡◌, refl, sym, ap, ◌∙◌, inl, inr, arith,
  length, if◌then◌else◌, Bool-cases, Option-cases,
}
use tiny_redis.Entry.{Entry, key, value, expired, eqb_ℤ, no_expiry, spilled, u32}
use tiny_redis.Store.Lookup.{fresh_at, visible, lookup_misses, lookup_hits, lookup_reaps}
use tiny_redis.Store.Set.{is_past, overwrite, insert_new}
use tiny_redis.Store.{Store, clock32, lookup, stamp, size, keep_ttl}
use tiny_redis.Table.Cell.Content.{HasRoom, IsSound, assign_entry_lem, new_entry_lem}
use tiny_redis.Table.Cell.{assign_entry}
use tiny_redis.Table.Insert.{insert_lem}
use tiny_redis.Table.Invariant.{IsValid}
use tiny_redis.Table.Lookup.{find_iff}
use tiny_redis.Table.Pool.{EntryPool, pool_capacity}
use tiny_redis.Table.Remove.{remove_lem}
use tiny_redis.Table.Update.{update-IsValid, update-look, update_here, hash-assign_entry}
use tiny_redis.Table.View.{look, view-absent}
use tiny_redis.Table.{find as find_entry, assign}

-- What the last two lines of `set` write.
abbrev pub stamped : Entry → ℤ → ℤ → Entry
stamped e at now = record e { expires_at_ms = at; lru_clock = clock32 now }

stamped-HasRoom : (e : Entry) (at now : ℤ) (b : Bool) → HasRoom b e → HasRoom b (stamped e at now)
stamped-HasRoom e at now true h = h
stamped-HasRoom e at now false h = h

stamped-IsSound : (e : Entry) (at now : ℤ) → IsSound e → IsSound (stamped e at now)
stamped-IsSound e at now s = record {
  no_wrap = s.no_wrap;
  room = stamped-HasRoom e at now (spilled e) s.room;
}

key-stamped : (e : Entry) (at now : ℤ) → key (stamped e at now) ≡ key e
unfolding key
key-stamped e at now = refl

value-stamped : (e : Entry) (at now : ℤ) → value (stamped e at now) ≡ value e
unfolding value
value-stamped e at now = refl

-- A deadline that is over.
abbrev pub is_over : ℤ → ℤ → Bool
is_over at now = if eqb_ℤ at no_expiry then false else ltb_ℤ at now

pub fresh_at-stamped :
    (e : Entry) (at now : ℤ)
    → is_over at now ≡ false
    → fresh_at now (stamped e at now) ≡ some (value e)
unfolding expired
fresh_at-stamped e at now h = rw h (ap some (value-stamped e at now))

expired-over : (e : Entry) (now : ℤ) → expired e now ≡ is_over e.expires_at_ms now
unfolding expired
expired-over e now = refl

deadline-assign_entry : (e : Entry) (w : Bytes) → (assign_entry e w).expires_at_ms ≡ e.expires_at_ms
unfolding assign_entry
deadline-assign_entry e w = refl

-- The deadlines that `set` writes are not over.
inserted_deadline :
    (at now : ℤ)
    → is_past at now ≡ false
    → is_over (if eqb_ℤ at keep_ttl then no_expiry else at) now ≡ false
unfolding is_past
inserted_deadline at now h = ground arith

overwritten_deadline :
    (at old now : ℤ)
    → is_past at now ≡ false
    → is_over old now ≡ false
    → is_over (if eqb_ℤ keep_ttl at then old else at) now ≡ false
unfolding is_past
overwritten_deadline at old now h fresh = ground arith

module _ {p : EntryPool} where
  pub stamp_lem :
      (s : Store p) (a : ℕ) (at now : ℤ)
      → IsValid s.table
      → p.live s.table.pool a ≡ true
      → IsValid (stamp s a at now).table
        × ((f : Entry → Option Bytes) (j : Bytes)
            → look f (stamp s a at now).table j ≡ (
                if equal j (key (s.table.cells a))
                then f (stamped (s.table.cells a) at now)
                else look f s.table j))
  unfolding stamp
  stamp_lem s a at now v l =
      let c = s.table.cells a in
      let sound = stamped-IsSound c at now (v.sound a l) in
      (
        update-IsValid s.table v a (stamped c at now) sound refl (key-stamped c at now),
        λ f j. update-look s.table v a (stamped c at now) sound refl (key-stamped c at now) f j l,
      )

  -- What `lookup` leaves besides what can be seen: a key that it does not find has no entry any more.
  abbrev pub Rest : Store p → Bytes → Option (Option ℕ × Store p) → Type 0
  Rest s k none = Unit
  Rest s k (some (none, s')) =
      (find_entry s'.table k ≡ none)
      × (s'.policy ≡ s.policy)
      × (s'.max_keys ≡ s.max_keys)
      × (size s' ≤ size s)
  Rest s k (some (some a, s')) = s' ≡ s

  pub lookup-Rest :
      (s : Store p) (k : Bytes) (now : ℤ) → IsValid s.table → Rest s k (lookup s k now)
  lookup-Rest s k now v = elim (Option-cases (find_entry s.table k)) [
    | inl absent ↦ rw (lookup_misses s k now absent) (absent, refl, refl, omega arith)
    | inr (a, hit) ↦
        let (l, e) = (find_iff s.table v k a).0 hit in
        elim (Bool-cases (expired (s.table.cells a) now)) [
          | inr fresh ↦ rw (lookup_hits s k now a hit fresh) refl
          | inl old ↦
              let (t, run, v', fewer, looks) = remove_lem s.table a v l in
              let here : equal k (key (s.table.cells a)) ≡ true =
                (equal_iff k (key (s.table.cells a))).1 (sym e) in
              rw (lookup_reaps s k now a t hit old run) (
                view-absent t k (looks (λ x. some (value x)) k ∙ rw here refl),
                refl,
                refl,
                omega (arith, fewer),
              )
        ]
  ]

  -- The new value and deadline of an entry that is there: the pair changes, and nothing else that can
  -- be seen.
  pub overwrite_lem :
      (s : Store p) (a : ℕ) (w : Bytes) (at now : ℤ)
      → IsValid s.table
      → p.live s.table.pool a ≡ true
      → (s.table.cells a).key_len + length w < u32
      → expired (s.table.cells a) now ≡ false
      → is_past at now ≡ false
      → IsValid (overwrite s a w at now).table
        × ((j : Bytes)
            → visible (overwrite s a w at now) now j
              ≡ (if equal j (key (s.table.cells a)) then some w else visible s now j))
  unfolding overwrite assign
  overwrite_lem s a w at now v l small fresh later =
      let c = s.table.cells a in
      let e = assign_entry c w in
      let (sound, key_same, value_is) = assign_entry_lem c w (v.sound a l) small in
      let hash_same = hash-assign_entry c w in
      let s₁ : Store p = record s { table = assign s.table a w } in
      let here : s₁.table.cells a ≡ e = update_here s.table.cells a e a (ground arith) in
      let v₁ = update-IsValid s.table v a e sound hash_same key_same in
      let d = if eqb_ℤ keep_ttl at then (s₁.table.cells a).expires_at_ms else at in
      let on_time : is_over d now ≡ false =
        overwritten_deadline at ((s₁.table.cells a).expires_at_ms) now later (
          ap (λ (x : Entry). is_over x.expires_at_ms now) here
          ∙ ap (λ (x : ℤ). is_over x now) (deadline-assign_entry c w)
          ∙ sym (expired-over c now)
          ∙ fresh) in
      let (v₂, looks) = stamp_lem s₁ a d now v₁ l in
      (
        v₂,
        λ j.
            looks (fresh_at now) j
            ∙ ap
                (λ (x : Bytes).
                  if equal j x
                  then fresh_at now (stamped (s₁.table.cells a) d now)
                  else look (fresh_at now) s₁.table j)
                (ap key here ∙ key_same)
            ∙ (elim (Bool-cases (equal j (key c))) [
              | inl same ↦ rw same (
                  fresh_at-stamped (s₁.table.cells a) d now on_time
                  ∙ ap some (ap value here ∙ value_is))
              | inr other ↦ rw other (
                  update-look s.table v a e sound hash_same key_same (fresh_at now) j l
                  ∙ rw other refl)
            ]),
      )

  -- A new pair, when the pool has room for it.
  pub insert_new_lem :
      (s : Store p) (k w : Bytes) (at now : ℤ)
      → IsValid s.table
      → length k + length w < u32
      → find_entry s.table k ≡ none
      → size s < pool_capacity
      → is_past at now ≡ false
      → (s' : Store p) × (insert_new s k w at now ≡ some (true, s'))
        × IsValid s'.table
        × (size s' ≡ size s + 1)
        × ((j : Bytes) → visible s' now j ≡ (if equal j k then some w else visible s now j))
  unfolding insert_new stamp
  insert_new_lem s k w at now v small absent room later =
      elim (insert_lem s.table k w v small absent) [
        | inl (_, full) ↦ absurd (omega arith)
        | inr (a, t, run, v₁, more, hit, _, cell, looks) ↦
            let s₁ : Store p = record s { table = t } in
            let d = if eqb_ℤ at keep_ttl then no_expiry else at in
            let (l, e) = (find_iff t v₁ k a).0 hit in
            let (_, _, value_is) = new_entry_lem s.table.hash_seed k w small in
            let (v₂, stamps) = stamp_lem s₁ a d now v₁ l in
            (
              stamp s₁ a d now,
              rw (insert_new, run) refl,
              v₂,
              more,
              λ j.
                  stamps (fresh_at now) j
                  ∙ ap
                      (λ (x : Bytes).
                        if equal j x
                        then fresh_at now (stamped (t.cells a) d now)
                        else look (fresh_at now) t j)
                      e
                  ∙ (elim (Bool-cases (equal j k)) [
                    | inl same ↦ rw same (
                        fresh_at-stamped (t.cells a) d now (inserted_deadline at now later)
                        ∙ ap some (ap value cell ∙ value_is))
                    | inr other ↦ rw other (looks (fresh_at now) j other)
                  ]),
            )
      ]
