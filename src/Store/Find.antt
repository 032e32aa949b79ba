-- ===== src/Store/Find.antt =====
-- `find`: lazy expiry, and the access clock that a read sets.
use tiny_redis.Base.Bytes.{Bytes, equal, equal_iff}
use tiny_redis.Base.Int.{ℤ}
use tiny_redis.Base.{
  ℕ, Bool, true, false, Option, none, some, ◌≡◌, refl, sym, ap, ◌∙◌, inl, inr, if◌then◌else◌, arith,
  Bool-cases,
}
use tiny_redis.Entry.{Entry, key, value, expired, spilled}
use tiny_redis.Store.Lookup.{fresh_at, visible, IsFound, lookup_lem}
use tiny_redis.Store.{Store, clock32, lookup, touch_entry, find}
use tiny_redis.Table.Cell.Content.{HasRoom, IsSound}
use tiny_redis.Table.Invariant.{IsValid}
use tiny_redis.Table.Lookup.{find_iff}
use tiny_redis.Table.Pool.{EntryPool}
use tiny_redis.Table.Update.{update-IsValid, update-look, update_here}
use tiny_redis.Table.View.{look-at}
use tiny_redis.Table.{find as find_entry}

abbrev touched : Entry → ℤ → Entry
touched e now = record e { lru_clock = clock32 now }

touched-HasRoom : (e : Entry) (now : ℤ) (b : Bool) → HasRoom b e → HasRoom b (touched e now)
touched-HasRoom e now true h = h
touched-HasRoom e now false h = h

touched-IsSound : (e : Entry) (now : ℤ) → IsSound e → IsSound (touched e now)
touched-IsSound e now s = record {
  no_wrap = s.no_wrap;
  room = touched-HasRoom e now (spilled e) s.room;
}

key-touched : (e : Entry) (now : ℤ) → key (touched e now) ≡ key e
unfolding key
key-touched e now = refl

value-touched : (e : Entry) (now : ℤ) → value (touched e now) ≡ value e
unfolding value
value-touched e now = refl

expired-touched : (e : Entry) (now : ℤ) → expired (touched e now) now ≡ expired e now
unfolding expired
expired-touched e now = refl

fresh_at-touched : (e : Entry) (now : ℤ) → fresh_at now (touched e now) ≡ fresh_at now e
fresh_at-touched e now = rw (expired-touched, value-touched) refl

module _ {p : EntryPool} where
  touch_lem :
      (s : Store p) (k : Bytes) (now : ℤ) (a : ℕ)
      → IsValid s.table
      → IsFound s k now (some a)
      → IsValid (touch_entry s a now).table
        × ((j : Bytes) → visible (touch_entry s a now) now j ≡ visible s now j)
        × IsFound (touch_entry s a now) k now (some a)
  unfolding touch_entry
  touch_lem s k now a v (l, e, fresh, seen) =
      let c = s.table.cells a in
      let sound = touched-IsSound c now (v.sound a l) in
      let looks =
        update-look s.table v a (touched c now) sound refl (key-touched c now) (fresh_at now) in
      let here = update_here s.table.cells a (touched c now) a (ground arith) in
      let hit : find_entry s.table k ≡ some a = (find_iff s.table v k a).1 (l, e) in
      let same : (j : Bytes) → visible (touch_entry s a now) now j ≡ visible s now j = λ j.
        looks j l ∙ (elim (Bool-cases (equal j (key c))) [
          | inl at_key ↦
              let q : j ≡ k = (equal_iff j (key c)).0 at_key ∙ e in
              rw at_key (
                fresh_at-touched c now
                ∙ sym (look-at (fresh_at now) s.table j a (ap (find_entry s.table) q ∙ hit)))
          | inr other ↦ rw other refl
        ]) in
      (
        update-IsValid s.table v a (touched c now) sound refl (key-touched c now),
        same,
        (
          l,
          ap key here ∙ key-touched c now ∙ e,
          ap (λ (x : Entry). expired x now) here ∙ expired-touched c now ∙ fresh,
          same k ∙ seen ∙ ap (λ (x : Bytes). some x) (sym (ap value here ∙ value-touched c now)),
        ),
      )

  find_misses :
      (s s' : Store p) (k : Bytes) (now : ℤ) (touch : Bool)
      → lookup s k now ≡ some (none, s')
      → find s k now touch ≡ some (none, s')
  unfolding find
  find_misses s s' k now touch run = rw (find, run)

  find_hits :
      (s s' : Store p) (k : Bytes) (now : ℤ) (touch : Bool) (a : ℕ)
      → lookup s k now ≡ some (some a, s')
      → find s k now touch ≡ some (some a, if touch then touch_entry s' a now else s')
  unfolding find
  find_hits s s' k now touch a run = rw (find, run)

  -- On a valid table `find` returns, with or without a touch the table is valid after it, what can be
  -- seen under any key is the same, and the result is the entry that can be seen under the key, or
  -- nothing if there is none.
  pub find_lem :
      (s : Store p) (k : Bytes) (now : ℤ) (touch : Bool)
      → IsValid s.table
      → (r : Option ℕ) × (s' : Store p) × (find s k now touch ≡ some (r, s'))
        × IsValid s'.table
        × ((j : Bytes) → visible s' now j ≡ visible s now j)
        × IsFound s' k now r
  find_lem s k now touch v =
      let (r, s', run, v', same, found) = lookup_lem s k now v in go touch r s' run v' same found
    where
      go :
          (touch : Bool) (r : Option ℕ) (s' : Store p)
          → lookup s k now ≡ some (r, s')
          → IsValid s'.table
          → ((j : Bytes) → visible s' now j ≡ visible s now j)
          → IsFound s' k now r
          → (r : Option ℕ) × (s'' : Store p) × (find s k now touch ≡ some (r, s''))
            × IsValid s''.table
            × ((j : Bytes) → visible s'' now j ≡ visible s now j)
            × IsFound s'' k now r
      go touch none s' run v' same found =
          (none, s', find_misses s s' k now touch run, v', same, found)
      go true (some a) s' run v' same found =
          let (tv, still, tf) = touch_lem s' k now a v' found in
          (
            some a,
            touch_entry s' a now,
            find_hits s s' k now true a run,
            tv,
            λ j. still j ∙ same j,
            tf,
          )
      go false (some a) s' run v' same found =
          (some a, s', find_hits s s' k now false a run, v', same, found)
