-- ===== src/Table/Update.antt =====
-- A change of one entry that keeps its key, and `assign` as one.
use tiny_redis.Base.Bytes.{Bytes, equal, equal_iff}
use tiny_redis.Base.{
  ℕ, Option, some, ◌+◌, ◌<◌, true, false, some, ◌≡◌, refl, sym, ap, ◌∙◌, arith, inl, inr, length,
  ◌==◌, if◌then◌else◌, Bool-cases,
}
use tiny_redis.Entry.{Entry, key, value, u32}
use tiny_redis.Table.Cell.Content.{IsSound, assign_entry_lem}
use tiny_redis.Table.Cell.{hash32, assign_entry}
use tiny_redis.Table.Invariant.{IsValid}
use tiny_redis.Table.Pool.{EntryPool}
use tiny_redis.Table.View.{look, view, look-some, look-same}
use tiny_redis.Table.{Table, size, update, assign}

module _ (cells : ℕ → Entry) (a : ℕ) (e : Entry) where
  pub update_here : (b : ℕ) → (a == b) ≡ true → update cells a e b ≡ e
  update_here b h = rw h

  pub update_there : (b : ℕ) → (a == b) ≡ false → update cells a e b ≡ cells b
  update_there b h = rw h

module _ {p : EntryPool} (t : Table p) (v : IsValid t) (a : ℕ) (e : Entry) (sound : IsSound e)
    (hash_same : e.hash ≡ (t.cells a).hash) (key_same : key e ≡ key (t.cells a)) where
  cell :
      (b : ℕ)
      → ((update t.cells a e b).hash ≡ (t.cells b).hash)
        × (key (update t.cells a e b) ≡ key (t.cells b))
  cell b = elim (Bool-cases (a == b)) [
    | inl same ↦
        let q : a ≡ b = ground arith in
        let here = update_here t.cells a e b same in
        (
          ap (λ (x : Entry). x.hash) here ∙ hash_same ∙ ap (λ (i : ℕ). (t.cells i).hash) q,
          ap key here ∙ key_same ∙ ap (λ (i : ℕ). key (t.cells i)) q,
        )
    | inr other ↦
        let there = update_there t.cells a e b other in
        (ap (λ (x : Entry). x.hash) there, ap key there)
  ]

  cell-IsSound : (b : ℕ) → p.live t.pool b ≡ true → IsSound (update t.cells a e b)
  cell-IsSound b l = elim (Bool-cases (a == b)) [
    | inl same ↦ rw (update_here t.cells a e b same) sound
    | inr other ↦ rw (update_there t.cells a e b other) (v.sound b l)
  ]

  -- An entry may change under the table when its hash and its key stay.
  pub update-IsValid : IsValid (record t { cells = update t.cells a e })
  update-IsValid = record {
    wide = v.wide;
    single = v.single;
    placed = λ b j. rw ((cell b).0) (v.placed b j);
    sound = cell-IsSound;
    hashed = λ b l. (cell b).0 ∙ v.hashed b l ∙ ap (hash32 t.hash_seed) (sym ((cell b).1));
    distinct = λ b c lb lc q. v.distinct b c lb lc (sym ((cell b).1) ∙ q ∙ (cell c).1);
    linked = v.linked;
    counted = v.counted;
  }

  -- Then what is read off the entries changes at that key only.
  pub update-look :
      (f : Entry → Option Bytes) (j : Bytes)
      → p.live t.pool a ≡ true
      → look f (record t { cells = update t.cells a e }) j
        ≡ (if equal j (key (t.cells a)) then f e else look f t j)
  update-look f j l =
      let t' : Table p = record t { cells = update t.cells a e } in
      let here = update_here t.cells a e a (ground arith) in
      elim (Bool-cases (equal j (key (t.cells a)))) [
        | inl same ↦
            let q : j ≡ key (t.cells a) = (equal_iff j (key (t.cells a))).0 same in
            rw same
              (look-some f t' j a update-IsValid l (ap key here ∙ key_same ∙ sym q) ∙ ap f here)
        | inr other ↦ rw other (
            look-same f t t' j v update-IsValid
              (λ b lb x. (lb, (cell b).1 ∙ x, ap f (untouched b j other x)))
              (λ b lb x. (lb, sym ((cell b).1) ∙ x)))
      ]
    where
      untouched :
          (b : ℕ) (j : Bytes)
          → equal j (key (t.cells a)) ≡ false
          → key (t.cells b) ≡ j
          → update t.cells a e b ≡ t.cells b
      untouched b j other x = elim (Bool-cases (a == b)) [
        | inl same ↦
            let q : a ≡ b = ground arith in
            let m : equal j (key (t.cells a)) ≡ true =
              (equal_iff j (key (t.cells a))).1 (sym x ∙ ap (λ (i : ℕ). key (t.cells i)) (sym q)) in
            absurd (let z : true ≡ false = sym m ∙ other in cc)
        | inr apart ↦ update_there t.cells a e b apart
      ]

pub hash-assign_entry : (e : Entry) (w : Bytes) → (assign_entry e w).hash ≡ e.hash
unfolding assign_entry
hash-assign_entry e w = refl

-- A new value for an entry of a valid table, such that the two lengths fit in 32 bits: the table is
-- valid, has as many entries, and the map is as before but for the value of that entry's key.
pub assign_lem :
    {p : EntryPool} (t : Table p) (a : ℕ) (w : Bytes)
    → IsValid t
    → p.live t.pool a ≡ true
    → (t.cells a).key_len + length w < u32
    → IsValid (assign t a w)
      × (size (assign t a w) ≡ size t)
      × ((j : Bytes)
          → view (assign t a w) j ≡ (if equal j (key (t.cells a)) then some w else view t j))
unfolding assign
assign_lem t a w v l small =
    let (sound, key_same, value_is) = assign_entry_lem (t.cells a) w (v.sound a l) small in
    let e = assign_entry (t.cells a) w in
    let hash_same = hash-assign_entry (t.cells a) w in
    (
      update-IsValid t v a e sound hash_same key_same,
      refl,
      λ j.
          update-look t v a e sound hash_same key_same (λ x. some (value x)) j l
          ∙ ap (λ (x : Bytes). if equal j (key (t.cells a)) then some x else view t j) value_is,
    )
