-- ===== src/Table/Cell/Content.antt =====
-- The key and the value of an entry, through the move between the inline and the heap array.
use mathlib.Core.Path.{subst}
use tiny_redis.Base.Bytes.{Bytes}
use tiny_redis.Base.{
  ℕ, ◌+◌, ◌%◌, ◌≤◌, ◌<◌, ◌≡◌, refl, sym, ap, ◌∙◌, arith, Bool, true, false, [], inl, inr, length,
  take, take_all, replicate, ltb, if◌then◌else◌, Bool-cases, length-take, length-replicate,
}
use native.Mathlib.Nat.{mod-eq_of_lt}
use tiny_redis.Buffer.Copy.{length-copy_at, read-copy_at, take-copy_at}
use tiny_redis.Buffer.{copy_at}
use tiny_redis.Entry.{
  Entry, inline_buf, heap_buf, inline_bytes, heap_bytes, inline_cap, u32, spills, no_expiry,
  spilled, array, key, value,
}
use tiny_redis.Table.Cell.{hash32, fill, new_entry, moved_array, assign_entry}

-- The array is the one that the lengths call for, and holds the key and the value.
abbrev pub HasRoom : Bool → Entry → Type 0
HasRoom true e = e.key_len + e.val_len ≤ length (heap_bytes e.buf)
HasRoom false e = length (inline_bytes e.buf) ≡ inline_cap

pub record IsSound (e : Entry) : Type 0 where
  pub no_wrap : e.key_len + e.val_len < u32
  pub room : HasRoom (spilled e) e

pub spills_lem : (k v : ℕ) → k + v < u32 → spills k v ≡ ltb inline_cap (k + v)
unfolding spills
spills_lem k v h = rw (mod-eq_of_lt h)

array_room : (e : Entry) → IsSound e → e.key_len + e.val_len ≤ length (array e)
array_room e s = elim (Bool-cases (spilled e)) [
  | inl out ↦ rw out (subst_room true out)
  | inr inside ↦
      rw inside (
        let r = subst_room false inside in ground (arith, spills_lem e.key_len e.val_len s.no_wrap))
]
  where
    subst_room : (b : Bool) → spilled e ≡ b → HasRoom b e
    subst_room b q = subst (λ t. HasRoom t e) q s.room

pub key-take : (e : Entry) → key e ≡ take e.key_len (array e)
unfolding key
key-take e = refl

pub length-key : (e : Entry) → IsSound e → length (key e) ≡ e.key_len
length-key e s = rw (key-take, length-take) (omega (arith, array_room e s))

room_is : (e : Entry) → IsSound e → (b : Bool) → spilled e ≡ b → HasRoom b e
room_is e s b q = subst (λ t. HasRoom t e) q s.room

key_heap : (e : Entry) → spilled e ≡ true → take e.key_len (heap_bytes e.buf) ≡ key e
key_heap e a = rw (key-take, a)

key_inline : (e : Entry) → spilled e ≡ false → take e.key_len (inline_bytes e.buf) ≡ key e
key_inline e a = rw (key-take, a)

-- A move of the array for a value of `n` bytes: there is room, and the key stands in front.
abbrev Moved : Entry → Bytes → ℕ → Bool → Bytes → Type 0
Moved e k n will b =
    (e.key_len + n ≤ length b)
    × (take e.key_len b ≡ k)
    × (if will then Unit {0} else length b ≡ inline_cap)

fresh_copy :
    (k : Bytes) (room n : ℕ)
    → n ≡ length k
    → n ≤ room
    → (length (copy_at (replicate room 0) 0 k) ≡ room)
      × (take n (copy_at (replicate room 0) 0 k) ≡ k)
fresh_copy k room n e h =
    let w : length (replicate {A = ℕ} room 0) ≡ room = length-replicate room 0 in
    (
      length-copy_at (replicate room 0) 0 k (omega arith) ∙ w,
      ap (λ (j : ℕ). take j (copy_at (replicate room 0) 0 k)) e
          ∙ read-copy_at (replicate room 0) 0 k (omega arith),
    )

moved_array_lem :
    (e : Entry) (n : ℕ) (was will : Bool)
    → IsSound e
    → e.key_len + n < u32
    → spilled e ≡ was
    → spills e.key_len n ≡ will
    → Moved e (key e) n will (moved_array e n was will)
moved_array_lem e n true true s small a b = elim (Bool-cases (ltb e.val_len n)) [
  | inl grows ↦
      let (w, k) =
        fresh_copy (key e) (e.key_len + n) e.key_len (sym (length-key e s)) (omega arith) in
      unfold moved_array in rw (grows, mod-eq_of_lt small) (omega arith, k, tt)
  | inr fits ↦
      let r : e.key_len + e.val_len ≤ length (heap_bytes e.buf) = room_is e s true a in
      unfold moved_array in rw fits (ground arith, key_heap e a, tt)
]
moved_array_lem e n true false s small a b =
    let r : e.key_len + e.val_len ≤ length (heap_bytes e.buf) = room_is e s true a in
    let le : e.key_len + n ≤ inline_cap = ground (arith, spills_lem e.key_len n small) in
    let front = take e.key_len (heap_bytes e.buf) in
    let width : e.key_len ≡ length front =
      omega (arith, length-take e.key_len (heap_bytes e.buf)) in
    let (w, k) = fresh_copy front inline_cap e.key_len width (omega arith) in
    unfold moved_array in (omega arith, k ∙ key_heap e a, w)
moved_array_lem e n false true s small a b =
    let (w, k) =
      fresh_copy (key e) (e.key_len + n) e.key_len (sym (length-key e s)) (omega arith) in
    unfold moved_array in rw (mod-eq_of_lt small) (omega arith, k, tt)
moved_array_lem e n false false s small a b =
    let r : length (inline_bytes e.buf) ≡ inline_cap = room_is e s false a in
    let le : e.key_len + n ≤ inline_cap = ground (arith, spills_lem e.key_len n small) in
    unfold moved_array in (omega arith, key_inline e a, r)

-- An entry whose array was moved for a value and then filled with it.
filled_lem :
    (e : Entry) (k v b : Bytes) (will : Bool)
    → length v < u32
    → e.key_len + length v < u32
    → spills e.key_len (length v) ≡ will
    → Moved e k (length v) will b
    → (let e' : Entry = record e {
      val_len = length v;
      buf = if will then heap_buf (copy_at b e.key_len v) else inline_buf (copy_at b e.key_len v);
    } in
        IsSound e' × (key e' ≡ k) × (value e' ≡ v))
unfolding value
filled_lem e k v b true lv small w (len, front, _) =
    let same = length-copy_at b e.key_len v len in
    (
      record { no_wrap = small; room = rw w (omega (arith, same)) },
      rw (key-take, w) (take-copy_at b e.key_len e.key_len v (omega arith) (omega arith) ∙ front),
      rw w (read-copy_at b e.key_len v (omega arith)),
    )
filled_lem e k v b false lv small w (len, front, cap) =
    let same = length-copy_at b e.key_len v len in
    (
      record { no_wrap = small; room = rw w (same ∙ cap) },
      rw (key-take, w) (take-copy_at b e.key_len e.key_len v (omega arith) (omega arith) ∙ front),
      rw w (read-copy_at b e.key_len v (omega arith)),
    )

assign_entry_eq :
    (e : Entry) (v : Bytes)
    → length v < u32
    → (let will = spills e.key_len (length v) in
        let filled = copy_at (moved_array e (length v) (spilled e) will) e.key_len v in
        assign_entry e v ≡ record e {
          val_len = length v;
          buf = if will then heap_buf filled else inline_buf filled;
        })
unfolding assign_entry
assign_entry_eq e v h = rw (mod-eq_of_lt h, take_all (length v) v (omega arith))

-- `assign` on a sound entry: the new value is read back, the key is the same, whether the array is
-- reused or moves between the entry and the heap, and the entry stays sound. The condition is that
-- the two lengths fit together in 32 bits.
pub assign_entry_lem :
    (e : Entry) (v : Bytes)
    → IsSound e
    → e.key_len + length v < u32
    → IsSound (assign_entry e v) × (key (assign_entry e v) ≡ key e) × (value (assign_entry e v) ≡ v)
assign_entry_lem e v s small =
    let will = spills e.key_len (length v) in
    rw (assign_entry_eq e v (omega arith)) (
      filled_lem e (key e) v (moved_array e (length v) (spilled e) will) will (omega arith) small
        refl (moved_array_lem e (length v) (spilled e) will s small refl refl))

new_entry-Moved :
    (k v : Bytes) (will : Bool) (e : Entry)
    → e.key_len ≡ length k
    → length k + length v < u32
    → spills (length k) (length v) ≡ will
    → Moved e k
        (length v)
        will
        (copy_at (replicate (if will then (length k + length v) else inline_cap) 0) 0 k)
new_entry-Moved k v true e kl small w =
    let (wide, front) = fresh_copy k (length k + length v) e.key_len kl (omega arith) in
    (omega arith, front, tt)
new_entry-Moved k v false e kl small w =
    let le : length k + length v ≤ inline_cap =
      ground (arith, spills_lem (length k) (length v) small) in
    let (wide, front) = fresh_copy k inline_cap e.key_len kl (omega arith) in
    (omega arith, front, wide)

new_entry_eq :
    (seed : ℕ) (k v : Bytes)
    → length k + length v < u32
    → (let will = spills (length k) (length v) in
        let room = if will then (length k + length v) else inline_cap in
        let bytes = copy_at (copy_at (replicate room 0) 0 k) (length k) v in
        new_entry seed k v ≡ record {
          expires_at_ms = no_expiry;
          hash = hash32 seed k;
          lru_clock = 0;
          key_len = length k;
          val_len = length v;
          buf = if will then heap_buf bytes else inline_buf bytes;
        })
unfolding new_entry fill
new_entry_eq seed k v h =
    let small_k : length k % u32 ≡ length k = mod-eq_of_lt (omega arith) in
    let small_v : length v % u32 ≡ length v = mod-eq_of_lt (omega arith) in
    let all_k = take_all (length k) k (omega arith) in
    let all_v = take_all (length v) v (omega arith) in
    rw (small_k, small_v, mod-eq_of_lt h, all_k, all_v)

-- A fresh entry is sound and holds the key and the value that it was made of, inline or on the heap,
-- when the two lengths fit together in 32 bits.
pub new_entry_lem :
    (seed : ℕ) (k v : Bytes)
    → length k + length v < u32
    → IsSound (new_entry seed k v)
      × (key (new_entry seed k v) ≡ k)
      × (value (new_entry seed k v) ≡ v)
unfolding fill
new_entry_lem seed k v small =
    let blank : Entry = record {
      expires_at_ms = no_expiry;
      hash = hash32 seed k;
      lru_clock = 0;
      key_len = length k;
      val_len = 0;
      buf = inline_buf [];
    } in
    let will = spills (length k) (length v) in
    rw (new_entry_eq seed k v small) (
      filled_lem blank k v _ will (omega arith) small refl
        (new_entry-Moved k v will blank refl small refl))
