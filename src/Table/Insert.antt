-- ===== src/Table/Insert.antt =====
-- `insert` of a new key, against the map.
use tiny_redis.Base.Bytes.{Bytes, equal, equal_iff}
use tiny_redis.Base.{
  Option, ℕ, ◌+◌, ◌≤◌, ◌<◌, true, false, ◌&&◌, none, some, [], ◌∷◌, ◌≡◌, ◌≢◌, refl, sym, ap, ◌∙◌,
  arith, inl, inr, length, get_or, length-set, ◌==◌, if◌then◌else◌, Bool-cases, Option-cases, ◌⊎◌,
}
use tiny_redis.Entry.{Entry, key, value, u32}
use tiny_redis.Table.Cell.Content.{new_entry_lem}
use tiny_redis.Table.Cell.{hash32, new_entry}
use tiny_redis.Table.Chains.{count, slot-lt, count-set, total-set}
use tiny_redis.Table.Invariant.{home_in, IsValid}
use tiny_redis.Table.Lookup.{find_iff}
use tiny_redis.Table.Pool.{EntryPool, pool_capacity}
use tiny_redis.Table.Rehash.{maybe_grow_lem}
use tiny_redis.Table.Update.{update_here, update_there}
use tiny_redis.Table.View.{look, look-same, view, view-some}
use tiny_redis.Table.{Table, bucket_count, size, slot, update, find, link_new, insert}

hash-new_entry : (seed : ℕ) (k w : Bytes) → (new_entry seed k w).hash ≡ hash32 seed k
unfolding new_entry
hash-new_entry seed k w = refl

module _ {p : EntryPool} (t : Table p) (v : IsValid t) (k w : Bytes)
    (small : length k + length w < u32) (a : ℕ) (s : p.State)
    (taken : p.try_allocate t.pool ≡ some (a, s)) where
  abbrev fresh : Entry
  fresh = new_entry t.hash_seed k w

  link_placed :
      (b j : ℕ)
      → count b (get_or (link_new t k w a s).buckets j [])
        ≡ (if p.live s b && home_in (bucket_count t) (update t.cells a fresh) b == j then 1 else 0)
  unfolding link_new
  link_placed b j =
      let i = slot (bucket_count t) fresh.hash in
      let c =
        count-set b i j t.buckets (a ∷ get_or t.buckets i [])
          (slot-lt (bucket_count t) fresh.hash v.wide) in
      let unused = p.allocate_fresh t.pool a s taken in
      elim (Bool-cases (a == b)) [
        | inl same ↦
            let q : a ≡ b = ground arith in
            let unused' : p.live t.pool b ≡ false = ap (p.live t.pool) (sym q) ∙ unused in
            rw (c, p.live-allocate t.pool a s b taken, same)
              (ground (arith, v.placed b i, v.placed b j))
        | inr other ↦ elim (Bool-cases (i == j)) [
          | inl here ↦
              let r : i ≡ j = ground arith in
              rw (c, p.live-allocate t.pool a s b taken, other, here, r)
                (omega (arith, v.placed b j))
          | inr there ↦ rw (c, p.live-allocate t.pool a s b taken, other, there) (v.placed b j)
        ]
      ]

  -- The status and the entry of a block once `a` is taken.
  block :
      (b : ℕ)
      → p.live s b ≡ true
      → ((a ≡ b) × (update t.cells a fresh b ≡ fresh))
        ⊎ ((p.live t.pool b ≡ true) × (update t.cells a fresh b ≡ t.cells b))
  block b l = elim (Bool-cases (a == b)) [
    | inl same ↦ let q : a ≡ b = ground arith in inl (q, update_here t.cells a fresh b same)
    | inr other ↦
        let old : p.live s b ≡ p.live t.pool b =
          p.live-allocate t.pool a s b taken ∙ (rw other refl) in
        inr (sym old ∙ l, update_there t.cells a fresh b other)
  ]

  no_old : find t k ≡ none → (b : ℕ) → p.live t.pool b ≡ true → key (t.cells b) ≢ k
  no_old absent b l e =
      let hit : find t k ≡ some b = (find_iff t v k b).1 (l, e) in
      let clash : none ≡ some b = sym absent ∙ hit in cc

  link-distinct :
      (b c : ℕ)
      → find t k ≡ none
      → p.live s b ≡ true
      → p.live s c ≡ true
      → key (update t.cells a fresh b) ≡ key (update t.cells a fresh c)
      → b ≡ c
  link-distinct b c absent lb lc e =
      let (_, k_is, _) = new_entry_lem t.hash_seed k w small in
      elim (block b lb) [
        | inl (q, x) ↦ elim (block c lc) [
          | inl (r, y) ↦ sym q ∙ r
          | inr (old, y) ↦ absurd (no_old absent c old (ap key (sym y) ∙ sym e ∙ ap key x ∙ k_is))
        ]
        | inr (old, x) ↦ elim (block c lc) [
          | inl (r, y) ↦ absurd (no_old absent b old (ap key (sym x) ∙ e ∙ ap key y ∙ k_is))
          | inr (old', y) ↦ v.distinct b c old old' (ap key (sym x) ∙ e ∙ ap key y)
        ]
      ]

  pub link-IsValid : find t k ≡ none → IsValid (link_new t k w a s)
  unfolding link_new
  link-IsValid absent =
      let (fresh_sound, k_is, _) = new_entry_lem t.hash_seed k w small in
      let i = slot (bucket_count t) fresh.hash in
      record {
        wide = rw length-set v.wide;
        single = rw length-set v.single;
        placed = λ b j. rw length-set (link_placed b j);
        sound = λ b l. elim (block b l) [
          | inl (q, e) ↦ rw e fresh_sound
          | inr (l0, e) ↦ rw e (v.sound b l0)
        ];
        hashed = λ b l. elim (block b l) [
          | inl (q, e) ↦ rw (e, k_is) (hash-new_entry t.hash_seed k w)
          | inr (l0, e) ↦ rw e (v.hashed b l0)
        ];
        distinct = λ b c lb lc e. link-distinct b c absent lb lc e;
        linked = omega (
          arith,
          v.linked,
          total-set t.buckets i (a ∷ get_or t.buckets i [])
              (slot-lt (bucket_count t) fresh.hash v.wide),
        );
        counted = omega (arith, v.counted, p.used-allocate t.pool a s taken);
      }

  keep_old :
      (b : ℕ)
      → p.live t.pool b ≡ true
      → (p.live s b ≡ true) × (update t.cells a fresh b ≡ t.cells b)
  keep_old b l = elim (Bool-cases (a == b)) [
    | inl same ↦
        let q : a ≡ b = ground arith in
        let clash : true ≡ false =
          sym l ∙ ap (p.live t.pool) (sym q) ∙ p.allocate_fresh t.pool a s taken in
        absurd (let x = clash in cc)
    | inr other ↦
        (p.live-allocate t.pool a s b taken ∙ (rw other l), update_there t.cells a fresh b other)
  ]

  back_old :
      (b : ℕ) (j : Bytes)
      → equal j k ≡ false
      → p.live s b ≡ true
      → key (update t.cells a fresh b) ≡ j
      → (p.live t.pool b ≡ true) × (update t.cells a fresh b ≡ t.cells b)
  back_old b j other l e = elim (block b l) [
    | inl (q, x) ↦
        let (_, k_is, _) = new_entry_lem t.hash_seed k w small in
        let same : equal j k ≡ true = (equal_iff j k).1 (sym e ∙ ap key x ∙ k_is) in
        absurd (let x : true ≡ false = sym same ∙ other in cc)
    | inr old ↦ old
  ]

  -- Under another key whatever is read off the entry is as before.
  link-look :
      (f : Entry → Option Bytes) (j : Bytes)
      → IsValid (link_new t k w a s)
      → equal j k ≡ false
      → look f (link_new t k w a s) j ≡ look f t j
  unfolding link_new
  link-look f j lv other =
      look-same f t (link_new t k w a s) j v lv
        (λ b l e. let (l', c) = keep_old b l in (l', ap key c ∙ e, ap f c))
        (λ b l e. let (l', c) = back_old b j other l e in (l', sym (ap key c) ∙ e))

  link-cell : (link_new t k w a s).cells a ≡ fresh
  unfolding link_new
  link-cell = update_here t.cells a fresh a (ground arith)

  link-view :
      (j : Bytes)
      → find t k ≡ none
      → IsValid (link_new t k w a s)
      → view (link_new t k w a s) j ≡ (if equal j k then some w else view t j)
  unfolding link_new
  link-view j absent lv =
      let (_, k_is, v_is) = new_entry_lem t.hash_seed k w small in
      let here = update_here t.cells a fresh a (ground arith) in
      let live_a : p.live s a ≡ true = p.live-allocate t.pool a s a taken ∙ (ground arith) in
      elim (Bool-cases (equal j k)) [
        | inl same ↦
            let q : j ≡ k = (equal_iff j k).0 same in
            rw same (
              view-some (link_new t k w a s) j a lv live_a (ap key here ∙ k_is ∙ sym q)
              ∙ ap some (ap value here ∙ v_is))
        | inr other ↦ rw other (link-look (λ x. some (value x)) j lv other)
      ]

  pub link_new_lem :
      (p.live (link_new t k w a s).pool a ≡ true)
      × (key ((link_new t k w a s).cells a) ≡ k)
      × (size (link_new t k w a s) ≡ size t + 1)
  unfolding link_new
  link_new_lem =
      let (_, k_is, _) = new_entry_lem t.hash_seed k w small in
      (
        p.live-allocate t.pool a s a taken ∙ (ground arith),
        ap key (update_here t.cells a fresh a (ground arith)) ∙ k_is,
        refl,
      )

-- A table with the same entries in the same blocks, as growth leaves it, looks the same.
grow-look :
    {p : EntryPool} (f : Entry → Option Bytes) (t t' : Table p) (j : Bytes)
    → IsValid t
    → IsValid t'
    → t'.cells ≡ t.cells
    → t'.pool ≡ t.pool
    → look f t' j ≡ look f t j
grow-look {p} f t t' j v v' c q =
    let live_same = λ (b : ℕ). ap (λ (s : p.State). p.live s b) q in
    let cell_same = λ (b : ℕ). ap (λ (g : ℕ → Entry). g b) c in
    look-same f t t' j v v'
      (λ b l e. (live_same b ∙ l, ap key (cell_same b) ∙ e, ap f (cell_same b)))
      (λ b l e. (sym (live_same b) ∙ l, sym (ap key (cell_same b)) ∙ e))

-- A new key, not in a valid table, with a value such that the two lengths fit in 32 bits: either the
-- pool has no free block, and the table is as before, or the table is valid again, has one entry more,
-- the key is found at the block that `insert` returns, the map is as before but for the new pair, and
-- whatever is read off the entry under another key, its value or its deadline, is as before.
pub insert_lem :
    {p : EntryPool} (t : Table p) (k w : Bytes)
    → IsValid t
    → length k + length w < u32
    → find t k ≡ none
    → ((insert t k w ≡ some (none, t)) × (pool_capacity ≤ size t))
      ⊎ ((a : ℕ) × (t' : Table p) × (insert t k w ≡ some (some a, t'))
          × IsValid t'
          × (size t' ≡ size t + 1)
          × (find t' k ≡ some a)
          × ((j : Bytes) → view t' j ≡ (if equal j k then some w else view t j))
          × (t'.cells a ≡ new_entry t.hash_seed k w)
          × ((f : Entry → Option Bytes) (j : Bytes) → equal j k ≡ false → look f t' j ≡ look f t j))
unfolding insert
insert_lem {p} t k w v small absent = elim (Option-cases (p.try_allocate t.pool)) [
  | inl full ↦ inl (rw (insert, full) refl, omega (arith, v.counted, p.allocate_full t.pool full))
  | inr ((a, s), taken) ↦
      let lv = link-IsValid t v k w small a s taken absent in
      let (l, e, count) = link_new_lem t v k w small a s taken in
      let (t', run, v', c, q, n) = maybe_grow_lem (link_new t k w a s) lv in
      inr (
        a,
        t',
        rw (insert, taken, run) refl,
        v',
        n ∙ count,
        (find_iff t' v' k a).1
            (ap (λ (x : p.State). p.live x a) q ∙ l, ap (λ (f : ℕ → Entry). key (f a)) c ∙ e),
        λ j.
            grow-look (λ x. some (value x)) (link_new t k w a s) t' j lv v' c q
            ∙ link-view t v k w small a s taken j absent lv,
        ap (λ (f : ℕ → Entry). f a) c ∙ link-cell t v k w small a s taken,
        λ f j other.
            grow-look f (link_new t k w a s) t' j lv v' c q
            ∙ link-look t v k w small a s taken f j lv other,
      )
]
