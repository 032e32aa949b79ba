-- ===== src/Table/Remove.antt =====
-- `remove` against its chain, the pool and the map.
use tiny_redis.Base.Bytes.{Bytes, equal, equal_iff}
use tiny_redis.Base.{
  ℕ, Option, ◌+◌, ◌-◌, ◌<◌, true, false, ◌&&◌, none, some, List, [], ◌≡◌, ◌≢◌, refl, sym, ap, ◌∙◌,
  arith, inl, inr, length, get_or, set, length-set, ◌==◌, if◌then◌else◌, Bool-cases,
}
use tiny_redis.Entry.{Entry, key}
use tiny_redis.Table.Chains.{count, slot-lt, count-set, total-set, count-le, unlink_lem}
use tiny_redis.Table.Invariant.{home_in, IsValid}
use tiny_redis.Table.Pool.{EntryPool}
use tiny_redis.Table.View.{look, look-none, look-same}
use tiny_redis.Table.{Table, bucket_count, size, slot, unlink, remove}

module _ {p : EntryPool} (t : Table p) (v : IsValid t) (a : ℕ) (l : p.live t.pool a ≡ true) where
  abbrev home : ℕ
  home = slot (bucket_count t) (t.cells a).hash

  abbrev removed : List ℕ → Table p
  removed c = record t {
    buckets = set t.buckets home c;
    pool = p.deallocate t.pool a;
    live_count = t.live_count - 1;
  }

  at_home : 0 < count a (get_or t.buckets home [])
  at_home = ground (arith, v.placed a home)

  not_empty : 0 < t.live_count
  not_empty =
      let low = slot-lt (bucket_count t) (t.cells a).hash v.wide in
      omega (
        arith,
        at_home,
        v.linked,
        total-set t.buckets home [] low,
        count-le a (get_or t.buckets home []),
      )

  -- A block that is still handed out is not `a`.
  still_live :
      (b : ℕ)
      → p.live (p.deallocate t.pool a) b ≡ true
      → ((a == b) ≡ false) × (p.live t.pool b ≡ true)
  still_live b lb = let d = p.live-deallocate t.pool a b l in ground (arith, d)

  module _ (c : List ℕ) (len : length c + 1 ≡ length (get_or t.buckets home []))
      (counts : (b : ℕ)
        → count b c + (if a == b then 1 else 0) ≡ count b (get_or t.buckets home [])) where
    removed_placed :
        (b j : ℕ)
        → count b (get_or (set t.buckets home c) j []) ≡ (
            if p.live (p.deallocate t.pool a) b && home_in (bucket_count t) t.cells b == j
            then 1
            else 0)
    removed_placed b j =
        let k = count-set b home j t.buckets c (slot-lt (bucket_count t) (t.cells a).hash v.wide) in
        let left = p.live-deallocate t.pool a b l in
        elim (Bool-cases (a == b)) [
          | inl same ↦
              let q : a ≡ b = ground arith in
              let q' : home ≡ home_in (bucket_count t) t.cells b =
                ap (home_in (bucket_count t) t.cells) q in
              rw (k, left, same) (ground (arith, counts b, v.placed b home, v.placed b j))
          | inr apart ↦ elim (Bool-cases (home == j)) [
            | inl here ↦
                let r : home ≡ j = ground arith in
                let same_count : count b c ≡ count b (get_or t.buckets home []) =
                  ground (arith, counts b) in
                rw (k, left, apart, here, ← r) (same_count ∙ v.placed b home)
            | inr there ↦ rw (k, left, apart, there) (v.placed b j)
          ]
        ]

    removed-IsValid : IsValid (removed c)
    removed-IsValid =
        let low = slot-lt (bucket_count t) (t.cells a).hash v.wide in
        record {
          wide = rw length-set v.wide;
          single = rw length-set v.single;
          placed = λ b j. rw length-set (removed_placed b j);
          sound = λ b lb. v.sound b ((still_live b lb).1);
          hashed = λ b lb. v.hashed b ((still_live b lb).1);
          distinct = λ b d lb ld e. v.distinct b d ((still_live b lb).1) ((still_live d ld).1) e;
          linked = omega (arith, v.linked, total-set t.buckets home c low, not_empty);
          counted = omega (arith, v.counted, p.used-deallocate t.pool a l);
        }

    removed-look :
        (f : Entry → Option Bytes) (j : Bytes)
        → look f (removed c) j ≡ (if equal j (key (t.cells a)) then none else look f t j)
    removed-look f j = elim (Bool-cases (equal j (key (t.cells a)))) [
      | inl same ↦ rw same (
          look-none f (removed c) j removed-IsValid
            (λ b lb e. gone b lb (e ∙ (equal_iff j _).0 same)))
      | inr other ↦ rw other (
          look-same f t (removed c) j v removed-IsValid (λ b lb e. (kept b j other lb e, e, refl))
            (λ b lb e. ((still_live b lb).1, e)))
    ]
      where
        kept :
            (b : ℕ) (j : Bytes)
            → equal j (key (t.cells a)) ≡ false
            → p.live t.pool b ≡ true
            → key (t.cells b) ≡ j
            → p.live (p.deallocate t.pool a) b ≡ true
        kept b j other lb e = elim (Bool-cases (a == b)) [
          | inl same ↦
              let q : a ≡ b = ground arith in
              let m =
                (equal_iff j (key (t.cells a))).1
                  (sym e ∙ ap (λ (i : ℕ). key (t.cells i)) (sym q)) in
              absurd (let z : true ≡ false = sym m ∙ other in cc)
          | inr apart ↦ rw (p.live-deallocate t.pool a b l, apart) lb
        ]

        gone : (b : ℕ) → p.live (p.deallocate t.pool a) b ≡ true → key (t.cells b) ≢ key (t.cells a)
        gone b lb e =
            let (apart, old) = still_live b lb in let q = v.distinct b a old l e in ground arith

-- An entry of a valid table: `remove` finds it in its chain, the table is valid and has one entry
-- less, and whatever is read off the entry under a key, its value or its deadline, is as before but
-- for the removed entry's key, which is gone.
pub remove_lem :
    {p : EntryPool} (t : Table p) (a : ℕ)
    → IsValid t
    → p.live t.pool a ≡ true
    → (t' : Table p) × (remove t a ≡ some t')
      × IsValid t'
      × (size t' + 1 ≡ size t)
      × ((f : Entry → Option Bytes) (j : Bytes)
          → look f t' j ≡ (if equal j (key (t.cells a)) then none else look f t j))
unfolding remove
remove_lem {p} t a v l =
    let (c, run, len, counts) =
      unlink_lem a (get_or t.buckets (home t v a l) []) (at_home t v a l) in
    (
      removed t v a l c,
      rw (remove, run) refl,
      removed-IsValid t v a l c len counts,
      omega (arith, not_empty t v a l),
      removed-look t v a l c len counts,
    )

-- What `remove` leaves of the pool and of the blocks' memory.
pub remove-pool :
    {p : EntryPool} (t t' : Table p) (a : ℕ)
    → remove t a ≡ some t'
    → (t'.pool ≡ p.deallocate t.pool a) × (t'.cells ≡ t.cells)
unfolding remove
remove-pool {p} t t' a run =
    on (unlink a (get_or t.buckets (slot (bucket_count t) (t.cells a).hash) [])) run
  where
    on :
        (o : Option (List ℕ))
        → (elim o as (λ _. Option (Table p)) [
          | none ↦ none
          | some chain ↦ some (record t {
            buckets = set t.buckets (slot (bucket_count t) (t.cells a).hash) chain;
            pool = p.deallocate t.pool a;
            live_count = t.live_count - 1;
          })
        ])
          ≡ some t'
        → (t'.pool ≡ p.deallocate t.pool a) × (t'.cells ≡ t.cells)
    on none e = absurd (let x : none ≡ some t' = e in cc)
    on (some chain) e =
        let pool_of : Option (Table p) → p.State =
          λ o. elim o [ none ↦ t.pool | some u ↦ u.pool ] in
        let cells_of : Option (Table p) → (ℕ → Entry) =
          λ o. elim o [ none ↦ t.cells | some u ↦ u.cells ] in
        (sym (ap pool_of e), sym (ap cells_of e))
