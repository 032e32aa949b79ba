-- ===== src/Table/Rehash.antt =====
-- `rehash`: the buckets that the entries go to.
use tiny_redis.Base.{
  ℕ, zero, suc, ◌+◌, ◌*◌, ltb, leb, true, some, ◌<◌, ◌≤◌, List, [], ◌∷◌, ◌≡◌, refl, ap, ◌∙◌, arith,
  inl, inr, length, get_or, set, replicate, length-replicate, length-set, ◌==◌, if◌then◌else◌,
  Bool-cases,
}
use tiny_redis.Bits.{has_single_bit}
use tiny_redis.Bits.Pow2.{has_single_bit-double}
use tiny_redis.Entry.{Entry}
use tiny_redis.Table.Chains.{
  count, total, slot-lt, count-set, total-set, total-replicate, get_or-replicate,
}
use tiny_redis.Table.Invariant.{home_in, IsValid}
use tiny_redis.Table.Pool.{EntryPool}
use tiny_redis.Table.{Table, bucket_count, slot, relink_chain, relink_all, size, rehash, maybe_grow}

abbrev pub count_all : ℕ → List (List ℕ) → ℕ
count_all a [] = 0
count_all a (c ∷ cs) = count a c + count_all a cs

count_all-zero :
    (a : ℕ) (bs : List (List ℕ)) → ((i : ℕ) → count a (get_or bs i []) ≡ 0) → count_all a bs ≡ 0
count_all-zero a [] h = refl
count_all-zero a (c ∷ cs) h = omega (arith, h 0, count_all-zero a cs (λ i. h (suc i)))

-- A block that stands in one bucket only is counted there.
count_all-one :
    (a home n : ℕ) (bs : List (List ℕ))
    → ((i : ℕ) → count a (get_or bs i []) ≡ (if home == i then n else 0))
    → home < length bs
    → count_all a bs ≡ n
count_all-one a home n [] h l = absurd (omega arith)
count_all-one a zero n (c ∷ cs) h l =
    let rest =
      count_all-zero a cs
        (λ i. let x : count a (get_or (c ∷ cs) (suc i) []) ≡ 0 = ground (arith, h (suc i)) in x) in
    ground (arith, h 0, rest)
count_all-one a (suc home) n (c ∷ cs) h l =
    let rest = count_all-one a home n cs (λ i. ground (arith, h (suc i))) (omega arith) in
    ground (arith, h 0, rest)

module _ (cells : ℕ → Entry) (n : ℕ) (wide : 0 < n) where
  -- A block that was put in front of its bucket.
  moved_count :
      (e a j : ℕ) (next : List (List ℕ)) (m : ℕ)
      → length next ≡ n
      → (let i = slot n (cells e).hash in
          count a (get_or (set next i (e ∷ get_or next i [])) j [])
            + (if home_in n cells a == j then m else 0)
          ≡ count a (get_or next j [])
            + (if home_in n cells a == j then (if e == a then 1 else 0) + m else 0))
  moved_count e a j next m l =
      let i = slot n (cells e).hash in
      let low : i < length next = rw l (slot-lt n (cells e).hash wide) in
      let c = count-set a i j next (e ∷ get_or next i []) low in
      elim (Bool-cases (e == a)) [
        | inl same ↦
            let q : e ≡ a = ground arith in
            let home : i ≡ home_in n cells a = ap (home_in n cells) q in
            elim (Bool-cases (i == j)) [
              | inl here ↦
                  let r : i ≡ j = ground arith in
                  ground (arith, c, ap (λ x. count a (get_or next x [])) r)
              | inr there ↦ ground (arith, c)
            ]
        | inr other ↦ elim (Bool-cases (i == j)) [
          | inl here ↦
              let r : i ≡ j = ground arith in
              ground (arith, c, ap (λ x. count a (get_or next x [])) r)
          | inr there ↦ ground (arith, c)
        ]
      ]

  -- What one chain adds to the new buckets.
  relink_chain_lem :
      (c : List ℕ) (next : List (List ℕ))
      → length next ≡ n
      → (length (relink_chain cells n c next) ≡ n)
        × (total (relink_chain cells n c next) ≡ total next + length c)
        × ((a i : ℕ)
            → count a (get_or (relink_chain cells n c next) i [])
              ≡ count a (get_or next i []) + (if home_in n cells a == i then count a c else 0))
  unfolding relink_chain
  relink_chain_lem [] next l = (l, omega arith, λ a i. ground arith)
  relink_chain_lem (e ∷ es) next l =
      let i = slot n (cells e).hash in
      let low : i < length next = rw l (slot-lt n (cells e).hash wide) in
      let moved = e ∷ get_or next i [] in
      let (len, sum, counts) =
        relink_chain_lem es (set next i moved) (length-set next i moved ∙ l) in
      (
        len,
        omega (arith, sum, total-set next i moved low),
        λ a j. counts a j ∙ moved_count e a j next (count a es) l,
      )

  relink_all_lem :
      (cs next : List (List ℕ))
      → length next ≡ n
      → (length (relink_all cells n cs next) ≡ n)
        × (total (relink_all cells n cs next) ≡ total next + total cs)
        × ((a i : ℕ)
            → count a (get_or (relink_all cells n cs next) i [])
              ≡ count a (get_or next i []) + (if home_in n cells a == i then count_all a cs else 0))
  unfolding relink_all
  relink_all_lem [] next l = (l, omega arith, λ a i. ground arith)
  relink_all_lem (c ∷ cs) next l =
      let (len, sum, counts) = relink_chain_lem c next l in
      let (len', sum', counts') = relink_all_lem cs (relink_chain cells n c next) len in
      (len', omega (arith, sum, sum'), λ a j. ground (arith, counts a j, counts' a j))

module _ {p : EntryPool} (t : Table p) (v : IsValid t) where
  pub count_all-live : (a : ℕ) → count_all a t.buckets ≡ (if p.live t.pool a then 1 else 0)
  count_all-live a =
      count_all-one a (home_in (bucket_count t) t.cells a) _ t.buckets
        (λ i. ground (arith, v.placed a i)) (slot-lt (bucket_count t) (t.cells a).hash v.wide)

  -- The table with its entries moved to `n` buckets.
  abbrev relinked : ℕ → Table p
  relinked n = record t { buckets = relink_all t.cells n t.buckets (replicate n []) }

  relinked-IsValid :
      (n : ℕ)
      → has_single_bit n ≡ true
      → 0 < n
      → IsValid (relinked n) × (bucket_count (relinked n) ≡ n)
  relinked-IsValid n single wide =
      let (len, sum, counts) =
        relink_all_lem t.cells n wide t.buckets (replicate n []) (length-replicate n []) in
      (
        record {
          wide = omega (arith, len);
          single = rw len single;
          placed = λ a i. rw (len, counts a i, get_or-replicate, count_all-live a) (ground arith);
          sound = v.sound;
          hashed = v.hashed;
          distinct = v.distinct;
          linked = omega (arith, sum, total-replicate n, v.linked);
          counted = v.counted;
        },
        len,
      )

  -- `rehash` to a power of two that is not less than the number of buckets meets its assertion and
  -- keeps a valid table valid; the entries, the pool and the count are not touched.
  pub rehash_lem :
      (n : ℕ)
      → has_single_bit n ≡ true
      → bucket_count t ≤ n
      → (t' : Table p) × (rehash t n ≡ some t')
        × IsValid t'
        × (bucket_count t' ≡ n)
        × (t'.cells ≡ t.cells)
        × (t'.pool ≡ t.pool)
        × (size t' ≡ size t)
  unfolding rehash
  rehash_lem n single more =
      let (valid, len) = relinked-IsValid n single (omega (arith, v.wide)) in
      let enough : leb (bucket_count t) n ≡ true = ground arith in
      (relinked n, rw (rehash, single, enough) refl, valid, len, refl, refl, refl)

  pub maybe_grow_lem :
      (t' : Table p) × (maybe_grow t ≡ some t')
      × IsValid t'
      × (t'.cells ≡ t.cells)
      × (t'.pool ≡ t.pool)
      × (size t' ≡ size t)
  unfolding maybe_grow
  maybe_grow_lem = elim (Bool-cases (ltb (bucket_count t) t.live_count)) [
    | inl full ↦
        let (t', run, w, len, c, q, s) =
          rehash_lem (bucket_count t * 2) (has_single_bit-double (bucket_count t) v.single)
            (omega arith) in
        (t', rw (maybe_grow, full) run, w, c, q, s)
    | inr room ↦ (t, rw (maybe_grow, room) refl, v, refl, refl, refl)
  ]
