-- ===== src/Table.antt =====
-- src/core/table.h and src/core/table.cpp: the chained hash table. An `Entry*` is the number of its
-- pool block; `cells` is the pool's memory, and a bucket is the list of the blocks that its `next`
-- links chain together. The pool allocator is third-party code and is the parameter `Pool`.
pub mod Pool
pub mod Cell
pub mod Chains
pub mod Invariant
pub mod Lookup
pub mod View
pub mod Update
pub mod Rehash
pub mod Insert
pub mod Remove
pub mod Clear
use Prim.Native.Nat.{bit_and}
use tiny_redis.Base.Bytes.{Bytes, equal}
use tiny_redis.Base.Int.{ℤ}
use tiny_redis.Base.{
  ℕ, zero, suc, ◌+◌, ◌-◌, ◌*◌, ◌%◌, max, min, Bool, true, false, ◌&&◌, ◌||◌, not, Option, none,
  some, List, [], ◌∷◌, ◌++◌, length, get_or, set, replicate, take, ltb, leb, ◌==◌, if◌then◌else◌,
}
use tiny_redis.Bits.{next_pow2, has_single_bit, next_cursor, splitmix64}
use tiny_redis.Buffer.{copy_at}
use tiny_redis.Entry.{
  Entry, Storage, inline_buf, heap_buf, inline_bytes, heap_bytes, no_expiry, inline_cap, u32,
  spills, spilled, key,
}
use tiny_redis.Hash.{hash_bytes}
use tiny_redis.Table.Pool.{EntryPool}
use tiny_redis.Table.Cell.{hash32, new_entry, assign_entry}

abbrev pub min_buckets : ℕ
min_buckets = 4

pub record Table (p : EntryPool) : Type 0 where
  pub buckets : List (List ℕ)
  pub pool : p.State
  pub cells : ℕ → Entry
  pub live_count : ℕ
  pub hash_seed : ℕ

-- `h & (bucketCount() - 1)`
unfoldable pub slot : ℕ → ℕ → ℕ
slot buckets h = bit_and h (buckets - 1)

abbrev pub update : (ℕ → Entry) → ℕ → Entry → ℕ → Entry
update cells a e b = if a == b then e else cells b

-- The walk of `find` along one chain.
unfoldable pub find_in : (ℕ → Entry) → ℕ → Bytes → List ℕ → Option ℕ
find_in cells h k [] = none
find_in cells h k (e ∷ es) =
    if (cells e).hash == h && ((cells e).key_len == length k && equal (key (cells e)) k)
    then some e
    else find_in cells h k es

-- The walk of `remove` to the link that holds `e`; `none` is the failed assertion.
unfoldable pub unlink : ℕ → List ℕ → Option (List ℕ)
unlink e [] = none
unlink e (x ∷ xs) =
    if x == e then some xs else elim (unlink e xs) [ none ↦ none | some ys ↦ some (x ∷ ys) ]

-- The inner loop of `rehash`: each entry of a chain goes to the front of its new bucket.
unfoldable pub relink_chain : (ℕ → Entry) → ℕ → List ℕ → List (List ℕ) → List (List ℕ)
relink_chain cells n [] next = next
relink_chain cells n (e ∷ es) next =
    let i = slot n (cells e).hash in relink_chain cells n es (set next i (e ∷ get_or next i []))

unfoldable pub relink_all : (ℕ → Entry) → ℕ → List (List ℕ) → List (List ℕ) → List (List ℕ)
relink_all cells n [] next = next
relink_all cells n (c ∷ cs) next = relink_all cells n cs (relink_chain cells n c next)

-- The loops of `sampleSome`: `budget` buckets, whole chains, until `room` entries are taken.
unfoldable pub sample_walk : List (List ℕ) → ℕ → ℕ → ℕ → List ℕ
sample_walk buckets zero idx room = []
sample_walk buckets (suc budget) idx room =
    let chain = get_or buckets idx [] in
    let taken = take room chain in
    let rest =
      sample_walk buckets budget (bit_and (idx + 1) (length buckets - 1)) (room - length taken) in
    if room == 0 then [] else taken ++ rest

-- The loop of `scanBucket`. The next link is read before the visit, so a visit may remove its entry:
-- the walk is over the chain as it was. `none` is a visit that fails an assertion.
unfoldable pub visit_all : {S : Type 0} → (ℕ → S → Option S) → List ℕ → S → Option S
visit_all visit [] s = some s
visit_all visit (a ∷ chain) s = elim (visit a s) [
  | none ↦ none
  | some s' ↦ visit_all visit chain s'
]

-- The inner and the outer loop of `clear`.
unfoldable pub free_chain : (p : EntryPool) → List ℕ → p.State → p.State
free_chain p [] pool = pool
free_chain p (a ∷ rest) pool = free_chain p rest (p.deallocate pool a)

unfoldable pub free_all : (p : EntryPool) → List (List ℕ) → p.State → p.State
free_all p [] pool = pool
free_all p (c ∷ cs) pool = free_all p cs (free_chain p c pool)

module _ {p : EntryPool} where
  abbrev pub bucket_count : Table p → ℕ
  bucket_count t = length t.buckets

  abbrev pub size : Table p → ℕ
  size t = t.live_count

  -- The constructor.
  unfoldable pub new : ℕ → ℕ → (ℕ → Entry) → Table p
  new initial_buckets seed memory = record {
    buckets = replicate (max min_buckets (next_pow2 initial_buckets)) [];
    pool = p.empty;
    cells = memory;
    live_count = 0;
    hash_seed = seed;
  }

  unfoldable pub find : Table p → Bytes → Option ℕ
  find t k =
      let h = hash32 t.hash_seed k in
      find_in t.cells h k (get_or t.buckets (slot (bucket_count t) h) [])

  -- `none` is the failed assertion on the new number of buckets.
  unfoldable pub rehash : Table p → ℕ → Option (Table p)
  rehash t n = elim (has_single_bit n && leb (bucket_count t) n) [
    | false ↦ none
    | true ↦ some (record t { buckets = relink_all t.cells n t.buckets (replicate n []) })
  ]

  unfoldable pub maybe_grow : Table p → Option (Table p)
  unfolding rehash
  maybe_grow t = if ltb (bucket_count t) t.live_count then rehash t (bucket_count t * 2) else some t

  -- The block is taken: the entry is written and goes to the front of its bucket.
  unfoldable pub link_new : Table p → Bytes → Bytes → ℕ → p.State → Table p
  link_new t k v a pool =
      let e = new_entry t.hash_seed k v in
      let i = slot (bucket_count t) e.hash in
      record t {
        buckets = set t.buckets i (a ∷ get_or t.buckets i []);
        pool = pool;
        cells = update t.cells a e;
        live_count = t.live_count + 1;
      }

  -- The block is `none` for the null pointer of a full pool.
  unfoldable pub insert : Table p → Bytes → Bytes → Option (Option ℕ × Table p)
  unfolding maybe_grow
  insert t k v = elim (p.try_allocate t.pool) [
    | none ↦ some (none, t)
    | some (a, pool) ↦ elim (maybe_grow (link_new t k v a pool)) [
      | none ↦ none
      | some t' ↦ some (some a, t')
    ]
  ]

  unfoldable pub assign : Table p → ℕ → Bytes → Table p
  assign t a v = record t { cells = update t.cells a (assign_entry (t.cells a) v) }

  unfoldable pub remove : Table p → ℕ → Option (Table p)
  remove t a =
      let i = slot (bucket_count t) (t.cells a).hash in
      elim (unlink a (get_or t.buckets i [])) [
        | none ↦ none
        | some chain ↦ some (record t {
          buckets = set t.buckets i chain;
          pool = p.deallocate t.pool a;
          live_count = t.live_count - 1;
        })
      ]

  unfoldable pub clear : Table p → Table p
  clear t = record t {
    buckets = replicate (bucket_count t) [];
    pool = free_all p t.buckets t.pool;
    live_count = 0;
  }

  -- The entries written to a span of `room`, and the advanced generator.
  unfoldable pub sample_some : Table p → ℕ → ℕ → List ℕ × ℕ
  sample_some t room rng =
      if size t == 0 || room == 0
      then ([], rng)
      else (let (draw, rng') = splitmix64 rng in
          (
            sample_walk t.buckets (min (room * 10) (bucket_count t))
                (bit_and draw (bucket_count t - 1)) room,
            rng',
          ))

  -- The next cursor, and what the visits made of `s`.
  unfoldable pub scan_bucket : {S : Type 0} → Table p → ℕ → (ℕ → S → Option S) → S → Option (ℕ × S)
  unfolding visit_all
  scan_bucket t cursor visit s =
      let mask = bucket_count t - 1 in
      elim (visit_all visit (get_or t.buckets (bit_and cursor mask) []) s) [
        | none ↦ none
        | some s' ↦ some (next_cursor cursor mask, s')
      ]
