-- ===== src/Table/Invariant.antt =====
-- The invariant of the table: which blocks stand in which bucket, what is asked of their entries,
-- and the counts.
use tiny_redis.Base.{
  ℕ, ◌<◌, Bool, true, false, ◌&&◌, List, [], ◌≡◌, refl, sym, ◌∙◌, arith, get_or, length-replicate,
  max, leb, inl, inr, Bool-cases, ◌==◌, if◌then◌else◌,
}
use tiny_redis.Bits.{has_single_bit, next_pow2}
use tiny_redis.Bits.Pow2.{has_single_bit-pow, next_pow2-single}
use tiny_redis.Entry.{Entry, key}
use tiny_redis.Table.Cell.Content.{IsSound}
use tiny_redis.Table.Cell.{hash32}
use tiny_redis.Table.Chains.{count, total, get_or-replicate, total-replicate}
use tiny_redis.Table.Pool.{EntryPool}
use tiny_redis.Table.{Table, min_buckets, bucket_count, slot, new}

-- The blocks that `live` marks, and no others, stand once in the bucket that `home` names.
abbrev pub IsPlaced : List (List ℕ) → (ℕ → Bool) → (ℕ → ℕ) → Type 0
IsPlaced buckets live home =
    (a i : ℕ) → count a (get_or buckets i []) ≡ (if live a && home a == i then 1 else 0)

-- The home bucket of a block in a table of `n` buckets.
abbrev pub home_in : ℕ → (ℕ → Entry) → ℕ → ℕ
home_in n cells a = slot n (cells a).hash

-- The constructor never takes fewer buckets than the least number.
wider : (n : ℕ) → has_single_bit n ≡ true → has_single_bit (max min_buckets n) ≡ true
wider n h = elim (Bool-cases (leb n min_buckets)) [
  | inl few ↦ let e : max min_buckets n ≡ 4 = ground (arith, few) in rw e (has_single_bit-pow 2)
  | inr many ↦ let e : max min_buckets n ≡ n = ground (arith, many) in rw e h
]

module _ {p : EntryPool} where
  pub record IsValid (t : Table p) : Type 0 where
    pub wide : 0 < bucket_count t
    pub single : has_single_bit (bucket_count t) ≡ true
    pub placed : IsPlaced t.buckets (p.live t.pool) (home_in (bucket_count t) t.cells)
    pub sound : (a : ℕ) → p.live t.pool a ≡ true → IsSound (t.cells a)
    pub hashed :
        (a : ℕ) → p.live t.pool a ≡ true → (t.cells a).hash ≡ hash32 t.hash_seed (key (t.cells a))
    pub distinct :
        (a b : ℕ)
        → p.live t.pool a ≡ true
        → p.live t.pool b ≡ true
        → key (t.cells a) ≡ key (t.cells b)
        → a ≡ b
    pub linked : total t.buckets ≡ t.live_count
    pub counted : p.used t.pool ≡ t.live_count

  -- A new table is valid and empty.
  pub new-IsValid : (n seed : ℕ) (memory : ℕ → Entry) → IsValid (new {p = p} n seed memory)
  unfolding new
  new-IsValid n seed memory = record {
    wide = rw length-replicate (omega arith);
    single = rw length-replicate (wider (next_pow2 n) (next_pow2-single n));
    placed = λ a i. rw (get_or-replicate, p.live-empty a) refl;
    sound = λ a l. absurd (let x : true ≡ false = sym l ∙ p.live-empty a in cc);
    hashed = λ a l. absurd (let x : true ≡ false = sym l ∙ p.live-empty a in cc);
    distinct = λ a b l m e. absurd (let x : true ≡ false = sym l ∙ p.live-empty a in cc);
    linked = total-replicate _;
    counted = p.used-empty;
  }
