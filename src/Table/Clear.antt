-- ===== src/Table/Clear.antt =====
-- `clear` against the pool and the map.
use tiny_redis.Base.Bytes.{Bytes}
use tiny_redis.Base.{
  ℕ, ◌+◌, true, false, none, List, [], ◌∷◌, ◌≡◌, refl, sym, ◌∙◌, arith, length, length-replicate,
  if◌then◌else◌,
}
use tiny_redis.Table.Chains.{count, total, get_or-replicate, total-replicate}
use tiny_redis.Table.Invariant.{IsValid}
use tiny_redis.Table.Pool.{EntryPool}
use tiny_redis.Table.Rehash.{count_all, count_all-live}
use tiny_redis.Table.View.{view, view-none}
use tiny_redis.Table.{Table, bucket_count, size, free_chain, free_all, clear}

-- The chain `c` and the buckets `cs` hold each block that is handed out once, and no other.
record Owns (p : EntryPool) (s : p.State) (c : List ℕ) (cs : List (List ℕ)) : Type 0 where
  each : (a : ℕ) → count a c + count_all a cs ≡ (if p.live s a then 1 else 0)
  used : p.used s ≡ length c + total cs

module _ {p : EntryPool} where
  free_chain_lem :
      (c : List ℕ) (cs : List (List ℕ)) (s : p.State)
      → Owns p s c cs
      → Owns p (free_chain p c s) [] cs
  unfolding free_chain
  free_chain_lem [] cs s o = o
  free_chain_lem (x ∷ xs) cs s o =
      let l : p.live s x ≡ true = ground (arith, o.each x) in
      free_chain_lem xs cs (p.deallocate s x) (record {
        each = λ a. let d = p.live-deallocate s x a l in ground (arith, o.each a, o.each x);
        used = omega (arith, o.used, p.used-deallocate s x l);
      })

  free_all_lem :
      (cs : List (List ℕ)) (s : p.State) → Owns p s [] cs → Owns p (free_all p cs s) [] []
  unfolding free_all
  free_all_lem [] s o = o
  free_all_lem (c ∷ cs) s o = free_all_lem cs (free_chain p c s) (
      free_chain_lem c cs s
        (record { each = λ a. omega (arith, o.each a); used = omega (arith, o.used) }))

  freed : (t : Table p) → IsValid t → Owns p (free_all p t.buckets t.pool) [] []
  freed t v = free_all_lem t.buckets t.pool (record {
    each = λ a. omega (arith, count_all-live t v a);
    used = omega (arith, v.linked, v.counted);
  })

  none_live : (t : Table p) → IsValid t → (a : ℕ) → p.live (free_all p t.buckets t.pool) a ≡ false
  none_live t v a = let o = freed t v in ground (arith, o.each a)

  -- `clear` on a valid table gives back every block that is handed out, and nothing twice: the table is
  -- valid, has no entry and as many buckets, and no key is found.
  pub clear_lem :
      (t : Table p)
      → IsValid t
      → IsValid (clear t)
        × (size (clear t) ≡ 0)
        × (bucket_count (clear t) ≡ bucket_count t)
        × ((j : Bytes) → view (clear t) j ≡ none)
  unfolding clear
  clear_lem t v =
      let absent = none_live t v in
      let o = freed t v in
      let valid : IsValid (clear t) = record {
        wide = rw length-replicate v.wide;
        single = rw length-replicate v.single;
        placed = λ a i. rw (get_or-replicate, absent a) refl;
        sound = λ a l. absurd (let x : true ≡ false = sym l ∙ absent a in cc);
        hashed = λ a l. absurd (let x : true ≡ false = sym l ∙ absent a in cc);
        distinct = λ a b l m e. absurd (let x : true ≡ false = sym l ∙ absent a in cc);
        linked = total-replicate _;
        counted = o.used;
      } in
      (
        valid,
        refl,
        length-replicate _ _,
        λ j. view-none (clear t) j valid (λ a l e. let x : true ≡ false = sym l ∙ absent a in cc),
      )
