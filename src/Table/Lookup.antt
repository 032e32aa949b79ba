-- ===== src/Table/Lookup.antt =====
-- `find` against the set of live entries.
use tiny_redis.Base.Bytes.{Bytes, equal_iff}
use tiny_redis.Base.{
  ℕ, ◌<◌, true, false, none, some, [], ◌≡◌, ◌↔◌, sym, ap, ◌∙◌, arith, inl, inr, length, get_or,
  Option-cases,
}
use tiny_redis.Entry.{key}
use tiny_redis.Table.Cell.Content.{length-key}
use tiny_redis.Table.Cell.{hash32}
use tiny_redis.Table.Chains.{count, matches, find_in-some, find_in-none}
use tiny_redis.Table.Invariant.{IsValid}
use tiny_redis.Table.Pool.{EntryPool}
use tiny_redis.Table.{Table, bucket_count, slot, find}

module _ {p : EntryPool} (t : Table p) (v : IsValid t) (k : Bytes) where
  find-live : (a : ℕ) → find t k ≡ some a → (p.live t.pool a ≡ true) × (key (t.cells a) ≡ k)
  unfolding find
  find-live a e =
      let h = hash32 t.hash_seed k in
      let (low, m) = find_in-some t.cells h k (get_or t.buckets (slot (bucket_count t) h) []) a e in
      (
        ground (arith, v.placed a (slot (bucket_count t) h)),
        ground (arith, equal_iff (key (t.cells a)) k),
      )

  absent-matches :
      (a : ℕ)
      → find t k ≡ none
      → 0 < count a (get_or t.buckets (slot (bucket_count t) (hash32 t.hash_seed k)) [])
      → matches t.cells (hash32 t.hash_seed k) k a ≡ false
  unfolding find
  absent-matches a e low = find_in-none t.cells (hash32 t.hash_seed k) k _ a e low

  live-matches :
      (a : ℕ)
      → p.live t.pool a ≡ true
      → key (t.cells a) ≡ k
      → (matches t.cells (hash32 t.hash_seed k) k a ≡ true)
        × (0 < count a (get_or t.buckets (slot (bucket_count t) (hash32 t.hash_seed k)) []))
  live-matches a l e =
      let h : (t.cells a).hash ≡ hash32 t.hash_seed k = v.hashed a l ∙ ap (hash32 t.hash_seed) e in
      let n : (t.cells a).key_len ≡ length k =
        sym (length-key (t.cells a) (v.sound a l)) ∙ ap length e in
      let home : slot (bucket_count t) (t.cells a).hash
          ≡ slot (bucket_count t) (hash32 t.hash_seed k) =
        ap (slot (bucket_count t)) h in
      (
        ground (arith, equal_iff (key (t.cells a)) k),
        ground (arith, v.placed a (slot (bucket_count t) (hash32 t.hash_seed k))),
      )

  -- On a valid table `find` returns block `a` exactly when `a` is handed out and its entry has the key
  -- that is looked for.
  pub find_iff : (a : ℕ) → (find t k ≡ some a) ↔ ((p.live t.pool a ≡ true) × (key (t.cells a) ≡ k))
  find_iff a = (find-live a, λ h. present h.0 h.1)
    where
      present : p.live t.pool a ≡ true → key (t.cells a) ≡ k → find t k ≡ some a
      present l e = elim (Option-cases (find t k)) [
        | inl absent ↦
            let (m, low) = live-matches a l e in
            let m' = absent-matches a absent low in absurd (let x : true ≡ false = sym m ∙ m' in cc)
        | inr (b, hit) ↦
            let (lb, eb) = find-live b hit in hit ∙ ap some (v.distinct b a lb l (eb ∙ sym e))
      ]
