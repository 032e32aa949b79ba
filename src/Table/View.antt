-- ===== src/Table/View.antt =====
-- What a table promises: a map from keys to values.
use tiny_redis.Base.Bytes.{Bytes}
use tiny_redis.Base.{ℕ, true, Option, none, some, ◌≡◌, ◌≢◌, sym, ◌∙◌, inl, inr, Option-cases}
use tiny_redis.Entry.{Entry, key, value}
use tiny_redis.Table.Invariant.{IsValid}
use tiny_redis.Table.Lookup.{find_iff}
use tiny_redis.Table.Pool.{EntryPool}
use tiny_redis.Table.{Table, find}

module _ {p : EntryPool} where
  -- What `f` reads off the entry that is found under a key.
  abbrev pub look : (Entry → Option Bytes) → Table p → Bytes → Option Bytes
  look f t j = elim (find t j) [ none ↦ none | some a ↦ f (t.cells a) ]

  -- The value that is found under a key.
  abbrev pub view : Table p → Bytes → Option Bytes
  view t j = look (λ e. some (value e)) t j

  module _ (f : Entry → Option Bytes) where
    pub look-at : (t : Table p) (j : Bytes) (a : ℕ) → find t j ≡ some a → look f t j ≡ f (t.cells a)
    look-at t j a e = rw (look, e)

    pub look-some :
        (t : Table p) (j : Bytes) (a : ℕ)
        → IsValid t
        → p.live t.pool a ≡ true
        → key (t.cells a) ≡ j
        → look f t j ≡ f (t.cells a)
    look-some t j a v l e = look-at t j a ((find_iff t v j a).1 (l, e))

    pub look-absent : (t : Table p) (j : Bytes) → find t j ≡ none → look f t j ≡ none
    look-absent t j e = rw (look, e)

    pub look-none :
        (t : Table p) (j : Bytes)
        → IsValid t
        → ((a : ℕ) → p.live t.pool a ≡ true → key (t.cells a) ≢ j)
        → look f t j ≡ none
    look-none t j v h = elim (Option-cases (find t j)) [
      | inl absent ↦ look-absent t j absent
      | inr (a, hit) ↦ let (l, e) = (find_iff t v j a).0 hit in absurd (h a l e)
    ]

    -- Two valid tables agree on a key when the live entries that have it are the same, and `f` reads
    -- the same off them.
    pub look-same :
        (t t' : Table p) (j : Bytes)
        → IsValid t
        → IsValid t'
        → ((a : ℕ)
            → p.live t.pool a ≡ true
            → key (t.cells a) ≡ j
            → (p.live t'.pool a ≡ true) × (key (t'.cells a) ≡ j) × (f (t'.cells a) ≡ f (t.cells a)))
        → ((a : ℕ)
            → p.live t'.pool a ≡ true
            → key (t'.cells a) ≡ j
            → (p.live t.pool a ≡ true) × (key (t.cells a) ≡ j))
        → look f t' j ≡ look f t j
    look-same t t' j v v' there back = elim (Option-cases (find t j)) [
      | inl absent ↦
          look-none t' j v' (λ a l e.
            let hit : find t j ≡ some a = (find_iff t v j a).1 (back a l e) in
            let clash : none ≡ some a = sym absent ∙ hit in cc)
          ∙ sym (look-absent t j absent)
      | inr (a, hit) ↦
          let (l, e) = (find_iff t v j a).0 hit in
          let (l', e', c) = there a l e in look-some t' j a v' l' e' ∙ c ∙ sym (look-at t j a hit)
    ]

  pub view-some :
      (t : Table p) (j : Bytes) (a : ℕ)
      → IsValid t
      → p.live t.pool a ≡ true
      → key (t.cells a) ≡ j
      → view t j ≡ some (value (t.cells a))
  view-some t j a v l e = look-some (λ x. some (value x)) t j a v l e

  pub view-none :
      (t : Table p) (j : Bytes)
      → IsValid t
      → ((a : ℕ) → p.live t.pool a ≡ true → key (t.cells a) ≢ j)
      → view t j ≡ none
  view-none t j v h = look-none (λ x. some (value x)) t j v h

  pub view-absent : (t : Table p) (j : Bytes) → view t j ≡ none → find t j ≡ none
  view-absent t j e = elim (Option-cases (find t j)) [
    | inl absent ↦ absent
    | inr (a, hit) ↦
        let clash : some (value (t.cells a)) ≡ none =
          sym (look-at (λ x. some (value x)) t j a hit) ∙ e in
        absurd (let x = clash in cc)
  ]
