-- ===== src/Store/Deadline.antt =====
-- `setExpireAt`: a new deadline for a key that is there.
use tiny_redis.Base.Bytes.{Bytes, equal, equal_iff}
use tiny_redis.Base.Int.{ℤ, ltb_ℤ}
use tiny_redis.Base.{
  ℕ, true, false, ◌&&◌, ◌||◌, Option, none, some, ◌≡◌, refl, sym, ap, ◌∙◌, inl, inr, arith,
  if◌then◌else◌, Bool-cases,
}
use tiny_redis.Entry.{eqb_ℤ, no_expiry}
use tiny_redis.Store.Lookup.{fresh_at, visible, is_some, IsFound, lookup_lem}
use tiny_redis.Store.Set.Writes.{stamped, is_over, fresh_at-stamped, stamp_lem}
use tiny_redis.Store.{Store, lookup, drop_entry, stamp, set_expire_at, keep_ttl}
use tiny_redis.Table.Invariant.{IsValid}
use tiny_redis.Table.Pool.{EntryPool}
use tiny_redis.Table.Remove.{remove_lem}
use tiny_redis.Table.{Table, remove}

-- What can be seen once a deadline is set.
abbrev pub with_deadline : Bytes → ℤ → ℤ → (Bytes → Option Bytes) → Bytes → Option Bytes
with_deadline k at now f j = if ltb_ℤ at now && equal j k then none else f j

real_deadline :
    (at now : ℤ)
    → (eqb_ℤ at keep_ttl || eqb_ℤ at no_expiry) ≡ false
    → ltb_ℤ at now ≡ false
    → is_over at now ≡ false
real_deadline at now real later = ground (arith, real, later)

module _ {p : EntryPool} where
  expire_misses :
      (s s' : Store p) (k : Bytes) (at now : ℤ)
      → lookup s k now ≡ some (none, s')
      → set_expire_at s k at now ≡ some (false, s')
  unfolding set_expire_at
  expire_misses s s' k at now run = rw (set_expire_at, run) refl

  expire_drops :
      (s s' : Store p) (k : Bytes) (at now : ℤ) (a : ℕ) (t : Table p)
      → lookup s k now ≡ some (some a, s')
      → (eqb_ℤ at keep_ttl || eqb_ℤ at no_expiry) ≡ false
      → ltb_ℤ at now ≡ true
      → remove s'.table a ≡ some t
      → set_expire_at s k at now ≡ some (true, record s' { table = t })
  unfolding set_expire_at drop_entry
  expire_drops s s' k at now a t run real past gone =
      rw (set_expire_at, run, real, past, drop_entry, gone) refl

  expire_stamps :
      (s s' : Store p) (k : Bytes) (at now : ℤ) (a : ℕ)
      → lookup s k now ≡ some (some a, s')
      → (eqb_ℤ at keep_ttl || eqb_ℤ at no_expiry) ≡ false
      → ltb_ℤ at now ≡ false
      → set_expire_at s k at now ≡ some (true, stamp s' a at now)
  unfolding set_expire_at
  expire_stamps s s' k at now a run real later = rw (set_expire_at, run, real, later) refl

  -- What `setExpireAt` returns, and what can be seen after it.
  abbrev pub ExpireResult : Store p → Bytes → ℤ → ℤ → Type 0
  ExpireResult s k at now =
      (s' : Store p) × (set_expire_at s k at now ≡ some (is_some (visible s now k), s'))
      × IsValid s'.table
      × ((j : Bytes) → visible s' now j ≡ with_deadline k at now (visible s now) j)

  -- On a valid table, with a deadline that is no sentinel, `setExpireAt` returns whether the key could
  -- be seen; the table is valid after it, and what can be seen is the same, but for the key itself,
  -- which is gone if the deadline is past.
  pub set_expire_at_lem :
      (s : Store p) (k : Bytes) (at now : ℤ)
      → IsValid s.table
      → (eqb_ℤ at keep_ttl || eqb_ℤ at no_expiry) ≡ false
      → ExpireResult s k at now
  set_expire_at_lem s k at now v real =
      let (r, s', run, v', same, found) = lookup_lem s k now v in go r s' run v' same found
    where
      go :
          (r : Option ℕ) (s' : Store p)
          → lookup s k now ≡ some (r, s')
          → IsValid s'.table
          → ((j : Bytes) → visible s' now j ≡ visible s now j)
          → IsFound s' k now r
          → ExpireResult s k at now
      go none s' run v' same found = (
        s',
        expire_misses s s' k at now run
            ∙ ap (λ (o : Option Bytes). some (is_some o, s')) (sym found ∙ same k),
        v',
        λ j. elim (Bool-cases (ltb_ℤ at now && equal j k)) [
          | inl gone ↦
              let here : equal j k ≡ true = ground arith in
              rw gone (ap (visible s' now) ((equal_iff j k).0 here) ∙ found)
          | inr there ↦ rw there (same j)
        ],
      )
      go (some a) s' run v' same (l, e, fresh, seen) = elim (Bool-cases (ltb_ℤ at now)) [
        | inl past ↦
            let (t, gone, tv, _, looks) = remove_lem s'.table a v' l in
            (
              record s' { table = t },
              expire_drops s s' k at now a t run real past gone
                  ∙ ap (λ (o : Option Bytes). some (is_some o, record s' { table = t }))
                      (sym seen ∙ same k),
              tv,
              λ j.
                  looks (fresh_at now) j
                  ∙ ap (λ (x : Bytes). if equal j x then none else visible s' now j) e
                  ∙ ap (λ (o : Option Bytes). if equal j k then none else o) (same j)
                  ∙ rw past refl,
            )
        | inr later ↦
            let (v₁, looks) = stamp_lem s' a at now v' l in
            let over = real_deadline at now real later in
            (
              stamp s' a at now,
              expire_stamps s s' k at now a run real later
                  ∙ ap (λ (o : Option Bytes). some (is_some o, stamp s' a at now))
                      (sym seen ∙ same k),
              v₁,
              λ j.
                  looks (fresh_at now) j
                  ∙ ap
                      (λ (x : Bytes).
                        if equal j x
                        then fresh_at now (stamped (s'.table.cells a) at now)
                        else visible s' now j)
                      e
                  ∙ (elim (Bool-cases (equal j k)) [
                    | inl here ↦
                        rw (here, later)
                          (fresh_at-stamped (s'.table.cells a) at now over
                            ∙ sym seen
                            ∙ same k
                            ∙ ap (visible s now) (sym ((equal_iff j k).0 here)))
                    | inr there ↦ rw (there, later) (same j)
                  ]),
            )
      ]
