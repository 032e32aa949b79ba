-- ===== src/Store/Ttl.antt =====
-- The sentinels of `ttlMs`.
use tiny_redis.Base.Bytes.{Bytes}
use tiny_redis.Base.Int.{ℤ, negsuc, ltb_ℤ, ◌-ℤ◌}
use tiny_redis.Base.{
  ℕ, false, Option, none, some, ◌≡◌, ◌≢◌, ◌↔◌, refl, sym, ◌∙◌, inl, inr, arith, if◌then◌else◌,
  Bool-cases,
}
use tiny_redis.Entry.{Entry, value, expired, eqb_ℤ, no_expiry}
use tiny_redis.Store.Lookup.{visible, IsFound, lookup_lem}
use tiny_redis.Store.{Store, lookup, ttl_ms}
use tiny_redis.Table.Invariant.{IsValid}
use tiny_redis.Table.Pool.{EntryPool}

-- What `ttlMs` makes of an entry's deadline.
abbrev pub remaining : ℤ → ℤ → ℤ
remaining at now = if eqb_ℤ at no_expiry then no_expiry else at -ℤ now

difference : (at now : ℤ) → ltb_ℤ at now ≡ false → at -ℤ now ≢ negsuc 1
unfolding ◌-ℤ◌
difference at now h e = ground arith

remaining_lem :
    (e : Entry) (now : ℤ) → expired e now ≡ false → remaining e.expires_at_ms now ≢ negsuc 1
unfolding expired
remaining_lem e now fresh q = elim (Bool-cases (eqb_ℤ e.expires_at_ms no_expiry)) [
  | inl never ↦ let x : negsuc 0 ≡ negsuc 1 = rw never at q in ground arith
  | inr some_time ↦ difference e.expires_at_ms now (rw some_time at fresh) (rw some_time at q)
]

module _ {p : EntryPool} where
  ttl_misses :
      (s s' : Store p) (k : Bytes) (now : ℤ)
      → lookup s k now ≡ some (none, s')
      → ttl_ms s k now ≡ some (negsuc 1, s')
  unfolding ttl_ms
  ttl_misses s s' k now run = rw (ttl_ms, run)

  ttl_hits :
      (s s' : Store p) (k : Bytes) (now : ℤ) (a : ℕ)
      → lookup s k now ≡ some (some a, s')
      → ttl_ms s k now ≡ some (remaining (s'.table.cells a).expires_at_ms now, s')
  unfolding ttl_ms
  ttl_hits s s' k now a run = rw (ttl_ms, run)

  -- On a valid table `ttlMs` returns -2 exactly when no value can be seen under the key; the table is
  -- valid after it, and what can be seen is the same.
  pub ttl_ms_lem :
      (s : Store p) (k : Bytes) (now : ℤ)
      → IsValid s.table
      → (ms : ℤ) × (s' : Store p) × (ttl_ms s k now ≡ some (ms, s'))
        × IsValid s'.table
        × ((j : Bytes) → visible s' now j ≡ visible s now j)
        × ((ms ≡ negsuc 1) ↔ (visible s now k ≡ none))
  ttl_ms_lem s k now v =
      let (r, s', run, v', same, found) = lookup_lem s k now v in go r s' run v' same found
    where
      go :
          (r : Option ℕ) (s' : Store p)
          → lookup s k now ≡ some (r, s')
          → IsValid s'.table
          → ((j : Bytes) → visible s' now j ≡ visible s now j)
          → IsFound s' k now r
          → (ms : ℤ) × (s'' : Store p) × (ttl_ms s k now ≡ some (ms, s''))
            × IsValid s''.table
            × ((j : Bytes) → visible s'' now j ≡ visible s now j)
            × ((ms ≡ negsuc 1) ↔ (visible s now k ≡ none))
      go none s' run v' same found = (
        negsuc 1,
        s',
        ttl_misses s s' k now run,
        v',
        same,
        (λ e. sym (same k) ∙ found, λ e. refl),
      )
      go (some a) s' run v' same (l, e, fresh, seen) = (
        remaining (s'.table.cells a).expires_at_ms now,
        s',
        ttl_hits s s' k now a run,
        v',
        same,
        (
          λ q. absurd (remaining_lem (s'.table.cells a) now fresh q),
          λ q.
              let clash : none ≡ some (value (s'.table.cells a)) = sym q ∙ sym (same k) ∙ seen in
              absurd (let x = clash in cc),
        ),
      )
