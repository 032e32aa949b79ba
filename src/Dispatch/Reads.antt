-- ===== src/Dispatch/Reads.antt =====
-- The replies of GET and EXISTS.
use tiny_redis.Base.Bytes.{Bytes}
use tiny_redis.Base.Int.{ℤ, pos}
use tiny_redis.Base.{
  ℕ, ◌+◌, arith, false, List, [], ◌∷◌, refl, if◌then◌else◌, true, Option, none, some, ◌≡◌, sym, ap,
  ◌∙◌,
}
use tiny_redis.Buffer.{Buffer}
use tiny_redis.Dispatch.Words.{arg, args_from}
use tiny_redis.Dispatch.{cmd_get, count_found, cmd_exists}
use tiny_redis.Entry.{value}
use tiny_redis.Resp.Reply.{integer, bulk, null_bulk}
use tiny_redis.Resp.{Command}
use tiny_redis.Store.Find.{find_lem}
use tiny_redis.Store.Lookup.{visible, is_some, IsFound}
use tiny_redis.Store.{Store, find}
use tiny_redis.Table.Invariant.{IsValid}
use tiny_redis.Table.Pool.{EntryPool}

-- The bulk string of a value, or the null bulk.
abbrev pub bulk_or_null : Buffer → Option Bytes → Buffer
bulk_or_null out none = null_bulk out
bulk_or_null out (some w) = bulk out w

module _ {p : EntryPool} where
  get_misses :
      (s s' : Store p) (cmd : Command) (now : ℤ) (out : Buffer)
      → find s (arg cmd 1) now true ≡ some (none, s')
      → cmd_get s cmd now out ≡ some (s', null_bulk out)
  unfolding cmd_get
  get_misses s s' cmd now out run = rw (cmd_get, run)

  get_hits :
      (s s' : Store p) (cmd : Command) (now : ℤ) (out : Buffer) (a : ℕ)
      → find s (arg cmd 1) now true ≡ some (some a, s')
      → cmd_get s cmd now out ≡ some (s', bulk out (value (s'.table.cells a)))
  unfolding cmd_get
  get_hits s s' cmd now out a run = rw (cmd_get, run)

  -- GET on a valid table replies with the value that can be seen under its key, or with the null bulk
  -- when there is none; the table is valid after it, and what can be seen is the same.
  pub cmd_get_lem :
      (s : Store p) (cmd : Command) (now : ℤ) (out : Buffer)
      → IsValid s.table
      → (s' : Store p) × (cmd_get s cmd now out
          ≡ some (s', bulk_or_null out (visible s now (arg cmd 1))))
        × IsValid s'.table
        × ((j : Bytes) → visible s' now j ≡ visible s now j)
  cmd_get_lem s cmd now out v =
      let (r, s', run, v', same, found) = find_lem s (arg cmd 1) now true v in
      go r s' run v' same found
    where
      go :
          (r : Option ℕ) (s' : Store p)
          → find s (arg cmd 1) now true ≡ some (r, s')
          → IsValid s'.table
          → ((j : Bytes) → visible s' now j ≡ visible s now j)
          → IsFound s' (arg cmd 1) now r
          → (s'' : Store p) × (cmd_get s cmd now out
              ≡ some (s'', bulk_or_null out (visible s now (arg cmd 1))))
            × IsValid s''.table
            × ((j : Bytes) → visible s'' now j ≡ visible s now j)
      go none s' run v' same found = (
        s',
        get_misses s s' cmd now out run
            ∙ ap (λ (o : Option Bytes). some (s', bulk_or_null out o))
                (sym found ∙ same (arg cmd 1)),
        v',
        same,
      )
      go (some a) s' run v' same (l, e, fresh, seen) = (
        s',
        get_hits s s' cmd now out a run
            ∙ ap (λ (o : Option Bytes). some (s', bulk_or_null out o))
                (sym seen ∙ same (arg cmd 1)),
        v',
        same,
      )

-- How many of the keys, repeated ones each time, are in the map.
abbrev pub count_seen : List Bytes → (Bytes → Option Bytes) → ℕ
count_seen [] f = 0
count_seen (k ∷ ks) f = (if is_some (f k) then 1 else 0) + count_seen ks f

module _ {p : EntryPool} where
  count_found-nil : (s : Store p) (now : ℤ) (n : ℕ) → count_found [] now n s ≡ some (n, s)
  unfolding count_found
  count_found-nil s now n = refl

  count_found_misses :
      (s s' : Store p) (k : Bytes) (ks : List Bytes) (now : ℤ) (n : ℕ)
      → find s k now false ≡ some (none, s')
      → count_found (k ∷ ks) now n s ≡ count_found ks now n s'
  unfolding count_found
  count_found_misses s s' k ks now n run = rw (count_found, run)

  count_found_hits :
      (s s' : Store p) (k : Bytes) (ks : List Bytes) (now : ℤ) (n a : ℕ)
      → find s k now false ≡ some (some a, s')
      → count_found (k ∷ ks) now n s ≡ count_found ks now (n + 1) s'
  unfolding count_found
  count_found_hits s s' k ks now n a run = rw (count_found, run)

  -- One round, whether it finds the key or not.
  count_found_step :
      (s s' : Store p) (k : Bytes) (ks : List Bytes) (now : ℤ) (n : ℕ) (r : Option ℕ)
      → find s k now false ≡ some (r, s')
      → IsFound s' k now r
      → count_found (k ∷ ks) now n s
        ≡ count_found ks now (n + (if is_some (visible s' now k) then 1 else 0)) s'
  count_found_step s s' k ks now n none run found =
      count_found_misses s s' k ks now n run
      ∙ ap (λ (m : ℕ). count_found ks now m s') (rw found (omega arith))
  count_found_step s s' k ks now n (some a) run (l, e, fresh, seen) =
      count_found_hits s s' k ks now n a run
      ∙ ap (λ (m : ℕ). count_found ks now m s') (rw seen (omega arith))

  count_found_lem :
      (ks : List Bytes) (now : ℤ) (n : ℕ) (s : Store p)
      → IsValid s.table
      → (s' : Store p) × (count_found ks now n s ≡ some (n + count_seen ks (visible s now), s'))
        × IsValid s'.table
        × (visible s' now ≡ visible s now)
  count_found_lem [] now n s v = (
    s,
    count_found-nil s now n ∙ ap (λ (m : ℕ). some (m, s)) (let e : n ≡ n + 0 = omega arith in e),
    v,
    refl,
  )
  count_found_lem (k ∷ ks) now n s v =
      let (r, s₁, run, v₁, left, found) = find_lem s k now false v in
      let same : visible s₁ now ≡ visible s now = λ i j. left j i in
      let (s', runs, v', seen) =
        count_found_lem ks now (n + (if is_some (visible s₁ now k) then 1 else 0)) s₁ v₁ in
      (
        s',
        count_found_step s s₁ k ks now n r run found
            ∙ runs
            ∙ ap (λ (m : ℕ). some (m, s'))
                (let e : n
                        + (if is_some (visible s₁ now k) then 1 else 0)
                        + count_seen ks (visible s₁ now)
                      ≡ n + count_seen (k ∷ ks) (visible s₁ now) =
                    omega arith in
                  e)
            ∙ ap (λ (f : Bytes → Option Bytes). some (n + count_seen (k ∷ ks) f, s')) same,
        v',
        seen ∙ same,
      )

  exists_replies :
      (s s' : Store p) (cmd : Command) (now : ℤ) (out : Buffer) (n : ℕ)
      → count_found (args_from cmd 1) now 0 s ≡ some (n, s')
      → cmd_exists s cmd now out ≡ some (s', integer out (pos n))
  unfolding cmd_exists
  exists_replies s s' cmd now out n run = rw (cmd_exists, run)

  -- EXISTS on a valid table replies with the number of its keys that can be seen, a repeated key each
  -- time; the table is valid after it, and what can be seen is the same.
  pub cmd_exists_lem :
      (s : Store p) (cmd : Command) (now : ℤ) (out : Buffer)
      → IsValid s.table
      → (s' : Store p) × (cmd_exists s cmd now out
          ≡ some (s', integer out (pos (count_seen (args_from cmd 1) (visible s now)))))
        × IsValid s'.table
        × (visible s' now ≡ visible s now)
  cmd_exists_lem s cmd now out v =
      let (s', run, v', seen) = count_found_lem (args_from cmd 1) now 0 s v in
      (
        s',
        exists_replies s s' cmd now out _ run
            ∙ ap (λ (m : ℕ). some (s', integer out (pos m)))
                (let e : 0 + count_seen (args_from cmd 1) (visible s now)
                      ≡ count_seen (args_from cmd 1) (visible s now) =
                    omega arith in
                  e),
        v',
        seen,
      )
