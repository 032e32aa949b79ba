-- ===== src/Dispatch/Deletes.antt =====
-- The reply of DEL, and what it leaves of the map.

use tiny_redis.Base.Bytes.{Bytes, equal}
use tiny_redis.Base.Int.{ℤ, pos}
use tiny_redis.Base.{
  ℕ, ◌+◌, Bool, Option, none, some, List, [], ◌∷◌, ◌≡◌, refl, ap, ◌∙◌, arith, if◌then◌else◌,
}
use tiny_redis.Buffer.{Buffer}
use tiny_redis.Dispatch.Words.{args_from}
use tiny_redis.Dispatch.{erase_all, cmd_del}
use tiny_redis.Resp.Reply.{integer}
use tiny_redis.Resp.{Command}
use tiny_redis.Store.Lookup.{visible, is_some, erase_lem}
use tiny_redis.Store.{Store, erase}
use tiny_redis.Table.Invariant.{IsValid}
use tiny_redis.Table.Pool.{EntryPool}

-- A map without a key, and without each of several keys in turn.
abbrev pub without : Bytes → (Bytes → Option Bytes) → Bytes → Option Bytes
without k f j = if equal j k then none else f j

abbrev pub without_all : List Bytes → (Bytes → Option Bytes) → Bytes → Option Bytes
without_all [] f = f
without_all (k ∷ ks) f = without_all ks (without k f)

-- How many of the keys are in the map when their turn comes.
abbrev pub count_removed : List Bytes → (Bytes → Option Bytes) → ℕ
count_removed [] f = 0
count_removed (k ∷ ks) f = (if is_some (f k) then 1 else 0) + count_removed ks (without k f)

module _ {p : EntryPool} where
  erase_all_step :
      (s s' : Store p) (k : Bytes) (ks : List Bytes) (now : ℤ) (n : ℕ) (b : Bool)
      → erase s k now ≡ some (b, s')
      → erase_all (k ∷ ks) now n s ≡ erase_all ks now (n + (if b then 1 else 0)) s'
  unfolding erase_all
  erase_all_step s s' k ks now n b run = rw (erase_all, run)

  erase_all-nil : (s : Store p) (now : ℤ) (n : ℕ) → erase_all [] now n s ≡ some (n, s)
  unfolding erase_all
  erase_all-nil s now n = refl

  erase_all_lem :
      (ks : List Bytes) (now : ℤ) (n : ℕ) (s : Store p)
      → IsValid s.table
      → (s' : Store p) × (erase_all ks now n s ≡ some (n + count_removed ks (visible s now), s'))
        × IsValid s'.table
        × (visible s' now ≡ without_all ks (visible s now))
  erase_all_lem [] now n s v = (
    s,
    erase_all-nil s now n ∙ ap (λ (m : ℕ). some (m, s)) (let e : n ≡ n + 0 = omega arith in e),
    v,
    refl,
  )
  erase_all_lem (k ∷ ks) now n s v =
      let (s₁, run, v₁, left) = erase_lem s k now v in
      let b = is_some (visible s now k) in
      let rest : visible s₁ now ≡ without k (visible s now) = λ i j. left j i in
      let (s', runs, v', seen) = erase_all_lem ks now (n + (if b then 1 else 0)) s₁ v₁ in
      (
        s',
        erase_all_step s s₁ k ks now n b run
            ∙ runs
            ∙ ap
                (λ (f : Bytes → Option Bytes).
                  some (n + (if b then 1 else 0) + count_removed ks f, s'))
                rest
            ∙ ap (λ (m : ℕ). some (m, s'))
                (let e : n + (if b then 1 else 0) + count_removed ks (without k (visible s now))
                      ≡ n + count_removed (k ∷ ks) (visible s now) =
                    omega arith in
                  e),
        v',
        seen ∙ ap (without_all ks) rest,
      )

  del_replies :
      (s s' : Store p) (cmd : Command) (now : ℤ) (out : Buffer) (n : ℕ)
      → erase_all (args_from cmd 1) now 0 s ≡ some (n, s')
      → cmd_del s cmd now out ≡ some (s', integer out (pos n))
  unfolding cmd_del
  del_replies s s' cmd now out n run = rw (cmd_del, run)

  -- DEL on a valid table replies with the number of its keys that could be seen when their turn came,
  -- so a repeated key counts once; the table is valid after it, and what can be seen is the map before
  -- it without those keys.
  pub cmd_del_lem :
      (s : Store p) (cmd : Command) (now : ℤ) (out : Buffer)
      → IsValid s.table
      → (let keys = args_from cmd 1 in
          (s' : Store p) × (cmd_del s cmd now out
            ≡ some (s', integer out (pos (count_removed keys (visible s now)))))
          × IsValid s'.table
          × (visible s' now ≡ without_all keys (visible s now)))
  cmd_del_lem s cmd now out v =
      let (s', run, v', seen) = erase_all_lem (args_from cmd 1) now 0 s v in
      (
        s',
        del_replies s s' cmd now out _ run
            ∙ ap (λ (m : ℕ). some (s', integer out (pos m)))
                (let e : 0 + count_removed (args_from cmd 1) (visible s now)
                      ≡ count_removed (args_from cmd 1) (visible s now) =
                    omega arith in
                  e),
        v',
        seen,
      )
