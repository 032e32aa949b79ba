-- ===== src/Dispatch/Served.antt =====
-- src/core/command.cpp: what the commands that read return and leave.
use mathlib.Core.Path.{subst}
use tiny_redis.Base.Bytes.{Bytes}
use tiny_redis.Base.Int.{ℤ}
use tiny_redis.Base.{
  ℕ, ◌+◌, ◌<◌, Bool, true, false, Option, none, some, List, [], ◌∷◌, ◌≡◌, refl, arith,
  if◌then◌else◌,
}
use tiny_redis.Buffer.Queue.{IsValid as IsQueue}
use tiny_redis.Buffer.{Buffer}
use tiny_redis.Dispatch.Reads.{cmd_get_lem, cmd_exists_lem}
use tiny_redis.Dispatch.Replies.{Replies, integer-Replies, bulk_or_null-Replies}
use tiny_redis.Dispatch.Deletes.{cmd_del_lem}
use tiny_redis.Dispatch.Words.{arg, args_from}
use tiny_redis.Dispatch.{cmd_get, cmd_del, cmd_exists, erase_all, count_found}
use tiny_redis.Resp.{Command}
use tiny_redis.Store.Cap.Kept.{find-KeepsCap, erase-KeepsCap}
use tiny_redis.Store.Cap.{IsReady, SameCap, KeepsCap, KeepsCap-trans, ready}
use tiny_redis.Store.{Store}
use tiny_redis.Store.Lookup.{visible}
use tiny_redis.Store.{find, erase}
use tiny_redis.Table.Invariant.{IsValid}
use tiny_redis.Table.Pool.{EntryPool}

module _ {p : EntryPool} where
  -- The result of a command: a store that is still ready, and one reply.
  abbrev pub Serves : Buffer → Option (Store p × Buffer) → Type 0
  Serves out none = ⊥
  Serves out (some (s, out')) = IsReady s × Replies out out'

  -- The same from half a second of the clock on: before it the command may fail.
  abbrev pub ServesLate : ℕ → Buffer → Option (Store p × Buffer) → Type 0
  ServesLate clock out none = clock < 500
  ServesLate clock out (some (s, out')) = IsReady s × Replies out out'

  abbrev pub KeptBy : Store p → Option (Store p × Buffer) → Type 0
  KeptBy s none = Unit
  KeptBy s (some (s', out)) = SameCap s s'

  pub served :
      (s s' : Store p) (out out' : Buffer) (o : Option (Store p × Buffer))
      → IsReady s
      → KeptBy s o
      → o ≡ some (s', out')
      → IsValid s'.table
      → Replies out out'
      → Serves out o
  served s s' out out' o h kept run v reply =
      let same : SameCap s s' = subst (KeptBy s) run kept in rw run (ready h same v, reply)

  cmd_get-KeptBy :
      (s : Store p) (cmd : Command) (now : ℤ) (out : Buffer) → KeptBy s (cmd_get s cmd now out)
  unfolding cmd_get
  cmd_get-KeptBy s cmd now out = ground (arith, find-KeepsCap s (arg cmd 1) now true)

  erase_all-KeepsCap :
      (ks : List Bytes) (now : ℤ) (n : ℕ) (s : Store p) → KeepsCap s (erase_all ks now n s)
  unfolding erase_all
  erase_all-KeepsCap [] now n s = (refl, refl, λ h. h)
  erase_all-KeepsCap (k ∷ ks) now n s =
      next (erase s k now) (λ b s'. erase_all-KeepsCap ks now (n + (if b then 1 else 0)) s')
        (erase-KeepsCap s k now)
    where
      next :
          (o : Option (Bool × Store p))
          → ((b : Bool) (s' : Store p)
              → KeepsCap s' (erase_all ks now (n + (if b then 1 else 0)) s'))
          → KeepsCap s o
          → KeepsCap s (elim o [
            | none ↦ none
            | some (b, s') ↦ erase_all ks now (n + (if b then 1 else 0)) s'
          ])
      next none ih h = tt
      next (some (b, s')) ih h =
          KeepsCap-trans s s' (erase_all ks now (n + (if b then 1 else 0)) s') h (ih b s')

  cmd_del-KeptBy :
      (s : Store p) (cmd : Command) (now : ℤ) (out : Buffer) → KeptBy s (cmd_del s cmd now out)
  unfolding cmd_del
  cmd_del-KeptBy s cmd now out = ground (arith, erase_all-KeepsCap (args_from cmd 1) now 0 s)

  count_found-KeepsCap :
      (ks : List Bytes) (now : ℤ) (n : ℕ) (s : Store p) → KeepsCap s (count_found ks now n s)
  unfolding count_found
  count_found-KeepsCap [] now n s = (refl, refl, λ h. h)
  count_found-KeepsCap (k ∷ ks) now n s =
      next (find s k now false) (λ m s'. count_found-KeepsCap ks now m s')
        (find-KeepsCap s k now false)
    where
      next :
          (o : Option (Option ℕ × Store p))
          → ((m : ℕ) (s' : Store p) → KeepsCap s' (count_found ks now m s'))
          → KeepsCap s o
          → KeepsCap s (elim o [
            | none ↦ none
            | some (none, s') ↦ count_found ks now n s'
            | some (some _, s') ↦ count_found ks now (n + 1) s'
          ])
      next none ih h = tt
      next (some (none, s')) ih h = KeepsCap-trans s s' (count_found ks now n s') h (ih n s')
      next (some (some _, s')) ih h =
          KeepsCap-trans s s' (count_found ks now (n + 1) s') h (ih (n + 1) s')

  cmd_exists-KeptBy :
      (s : Store p) (cmd : Command) (now : ℤ) (out : Buffer) → KeptBy s (cmd_exists s cmd now out)
  unfolding cmd_exists
  cmd_exists-KeptBy s cmd now out = ground (arith, count_found-KeepsCap (args_from cmd 1) now 0 s)

  module _ (s : Store p) (h : IsReady s) (cmd : Command) (now : ℤ) (out : Buffer)
      (q : IsQueue out) where
    pub cmd_get-Serves : Serves out (cmd_get s cmd now out)
    cmd_get-Serves =
        let (s', run, v, _) = cmd_get_lem s cmd now out h.valid in
        served s s' out _ _ h (cmd_get-KeptBy s cmd now out) run v
          (bulk_or_null-Replies out q (visible s now (arg cmd 1)))

    pub cmd_del-Serves : Serves out (cmd_del s cmd now out)
    cmd_del-Serves =
        let (s', run, v, _) = cmd_del_lem s cmd now out h.valid in
        served s s' out _ _ h (cmd_del-KeptBy s cmd now out) run v (integer-Replies out q _)

    pub cmd_exists-Serves : Serves out (cmd_exists s cmd now out)
    cmd_exists-Serves =
        let (s', run, v, _) = cmd_exists_lem s cmd now out h.valid in
        served s s' out _ _ h (cmd_exists-KeptBy s cmd now out) run v (integer-Replies out q _)
