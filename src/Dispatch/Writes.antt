-- ===== src/Dispatch/Writes.antt =====
-- src/core/command.cpp: what the commands that write return and leave.
use mathlib.Core.Path.{subst}
use native.Mathlib.Decide.{dec_lt}
use tiny_redis.Base.Bytes.{Bytes, codes}
use tiny_redis.Base.Int.{ℤ, pos, ltb_ℤ, ◌+ℤ◌, ◌*ℤ◌}
use tiny_redis.Base.{
  ℕ, ◌+◌, ◌≤◌, ◌<◌, Bool, true, false, ◌&&◌, ◌||◌, not, Option, none, some, ◌≡◌, refl, arith,
  length, ltb, ◌==◌, if◌then◌else◌,
}
use tiny_redis.Buffer.Queue.{IsValid as IsQueue}
use tiny_redis.Buffer.{Buffer}
use tiny_redis.Dispatch.Line.{LineError, set_options-LineError}
use tiny_redis.Dispatch.Range.{deadline-IsInt64, OptionsFit, set_options-OptionsFit}
use tiny_redis.Dispatch.Replies.{
  simple_string-Replies, error-Replies, integer-Replies, invalid_expire-Replies,
}
use tiny_redis.Dispatch.Served.{Serves, ServesLate}
use tiny_redis.Dispatch.Words.{
  iequals, arg, args_from, parse_int, div_ℤ, deadline, invalid_expire, not_integer, syntax_error,
  oom,
}
use tiny_redis.Dispatch.{
  SetOptions, refused, invalid, deadline_at, set_options, cmd_set, reply_bool, cmd_expire, cmd_ttl,
  cmd_flushall,
}
use tiny_redis.Entry.{eqb_ℤ, no_expiry, u32}
use tiny_redis.Resp.Reply.{simple_string, error, integer}
use tiny_redis.Resp.{Command}
use tiny_redis.Store.Cap.Kept.{
  erase-KeepsCap, set_expire_at-KeepsCap, ttl_ms-KeepsCap, set-KeepsCap, clear-SameCap,
}
use tiny_redis.Store.Cap.Rounding.{CanRound, ttl_ms-CanRound}
use tiny_redis.Store.Cap.{IsReady, SameCap, KeepsCap, ready}
use tiny_redis.Store.Timely.{IsInt64}
use tiny_redis.Store.{Store, keep_ttl, clear, max_int64}
use tiny_redis.Store.Deadline.{set_expire_at_lem}
use tiny_redis.Store.Lookup.{erase_lem}
use tiny_redis.Store.Set.Outcome.{set_lem}
use tiny_redis.Store.Set.{set as set_key}
use tiny_redis.Store.Ttl.{ttl_ms_lem}
use tiny_redis.Store.{erase, ttl_ms, set_expire_at}
use tiny_redis.Table.Clear.{clear_lem}
use tiny_redis.Table.Invariant.{IsValid}
use tiny_redis.Table.Pool.{EntryPool}

-- A deadline that EXPIRE computes is no sentinel while the clock is not before its epoch.
deadline-real :
    (n : ℤ) (clock : ℕ) (at : ℤ)
    → ltb_ℤ (pos 0) n ≡ true
    → deadline n 1000 (pos clock) ≡ some at
    → (eqb_ℤ at keep_ttl || eqb_ℤ at no_expiry) ≡ false
unfolding deadline ◌+ℤ◌ ◌*ℤ◌
deadline-real n clock at some_time e = ground (arith, some_time, e)

module _ {p : EntryPool} where
  reply_bool-Serves :
      (out : Buffer) (o : Option (Bool × Store p)) (b : Bool) (s : Store p)
      → IsQueue out
      → o ≡ some (b, s)
      → IsReady s
      → Serves out (reply_bool out o)
  unfolding reply_bool
  reply_bool-Serves out o b s q run h = rw run (h, integer-Replies out q (pos (if b then 1 else 0)))

  -- What a command's operation leaves, when it keeps the cap.
  still-IsReady :
      {A : Type 0} (s s' : Store p) (r : A) (o : Option (A × Store p))
      → IsReady s
      → KeepsCap s o
      → o ≡ some (r, s')
      → IsValid s'.table
      → IsReady s'
  still-IsReady s s' r o h kept run v =
      let same : SameCap s s' = subst (KeepsCap s) run kept in ready h same v

  module _ (s : Store p) (h : IsReady s) (cmd : Command) (clock : ℕ) (out : Buffer)
      (q : IsQueue out) where
    abbrev now : ℤ
    now = pos clock

    pub cmd_set-Serves :
        (fuel : ℕ)
        → length (arg cmd 1) + length (arg cmd 2) < u32
        → Serves out (cmd_set fuel s cmd now out)
    unfolding cmd_set
    cmd_set-Serves fuel small =
        on (set_options (args_from cmd 3) now no_expiry false)
          (set_options-LineError (args_from cmd 3) now no_expiry false)
          (set_options-OptionsFit (args_from cmd 3) clock no_expiry false refl)
      where
        answered :
            (ok : Bool) (s' : Store p) (o : Option (Bool × Store p))
            → o ≡ some (ok, s')
            → IsReady s'
            → Serves out (elim o [
              | none ↦ none
              | some (true, s₁) ↦ some (s₁, simple_string out (codes "OK"))
              | some (false, s₁) ↦ some (s₁, error out oom)
            ])
        answered true s' o run k = rw run (k, simple_string-Replies out q (codes "OK") refl)
        answered false s' o run k = rw run (k, error-Replies out q oom refl)

        on :
            (r : SetOptions)
            → LineError r
            → OptionsFit r
            → Serves out (elim r [
              | refused msg ↦ some (s, error out msg)
              | invalid ↦ some (s, invalid_expire (codes "set") out)
              | deadline_at at ↦ elim (set_key fuel s (arg cmd 1) (arg cmd 2) at now) [
                | none ↦ none
                | some (true, s₁) ↦ some (s₁, simple_string out (codes "OK"))
                | some (false, s₁) ↦ some (s₁, error out oom)
              ]
            ])
        on (refused msg) line fits = (h, error-Replies out q msg line)
        on invalid line fits = (h, invalid_expire-Replies out q (codes "set") refl)
        on (deadline_at at) line fits =
            let o = set_key fuel s (arg cmd 1) (arg cmd 2) at now in
            let (ok, s', run, r) =
              set_lem fuel s (arg cmd 1) (arg cmd 2) at now h.valid small h.no_evict h.fits in
            answered ok s' o run (
              still-IsReady s s' ok o h
                (set-KeepsCap fuel s (arg cmd 1) (arg cmd 2) at now h.no_evict fits) run r.valid)

    pub cmd_expire-Serves : Serves out (cmd_expire s cmd now out)
    unfolding cmd_expire
    cmd_expire-Serves = on (parse_int (arg cmd 2))
      where
        k : Bytes
        k = arg cmd 1

        erased : Serves out (reply_bool out (erase s k now))
        erased =
            let (s', run, v, _) = erase_lem s k now h.valid in
            reply_bool-Serves out (erase s k now) _ s' q run
              (still-IsReady s s' _ (erase s k now) h (erase-KeepsCap s k now) run v)

        stamped :
            (at : ℤ)
            → (eqb_ℤ at keep_ttl || eqb_ℤ at no_expiry) ≡ false
            → IsInt64 at
            → Serves out (reply_bool out (set_expire_at s k at now))
        stamped at real fits =
            let (s', run, v, _) = set_expire_at_lem s k at now h.valid real in
            reply_bool-Serves out (set_expire_at s k at now) _ s' q run (
              still-IsReady s s' _ (set_expire_at s k at now) h
                (set_expire_at-KeepsCap s k at now fits) run v)

        with_end :
            (secs : ℤ) (o : Option ℤ)
            → ltb_ℤ (pos 0) secs ≡ true
            → deadline secs 1000 now ≡ o
            → Serves out (elim o [
              | none ↦ some (s, invalid_expire (codes "expire") out)
              | some at ↦ reply_bool out (set_expire_at s k at now)
            ])
        with_end secs none later e = (h, invalid_expire-Replies out q (codes "expire") refl)
        with_end secs (some at) later e =
            stamped at (deadline-real secs clock at later e)
              (deadline-IsInt64 secs true clock at later e)

        with_secs :
            (secs : ℤ) (b : Bool)
            → ltb_ℤ (pos 0) secs ≡ b
            → Serves out (elim b [
              | false ↦ reply_bool out (erase s k now)
              | true ↦ elim (deadline secs 1000 now) [
                | none ↦ some (s, invalid_expire (codes "expire") out)
                | some at ↦ reply_bool out (set_expire_at s k at now)
              ]
            ])
        with_secs secs false e = erased
        with_secs secs true e = with_end secs (deadline secs 1000 now) e refl

        on :
            (o : Option ℤ)
            → Serves out (elim o [
              | none ↦ some (s, error out not_integer)
              | some secs ↦ elim (ltb_ℤ (pos 0) secs) [
                | false ↦ reply_bool out (erase s k now)
                | true ↦ elim (deadline secs 1000 now) [
                  | none ↦ some (s, invalid_expire (codes "expire") out)
                  | some at ↦ reply_bool out (set_expire_at s k at now)
                ]
              ]
            ])
        on none = (h, error-Replies out q not_integer refl)
        on (some secs) = with_secs secs (ltb_ℤ (pos 0) secs) refl

    -- The rounding of TTL is the one place that can fail, before the clock shows half a second.
    pub cmd_ttl-ServesLate : ServesLate clock out (cmd_ttl s cmd now out)
    unfolding cmd_ttl
    cmd_ttl-ServesLate =
        let (ms, s', run, v, _, _) = ttl_ms_lem s (arg cmd 1) now h.valid in
        let k =
          still-IsReady s s' ms (ttl_ms s (arg cmd 1) now) h (ttl_ms-KeepsCap s (arg cmd 1) now) run
            v in
        let rounds : 500 ≤ clock → ltb_ℤ (pos max_int64) (ms +ℤ pos 500) ≡ false =
          λ late. subst CanRound run (ttl_ms-CanRound s (arg cmd 1) clock late h.timely) in
        rw (cmd_ttl, run)
          (on ms s' k (ltb_ℤ ms (pos 0)) (ltb_ℤ (pos max_int64) (ms +ℤ pos 500)) rounds)
      where
        on :
            (ms : ℤ) (s' : Store p)
            → IsReady s'
            → (b c : Bool) → (500 ≤ clock → c ≡ false)
            → ServesLate clock out (elim b as (λ _. Option (Store p × Buffer)) [
              | true ↦ some (s', integer out ms)
              | false ↦ elim c [
                | true ↦ none
                | false ↦ some (s', integer out (div_ℤ (ms +ℤ pos 500) 1000))
              ]
            ])
        on ms s' k true c r = (k, integer-Replies out q _)
        on ms s' k false false r = (k, integer-Replies out q _)
        on ms s' k false true r = elim (dec_lt clock 500) [
          | yes early ↦ early
          | no late ↦ let x : true ≡ false = r (omega arith) in absurd (let y = x in cc)
        ]

    pub cmd_flushall-Serves : Serves out (some (cmd_flushall s cmd out))
    unfolding cmd_flushall
    cmd_flushall-Serves = on (
        ltb 2 cmd.argc
        || (cmd.argc == 2
            && (not (iequals (arg cmd 1) (codes "async"))
                && not (iequals (arg cmd 1) (codes "sync")))))
      where
        on :
            (b : Bool)
            → Serves out (
                some (
                  if b
                  then (s, error out syntax_error)
                  else (clear s, simple_string out (codes "OK"))))
        on true = (h, error-Replies out q syntax_error refl)
        on false =
            let (v, _, _, _) = clear_lem s.table h.valid in
            (
              ready h (clear-SameCap s) (unfold clear in v),
              simple_string-Replies out q (codes "OK") refl,
            )
