-- ===== src/Store/Cap/Rounding.antt =====
-- The half second that TTL adds to the time that is left, against the range of 64 bits.
use tiny_redis.Base.Bytes.{Bytes}
use tiny_redis.Base.Int.{ℤ, pos, negsuc, ltb_ℤ, ◌+ℤ◌, ◌-ℤ◌}
use tiny_redis.Base.{ℕ, ◌≤◌, false, Option, none, some, ◌≡◌, refl, arith, if◌then◌else◌}
use tiny_redis.Entry.{eqb_ℤ, no_expiry}
use tiny_redis.Store.Timely.{IsTimely, IsInt64, TimelyAnswer, lookup-Timely}
use tiny_redis.Store.{Store, max_int64, lookup, ttl_ms}
use tiny_redis.Table.Pool.{EntryPool}

rounds :
    (at : ℤ) (clock : ℕ)
    → 500 ≤ clock
    → IsInt64 at
    → ltb_ℤ (pos max_int64) ((if eqb_ℤ at no_expiry then no_expiry else at -ℤ pos clock) +ℤ pos 500)
      ≡ false
unfolding ◌+ℤ◌ ◌-ℤ◌
rounds at clock late fits = ground (arith, late, fits)

module _ {p : EntryPool} where
  -- The time that is left, with the half second that is added before the division.
  abbrev pub CanRound : Option (ℤ × Store p) → Type 0
  CanRound none = Unit
  CanRound (some (ms, s')) = ltb_ℤ (pos max_int64) (ms +ℤ pos 500) ≡ false

  pub ttl_ms-CanRound :
      (s : Store p) (k : Bytes) (clock : ℕ)
      → 500 ≤ clock
      → IsTimely s.table.cells
      → CanRound (ttl_ms s k (pos clock))
  unfolding ttl_ms ◌+ℤ◌
  ttl_ms-CanRound s k clock late h = on (lookup s k (pos clock)) (lookup-Timely s k (pos clock) h)
    where
      on :
          (o : Option (Option ℕ × Store p))
          → TimelyAnswer o
          → CanRound (elim o as (λ _. Option (ℤ × Store p)) [
            | none ↦ none
            | some (none, s') ↦ some (negsuc 1, s')
            | some (some a, s') ↦
                let at = (s'.table.cells a).expires_at_ms in
                some (if eqb_ℤ at no_expiry then no_expiry else at -ℤ pos clock, s')
          ])
      on none k' = tt
      on (some (none, s')) k' = refl
      on (some (some a, s')) k' = rounds (s'.table.cells a).expires_at_ms clock late (k' a)
