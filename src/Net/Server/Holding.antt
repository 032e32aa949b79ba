-- ===== src/Net/Server/Holding.antt =====
-- src/net/server.cpp: the connections that the server has, through accepting.
use tiny_redis.Base.{ℕ, ◌+◌, ◌≤◌, Option, none, some, List, [], ◌∷◌, ap, arith}
use tiny_redis.Net.Connection.Settled.{Ensures}
use tiny_redis.Net.Connection.{new as new_connection}
use tiny_redis.Net.Kernel.{FdAnswer, fd_given, fd_failed}
use tiny_redis.Net.Server.Accept.{
  AcceptRound, Next, accepts, stops, shed_pending, pause_accepting, handle_accept_failure, admit,
  accept_one, accept_round, accept_pending,
}
use tiny_redis.Net.Server.Admission.{SameData, shed_pending-SameData, pause_accepting-SameData}
use tiny_redis.Net.Server.Clients.{count}
use tiny_redis.Net.Server.{Server, log_closed, destroy_client}
use tiny_redis.Table.Pool.{EntryPool}

module _ {p : EntryPool} where
  -- At least `n` connections, live or retired, have the descriptor `d`.
  abbrev pub Holds : ℕ → ℕ → Server p → Type 0
  Holds d n s = n ≤ count d s.connections + count d s.retired

  SameData-Holds : (d n : ℕ) (s s' : Server p) → SameData s s' → Holds d n s → Holds d n s'
  SameData-Holds d n s s' (a, b, c, e) h = omega (arith, h, ap (count d) b, ap (count d) c)

  abbrev NextHolds : ℕ → ℕ → Next (Server p) → Type 0
  NextHolds d n (accepts s) = Holds d n s
  NextHolds d n (stops s) = Holds d n s

  handle_accept_failure-Holds :
      (d n err : ℕ) (r : AcceptRound) (s : Server p)
      → Holds d n s
      → Ensures (NextHolds d n) (handle_accept_failure err r s)
  unfolding handle_accept_failure
  handle_accept_failure-Holds d n err r s h =
      let s₁ = (shed_pending r.shed_accept r.reserve s).1 in
      let k = SameData-Holds d n s s₁ (shed_pending-SameData r.shed_accept r.reserve s) h in
      ground (
        arith,
        h,
        k,
        SameData-Holds d n s (pause_accepting r.ctl s) (pause_accepting-SameData r.ctl s) h,
        SameData-Holds d n s₁ (pause_accepting r.ctl s₁) (pause_accepting-SameData r.ctl s₁) k,
      )

  accept_one-Holds :
      (d n fd : ℕ) (r : AcceptRound) (s : Server p)
      → Holds d n s
      → Ensures (Holds d n) (accept_one fd r (record s { opened = fd ∷ s.opened }))
  unfolding accept_one admit destroy_client log_closed new_connection
  accept_one-Holds d n fd r s h = ground (arith, h)

  accept_round-Holds :
      (d n : ℕ) (r : AcceptRound) (s : Server p)
      → Holds d n s
      → Ensures (NextHolds d n) (accept_round r s)
  unfolding accept_round
  accept_round-Holds d n r s h = on r.accept
    where
      given :
          (o : Option (Server p))
          → Ensures (Holds d n) o
          → Ensures (NextHolds d n) (elim o [ none ↦ none | some s' ↦ some (accepts s') ])
      given none k = tt
      given (some s') k = k

      on :
          (a : FdAnswer)
          → Ensures (NextHolds d n) (elim a [
            | fd_failed e ↦ handle_accept_failure e r s
            | fd_given fd ↦ elim (accept_one fd r (record s { opened = fd ∷ s.opened })) [
              | none ↦ none
              | some s' ↦ some (accepts s')
            ]
          ])
      on (fd_failed e) = handle_accept_failure-Holds d n e r s h
      on (fd_given fd) =
          given (accept_one fd r (record s { opened = fd ∷ s.opened }))
            (accept_one-Holds d n fd r s h)

  pub accept_pending-Holds :
      (d n : ℕ) (rs : List AcceptRound) (s : Server p)
      → Holds d n s
      → Ensures (Holds d n) (accept_pending rs s)
  unfolding accept_pending
  accept_pending-Holds d n [] s h = tt
  accept_pending-Holds d n (r ∷ rs) s h =
      next (accept_round r s) (λ s' k. accept_pending-Holds d n rs s' k)
        (accept_round-Holds d n r s h)
    where
      next :
          (o : Option (Next (Server p)))
          → ((s' : Server p) → Holds d n s' → Ensures (Holds d n) (accept_pending rs s'))
          → Ensures (NextHolds d n) o
          → Ensures (Holds d n) (elim o [
            | none ↦ none
            | some (stops s') ↦ some s'
            | some (accepts s') ↦ accept_pending rs s'
          ])
      next none ih k = tt
      next (some (stops s')) ih k = k
      next (some (accepts s')) ih k = ih s' k
