-- ===== src/Net/Server/Admission.antt =====
-- src/net/server.cpp: the server's store and buffers, through accepting.
use mathlib.Core.Path.{subst}
use tiny_redis.Base.{ℕ, Option, none, some, List, [], ◌∷◌, ◌≡◌, sym, arith}
use tiny_redis.Buffer.Queue.{new-IsValid}
use tiny_redis.Buffer.{default_capacity}
use tiny_redis.Net.Connection.Settled.{Ensures}
use tiny_redis.Net.Connection.{new as new_connection}
use tiny_redis.Net.Kernel.{epollin, CtlAnswer, FdAnswer, fd_given, fd_failed}
use tiny_redis.Net.Server.Accept.{
  AcceptRound, Next, accepts, stops, accept_fd, drop_reserve, take_reserve, shed_pending,
  pause_accepting, resume_accepting, handle_accept_failure, admit, accept_one, accept_round,
  accept_pending,
}
use tiny_redis.Net.Server.Clients.{Each}
use tiny_redis.Net.Server.Health.{IsTime, HasQueues, IsHealthy}
use tiny_redis.Net.Server.{Client, Server, open_reserve, log_closed, destroy_client}
use tiny_redis.Store.Cap.{IsReady}
use tiny_redis.Table.Pool.{EntryPool}

module _ {p : EntryPool} where
  -- What accepting leaves as it is, but for a connection that it adds.
  abbrev pub SameData : Server p → Server p → Type 0
  SameData s s' =
      (s'.store ≡ s.store)
      × (s'.connections ≡ s.connections)
      × (s'.retired ≡ s.retired)
      × (s'.cached_now ≡ s.cached_now)

  pub SameData-IsHealthy : (s s' : Server p) → SameData s s' → IsHealthy s → IsHealthy s'
  SameData-IsHealthy s s' (a, b, c, d) h = record {
    ready_store = subst IsReady (sym a) h.ready_store;
    queues = subst (Each HasQueues) (sym b) h.queues;
    last_queues = subst (Each HasQueues) (sym c) h.last_queues;
    time = subst IsTime (sym d) h.time;
  }

  take_reserve-SameData : (a : FdAnswer) (s : Server p) → SameData s (take_reserve a s)
  unfolding take_reserve open_reserve
  take_reserve-SameData a s = ground arith

  pub shed_pending-SameData : (a b : FdAnswer) (s : Server p) → SameData s ((shed_pending a b s).1)
  unfolding shed_pending drop_reserve accept_fd take_reserve open_reserve
  shed_pending-SameData a b s = ground arith

  pub pause_accepting-SameData :
      (ctl : CtlAnswer) (s : Server p) → SameData s (pause_accepting ctl s)
  unfolding pause_accepting
  pause_accepting-SameData ctl s = ground arith

  pub resume_accepting-SameData :
      (a : FdAnswer) (ctl : CtlAnswer) (s : Server p) → SameData s (resume_accepting a ctl s)
  unfolding resume_accepting
  resume_accepting-SameData a ctl s = ground (arith, take_reserve-SameData a s)

  abbrev Next_state : Next (Server p) → Server p
  Next_state (accepts s) = s
  Next_state (stops s) = s

  abbrev Healthy : Next (Server p) → Type 0
  Healthy (accepts s) = IsHealthy s
  Healthy (stops s) = IsHealthy s

  handle_accept_failure-Healthy :
      (err : ℕ) (r : AcceptRound) (s : Server p)
      → IsHealthy s
      → Ensures Healthy (handle_accept_failure err r s)
  unfolding handle_accept_failure
  handle_accept_failure-Healthy err r s h =
      let s₁ = (shed_pending r.shed_accept r.reserve s).1 in
      let k = SameData-IsHealthy s s₁ (shed_pending-SameData r.shed_accept r.reserve s) h in
      ground (
        arith,
        h,
        k,
        SameData-IsHealthy s (pause_accepting r.ctl s) (pause_accepting-SameData r.ctl s) h,
        SameData-IsHealthy s₁ (pause_accepting r.ctl s₁) (pause_accepting-SameData r.ctl s₁) k,
      )

  accept_one-IsHealthy :
      (fd : ℕ) (r : AcceptRound) (s : Server p)
      → IsHealthy s
      → Ensures IsHealthy (accept_one fd r (record s { opened = fd ∷ s.opened }))
  unfolding accept_one admit destroy_client log_closed new_connection
  accept_one-IsHealthy fd r s h =
      let closed_again : IsHealthy (record s { opened = fd ∷ s.opened; closed = fd ∷ s.closed }) =
        record {
          ready_store = h.ready_store;
          queues = h.queues;
          last_queues = h.last_queues;
          time = h.time;
        } in
      let c : Client = record { conn = new_connection fd; registered = epollin } in
      let admitted : IsHealthy
          (record s { opened = fd ∷ s.opened; connections = c ∷ s.connections }) =
        record {
          ready_store = h.ready_store;
          queues = ((new-IsValid default_capacity, new-IsValid default_capacity), h.queues);
          last_queues = h.last_queues;
          time = h.time;
        } in
      ground (arith, closed_again, admitted)

  accept_round-Healthy :
      (r : AcceptRound) (s : Server p) → IsHealthy s → Ensures Healthy (accept_round r s)
  unfolding accept_round
  accept_round-Healthy r s h = on r.accept
    where
      given :
          (o : Option (Server p))
          → Ensures IsHealthy o
          → Ensures Healthy (elim o [ none ↦ none | some s' ↦ some (accepts s') ])
      given none k = tt
      given (some s') k = k

      on :
          (a : FdAnswer)
          → Ensures Healthy (elim a [
            | fd_failed e ↦ handle_accept_failure e r s
            | fd_given fd ↦ elim (accept_one fd r (record s { opened = fd ∷ s.opened })) [
              | none ↦ none
              | some s' ↦ some (accepts s')
            ]
          ])
      on (fd_failed e) = handle_accept_failure-Healthy e r s h
      on (fd_given fd) =
          given (accept_one fd r (record s { opened = fd ∷ s.opened }))
            (accept_one-IsHealthy fd r s h)

  pub accept_pending-IsHealthy :
      (rs : List AcceptRound) (s : Server p) → IsHealthy s → Ensures IsHealthy (accept_pending rs s)
  unfolding accept_pending
  accept_pending-IsHealthy [] s h = tt
  accept_pending-IsHealthy (r ∷ rs) s h =
      next (accept_round r s) (λ s' k. accept_pending-IsHealthy rs s' k)
        (accept_round-Healthy r s h)
    where
      next :
          (o : Option (Next (Server p)))
          → ((s' : Server p) → IsHealthy s' → Ensures IsHealthy (accept_pending rs s'))
          → Ensures Healthy o
          → Ensures IsHealthy (elim o [
            | none ↦ none
            | some (stops s') ↦ some s'
            | some (accepts s') ↦ accept_pending rs s'
          ])
      next none ih k = tt
      next (some (stops s')) ih k = k
      next (some (accepts s')) ih k = ih s' k
