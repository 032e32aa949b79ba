-- ===== src/Net/Server/Intake.antt =====
-- src/net/server.cpp: the descriptors and the connections, through accepting and through its
-- failures.
use tiny_redis.Base.{
  ℕ, ◌+◌, Bool, true, false, Option, none, some, List, [], ◌∷◌, ◌≡◌, refl, ◌∙◌, arith,
}
use tiny_redis.Buffer.{is_empty}
use tiny_redis.Net.Connection.Settled.{Ensures}
use tiny_redis.Net.Connection.{new as new_connection, wanted}
use tiny_redis.Net.Kernel.{epollin, CtlAnswer, FdAnswer, fd_given, fd_failed}
use tiny_redis.Net.Server.Accept.{
  AcceptRound, Next, accepts, stops, accept_fd, drop_reserve, take_reserve, shed_pending,
  pause_accepting, resume_accepting, handle_accept_failure, admit, accept_one, accept_round,
  accept_pending,
}
use tiny_redis.Net.Server.Clients.{times}
use tiny_redis.Net.Server.Invariant.{IsOrderly, held}
use tiny_redis.Net.Server.{Client, Server, open_reserve, log_closed, destroy_client}
use tiny_redis.Net.UniqueFd.{no_fd, destroy, same_fd, close_fd, reset, is_valid}
use tiny_redis.Table.Pool.{EntryPool}

module _ {p : EntryPool} where
  -- A new descriptor is not the one that the server holds in reserve.
  abbrev pub IsNew : FdAnswer → Server p → Type 0
  IsNew (fd_given n) s = times n (destroy s.reserve_fd) ≡ 0
  IsNew (fd_failed e) s = Unit

  -- Each descriptor is held or closed as often as it was opened.
  abbrev IsBalanced : Server p → Type 0
  IsBalanced s = (d : ℕ) → times d s.opened ≡ times d s.closed + held d s

  take_reserve-IsOrderly :
      (reserve : FdAnswer) (s : Server p)
      → IsNew reserve s
      → IsOrderly s
      → IsOrderly (take_reserve reserve s)
  unfolding take_reserve open_reserve
  take_reserve-IsOrderly reserve s fresh h = record {
    live = ground (arith, h);
    dead = ground (arith, h);
    balanced = λ d. ground (arith, h.balanced d, fresh);
  }

  drop_reserve-IsOrderly : (s : Server p) → IsOrderly s → IsOrderly (drop_reserve s)
  unfolding drop_reserve same_fd close_fd destroy
  drop_reserve-IsOrderly s h = record {
    live = ground (arith, h);
    dead = ground (arith, h);
    balanced = λ d. ground (arith, h.balanced d);
  }

  accept_fd-IsOrderly :
      (a : FdAnswer) (s : Server p)
      → IsOrderly s
      → IsOrderly (log_closed ((reset none ((accept_fd a s).1)).1) ((accept_fd a s).0))
  unfolding accept_fd log_closed reset same_fd close_fd
  accept_fd-IsOrderly (fd_given n) s h = record {
    live = h.live;
    dead = h.dead;
    balanced = λ d. omega (arith, h.balanced d);
  }
  accept_fd-IsOrderly (fd_failed e) s h = record {
    live = h.live;
    dead = h.dead;
    balanced = h.balanced;
  }

  drop_reserve-empty : (s : Server p) → (drop_reserve s).reserve_fd ≡ no_fd
  unfolding drop_reserve same_fd
  drop_reserve-empty s = ground arith

  accept_fd-reserve : (a : FdAnswer) (s : Server p) → ((accept_fd a s).0).reserve_fd ≡ s.reserve_fd
  unfolding accept_fd
  accept_fd-reserve (fd_given n) s = refl
  accept_fd-reserve (fd_failed e) s = refl

  empty-IsNew : (reserve : FdAnswer) (s : Server p) → s.reserve_fd ≡ no_fd → IsNew reserve s
  unfolding destroy close_fd
  empty-IsNew (fd_given n) s e = rw e refl
  empty-IsNew (fd_failed _) s e = tt

  -- The reserve was spent, so what `open` gives cannot be it.
  shed_pending-IsOrderly :
      (shed_accept reserve : FdAnswer) (s : Server p)
      → IsOrderly s
      → IsOrderly ((shed_pending shed_accept reserve s).1)
  unfolding shed_pending
  shed_pending-IsOrderly shed_accept reserve s h =
      let spent = drop_reserve s in
      let a = accept_fd shed_accept spent in
      let s' = log_closed ((reset none (a.1)).1) (a.0) in
      let empty =
        (unfold log_closed in accept_fd-reserve shed_accept spent) ∙ drop_reserve-empty s in
      elim (is_valid s.reserve_fd)
        as (λ b. IsOrderly (
          (elim b as (λ _. Bool × Server p) [
            | false ↦ (false, s)
            | true ↦ (is_valid (a.1), take_reserve reserve s')
          ]).1)) [
            | false ↦ h
            | true ↦
                take_reserve-IsOrderly reserve s' (empty-IsNew reserve s' empty)
                  (accept_fd-IsOrderly shed_accept spent (drop_reserve-IsOrderly s h))
          ]

  pause_accepting-IsOrderly :
      (ctl : CtlAnswer) (s : Server p) → IsOrderly s → IsOrderly (pause_accepting ctl s)
  unfolding pause_accepting
  pause_accepting-IsOrderly ctl s h = record {
    live = ground (arith, h);
    dead = ground (arith, h);
    balanced = λ d. ground (arith, h.balanced d);
  }

  pub resume_accepting-IsOrderly :
      (reserve : FdAnswer) (ctl : CtlAnswer) (s : Server p)
      → IsNew reserve s
      → IsOrderly s
      → IsOrderly (resume_accepting reserve ctl s)
  unfolding resume_accepting
  resume_accepting-IsOrderly reserve ctl s fresh h =
      let k = take_reserve-IsOrderly reserve s fresh h in
      record {
        live = ground (arith, h, k);
        dead = ground (arith, h, k);
        balanced = λ d. ground (arith, h.balanced d, k.balanced d);
      }

  -- The descriptor is in the map, or it is closed again.
  accept_one-IsOrderly :
      (fd : ℕ) (r : AcceptRound) (s : Server p)
      → IsOrderly s
      → Ensures IsOrderly (accept_one fd r (record s { opened = fd ∷ s.opened }))
  unfolding accept_one admit destroy_client log_closed new_connection wanted is_empty
  accept_one-IsOrderly fd r s h =
      let closed_again : IsOrderly (record s { opened = fd ∷ s.opened; closed = fd ∷ s.closed }) =
        record { live = h.live; dead = h.dead; balanced = λ d. omega (arith, h.balanced d) } in
      let c : Client = record { conn = new_connection fd; registered = epollin } in
      let admitted : IsOrderly
          (record s { opened = fd ∷ s.opened; connections = c ∷ s.connections }) =
        record {
          live = (
            record {
              alive = refl;
              armed = refl;
              known = refl;
              busy = λ e. let x : false ≡ true = e in cc;
            },
            h.live,
          );
          dead = h.dead;
          balanced = λ d. omega (arith, h.balanced d);
        } in
      ground (arith, closed_again, admitted)

  abbrev Orderly : Next (Server p) → Type 0
  Orderly (accepts s) = IsOrderly s
  Orderly (stops s) = IsOrderly s

  handle_accept_failure-Orderly :
      (err : ℕ) (r : AcceptRound) (s : Server p)
      → IsOrderly s
      → Ensures Orderly (handle_accept_failure err r s)
  unfolding handle_accept_failure
  handle_accept_failure-Orderly err r s h =
      let k = shed_pending-IsOrderly r.shed_accept r.reserve s h in
      ground (
        arith,
        k,
        pause_accepting-IsOrderly r.ctl s h,
        pause_accepting-IsOrderly r.ctl ((shed_pending r.shed_accept r.reserve s).1) k,
      )

  accept_round-Orderly :
      (r : AcceptRound) (s : Server p) → IsOrderly s → Ensures Orderly (accept_round r s)
  unfolding accept_round
  accept_round-Orderly r s h =
      elim r.accept
        as (λ a. Ensures Orderly (elim a [
          | fd_failed e ↦ handle_accept_failure e r s
          | fd_given fd ↦ elim (accept_one fd r (record s { opened = fd ∷ s.opened })) [
            | none ↦ none
            | some s' ↦ some (accepts s')
          ]
        ])) [
          | fd_failed e ↦ handle_accept_failure-Orderly e r s h
          | fd_given fd ↦
              on (accept_one fd r (record s { opened = fd ∷ s.opened }))
                (accept_one-IsOrderly fd r s h)
        ]
    where
      on :
          (o : Option (Server p))
          → Ensures IsOrderly o
          → Ensures Orderly (elim o [ none ↦ none | some s' ↦ some (accepts s') ])
      on none k = tt
      on (some s') k = k

  pub accept_pending-IsOrderly :
      (rs : List AcceptRound) (s : Server p) → IsOrderly s → Ensures IsOrderly (accept_pending rs s)
  unfolding accept_pending
  accept_pending-IsOrderly [] s h = tt
  accept_pending-IsOrderly (r ∷ rs) s h =
      next (accept_round r s) (λ s' k. accept_pending-IsOrderly rs s' k)
        (accept_round-Orderly r s h)
    where
      next :
          (o : Option (Next (Server p)))
          → ((s' : Server p) → IsOrderly s' → Ensures IsOrderly (accept_pending rs s'))
          → Ensures Orderly o
          → Ensures IsOrderly (elim o [
            | none ↦ none
            | some (stops s') ↦ some s'
            | some (accepts s') ↦ accept_pending rs s'
          ])
      next none ih k = tt
      next (some (stops s')) ih k = k
      next (some (accepts s')) ih k = ih s' k
