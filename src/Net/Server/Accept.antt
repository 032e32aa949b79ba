-- ===== src/Net/Server/Accept.antt =====
-- src/net/server.cpp: new connections, and what happens when descriptors run out.
use tiny_redis.Base.{
  ℕ, Bool, true, false, ◌||◌, Option, none, some, List, [], ◌∷◌, ◌++◌, ◌==◌, if◌then◌else◌,
}
use tiny_redis.Net.Connection.{new as new_connection}
use tiny_redis.Net.Kernel.{
  epollin, eagain, CtlAnswer, ctl_done, ctl_failed, FdAnswer, fd_given, fd_failed,
}
use tiny_redis.Net.Server.{Client, Server, find_client, open_reserve, log_closed, destroy_client}
use tiny_redis.Net.UniqueFd.{UniqueFd, no_fd, owner, is_valid, reset, destroy, move_assign}
use tiny_redis.Table.Pool.{EntryPool}

pub data AcceptFailure : Type 0 where
  drained retry shed pause : AcceptFailure

-- Is `err` one of the labels?
abbrev pub is_case : ℕ → List ℕ → Bool
is_case err [] = false
is_case err (e ∷ es) = err == e || is_case err es

-- EINTR ECONNABORTED EPERM EPROTO ENOPROTOOPT ENETDOWN ENETUNREACH ENONET EHOSTDOWN EHOSTUNREACH
-- EOPNOTSUPP ETIMEDOUT, as Linux numbers them.
abbrev pub retry_errors : List ℕ
retry_errors = 4 ∷ 103 ∷ 1 ∷ 71 ∷ 92 ∷ 100 ∷ 101 ∷ 64 ∷ 112 ∷ 113 ∷ 95 ∷ 110 ∷ []

-- EMFILE ENFILE
abbrev pub shed_errors : List ℕ
shed_errors = 24 ∷ 23 ∷ []

-- EBADF ENOTSOCK EINVAL EFAULT
abbrev pub listener_errors : List ℕ
listener_errors = 9 ∷ 88 ∷ 22 ∷ 14 ∷ []

-- `none` is the assertion on a broken listener.
unfoldable pub classify_accept_errno : ℕ → Option AcceptFailure
classify_accept_errno err =
    if err == eagain
    then some drained
    else if is_case err retry_errors
    then some retry
    else if is_case err shed_errors
    then some shed
    else if is_case err listener_errors
    then none
    else some pause

-- What the kernel answers in one round of `acceptPending`: to accept4, and where it is called to
-- the accept4 and the open of `shedPending`, to setsockopt (true if it succeeds), and to epoll_ctl.
pub record AcceptRound : Type 0 where
  pub accept : FdAnswer
  pub shed_accept : FdAnswer
  pub reserve : FdAnswer
  pub nodelay : Bool
  pub ctl : CtlAnswer
  pub del : ℕ → CtlAnswer

-- How a round ends: `acceptPending` keeps accepting, or returns.
pub data Next (S : Type 0) : Type 0 where
  accepts : S → Next S
  stops : S → Next S

module _ {p : EntryPool} where
  -- The owner of what accept4 gave.
  unfoldable pub accept_fd : FdAnswer → Server p → Server p × UniqueFd
  accept_fd (fd_given n) s = (record s { opened = n ∷ s.opened }, owner n)
  accept_fd (fd_failed e) s = (s, no_fd)

  -- `reserveFd_.reset()`
  unfoldable pub drop_reserve : Server p → Server p
  unfolding reset log_closed
  drop_reserve s =
      let (fd, closed) = reset none s.reserve_fd in log_closed closed (record s { reserve_fd = fd })

  -- `reserveFd_ = openReserve()`, with the end of the temporary.
  unfoldable pub take_reserve : FdAnswer → Server p → Server p
  unfolding open_reserve move_assign destroy log_closed
  take_reserve reserve s =
      let (s', fresh) = open_reserve reserve s in
      let (fd, left, closed) = move_assign s'.reserve_fd fresh in
      log_closed (destroy left ++ closed) (record s' { reserve_fd = fd })

  unfoldable pub shed_pending : FdAnswer → FdAnswer → Server p → Bool × Server p
  unfolding drop_reserve take_reserve accept_fd reset is_valid log_closed
  shed_pending shed_accept reserve s = elim (is_valid s.reserve_fd) [
    | false ↦ (false, s)
    | true ↦
        let (s', fd) = accept_fd shed_accept (drop_reserve s) in
        let (left, closed) = reset none fd in
        (is_valid fd, take_reserve reserve (log_closed closed s'))
  ]

  unfoldable pub pause_accepting : CtlAnswer → Server p → Server p
  pause_accepting ctl s = elim s.accept_paused [
    | true ↦ s
    | false ↦ elim ctl [
      | ctl_failed e ↦ s
      | ctl_done ↦ record s { listening = 0; accept_paused = true }
    ]
  ]

  unfoldable pub resume_accepting : FdAnswer → CtlAnswer → Server p → Server p
  unfolding take_reserve is_valid
  resume_accepting reserve ctl s = elim s.accept_paused [
    | false ↦ s
    | true ↦
        let s' = take_reserve reserve s in
        elim (is_valid s'.reserve_fd) [
          | false ↦ s'
          | true ↦ elim ctl [
            | ctl_failed e ↦ s'
            | ctl_done ↦ record s' { listening = epollin; accept_paused = false }
          ]
        ]
  ]

  -- Whether `acceptPending` should keep accepting.
  unfoldable pub handle_accept_failure : ℕ → AcceptRound → Server p → Option (Next (Server p))
  unfolding classify_accept_errno shed_pending pause_accepting
  handle_accept_failure err r s = elim (classify_accept_errno err) [
    | none ↦ none
    | some drained ↦ some (stops s)
    | some retry ↦ some (accepts s)
    | some pause ↦ some (stops (pause_accepting r.ctl s))
    | some shed ↦
        let (validShed, s') = shed_pending r.shed_accept r.reserve s in
        some (if validShed then accepts s' else stops (pause_accepting r.ctl s'))
  ]

  -- The new connection, registered and put into the map; if either fails its descriptor is closed.
  unfoldable pub admit : ℕ → AcceptRound → Server p → Option (Server p)
  unfolding new_connection log_closed destroy_client find_client
  admit fd r s =
      let c : Client = record { conn = new_connection fd; registered = epollin } in
      elim r.ctl [
        | ctl_failed e ↦ some (log_closed (fd ∷ []) s)
        | ctl_done ↦ elim (find_client fd s.connections) [
          | some _ ↦ destroy_client r.del c s
          | none ↦ some (record s { connections = c ∷ s.connections })
        ]
      ]

  -- A descriptor that was accepted.
  unfoldable pub accept_one : ℕ → AcceptRound → Server p → Option (Server p)
  unfolding admit log_closed
  accept_one fd r s = if r.nodelay then admit fd r s else some (log_closed (fd ∷ []) s)

  unfoldable pub accept_round : AcceptRound → Server p → Option (Next (Server p))
  unfolding accept_one handle_accept_failure
  accept_round r s = elim r.accept [
    | fd_failed e ↦ handle_accept_failure e r s
    | fd_given fd ↦ elim (accept_one fd r (record s { opened = fd ∷ s.opened })) [
      | none ↦ none
      | some s' ↦ some (accepts s')
    ]
  ]

  -- The loop; the list is what the kernel answers, round by round.
  unfoldable pub accept_pending : List AcceptRound → Server p → Option (Server p)
  unfolding accept_round
  accept_pending [] s = none
  accept_pending (r ∷ rs) s = elim (accept_round r s) [
    | none ↦ none
    | some (stops s') ↦ some s'
    | some (accepts s') ↦ accept_pending rs s'
  ]
