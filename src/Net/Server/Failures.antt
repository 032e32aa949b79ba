-- ===== src/Net/Server/Failures.antt =====
-- src/net/server.cpp: how `acceptPending` answers an error of accept4.
use tiny_redis.Base.{ℕ, true, Option, none, some, ◌∷◌, ◌≡◌}
use tiny_redis.Net.Kernel.{ctl_failed, fd_given}
use tiny_redis.Net.Server.Accept.{
  AcceptRound, drained, retry, shed, Next, accepts, stops, classify_accept_errno,
}
use tiny_redis.Net.Server.{Server}
use tiny_redis.Table.Pool.{EntryPool}

module _ {p : EntryPool} where
  -- Why `acceptPending` goes on: the error is one to retry, or the reserve `m` was closed first, then the
  -- connection that waits was accepted, as `n`, and closed. The last one closed stands first in the log.
  pub data GoesOn (err : ℕ) (r : AcceptRound) (s s' : Server p) : Type 0 where
    used_up : classify_accept_errno err ≡ some retry → s' ≡ s → GoesOn err r s s'
    was_shed :
        (m n : ℕ)
        → classify_accept_errno err ≡ some shed
        → s.reserve_fd.fd ≡ some m
        → r.shed_accept ≡ fd_given n
        → s'.closed ≡ n ∷ m ∷ s.closed
        → GoesOn err r s s'

  -- Why it returns: nothing waits, or epoll was asked to leave the listener alone until a tick.
  pub data Returns (err : ℕ) (r : AcceptRound) (s s' : Server p) : Type 0 where
    nothing_waits : classify_accept_errno err ≡ some drained → s' ≡ s → Returns err r s s'
    paused : s'.accept_paused ≡ true → Returns err r s s'
    still_watched : (e : ℕ) → r.ctl ≡ ctl_failed e → Returns err r s s'

  abbrev pub Explained : ℕ → AcceptRound → Server p → Option (Next (Server p)) → Type 0
  Explained err r s none = classify_accept_errno err ≡ none
  Explained err r s (some (accepts s')) = GoesOn err r s s'
  Explained err r s (some (stops s')) = Returns err r s s'
