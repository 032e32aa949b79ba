-- ===== src/Net/Server.antt =====
-- src/net/server.h and src/net/server.cpp: the server's state, its clock and the two lists of
-- connections. A client is a connection with the mask that epoll has for its socket. `closed` logs what
-- was handed to `close`, and `opened` what the kernel gave. `none` is a failed assertion.
pub mod Accept
pub mod Run
pub mod Clients
pub mod Invariant
pub mod Failures
pub mod Intake
pub mod History
pub mod Holding
pub mod Logs
pub mod Pointers
pub mod Health
pub mod Admission
pub mod Soundness
use tiny_redis.Base.Bytes.{Bytes}
use tiny_redis.Base.Int.{ℤ, pos}
use tiny_redis.Base.{
  ℕ, zero, suc, ◌+◌, Bool, true, false, Option, none, some, List, [], ◌∷◌, ◌++◌, length, ◌==◌,
  if◌then◌else◌,
}
use tiny_redis.Bits.{word}
use tiny_redis.Net.Connection.{Connection, Session}
use tiny_redis.Net.EventLoop.{EventLoop, new as new_loop}
use tiny_redis.Net.Kernel.{epollin, CtlAnswer, ctl_done, ctl_failed, FdAnswer, fd_given, fd_failed}
use tiny_redis.Net.UniqueFd.{UniqueFd, no_fd, owner}
use tiny_redis.Store.{Store, Config as StoreConfig}
use tiny_redis.Table.Pool.{EntryPool}

pub record Config : Type 0 where
  pub bind_addr : Bytes
  pub port : ℕ
  pub backlog : ℕ
  pub expire_interval_ms : ℤ
  pub expire_sample_buckets : ℕ
  pub store : StoreConfig

pub record Client : Type 0 where
  pub conn : Connection
  pub registered : ℕ

pub record Server (p : EntryPool) : Type 0 where
  pub cfg : Config
  pub store : Store p
  pub loop : EventLoop
  pub connections : List Client
  pub retired : List Client
  pub cached_now : ℤ
  pub last_sweep_ms : ℤ
  pub cached_tick : ℕ
  pub reserve_fd : UniqueFd
  pub accept_paused : Bool
  pub listening : ℕ
  pub opened : List ℕ
  pub closed : List ℕ

abbrev pub fd_of : Client → ℕ
fd_of c = c.conn.fd

-- The map, keyed by descriptor.
unfoldable pub find_client : ℕ → List Client → Option Client
find_client fd [] = none
find_client fd (c ∷ cs) = if fd_of c == fd then some c else find_client fd cs

unfoldable pub erase_client : ℕ → List Client → List Client
erase_client fd [] = []
erase_client fd (c ∷ cs) = if fd_of c == fd then cs else c ∷ erase_client fd cs

-- What a method of a connection leaves of it, written back.
unfoldable pub put_client : ℕ → Client → List Client → List Client
put_client fd new [] = []
put_client fd new (c ∷ cs) = if fd_of c == fd then new ∷ cs else c ∷ put_client fd new cs

module _ {p : EntryPool} where
  -- The call of `open`, and the owner of what it gave.
  unfoldable pub open_reserve : FdAnswer → Server p → Server p × UniqueFd
  open_reserve (fd_given n) s = (record s { opened = n ∷ s.opened }, owner n)
  open_reserve (fd_failed e) s = (s, no_fd)

  unfoldable pub log_closed : List ℕ → Server p → Server p
  log_closed fds s = record s { closed = fds ++ s.closed }

  -- The constructor, behind the listener that is open. `random` is the random device's number.
  unfoldable pub new : Config → Store p → FdAnswer → Server p
  unfolding open_reserve
  new cfg store reserve =
      let start : Server p = record {
        cfg = cfg;
        store = store;
        loop = new_loop;
        connections = [];
        retired = [];
        cached_now = pos 0;
        last_sweep_ms = pos 0;
        cached_tick = 0xffffffffffffffff;
        reserve_fd = no_fd;
        accept_paused = false;
        listening = epollin;
        opened = [];
        closed = [];
      } in
      let (s, fd) = open_reserve reserve start in record s { reserve_fd = fd }

  -- `clock` is what `nowMs` returns if it is called.
  unfoldable pub now : ℤ → Server p → ℤ × Server p
  now clock s =
      if s.loop.tick_count == s.cached_tick
      then (s.cached_now, s)
      else (clock, record s { cached_now = clock; cached_tick = s.loop.tick_count })

  unfoldable pub retire : ℕ → Server p → Option (Server p)
  unfolding find_client erase_client
  retire fd s = elim (find_client fd s.connections) [
    | none ↦ none
    | some c ↦
        some (record s {
          connections = erase_client fd s.connections;
          retired = s.retired ++ (c ∷ []);
        })
  ]

  unfoldable pub connection_count : Server p → ℕ
  connection_count s = length s.connections

  -- The destructor of a connection: EPOLL_CTL_DEL, which must not fail, and the end of its owner.
  -- `del` is the kernel's answer for each descriptor.
  unfoldable pub destroy_client : (ℕ → CtlAnswer) → Client → Server p → Option (Server p)
  unfolding log_closed
  destroy_client del c s = elim (del (fd_of c)) [
    | ctl_failed e ↦ none
    | ctl_done ↦ some (log_closed (fd_of c ∷ []) s)
  ]

  unfoldable pub destroy_all : (ℕ → CtlAnswer) → List Client → Server p → Option (Server p)
  unfolding destroy_client
  destroy_all del [] s = some s
  destroy_all del (c ∷ cs) s = elim (destroy_client del c s) [
    | none ↦ none
    | some s' ↦ destroy_all del cs s'
  ]

  unfoldable pub destroy_retired : (ℕ → CtlAnswer) → Server p → Option (Server p)
  unfolding destroy_all
  destroy_retired del s = destroy_all del s.retired (record s { retired = [] })
