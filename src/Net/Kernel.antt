-- ===== src/Net/Kernel.antt =====
-- The kernel's answers to read, write and epoll_ctl, and the constants of <sys/epoll.h> and <cerrno>
-- that the code under src/net names, with their values on Linux.
use tiny_redis.Base.Bytes.{Bytes}
use tiny_redis.Base.{ℕ, List}

abbrev pub epollin : ℕ
epollin = 1

abbrev pub epollout : ℕ
epollout = 4

abbrev pub epollerr : ℕ
epollerr = 8

abbrev pub epollhup : ℕ
epollhup = 16

abbrev pub enoent : ℕ
enoent = 2

abbrev pub eintr : ℕ
eintr = 4

abbrev pub ebadf : ℕ
ebadf = 9

abbrev pub eagain : ℕ
eagain = 11

abbrev pub ewouldblock : ℕ
ewouldblock = 11

-- What waits to be read, of which a call takes what fits its buffer, or an error. Nothing waiting is
-- the end of the stream.
pub data ReadAnswer : Type 0 where
  pending : Bytes → ReadAnswer
  read_failed : ℕ → ReadAnswer

-- How many bytes the kernel has room for, of which a call uses what it offers, or an error.
pub data WriteAnswer : Type 0 where
  room_for : ℕ → WriteAnswer
  write_failed : ℕ → WriteAnswer

pub data CtlAnswer : Type 0 where
  ctl_done : CtlAnswer
  ctl_failed : ℕ → CtlAnswer

-- A call that gives a new descriptor: accept4, open.
pub data FdAnswer : Type 0 where
  fd_given : ℕ → FdAnswer
  fd_failed : ℕ → FdAnswer

-- epoll_wait: the events that are ready, or an error.
pub data WaitAnswer (E : Type 0) : Type 0 where
  woke : List E → WaitAnswer E
  wait_failed : ℕ → WaitAnswer E
