-- ===== src/Net/Connection.antt =====
-- src/net/connection.h and src/net/connection.cpp: one client socket. A session is a connection with
-- what its methods change around it: the store, the mask that epoll has for the socket, and the calls
-- of `Server::retire`. `none` is a failed assertion, or a loop that is still waiting for the kernel.
pub mod Settled
pub mod Lifecycle
pub mod Answers
pub mod Rounds
pub mod Requests
pub mod Running
use Prim.Native.Nat.{bit_or}
use tiny_redis.Base.Bytes.{Bytes}
use tiny_redis.Base.Int.{ℤ}
use tiny_redis.Base.{
  ℕ, zero, suc, ◌+◌, min, Bool, true, false, ◌&&◌, ◌||◌, Option, none, some, List, [], ◌∷◌, length,
  take, replicate, ◌==◌, if◌then◌else◌,
}
use tiny_redis.Buffer.{
  Buffer, new as new_buffer, default_capacity, size, readable, is_empty, writable_bytes,
  ensure_writable, commit, write_tail, consume,
}
use tiny_redis.Dispatch.{DispatchResult, keep_open, close_connection, dispatch}
use tiny_redis.Net.Kernel.{
  epollin, epollout, enoent, eintr, ebadf, eagain, ewouldblock, ReadAnswer, pending, read_failed,
  WriteAnswer, room_for, write_failed, CtlAnswer, ctl_done, ctl_failed,
}
use tiny_redis.Resp.Parser.{parse_command}
use tiny_redis.Resp.Reply.{error}
use tiny_redis.Resp.{Command, ParseStatus, max_args}
use tiny_redis.Store.{Store}
use tiny_redis.Table.Pool.{EntryPool}

pub data ConnectionState : Type 0 where
  opened closing closed : ConnectionState

pub record Connection : Type 0 where
  pub fd : ℕ
  pub input : Buffer
  pub output : Buffer
  pub state : ConnectionState
  pub interest : ℕ

pub record Session (p : EntryPool) : Type 0 where
  pub conn : Connection
  pub store : Store p
  pub registered : ℕ
  pub retired : ℕ

abbrev pub is_open : ConnectionState → Bool
is_open opened = true
is_open _ = false

abbrev pub is_closing : ConnectionState → Bool
is_closing closing = true
is_closing _ = false

abbrev pub is_closed : ConnectionState → Bool
is_closed closed = true
is_closed _ = false

-- The constructor. A `Buffer` starts with its default capacity.
unfoldable pub new : ℕ → Connection
new fd = record {
  fd = fd;
  input = new_buffer default_capacity;
  output = new_buffer default_capacity;
  state = opened;
  interest = epollin;
}

-- How a round of a loop ends: with the next round, at the end of the loop, or out of the method.
pub data Flow (A : Type 0) : Type 0 where
  continues breaks returns : A → Flow A

-- The mask that `updateInterest` asks for.
unfoldable pub wanted : Connection → ℕ
wanted c =
    bit_or (if is_empty c.output then 0 else epollout) (if is_open c.state then epollin else 0)

-- `Command{}`
abbrev pub no_command : Command
no_command = record { argv = replicate max_args []; argc = 0 }

module _ {p : EntryPool} where
  unfoldable pub set_state : Session p → ConnectionState → Session p
  set_state s state = record s { conn = record s.conn { state = state } }

  unfoldable pub mark_closed : Session p → Session p
  unfolding set_state
  mark_closed s = elim s.conn.state [
    | closed ↦ s
    | _ ↦ record (set_state s closed) { retired = s.retired + 1 }
  ]

  unfoldable pub update_interest : CtlAnswer → Session p → Option (Session p)
  unfolding wanted mark_closed
  update_interest ctl s = elim (wanted s.conn == s.conn.interest) [
    | true ↦ some s
    | false ↦ elim ctl [
      | ctl_done ↦ some (record s {
        conn = record s.conn { interest = wanted s.conn };
        registered = wanted s.conn;
      })
      | ctl_failed e ↦ elim (e == enoent || e == ebadf) [
        | true ↦ none
        | false ↦ some (mark_closed s)
      ]
    ]
  ]

  -- One `write` of `flushOutput`.
  unfoldable pub write_once : WriteAnswer → Session p → Flow (Session p)
  unfolding mark_closed
  write_once (room_for n) s = elim (min n (size s.conn.output)) [
    | zero ↦ breaks s
    | suc written ↦
        continues
          (record s { conn = record s.conn { output = consume s.conn.output (suc written) } })
  ]
  write_once (write_failed e) s =
      if e == eagain || e == ewouldblock
      then breaks s
      else if e == eintr
      then continues s
      else returns (mark_closed s)

  -- The loop of `flushOutput`. The list is what the kernel answers, call by call.
  unfoldable pub flush_loop : List WriteAnswer → Session p → Option (Flow (Session p))
  unfolding write_once
  flush_loop [] s = if is_empty s.conn.output then some (breaks s) else none
  flush_loop (w ∷ ws) s = elim (is_empty s.conn.output) [
    | true ↦ some (breaks s)
    | false ↦ elim (write_once w s) [
      | continues s' ↦ flush_loop ws s'
      | breaks s' ↦ some (breaks s')
      | returns s' ↦ some (returns s')
    ]
  ]

  -- What stands behind the loop.
  unfoldable pub after_flush : CtlAnswer → Session p → Option (Session p)
  unfolding update_interest mark_closed
  after_flush ctl s =
      if is_empty s.conn.output && is_closing s.conn.state
      then some (mark_closed s)
      else update_interest ctl s

  unfoldable pub flush_output : List WriteAnswer → CtlAnswer → Session p → Option (Session p)
  unfolding flush_loop after_flush
  flush_output ws ctl s = elim (flush_loop ws s) [
    | none ↦ none
    | some (returns s') ↦ some s'
    | some (breaks s') ↦ after_flush ctl s'
    | some (continues s') ↦ none
  ]

  -- A request that was parsed: it is run, and its bytes are consumed.
  unfoldable pub run_request : ℕ → ℤ → ℕ → Command → Session p → Option (Flow (Command × Session p))
  unfolding set_state
  run_request evict now consumed cmd s = elim (dispatch evict s.store cmd now s.conn.output) [
    | none ↦ none
    | some (d, store, out) ↦
        let s' : Session p = record s {
          conn = record s.conn { input = consume s.conn.input consumed; output = out };
          store = store;
        } in
        some (elim d [
          | close_connection ↦ returns (cmd, set_state s' closing)
          | keep_open ↦ continues (cmd, s')
        ])
  ]

  -- One round of `processInput`.
  unfoldable pub serve_request : ℕ → ℤ → Command → Session p → Option (Flow (Command × Session p))
  unfolding run_request
  serve_request evict now cmd s =
      if is_empty s.conn.input
      then some (breaks (cmd, s))
      else (let (r, cmd') = parse_command (readable s.conn.input) cmd in
          elim r.status [
            | ParseStatus.incomplete ↦ some (returns (cmd', s))
            | ParseStatus.protocol_error ↦ some (
                returns (
                  cmd',
                  record s {
                    conn = record s.conn { output = error s.conn.output r.error; state = closing };
                  },
                ))
            | ParseStatus.ok ↦ run_request evict now r.consumed cmd' s
          ])

  -- The loop of `processInput`, on fuel: a request takes at least one byte, so one round for each
  -- byte and one more are enough. `evict` is the fuel of the eviction.
  unfoldable pub process_loop : ℕ → ℕ → ℤ → Command → Session p → Option (Session p)
  unfolding serve_request
  process_loop zero evict now cmd s = none
  process_loop (suc fuel) evict now cmd s = elim (serve_request evict now cmd s) [
    | none ↦ none
    | some (breaks (_, s')) ↦ some s'
    | some (returns (_, s')) ↦ some s'
    | some (continues (cmd', s')) ↦ process_loop fuel evict now cmd' s'
  ]

  unfoldable pub process_input : ℕ → ℤ → Session p → Option (Session p)
  unfolding process_loop
  process_input evict now s = elim s.conn.state [
    | opened ↦ process_loop (size s.conn.input + 1) evict now no_command s
    | _ ↦ some s
  ]

  -- The bytes that `read` stores behind the write cursor, published.
  unfoldable pub receive : Session p → Bytes → Session p
  receive s bytes =
      let c = s.conn in
      record s { conn = record c { input = commit (write_tail c.input bytes) (length bytes) } }

  unfoldable pub make_room : Session p → Session p
  make_room s = record s {
    conn = record s.conn { input = ensure_writable s.conn.input default_capacity };
  }

  -- What `onReadable` does with the result of `read`.
  unfoldable pub after_read :
      ℕ → ℤ → ReadAnswer → List WriteAnswer → CtlAnswer → Session p → Option (Session p)
  unfolding receive process_input flush_output mark_closed
  after_read evict now (read_failed e) ws ctl s =
      if e == eagain || (e == ewouldblock || e == eintr) then some s else some (mark_closed s)
  after_read evict now (pending bytes) ws ctl s = elim (take (writable_bytes s.conn.input) bytes) [
    | [] ↦ some (mark_closed s)
    | b ∷ bs ↦ elim (process_input evict now (receive s (b ∷ bs))) [
      | none ↦ none
      | some s' ↦ flush_output ws ctl s'
    ]
  ]

  unfoldable pub on_readable :
      ℕ → ℤ → ReadAnswer → List WriteAnswer → CtlAnswer → Session p → Option (Session p)
  unfolding make_room after_read
  on_readable evict now read ws ctl s = elim s.conn.state [
    | closed ↦ some s
    | _ ↦ after_read evict now read ws ctl (make_room s)
  ]

  unfoldable pub on_writable : List WriteAnswer → CtlAnswer → Session p → Option (Session p)
  unfolding flush_output
  on_writable ws ctl s = elim s.conn.state [ closed ↦ some s | _ ↦ flush_output ws ctl s ]
