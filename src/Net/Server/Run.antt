-- ===== src/Net/Server/Run.antt =====
-- src/net/server.cpp: the events of the loop reach the acceptor and the connections, and `run` with
-- what it does at each tick.
use tiny_redis.Base.Int.{ℤ, ltb_ℤ, ◌-ℤ◌}
use tiny_redis.Base.{
  ℕ, zero, suc, Bool, true, false, Option, none, some, List, ◌∷◌, ◌++◌, if◌then◌else◌,
}
use tiny_redis.Net.Connection.{ConnectionState, Session, is_open, on_readable, on_writable}
use tiny_redis.Net.EventLoop.{
  dispatch_event, Wake, Exit, returned, thrown, run as run_loop, stop as stop_loop,
}
use tiny_redis.Net.Kernel.{ReadAnswer, pending, WriteAnswer, CtlAnswer, FdAnswer}
use tiny_redis.Net.Server.Accept.{AcceptRound, accept_pending, resume_accepting}
use tiny_redis.Net.Server.{Client, Server, find_client, put_client, now, retire, destroy_retired}
use tiny_redis.Store.Expiry.{active_expire_cycle}
use tiny_redis.Table.Pool.{EntryPool}

-- The two kinds of handler. A pointer to a connection is its descriptor: the kernel gives out none that
-- is still open.
pub data Handler : Type 0 where
  acceptor : Handler
  client : ℕ → Handler

-- What the kernel answers to the handler of an event. `clock` is `nowMs`, if it is called, and `evict`
-- the fuel of the eviction.
pub record Answers : Type 0 where
  pub rounds : List AcceptRound
  pub evict : ℕ
  pub clock : ℤ
  pub read : ReadAnswer
  pub writes : List WriteAnswer
  pub ctl : CtlAnswer
  pub later_writes : List WriteAnswer
  pub later_ctl : CtlAnswer

pub record IoEvent : Type 0 where
  pub handler : Handler
  pub events : ℕ
  pub answers : Answers

-- What the kernel answers to the calls of `onTick`.
pub record TickAnswers : Type 0 where
  pub del : ℕ → CtlAnswer
  pub reserve : FdAnswer
  pub ctl : CtlAnswer
  pub clock : ℤ

-- Does `onReadable` come to `server_.now()`?
unfoldable pub reads_clock : ReadAnswer → ConnectionState → Bool
reads_clock (pending (b ∷ bs)) state = is_open state
reads_clock _ state = false

module _ {p : EntryPool} where
  unfoldable pub session : Client → Server p → Session p
  session c s = record { conn = c.conn; store = s.store; registered = c.registered; retired = 0 }

  -- What a session has changed, written back.
  unfoldable pub write_back : ℕ → Session p → Server p → Server p
  unfolding put_client
  write_back fd t s =
      let c : Client = record { conn = t.conn; registered = t.registered } in
      record s {
        store = t.store;
        connections = put_client fd c s.connections;
        retired = elim (find_client fd s.connections) [
          | none ↦ put_client fd c s.retired
          | some _ ↦ s.retired
        ];
      }

  -- The calls of `retire` that a session has counted. A method of a connection calls it last.
  unfoldable pub retire_times : ℕ → ℕ → Server p → Option (Server p)
  unfolding retire
  retire_times zero fd s = some s
  retire_times (suc n) fd s = elim (retire fd s) [ none ↦ none | some s' ↦ retire_times n fd s' ]

  -- A method of the connection with this descriptor; `none` is also a connection that is destroyed.
  unfoldable pub with_client : ℕ → (Session p → Option (Session p)) → Server p → Option (Server p)
  unfolding session write_back retire_times find_client
  with_client fd method s = elim (find_client fd (s.connections ++ s.retired)) [
    | none ↦ none
    | some c ↦ elim (method (session c s)) [
      | none ↦ none
      | some t ↦ retire_times t.retired fd (write_back fd t s)
    ]
  ]

  -- `onReadable` of a connection, with the server's clock.
  unfoldable pub client_readable : ℕ → Answers → Server p → Option (Server p)
  unfolding with_client now reads_clock
  client_readable fd a s = elim (find_client fd (s.connections ++ s.retired)) [
    | none ↦ none
    | some c ↦
        let (clock, s') = if reads_clock a.read c.conn.state then now a.clock s else (a.clock, s) in
        with_client fd (on_readable a.evict clock a.read a.writes a.ctl) s'
  ]

  unfoldable pub deliver : IoEvent → Server p → Option (Server p)
  unfolding dispatch_event client_readable
  deliver e s = elim e.handler [
    | acceptor ↦ dispatch_event e.events (accept_pending e.answers.rounds) (λ s'. some s') s
    | client fd ↦
        dispatch_event e.events (client_readable fd e.answers)
          (with_client fd (on_writable e.answers.later_writes e.answers.later_ctl)) s
  ]

  -- The sweep of `onTick`, once per interval.
  unfoldable pub sweep : ℤ → Server p → Option (Server p)
  sweep t_now s = elim (ltb_ℤ (t_now -ℤ s.last_sweep_ms) s.cfg.expire_interval_ms) [
    | true ↦ some s
    | false ↦ elim (active_expire_cycle s.store t_now s.cfg.expire_sample_buckets) [
      | none ↦ none
      | some (r, store) ↦ some (record s { store = store; last_sweep_ms = t_now })
    ]
  ]

  unfoldable pub on_tick : TickAnswers → Server p → Option (Server p)
  unfolding destroy_retired resume_accepting now sweep
  on_tick t s = elim (destroy_retired t.del s) [
    | none ↦ none
    | some s' ↦
        let (t_now, s'') = now t.clock (resume_accepting t.reserve t.ctl s') in sweep t_now s''
  ]

  unfoldable pub stop : Server p → Server p
  unfolding stop_loop
  stop s = record s { loop = stop_loop s.loop }

  -- `del` answers the last `destroyRetired`.
  unfoldable pub run :
      List (Wake IoEvent TickAnswers) → (ℕ → CtlAnswer) → Server p → Option (Exit (Server p))
  unfolding run_loop deliver on_tick
  run wakes del s =
      elim (run_loop (λ s'. s'.loop) (λ l s'. record s' { loop = l }) deliver on_tick wakes s) [
        | none ↦ none
        | some (thrown e s') ↦ some (thrown e s')
        | some (returned s') ↦ elim (destroy_retired del s') [
          | none ↦ none
          | some s'' ↦ some (returned s'')
        ]
      ]
