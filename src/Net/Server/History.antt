-- ===== src/Net/Server/History.antt =====
-- src/net/server.cpp: the states that a server comes to by its events and its ticks.
use mathlib.Core.Path.{subst}
use tiny_redis.Base.Int.{ℤ, ltb_ℤ, ◌-ℤ◌}
use tiny_redis.Base.{
  ℕ, Bool, true, false, Option, none, some, List, [], ◌∷◌, ◌++◌, ◌≡◌, refl, arith, if◌then◌else◌,
}
use tiny_redis.Net.Connection.Lifecycle.{on_readable-IsSettled, on_writable-IsSettled}
use tiny_redis.Net.Connection.Settled.{Ensures}
use tiny_redis.Net.Connection.{on_readable, on_writable}
use tiny_redis.Net.EventLoop.Keeps.{dispatch_event-keeps}
use tiny_redis.Net.EventLoop.{EventLoop, dispatch_event}
use tiny_redis.Net.Kernel.{CtlAnswer, FdAnswer, fd_given, fd_failed, ReadAnswer, WriteAnswer}
use tiny_redis.Net.Server.Accept.{resume_accepting, accept_pending}
use tiny_redis.Net.Server.Intake.{IsNew, resume_accepting-IsOrderly, accept_pending-IsOrderly}
use tiny_redis.Net.Server.Invariant.{
  IsOrderly, IsMethod, with_client-IsOrderly, destroy_retired-IsOrderly, destroy_client-logs,
}
use tiny_redis.Net.Server.Run.{
  acceptor, client, IoEvent, Answers, TickAnswers, deliver, client_readable, with_client, sweep,
  on_tick, reads_clock,
}
use tiny_redis.Net.Server.{
  Config, Client, Server, new, fd_of, find_client, now, open_reserve, log_closed, destroy_client,
  destroy_all, destroy_retired,
}
use tiny_redis.Net.UniqueFd.{destroy, close_fd}
use tiny_redis.Store.{Store, ExpireCycleResult}
use tiny_redis.Store.Expiry.{active_expire_cycle}
use tiny_redis.Table.Pool.{EntryPool}

module _ {p : EntryPool} where
  on_readable-IsMethod :
      (fd evict : ℕ) (now : ℤ) (read : ReadAnswer) (ws : List WriteAnswer) (ctl : CtlAnswer)
      → IsMethod {p = p} fd (on_readable evict now read ws ctl)
  unfolding on_readable
  on_readable-IsMethod fd evict now read ws ctl = record {
    settles = λ t h. on_readable-IsSettled fd evict now read ws ctl t h;
    rests = λ t over. ground (arith, over);
  }

  pub on_writable-IsMethod :
      (fd : ℕ) (ws : List WriteAnswer) (ctl : CtlAnswer) → IsMethod {p = p} fd (on_writable ws ctl)
  unfolding on_writable
  on_writable-IsMethod fd ws ctl = record {
    settles = λ t h. on_writable-IsSettled fd ws ctl t h;
    rests = λ t over. ground (arith, over);
  }

  now-IsOrderly : (clock : ℤ) (s : Server p) → IsOrderly s → IsOrderly ((now clock s).1)
  unfolding now
  now-IsOrderly clock s h = record {
    live = ground (arith, h);
    dead = ground (arith, h);
    balanced = λ d. ground (arith, h.balanced d);
  }

  pub client_readable-IsOrderly :
      (fd : ℕ) (a : Answers) (s : Server p)
      → IsOrderly s
      → Ensures IsOrderly (client_readable fd a s)
  unfolding client_readable
  client_readable-IsOrderly fd a s h = on (find_client fd (s.connections ++ s.retired))
    where
      reads : (c : Client) → ℤ × Server p
      reads c = if reads_clock a.read c.conn.state then now a.clock s else (a.clock, s)

      reads-IsOrderly : (c : Client) → IsOrderly ((reads c).1)
      reads-IsOrderly c =
          elim (reads_clock a.read c.conn.state)
            as (λ b. IsOrderly ((if b then now a.clock s else (a.clock, s)).1)) [
              | true ↦ now-IsOrderly a.clock s h
              | false ↦ h
            ]

      on :
          (o : Option Client)
          → Ensures IsOrderly (elim o [
            | none ↦ none
            | some c ↦
                let (clock, s') =
                  if reads_clock a.read c.conn.state then now a.clock s else (a.clock, s) in
                with_client fd (on_readable a.evict clock a.read a.writes a.ctl) s'
          ])
      on none = tt
      on (some c) =
          with_client-IsOrderly fd (on_readable a.evict ((reads c).0) a.read a.writes a.ctl)
            ((reads c).1) (on_readable-IsMethod fd a.evict ((reads c).0) a.read a.writes a.ctl)
            (reads-IsOrderly c)

  pub deliver-IsOrderly :
      (e : IoEvent) (s : Server p) → IsOrderly s → Ensures IsOrderly (deliver e s)
  unfolding deliver
  deliver-IsOrderly e s h =
      elim e.handler
        as (λ x. Ensures IsOrderly (elim x [
          | acceptor ↦ dispatch_event e.events (accept_pending e.answers.rounds) (λ s'. some s') s
          | client fd ↦
              dispatch_event e.events (client_readable fd e.answers)
                (with_client fd (on_writable e.answers.later_writes e.answers.later_ctl)) s
        ])) [
          | acceptor ↦
              dispatch_event-keeps IsOrderly e.events (accept_pending e.answers.rounds)
                (λ s'. some s') s (λ s' k. accept_pending-IsOrderly e.answers.rounds s' k)
                (λ s' k. k) h
          | client fd ↦
              dispatch_event-keeps IsOrderly e.events (client_readable fd e.answers)
                (with_client fd (on_writable e.answers.later_writes e.answers.later_ctl)) s
                (λ s' k. client_readable-IsOrderly fd e.answers s' k)
                (λ s' k.
                  with_client-IsOrderly fd (on_writable e.answers.later_writes e.answers.later_ctl)
                    s' (on_writable-IsMethod fd e.answers.later_writes e.answers.later_ctl) k)
                h
        ]

  sweep-IsOrderly : (t_now : ℤ) (s : Server p) → IsOrderly s → Ensures IsOrderly (sweep t_now s)
  unfolding sweep
  sweep-IsOrderly t_now s h =
      on (ltb_ℤ (t_now -ℤ s.last_sweep_ms) s.cfg.expire_interval_ms)
        (active_expire_cycle s.store t_now s.cfg.expire_sample_buckets)
    where
      on :
          (b : Bool) (o : Option (ExpireCycleResult × Store p))
          → Ensures IsOrderly (elim b [
            | true ↦ some s
            | false ↦ elim o [
              | none ↦ none
              | some (r, store) ↦ some (record s { store = store; last_sweep_ms = t_now })
            ]
          ])
      on true o = h
      on false none = tt
      on false (some (r, store)) = record { live = h.live; dead = h.dead; balanced = h.balanced }

  destroy_all-reserve :
      (del : ℕ → CtlAnswer) (cs : List Client) (s : Server p)
      → Ensures (λ s'. s'.reserve_fd ≡ s.reserve_fd) (destroy_all del cs s)
  unfolding destroy_all log_closed
  destroy_all-reserve del [] s = refl
  destroy_all-reserve del (c ∷ cs) s =
      next (destroy_client del c s) (destroy_all-reserve del cs (log_closed (fd_of c ∷ []) s))
        (destroy_client-logs del c s)
    where
      next :
          (o : Option (Server p))
          → Ensures
              (λ s'. s'.reserve_fd ≡ (log_closed (fd_of c ∷ []) s).reserve_fd)
              (destroy_all del cs (log_closed (fd_of c ∷ []) s))
          → Ensures (λ s'. s' ≡ log_closed (fd_of c ∷ []) s) o
          → Ensures
              (λ s'. s'.reserve_fd ≡ s.reserve_fd)
              (elim o [ none ↦ none | some s' ↦ destroy_all del cs s' ])
      next none ih e = tt
      next (some s') ih e = rw e ih

  on_tick-IsOrderly :
      (t : TickAnswers) (s : Server p)
      → IsNew t.reserve s
      → IsOrderly s
      → Ensures IsOrderly (on_tick t s)
  unfolding on_tick
  on_tick-IsOrderly t s fresh h =
      next (destroy_retired t.del s) (destroy_retired-IsOrderly t.del s h)
        (unfold destroy_retired in destroy_all-reserve t.del s.retired (record s { retired = [] }))
    where
      still_new :
          (a : FdAnswer) (s' : Server p) → s'.reserve_fd ≡ s.reserve_fd → IsNew a s → IsNew a s'
      still_new (fd_given n) s' e new = rw e new
      still_new (fd_failed x) s' e new = tt

      next :
          (o : Option (Server p))
          → Ensures IsOrderly o
          → Ensures (λ s'. s'.reserve_fd ≡ s.reserve_fd) o
          → Ensures IsOrderly (elim o [
            | none ↦ none
            | some s' ↦
                let (t_now, s'') = now t.clock (resume_accepting t.reserve t.ctl s') in
                sweep t_now s''
          ])
      next none k e = tt
      next (some s') k e =
          let resumed = resume_accepting t.reserve t.ctl s' in
          sweep-IsOrderly ((now t.clock resumed).0) ((now t.clock resumed).1) (
            now-IsOrderly t.clock resumed
              (resume_accepting-IsOrderly t.reserve t.ctl s' (still_new t.reserve s' e fresh) k))

  -- What a server comes to: from its start, by the events and the ticks of its loop, whose own fields
  -- the loop and the signals change in between.
  pub data Reach : Server p → Type 0 where
    start : (cfg : Config) (store : Store p) (reserve : FdAnswer) → Reach (new cfg store reserve)
    looped : {s : Server p} → Reach s → (l : EventLoop) → Reach (record s { loop = l })
    delivered : {s t : Server p} → Reach s → (e : IoEvent) → deliver e s ≡ some t → Reach t
    ticked : {s t : Server p} → Reach s → (a : TickAnswers) → on_tick a s ≡ some t → Reach t

  -- What a tick opens is not the descriptor that is still held in reserve.
  abbrev pub OpensNew : {s : Server p} → Reach s → Type 0
  OpensNew (start cfg store reserve) = Unit
  OpensNew (looped r l) = OpensNew r
  OpensNew (delivered r e run) = OpensNew r
  OpensNew (ticked {s} r a run) = IsNew a.reserve s × OpensNew r

  new-IsOrderly :
      (cfg : Config) (store : Store p) (reserve : FdAnswer) → IsOrderly (new cfg store reserve)
  unfolding new open_reserve destroy close_fd
  new-IsOrderly cfg store (fd_given n) = record {
    live = tt;
    dead = tt;
    balanced = λ d. omega arith;
  }
  new-IsOrderly cfg store (fd_failed e) = record {
    live = tt;
    dead = tt;
    balanced = λ d. omega arith;
  }

  -- Whatever the kernel answers, if what a tick opens is never the descriptor that is still held in
  -- reserve, then between two events or ticks every connection in the map is not closed and epoll has
  -- the mask it wants, every retired one is closed, and each descriptor has been opened as often as it
  -- is held, by a connection or in reserve, or was closed: none leaks.
  pub server-IsOrderly : (s : Server p) → (r : Reach s) → OpensNew r → IsOrderly s
  server-IsOrderly s (start cfg store reserve) fresh = new-IsOrderly cfg store reserve
  server-IsOrderly s (looped {s = t} r l) fresh =
      let h = server-IsOrderly t r fresh in
      record { live = h.live; dead = h.dead; balanced = h.balanced }
  server-IsOrderly s (delivered {s = t} r e run) fresh =
      subst (Ensures IsOrderly) run (deliver-IsOrderly e t (server-IsOrderly t r fresh))
  server-IsOrderly s (ticked {s = t} r a run) fresh =
      subst (Ensures IsOrderly) run
        (on_tick-IsOrderly a t (fresh.0) (server-IsOrderly t r (fresh.1)))
