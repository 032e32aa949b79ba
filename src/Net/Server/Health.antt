-- ===== src/Net/Server/Health.antt =====
-- src/net/server.cpp: what is asked of the store, of the buffers of every connection and of the
-- clock.
use tiny_redis.Base.Int.{ℤ, pos, negsuc}
use tiny_redis.Base.{ℕ, zero, suc, Option, none, some, [], ◌∷◌, ◌++◌, arith, inl, inr, Option-cases}
use tiny_redis.Buffer.Queue.{IsValid as IsQueue}
use tiny_redis.Net.Connection.Settled.{Ensures}
use tiny_redis.Net.Connection.Rounds.{IsRunning}
use tiny_redis.Net.Connection.{Session}
use tiny_redis.Net.Server.Clients.{
  Each, Each-append, find_client-Each, Each-put_client, Each-erase_client,
}
use tiny_redis.Net.Server.Run.{session, write_back, retire_times, with_client}
use tiny_redis.Net.Server.{Client, Server, find_client, retire}
use tiny_redis.Store.Cap.{IsReady}
use tiny_redis.Table.Pool.{EntryPool}

-- A time that is not before the clock's epoch.
abbrev pub IsTime : ℤ → Type 0
IsTime (pos n) = Unit
IsTime (negsuc n) = ⊥

abbrev pub HasQueues : Client → Type 0
HasQueues c = IsQueue c.conn.input × IsQueue c.conn.output

module _ {p : EntryPool} where
  pub record IsHealthy (s : Server p) : Type 0 where
    pub ready_store : IsReady s.store
    pub queues : Each HasQueues s.connections
    pub last_queues : Each HasQueues s.retired
    pub time : IsTime s.cached_now

  abbrev pub IsRun : (Session p → Option (Session p)) → Type 0
  IsRun method = (t : Session p) → IsRunning t → Ensures IsRunning (method t)

  retire-IsHealthy : (fd : ℕ) (s : Server p) → IsHealthy s → Ensures IsHealthy (retire fd s)
  unfolding retire
  retire-IsHealthy fd s h = elim (Option-cases (find_client fd s.connections)) [
    | inl gone ↦ rw (retire, gone) tt
    | inr (c, found) ↦
        rw (retire, found)
          (record {
            ready_store = h.ready_store;
            queues = Each-erase_client HasQueues fd s.connections h.queues;
            last_queues =
                Each-append HasQueues s.retired (c ∷ []) h.last_queues
                  (find_client-Each HasQueues fd s.connections c found h.queues, tt);
            time = h.time;
          })
  ]

  retire_times-IsHealthy :
      (n fd : ℕ) (s : Server p) → IsHealthy s → Ensures IsHealthy (retire_times n fd s)
  unfolding retire_times
  retire_times-IsHealthy zero fd s h = h
  retire_times-IsHealthy (suc n) fd s h =
      on (retire fd s) (λ s' k. retire_times-IsHealthy n fd s' k) (retire-IsHealthy fd s h)
    where
      on :
          (o : Option (Server p))
          → ((s' : Server p) → IsHealthy s' → Ensures IsHealthy (retire_times n fd s'))
          → Ensures IsHealthy o
          → Ensures IsHealthy (elim o [ none ↦ none | some s' ↦ retire_times n fd s' ])
      on none ih k = tt
      on (some s') ih k = ih s' k

  write_back-IsHealthy :
      (fd : ℕ) (t : Session p) (s : Server p)
      → IsRunning t
      → IsHealthy s
      → IsHealthy (write_back fd t s)
  unfolding write_back
  write_back-IsHealthy fd t s k h =
      let c : Client = record { conn = t.conn; registered = t.registered } in
      let fine : HasQueues c = (k.valid_input, k.valid_output) in
      record {
        ready_store = k.ready_store;
        queues = Each-put_client HasQueues fd c s.connections fine h.queues;
        last_queues =
            ground (arith, h, Each-put_client HasQueues fd c s.retired fine h.last_queues);
        time = h.time;
      }

  session-IsRunning :
      (c : Client) (s : Server p) → HasQueues c → IsHealthy s → IsRunning (session c s)
  unfolding session
  session-IsRunning c s q h = record {
    ready_store = h.ready_store;
    valid_input = q.0;
    valid_output = q.1;
  }

  pub with_client-IsHealthy :
      (fd : ℕ) (method : Session p → Option (Session p)) (s : Server p)
      → IsRun method
      → IsHealthy s
      → Ensures IsHealthy (with_client fd method s)
  unfolding with_client
  with_client-IsHealthy fd method s m h =
      elim (Option-cases (find_client fd (s.connections ++ s.retired))) [
        | inl gone ↦ rw (with_client, gone) tt
        | inr (c, found) ↦
            let all = Each-append HasQueues s.connections s.retired h.queues h.last_queues in
            let q = find_client-Each HasQueues fd (s.connections ++ s.retired) c found all in
            rw (with_client, found)
              (on (method (session c s)) (m (session c s) (session-IsRunning c s q h)))
      ]
    where
      on :
          (o : Option (Session p))
          → Ensures IsRunning o
          → Ensures IsHealthy
              (elim o [ none ↦ none | some t ↦ retire_times t.retired fd (write_back fd t s) ])
      on none k = tt
      on (some t) k =
          retire_times-IsHealthy t.retired fd (write_back fd t s) (write_back-IsHealthy fd t s k h)
