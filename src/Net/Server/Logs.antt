-- ===== src/Net/Server/Logs.antt =====
-- src/net/server.cpp: the logs of opened and closed descriptors, through a connection's methods.
use tiny_redis.Base.Int.{ℤ}
use tiny_redis.Base.{
  ℕ, zero, suc, Bool, true, false, Option, none, some, ◌++◌, ◌≡◌, refl, ◌∙◌, arith, if◌then◌else◌,
}
use tiny_redis.Net.Connection.Settled.{Ensures}
use tiny_redis.Net.Connection.{Session, on_readable}
use tiny_redis.Net.Server.Run.{
  Answers, client_readable, with_client, reads_clock, retire_times, write_back, session,
}
use tiny_redis.Net.Server.{Client, Server, find_client, now, retire}
use tiny_redis.Table.Pool.{EntryPool}

module _ {p : EntryPool} where
  -- No descriptor was opened or closed.
  abbrev pub SameLogs : Server p → Server p → Type 0
  SameLogs s s' = (s'.opened ≡ s.opened) × (s'.closed ≡ s.closed) × (s'.reserve_fd ≡ s.reserve_fd)

  pub SameLogs-trans : (a b c : Server p) → SameLogs a b → SameLogs b c → SameLogs a c
  SameLogs-trans a b c (o, l, r) (o', l', r') = (o' ∙ o, l' ∙ l, r' ∙ r)

  -- One call after another, of which each may fail.
  Ensures-SameLogs :
      (s : Server p) (o : Option (Server p)) (f : Server p → Option (Server p))
      → Ensures (SameLogs s) o
      → ((s' : Server p) → Ensures (SameLogs s') (f s'))
      → Ensures (SameLogs s) (elim o [ none ↦ none | some s' ↦ f s' ])
  Ensures-SameLogs s none f h k = tt
  Ensures-SameLogs s (some s') f h k = on (f s') (k s')
    where
      on : (o : Option (Server p)) → Ensures (SameLogs s') o → Ensures (SameLogs s) o
      on none k' = tt
      on (some t) k' = SameLogs-trans s s' t h k'

  retire-SameLogs : (fd : ℕ) (s : Server p) → Ensures (SameLogs s) (retire fd s)
  unfolding retire
  retire-SameLogs fd s = ground arith

  retire_times-SameLogs : (n fd : ℕ) (s : Server p) → Ensures (SameLogs s) (retire_times n fd s)
  unfolding retire_times
  retire_times-SameLogs zero fd s = (refl, refl, refl)
  retire_times-SameLogs (suc n) fd s =
      Ensures-SameLogs s (retire fd s) (retire_times n fd) (retire-SameLogs fd s)
        (λ s'. retire_times-SameLogs n fd s')

  written-SameLogs :
      (fd : ℕ) (t : Session p) (s : Server p)
      → Ensures (SameLogs s) (retire_times t.retired fd (write_back fd t s))
  unfolding write_back
  written-SameLogs fd t s = retire_times-SameLogs t.retired fd (write_back fd t s)

  pub with_client-SameLogs :
      (fd : ℕ) (method : Session p → Option (Session p)) (s : Server p)
      → Ensures (SameLogs s) (with_client fd method s)
  unfolding with_client
  with_client-SameLogs fd method s = on (find_client fd (s.connections ++ s.retired))
    where
      after :
          (r : Option (Session p))
          → Ensures
              (SameLogs s)
              (elim r [ none ↦ none | some t ↦ retire_times t.retired fd (write_back fd t s) ])
      after none = tt
      after (some t) = written-SameLogs fd t s

      on :
          (o : Option Client)
          → Ensures (SameLogs s) (elim o [
            | none ↦ none
            | some c ↦ elim (method (session c s)) [
              | none ↦ none
              | some t ↦ retire_times t.retired fd (write_back fd t s)
            ]
          ])
      on none = tt
      on (some c) = after (method (session c s))

  now-SameLogs : (clock : ℤ) (s : Server p) → SameLogs s ((now clock s).1)
  unfolding now
  now-SameLogs clock s = ground arith

  pub client_readable-SameLogs :
      (fd : ℕ) (a : Answers) (s : Server p) → Ensures (SameLogs s) (client_readable fd a s)
  unfolding client_readable
  client_readable-SameLogs fd a s = on (find_client fd (s.connections ++ s.retired))
    where
      reads : (b : Bool) → ℤ × Server p
      reads b = if b then now a.clock s else (a.clock, s)

      reads-SameLogs : (b : Bool) → SameLogs s ((reads b).1)
      reads-SameLogs true = now-SameLogs a.clock s
      reads-SameLogs false = (refl, refl, refl)

      on :
          (o : Option Client)
          → Ensures (SameLogs s) (elim o [
            | none ↦ none
            | some c ↦
                let (clock, s') =
                  if reads_clock a.read c.conn.state then now a.clock s else (a.clock, s) in
                with_client fd (on_readable a.evict clock a.read a.writes a.ctl) s'
          ])
      on none = tt
      on (some c) =
          let (clock, s') = reads (reads_clock a.read c.conn.state) in
          Ensures-SameLogs s (some s')
            (with_client fd (on_readable a.evict clock a.read a.writes a.ctl))
            (reads-SameLogs (reads_clock a.read c.conn.state))
            (λ t. with_client-SameLogs fd (on_readable a.evict clock a.read a.writes a.ctl) t)
