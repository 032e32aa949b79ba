-- ===== src/Net/Server/Invariant.antt =====
-- src/net/server.cpp: what is asked of the connections, live and retired, and of the descriptors of
-- the server between two calls.
use tiny_redis.Base.{
  ℕ, ◌+◌, true, false, Option, none, some, List, [], ◌∷◌, ◌++◌, ◌≡◌, refl, sym, ◌∙◌, ap, arith, inl,
  inr, Bool-cases, Option-cases, ◌==◌, if◌then◌else◌,
}
use tiny_redis.Net.Connection.Settled.{Ensures, IsSettled}
use tiny_redis.Net.Connection.{Session, is_closed, is_closing, wanted}
use tiny_redis.Net.Kernel.{CtlAnswer}
use tiny_redis.Net.Server.Clients.{
  times, count, Each, count-append, Each-append, find_client-fd, find_client-Each,
  find_client-append, count-erase_client, count-put_client, find_client-put_client, Each-put_client,
  Each-erase_client, erase_client-put_client, put_client_absent,
}
use tiny_redis.Net.Server.Run.{session, write_back, retire_times, with_client}
use tiny_redis.Net.Server.{
  Client, Server, fd_of, find_client, erase_client, put_client, log_closed, retire, destroy_client,
  destroy_all, destroy_retired,
}
use tiny_redis.Net.UniqueFd.{destroy}
use tiny_redis.Buffer.{is_empty}
use tiny_redis.Table.Pool.{EntryPool}

-- A connection in the map: not closed, and epoll has the mask it wants.
pub record IsLive (c : Client) : Type 0 where
  pub alive : is_closed c.conn.state ≡ false
  pub armed : c.conn.interest ≡ wanted c.conn
  pub known : c.registered ≡ wanted c.conn
  pub busy : is_closing c.conn.state ≡ true → is_empty c.conn.output ≡ false

abbrev pub IsDead : Client → Type 0
IsDead c = is_closed c.conn.state ≡ true

abbrev one : ℕ → ℕ → ℕ
one fd d = if fd == d then 1 else 0

module _ {p : EntryPool} where
  -- How often the server holds a descriptor, the listener's and the loop's own left aside.
  abbrev pub held : ℕ → Server p → ℕ
  held d s = count d s.connections + count d s.retired + times d (destroy s.reserve_fd)

  pub record IsOrderly (s : Server p) : Type 0 where
    pub live : Each IsLive s.connections
    pub dead : Each IsDead s.retired
    pub balanced : (d : ℕ) → times d s.opened ≡ times d s.closed + held d s

  -- A method of a connection: it leaves a settled connection settled, and a closed one as it is.
  pub record IsMethod (fd : ℕ) (method : Session p → Option (Session p)) : Type 0 where
    pub settles : (t : Session p) → IsSettled fd t → Ensures (IsSettled fd) (method t)
    pub rests : (t : Session p) → is_closed t.conn.state ≡ true → method t ≡ some t

  session-IsSettled :
      (fd : ℕ) (c : Client) (s : Server p) → IsLive c → fd_of c ≡ fd → IsSettled fd (session c s)
  unfolding session
  session-IsSettled fd c s h e = record {
    same = e;
    once = rw (h.alive) refl;
    armed = λ _. (h.armed, h.known);
    busy = h.busy;
  }

  abbrev after : Session p → Client
  after t = record { conn = t.conn; registered = t.registered }

  after-IsLive :
      (fd : ℕ) (t : Session p) → IsSettled fd t → is_closed t.conn.state ≡ false → IsLive (after t)
  after-IsLive fd t h alive = record {
    alive = alive;
    armed = (h.armed alive).0;
    known = (h.armed alive).1;
    busy = h.busy;
  }

  -- A method has run on a connection of the map.
  write_back_found :
      (fd : ℕ) (c : Client) (t : Session p) (s : Server p)
      → find_client fd s.connections ≡ some c
      → write_back fd t s
        ≡ record s { store = t.store; connections = put_client fd (after t) s.connections }
  unfolding write_back
  write_back_found fd c t s found = rw found refl

  retire_found :
      (fd : ℕ) (c : Client) (s : Server p)
      → find_client fd s.connections ≡ some c
      → retire fd s
        ≡ some (record s {
          connections = erase_client fd s.connections;
          retired = s.retired ++ (c ∷ []);
        })
  unfolding retire
  retire_found fd c s found = rw (retire, found) refl

  -- It has not closed it.
  stays-IsOrderly :
      (fd : ℕ) (c : Client) (t : Session p) (s : Server p)
      → IsOrderly s
      → find_client fd s.connections ≡ some c
      → IsSettled fd t
      → is_closed t.conn.state ≡ false
      → IsOrderly (write_back fd t s)
  stays-IsOrderly fd c t s h found settled alive = rw (write_back_found fd c t s found) (record {
    live =
        Each-put_client IsLive fd (after t) s.connections (after-IsLive fd t settled alive) h.live;
    dead = h.dead;
    balanced = λ d.
        omega (arith, h.balanced d, count-put_client d fd (after t) s.connections settled.same);
  })

  -- It has closed it: the connection moves to the retired ones.
  leaves-IsOrderly :
      (fd : ℕ) (c : Client) (t : Session p) (s : Server p)
      → IsOrderly s
      → find_client fd s.connections ≡ some c
      → IsSettled fd t
      → is_closed t.conn.state ≡ true
      → Ensures IsOrderly (retire fd (write_back fd t s))
  leaves-IsOrderly fd c t s h found settled over =
      let put : Server p = record s {
        store = t.store;
        connections = put_client fd (after t) s.connections;
      } in
      let there = find_client-put_client fd (after t) c s.connections found settled.same in
      let fewer = erase_client-put_client fd (after t) c s.connections found settled.same in
      rw (write_back_found fd c t s found) (
        rw (retire_found fd (after t) put there) (
          rw fewer (record {
            live = Each-erase_client IsLive fd s.connections h.live;
            dead = Each-append IsDead s.retired (after t ∷ []) h.dead (over, tt);
            balanced = λ d. omega (
              arith,
              h.balanced d,
              count-append d s.retired (after t ∷ []),
              count-erase_client d fd s.connections c found,
              ap (λ x. one x d) (find_client-fd fd s.connections c found ∙ sym settled.same),
            );
          })))

  -- What `with_client` does with the result of a method on a connection of the map.
  runs-IsOrderly :
      (fd : ℕ) (c : Client) (s : Server p) (r : Option (Session p))
      → IsOrderly s
      → find_client fd s.connections ≡ some c
      → Ensures (IsSettled fd) r
      → Ensures IsOrderly
          (elim r [ none ↦ none | some t ↦ retire_times t.retired fd (write_back fd t s) ])
  unfolding retire_times
  runs-IsOrderly fd c s none h found k = tt
  runs-IsOrderly fd c s (some t) h found k = elim (Bool-cases (is_closed t.conn.state)) [
    | inl over ↦ ground (arith, k.once, over, leaves-IsOrderly fd c t s h found k over)
    | inr alive ↦ ground (arith, k.once, alive, stays-IsOrderly fd c t s h found k alive)
  ]

  -- A method on a retired connection finds it closed.
  rests-IsOrderly :
      (fd : ℕ) (c : Client) (s : Server p)
      → IsOrderly s
      → find_client fd s.connections ≡ none
      → find_client fd s.retired ≡ some c
      → IsOrderly (write_back fd (session c s) s)
  unfolding write_back session
  rests-IsOrderly fd c s h absent found =
      rw (absent, put_client_absent fd c s.connections absent)
        (record {
          live = h.live;
          dead =
              Each-put_client IsDead fd c s.retired
                (find_client-Each IsDead fd s.retired c found h.dead) h.dead;
          balanced = λ d. omega (
            arith,
            h.balanced d,
            count-put_client d fd c s.retired (find_client-fd fd s.retired c found),
          );
        })

  pub with_client-IsOrderly :
      (fd : ℕ) (method : Session p → Option (Session p)) (s : Server p)
      → IsMethod fd method
      → IsOrderly s
      → Ensures IsOrderly (with_client fd method s)
  unfolding with_client
  with_client-IsOrderly fd method s m h = elim (Option-cases (find_client fd s.connections)) [
    | inr (c, found) ↦
        rw (with_client, find_client-append fd s.connections s.retired, found)
          (runs-IsOrderly fd c s (method (session c s)) h found (
            m.settles (session c s) (
              session-IsSettled fd c s (find_client-Each IsLive fd s.connections c found h.live)
                (find_client-fd fd s.connections c found))))
    | inl absent ↦ elim (Option-cases (find_client fd s.retired)) [
      | inl gone ↦ rw (with_client, find_client-append fd s.connections s.retired, absent, gone) tt
      | inr (c, found) ↦
          let over : is_closed (session c s).conn.state ≡ true =
            unfold session in find_client-Each IsDead fd s.retired c found h.dead in
          rw
            (
              with_client,
              find_client-append fd s.connections s.retired,
              absent,
              found,
              m.rests (session c s) over,
            )
            (unfold retire_times session in rests-IsOrderly fd c s h absent found)
    ]
  ]

  pub destroy_client-logs :
      (del : ℕ → CtlAnswer) (c : Client) (s : Server p)
      → Ensures (λ s'. s' ≡ log_closed (fd_of c ∷ []) s) (destroy_client del c s)
  unfolding destroy_client
  destroy_client-logs del c s = ground arith

  destroy_all-IsOrderly :
      (del : ℕ → CtlAnswer) (cs : List Client) (s : Server p)
      → Each IsLive s.connections
      → Each IsDead s.retired
      → ((d : ℕ) → times d s.opened ≡ times d s.closed + (held d s + count d cs))
      → Ensures IsOrderly (destroy_all del cs s)
  unfolding destroy_all log_closed
  destroy_all-IsOrderly del [] s live dead h = record {
    live = live;
    dead = dead;
    balanced = λ d. omega (arith, h d);
  }
  destroy_all-IsOrderly del (c ∷ cs) s live dead h =
      next (destroy_client del c s)
        (destroy_all-IsOrderly del cs (log_closed (fd_of c ∷ []) s) live dead
          (λ d. omega (arith, h d)))
        (destroy_client-logs del c s)
    where
      next :
          (r : Option (Server p))
          → Ensures IsOrderly (destroy_all del cs (log_closed (fd_of c ∷ []) s))
          → Ensures (λ s'. s' ≡ log_closed (fd_of c ∷ []) s) r
          → Ensures IsOrderly (elim r [ none ↦ none | some s' ↦ destroy_all del cs s' ])
      next none ih e = tt
      next (some s') ih e = rw e ih

  pub destroy_retired-IsOrderly :
      (del : ℕ → CtlAnswer) (s : Server p) → IsOrderly s → Ensures IsOrderly (destroy_retired del s)
  unfolding destroy_retired
  destroy_retired-IsOrderly del s h =
      destroy_all-IsOrderly del s.retired (record s { retired = [] }) h.live tt
        (λ d. omega (arith, h.balanced d))
