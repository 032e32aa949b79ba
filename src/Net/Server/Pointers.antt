-- ===== src/Net/Server/Pointers.antt =====
-- The pointers that epoll keeps to the connections, while a batch of events is delivered.
use tiny_redis.Base.{
  ℕ, zero, suc, ◌+◌, ◌≤◌, Bool, true, false, Option, none, some, List, [], ◌∷◌, ◌++◌, ◌≡◌, refl, ap,
  arith, get_elem?, if◌then◌else◌, ◌==◌,
}
use tiny_redis.Net.Connection.Settled.{Ensures}
use tiny_redis.Net.Connection.{on_writable}
use tiny_redis.Net.EventLoop.Keeps.{dispatch_event-keeps}
use tiny_redis.Net.EventLoop.{dispatch_event, deliver_all}
use tiny_redis.Net.Server.Accept.{accept_pending}
use tiny_redis.Net.Server.Clients.{times, count, count-append}
use tiny_redis.Net.Server.History.{
  Reach, OpensNew, server-IsOrderly, deliver-IsOrderly, client_readable-IsOrderly,
  on_writable-IsMethod,
}
use tiny_redis.Net.Server.Holding.{Holds, accept_pending-Holds}
use tiny_redis.Net.Server.Invariant.{IsOrderly, with_client-IsOrderly}
use tiny_redis.Net.Server.Run.{
  acceptor, client, IoEvent, deliver, client_readable, with_client, on_tick,
}
use tiny_redis.Net.Server.{Client, Server, fd_of, find_client}
use tiny_redis.Net.UniqueFd.{destroy}
use tiny_redis.Table.Pool.{EntryPool}
use tiny_redis.Net.Server.Logs.{
  SameLogs, SameLogs-trans, with_client-SameLogs, client_readable-SameLogs,
}

count_at :
    (cs : List Client) (i : ℕ) (c : Client) → get_elem? cs i ≡ some c → 1 ≤ count (fd_of c) cs
count_at [] i c at = ground arith
count_at (x ∷ xs) zero c at = ground arith
count_at (x ∷ xs) (suc i) c at = omega (arith, count_at xs i c at)

find_client-counted :
    (d : ℕ) (cs : List Client) → 1 ≤ count d cs → (c : Client) × (find_client d cs ≡ some c)
unfolding find_client
find_client-counted d [] h = absurd (omega arith)
find_client-counted d (x ∷ xs) h = on (fd_of x == d) h (λ k. find_client-counted d xs k)
  where
    on :
        (b : Bool)
        → 1 ≤ (if b then 1 else 0) + count d xs
        → (1 ≤ count d xs → (c : Client) × (find_client d xs ≡ some c))
        → (c : Client) × ((if b then some x else find_client d xs) ≡ some c)
    on true k later = (x, refl)
    on false k later = later (omega (arith, k))

module _ {p : EntryPool} where
  -- A method of a connection: what is held before it is held after it.
  abbrev Kept : Server p → Server p → Type 0
  Kept s s' = IsOrderly s' × SameLogs s s'

  Kept-Holds : (d n : ℕ) (s s' : Server p) → IsOrderly s → Kept s s' → Holds d n s → Holds d n s'
  Kept-Holds d n s s' h (h', (opened, closed, reserve)) k = omega (
    arith,
    k,
    h.balanced d,
    h'.balanced d,
    ap (times d) opened,
    ap (times d) closed,
    ap (λ u. times d (destroy u)) reserve,
  )

  Ensures-Kept :
      (s s' : Server p) (o : Option (Server p))
      → Kept s s'
      → Ensures IsOrderly o
      → Ensures (SameLogs s') o
      → Ensures (Kept s) o
  Ensures-Kept s s' none k h l = tt
  Ensures-Kept s s' (some t) (_, same) h l = (h, SameLogs-trans s s' t same l)

  client_event-Kept :
      (fd : ℕ) (e : IoEvent) (s : Server p)
      → IsOrderly s
      → Ensures (Kept s) (
          dispatch_event e.events
            (client_readable fd e.answers)
            (with_client fd (on_writable e.answers.later_writes e.answers.later_ctl))
            s)
  client_event-Kept fd e s h =
      let writes = on_writable {p = p} e.answers.later_writes e.answers.later_ctl in
      dispatch_event-keeps (Kept s) e.events (client_readable fd e.answers) (with_client fd writes)
        s
        (λ s' k.
          Ensures-Kept s s' (client_readable fd e.answers s') k
            (client_readable-IsOrderly fd e.answers s' (k.0))
            (client_readable-SameLogs fd e.answers s'))
        (λ s' k.
          Ensures-Kept s s' (with_client fd writes s') k
            (with_client-IsOrderly fd writes s'
              (on_writable-IsMethod fd e.answers.later_writes e.answers.later_ctl) (k.0))
            (with_client-SameLogs fd writes s'))
        (h, (refl, refl, refl))

  Ensures-Holds :
      (d n : ℕ) (s : Server p) (o : Option (Server p))
      → IsOrderly s
      → Holds d n s
      → Ensures (Kept s) o
      → Ensures (Holds d n) o
  Ensures-Holds d n s none h k x = tt
  Ensures-Holds d n s (some s') h k x = Kept-Holds d n s s' h x k

  deliver-Holds :
      (d n : ℕ) (e : IoEvent) (s : Server p)
      → IsOrderly s
      → Holds d n s
      → Ensures (Holds d n) (deliver e s)
  unfolding deliver
  deliver-Holds d n e s h k =
      elim e.handler
        as (λ x. Ensures (Holds d n) (elim x [
          | acceptor ↦ dispatch_event e.events (accept_pending e.answers.rounds) (λ s'. some s') s
          | client fd ↦
              dispatch_event e.events (client_readable fd e.answers)
                (with_client fd (on_writable e.answers.later_writes e.answers.later_ctl)) s
        ])) [
          | acceptor ↦
              dispatch_event-keeps (Holds d n) e.events (accept_pending e.answers.rounds)
                (λ s'. some s') s (λ s' x. accept_pending-Holds d n e.answers.rounds s' x)
                (λ s' x. x) k
          | client fd ↦ Ensures-Holds d n s _ h k (client_event-Kept fd e s h)
        ]

  -- The loop over the events of a batch, with the server's handlers.
  abbrev pub deliver_batch : List IoEvent → Server p → Option (Server p)
  deliver_batch = deliver_all (λ s. s.loop) (λ l s. record s { loop = l }) deliver on_tick

  deliver_batch-Holds :
      (d n : ℕ) (es : List IoEvent) (s : Server p)
      → IsOrderly s
      → Holds d n s
      → Ensures (λ s'. IsOrderly s' × Holds d n s') (deliver_batch es s)
  unfolding deliver_all
  deliver_batch-Holds d n [] s h k = (h, k)
  deliver_batch-Holds d n (e ∷ es) s h k =
      next (deliver e s) (λ s' h' k'. deliver_batch-Holds d n es s' h' k') (deliver-IsOrderly e s h)
        (deliver-Holds d n e s h k)
    where
      next :
          (o : Option (Server p))
          → ((s' : Server p)
              → IsOrderly s'
              → Holds d n s'
              → Ensures (λ t. IsOrderly t × Holds d n t) (deliver_batch es s'))
          → Ensures IsOrderly o
          → Ensures (Holds d n) o
          → Ensures
              (λ t. IsOrderly t × Holds d n t)
              (elim o [ none ↦ none | some s' ↦ deliver_batch es s' ])
      next none ih x y = tt
      next (some s') ih x y = ih s' x y

  -- The kernel gives no descriptor that is open: each has been opened once more than closed, at most.
  abbrev pub OpensClosed : Server p → Type 0
  OpensClosed s = (d : ℕ) → times d s.opened ≤ times d s.closed + 1

  -- The descriptor `d` leads to a connection that is not destroyed, and, under a kernel that gives no
  -- descriptor that is open, to no other.
  abbrev pub IsReached : ℕ → Server p → Type 0
  IsReached d s =
      ((c : Client) × (find_client d (s.connections ++ s.retired) ≡ some c))
      × (OpensClosed s → count d (s.connections ++ s.retired) ≡ 1)

  -- No connection is destroyed while a batch of events is delivered to a server that runs, under a tick
  -- that never opens the descriptor that is still in reserve: whatever the first events of the batch
  -- did, also if they retired it, the descriptor of each connection that was there before still leads to
  -- a connection of the server, and, if the kernel gives no descriptor that is open, to one only.
  pub deliver_batch-IsReached :
      (es : List IoEvent) (s : Server p) (i : ℕ) (c : Client)
      → (r : Reach s) → OpensNew r
      → get_elem? (s.connections ++ s.retired) i ≡ some c
      → Ensures (IsReached (fd_of c)) (deliver_batch es s)
  deliver_batch-IsReached es s i c r fresh at =
      let held : Holds (fd_of c) 1 s = omega (
        arith,
        count_at (s.connections ++ s.retired) i c at,
        count-append (fd_of c) s.connections s.retired,
      ) in
      on (deliver_batch es s)
        (deliver_batch-Holds (fd_of c) 1 es s (server-IsOrderly s r fresh) held)
    where
      on :
          (o : Option (Server p))
          → Ensures (λ t. IsOrderly t × Holds (fd_of c) 1 t) o
          → Ensures (IsReached (fd_of c)) o
      on none k = tt
      on (some t) (h, k) =
          let sum = count-append (fd_of c) t.connections t.retired in
          (
            find_client-counted (fd_of c) (t.connections ++ t.retired) (omega (arith, k, sum)),
            λ kernel. omega (arith, k, sum, h.balanced (fd_of c), kernel (fd_of c)),
          )
