-- ===== src/Net/Connection/Settled.antt =====
-- What holds of a connection between two events, and what the flush of its output leaves of that.
use tiny_redis.Base.{
  ℕ, true, false, ◌&&◌, Option, none, some, List, [], ◌∷◌, ◌≡◌, arith, if◌then◌else◌,
}
use tiny_redis.Buffer.{is_empty}
use tiny_redis.Net.Connection.{
  Session, is_closing, is_closed, wanted, Flow, continues, breaks, returns, write_once, after_flush,
  mark_closed, update_interest, flush_loop, flush_output,
}
use tiny_redis.Net.Kernel.{WriteAnswer, CtlAnswer}
use tiny_redis.Table.Pool.{EntryPool}

-- What holds of a result, if there is one.
abbrev pub Ensures {ℓ} : {A : Type ℓ} → (A → Type 0) → Option A → Type 0
Ensures P none = Unit
Ensures P (some x) = P x

module _ {p : EntryPool} (fd : ℕ) where
  -- Between two events: `retire` was called when the connection closed, once; epoll watches the socket
  -- for input while the connection is open, and for output while bytes wait to be written; and a
  -- connection that is closing has bytes to write. Its descriptor is `fd` all along.
  pub record IsSettled (s : Session p) : Type 0 where
    pub same : s.conn.fd ≡ fd
    pub once : s.retired ≡ (if is_closed s.conn.state then 1 else 0)
    pub armed :
        is_closed s.conn.state ≡ false
        → (s.conn.interest ≡ wanted s.conn) × (s.registered ≡ wanted s.conn)
    pub busy : is_closing s.conn.state ≡ true → is_empty s.conn.output ≡ false

  -- Inside a handler: not closed yet.
  pub record IsActive (s : Session p) : Type 0 where
    pub same : s.conn.fd ≡ fd
    pub alive : is_closed s.conn.state ≡ false
    pub fresh : s.retired ≡ 0
    pub known : s.registered ≡ s.conn.interest

  pub mark_closed-IsSettled : (s : Session p) → IsActive s → IsSettled (mark_closed s)
  unfolding mark_closed
  mark_closed-IsSettled s a = ground arith

  update_interest-IsSettled :
      (ctl : CtlAnswer) (s : Session p)
      → IsActive s
      → (is_empty s.conn.output && is_closing s.conn.state) ≡ false
      → Ensures IsSettled (update_interest ctl s)
  unfolding update_interest
  update_interest-IsSettled ctl s a h = ground arith

  -- The loop of `flushOutput` has closed the connection, or leaves it active.
  abbrev Flushed : Flow (Session p) → Type 0
  Flushed (returns s) = IsSettled s
  Flushed (breaks s) = IsActive s
  Flushed (continues s) = IsActive s

  write_once-Flushed : (w : WriteAnswer) (s : Session p) → IsActive s → Flushed (write_once w s)
  unfolding write_once
  write_once-Flushed w s a = ground (arith, mark_closed-IsSettled s a)

  next_write :
      (ws : List WriteAnswer) (f : Flow (Session p))
      → ((s : Session p) → IsActive s → Ensures Flushed (flush_loop ws s))
      → Flushed f
      → Ensures Flushed (elim f [
        | continues s' ↦ flush_loop ws s'
        | breaks s' ↦ some (breaks s')
        | returns s' ↦ some (returns s')
      ])
  next_write ws (continues s) ih h = ih s h
  next_write ws (breaks s) ih h = h
  next_write ws (returns s) ih h = h

  flush_loop-Flushed :
      (ws : List WriteAnswer) (s : Session p) → IsActive s → Ensures Flushed (flush_loop ws s)
  unfolding flush_loop
  flush_loop-Flushed [] s a = ground arith
  flush_loop-Flushed (w ∷ ws) s a =
      elim (is_empty s.conn.output)
        as (λ b. Ensures Flushed (elim b [
          | true ↦ some (breaks s)
          | false ↦ elim (write_once w s) [
            | continues s' ↦ flush_loop ws s'
            | breaks s' ↦ some (breaks s')
            | returns s' ↦ some (returns s')
          ]
        ])) [
          | true ↦ a
          | false ↦
              next_write ws (write_once w s) (λ s' h. flush_loop-Flushed ws s' h)
                (write_once-Flushed w s a)
        ]

  after_flush-IsSettled :
      (ctl : CtlAnswer) (s : Session p) → IsActive s → Ensures IsSettled (after_flush ctl s)
  unfolding after_flush
  after_flush-IsSettled ctl s a =
      ground (arith, mark_closed-IsSettled s a, update_interest-IsSettled ctl s a)

  pub flush_output-IsSettled :
      (ws : List WriteAnswer) (ctl : CtlAnswer) (s : Session p)
      → IsActive s
      → Ensures IsSettled (flush_output ws ctl s)
  unfolding flush_output
  flush_output-IsSettled ws ctl s a = after (flush_loop ws s) (flush_loop-Flushed ws s a)
    where
      after :
          (r : Option (Flow (Session p)))
          → Ensures Flushed r
          → Ensures IsSettled (elim r [
            | none ↦ none
            | some (returns s') ↦ some s'
            | some (breaks s') ↦ after_flush ctl s'
            | some (continues s') ↦ none
          ])
      after none h = tt
      after (some (returns s')) h = h
      after (some (breaks s')) h = after_flush-IsSettled ctl s' h
      after (some (continues s')) h = tt
