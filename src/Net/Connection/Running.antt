-- ===== src/Net/Connection/Running.antt =====
-- The store and the buffers of a connection that handles its events.
use tiny_redis.Base.Bytes.{Bytes}
use tiny_redis.Base.Int.{pos}
use tiny_redis.Base.{
  ℕ, zero, suc, ◌≤◌, min, Bool, true, false, Option, none, some, List, [], ◌∷◌, ◌≡◌, arith, inl,
  inr, length, take, length-take, Bool-cases,
}
use tiny_redis.Buffer.Queue.{consume_lem, ensure_writable_lem, fill_lem}
use tiny_redis.Buffer.{size, is_empty, default_capacity, writable_bytes, consume}
use tiny_redis.Net.Connection.Settled.{Ensures}
use tiny_redis.Net.Connection.Requests.{Processed, process_input-Processed}
use tiny_redis.Net.Connection.Rounds.{IsRunning}
use tiny_redis.Net.Connection.{
  Session, is_open, Flow, continues, breaks, returns, mark_closed, update_interest, write_once,
  flush_loop, after_flush, flush_output, process_input, receive, make_room, after_read, on_readable,
  on_writable, no_command,
}
use tiny_redis.Net.Kernel.{
  ReadAnswer, pending, read_failed, WriteAnswer, room_for, write_failed, CtlAnswer,
}
use tiny_redis.Resp.{Command}
use tiny_redis.Table.Pool.{EntryPool}

module _ {p : EntryPool} where
  mark_closed-IsRunning : (s : Session p) → IsRunning s → IsRunning (mark_closed s)
  unfolding mark_closed
  mark_closed-IsRunning s h = ground (arith, h)

  update_interest-IsRunning :
      (ctl : CtlAnswer) (s : Session p) → IsRunning s → Ensures IsRunning (update_interest ctl s)
  unfolding update_interest
  update_interest-IsRunning ctl s h = ground (arith, h, mark_closed-IsRunning s h)

  abbrev Runs : Flow (Session p) → Type 0
  Runs (continues s) = IsRunning s
  Runs (breaks s) = IsRunning s
  Runs (returns s) = IsRunning s

  write_once-Runs : (w : WriteAnswer) (s : Session p) → IsRunning s → Runs (write_once w s)
  unfolding write_once
  write_once-Runs (room_for n) s h = on (min n (size s.conn.output)) (omega arith)
    where
      on :
          (k : ℕ)
          → k ≤ size s.conn.output
          → Runs (elim k [
            | zero ↦ breaks s
            | suc written ↦
                continues (record s {
                  conn = record s.conn { output = consume s.conn.output (suc written) };
                })
          ])
      on zero le = h
      on (suc written) le = record {
        ready_store = h.ready_store;
        valid_input = h.valid_input;
        valid_output = (consume_lem s.conn.output (suc written) h.valid_output le).0;
      }
  write_once-Runs (write_failed e) s h = ground (arith, h, mark_closed-IsRunning s h)

  flush_loop-Runs :
      (ws : List WriteAnswer) (s : Session p) → IsRunning s → Ensures Runs (flush_loop ws s)
  unfolding flush_loop
  flush_loop-Runs [] s h = ground (arith, h)
  flush_loop-Runs (w ∷ ws) s h =
      on (is_empty s.conn.output) (write_once w s) (λ s' k. flush_loop-Runs ws s' k)
        (write_once-Runs w s h)
    where
      on :
          (b : Bool) (f : Flow (Session p))
          → ((s' : Session p) → IsRunning s' → Ensures Runs (flush_loop ws s'))
          → Runs f
          → Ensures Runs (elim b [
            | true ↦ some (breaks s)
            | false ↦ elim f [
              | continues s' ↦ flush_loop ws s'
              | breaks s' ↦ some (breaks s')
              | returns s' ↦ some (returns s')
            ]
          ])
      on true f ih k = h
      on false (continues s') ih k = ih s' k
      on false (breaks s') ih k = k
      on false (returns s') ih k = k

  after_flush-IsRunning :
      (ctl : CtlAnswer) (s : Session p) → IsRunning s → Ensures IsRunning (after_flush ctl s)
  unfolding after_flush
  after_flush-IsRunning ctl s h =
      ground (arith, mark_closed-IsRunning s h, update_interest-IsRunning ctl s h)

  flush_output-IsRunning :
      (ws : List WriteAnswer) (ctl : CtlAnswer) (s : Session p)
      → IsRunning s
      → Ensures IsRunning (flush_output ws ctl s)
  unfolding flush_output
  flush_output-IsRunning ws ctl s h = on (flush_loop ws s) (flush_loop-Runs ws s h)
    where
      on :
          (r : Option (Flow (Session p)))
          → Ensures Runs r
          → Ensures IsRunning (elim r [
            | none ↦ none
            | some (returns s') ↦ some s'
            | some (breaks s') ↦ after_flush ctl s'
            | some (continues s') ↦ none
          ])
      on none k = tt
      on (some (returns s')) k = k
      on (some (breaks s')) k = after_flush-IsRunning ctl s' k
      on (some (continues s')) k = tt

  Processed-IsRunning :
      (clock : ℕ) (cmd : Command) (s : Session p) (o : Option (Session p))
      → Processed clock cmd s o
      → Ensures IsRunning o
  Processed-IsRunning clock cmd s none x = tt
  Processed-IsRunning clock cmd s (some s') (h, _, _) = h

  process_input-IsRunning :
      (evict clock : ℕ) (s : Session p)
      → IsRunning s
      → Ensures IsRunning (process_input evict (pos clock) s)
  unfolding process_input
  process_input-IsRunning evict clock s h = elim (Bool-cases (is_open s.conn.state)) [
    | inl alive ↦
        Processed-IsRunning clock no_command s (process_input evict (pos clock) s)
          (process_input-Processed evict clock s h alive)
    | inr over ↦ idle over
  ]
    where
      idle : is_open s.conn.state ≡ false → Ensures IsRunning (process_input evict (pos clock) s)
      idle over = ground (arith, h, over)

  after_read-IsRunning :
      (evict clock : ℕ) (read : ReadAnswer) (ws : List WriteAnswer) (ctl : CtlAnswer)
      (s : Session p)
      → IsRunning s
      → Ensures IsRunning (after_read evict (pos clock) read ws ctl s)
  unfolding after_read receive
  after_read-IsRunning evict clock (read_failed e) ws ctl s h =
      ground (arith, h, mark_closed-IsRunning s h)
  after_read-IsRunning evict clock (pending bytes) ws ctl s h =
      on (take (writable_bytes s.conn.input) bytes)
        (omega (arith, length-take (writable_bytes s.conn.input) bytes))
    where
      after :
          (o : Option (Session p))
          → Ensures IsRunning o
          → Ensures IsRunning (elim o [ none ↦ none | some s' ↦ flush_output ws ctl s' ])
      after none k = tt
      after (some s') k = flush_output-IsRunning ws ctl s' k

      on :
          (got : Bytes)
          → length got ≤ writable_bytes s.conn.input
          → Ensures IsRunning (elim got [
            | [] ↦ some (mark_closed s)
            | b ∷ bs ↦ elim (process_input evict (pos clock) (receive s (b ∷ bs))) [
              | none ↦ none
              | some s' ↦ flush_output ws ctl s'
            ]
          ])
      on [] le = mark_closed-IsRunning s h
      on (b ∷ bs) le = after (process_input evict (pos clock) (receive s (b ∷ bs))) (
          process_input-IsRunning evict clock (receive s (b ∷ bs)) (record {
            ready_store = h.ready_store;
            valid_input = (fill_lem s.conn.input (b ∷ bs) h.valid_input le).0;
            valid_output = h.valid_output;
          }))

  make_room-IsRunning : (s : Session p) → IsRunning s → IsRunning (make_room s)
  unfolding make_room
  make_room-IsRunning s h =
      let (v, _, _) = ensure_writable_lem s.conn.input default_capacity h.valid_input in
      record { ready_store = h.ready_store; valid_input = v; valid_output = h.valid_output }

  pub on_readable-IsRunning :
      (evict clock : ℕ) (read : ReadAnswer) (ws : List WriteAnswer) (ctl : CtlAnswer)
      (s : Session p)
      → IsRunning s
      → Ensures IsRunning (on_readable evict (pos clock) read ws ctl s)
  unfolding on_readable
  on_readable-IsRunning evict clock read ws ctl s h = ground (
    arith,
    h,
    after_read-IsRunning evict clock read ws ctl (make_room s) (make_room-IsRunning s h),
  )

  pub on_writable-IsRunning :
      (ws : List WriteAnswer) (ctl : CtlAnswer) (s : Session p)
      → IsRunning s
      → Ensures IsRunning (on_writable ws ctl s)
  unfolding on_writable
  on_writable-IsRunning ws ctl s h = ground (arith, h, flush_output-IsRunning ws ctl s h)
