-- ===== src/Net/Connection/Requests.antt =====
-- What `processInput` does with the bytes that a connection has read.
use tiny_redis.Base.Int.{pos}
use tiny_redis.Base.{ℕ, zero, suc, ◌+◌, ◌<◌, true, false, Option, none, some, ◌≡◌, refl, arith}
use tiny_redis.Buffer.{size}
use tiny_redis.Net.Connection.{
  Session, ConnectionState, opened, closing, closed, is_open, Flow, continues, breaks, returns,
  serve_request, process_loop, process_input, no_command,
}
use tiny_redis.Net.Connection.Answers.{IsReused}
use tiny_redis.Net.Connection.Rounds.{
  IsRunning, IsServed, IsAnswered, IsStep, IsStep-IsAnswered, Round, serve_request-Round,
}
use tiny_redis.Resp.Parser.Slots.{AllShort-replicate}
use tiny_redis.Resp.{Command, max_args}
use tiny_redis.Table.Pool.{EntryPool}

no_command-IsReused : IsReused no_command
no_command-IsReused = (refl, AllShort-replicate max_args)

module _ {p : EntryPool} where
  -- What `processInput` leaves of a session.
  abbrev pub Processed : ℕ → Command → Session p → Option (Session p) → Type 0
  Processed clock cmd s none = clock < 500
  Processed clock cmd s (some s') =
      IsRunning s' × IsAnswered cmd s s' × (is_open s'.conn.state ≡ true → IsServed s')

  process_loop-Processed :
      (fuel evict clock : ℕ) (cmd : Command) (s : Session p)
      → IsRunning s
      → IsReused cmd
      → size s.conn.input < fuel
      → Processed clock cmd s (process_loop fuel evict (pos clock) cmd s)
  unfolding process_loop
  process_loop-Processed zero evict clock cmd s h reused enough = absurd (omega arith)
  process_loop-Processed (suc fuel) evict clock cmd s h reused enough =
      next (serve_request evict (pos clock) cmd s)
        (λ c s' k r less.
          process_loop-Processed fuel evict clock c s' k r (omega (arith, less, enough)))
        (serve_request-Round evict clock cmd s h reused)
    where
      next :
          (o : Option (Flow (Command × Session p)))
          → ((c : Command) (s' : Session p)
              → IsRunning s'
              → IsReused c
              → size s'.conn.input < size s.conn.input
              → Processed clock c s' (process_loop fuel evict (pos clock) c s'))
          → Round clock cmd s o
          → Processed clock cmd s (elim o [
            | none ↦ none
            | some (breaks (_, s')) ↦ some s'
            | some (returns (_, s')) ↦ some s'
            | some (continues (cmd', s')) ↦ process_loop fuel evict (pos clock) cmd' s'
          ])
      next none ih x = x
      next (some (breaks (c, s'))) ih (k, grows, served) = (k, grows, λ _. served)
      next (some (returns (c, s'))) ih (k, grows, served) = (k, grows, served)
      next (some (continues (c, s'))) ih (k, step, less, reused') =
          on c s' step (process_loop fuel evict (pos clock) c s') (ih c s' k reused' less)
        where
          on :
              (c : Command) (s' : Session p)
              → IsStep cmd s c s'
              → (o : Option (Session p)) → Processed clock c s' o
              → Processed clock cmd s o
          on c s' step none x = x
          on c s' step (some t) (h', answered, served) =
              (h', IsStep-IsAnswered cmd c s s' t step answered, served)

  pub process_input-Processed :
      (evict clock : ℕ) (s : Session p)
      → IsRunning s
      → is_open s.conn.state ≡ true
      → Processed clock no_command s (process_input evict (pos clock) s)
  unfolding process_input
  process_input-Processed evict clock s h alive = on s.conn.state alive
    where
      on :
          (st : ConnectionState)
          → is_open st ≡ true
          → Processed clock no_command s (elim st [
            | opened ↦ process_loop (size s.conn.input + 1) evict (pos clock) no_command s
            | _ ↦ some s
          ])
      on opened e =
          process_loop-Processed (size s.conn.input + 1) evict clock no_command s h
            no_command-IsReused (omega arith)
      on closing e = absurd (let x : false ≡ true = e in cc)
      on closed e = absurd (let x : false ≡ true = e in cc)
