-- ===== src/Net/Connection/Rounds.antt =====
-- One round of the loop of `processInput`.
use mathlib.Core.Path.{subst}
use tiny_redis.Base.Bytes.{Bytes}
use tiny_redis.Base.Int.{pos}
use tiny_redis.Base.{
  ℕ, ◌+◌, ◌≤◌, ◌<◌, Bool, true, false, Option, none, some, ◌≡◌, ◌⊎◌, refl, arith, inl, inr, drop,
  ◌==◌, if◌then◌else◌,
}
use tiny_redis.Buffer.Queue.{IsValid as IsQueue, length-readable, consume_lem}
use tiny_redis.Buffer.{Buffer, size, readable, is_empty, consume}
use tiny_redis.Dispatch.Replies.{error-Replies}
use tiny_redis.Dispatch.Whole.{Dispatched, dispatch_lem}
use tiny_redis.Dispatch.{DispatchResult, keep_open, close_connection, dispatch}
use tiny_redis.Net.Connection.{
  Session, closing, is_open, Flow, continues, breaks, returns, run_request, serve_request,
  set_state,
}
use tiny_redis.Resp.Parser.Bounds.{Outcome, parse_command-Outcome}
use tiny_redis.Resp.Parser.Rounds.{IsClean}
use tiny_redis.Resp.Parser.Short.{Short, parse_command-Short}
use tiny_redis.Resp.Parser.Slots.{AllShort-get_or}
use tiny_redis.Resp.Parser.{parse_command}
use tiny_redis.Resp.Reply.{error}
use tiny_redis.Resp.{Command, ParseStatus, ParseResult}
use tiny_redis.Store.Cap.{IsReady}
use tiny_redis.Store.{Store}
use tiny_redis.Table.Pool.{EntryPool}
use tiny_redis.Net.Connection.Answers.{
  Gains, Gains-none, Gains-one, Takes, IsReused, Gains-trans, dispatched-Gains, leaves, refuses,
  takes,
}

size-consume : (b : Buffer) (n : ℕ) → 0 < n → n ≤ size b → size (consume b n) < size b
unfolding consume
size-consume b n low high = ground arith

module _ {p : EntryPool} where
  -- A session whose store is ready and whose buffers are valid.
  pub record IsRunning (s : Session p) : Type 0 where
    pub ready_store : IsReady s.store
    pub valid_input : IsQueue s.conn.input
    pub valid_output : IsQueue s.conn.output

  -- No request that waits in the input is complete.
  abbrev pub IsServed : Session p → Type 0
  IsServed s =
      (is_empty s.conn.input ≡ true)
      ⊎ ((cmd : Command) × ((parse_command (readable s.conn.input) cmd).0.status
            ≡ ParseStatus.incomplete))

  -- The output has gained as many replies as the requests taken from the input ask for.
  abbrev pub IsAnswered : Command → Session p → Session p → Type 0
  IsAnswered cmd s s' =
      (n : ℕ) × Gains n s.conn.output s'.conn.output
      × Takes (readable s.conn.input) cmd n (readable s'.conn.input)

  -- The same of one request, before the next ones.
  abbrev pub IsStep : Command → Session p → Command → Session p → Type 0
  IsStep cmd s cmd' s' =
      (m : ℕ) × Gains m s.conn.output s'.conn.output
      × ((n : ℕ) (rest : Bytes)
          → Takes (readable s'.conn.input) cmd' n rest
          → Takes (readable s.conn.input) cmd (m + n) rest)

  pub IsStep-IsAnswered :
      (cmd cmd' : Command) (s s' t : Session p)
      → IsStep cmd s cmd' s'
      → IsAnswered cmd' s' t
      → IsAnswered cmd s t
  IsStep-IsAnswered cmd cmd' s s' t (m, gains, taken) (n, more, rest) = (
    m + n,
    Gains-trans m n s.conn.output s'.conn.output t.conn.output gains more,
    taken n (readable t.conn.input) rest,
  )

  -- What one round of the loop leaves. It fails before half a second of the clock at most.
  abbrev pub Round : ℕ → Command → Session p → Option (Flow (Command × Session p)) → Type 0
  Round clock cmd s none = clock < 500
  Round clock cmd s (some (breaks (c, s'))) = IsRunning s' × IsAnswered cmd s s' × IsServed s'
  Round clock cmd s (some (returns (c, s'))) =
      IsRunning s' × IsAnswered cmd s s' × (is_open s'.conn.state ≡ true → IsServed s')
  Round clock cmd s (some (continues (c, s'))) =
      IsRunning s' × IsStep cmd s c s' × (size s'.conn.input < size s.conn.input) × IsReused c

  run_request-Round :
      (evict clock : ℕ) (cmd : Command) (s : Session p)
      → IsRunning s
      → (let (r, cmd') = parse_command (readable s.conn.input) cmd in
          r.status ≡ ParseStatus.ok
          → IsReused cmd'
          → 0 < r.consumed
          → r.consumed ≤ size s.conn.input
          → Round clock cmd s (run_request evict (pos clock) r.consumed cmd' s))
  unfolding run_request set_state
  run_request-Round evict clock cmd s h e reused low high =
      on (dispatch evict s.store cmd' (pos clock) s.conn.output) (
        dispatch_lem evict s.store cmd' clock s.conn.output h.ready_store h.valid_output (
          omega (
            arith,
            AllShort-get_or cmd'.argv 1 (reused.1),
            AllShort-get_or cmd'.argv 2 (reused.1),
          )))
    where
      cmd' : Command
      cmd' = (parse_command (readable s.conn.input) cmd).1

      consumed : ℕ
      consumed = (parse_command (readable s.conn.input) cmd).0.consumed

      input' : Buffer
      input' = consume s.conn.input consumed

      input'-IsQueue : IsQueue input' × (readable input' ≡ drop consumed (readable s.conn.input))
      input'-IsQueue = consume_lem s.conn.input consumed h.valid_input high

      asked : ℕ
      asked = if cmd'.argc == 0 then 0 else 1

      taken :
          (n : ℕ) (rest : Bytes)
          → Takes (readable input') cmd' n rest
          → Takes (readable s.conn.input) cmd (asked + n) rest
      taken n rest t =
          takes (readable s.conn.input) cmd n rest e
            (subst (λ x. Takes x cmd' n rest) (input'-IsQueue.1) t)

      on :
          (o : Option (DispatchResult × Store p × Buffer))
          → Dispatched clock (cmd'.argc == 0) s.conn.output o
          → Round clock cmd s (elim o [
            | none ↦ none
            | some (d, store, out) ↦
                let s' : Session p = record s {
                  conn = record s.conn { input = consume s.conn.input consumed; output = out };
                  store = store;
                } in
                some (elim d [
                  | close_connection ↦ returns (cmd', set_state s' closing)
                  | keep_open ↦ continues (cmd', s')
                ])
          ])
      on none x = x
      on (some (close_connection, store, out)) (ready, more) =
          let gains = dispatched-Gains (cmd'.argc == 0) s.conn.output out h.valid_output more in
          (
            record {
              ready_store = ready;
              valid_input = input'-IsQueue.0;
              valid_output = (gains.2).valid;
            },
            (
              asked + 0,
              Gains-trans asked 0 s.conn.output out out gains (Gains-none out (gains.2).valid),
              taken 0 (readable input') (leaves (readable input') cmd'),
            ),
            λ e. absurd (let x : false ≡ true = e in cc),
          )
      on (some (keep_open, store, out)) (ready, more) =
          let gains = dispatched-Gains (cmd'.argc == 0) s.conn.output out h.valid_output more in
          (
            record {
              ready_store = ready;
              valid_input = input'-IsQueue.0;
              valid_output = (gains.2).valid;
            },
            (asked, gains, taken),
            size-consume s.conn.input consumed low high,
            reused,
          )

  -- Nothing was taken.
  unanswered : (cmd : Command) (s : Session p) → IsRunning s → IsAnswered cmd s s
  unanswered cmd s h =
      (0, Gains-none s.conn.output h.valid_output, leaves (readable s.conn.input) cmd)

  pub serve_request-Round :
      (evict clock : ℕ) (cmd : Command) (s : Session p)
      → IsRunning s
      → IsReused cmd
      → Round clock cmd s (serve_request evict (pos clock) cmd s)
  unfolding serve_request
  serve_request-Round evict clock cmd s h (wide, short) = on_empty (is_empty s.conn.input) refl
    where
      parsed : ParseResult × Command
      parsed = parse_command (readable s.conn.input) cmd

      on_status :
          (st : ParseStatus)
          → parsed.0.status ≡ st
          → Outcome st (readable s.conn.input) (parsed.0) (parsed.1) × IsClean (parsed.1)
          → Short parsed
          → Round clock cmd s (elim st [
            | ParseStatus.incomplete ↦ some (returns (parsed.1, s))
            | ParseStatus.protocol_error ↦ some (
                returns (
                  parsed.1,
                  record s {
                    conn = record s.conn {
                      output = error s.conn.output parsed.0.error;
                      state = closing;
                    };
                  },
                ))
            | ParseStatus.ok ↦ run_request evict (pos clock) parsed.0.consumed (parsed.1) s
          ])
      on_status ParseStatus.incomplete e o k = (h, unanswered cmd s h, λ _. inr (cmd, e))
      on_status ParseStatus.protocol_error e o k =
          let one = error-Replies s.conn.output h.valid_output parsed.0.error (k.1) in
          (
            record {
              ready_store = h.ready_store;
              valid_input = h.valid_input;
              valid_output = (one.1).valid;
            },
            (
              1,
              Gains-one s.conn.output (error s.conn.output parsed.0.error) one,
              refuses (readable s.conn.input) cmd e,
            ),
            λ e. absurd (let x : false ≡ true = e in cc),
          )
      on_status ParseStatus.ok e ((low, high), clean) k =
          run_request-Round evict clock cmd s h e (clean.slots, k.0) low
            (omega (arith, high, length-readable s.conn.input h.valid_input))

      on_empty :
          (b : Bool)
          → is_empty s.conn.input ≡ b
          → Round clock cmd s (
              if b then some (breaks (cmd, s)) else elim parsed.0.status [
                | ParseStatus.incomplete ↦ some (returns (parsed.1, s))
                | ParseStatus.protocol_error ↦ some (
                    returns (
                      parsed.1,
                      record s {
                        conn = record s.conn {
                          output = error s.conn.output parsed.0.error;
                          state = closing;
                        };
                      },
                    ))
                | ParseStatus.ok ↦ run_request evict (pos clock) parsed.0.consumed (parsed.1) s
              ])
      on_empty true e = (h, unanswered cmd s h, inl e)
      on_empty false e =
          on_status parsed.0.status refl (parse_command-Outcome (readable s.conn.input) cmd wide)
            (parse_command-Short (readable s.conn.input) cmd short)
