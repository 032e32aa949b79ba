-- ===== src/Net/Connection/Lifecycle.antt =====
-- The life of a connection, between the events that the kernel reports.
use mathlib.Core.Path.{subst}
use tiny_redis.Base.Int.{ℤ}
use tiny_redis.Base.{
  ℕ, zero, suc, ◌+◌, true, false, Option, none, some, List, [], ◌∷◌, ◌≡◌, refl, sym, ◌∙◌, arith,
  take, inl, inr, Bool-cases,
}
use tiny_redis.Buffer.{size, is_empty, writable_bytes}
use tiny_redis.Net.Connection.{
  Session, is_closed, new, wanted, Flow, continues, breaks, returns, serve_request, mark_closed,
  flush_output, process_loop, process_input, no_command, receive, make_room, after_read,
  on_readable, on_writable,
}
use tiny_redis.Net.Connection.Settled.{
  Ensures, IsSettled, IsActive, mark_closed-IsSettled, flush_output-IsSettled,
}
use tiny_redis.Net.Kernel.{epollin, ReadAnswer, pending, read_failed, WriteAnswer, CtlAnswer}
use tiny_redis.Resp.{Command}
use tiny_redis.Store.{Store}
use tiny_redis.Table.Pool.{EntryPool}

-- What the kernel can report of a socket, with its answers to the calls of the handler.
pub data Event : Type 0 where
  readable : ℕ → ℤ → ReadAnswer → List WriteAnswer → CtlAnswer → Event
  writable : List WriteAnswer → CtlAnswer → Event

abbrev pub handle : {p : EntryPool} → Event → Session p → Option (Session p)
handle (readable evict now read ws ctl) s = on_readable evict now read ws ctl s
handle (writable ws ctl) s = on_writable ws ctl s

module _ {p : EntryPool} (fd : ℕ) where
  abbrev Served : Flow (Command × Session p) → Type 0
  Served (returns (c, s)) = IsActive fd s
  Served (breaks (c, s)) = IsActive fd s
  Served (continues (c, s)) = IsActive fd s

  serve_request-Served :
      (evict : ℕ) (now : ℤ) (cmd : Command) (s : Session p)
      → IsActive fd s
      → Ensures Served (serve_request evict now cmd s)
  unfolding serve_request
  serve_request-Served evict now cmd s a = ground arith

  process_loop-IsActive :
      (fuel evict : ℕ) (now : ℤ) (cmd : Command) (s : Session p)
      → IsActive fd s
      → Ensures (IsActive fd) (process_loop fuel evict now cmd s)
  unfolding process_loop
  process_loop-IsActive zero evict now cmd s a = tt
  process_loop-IsActive (suc fuel) evict now cmd s a =
      next (serve_request evict now cmd s) (λ c s' h. process_loop-IsActive fuel evict now c s' h)
        (serve_request-Served evict now cmd s a)
    where
      next :
          (r : Option (Flow (Command × Session p)))
          → ((c : Command) (s' : Session p)
              → IsActive fd s'
              → Ensures (IsActive fd) (process_loop fuel evict now c s'))
          → Ensures Served r
          → Ensures (IsActive fd) (elim r [
            | none ↦ none
            | some (breaks (_, s')) ↦ some s'
            | some (returns (_, s')) ↦ some s'
            | some (continues (cmd', s')) ↦ process_loop fuel evict now cmd' s'
          ])
      next none ih h = tt
      next (some (breaks (c, s'))) ih h = h
      next (some (returns (c, s'))) ih h = h
      next (some (continues (c, s'))) ih h = ih c s' h

  process_input-IsActive :
      (evict : ℕ) (now : ℤ) (s : Session p)
      → IsActive fd s
      → Ensures (IsActive fd) (process_input evict now s)
  unfolding process_input
  process_input-IsActive evict now s a =
      ground (arith, process_loop-IsActive (size s.conn.input + 1) evict now no_command s a)

  after_read-IsSettled :
      (evict : ℕ) (now : ℤ) (read : ReadAnswer) (ws : List WriteAnswer) (ctl : CtlAnswer)
      (s : Session p)
      → IsActive fd s
      → IsSettled fd s
      → Ensures (IsSettled fd) (after_read evict now read ws ctl s)
  unfolding after_read
  after_read-IsSettled evict now (read_failed e) ws ctl s a h =
      ground (arith, mark_closed-IsSettled fd s a)
  after_read-IsSettled evict now (pending bytes) ws ctl s a h =
      elim (take (writable_bytes s.conn.input) bytes)
        as (λ got. Ensures (IsSettled fd) (elim got [
          | [] ↦ some (mark_closed s)
          | b ∷ bs ↦ elim (process_input evict now (receive s (b ∷ bs))) [
            | none ↦ none
            | some s' ↦ flush_output ws ctl s'
          ]
        ])) [
          | [] ↦ mark_closed-IsSettled fd s a
          | b ∷ bs ↦ after (process_input evict now (receive s (b ∷ bs))) (
              process_input-IsActive evict now (receive s (b ∷ bs))
                (record { same = a.same; alive = a.alive; fresh = a.fresh; known = a.known }))
        ]
    where
      after :
          (r : Option (Session p))
          → Ensures (IsActive fd) r
          → Ensures (IsSettled fd) (elim r [ none ↦ none | some s' ↦ flush_output ws ctl s' ])
      after none h = tt
      after (some s') h = flush_output-IsSettled fd ws ctl s' h

  settled-IsActive :
      (s : Session p) → IsSettled fd s → is_closed s.conn.state ≡ false → IsActive fd s
  settled-IsActive s h alive = record {
    same = h.same;
    alive = alive;
    fresh = h.once ∙ (rw alive refl);
    known = (h.armed alive).1 ∙ sym ((h.armed alive).0);
  }

  make_room-IsSettled : (s : Session p) → IsSettled fd s → IsSettled fd (make_room s)
  unfolding make_room wanted
  make_room-IsSettled s h = record { same = h.same; once = h.once; armed = h.armed; busy = h.busy }

  pub on_readable-IsSettled :
      (evict : ℕ) (now : ℤ) (read : ReadAnswer) (ws : List WriteAnswer) (ctl : CtlAnswer)
      (s : Session p)
      → IsSettled fd s
      → Ensures (IsSettled fd) (on_readable evict now read ws ctl s)
  unfolding on_readable
  on_readable-IsSettled evict now read ws ctl s h = elim (Bool-cases (is_closed s.conn.state)) [
    | inl over ↦ ground (arith, h)
    | inr alive ↦
        let room = make_room-IsSettled s h in
        let a = settled-IsActive (make_room s) room (unfold make_room in alive) in
        ground (arith, after_read-IsSettled evict now read ws ctl (make_room s) a room)
  ]

  pub on_writable-IsSettled :
      (ws : List WriteAnswer) (ctl : CtlAnswer) (s : Session p)
      → IsSettled fd s
      → Ensures (IsSettled fd) (on_writable ws ctl s)
  unfolding on_writable
  on_writable-IsSettled ws ctl s h = elim (Bool-cases (is_closed s.conn.state)) [
    | inl over ↦ ground (arith, h)
    | inr alive ↦ ground (arith, flush_output-IsSettled fd ws ctl s (settled-IsActive s h alive))
  ]

  pub handle-IsSettled :
      (e : Event) (s s' : Session p) → handle e s ≡ some s' → IsSettled fd s → IsSettled fd s'
  handle-IsSettled (readable evict now read ws ctl) s s' run h =
      subst (Ensures (IsSettled fd)) run (on_readable-IsSettled evict now read ws ctl s h)
  handle-IsSettled (writable ws ctl) s s' run h =
      subst (Ensures (IsSettled fd)) run (on_writable-IsSettled ws ctl s h)

module _ {p : EntryPool} where
  -- The sessions that come about from `s`, event by event.
  pub data Reach (s : Session p) : Session p → Type 0 where
    here : Reach s s
    next : {t u : Session p} → Reach s t → (e : Event) → handle e t ≡ some u → Reach s u

  -- A connection that the server has just accepted.
  abbrev pub start : ℕ → Store p → Session p
  start fd store = record { conn = new fd; store = store; registered = epollin; retired = 0 }

  start-IsSettled : (fd : ℕ) (store : Store p) → IsSettled fd (start fd store)
  unfolding new wanted is_empty
  start-IsSettled fd store = record {
    same = refl;
    once = refl;
    armed = λ e. (refl, refl);
    busy = λ e. let x : false ≡ true = e in cc;
  }

  Reach-IsSettled : (fd : ℕ) {s t : Session p} → IsSettled fd s → Reach s t → IsSettled fd t
  Reach-IsSettled fd h here = h
  Reach-IsSettled fd h (next {t} {u} r e run) =
      handle-IsSettled fd e t u run (Reach-IsSettled fd h r)

  -- Whatever the kernel reports and answers, after each event that is handled a connection is settled: it
  -- has the descriptor it was made with;
  -- `retire` has been called once if the connection is closed, and never otherwise; until then epoll
  -- has the mask that `updateInterest` wants, output while bytes wait and input while the connection is
  -- open; and a connection that is closing still has bytes to write.
  pub connection_lifecycle :
      (fd : ℕ) (store : Store p) (t : Session p) → Reach (start fd store) t → IsSettled fd t
  connection_lifecycle fd store t r = Reach-IsSettled fd (start-IsSettled fd store) r
