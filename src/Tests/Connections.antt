-- ===== src/Tests/Connections.antt =====
-- Runs of src/net, and its theorems at concrete inputs.
use tiny_redis.Base.Bytes.{codes, equal}
use tiny_redis.Base.Int.{pos, ◌-ℤ◌}
use tiny_redis.Base.{true, Option, none, some, [], ◌∷◌, ◌++◌, ◌≡◌, refl}
use tiny_redis.Main.{default_config, parse_args}
use tiny_redis.Buffer.{new as new_buffer}
use tiny_redis.Net.Connection.{opened}
use tiny_redis.Net.Connection.Lifecycle.{
  Event, readable, handle, here, next, start, connection_lifecycle,
}
use tiny_redis.Net.Connection.Settled.{Ensures, IsSettled}
use tiny_redis.Net.Connection.{Session, on_readable, new as new_connection}
use tiny_redis.Buffer.{
  ensure_writable, append, append_byte, commit, write_tail, consume, is_empty,
  readable as readable_bytes,
}
use tiny_redis.Dispatch.{dispatch, run_command, cmd_ping}
use tiny_redis.Dispatch.Words.{find_spec, iequals, arity_ok}
use tiny_redis.Resp.Outcome.{accept}
use tiny_redis.Resp.Reader.{read_line, line_verdict, line_end}
use tiny_redis.Resp.{publish}
use tiny_redis.Resp.Parser.{
  parse_command, parse_inline, inline_args, skip_blanks, after_word, first_word,
}
use tiny_redis.Resp.Reply.{simple_string, append_line}
use tiny_redis.Net.EventLoop.{deliver_all}
use tiny_redis.Net.Kernel.{
  write_failed, pending, room_for, ctl_done, read_failed, epollin, fd_given, fd_failed,
}
use tiny_redis.Net.Server.Accept.{AcceptRound, accept_pending}
use tiny_redis.Net.Server.History.{
  Reach as ServerReach, start as server_start, delivered, server-IsOrderly,
}
use tiny_redis.Net.Server.Invariant.{IsOrderly}
use tiny_redis.Net.Server.Pointers.{IsReached, deliver_batch, deliver_batch-IsReached}
use tiny_redis.Net.Server.Run.{IoEvent, acceptor, client, deliver}
use tiny_redis.Net.Server.{Server, new as new_server}
use tiny_redis.Tests.Slots.{slots}
use tiny_redis.Tests.Stores.{store}

parse_args_runs :
    parse_args (λ v. 65537) (codes "--port" ∷ codes "65537" ∷ []) default_config
    ≡ some (record default_config { port = 1 })
unfolding parse_args equal
parse_args_runs = refl

-- PING comes, and the kernel takes three bytes of the reply.
abbrev ping : Event
ping =
    readable 0 (pos 7) (pending (codes "PING" ++ (13 ∷ 10 ∷ [])))
      (room_for 3 ∷ write_failed 11 ∷ []) ctl_done

abbrev result : Option (Session slots) → Session slots
result none = start 5 store
result (some s) = s

ping_runs : handle ping (start 5 store) ≡ some (result (handle ping (start 5 store)))
unfolding on_readable new_connection ensure_writable commit write_tail readable_bytes parse_command
    dispatch run_command find_spec iequals arity_ok cmd_ping simple_string consume is_empty
    parse_inline accept read_line line_verdict line_end inline_args skip_blanks after_word publish
    first_word append_line append append_byte ◌-ℤ◌
ping_runs = refl

connection_lifecycle_example : IsSettled 5 (result (handle ping (start 5 store)))
connection_lifecycle_example =
    connection_lifecycle 5 store (result (handle ping (start 5 store))) (next here ping ping_runs)

-- Two requests wait, the second one not complete.
abbrev waiting : Session slots
waiting = record {
  conn = record {
    fd = 5;
    input = record { buf = codes "PING\r\nGET k"; read_idx = 0; write_idx = 11 };
    output = new_buffer 8;
    state = opened;
    interest = epollin;
  };
  store = store;
  registered = epollin;
  retired = 0;
}

-- A connection is accepted, and then none waits.
abbrev taken : AcceptRound
taken = record {
  accept = fd_given 7;
  shed_accept = fd_failed 24;
  reserve = fd_failed 24;
  nodelay = true;
  ctl = ctl_done;
  del = λ d. ctl_done;
}

abbrev accept_event : IoEvent
accept_event = record {
  handler = acceptor;
  events = epollin;
  answers = record {
    rounds = taken ∷ record taken { accept = fd_failed 11 } ∷ [];
    evict = 0;
    clock = pos 7;
    read = read_failed 11;
    writes = [];
    ctl = ctl_done;
    later_writes = [];
    later_ctl = ctl_done;
  };
}

abbrev idle_server : Server slots
idle_server = new_server default_config store (fd_given 9)

abbrev result_of : Option (Server slots) → Server slots
result_of none = idle_server
result_of (some s) = s

abbrev busy_server : Server slots
busy_server = result_of (deliver accept_event idle_server)

deliver_runs : deliver accept_event idle_server ≡ some busy_server
unfolding deliver accept_pending new_server
deliver_runs = refl

abbrev busy_Reach : ServerReach busy_server
busy_Reach = delivered (server_start default_config store (fd_given 9)) accept_event deliver_runs

server-IsOrderly_example : IsOrderly busy_server
server-IsOrderly_example = server-IsOrderly busy_server busy_Reach tt

-- The connection's peer hangs up, and a later event of the batch is for it again.
abbrev hang_up : IoEvent
hang_up = record accept_event {
  handler = client 7;
  answers = record accept_event.answers { read = pending [] };
}

-- The first event retires the connection, the second one finds it, and neither fails.
hang_up_runs :
    deliver_batch (hang_up ∷ hang_up ∷ []) busy_server
    ≡ some (result_of (deliver_batch (hang_up ∷ hang_up ∷ []) busy_server))
unfolding deliver accept_pending new_server deliver_all on_readable ensure_writable new_connection
hang_up_runs = refl

deliver_batch-IsReached_example :
    Ensures (IsReached 7) (deliver_batch (hang_up ∷ hang_up ∷ []) busy_server)
unfolding deliver accept_pending new_server
deliver_batch-IsReached_example =
    deliver_batch-IsReached (hang_up ∷ hang_up ∷ []) busy_server 0
      (record { conn = new_connection 7; registered = epollin }) busy_Reach tt refl

-- Out of descriptors: EMFILE, and the reserve is spent.
abbrev out_of_fds : AcceptRound
out_of_fds = record taken { accept = fd_failed 24; shed_accept = fd_given 9; reserve = fd_given 9 }
