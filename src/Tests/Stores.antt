-- ===== src/Tests/Stores.antt =====
-- Runs of src/core/store.cpp and src/core/command.cpp, and their theorems at concrete inputs.
use tiny_redis.Base.Bytes.{Bytes, codes, equal}
use tiny_redis.Base.Int.{ℤ, pos, negsuc}
use tiny_redis.Base.{
  ℕ, Bool, arith, false, true, Option, none, some, [], ◌∷◌, ◌≡◌, ◌↔◌, refl, replicate,
  if◌then◌else◌,
}
use tiny_redis.Buffer.{new as new_buffer}
use tiny_redis.Dispatch.Deletes.{without_all, count_removed, cmd_del_lem}
use tiny_redis.Dispatch.Reads.{count_seen, cmd_exists_lem, bulk_or_null, cmd_get_lem}
use tiny_redis.Dispatch.Words.{arg, args_from, parse_int, iequals}
use tiny_redis.Dispatch.{cmd_get, cmd_del, cmd_exists, dispatch}
use tiny_redis.Resp.Reply.{integer}
use tiny_redis.Resp.{Command}
use tiny_redis.Buffer.Queue.{new-IsValid}
use tiny_redis.Dispatch.Whole.{Dispatched, dispatch_lem}
use tiny_redis.Entry.{no_expiry}
use tiny_redis.Store.Cap.{IsReady}
use tiny_redis.Table.Cell.{new_entry}
use tiny_redis.Table.{new, link_new}
use tiny_redis.Store.Timely.{IsTimely}
use tiny_redis.Store.Deadline.{ExpireResult, set_expire_at_lem}
use tiny_redis.Store.Set.Outcome.{SetAnswer, set_lem}
use tiny_redis.Store.Set.{set as set_key}
use tiny_redis.Store.Find.{find_lem}
use tiny_redis.Store.Lookup.{visible, is_some, IsFound, erase_lem}
use tiny_redis.Store.{Store, no_eviction, find, erase, ttl_ms}
use tiny_redis.Store.Ttl.{ttl_ms_lem}
use tiny_redis.Table.Invariant.{IsValid}
use tiny_redis.Tests.Slots.{slots}
use tiny_redis.Tests.Tables.{one_entry, one_entry-IsValid}

abbrev pub store : Store slots
store = record {
  rng_state = 1;
  max_keys = 8;
  expire_cursor = 0;
  evictions = 0;
  expired_keys = 0;
  lru_samples = 5;
  table = one_entry;
  policy = no_eviction;
}

parse_int_runs : parse_int (codes "-42") ≡ some (negsuc 41)
unfolding parse_int
parse_int_runs = refl

iequals_runs : iequals (codes "KeepTTL") (codes "keepttl") ≡ true
unfolding iequals
iequals_runs = refl

find_lem_example :
    (r : Option ℕ) × (s' : Store slots) × (find store (codes "k") (pos 7) true ≡ some (r, s'))
    × IsValid s'.table
    × ((j : Bytes) → visible s' (pos 7) j ≡ visible store (pos 7) j)
    × IsFound s' (codes "k") (pos 7) r
find_lem_example = find_lem store (codes "k") (pos 7) true one_entry-IsValid

erase_lem_example :
    (s' : Store slots) × (erase store (codes "k") (pos 7)
      ≡ some (is_some (visible store (pos 7) (codes "k")), s'))
    × IsValid s'.table
    × ((j : Bytes)
        → visible s' (pos 7) j ≡ (if equal j (codes "k") then none else visible store (pos 7) j))
erase_lem_example = erase_lem store (codes "k") (pos 7) one_entry-IsValid

abbrev get_k : Command
get_k = record { argv = codes "GET" ∷ codes "k" ∷ replicate 14 []; argc = 2 }

cmd_get_lem_example :
    (s' : Store slots) × (cmd_get store get_k (pos 7) (new_buffer 8)
      ≡ some (s', bulk_or_null (new_buffer 8) (visible store (pos 7) (arg get_k 1))))
    × IsValid s'.table
    × ((j : Bytes) → visible s' (pos 7) j ≡ visible store (pos 7) j)
cmd_get_lem_example = cmd_get_lem store get_k (pos 7) (new_buffer 8) one_entry-IsValid

-- The same key twice.
abbrev del_k : Command
del_k = record { argv = codes "DEL" ∷ codes "k" ∷ codes "k" ∷ replicate 13 []; argc = 3 }

cmd_del_lem_example :
    (s' : Store slots) × (cmd_del store del_k (pos 7) (new_buffer 8)
      ≡ some (
        s',
        integer (new_buffer 8) (pos (count_removed (args_from del_k 1) (visible store (pos 7)))),
      ))
    × IsValid s'.table
    × (visible s' (pos 7) ≡ without_all (args_from del_k 1) (visible store (pos 7)))
cmd_del_lem_example = cmd_del_lem store del_k (pos 7) (new_buffer 8) one_entry-IsValid

cmd_exists_lem_example :
    (s' : Store slots) × (cmd_exists store del_k (pos 7) (new_buffer 8)
      ≡ some (
        s',
        integer (new_buffer 8) (pos (count_seen (args_from del_k 1) (visible store (pos 7)))),
      ))
    × IsValid s'.table
    × (visible s' (pos 7) ≡ visible store (pos 7))
cmd_exists_lem_example = cmd_exists_lem store del_k (pos 7) (new_buffer 8) one_entry-IsValid

ttl_ms_lem_example :
    (ms : ℤ) × (s' : Store slots) × (ttl_ms store (codes "k") (pos 7) ≡ some (ms, s'))
    × IsValid s'.table
    × ((j : Bytes) → visible s' (pos 7) j ≡ visible store (pos 7) j)
    × ((ms ≡ negsuc 1) ↔ (visible store (pos 7) (codes "k") ≡ none))
ttl_ms_lem_example = ttl_ms_lem store (codes "k") (pos 7) one_entry-IsValid

in_time : IsTimely store.table.cells
unfolding new link_new new_entry
in_time a = ground arith

pub store-IsReady : IsReady store
store-IsReady = record {
  valid = one_entry-IsValid;
  no_evict = refl;
  fits = omega arith;
  timely = in_time;
}

-- A second key below the cap.
set_lem_example :
    (ok : Bool) × (s' : Store slots) × (set_key 0 store (codes "l") (codes "v") no_expiry (pos 7)
      ≡ some (ok, s'))
    × SetAnswer store s' (codes "l") (codes "v") no_expiry (pos 7) ok
set_lem_example =
    set_lem 0 store (codes "l") (codes "v") no_expiry (pos 7) one_entry-IsValid (omega arith) refl
      (omega arith)

set_expire_at_lem_example : ExpireResult store (codes "k") (pos 9) (pos 7)
set_expire_at_lem_example =
    set_expire_at_lem store (codes "k") (pos 9) (pos 7) one_entry-IsValid refl

dispatch_lem_example :
    Dispatched 700 false (new_buffer 8) (dispatch 0 store get_k (pos 700) (new_buffer 8))
dispatch_lem_example =
    dispatch_lem 0 store get_k 700 (new_buffer 8) store-IsReady (new-IsValid 8) (omega arith)
