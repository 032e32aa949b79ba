-- ===== src/Tests/Queues.antt =====
-- Runs of src/core/buffer.cpp and of the encoders, and their theorems at concrete inputs.
use tiny_redis.Base.Bytes.{codes}
use tiny_redis.Base.Int.{pos, negsuc}
use tiny_redis.Base.{◌≤◌, ◌≡◌, ◌↔◌, refl, true, ◌++◌, [], ◌∷◌, drop, length, arith}
use tiny_redis.Buffer.Queue.{
  IsValid, ensure_writable_lem, fill_lem, append_lem, consume_lem, is_empty_iff,
}
use tiny_redis.Buffer.{
  Buffer, new, readable, writable_bytes, is_empty, ensure_writable, commit, write_tail, append,
  append_byte, consume,
}
use tiny_redis.Resp.Reply.Wire.{Appends, replies-Appends}
use tiny_redis.Resp.Reply.{
  crlf, decimal, decimal_from, signed_decimal, simple_string, error, integer, bulk, null_bulk,
  array_header, append_line,
}

-- Four bytes of which one has been read.
abbrev half_read : Buffer
half_read = record { buf = codes "abcd"; read_idx = 1; write_idx = 4 }

half_read-IsValid : IsValid half_read
half_read-IsValid = record { ordered = omega arith; inside = omega arith }

-- The append compacts before it grows.
append_runs :
    append half_read (codes "ef")
    ≡ record { buf = codes "bcdef" ++ 0 ∷ 0 ∷ 0 ∷ []; read_idx = 0; write_idx = 5 }
unfolding append
append_runs = refl

integer_runs : readable (integer half_read (negsuc 41)) ≡ codes "bcd:-42\r\n"
unfolding integer append_line append append_byte signed_decimal decimal decimal_from readable
integer_runs = refl

ensure_writable_lem_example :
    IsValid (ensure_writable half_read 9)
    × (readable (ensure_writable half_read 9) ≡ readable half_read)
    × (9 ≤ writable_bytes (ensure_writable half_read 9))
ensure_writable_lem_example = ensure_writable_lem half_read 9 half_read-IsValid

fill_lem_example :
    IsValid (commit (write_tail (new 8) (codes "ef")) (length (codes "ef")))
    × (readable (commit (write_tail (new 8) (codes "ef")) (length (codes "ef")))
        ≡ readable (new 8) ++ codes "ef")
fill_lem_example = fill_lem (new 8) (codes "ef") (omega arith) (omega arith)

append_lem_example :
    IsValid (append half_read (codes "ef"))
    × (readable (append half_read (codes "ef")) ≡ readable half_read ++ codes "ef")
append_lem_example = append_lem half_read (codes "ef") half_read-IsValid

consume_lem_example :
    IsValid (consume half_read 2) × (readable (consume half_read 2) ≡ drop 2 (readable half_read))
consume_lem_example = consume_lem half_read 2 half_read-IsValid (omega arith)

is_empty_iff_example : (is_empty half_read ≡ true) ↔ (readable half_read ≡ [])
is_empty_iff_example = is_empty_iff half_read half_read-IsValid

replies-Appends_example :
    Appends half_read (simple_string half_read (codes "OK")) (b'+' ∷ (codes "OK" ++ crlf))
    × Appends half_read (error half_read (codes "OK")) (b'-' ∷ (codes "OK" ++ crlf))
    × Appends half_read (integer half_read (pos 7)) (b':' ∷ (signed_decimal (pos 7) ++ crlf))
    × Appends half_read
        (bulk half_read (codes "a\r\n"))
        (b'$' ∷ (decimal (length (codes "a\r\n")) ++ crlf) ++ (codes "a\r\n" ++ crlf))
    × Appends half_read (null_bulk half_read) (codes "$-1\r\n")
    × Appends half_read (array_header half_read 3) (b'*' ∷ (decimal 3 ++ crlf))
replies-Appends_example =
    replies-Appends half_read (codes "OK") (codes "a\r\n") (pos 7) 3 half_read-IsValid refl
