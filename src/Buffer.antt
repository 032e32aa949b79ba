-- ===== src/Buffer.antt =====
-- src/core/buffer.h and src/core/buffer.cpp: the growable byte buffer with a read and a write
-- cursor. `buf_` is the list of its bytes; a view handed out is the list of the bytes it shows.
-- Sizes are numbers: what memory can hold is far below the range of `size_t`.
pub mod Copy
pub mod Queue
use tiny_redis.Base.Bytes.{Bytes}
use tiny_redis.Base.{
  ℕ, ◌+◌, ◌-◌, ◌*◌, max, Bool, List, [], ◌∷◌, ◌++◌, length, take, drop, replicate, leb, ◌==◌,
  if◌then◌else◌,
}

pub record Buffer : Type 0 where
  pub buf : Bytes
  pub read_idx : ℕ
  pub write_idx : ℕ

abbrev pub default_capacity : ℕ
default_capacity = 16 * 1024

-- `std::vector::resize`, which fills up with zero bytes.
abbrev pub resize : Bytes → ℕ → Bytes
resize xs n = take n xs ++ replicate (n - length xs) 0

-- `std::memcpy` and `std::memmove` to offset `at`; the bytes past the range stay.
abbrev pub copy_at : Bytes → ℕ → Bytes → Bytes
copy_at xs at bytes = take at xs ++ (bytes ++ drop (at + length bytes) xs)

-- The constructor.
abbrev pub new : ℕ → Buffer
new initial_capacity = record { buf = resize [] initial_capacity; read_idx = 0; write_idx = 0 }

abbrev pub size : Buffer → ℕ
size b = b.write_idx - b.read_idx

unfoldable pub readable : Buffer → Bytes
readable b = take (size b) (drop b.read_idx b.buf)

unfoldable pub is_empty : Buffer → Bool
is_empty b = b.read_idx == b.write_idx

abbrev pub capacity : Buffer → ℕ
capacity b = length b.buf

abbrev pub writable_bytes : Buffer → ℕ
writable_bytes b = length b.buf - b.write_idx

unfoldable pub compact : Buffer → Buffer
compact b =
    let cur_size = size b in
    record {
      buf = copy_at b.buf 0 (take cur_size (drop b.read_idx b.buf));
      read_idx = 0;
      write_idx = cur_size;
    }

unfoldable pub ensure_writable : Buffer → ℕ → Buffer
unfolding compact
ensure_writable b n =
    if leb n (writable_bytes b)
    then b
    else (let c = compact b in
        if leb n (writable_bytes c)
        then c
        else record c { buf = resize c.buf (max (2 * capacity c) (size c + n)) })

unfoldable pub commit : Buffer → ℕ → Buffer
commit b n = record b { write_idx = b.write_idx + n }

-- What a caller does with `writePtr()`: bytes land behind the write cursor, unpublished.
unfoldable pub write_tail : Buffer → Bytes → Buffer
write_tail b bytes = record b { buf = copy_at b.buf b.write_idx bytes }

unfoldable pub consume : Buffer → ℕ → Buffer
consume b n =
    let c = record b { read_idx = b.read_idx + n } in
    if c.read_idx == c.write_idx then record c { read_idx = 0; write_idx = 0 } else c

unfoldable pub append : Buffer → Bytes → Buffer
unfolding ensure_writable commit write_tail
append b [] = b
append b (x ∷ xs) = let n = length (x ∷ xs) in commit (write_tail (ensure_writable b n) (x ∷ xs)) n

unfoldable pub append_byte : Buffer → ℕ → Buffer
unfolding ensure_writable commit write_tail
append_byte b c = commit (write_tail (ensure_writable b 1) (c ∷ [])) 1

unfoldable pub clear : Buffer → Buffer
clear b = record b { read_idx = 0; write_idx = 0 }
