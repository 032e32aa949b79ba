-- ===== src/Table/Cell.antt =====
-- src/core/table.cpp: what `insert` and `assign` do to one entry, its array included.
pub mod Content
use tiny_redis.Base.Bytes.{Bytes}
use tiny_redis.Base.{
  ℕ, ◌+◌, ◌%◌, Bool, true, false, ◌&&◌, ◌||◌, not, length, replicate, take, ltb, if◌then◌else◌,
}
use tiny_redis.Buffer.{copy_at}
use tiny_redis.Entry.{
  Entry, Storage, inline_buf, heap_buf, inline_bytes, heap_bytes, no_expiry, inline_cap, u32,
  spills, spilled, key,
}
use tiny_redis.Hash.{hash_bytes}

-- The low 32 bits of a key's hash.
unfoldable pub hash32 : ℕ → Bytes → ℕ
hash32 seed k = hash_bytes k seed % u32

-- The array of a fresh entry after the two copies, `key_len` and `val_len` bytes; bytes that nobody
-- wrote are shown as 0.
unfoldable pub fill : Bool → ℕ → ℕ → Bytes → Bytes → Storage
fill spill key_len val_len k v =
    let room = if spill then (key_len + val_len) % u32 else inline_cap in
    let bytes = copy_at (copy_at (replicate room 0) 0 (take key_len k)) key_len (take val_len v) in
    if spill then heap_buf bytes else inline_buf bytes

unfoldable pub new_entry : ℕ → Bytes → Bytes → Entry
unfolding fill
new_entry seed k v =
    let key_len = length k % u32 in
    let val_len = length v % u32 in
    record {
      expires_at_ms = no_expiry;
      hash = hash32 seed k;
      lru_clock = 0;
      key_len = key_len;
      val_len = val_len;
      buf = fill (spills key_len val_len) key_len val_len k v;
    }

-- The array that `assign` writes the value to, its first `key_len` bytes already the key: a new heap
-- array, the inline array again, or the array that is there.
unfoldable pub moved_array : Entry → ℕ → Bool → Bool → Bytes
moved_array e val_len was will =
    if will && (not was || ltb e.val_len val_len)
    then copy_at (replicate ((e.key_len + val_len) % u32) 0) 0 (key e)
    else if not will && was
    then copy_at (replicate inline_cap 0) 0 (take e.key_len (heap_bytes e.buf))
    else if will
    then heap_bytes e.buf
    else inline_bytes e.buf

unfoldable pub assign_entry : Entry → Bytes → Entry
unfolding moved_array
assign_entry e v =
    let val_len = length v % u32 in
    let will = spills e.key_len val_len in
    let filled = copy_at (moved_array e val_len (spilled e) will) e.key_len (take val_len v) in
    record e { val_len = val_len; buf = if will then heap_buf filled else inline_buf filled }
