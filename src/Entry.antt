-- ===== src/Entry.antt =====
-- src/core/entry.h, src/core/entry.cpp and the sentinel of src/core/clock.h: one stored pair.
-- The union of the inline array and the heap pointer is a data type with a constructor for each
-- member; reading the member that is not there shows nothing. Milliseconds are integers.
use tiny_redis.Base.Bytes.{Bytes}
use tiny_redis.Base.Int.{ℤ, pos, negsuc, ltb_ℤ}
use tiny_redis.Base.{ℕ, ◌+◌, ◌%◌, ◌^◌, Bool, false, [], take, drop, ltb, ◌==◌, if◌then◌else◌}

-- `==` of two `std::int64_t`.
abbrev pub eqb_ℤ : ℤ → ℤ → Bool
eqb_ℤ (pos a) (pos b) = a == b
eqb_ℤ (negsuc a) (negsuc b) = a == b
eqb_ℤ _ _ = false

-- `kNoExpiry`
abbrev pub no_expiry : ℤ
no_expiry = negsuc 0

abbrev pub inline_cap : ℕ
inline_cap = 32

-- The range of `std::uint32_t`.
abbrev pub u32 : ℕ
u32 = 2 ^ 32

-- `inlineBuf`, or the array that `bufPtr` points to.
pub data Storage : Type 0 where
  inline_buf : Bytes → Storage
  heap_buf : Bytes → Storage

abbrev pub inline_bytes : Storage → Bytes
inline_bytes (inline_buf b) = b
inline_bytes (heap_buf b) = []

abbrev pub heap_bytes : Storage → Bytes
heap_bytes (inline_buf b) = []
heap_bytes (heap_buf b) = b

-- `next` is the order of the chain that the entry stands in (Table).
pub record Entry : Type 0 where
  pub expires_at_ms : ℤ
  pub hash : ℕ
  pub lru_clock : ℕ
  pub key_len : ℕ
  pub val_len : ℕ
  pub buf : Storage

unfoldable pub spills : ℕ → ℕ → Bool
spills key_len val_len = ltb inline_cap ((key_len + val_len) % u32)

abbrev pub spilled : Entry → Bool
spilled e = spills e.key_len e.val_len

-- The array that holds the key and the value.
abbrev pub array : Entry → Bytes
array e = if spilled e then heap_bytes e.buf else inline_bytes e.buf

unfoldable pub get_buf_data : Entry → ℕ → ℕ → Bytes
get_buf_data e start size = take size (drop start (array e))

unfoldable pub key : Entry → Bytes
unfolding get_buf_data
key e = get_buf_data e 0 e.key_len

unfoldable pub value : Entry → Bytes
unfolding get_buf_data
value e = get_buf_data e e.key_len e.val_len

unfoldable pub expired : Entry → ℤ → Bool
expired e now = if eqb_ℤ e.expires_at_ms no_expiry then false else ltb_ℤ e.expires_at_ms now
