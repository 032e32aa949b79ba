-- ===== src/Tests/Tables.antt =====
-- Runs of src/core/table.cpp and src/core/hash.cpp, and the theorems of the table at concrete inputs.
use tiny_redis.Base.Bytes.{Bytes, codes, equal}
use tiny_redis.Base.{
  ℕ, Option, ◌+◌, ◌≤◌, ◌<◌, true, false, none, some, [], ◌∷◌, ◌≡◌, ◌↔◌, ◌⊎◌, refl, arith, length,
  if◌then◌else◌,
}
use tiny_redis.Bits.{has_single_bit, next_pow2, bit_ceil, bit_ceil_from}
use tiny_redis.Entry.{Entry, inline_buf, key, value, no_expiry, spills, u32}
use tiny_redis.Hash.{sip_hash13, hash_bytes}
use tiny_redis.Table.Cell.Content.{IsSound, new_entry_lem, assign_entry_lem}
use tiny_redis.Table.Cell.{hash32, new_entry, assign_entry}
use tiny_redis.Table.Clear.{clear_lem}
use tiny_redis.Table.Insert.{link-IsValid, link_new_lem, insert_lem}
use tiny_redis.Table.Invariant.{IsValid, new-IsValid}
use tiny_redis.Table.Lookup.{find_iff}
use tiny_redis.Table.Pool.{pool_capacity}
use tiny_redis.Table.Rehash.{rehash_lem}
use tiny_redis.Table.Remove.{remove_lem}
use tiny_redis.Table.Update.{assign_lem}
use tiny_redis.Table.View.{look, view}
use tiny_redis.Table.{
  Table, bucket_count, size, slot, new, find_in, find, link_new, insert, assign, remove, rehash,
  clear,
}
use tiny_redis.Tests.Slots.{slots, allocate, take_free}

-- Test vectors of tests/test_hash.cpp: the first `n` bytes of 0, 1, 2, … with both keys 0.
hash_1 : sip_hash13 (0 ∷ []) 0 0 ≡ 0x68A914128E01E473
unfolding sip_hash13
hash_1 = refl

hash_8 : sip_hash13 (0 ∷ 1 ∷ 2 ∷ 3 ∷ 4 ∷ 5 ∷ 6 ∷ 7 ∷ []) 0 0 ≡ 0xEAD411E67EBE2EEA
unfolding sip_hash13
hash_8 = refl

hash_9 : sip_hash13 (0 ∷ 1 ∷ 2 ∷ 3 ∷ 4 ∷ 5 ∷ 6 ∷ 7 ∷ 8 ∷ []) 0 0 ≡ 0x75927F9D95124362
unfolding sip_hash13
hash_9 = refl

abbrev blank : Entry
blank = record {
  expires_at_ms = no_expiry;
  hash = 0;
  lru_clock = 0;
  key_len = 0;
  val_len = 0;
  buf = inline_buf [];
}

abbrev no_entries : Table slots
no_entries = new 4 0 (λ a. blank)

no_entries-IsValid : IsValid no_entries
no_entries-IsValid = new-IsValid 4 0 (λ a. blank)

absent : find no_entries (codes "k") ≡ none
unfolding new find find_in next_pow2 bit_ceil bit_ceil_from slot hash32 hash_bytes
absent = refl

-- The table with one entry, in block 0.
abbrev pub one_entry : Table slots
one_entry = link_new no_entries (codes "k") (codes "v") 0 (true ∷ [])

taken : slots.try_allocate no_entries.pool ≡ some (0, true ∷ [])
unfolding new allocate take_free
taken = refl

small : length (codes "k") + length (codes "v") < u32
small = omega arith

pub one_entry-IsValid : IsValid one_entry
one_entry-IsValid =
    link-IsValid no_entries no_entries-IsValid (codes "k") (codes "v") small 0 (true ∷ []) taken
      absent

is_live : slots.live one_entry.pool 0 ≡ true
is_live =
    (link_new_lem no_entries no_entries-IsValid (codes "k") (codes "v") small 0 (true ∷ []) taken).0

find_runs : find one_entry (codes "k") ≡ some 0
unfolding new find link_new new_entry find_in next_pow2 bit_ceil bit_ceil_from slot hash32
    hash_bytes equal key spills
find_runs = refl

find_iff_example :
    (find one_entry (codes "k") ≡ some 0)
    ↔ ((slots.live one_entry.pool 0 ≡ true) × (key (one_entry.cells 0) ≡ codes "k"))
find_iff_example = find_iff one_entry one_entry-IsValid (codes "k") 0

eight : has_single_bit 8 ≡ true
unfolding has_single_bit
eight = refl

fewer : bucket_count one_entry ≤ 8
unfolding new link_new next_pow2 bit_ceil bit_ceil_from slot new_entry hash32 hash_bytes
fewer = omega arith

rehash_lem_example :
    (t' : Table slots) × (rehash one_entry 8 ≡ some t')
    × IsValid t'
    × (bucket_count t' ≡ 8)
    × (t'.cells ≡ one_entry.cells)
    × (t'.pool ≡ one_entry.pool)
    × (size t' ≡ size one_entry)
rehash_lem_example = rehash_lem one_entry one_entry-IsValid 8 eight fewer

insert_lem_example :
    ((insert no_entries (codes "k") (codes "v") ≡ some (none, no_entries))
      × (pool_capacity ≤ size no_entries))
    ⊎ ((a : ℕ) × (t' : Table slots) × (insert no_entries (codes "k") (codes "v")
          ≡ some (some a, t'))
        × IsValid t'
        × (size t' ≡ size no_entries + 1)
        × (find t' (codes "k") ≡ some a)
        × ((j : Bytes)
            → view t' j ≡ (if equal j (codes "k") then some (codes "v") else view no_entries j))
        × (t'.cells a ≡ new_entry no_entries.hash_seed (codes "k") (codes "v"))
        × ((f : Entry → Option Bytes) (j : Bytes)
            → equal j (codes "k") ≡ false
            → look f t' j ≡ look f no_entries j))
insert_lem_example = insert_lem no_entries (codes "k") (codes "v") no_entries-IsValid small absent

fits : (one_entry.cells 0).key_len + length (codes "w") < u32
unfolding new link_new new_entry
fits = omega arith

assign_lem_example :
    IsValid (assign one_entry 0 (codes "w"))
    × (size (assign one_entry 0 (codes "w")) ≡ size one_entry)
    × ((j : Bytes)
        → view (assign one_entry 0 (codes "w")) j
          ≡ (if equal j (key (one_entry.cells 0)) then some (codes "w") else view one_entry j))
assign_lem_example = assign_lem one_entry 0 (codes "w") one_entry-IsValid is_live fits

remove_lem_example :
    (t' : Table slots) × (remove one_entry 0 ≡ some t')
    × IsValid t'
    × (size t' + 1 ≡ size one_entry)
    × ((f : Entry → Option Bytes) (j : Bytes)
        → look f t' j ≡ (if equal j (key (one_entry.cells 0)) then none else look f one_entry j))
remove_lem_example = remove_lem one_entry 0 one_entry-IsValid is_live

clear_lem_example :
    IsValid (clear one_entry)
    × (size (clear one_entry) ≡ 0)
    × (bucket_count (clear one_entry) ≡ bucket_count one_entry)
    × ((j : Bytes) → view (clear one_entry) j ≡ none)
clear_lem_example = clear_lem one_entry one_entry-IsValid

new_entry_lem_example :
    IsSound (new_entry 0 (codes "k") (codes "v"))
    × (key (new_entry 0 (codes "k") (codes "v")) ≡ codes "k")
    × (value (new_entry 0 (codes "k") (codes "v")) ≡ codes "v")
new_entry_lem_example = new_entry_lem 0 (codes "k") (codes "v") small

-- The value no longer fits in the entry and moves to the heap.
abbrev long : Bytes
long = codes "a value of more than thirty-two bytes"

long_fits : (new_entry 0 (codes "k") (codes "v")).key_len + length long < u32
unfolding new_entry
long_fits = omega arith

assign_entry_lem_example :
    IsSound (assign_entry (new_entry 0 (codes "k") (codes "v")) long)
    × (key (assign_entry (new_entry 0 (codes "k") (codes "v")) long)
        ≡ key (new_entry 0 (codes "k") (codes "v")))
    × (value (assign_entry (new_entry 0 (codes "k") (codes "v")) long) ≡ long)
assign_entry_lem_example =
    assign_entry_lem (new_entry 0 (codes "k") (codes "v")) long
      ((new_entry_lem 0 (codes "k") (codes "v") small).0) long_fits
