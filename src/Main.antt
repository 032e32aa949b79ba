-- ===== src/Main.antt =====
-- src/main.cpp: the command line. `strtoul` is the C library's, and an argument.
use tiny_redis.Base.Bytes.{Bytes, codes, equal}
use tiny_redis.Base.Int.{pos}
use tiny_redis.Base.{ℕ, ◌%◌, ◌^◌, Option, none, some, List, [], ◌∷◌, if◌then◌else◌}
use tiny_redis.Bits.{word}
use tiny_redis.Net.Server.{Config}
use tiny_redis.Store.{no_eviction, Config as StoreConfig}

-- The members' initialisers.
abbrev pub default_store : StoreConfig
default_store = record {
  initial_buckets = 1024;
  max_keys = 0;
  seed = 0;
  lru_samples = 5;
  policy = no_eviction;
}

abbrev pub default_config : Config
default_config = record {
  bind_addr = codes "127.0.0.1";
  port = 6380;
  backlog = 512;
  expire_interval_ms = pos 100;
  expire_sample_buckets = 20;
  store = default_store;
}

-- An option with its value; `none` is an argument that is no option.
unfoldable pub set_option : (Bytes → ℕ) → Bytes → Bytes → Config → Option Config
set_option strtoul name v cfg =
    if equal name (codes "--bind")
    then some (record cfg { bind_addr = v })
    else if equal name (codes "--port")
    then some (record cfg { port = strtoul v % 2 ^ 16 })
    else if equal name (codes "--maxkeys")
    then some (record cfg { store = record cfg.store { max_keys = strtoul v % word } })
    else if equal name (codes "--buckets")
    then some (record cfg { store = record cfg.store { initial_buckets = strtoul v % word } })
    else none

-- The loop over the arguments behind the program's name; `none` is the usage message, and exit 2. An
-- option in the last place has no value.
unfoldable pub parse_args : (Bytes → ℕ) → List Bytes → Config → Option Config
unfolding set_option
parse_args strtoul [] cfg = some cfg
parse_args strtoul (name ∷ []) cfg = none
parse_args strtoul (name ∷ v ∷ rest) cfg = elim (set_option strtoul name v cfg) [
  | none ↦ none
  | some cfg' ↦ parse_args strtoul rest cfg'
]
