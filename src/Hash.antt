-- ===== src/Hash.antt =====
-- src/core/hash.cpp: SipHash-1-3, and the hash of a key under the table's seed.
use Prim.Native.Nat.{bit_or, bit_xor}
use tiny_redis.Base.Bytes.{Bytes}
use tiny_redis.Base.{ℕ, zero, suc, ◌+◌, ◌-◌, ◌*◌, ◌/◌, ◌%◌, ◌^◌, [], ◌∷◌, length, take, drop}
use tiny_redis.Bits.{word, splitmix64}

abbrev rotl : ℕ → ℕ → ℕ
rotl x k = bit_or (x * 2 ^ k % word) (x / 2 ^ (64 - k))

abbrev add : ℕ → ℕ → ℕ
add a b = (a + b) % word

-- Eight bytes as a little-endian word.
load64le : Bytes → ℕ
load64le [] = 0
load64le (c ∷ cs) = c + 256 * load64le cs

pub record SipState : Type 0 where
  pub v0 : ℕ
  pub v1 : ℕ
  pub v2 : ℕ
  pub v3 : ℕ

round : SipState → SipState
round s =
    let a0 = add s.v0 s.v1 in
    let a1 = bit_xor (rotl s.v1 13) a0 in
    let b0 = rotl a0 32 in
    let a2 = add s.v2 s.v3 in
    let a3 = bit_xor (rotl s.v3 16) a2 in
    let c0 = add b0 a3 in
    let b3 = bit_xor (rotl a3 21) c0 in
    let b2 = add a2 a1 in
    let b1 = bit_xor (rotl a1 17) b2 in record { v0 = c0; v1 = b1; v2 = rotl b2 32; v3 = b3 }

compress : SipState → ℕ → SipState
unfolding round
compress s m = let r = round (record s { v3 = bit_xor s.v3 m }) in record r { v0 = bit_xor r.v0 m }

-- The loop over whole blocks: `blocks` of them.
compress_all : ℕ → Bytes → SipState → SipState
unfolding compress load64le
compress_all zero p s = s
compress_all (suc blocks) p s = compress_all blocks (drop 8 p) (compress s (load64le (take 8 p)))

-- The `switch` on the tail: byte `i` is set at bit `8 * i`; `place` is 2 ^ (8 * i).
or_tail : ℕ → Bytes → ℕ → ℕ
or_tail place [] b = b
or_tail place (c ∷ cs) b = or_tail (place * 256) cs (bit_or b (c * place))

unfoldable pub sip_hash13 : Bytes → ℕ → ℕ → ℕ
unfolding compress_all or_tail compress round
sip_hash13 p k0 k1 =
    let start : SipState = record {
      v0 = bit_xor k0 0x736f6d6570736575;
      v1 = bit_xor k1 0x646f72616e646f6d;
      v2 = bit_xor k0 0x6c7967656e657261;
      v3 = bit_xor k1 0x7465646279746573;
    } in
    let len = length p in
    let s = compress_all (len / 8) p start in
    let b = or_tail 1 (drop (len / 8 * 8) p) (len * 2 ^ 56 % word) in
    let t = compress s b in
    let u = round (round (round (record t { v2 = bit_xor t.v2 0xff }))) in
    bit_xor (bit_xor (bit_xor u.v0 u.v1) u.v2) u.v3

unfoldable pub hash_bytes : Bytes → ℕ → ℕ
unfolding sip_hash13 splitmix64
hash_bytes p seed =
    let (k0, state) = splitmix64 seed in let (k1, _) = splitmix64 state in sip_hash13 p k0 k1
