-- ===== src/Listpack/Codec/Words.antt =====
-- The integers inside an entry: big-endian bytes, sign extension and tags.
use shitty_redis.Base.{
  ℕ, zero, suc, ◌+◌, ◌-◌, ◌*◌, ◌%◌, ◌^◌, ◌<◌, ◌≡◌, refl, true, false, arith, length,
}
use shitty_redis.Base.Bits.{bit_and_0x80, bit_and_0xc0, bit_and_0xe0, bit_and_0xf0}
use shitty_redis.Base.Int.{ℤ, pos, negsuc, ◌≤ℤ◌, uint64, int64, shr_ℤ}
use shitty_redis.Listpack.Entry.{be_bytes, bytes_to_uint64_be}
use shitty_redis.Listpack.Pack.{decode_tag}

pub length-be_bytes : (n v : ℕ) → length (be_bytes n v) ≡ n
unfolding be_bytes
length-be_bytes zero v = refl
length-be_bytes (suc n) v = omega (arith, length-be_bytes n v)

pub be_two : (v : ℕ) → v < 2 ^ 16 → bytes_to_uint64_be 0 (be_bytes 2 v) ≡ v
unfolding be_bytes bytes_to_uint64_be
be_two v h = omega arith

pub be_three : (v : ℕ) → v < 2 ^ 24 → bytes_to_uint64_be 0 (be_bytes 3 v) ≡ v
unfolding be_bytes bytes_to_uint64_be
be_three v h = omega arith

pub be_four : (v : ℕ) → v < 2 ^ 32 → bytes_to_uint64_be 0 (be_bytes 4 v) ≡ v
unfolding be_bytes bytes_to_uint64_be
be_four v h = omega arith

pub be_eight : (v : ℕ) → v < 2 ^ 64 → bytes_to_uint64_be 0 (be_bytes 8 v) ≡ v
unfolding be_bytes bytes_to_uint64_be
be_eight v h = omega arith

-- `int64(v << (64 - b)) >> (64 - b)`.
abbrev pub extend : ℕ → ℕ → ℤ
extend b w = shr_ℤ (int64 (w * 2 ^ (64 - b) % 2 ^ 64)) (64 - b)

pub extend_13 : (v : ℤ) → negsuc 4095 ≤ℤ v → v ≤ℤ pos 4095 → extend 13 (uint64 v % 2 ^ 13) ≡ v
extend_13 (pos n) lo hi = ground arith
extend_13 (negsuc n) lo hi = ground arith

pub extend_16 : (v : ℤ) → negsuc 32767 ≤ℤ v → v ≤ℤ pos 32767 → extend 16 (uint64 v % 2 ^ 16) ≡ v
extend_16 (pos n) lo hi = ground arith
extend_16 (negsuc n) lo hi = ground arith

pub extend_24 : (v : ℤ) → negsuc 8388607 ≤ℤ v → v ≤ℤ pos 8388607 → extend 24 (uint64 v % 2 ^ 24) ≡ v
extend_24 (pos n) lo hi = ground arith
extend_24 (negsuc n) lo hi = ground arith

pub extend_32 :
    (v : ℤ) → negsuc 2147483647 ≤ℤ v → v ≤ℤ pos 2147483647 → extend 32 (uint64 v % 2 ^ 32) ≡ v
extend_32 (pos n) lo hi = ground arith
extend_32 (negsuc n) lo hi = ground arith

pub extend_64 :
    (v : ℤ) → negsuc (2 ^ 63 - 1) ≤ℤ v → v ≤ℤ pos (2 ^ 63 - 1) → extend 64 (uint64 v) ≡ v
extend_64 (pos n) lo hi = ground arith
extend_64 (negsuc n) lo hi = ground arith

pub decode_tag_int7 : (t : ℕ) → t < 128 → decode_tag t ≡ (7, 0, true)
unfolding decode_tag
decode_tag_int7 t h = ground (arith, bit_and_0x80 t)

pub decode_tag_str6 : (l : ℕ) → l < 64 → decode_tag (128 + l) ≡ (6, 0, false)
unfolding decode_tag
decode_tag_str6 l h = ground (arith, bit_and_0x80 (128 + l), bit_and_0xc0 (128 + l))

pub decode_tag_int13 : (t : ℕ) → t < 32 → decode_tag (192 + t) ≡ (5, 1, true)
unfolding decode_tag
decode_tag_int13 t h =
    ground (arith, bit_and_0x80 (192 + t), bit_and_0xc0 (192 + t), bit_and_0xe0 (192 + t))

pub decode_tag_str12 : (t : ℕ) → t < 16 → decode_tag (224 + t) ≡ (4, 1, false)
unfolding decode_tag
decode_tag_str12 t h = ground (
  arith,
  bit_and_0x80 (224 + t),
  bit_and_0xc0 (224 + t),
  bit_and_0xe0 (224 + t),
  bit_and_0xf0 (224 + t),
)
