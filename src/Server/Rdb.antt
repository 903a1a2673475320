-- ===== src/Server/Rdb.antt =====
-- app/RDB/empty_rdb.go. The clock and the heap in use are arguments.
use shitty_redis.Base.{
  ℕ, zero, suc, ◌-◌, ◌/◌, ◌%◌, ◌^◌, [], ◌∷◌, ◌++◌, ltb, if◌then◌else◌, length, ◌≡◌, refl,
}
use shitty_redis.Base.Go.{Bytes}

unfoldable pub aux_string : Bytes → Bytes → Bytes → Bytes
aux_string b key val =
    b ++ ((0xfa ∷ length key % 256 ∷ []) ++ (key ++ ((length val % 256 ∷ []) ++ val)))

unfoldable pub aux_int8 : Bytes → Bytes → ℕ → Bytes
aux_int8 b key val = b ++ ((0xfa ∷ length key % 256 ∷ []) ++ (key ++ (0xc0 ∷ val ∷ [])))

-- `AppendUint32` of `binary.LittleEndian`.
unfoldable pub le_bytes : ℕ → ℕ → Bytes
le_bytes zero v = []
le_bytes (suc n) v = (v % 256) ∷ le_bytes n (v / 256)

unfoldable pub aux_int32 : Bytes → Bytes → ℕ → Bytes
aux_int32 b key val =
    b ++ ((0xfa ∷ length key % 256 ∷ []) ++ (key ++ ((0xc2 ∷ []) ++ le_bytes 4 val)))

unfoldable pub used_mem : ℕ → ℕ
used_mem alloc = if ltb (2 ^ 32 - 1) alloc then 2 ^ 32 - 1 else alloc

unfoldable pub zeros : ℕ → Bytes
zeros zero = []
zeros (suc n) = 0 ∷ zeros n

abbrev magic : Bytes
magic = b'R' ∷ b'E' ∷ b'D' ∷ b'I' ∷ b'S' ∷ b'0' ∷ b'0' ∷ b'1' ∷ b'1' ∷ []

abbrev redis_ver : Bytes
redis_ver = b'r' ∷ b'e' ∷ b'd' ∷ b'i' ∷ b's' ∷ b'-' ∷ b'v' ∷ b'e' ∷ b'r' ∷ []

abbrev version : Bytes
version = b'7' ∷ b'.' ∷ b'2' ∷ b'.' ∷ b'0' ∷ []

abbrev redis_bits : Bytes
redis_bits = b'r' ∷ b'e' ∷ b'd' ∷ b'i' ∷ b's' ∷ b'-' ∷ b'b' ∷ b'i' ∷ b't' ∷ b's' ∷ []

abbrev ctime : Bytes
ctime = b'c' ∷ b't' ∷ b'i' ∷ b'm' ∷ b'e' ∷ []

abbrev used_mem_key : Bytes
used_mem_key = b'u' ∷ b's' ∷ b'e' ∷ b'd' ∷ b'-' ∷ b'm' ∷ b'e' ∷ b'm' ∷ []

abbrev aof_base : Bytes
aof_base = b'a' ∷ b'o' ∷ b'f' ∷ b'-' ∷ b'b' ∷ b'a' ∷ b's' ∷ b'e' ∷ []

unfoldable pub empty_rdb : ℕ → ℕ → Bytes
empty_rdb now alloc =
    let start = aux_int8 (aux_string magic redis_ver version) redis_bits 64 in
    let dated = aux_int32 start ctime (now % 2 ^ 32) in
    let sized = aux_int32 dated used_mem_key (used_mem alloc) in
    aux_int8 sized aof_base 0 ++ ((0xff ∷ []) ++ zeros 8)

-- `EmptyRDB` has the same length at every time and with every heap.
pub length-empty_rdb : (now alloc : ℕ) → length (empty_rdb now alloc) ≡ 88
unfolding empty_rdb aux_int8 aux_string aux_int32 le_bytes zeros
length-empty_rdb now alloc = refl
