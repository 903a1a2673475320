-- ===== src/Listpack/Entry.antt =====
-- How one item becomes bytes: app/structures/listpack/entry_helpers.go and utils.go.
-- `x & (2^k - 1)` on a wide integer is written `x % 2 ^ k`, and `x >> 8i` is `x / 256 ^ i`.
use shitty_redis.Base.{
  ℕ, zero, suc, ◌+◌, ◌-◌, ◌*◌, ◌/◌, ◌%◌, ◌^◌, ◌&&◌, [], ◌∷◌, ◌++◌, Option, none, some, leb, ◌==◌,
  if◌then◌else◌, length, bit_and, bit_or,
}
use shitty_redis.Base.Go.{Bytes}
use shitty_redis.Base.Int.{ℤ, pos, negsuc, leb_ℤ, uint64, int64, shr_ℤ}
use shitty_redis.Strconv.{parse_int}

-- The tag and the size of the value with its tag.
unfoldable pub get_int_listpack_encoding : ℤ → ℕ × ℕ
get_int_listpack_encoding val =
    if leb_ℤ (pos 0) val && leb_ℤ val (pos 127)
    then (uint64 val % 256, 1)
    else if leb_ℤ (negsuc 4095) val && leb_ℤ val (pos 4095)
    then (0xc0, 2)
    else if leb_ℤ (negsuc 32767) val && leb_ℤ val (pos 32767)
    then (0xf1, 3)
    else if leb_ℤ (negsuc 8388607) val && leb_ℤ val (pos 8388607)
    then (0xf2, 4)
    else if leb_ℤ (negsuc 2147483647) val && leb_ℤ val (pos 2147483647)
    then (0xf3, 5)
    else (0xf4, 9)

unfoldable pub get_str_listpack_encoding : Bytes → ℕ × ℕ
get_str_listpack_encoding val =
    let l = length val in
    if leb l 63 then (0x80, 1) else if leb 64 l && leb l 4095 then (0xe0, 2) else (0xf0, 9)

-- The lowest `n` bytes of `v`, highest first.
unfoldable pub be_bytes : ℕ → ℕ → Bytes
be_bytes zero v = []
be_bytes (suc i) v = (v / 256 ^ i % 256) ∷ be_bytes i v

-- The bytes of an integer under its tag, by the total size that `get_int_listpack_encoding` gives.
unfoldable pub int_entry_bytes : ℤ → ℕ → ℕ → Bytes
int_entry_bytes val tag totalBytes =
    if totalBytes == 1
    then tag ∷ []
    else if totalBytes == 2
    then bit_or tag (uint64 val % 2 ^ 13 / 256) ∷ (uint64 val % 2 ^ 13 % 256) ∷ []
    else if totalBytes == 3
    then tag ∷ be_bytes 2 (uint64 val % 2 ^ 16)
    else if totalBytes == 4
    then tag ∷ be_bytes 3 (uint64 val % 2 ^ 24)
    else if totalBytes == 5
    then tag ∷ be_bytes 4 (uint64 val % 2 ^ 32)
    else tag ∷ be_bytes 8 (uint64 val)

unfoldable pub handle_int_entry : ℤ → Bytes
handle_int_entry val =
    let (tag, totalBytes) = get_int_listpack_encoding val in int_entry_bytes val tag totalBytes

-- The tag and the length of a string, in front of it.
unfoldable pub str_header : ℕ → ℕ → ℕ → Bytes
str_header l tag totalBytes =
    if totalBytes == 1
    then bit_or tag (l % 64) ∷ []
    else if totalBytes == 2
    then bit_or tag (l % 2 ^ 12 / 256) ∷ (l % 2 ^ 12 % 256) ∷ []
    else tag ∷ be_bytes 4 (l % 2 ^ 32)

unfoldable pub handle_str_entry : Bytes → Bytes
handle_str_entry val =
    let (tag, totalBytes) = get_str_listpack_encoding val in
    str_header (length val) tag totalBytes ++ val

unfoldable pub get_backlen_byte_count : ℕ → ℕ
get_backlen_byte_count l =
    if leb l 127
    then 1
    else if leb l 16383
    then 2
    else if leb l 2097151
    then 3
    else if leb l 268435455
    then 4
    else 5

-- `uint8(ul >> 7i) & 0x7F` and `uint8(ul >> 7i) | 0x80`.
abbrev pub last_group : ℕ → ℕ → ℕ
last_group l i = bit_and (l / 128 ^ i % 256) 0x7f

abbrev pub inner_group : ℕ → ℕ → ℕ
inner_group l i = bit_or (l / 128 ^ i % 256) 0x80

unfoldable pub get_backlen_bytes : ℕ → Bytes
get_backlen_bytes l =
    if leb l 127
    then last_group l 0 ∷ []
    else if leb l 16383
    then inner_group l 0 ∷ last_group l 1 ∷ []
    else if leb l 2097151
    then inner_group l 0 ∷ inner_group l 1 ∷ last_group l 2 ∷ []
    else if leb l 268435455
    then inner_group l 0 ∷ inner_group l 1 ∷ inner_group l 2 ∷ last_group l 3 ∷ []
    else inner_group l 0 ∷ inner_group l 1 ∷ inner_group l 2 ∷ inner_group l 3 ∷ last_group l 4 ∷ []

-- An item that reads as an int64 is stored as a number, any other as a string.
unfoldable pub item_bytes : Option ℤ → Bytes → Bytes
item_bytes (some val) item = handle_int_entry val
item_bytes none item = handle_str_entry item

unfoldable pub get_entry : Bytes → Bytes
get_entry item =
    let entry = item_bytes (parse_int item) item in entry ++ get_backlen_bytes (length entry)

-- `bytesToUint64BE`; the callers hand it eight bytes at most.
unfoldable pub bytes_to_uint64_be : ℕ → Bytes → ℕ
bytes_to_uint64_be acc [] = acc
bytes_to_uint64_be acc (b ∷ bs) = bytes_to_uint64_be (acc * 256 + b) bs

-- Shift left so that the sign bit is the highest, and back.
unfoldable pub sign_extend : Bytes → ℕ → ℤ
sign_extend b bits =
    let shift = 64 - bits in shr_ℤ (int64 (bytes_to_uint64_be 0 b * 2 ^ shift % 2 ^ 64)) shift
