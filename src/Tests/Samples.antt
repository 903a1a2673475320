-- ===== src/Tests/Samples.antt =====
-- Sample items, a pack and a quicklist that hold them.
use shitty_redis.Base.{◌≡◌, refl, inl, [], ◌∷◌, arith}
use shitty_redis.Base.Go.{Bytes}
use shitty_redis.Base.Int.{pos}
use shitty_redis.Strconv.{
  parse_digits, parse_number, below, parse_uint, positive, negative, parse_int, decimal,
  format_uint, format_int,
}
use shitty_redis.Listpack.Entry.{
  get_int_listpack_encoding, get_str_listpack_encoding, be_bytes, int_entry_bytes, handle_int_entry,
  str_header, handle_str_entry, get_backlen_byte_count, get_backlen_bytes, item_bytes, get_entry,
  bytes_to_uint64_be, sign_extend,
}
use shitty_redis.Listpack.Pack.{Listpack}
use shitty_redis.Listpack.Contents.Sizes.{Holds, length-get_entry}
use shitty_redis.Quicklist.Ops.{Quicklist}
use shitty_redis.Quicklist.Models.{Models, Storable}

abbrev pub word : Bytes
word = b'a' ∷ b'b' ∷ []

abbrev pub number : Bytes
number = b'1' ∷ b'2' ∷ []

word_entry : get_entry word ≡ 130 ∷ b'a' ∷ b'b' ∷ 3 ∷ []
unfolding parse_digits parse_number below parse_uint positive negative parse_int decimal format_uint
    format_int get_int_listpack_encoding get_str_listpack_encoding be_bytes int_entry_bytes
    handle_int_entry str_header handle_str_entry get_backlen_byte_count get_backlen_bytes item_bytes
    get_entry bytes_to_uint64_be sign_extend
word_entry = refl

number_entry : get_entry number ≡ 12 ∷ 1 ∷ []
unfolding parse_digits parse_number below parse_uint positive negative parse_int decimal format_uint
    format_int get_int_listpack_encoding get_str_listpack_encoding be_bytes int_entry_bytes
    handle_int_entry str_header handle_str_entry get_backlen_byte_count get_backlen_bytes item_bytes
    get_entry bytes_to_uint64_be sign_extend
number_entry = refl

pub word-Storable : Storable word
word-Storable = (omega arith, inl (omega (arith, length-get_entry word)))

pub number-Storable : Storable number
number-Storable = (omega arith, inl (omega (arith, length-get_entry number)))

abbrev pub two_packed : Listpack
two_packed = record { size = 13; count = 2; entries = 130 ∷ 97 ∷ 98 ∷ 3 ∷ 12 ∷ 1 ∷ 255 ∷ [] }

pub two_packed-Holds : Holds (word ∷ number ∷ []) two_packed
two_packed-Holds = record {
  bytes = rw (word_entry, number_entry) refl;
  sized = rw (word_entry, number_entry) refl;
  counted = refl;
  within = omega arith;
  few = omega arith;
  short = (omega arith, (omega arith, tt));
}

abbrev pub two_listed : Quicklist
two_listed = record { count = pos 2; num_nodes = pos 1; nodes = two_packed ∷ [] }

pub two_listed-Models : Models (word ∷ number ∷ []) two_listed
two_listed-Models = record {
  chunks = (word ∷ number ∷ []) ∷ [];
  chain = (two_packed-Holds, omega arith, tt);
  cut = refl;
  counted = refl;
  numbered = refl;
}
