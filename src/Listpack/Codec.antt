-- ===== src/Listpack/Codec.antt =====
-- What one entry decodes to, behind whatever stands in front of it and before whatever follows.
mod Words
pub mod Shapes
pub mod Parts
mod Integers
mod Strings
use shitty_redis.Base.{
  ℕ, zero, suc, ◌+◌, ◌-◌, ◌^◌, ◌<◌, ◌≤◌, ◌≡◌, refl, sym, ap, ◌∙◌, Bool, true, false, List, [], ◌∷◌,
  ◌++◌, arith, Option, none, some, append_assoc, length, length-append, drop, drop-append, ◌==◌,
  leb, Option-cases, inl, inr,
}
use shitty_redis.Base.Go.{Bytes, Run, ok, ◌>>=◌}
use shitty_redis.Base.Int.{ℤ}
use shitty_redis.Strconv.{parse_int, format_int}
use shitty_redis.Strconv.RoundTrip.{parse_int-IsInt64}
use shitty_redis.Listpack.Entry.{
  get_entry, item_bytes, get_backlen_bytes, get_backlen_byte_count, bytes_to_uint64_be,
  handle_int_entry, handle_str_entry,
}
use shitty_redis.Listpack.Pack.{
  read_bytes, read_int, read_str, read_decoded, read_entry, value_byte_count, text_decoded,
  entry_byte_count, entry_text, decode_tag, int_tag_bits, str_tag_bits, int_value,
}
use Shapes.{IntCode, StrCode, handle_int_entry-IntCode, handle_str_entry-StrCode}
use Parts.{Decodes}
use Integers.{int-Decodes}
use Strings.{str-Decodes}

-- The text that a listpack gives back for an item: an item that reads as an int64 is printed anew.
unfoldable pub number_text : Option ℤ → Bytes → Bytes
number_text (some v) item = format_int v
number_text none item = item

unfoldable pub stored : Bytes → Bytes
stored item = number_text (parse_int item) item

-- Items below 2 GiB: their entries' lengths fit the 32-bit sums of the code.
abbrev pub IsItem : Bytes → Type 0
IsItem item = length item < 2 ^ 31

item_bytes-Decodes :
    (o : Option ℤ) (item : Bytes)
    → parse_int item ≡ o
    → IsItem item
    → Decodes
        (number_text o item)
        (item_bytes o item ++ get_backlen_bytes (length (item_bytes o item)))
unfolding number_text item_bytes
item_bytes-Decodes (some v) item e h =
    int-Decodes v (handle_int_entry v) (handle_int_entry-IntCode v (parse_int-IsInt64 item v e))
item_bytes-Decodes none item e h =
    str-Decodes item (handle_str_entry item) (handle_str_entry-StrCode item (omega arith))

-- The entry of an item below 2 GiB, with any bytes behind it, is skipped and read by a round of
-- `Read`, and measured and read by `PopL`, as the stored text of the item.
pub get_entry-Decodes : (item : Bytes) → IsItem item → Decodes (stored item) (get_entry item)
unfolding get_entry stored
get_entry-Decodes item h = item_bytes-Decodes (parse_int item) item refl h
