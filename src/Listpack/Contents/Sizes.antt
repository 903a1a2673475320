-- ===== src/Listpack/Contents/Sizes.antt =====
-- How long an entry is, the packed form of a list of items, and the relation `Holds`.
use shitty_redis.Base.{
  ℕ, ◌+◌, ◌*◌, ◌^◌, ◌≤◌, ◌<◌, ◌≡◌, refl, List, [], ◌∷◌, ◌++◌, arith, Option, none, some, length,
  length-append, append_assoc, All,
}
use shitty_redis.Base.Go.{Bytes}
use shitty_redis.Base.Int.{ℤ}
use shitty_redis.Strconv.{parse_int}
use shitty_redis.Listpack.Entry.{
  be_bytes, get_entry, item_bytes, get_backlen_bytes, get_backlen_byte_count, int_entry_bytes,
  handle_int_entry, str_header, handle_str_entry,
}
use shitty_redis.Listpack.Pack.{Listpack, new}
use shitty_redis.Listpack.Codec.{IsItem}
use shitty_redis.Listpack.Codec.Parts.{length-get_backlen_bytes}

length-int_entry_bytes :
    (v : ℤ) (tag n : ℕ)
    → (1 ≤ length (int_entry_bytes v tag n)) × (length (int_entry_bytes v tag n) ≤ 9)
unfolding int_entry_bytes be_bytes
length-int_entry_bytes v tag n = ground arith

length-str_header :
    (l tag n : ℕ) → (1 ≤ length (str_header l tag n)) × (length (str_header l tag n) ≤ 5)
unfolding str_header be_bytes
length-str_header l tag n = ground arith

length-item_bytes :
    (o : Option ℤ) (item : Bytes)
    → (1 ≤ length (item_bytes o item)) × (length (item_bytes o item) ≤ length item + 9)
unfolding item_bytes handle_int_entry handle_str_entry
length-item_bytes (some v) item = omega (arith, length-int_entry_bytes v _ _)
length-item_bytes none item =
    omega (arith, length-str_header (length item) _ _, length-append (str_header _ _ _) item)

backlen_bounds : (l : ℕ) → (1 ≤ get_backlen_byte_count l) × (get_backlen_byte_count l ≤ 5)
unfolding get_backlen_byte_count
backlen_bounds l = ground arith

-- An entry takes 2 bytes at least, and 14 more than its item at most.
pub length-get_entry :
    (item : Bytes) → (2 ≤ length (get_entry item)) × (length (get_entry item) ≤ length item + 14)
unfolding get_entry
length-get_entry item =
    let entry = item_bytes (parse_int item) item in
    omega (
      arith,
      length-item_bytes (parse_int item) item,
      length-append entry (get_backlen_bytes (length entry)),
      length-get_backlen_bytes (length entry),
      backlen_bounds (length entry),
    )

abbrev pub pack : List Bytes → Bytes
pack [] = []
pack (item ∷ items) = get_entry item ++ pack items

pub pack-append : (xs ys : List Bytes) → pack (xs ++ ys) ≡ pack xs ++ pack ys
pack-append [] ys = refl
pack-append (x ∷ xs) ys = rw (pack-append xs ys, append_assoc)

pub length-pack : (items : List Bytes) → 2 * length items ≤ length (pack items)
length-pack [] = omega arith
length-pack (item ∷ items) =
    omega
      (arith, length-pack items, length-get_entry item, length-append (get_entry item) (pack items))

-- The listpack holds these items, in order: its bytes are their entries and the end byte, and the
-- two header fields are right.
pub record Holds (items : List Bytes) (lp : Listpack) : Type 0 where
  pub bytes : lp.entries ≡ pack items ++ (0xff ∷ [])
  pub sized : lp.size ≡ 7 + length (pack items)
  pub counted : lp.count ≡ length items
  pub within : lp.size < 2 ^ 32
  pub few : length items < 2 ^ 16
  pub short : All IsItem items

pub new-Holds : Holds [] new
unfolding new
new-Holds = record {
  bytes = refl;
  sized = omega arith;
  counted = refl;
  within = omega arith;
  few = omega arith;
  short = tt;
}
