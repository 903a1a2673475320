-- ===== src/Tests/Large.antt =====
-- An item whose entry no pack takes.
use shitty_redis.Base.{
  ℕ, zero, suc, ◌+◌, ◌≤◌, ◌≡◌, refl, ap, false, leb, arith, none, [], ◌∷◌, length, length-append,
}
use shitty_redis.Base.Go.{Bytes}
use shitty_redis.Strconv.{parse_int, parse_uint, parse_digits, parse_number, positive}
use shitty_redis.Listpack.Entry.{
  get_entry, item_bytes, handle_str_entry, str_header, get_str_listpack_encoding, be_bytes,
  get_backlen_bytes, get_backlen_byte_count,
}
use shitty_redis.Listpack.Codec.Parts.{length-get_backlen_bytes}
use shitty_redis.Quicklist.Panics.{Unstorable}

abbrev as_bytes : ℕ → Bytes
as_bytes zero = []
as_bytes (suc n) = b'a' ∷ as_bytes n

length-as_bytes : (n : ℕ) → length (as_bytes n) ≡ n
length-as_bytes zero = refl
length-as_bytes (suc n) = ap suc (length-as_bytes n)

letters_text : (n : ℕ) → parse_int (as_bytes (suc n)) ≡ none
unfolding parse_int parse_uint parse_digits parse_number positive
letters_text n = refl

handled_long :
    (item : Bytes) → 4096 ≤ length item → length (handle_str_entry item) ≡ length item + 5
unfolding handle_str_entry str_header get_str_listpack_encoding be_bytes
handled_long item h =
    let a : leb (length item) 63 ≡ false = ground arith in
    let b : leb (length item) 4095 ≡ false = ground arith in rw (a, b) (ground arith)

backlen_two : (l : ℕ) → 128 ≤ l → l ≤ 16383 → get_backlen_byte_count l ≡ 2
unfolding get_backlen_byte_count
backlen_two l h k = ground arith

entry_long :
    (item : Bytes)
    → parse_int item ≡ none
    → 4096 ≤ length item
    → length item ≤ 16000
    → length (get_entry item) ≡ length item + 7
unfolding get_entry item_bytes
entry_long item e h k =
    let l = length (handle_str_entry item) in
    rw e (
      omega (
        arith,
        length-append (handle_str_entry item) (get_backlen_bytes l),
        length-get_backlen_bytes l,
        backlen_two l (omega (arith, handled_long item h)) (omega (arith, handled_long item h)),
        handled_long item h,
      ))

unfoldable pub large : Bytes
large = as_bytes 8181

large-Unstorable_of : (item : Bytes) → parse_int item ≡ none → length item ≡ 8181 → Unstorable item
large-Unstorable_of item e l =
    let long : length (get_entry item) ≡ length item + 7 =
      entry_long item e (omega arith) (omega arith) in
    (omega arith, omega arith, omega arith)

pub large-Unstorable : Unstorable large
unfolding large
large-Unstorable = large-Unstorable_of (as_bytes 8181) (letters_text 8180) (length-as_bytes 8181)
