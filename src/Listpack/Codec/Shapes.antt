-- ===== src/Listpack/Codec/Shapes.antt =====
-- The shapes of entries, and the tags from which `Read` and `PopL` find the value.
use shitty_redis.Base.{
  ℕ, ◌+◌, ◌*◌, ◌/◌, ◌%◌, ◌^◌, ◌<◌, ◌≡◌, refl, true, false, [], ◌∷◌, ◌++◌, arith, bit_and, ◌∙◌, ap,
  length, leb, ◌==◌, if◌then◌else◌, ◌&&◌, Bool-cases, inl, inr,
}
use shitty_redis.Base.Bits.{
  bit_and_0x7f, bit_and_0x3f, bit_and_0x1f, bit_and_0x0f, bit_or_0x80, bit_or_0xc0, bit_or_0xe0,
}
use shitty_redis.Base.Go.{Bytes}
use shitty_redis.Base.Int.{ℤ, pos, negsuc, ◌≤ℤ◌, leb_ℤ, uint64, IsInt64}
use shitty_redis.Listpack.Entry.{
  get_int_listpack_encoding, get_str_listpack_encoding, be_bytes, int_entry_bytes, handle_int_entry,
  str_header, handle_str_entry, bytes_to_uint64_be, sign_extend,
}
use shitty_redis.Listpack.Pack.{decode_tag, int_tag_bits, str_tag_bits, int_value}
use shitty_redis.Listpack.Codec.Words.{
  extend, length-be_bytes, be_two, be_three, be_four, be_eight, extend_13, extend_16, extend_24,
  extend_32, extend_64, decode_tag_int7, decode_tag_str6, decode_tag_int13, decode_tag_str12,
}

-- `entry` is a tag that announces an integer and the bytes that stand for `v` behind it.
pub record IntCode (v : ℤ) (entry : Bytes) : Type 0 where
  pub tag : ℕ
  pub tag_b : ℕ
  pub payload : Bytes
  pub shape : entry ≡ tag ∷ payload
  pub decoded : decode_tag tag ≡ (tag_b, length payload, true)
  pub value : int_value tag_b (length payload) (int_tag_bits tag_b tag ++ payload) ≡ v
  pub not_end : (tag == 0xff) ≡ false

-- `entry` is a tag that announces a string, the bytes of its length, and `s`.
pub record StrCode (s : Bytes) (entry : Bytes) : Type 0 where
  pub tag : ℕ
  pub tag_b : ℕ
  pub header : Bytes
  pub shape : entry ≡ tag ∷ (header ++ s)
  pub decoded : decode_tag tag ≡ (tag_b, length header, false)
  pub value : bytes_to_uint64_be 0 (str_tag_bits tag_b tag ++ header) ≡ length s
  pub not_end : (tag == 0xff) ≡ false

int7-IntCode : (n : ℕ) → n < 128 → IntCode (pos n) (int_entry_bytes (pos n) (n % 2 ^ 64 % 256) 1)
unfolding int_entry_bytes int_value int_tag_bits bytes_to_uint64_be
int7-IntCode n h = record {
  tag = n;
  tag_b = 7;
  payload = [];
  shape = ground arith;
  decoded = decode_tag_int7 n h;
  value = ground (arith, bit_and_0x7f n);
  not_end = ground arith;
}

int13_bytes :
    (w : ℕ) → w < 2 ^ 13 → bytes_to_uint64_be 0 (bit_and (192 + w / 256) 0x1f ∷ (w % 256) ∷ []) ≡ w
unfolding bytes_to_uint64_be
int13_bytes w h = omega (arith, bit_and_0x1f (192 + w / 256) (omega arith))

int13-IntCode : (v : ℤ) → negsuc 4095 ≤ℤ v → v ≤ℤ pos 4095 → IntCode v (int_entry_bytes v 0xc0 2)
unfolding int_entry_bytes int_value int_tag_bits sign_extend
int13-IntCode v lo hi =
    let w = uint64 v % 2 ^ 13 in
    let high5 = w / 256 in
    record {
      tag = 192 + high5;
      tag_b = 5;
      payload = (w % 256) ∷ [];
      shape = ground (arith, bit_or_0xc0 high5);
      decoded = decode_tag_int13 high5 (omega arith);
      value = ap (extend 13) (int13_bytes w (omega arith)) ∙ extend_13 v lo hi;
      not_end = ground arith;
    }

-- The other integers have nothing in the tag.
wide-IntCode :
    (v : ℤ) (tag n : ℕ) (w : ℕ)
    → decode_tag tag ≡ (0, n, true)
    → sign_extend (be_bytes n w) (0 + 8 * n) ≡ v
    → (tag == 0xff) ≡ false
    → IntCode v (tag ∷ be_bytes n w)
unfolding int_value int_tag_bits
wide-IntCode v tag n w d e ne = record {
  tag = tag;
  tag_b = 0;
  payload = be_bytes n w;
  shape = refl;
  decoded = rw (length-be_bytes n w) d;
  value = rw (length-be_bytes n w) e;
  not_end = ne;
}

int16-IntCode : (v : ℤ) → negsuc 32767 ≤ℤ v → v ≤ℤ pos 32767 → IntCode v (int_entry_bytes v 0xf1 3)
unfolding int_entry_bytes sign_extend decode_tag
int16-IntCode v lo hi =
    wide-IntCode v 0xf1 2 (uint64 v % 2 ^ 16) refl
      (ap (extend 16) (be_two (uint64 v % 2 ^ 16) (omega arith)) ∙ extend_16 v lo hi) refl

int24-IntCode :
    (v : ℤ) → negsuc 8388607 ≤ℤ v → v ≤ℤ pos 8388607 → IntCode v (int_entry_bytes v 0xf2 4)
unfolding int_entry_bytes sign_extend decode_tag
int24-IntCode v lo hi =
    wide-IntCode v 0xf2 3 (uint64 v % 2 ^ 24) refl
      (ap (extend 24) (be_three (uint64 v % 2 ^ 24) (omega arith)) ∙ extend_24 v lo hi) refl

int32-IntCode :
    (v : ℤ) → negsuc 2147483647 ≤ℤ v → v ≤ℤ pos 2147483647 → IntCode v (int_entry_bytes v 0xf3 5)
unfolding int_entry_bytes sign_extend decode_tag
int32-IntCode v lo hi =
    wide-IntCode v 0xf3 4 (uint64 v % 2 ^ 32) refl
      (ap (extend 32) (be_four (uint64 v % 2 ^ 32) (omega arith)) ∙ extend_32 v lo hi) refl

uint64-lt : (v : ℤ) → uint64 v < 2 ^ 64
uint64-lt (pos n) = omega arith
uint64-lt (negsuc n) = omega arith

int64-IntCode : (v : ℤ) → IsInt64 v → IntCode v (int_entry_bytes v 0xf4 9)
unfolding int_entry_bytes sign_extend decode_tag
int64-IntCode v (lo, hi) =
    wide-IntCode v 0xf4 8 (uint64 v) refl
      (ap (extend 64) (be_eight (uint64 v) (uint64-lt v)) ∙ extend_64 v lo hi) refl

small-IntCode :
    (v : ℤ) → pos 0 ≤ℤ v → v ≤ℤ pos 127 → IntCode v (int_entry_bytes v (uint64 v % 256) 1)
small-IntCode (pos n) lo hi = int7-IntCode n (omega arith)
small-IntCode (negsuc n) lo hi = absurd (omega arith)

-- A choice between two encodings, each good under its test's outcome.
choose :
    (v a b : ℤ) (x y : ℕ × ℕ)
    → (a ≤ℤ v → v ≤ℤ b → IntCode v (int_entry_bytes v x.0 x.1))
    → IntCode v (int_entry_bytes v y.0 y.1)
    → (e : ℕ × ℕ) → e ≡ (if leb_ℤ a v && leb_ℤ v b then x else y)
    → IntCode v (int_entry_bytes v e.0 e.1)
choose v a b x y inside outside e p = elim (Bool-cases (leb_ℤ a v && leb_ℤ v b)) [
  | inl t ↦ rw (p, t) (inside (ground arith) (ground arith))
  | inr t ↦ rw (p, t) outside
]

abbrev encoding_5 : ℤ → ℕ × ℕ
encoding_5 v =
    if leb_ℤ (negsuc 2147483647) v && leb_ℤ v (pos 2147483647) then (0xf3, 5) else (0xf4, 9)

abbrev encoding_4 : ℤ → ℕ × ℕ
encoding_4 v = if leb_ℤ (negsuc 8388607) v && leb_ℤ v (pos 8388607) then (0xf2, 4) else encoding_5 v

abbrev encoding_3 : ℤ → ℕ × ℕ
encoding_3 v = if leb_ℤ (negsuc 32767) v && leb_ℤ v (pos 32767) then (0xf1, 3) else encoding_4 v

abbrev encoding_2 : ℤ → ℕ × ℕ
encoding_2 v = if leb_ℤ (negsuc 4095) v && leb_ℤ v (pos 4095) then (0xc0, 2) else encoding_3 v

module _ (v : ℤ) (h : IsInt64 v) where
  code_4 : IntCode v (int_entry_bytes v (encoding_4 v).0 (encoding_4 v).1)
  code_4 =
      choose v (negsuc 8388607) (pos 8388607) (0xf2, 4) (encoding_5 v) (int24-IntCode v)
        (choose v (negsuc 2147483647) (pos 2147483647) (0xf3, 5) (0xf4, 9) (int32-IntCode v)
          (int64-IntCode v h) (encoding_5 v) refl)
        (encoding_4 v) refl

  code_2 : IntCode v (int_entry_bytes v (encoding_2 v).0 (encoding_2 v).1)
  code_2 =
      choose v (negsuc 4095) (pos 4095) (0xc0, 2) (encoding_3 v) (int13-IntCode v)
        (choose v (negsuc 32767) (pos 32767) (0xf1, 3) (encoding_4 v) (int16-IntCode v) code_4
          (encoding_3 v) refl)
        (encoding_2 v) refl

  -- The bytes of an int64, whichever of the six encodings it gets.
  pub handle_int_entry-IntCode : IntCode v (handle_int_entry v)
  unfolding handle_int_entry get_int_listpack_encoding
  handle_int_entry-IntCode =
      choose v (pos 0) (pos 127) (uint64 v % 256, 1) (encoding_2 v) (small-IntCode v) code_2
        (get_int_listpack_encoding v) refl

str6-StrCode : (s : Bytes) → length s < 64 → StrCode s (str_header (length s) 0x80 1 ++ s)
unfolding str_header str_tag_bits bytes_to_uint64_be
str6-StrCode s h =
    let l = length s in
    record {
      tag = 128 + l;
      tag_b = 6;
      header = [];
      shape = ground (arith, bit_or_0x80 l);
      decoded = decode_tag_str6 l h;
      value = ground (arith, bit_and_0x3f (128 + l));
      not_end = ground arith;
    }

str12_bytes :
    (l : ℕ) → l < 2 ^ 12 → bytes_to_uint64_be 0 (bit_and (224 + l / 256) 0x0f ∷ (l % 256) ∷ []) ≡ l
unfolding bytes_to_uint64_be
str12_bytes l h = omega (arith, bit_and_0x0f (224 + l / 256) (omega arith))

str12-StrCode : (s : Bytes) → length s < 2 ^ 12 → StrCode s (str_header (length s) 0xe0 2 ++ s)
unfolding str_header str_tag_bits
str12-StrCode s h =
    let l = length s in
    record {
      tag = 224 + l / 256;
      tag_b = 4;
      header = (l % 256) ∷ [];
      shape = ground (arith, bit_or_0xe0 (l / 256));
      decoded = decode_tag_str12 (l / 256) (omega arith);
      value = str12_bytes l h;
      not_end = ground arith;
    }

str32-StrCode : (s : Bytes) → length s < 2 ^ 32 → StrCode s (str_header (length s) 0xf0 9 ++ s)
unfolding str_header str_tag_bits decode_tag
str32-StrCode s h =
    let w = length s % 2 ^ 32 in
    record {
      tag = 0xf0;
      tag_b = 0;
      header = be_bytes 4 w;
      shape = refl;
      decoded = rw length-be_bytes;
      value = be_four w (omega arith) ∙ omega arith;
      not_end = refl;
    }

-- The bytes of a string below 4 GiB, whichever of the three headers it gets.
pub handle_str_entry-StrCode : (s : Bytes) → length s < 2 ^ 32 → StrCode s (handle_str_entry s)
unfolding handle_str_entry get_str_listpack_encoding
handle_str_entry-StrCode s h = elim (Bool-cases (leb (length s) 63)) [
  | inl a ↦ rw a (str6-StrCode s (ground arith))
  | inr a ↦ elim (Bool-cases (leb 64 (length s) && leb (length s) 4095)) [
    | inl b ↦ rw (a, b) (str12-StrCode s (ground arith))
    | inr b ↦ rw (a, b) (str32-StrCode s h)
  ]
]
