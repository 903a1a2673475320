-- ===== src/Listpack/Codec/Integers.antt =====
-- The entries of integers, behind the readers.
use shitty_redis.Base.{
  ℕ, ◌+◌, ◌≡◌, refl, sym, ap, ◌∙◌, Bool, ◌∷◌, ◌++◌, arith, append_assoc, length, length-append,
  drop,
}
use shitty_redis.Base.Go.{Bytes, ok, ◌>>=◌}
use shitty_redis.Base.Int.{ℤ}
use shitty_redis.Strconv.{format_int}
use shitty_redis.Listpack.Entry.{get_backlen_bytes, get_backlen_byte_count}
use shitty_redis.Listpack.Pack.{
  read_int, read_decoded, read_entry, value_byte_count, text_decoded, entry_byte_count, entry_text,
}
use shitty_redis.Listpack.Codec.Shapes.{IntCode}
use shitty_redis.Listpack.Codec.Parts.{
  Decodes, read_bytes-append, drop_all, drop_backlen, length-get_backlen_bytes,
}

-- An integer entry: tag, payload, backlen.
module _ (v : ℤ) (entry : Bytes) (c : IntCode v entry) where
  int_back : Bytes
  int_back = get_backlen_bytes (1 + length c.payload)

  int_behind : (rest : Bytes) → (c.payload ++ int_back) ++ rest ≡ c.payload ++ (int_back ++ rest)
  int_behind rest = append_assoc c.payload int_back rest

  int_skip :
      (rest : Bytes)
      → drop
          (length c.payload + get_backlen_byte_count (1 + length c.payload))
          ((c.payload ++ int_back) ++ rest)
        ≡ rest
  unfolding int_back
  int_skip rest = drop_all _ (c.payload ++ int_back) rest (
      omega
        (arith, length-append c.payload int_back, length-get_backlen_bytes (1 + length c.payload)))

  int_length :
      length ((c.tag ∷ c.payload) ++ int_back)
      ≡ 1 + length c.payload + get_backlen_byte_count (1 + length c.payload)
  unfolding int_back
  int_length =
      omega
        (arith, length-append c.payload int_back, length-get_backlen_bytes (1 + length c.payload))

  pub int-Decodes : Decodes (format_int v) (entry ++ get_backlen_bytes (length entry))
  unfolding read_entry read_decoded read_int entry_byte_count value_byte_count entry_text
      text_decoded int_back
  int-Decodes =
      let n = length c.payload in
      let size : length entry ≡ 1 + n = ap length c.shape ∙ omega arith in
      rw (size, c.shape)
        (record {
          tag = c.tag;
          after = c.payload ++ int_back;
          shape = refl;
          not_end = c.not_end;
          skip = λ again rest k m.
              rw (read_entry, c.decoded) (ap (λ (t : Bytes). again t k m) (int_skip rest));
          take_one = λ again rest m.
              rw
                (
                  read_entry,
                  c.decoded,
                  int_behind rest,
                  read_bytes-append c.payload (int_back ++ rest),
                  ◌>>=◌,
                )
                (rw (drop_backlen (1 + n) rest, c.value));
          byte_count = λ rest.
              ap
                (λ (d : ℕ × ℕ × Bool).
                  value_byte_count c.tag ((c.payload ++ int_back) ++ rest) d >>= λ n.
                  ok (n + get_backlen_byte_count n))
                c.decoded
              ∙ ap ok (sym int_length);
          popped = λ rest.
              rw
                (
                  entry_text,
                  c.decoded,
                  int_behind rest,
                  read_bytes-append c.payload (int_back ++ rest),
                )
                (rw c.value);
        })
