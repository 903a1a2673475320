-- ===== src/Listpack/Codec/Strings.antt =====
-- The entries of strings, behind the readers.
use shitty_redis.Base.{
  ℕ, ◌+◌, ◌≡◌, refl, sym, ap, ◌∙◌, Bool, false, ◌∷◌, ◌++◌, arith, append_assoc, length,
  length-append, drop,
}
use shitty_redis.Base.Go.{Bytes, Run, ok, ◌>>=◌}
use shitty_redis.Listpack.Entry.{get_backlen_bytes, get_backlen_byte_count}
use shitty_redis.Listpack.Pack.{
  read_str, read_decoded, read_entry, value_byte_count, text_decoded, entry_byte_count, entry_text,
}
use shitty_redis.Listpack.Codec.Shapes.{StrCode}
use shitty_redis.Listpack.Codec.Parts.{
  Decodes, read_bytes-append, drop_all, drop_backlen, length-get_backlen_bytes,
}

-- A string entry: tag, length bytes, string, backlen.
module _ (s : Bytes) (entry : Bytes) (c : StrCode s entry) where
  str_size : ℕ
  str_size = 1 + length c.header + length s

  str_back : Bytes
  unfolding str_size
  str_back = get_backlen_bytes str_size

  str_behind :
      (rest : Bytes) → ((c.header ++ s) ++ str_back) ++ rest ≡ c.header ++ (s ++ (str_back ++ rest))
  str_behind rest = simp append_assoc

  str_skip :
      (rest : Bytes)
      → drop (length s + get_backlen_byte_count str_size) (s ++ (str_back ++ rest)) ≡ rest
  unfolding str_back
  str_skip rest = rw (← append_assoc s str_back rest) (
      drop_all _ (s ++ str_back) rest
        (omega (arith, length-append s str_back, length-get_backlen_bytes str_size)))

  str_length :
      length ((c.tag ∷ (c.header ++ s)) ++ str_back) ≡ str_size + get_backlen_byte_count str_size
  unfolding str_back
  str_length = omega (
    arith,
    length-append (c.header ++ s) str_back,
    length-append c.header s,
    length-get_backlen_bytes str_size,
  )

  str_count :
      (rest : Bytes)
      → value_byte_count c.tag
          (((c.header ++ s) ++ str_back) ++ rest)
          (c.tag_b, length c.header, false)
        ≡ ok str_size
  unfolding value_byte_count str_size
  str_count rest =
      rw (str_behind rest, read_bytes-append c.header (s ++ (str_back ++ rest)), ◌>>=◌) (rw c.value)

  pub str-Decodes : Decodes s (entry ++ get_backlen_bytes (length entry))
  unfolding read_entry read_decoded read_str entry_byte_count entry_text text_decoded str_back
  str-Decodes =
      let size : length entry ≡ str_size =
        ap length c.shape ∙ omega (arith, length-append c.header s) in
      rw (size, c.shape)
        (record {
          tag = c.tag;
          after = (c.header ++ s) ++ str_back;
          shape = refl;
          not_end = c.not_end;
          skip = λ again rest k m.
              rw
                (
                  read_entry,
                  c.decoded,
                  str_behind rest,
                  read_bytes-append c.header (s ++ (str_back ++ rest)),
                  ◌>>=◌,
                )
                (rw c.value (ap (λ (t : Bytes). again t k m) (str_skip rest)));
          take_one = λ again rest m.
              rw
                (
                  read_entry,
                  c.decoded,
                  str_behind rest,
                  read_bytes-append c.header (s ++ (str_back ++ rest)),
                  ◌>>=◌,
                )
                (rw (c.value, read_bytes-append s (str_back ++ rest))
                  (rw (drop_backlen str_size rest)));
          byte_count = λ rest.
              ap
                (λ (d : ℕ × ℕ × Bool).
                  value_byte_count c.tag (((c.header ++ s) ++ str_back) ++ rest) d >>= λ n.
                  ok (n + get_backlen_byte_count n))
                c.decoded
              ∙ ap (λ (r : Run ℕ). r >>= λ n. ok (n + get_backlen_byte_count n)) (str_count rest)
              ∙ ap ok (sym str_length);
          popped = λ rest.
              rw
                (
                  entry_text,
                  c.decoded,
                  str_behind rest,
                  read_bytes-append c.header (s ++ (str_back ++ rest)),
                )
                (rw (c.value, read_bytes-append s (str_back ++ rest)));
        })
