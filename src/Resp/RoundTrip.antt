-- ===== src/Resp/RoundTrip.antt =====
-- `RESPEncoder` and then `RESPDecoder` (app/resp/resp.go).
use shitty_redis.Base.{
  ℕ, zero, suc, ◌+◌, ◌/◌, ◌^◌, ◌≤◌, ◌<◌, ◌≡◌, refl, ◌∙◌, inl, inr, Bool, true, false, List, [], ◌∷◌,
  ◌++◌, arith, length, length-append, append_assoc, append-nil, All, some, ltb, ◌==◌, Bool-cases,
  if◌then◌else◌,
}
use shitty_redis.Base.Go.{Bytes, ok, ◌>>=◌}
use shitty_redis.Base.Int.{pos}
use shitty_redis.Strconv.{parse_int, format_int, format_uint, decimal}
use shitty_redis.Strconv.RoundTrip.{parse_int-format_int}
use shitty_redis.Resp.Wire.{
  read_string, read_full, header_number, is_space, trim_left, trim_onto, trim_right, trim_space,
  or_err, read_bulk, decode_loop, resp_decoder, resp_encoder, texts, bulk_list, bulk_string,
  bulk_strings, list_header, crlf, to_lower,
}

abbrev pub IsDigit : ℕ → Type 0
IsDigit c = (48 ≤ c) × (c ≤ 57)

decimal-IsDigit :
    (k n : ℕ) (out : Bytes) → n < 10 ^ suc k → All IsDigit out → All IsDigit (decimal k n out)
unfolding decimal
decimal-IsDigit zero n out h a = (omega arith, a)
decimal-IsDigit (suc k) n out h a = elim (Bool-cases (ltb n 10)) [
  | inl e ↦ rw e (ground arith, a)
  | inr e ↦ rw e (decimal-IsDigit k (n / 10) _ (omega arith) (omega arith, a))
]

pub format_uint-IsDigit : (n : ℕ) → n < 2 ^ 64 → All IsDigit (format_uint n)
unfolding format_uint
format_uint-IsDigit n h = decimal-IsDigit 19 n [] (omega arith) tt

read_string-digits :
    (ds rest : Bytes) → All IsDigit ds → read_string (ds ++ (crlf ++ rest)) ≡ ok (ds ++ crlf, rest)
unfolding read_string
read_string-digits [] rest h = refl
read_string-digits (d ∷ ds) rest (hd, hs) =
    let not_end : (d == 10) ≡ false = ground arith in rw (not_end, read_string-digits ds rest hs)

trim_right-digits : (ds : Bytes) → All IsDigit ds → trim_right (ds ++ crlf) ≡ ds
unfolding trim_right trim_onto is_space
trim_right-digits [] h = refl
trim_right-digits (d ∷ ds) (hd, hs) = rw (trim_right-digits ds hs) (kept ds)
  where
    kept : (es : Bytes) → trim_onto d es ≡ d ∷ es
    kept [] = ground arith
    kept (e ∷ es) = refl

trim_space-header :
    (m : ℕ) (ds : Bytes)
    → is_space m ≡ false
    → All IsDigit ds
    → trim_space (m ∷ (ds ++ crlf)) ≡ m ∷ ds
unfolding trim_space trim_left trim_right
trim_space-header m ds e h = rw e (rw (trim_right-digits ds h) (kept ds))
  where
    kept : (es : Bytes) → trim_onto m es ≡ m ∷ es
    kept [] = unfold trim_onto in rw e
    kept (x ∷ es) = unfold trim_onto in refl

same_byte : (m : ℕ) → (m == m) ≡ true
same_byte m = ground arith

abbrev header_line : ℕ → ℕ → Bytes
header_line m n = m ∷ (format_uint n ++ crlf)

-- Reading a header line: the marker, the number, the line's end.
module _ (m n : ℕ) (rest : Bytes) (visible : is_space m ≡ false) (h : n < 2 ^ 63) where
  read_string-header :
      (m == 10) ≡ false
      → read_string (m ∷ (format_uint n ++ (crlf ++ rest))) ≡ ok (header_line m n, rest)
  unfolding read_string
  read_string-header e =
      rw (e, read_string-digits (format_uint n) rest (format_uint-IsDigit n (omega arith)))

  header_number-line : header_number m (trim_space (header_line m n)) ≡ ok (pos n)
  unfolding header_number or_err
  header_number-line =
      rw (trim_space-header m (format_uint n) visible (format_uint-IsDigit n (omega arith)))
        (rw (parse_number, same_byte m))
    where
      parse_number : parse_int (format_uint n) ≡ some (pos n)
      parse_number = unfold format_int in parse_int-format_int (pos n) (omega arith)

read_full-append : (xs ys : Bytes) → read_full (length xs) (xs ++ ys) ≡ ok (xs, ys)
unfolding read_full
read_full-append [] ys = refl
read_full-append (x ∷ xs) ys = rw (read_full-append xs ys)

-- A string whose length an int64 holds.
abbrev pub IsText : Bytes → Type 0
IsText v = length v < 2 ^ 63

length-bulk_string :
    (v : Bytes) → length (bulk_string v) ≡ length (header_line b'$' (length v)) + (length v + 2)
unfolding bulk_string
length-bulk_string v = omega (
  arith,
  length-append (format_uint (length v)) (crlf ++ (v ++ crlf)),
  length-append (format_uint (length v)) crlf,
  length-append v crlf,
)

bulk_string-append :
    (v rest : Bytes)
    → bulk_string v ++ rest ≡ b'$' ∷ (format_uint (length v) ++ (crlf ++ (v ++ (crlf ++ rest))))
unfolding bulk_string
bulk_string-append v rest = simp append_assoc

visible_dollar : is_space b'$' ≡ false
unfolding is_space
visible_dollar = refl

visible_star : is_space b'*' ≡ false
unfolding is_space
visible_star = refl

read_bulk-text :
    (first : Bool) (base : Bytes) (args : List Bytes) (count : ℕ) (v rest : Bytes)
    → read_bulk first base args count (v ++ (crlf ++ rest)) (pos (length v))
      ≡ ok (
          if first
          then (v, args, count + (length v + 2), rest)
          else (base, args ++ (v ∷ []), count + (length v + 2), rest))
unfolding read_bulk
read_bulk-text first base args count v rest =
    rw (read_full-append v (crlf ++ rest), ◌>>=◌) (rw (read_full-append crlf rest))

-- One round of the decoder's loop over an encoded string.
module _ (n : ℕ) (base : Bytes) (args : List Bytes) (count : ℕ) (v rest : Bytes)
    (h : IsText v) where
  total :
      count + length (header_line b'$' (length v)) + (length v + 2) ≡ count + length (bulk_string v)
  total = omega (arith, length-bulk_string v)

  round_first :
      decode_loop (suc n) true base args count (bulk_string v ++ rest)
      ≡ decode_loop n false v args (count + length (bulk_string v)) rest
  unfolding decode_loop
  round_first =
      rw
        (
          bulk_string-append v rest,
          read_string-header b'$' (length v) (v ++ (crlf ++ rest)) visible_dollar h refl,
          ◌>>=◌,
          header_number-line b'$' (length v) rest visible_dollar h,
          read_bulk-text true base args (count + length (header_line b'$' (length v))) v rest,
        )
        (rw total)

  round_next :
      decode_loop (suc n) false base args count (bulk_string v ++ rest)
      ≡ decode_loop n false base (args ++ (v ∷ [])) (count + length (bulk_string v)) rest
  unfolding decode_loop
  round_next =
      rw
        (
          bulk_string-append v rest,
          read_string-header b'$' (length v) (v ++ (crlf ++ rest)) visible_dollar h refl,
          ◌>>=◌,
          header_number-line b'$' (length v) rest visible_dollar h,
          read_bulk-text false base args (count + length (header_line b'$' (length v))) v rest,
        )
        (rw total)

decode_loop-bulk_strings :
    (vs : List Bytes) (base : Bytes) (args : List Bytes) (count : ℕ) (rest : Bytes)
    → All IsText vs
    → decode_loop (length vs) false base args count (bulk_strings vs ++ rest)
      ≡ ok (base, args ++ vs, count + length (bulk_strings vs), rest)
unfolding bulk_strings
decode_loop-bulk_strings [] base args count rest h =
    unfold decode_loop in rw append-nil (ground arith)
decode_loop-bulk_strings (v ∷ vs) base args count rest (hv, hs) =
    let sum : count + length (bulk_string v) + length (bulk_strings vs)
        ≡ count + length (bulk_string v ++ bulk_strings vs) =
      omega (arith, length-append (bulk_string v) (bulk_strings vs)) in
    rw (append_assoc (bulk_string v) (bulk_strings vs) rest) (
      round_next (length vs) base args count v (bulk_strings vs ++ rest) hv
      ∙ decode_loop-bulk_strings vs base (args ++ (v ∷ [])) (count + length (bulk_string v)) rest hs
      ∙ rw (append_assoc args (v ∷ []) vs, sum))

-- Reading a whole encoded command.
module _ (base : Bytes) (args : List Bytes) (rest : Bytes) where
  abbrev shown : Bytes
  shown = format_uint (suc (length args)) ++ crlf

  abbrev command_bytes : Bytes
  command_bytes = bulk_string base ++ bulk_strings args

  length-shown :
      length (42 ∷ (shown ++ command_bytes))
      ≡ suc (length shown) + length (bulk_string base) + length (bulk_strings args)
  length-shown = omega (
    arith,
    length-append shown command_bytes,
    length-append (bulk_string base) (bulk_strings args),
  )

  regroup :
      (42 ∷ (shown ++ command_bytes)) ++ rest
      ≡ 42
        ∷ (format_uint (suc (length args))
            ++ (crlf ++ (bulk_string base ++ (bulk_strings args ++ rest))))
  regroup = simp append_assoc

  loop :
      All IsText (base ∷ args)
      → decode_loop
          (suc (length args))
          true
          []
          []
          (suc (length shown))
          (bulk_string base ++ (bulk_strings args ++ rest))
        ≡ ok (base, args, length (42 ∷ (shown ++ command_bytes)), rest)
  loop (hb, ha) =
      round_first (length args) [] [] (suc (length shown)) base (bulk_strings args ++ rest) hb
      ∙ decode_loop-bulk_strings args base [] (suc (length shown) + length (bulk_string base)) rest
          ha
      ∙ rw length-shown refl

  resp_decoder-command :
      All IsText (base ∷ args)
      → suc (length args) < 2 ^ 63
      → resp_decoder ((42 ∷ (shown ++ command_bytes)) ++ rest)
        ≡ ok (to_lower base, args, length (42 ∷ (shown ++ command_bytes)), rest)
  unfolding resp_decoder
  resp_decoder-command ts h =
      rw
        (
          regroup,
          read_string-header b'*' (suc (length args))
              (bulk_string base ++ (bulk_strings args ++ rest)) visible_star h refl,
          ◌>>=◌,
          header_number-line b'*' (suc (length args)) rest visible_star h,
        )
        (rw (loop ts) refl)

-- What the encoder writes for a command and its arguments as a bulk list, all of them and their
-- number below 2 ^ 63, the decoder reads back: the command in lower case, the arguments, the
-- number of bytes written, and whatever follows left to read.
pub resp_decoder-resp_encoder :
    (base : Bytes) (args : List Bytes) (rest : Bytes)
    → All IsText (base ∷ args)
    → length (base ∷ args) < 2 ^ 63
    → (resp_encoder (texts (base ∷ args)) bulk_list >>= λ out. resp_decoder (out ++ rest)) ≡ (
        resp_encoder (texts (base ∷ args)) bulk_list >>= λ out.
        ok (to_lower base, args, length out, rest))
unfolding resp_encoder list_header bulk_strings
resp_decoder-resp_encoder base args rest ts h = resp_decoder-command base args rest ts h
