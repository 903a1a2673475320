-- ===== src/Resp/Decode.antt =====
-- `RESPDecoder` (app/resp/resp.go) on any input, and the byte count that it reports.
use shitty_redis.Base.{
  ℕ, zero, suc, ◌+◌, ◌≡◌, refl, inl, inr, Bool, true, false, List, [], ◌∷◌, arith, length, ◌==◌,
  Bool-cases,
}
use shitty_redis.Base.Go.{Bytes, Run, ok, err, panic, stuck, ◌>>=◌}
use shitty_redis.Base.Int.{ℤ, pos, negsuc, pos_part}
use shitty_redis.Resp.Wire.{
  read_string, read_full, header_number, trim_space, read_bulk, decode_loop, resp_decoder,
}

-- Inversion of a successful bind.
bind_ok {ℓ κ} :
    {A : Type ℓ} {B : Type κ} (m : Run A) (f : A → Run B) {b : B}
    → (m >>= f) ≡ ok b
    → (a : A) × (m ≡ ok a) × (f a ≡ ok b)
bind_ok (ok a) f h = (a, refl, h)
bind_ok err f h = cc
bind_ok panic f h = cc
bind_ok stuck f h = cc

length-read_string :
    (bs : Bytes) (r : Bytes × Bytes) → read_string bs ≡ ok r → length r.0 + length r.1 ≡ length bs
unfolding read_string
length-read_string [] r e = cc
length-read_string (c ∷ cs) r e = elim (Bool-cases (c == 10)) [
  | inl t ↦ ground arith
  | inr t ↦
      let (x, p, q) = bind_ok (read_string cs) _ (rw t at e) in
      ground (arith, length-read_string cs x p)
]

length-read_full :
    (n : ℕ) (bs : Bytes) (r : Bytes × Bytes)
    → read_full n bs ≡ ok r
    → (length r.0 ≡ n) × (n + length r.1 ≡ length bs)
unfolding read_full
length-read_full zero bs r e = ground arith
length-read_full (suc n) [] r e = cc
length-read_full (suc n) (b ∷ bs) r e =
    let (x, p, q) = bind_ok (read_full n bs) _ e in ground (arith, length-read_full n bs x p)

-- `c` bytes have been counted and `bs` is left to read.
abbrev Balanced : ℕ → Bytes → Bytes × List Bytes × ℕ × Bytes → Type 0
Balanced c bs r = r.2 + length r.3 ≡ c + length bs

read_bulk-Balanced :
    (first : Bool) (base : Bytes) (args : List Bytes) (count : ℕ) (bs : Bytes) (len : ℤ)
    (r : Bytes × List Bytes × ℕ × Bytes)
    → read_bulk first base args count bs len ≡ ok r
    → Balanced count bs r
unfolding read_bulk
read_bulk-Balanced first base args count bs (pos len) r e =
    let (x, p, q) = bind_ok (read_full len bs) _ e in
    let (y, p', q') = bind_ok (read_full 2 x.1) _ q in
    elim (Bool-cases first) [
      | inl t ↦ ground (arith, t, length-read_full len bs x p, length-read_full 2 x.1 y p')
      | inr t ↦ ground (arith, t, length-read_full len bs x p, length-read_full 2 x.1 y p')
    ]
read_bulk-Balanced first base args count bs (negsuc zero) r e = ground arith
read_bulk-Balanced first base args count bs (negsuc (suc n)) r e = cc

decode_loop-Balanced :
    (n : ℕ) (first : Bool) (base : Bytes) (args : List Bytes) (count : ℕ) (bs : Bytes)
    (r : Bytes × List Bytes × ℕ × Bytes)
    → decode_loop n first base args count bs ≡ ok r
    → Balanced count bs r
unfolding decode_loop
decode_loop-Balanced zero first base args count bs r e = ground arith
decode_loop-Balanced (suc n) first base args count bs r e =
    let (x, p, q) = bind_ok (read_string bs) _ e in
    let (len, p', q') = bind_ok (header_number b'$' (trim_space x.0)) _ q in
    let (y, p'', q'') = bind_ok (read_bulk first base args (count + length x.0) x.1 len) _ q' in
    omega (
      arith,
      length-read_string bs x p,
      read_bulk-Balanced first base args (count + length x.0) x.1 len y p'',
      decode_loop-Balanced n false y.0 y.1 y.2 y.3 r q'',
    )

-- When the decoder returns a command, the byte count that it reports is the number of bytes that
-- it took from the reader.
pub resp_decoder_count :
    (bs base : Bytes) (args : List Bytes) (count : ℕ) (rest : Bytes)
    → resp_decoder bs ≡ ok (base, args, count, rest)
    → count + length rest ≡ length bs
unfolding resp_decoder
resp_decoder_count bs base args count rest e =
    let (x, p, q) = bind_ok (read_string bs) _ e in
    let (n, p', q') = bind_ok (header_number b'*' (trim_space x.0)) _ q in
    let ((b, a, c, r), p'', q'') =
      bind_ok (decode_loop (pos_part n) true [] [] (length x.0) x.1) _ q' in
    ground (
      arith,
      q'',
      length-read_string bs x p,
      decode_loop-Balanced (pos_part n) true [] [] (length x.0) x.1 (b, a, c, r) p'',
    )
