-- ===== src/Strconv/RoundTrip.antt =====
-- Parsing what the format functions print.
use shitty_redis.Base.{
  ℕ, zero, suc, ◌+◌, ◌*◌, ◌/◌, ◌%◌, ◌^◌, ◌≤◌, ◌<◌, ◌≡◌, refl, [], ◌∷◌, some, none, arith, ap, ◌∙◌,
  ltb, Bool-cases, inl, inr, Option,
}
use shitty_redis.Base.Go.{Bytes}
use shitty_redis.Base.Int.{ℤ, pos, negsuc, IsInt64}
use shitty_redis.Strconv.{
  parse_digits, parse_number, below, parse_uint, positive, negative, parse_int, decimal,
  format_uint, format_int,
}

parse_digits-digit :
    (acc d : ℕ) (out : Bytes)
    → d < 10
    → parse_digits acc ((48 + d) ∷ out) ≡ parse_digits (acc * 10 + d) out
unfolding parse_digits
parse_digits-digit acc d out h = ground arith

parse_digits-decimal :
    (k n : ℕ) (out : Bytes) → n < 10 ^ suc k → parse_digits 0 (decimal k n out) ≡ parse_digits n out
unfolding decimal
parse_digits-decimal zero n out h = ground (arith, parse_digits-digit 0 n out)
parse_digits-decimal (suc k) n out h = ground (
  arith,
  parse_digits-digit 0 n out,
  parse_digits-digit (n / 10) (n % 10) out,
  parse_digits-decimal k (n / 10) ((48 + n % 10) ∷ out) (omega arith),
)

-- The first byte is a digit.
pub decimal_head :
    (k n : ℕ) (out : Bytes)
    → n < 10 ^ suc k
    → (c : ℕ) × (cs : Bytes) × (decimal k n out ≡ c ∷ cs) × (48 ≤ c) × (c ≤ 57)
unfolding decimal
decimal_head zero n out h = (48 + n, out, refl, omega arith, omega arith)
decimal_head (suc k) n out h = elim (Bool-cases (ltb n 10)) [
  | inl e ↦ (48 + n, out, ground arith, ground arith, ground arith)
  | inr e ↦
      let (c, cs, p, lo, hi) = decimal_head k (n / 10) ((48 + n % 10) ∷ out) (omega arith) in
      (c, cs, ground arith, lo, hi)
]

format_uint_head :
    (n : ℕ) → n < 2 ^ 64 → (c : ℕ) × (cs : Bytes) × (format_uint n ≡ c ∷ cs) × (48 ≤ c) × (c ≤ 57)
unfolding format_uint
format_uint_head n h = decimal_head 19 n [] (omega arith)

pub parse_number-format_uint : (n : ℕ) → n < 2 ^ 64 → parse_number (format_uint n) ≡ some n
unfolding format_uint parse_number
parse_number-format_uint n h =
    let (c, cs, p, lo, hi) = format_uint_head n h in
    let q : parse_digits 0 (format_uint n) ≡ some n =
      parse_digits-decimal 19 n [] (omega arith) ∙ unfold parse_digits in refl in
    rw p (rw p at q)

pub parse_uint-format_uint : (n : ℕ) → n < 2 ^ 64 → parse_uint (format_uint n) ≡ some n
unfolding parse_uint below
parse_uint-format_uint n h = ground (arith, parse_number-format_uint n)

parse_int-number :
    (c : ℕ) (cs : Bytes) → 48 ≤ c → parse_int (c ∷ cs) ≡ positive (parse_number (c ∷ cs))
unfolding parse_int
parse_int-number c cs h = ground arith

pub parse_int-format_uint : (n : ℕ) → n < 2 ^ 64 → parse_int (format_uint n) ≡ positive (some n)
parse_int-format_uint n h =
    let (c, cs, p, lo, hi) = format_uint_head n h in
    let q = parse_number-format_uint n h in
    rw p (parse_int-number c cs lo ∙ ap positive (rw p at q))

parse_int-minus : (cs : Bytes) → parse_int (b'-' ∷ cs) ≡ negative (parse_number cs)
unfolding parse_int
parse_int-minus cs = refl

-- Every int64 reads back from its decimal form.
pub parse_int-format_int : (v : ℤ) → IsInt64 v → parse_int (format_int v) ≡ some v
unfolding format_int positive negative
parse_int-format_int (pos n) h = parse_int-format_uint n (omega arith) ∙ ground arith
parse_int-format_int (negsuc n) h =
    parse_int-minus _ ∙ ap negative (parse_number-format_uint (n + 1) (omega arith)) ∙ ground arith

positive-IsInt64 : (o : Option ℕ) (v : ℤ) → positive o ≡ some v → IsInt64 v
unfolding positive
positive-IsInt64 none v e = cc
positive-IsInt64 (some n) v e = ground arith

negative-IsInt64 : (o : Option ℕ) (v : ℤ) → negative o ≡ some v → IsInt64 v
unfolding negative
negative-IsInt64 none v e = cc
negative-IsInt64 (some zero) v e = ground arith
negative-IsInt64 (some (suc n)) v e = ground arith

-- What parses is in range.
pub parse_int-IsInt64 : (s : Bytes) (v : ℤ) → parse_int s ≡ some v → IsInt64 v
unfolding parse_int
parse_int-IsInt64 [] v e = cc
parse_int-IsInt64 (c ∷ cs) v e = ground (
  arith,
  negative-IsInt64 (parse_number cs) v,
  positive-IsInt64 (parse_number cs) v,
  positive-IsInt64 (parse_number (c ∷ cs)) v,
)
