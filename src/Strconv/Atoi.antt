-- ===== src/Strconv/Atoi.antt =====
-- `Atoi` on texts that `ParseInt` takes.
use shitty_redis.Base.{
  ℕ, ◌+◌, ◌-◌, ◌*◌, ◌^◌, ◌≤◌, ◌<◌, ◌≡◌, [], ◌∷◌, some, arith, inl, inr, Option-cases,
}
use shitty_redis.Base.Go.{Bytes}
use shitty_redis.Base.Int.{ℤ}
use shitty_redis.Strconv.{
  parse_digits, parse_number, parse_int, positive, negative, scan_digits, scan_number,
  nearest_positive, nearest_negative, atoi_value,
}

parse_digits-le : (acc : ℕ) (s : Bytes) (n : ℕ) → parse_digits acc s ≡ some n → acc ≤ n
unfolding parse_digits
parse_digits-le acc [] n e = ground arith
parse_digits-le acc (c ∷ cs) n e = ground (arith, parse_digits-le (acc * 10 + (c - 48)) cs n)

scan_digits-parse_digits :
    (acc : ℕ) (s : Bytes) (n : ℕ)
    → parse_digits acc s ≡ some n
    → n < 2 ^ 64
    → scan_digits acc s ≡ some n
unfolding parse_digits scan_digits
scan_digits-parse_digits acc [] n e h = e
scan_digits-parse_digits acc (c ∷ cs) n e h =
    let next = acc * 10 + (c - 48) in
    ground (arith, scan_digits-parse_digits next cs n, parse_digits-le next cs n)

scan_number-parse_number :
    (s : Bytes) (n : ℕ) → parse_number s ≡ some n → n < 2 ^ 64 → scan_number s ≡ some n
unfolding parse_number scan_number
scan_number-parse_number [] n e h = cc
scan_number-parse_number (c ∷ cs) n e h = scan_digits-parse_digits 0 (c ∷ cs) n e h

nearest_positive-positive :
    (s : Bytes) (v : ℤ) → positive (parse_number s) ≡ some v → nearest_positive (scan_number s) ≡ v
unfolding positive nearest_positive
nearest_positive-positive s v e = elim (Option-cases (parse_number s)) [
  | inl p ↦ ground arith
  | inr (n, p) ↦ ground (arith, scan_number-parse_number s n)
]

nearest_negative-negative :
    (s : Bytes) (v : ℤ) → negative (parse_number s) ≡ some v → nearest_negative (scan_number s) ≡ v
unfolding negative nearest_negative
nearest_negative-negative s v e = elim (Option-cases (parse_number s)) [
  | inl p ↦ ground arith
  | inr (n, p) ↦ ground (arith, scan_number-parse_number s n)
]

-- `Atoi` of a text that `ParseInt` takes is the number.
pub atoi_value-parse_int : (s : Bytes) (v : ℤ) → parse_int s ≡ some v → atoi_value s ≡ v
unfolding parse_int atoi_value
atoi_value-parse_int [] v e = cc
atoi_value-parse_int (c ∷ cs) v e = ground (
  arith,
  nearest_negative-negative cs v,
  nearest_positive-positive cs v,
  nearest_positive-positive (c ∷ cs) v,
)
