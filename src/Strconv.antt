-- ===== src/Strconv.antt =====
-- Go's strconv at base 10, as the program calls it: `ParseInt`, `ParseUint` and `Atoi` at 64 bits,
-- and `FormatInt`, `FormatUint` and `Itoa`. The kind of an error is not told apart.
pub mod RoundTrip
pub mod Atoi
use shitty_redis.Base.{
  ℕ, zero, suc, ◌+◌, ◌-◌, ◌*◌, ◌/◌, ◌%◌, ◌^◌, Bool, true, false, ◌&&◌, List, [], ◌∷◌, Option, none,
  some, ltb, leb, ◌==◌, if◌then◌else◌,
}
use shitty_redis.Base.Go.{Bytes}
use shitty_redis.Base.Int.{ℤ, pos, negsuc}

abbrev pub is_digit : ℕ → Bool
is_digit c = leb 48 c && leb c 57

-- The value of a run of decimal digits behind the value `acc`.
unfoldable pub parse_digits : ℕ → Bytes → Option ℕ
parse_digits acc [] = some acc
parse_digits acc (c ∷ cs) =
    let rest = parse_digits (acc * 10 + (c - 48)) cs in if is_digit c then rest else none

-- At least one digit.
unfoldable pub parse_number : Bytes → Option ℕ
parse_number [] = none
parse_number (c ∷ cs) = parse_digits 0 (c ∷ cs)

unfoldable pub below : ℕ → Option ℕ → Option ℕ
below m none = none
below m (some n) = if ltb n m then some n else none

unfoldable pub parse_uint : Bytes → Option ℕ
parse_uint s = below (2 ^ 64) (parse_number s)

unfoldable pub positive : Option ℕ → Option ℤ
positive none = none
positive (some n) = if ltb n (2 ^ 63) then some (pos n) else none

unfoldable pub negative : Option ℕ → Option ℤ
negative none = none
negative (some zero) = some (pos 0)
negative (some (suc n)) = if ltb n (2 ^ 63) then some (negsuc n) else none

-- One `+` or `-` may stand in front.
unfoldable pub parse_int : Bytes → Option ℤ
parse_int [] = none
parse_int (c ∷ cs) =
    if c == b'-'
    then negative (parse_number cs)
    else if c == b'+'
    then positive (parse_number cs)
    else positive (parse_number (c ∷ cs))

-- The digits of `n` in front of `out`, lowest first as `formatBits` writes them, at most `k + 1`.
unfoldable pub decimal : ℕ → ℕ → Bytes → Bytes
decimal zero n out = (48 + n) ∷ out
decimal (suc k) n out =
    let rest = decimal k (n / 10) ((48 + n % 10) ∷ out) in if ltb n 10 then (48 + n) ∷ out else rest

-- Twenty digits hold every uint64.
unfoldable pub format_uint : ℕ → Bytes
format_uint n = decimal 19 n []

unfoldable pub format_int : ℤ → Bytes
format_int (pos n) = format_uint n
format_int (negsuc n) = b'-' ∷ format_uint (n + 1)

-- The number that `Atoi` returns beside its error: 0 for a text that is no number, and the nearest
-- int64 for one out of range, which is found as soon as the digits pass 2 ^ 64.
unfoldable pub scan_digits : ℕ → Bytes → Option ℕ
scan_digits acc [] = some acc
scan_digits acc (c ∷ cs) =
    let n = acc * 10 + (c - 48) in
    let rest = scan_digits n cs in
    if is_digit c then if ltb n (2 ^ 64) then rest else some (2 ^ 64 - 1) else none

unfoldable pub scan_number : Bytes → Option ℕ
scan_number [] = none
scan_number (c ∷ cs) = scan_digits 0 (c ∷ cs)

unfoldable pub nearest_positive : Option ℕ → ℤ
nearest_positive none = pos 0
nearest_positive (some n) = if ltb n (2 ^ 63) then pos n else pos (2 ^ 63 - 1)

unfoldable pub nearest_negative : Option ℕ → ℤ
nearest_negative none = pos 0
nearest_negative (some zero) = pos 0
nearest_negative (some (suc n)) = if ltb n (2 ^ 63) then negsuc n else negsuc (2 ^ 63 - 1)

unfoldable pub atoi_value : Bytes → ℤ
atoi_value [] = pos 0
atoi_value (c ∷ cs) =
    if c == b'-'
    then nearest_negative (scan_number cs)
    else if c == b'+'
    then nearest_positive (scan_number cs)
    else nearest_positive (scan_number (c ∷ cs))
