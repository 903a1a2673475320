-- ===== src/Tests/Lists.antt =====
-- The quicklist's theorems on small lists.
use shitty_redis.Base.{ℕ, ◌≡◌, ◌≢◌, refl, inl, ap, some, List, [], ◌∷◌, ◌++◌, arith, length, map}
use mathlib.Core.List.{reverse}
use shitty_redis.Base.Go.{Bytes, ok, panic, ◌>>=◌, Returns}
use shitty_redis.Base.Int.{pos, negsuc}
use shitty_redis.Strconv.{
  parse_int, format_int, parse_digits, parse_number, below, positive, format_uint, decimal,
}
use shitty_redis.Listpack.Contents.Sizes.{length-get_entry}
use shitty_redis.Listpack.Codec.{stored}
use shitty_redis.Quicklist.Ops.{new, rpush, lpush, lrange, lpop}
use shitty_redis.Quicklist.Models.{Models, Storable}
use shitty_redis.Quicklist.Rpush.{rpush-Models}
use shitty_redis.Quicklist.Lpush.{lpush-Models}
use shitty_redis.Quicklist.Lrange.{range, lrange-range}
use shitty_redis.Quicklist.Lpop.{Popped, lpop-Popped}
use shitty_redis.Quicklist.Panics.{rpush_panics}
use shitty_redis.Quicklist.RoundTrip.{lrange-rpush_rewritten}
use shitty_redis.Tests.Samples.{
  word, number, word-Storable, number-Storable, two_listed, two_listed-Models,
}
use shitty_redis.Tests.Large.{large, large-Unstorable}

abbrev two_items : List Bytes
two_items = word ∷ number ∷ []

rpush-Models_example : Returns (rpush (word ∷ []) two_listed) (Models (two_items ++ (word ∷ [])))
rpush-Models_example =
    rpush-Models two_items (word ∷ []) two_listed two_listed-Models (word-Storable, tt)
      (omega arith)

lpush-Models_example :
    Returns (lpush two_items two_listed) (Models (reverse two_items ++ two_items))
lpush-Models_example =
    lpush-Models two_items two_items two_listed two_listed-Models
      (word-Storable, (number-Storable, tt)) (omega arith)

lrange-range_example :
    lrange (negsuc 0) (pos 7) two_listed ≡ ok (range (negsuc 0) (pos 7) (map stored two_items))
lrange-range_example = lrange-range (negsuc 0) (pos 7) two_items two_listed two_listed-Models

lpop-Popped_example : Returns (lpop (pos 1) two_listed) (Popped 1 two_items)
lpop-Popped_example = lpop-Popped (pos 1) two_items two_listed two_listed-Models

abbrev padded : Bytes
padded = b'0' ∷ b'0' ∷ b'7' ∷ []

padded-Storable : Storable padded
padded-Storable = (omega arith, inl (omega (arith, length-get_entry padded)))

padded_number : parse_int padded ≡ some (pos 7)
unfolding parse_int parse_digits parse_number below positive
padded_number = refl

padded_rewritten : padded ≢ format_int (pos 7)
unfolding format_int format_uint decimal
padded_rewritten e = let l : ◌≡◌ {A = ℕ} 3 1 = ap length e in omega arith

lrange-rpush_rewritten_example :
    ((rpush (padded ∷ []) new >>= lrange (pos 0) (negsuc 0)) ≡ ok (format_int (pos 7) ∷ []))
    × (format_int (pos 7) ∷ [] ≢ padded ∷ [])
lrange-rpush_rewritten_example =
    lrange-rpush_rewritten padded (pos 7) padded-Storable padded_number padded_rewritten

rpush_panics_example : rpush (two_items ++ (large ∷ [])) two_listed ≡ panic
rpush_panics_example =
    rpush_panics large large-Unstorable two_items two_items [] two_listed two_listed-Models
      (word-Storable, (number-Storable, tt))
