-- ===== src/Quicklist/RoundTrip.antt =====
-- `RPUSH` and then `LRANGE` (app/structures/list/handlers.go).
use shitty_redis.Base.{
  ◌≤◌, ◌≡◌, ◌≢◌, refl, ◌∙◌, ap, List, [], ◌∷◌, arith, map, length, All, some, take_all,
}
use shitty_redis.Base.Go.{Bytes, ok, ◌>>=◌}
use shitty_redis.Base.Int.{ℤ, pos, negsuc}
use shitty_redis.Strconv.{parse_int, format_int}
use shitty_redis.Listpack.Codec.{stored}
use shitty_redis.Listpack.Stored.{stored_number}
use shitty_redis.Quicklist.Ops.{new, rpush, lrange}
use shitty_redis.Quicklist.Models.{new-Models, Storable}
use shitty_redis.Quicklist.Rpush.{rpush-Models}
use shitty_redis.Quicklist.Lrange.{range, lrange-range}

range_all : (texts : List Bytes) → range (pos 0) (negsuc 0) texts ≡ texts
range_all [] = refl
range_all (t ∷ texts) = take_all _ (t ∷ texts) (omega arith)

-- `RPUSH` of at least one item, all storable, into a new list and then `LRANGE 0 -1` gives the
-- stored text of every item, in order.
pub lrange-rpush :
    (items : List Bytes)
    → All Storable items
    → 1 ≤ length items
    → (rpush items new >>= lrange (pos 0) (negsuc 0)) ≡ ok (map stored items)
lrange-rpush items st l =
    let (q, run, m) = rpush-Models [] items new new-Models st l in
    rw run (lrange-range (pos 0) (negsuc 0) items q m ∙ ap ok (range_all (map stored items)))

-- A storable item that reads as an int64, and is not written as Go prints that number, comes back
-- from `RPUSH` into a new list and `LRANGE 0 -1` as Go prints it, which is not the item.
pub lrange-rpush_rewritten :
    (item : Bytes) (v : ℤ)
    → Storable item
    → parse_int item ≡ some v
    → item ≢ format_int v
    → ((rpush (item ∷ []) new >>= lrange (pos 0) (negsuc 0)) ≡ ok (format_int v ∷ []))
      × (format_int v ∷ [] ≢ item ∷ [])
lrange-rpush_rewritten item v st e ne = (
  lrange-rpush (item ∷ []) (st, tt) (omega arith)
      ∙ ap (λ (t : Bytes). ok (t ∷ [])) (stored_number item v e),
  λ same. ne (cc),
)
