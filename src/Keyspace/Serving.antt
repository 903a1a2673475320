-- ===== src/Keyspace/Serving.antt =====
-- `handleBLPOPListeners` (app/utils.go) on a list that stands for items.
use shitty_redis.Base.{ℕ, suc, ◌≡◌, refl, false, List, [], ◌∷◌, arith, length, drop}
use Prim.Native.Nat.{min}
use shitty_redis.Base.Go.{Bytes, Returns}
use shitty_redis.Base.Int.{pos}
use shitty_redis.Listpack.Codec.{stored}
use shitty_redis.Quicklist.Ops
use shitty_redis.Quicklist.Ops.{Quicklist, is_zero}
use shitty_redis.Quicklist.Models.{Models}
use shitty_redis.Quicklist.Lpop.{lpop-Popped}
use shitty_redis.Keyspace.Lists.{serve}

-- The waiters, oldest first, with the items that they get.
abbrev pub handed : List ℕ → List Bytes → List (ℕ × Bytes)
handed [] xs = []
handed (ch ∷ chs) [] = []
handed (ch ∷ chs) (x ∷ xs) = (ch, stored x) ∷ handed chs xs

abbrev pub Served : List ℕ → List Bytes → List (ℕ × Bytes) × ℕ × Quicklist → Type 0
Served chs xs r =
    (r.0 ≡ handed chs xs) × (r.1 ≡ min (length chs) (length xs)) × Models (drop (length chs) xs) r.2

pub serve-Served :
    (chs : List ℕ) (xs : List Bytes) (q : Quicklist)
    → Models xs q
    → Returns (serve chs q) (Served chs xs)
unfolding serve
serve-Served [] xs q m = (_, refl, (refl, omega arith, m))
serve-Served (ch ∷ chs) [] q m =
    (([], 0, q), unfold Ops.llen is_zero in rw m.counted refl, (refl, omega arith, m))
serve-Served (ch ∷ chs) (x ∷ xs) q m =
    let ((texts, q'), popped, (same, m')) = lpop-Popped (pos 1) (x ∷ xs) q m in
    let ((sends, pop, q''), served, (a, b, c)) = serve-Served chs xs q' m' in
    let some_left : is_zero (Ops.llen q) ≡ false =
      unfold Ops.llen is_zero in rw m.counted (ground arith) in
    (
      ((ch, stored x) ∷ sends, suc pop, q''),
      rw some_left (rw popped (rw same (rw served refl))),
      (rw a refl, omega (arith, b), c),
    )
