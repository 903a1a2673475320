-- ===== src/Radix/Search.antt =====
-- `FindPredRax` and `FindSucRax` (app/structures/radix/radix.go), which mirror each other.
-- `before a b`: the search wants `a` rather than `b`, the greater key for the predecessor and the
-- smaller for the successor.
use shitty_redis.Base.{
  ℕ, Bool, true, false, [], ◌∷◌, Option, none, some, ◌==◌, ltb, if◌then◌else◌, length, take, drop,
}
use shitty_redis.Base.Go.{Bytes, Run, ok, panic, stuck, ◌>>=◌}
use shitty_redis.Radix.Tree.{Rax, Kids, node, nil, cons}
use shitty_redis.Radix.Ops.{value_or, better, get_best, best_kid}

-- `bytes.Compare` of two slices of one length: equal, or whether the first is on the wanted side.
unfoldable pub compare : (ℕ → ℕ → Bool) → Bytes → Bytes → Option Bool
compare before [] id = none
compare before (x ∷ p) [] = none
compare before (x ∷ p) (y ∷ id) =
    let more = compare before p id in if x == y then more else some (before y x)

module _ {ℓ} {V : Type ℓ} (before : ℕ → ℕ → Bool) where
  -- `Predecessor` or `Successor` of a key, with the listpack at the end of that child.
  unfoldable pub best_behind : ℕ → Kids V → Option (ℕ × Option V)
  best_behind fb nil = none
  best_behind fb (cons b child kids) =
      let rest = best_behind fb kids in
      if before fb b then better before b (get_best before child) rest else rest

  -- What the child at the first byte gives; nothing, and the search goes on beside it.
  unfoldable pub beside : ℕ → Kids V → Option (Option V) → Run (Option V)
  beside fb kids none = ok (value_or none (best_behind fb kids))
  beside fb kids (some found) = ok found

  unfoldable pub as_found : Option V → Option (Option V)
  as_found none = none
  as_found (some v) = some (some v)

  -- The switch on the comparison. `id[:prefLen]` past the end of an id, which keys of one length do
  -- not lead to, is not modelled.
  unfoldable pub compared :
      Bytes → Bytes → Option V → Option V → Run (Option V) → Option Bool → Run (Option (Option V))
  compared prefix id value best deeper none =
      if length prefix == length id then ok (some value) else do b ← deeper; ok (as_found b)
  compared prefix id value best deeper (some true) = ok (some best)
  compared prefix id value best deeper (some false) = ok none

  unfoldable mutual
    pub find_kids : Bytes → Kids V → Run (Option V)
    find_kids id nil = ok none
    find_kids [] (cons b next kids) = panic
    find_kids (fb ∷ id) (cons b next kids) =
        let here = find_next (fb ∷ id) next in
        let there = find_kid fb (fb ∷ id) kids in
        do found ← if fb == b then here else there; beside fb (cons b next kids) found

    pub find_kid : ℕ → Bytes → Kids V → Run (Option (Option V))
    find_kid fb id nil = ok none
    find_kid fb id (cons b next kids) =
        let here = find_next id next in
        let there = find_kid fb id kids in if fb == b then here else there

    pub find_next : Bytes → Rax V → Run (Option (Option V))
    find_next id (node prefix value kids) =
        let deeper = find_kids (drop (length prefix) id) kids in
        if ltb (length id) (length prefix)
        then stuck
        else compared prefix id value (value_or value (best_kid before kids)) deeper
            (compare before prefix (take (length prefix) id))

  unfoldable pub find_near : Bytes → Rax V → Run (Option V)
  find_near id (node prefix value kids) = find_kids id kids

unfoldable pub find_pred {ℓ} : {V : Type ℓ} → Bytes → Rax V → Run (Option V)
find_pred id r = find_near (λ a b. ltb b a) id r

unfoldable pub find_suc {ℓ} : {V : Type ℓ} → Bytes → Rax V → Run (Option V)
find_suc id r = find_near ltb id r
