-- ===== src/Radix/Ops.antt =====
-- The operations of app/structures/radix (radix.go, utils.go). A map has each key once, so the
-- greatest and the least key are found along the association list in place of sorting the keys.
use shitty_redis.Base.{
  ℕ, suc, Bool, true, false, ◌&&◌, [], ◌∷◌, Option, none, some, ◌==◌, ltb, if◌then◌else◌, get_elem?,
  length, take, drop,
}
use shitty_redis.Base.Go.{Bytes, Run, ok, panic, ◌>>=◌, or_panic}
use shitty_redis.Radix.Tree.{Rax, Kids, node, nil, cons}

unfoldable pub lcp : Bytes → Bytes → ℕ
lcp [] b = 0
lcp (x ∷ a) [] = 0
lcp (x ∷ a) (y ∷ b) = let more = lcp a b in if x == y then suc more else 0

unfoldable pub has_prefix : Bytes → Bytes → Bool
has_prefix [] id = true
has_prefix (x ∷ p) [] = false
has_prefix (x ∷ p) (y ∷ id) = x == y && has_prefix p id

module _ {ℓ} {V : Type ℓ} where
  unfoldable pub new : Bytes → Option V → Rax V
  new prefix value = node prefix value nil

  unfoldable pub is_empty : Rax V → Bool
  is_empty (node prefix value nil) = true
  is_empty (node prefix value (cons b child kids)) = false

  -- The switch of `Insert`: `m` bytes are shared, `deeper` are the children behind the next round.
  unfoldable pub place : Bytes → V → Bytes → Option V → Kids V → ℕ → Run (Kids V) → Run (Rax V)
  place id value prefix old kids m deeper =
      if m == length prefix && m == length id
      then ok (node prefix (some value) kids)
      else if m == length prefix && ltb m (length id)
      then (do kids' ← deeper; ok (node prefix old kids'))
      else if ltb m (length prefix) && m == length id
      then (do
        nb ← or_panic (get_elem? prefix m)
        ok (node (take m id) (some value) (cons nb (node (drop m prefix) old kids) nil)))
      else do
        pnb ← or_panic (get_elem? prefix m)
        inb ← or_panic (get_elem? id m)
        ok (
            node (take m id) none (
              cons pnb (node (drop m prefix) old kids)
                (cons inb (new (drop m id) (some value)) nil)))

  unfoldable mutual
    -- A round of the loop of `Insert`, below the node `prev` with these children.
    pub insert_kid : Bytes → V → Kids V → Run (Kids V)
    insert_kid [] value kids = panic
    insert_kid (fb ∷ id) value nil = ok (cons fb (new (fb ∷ id) (some value)) nil)
    insert_kid (fb ∷ id) value (cons b cur kids) =
        let here = insert_cur (fb ∷ id) value cur in
        let there = insert_kid (fb ∷ id) value kids in
        if fb == b
        then (do cur' ← here; ok (cons b cur' kids))
        else do kids' ← there; ok (cons b cur kids')

    pub insert_cur : Bytes → V → Rax V → Run (Rax V)
    insert_cur id value (node prefix old kids) =
        let m = lcp id prefix in
        let deeper = insert_kid (drop m id) value kids in place id value prefix old kids m deeper

  unfoldable pub insert : Bytes → V → Rax V → Run (Rax V)
  insert id value (node prefix old kids) = do
    kids' ← insert_kid id value kids
    ok (node prefix old kids')

  unfoldable pub at_end : Bytes → Option V → Option V → Option V
  at_end [] value deeper = value
  at_end (fb ∷ id) value deeper = deeper

  unfoldable mutual
    -- A round of the loop of `Get`, below the node `cur` with these children.
    pub get_kid : Bytes → Kids V → Option V
    get_kid [] kids = none
    get_kid (fb ∷ id) nil = none
    get_kid (fb ∷ id) (cons b next kids) =
        let here = get_next (fb ∷ id) next in
        let there = get_kid (fb ∷ id) kids in if fb == b then here else there

    pub get_next : Bytes → Rax V → Option V
    get_next id (node prefix value kids) =
        let rest = drop (length prefix) id in
        let deeper = get_kid rest kids in
        if has_prefix prefix id then at_end rest value deeper else none

  unfoldable pub get : Bytes → Rax V → Option V
  get id (node prefix value kids) = at_end id value (get_kid id kids)

  -- `HasValue`, or what the child of the chosen key gives; no child gives nil.
  unfoldable pub value_or : Option V → Option (ℕ × Option V) → Option V
  value_or (some v) best = some v
  value_or none none = none
  value_or none (some (key, below)) = below

  -- Of two keys the one that `before` puts first.
  unfoldable pub better :
      (ℕ → ℕ → Bool) → ℕ → Option V → Option (ℕ × Option V) → Option (ℕ × Option V)
  better before b below none = some (b, below)
  better before b below (some (key, other)) =
      if before b key then some (b, below) else some (key, other)

  unfoldable mutual
    pub get_best : (ℕ → ℕ → Bool) → Rax V → Option V
    get_best before (node prefix value kids) = value_or value (best_kid before kids)

    pub best_kid : (ℕ → ℕ → Bool) → Kids V → Option (ℕ × Option V)
    best_kid before nil = none
    best_kid before (cons b child kids) =
        better before b (get_best before child) (best_kid before kids)

  unfoldable pub get_max : Rax V → Option V
  get_max r = get_best (λ a b. ltb b a) r

  unfoldable pub get_min : Rax V → Option V
  get_min r = get_best ltb r
