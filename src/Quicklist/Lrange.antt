-- ===== src/Quicklist/Lrange.antt =====
-- `LRANGE` (app/structures/list/handlers.go) as a slice of a list.
use shitty_redis.Base.{
  ℕ, suc, ◌+◌, ◌-◌, ◌≤◌, ◌<◌, ◌≡◌, refl, sym, ◌⊎◌, inl, inr, ap, ◌∙◌, true, false, List, [], ◌∷◌,
  ◌++◌, arith, map, map-append, take, drop, length, length-map, take-append_sub, drop-append_sub,
  length-drop, take_all, drop_all, take-nil, drop-nil, Bool-cases, ltb, leb, ◌||◌, if◌then◌else◌,
}
use Prim.Native.Nat.{min, max}
use shitty_redis.Base.Go.{Bytes, ok, ◌>>=◌}
use shitty_redis.Base.Int.{ℤ, pos, negsuc, pos_part, ltb_ℤ, ◌+ℤ◌}
use shitty_redis.Listpack.Pack
use shitty_redis.Listpack.Pack.{Listpack}
use shitty_redis.Listpack.Codec.{stored}
use shitty_redis.Listpack.Contents.Sizes.{Holds}
use shitty_redis.Listpack.Contents.Read.{read-Holds}
use shitty_redis.Quicklist.Ops.{Quicklist, normalise, lrange_loop, lrange_from, lrange}
use shitty_redis.Quicklist.Models.{concat, Chain, Models}

-- What the part of a list from index `nL` on gives to a range from `l` to `r`, both included.
abbrev pub slice : ℕ → ℕ → ℕ → List Bytes → List Bytes
slice l r nL texts = take (r + 1 - max nL l) (drop (l - nL) texts)

slice-append :
    (l r nL : ℕ) (xs ys : List Bytes)
    → slice l r nL (xs ++ ys) ≡ slice l r nL xs ++ slice l r (nL + length xs) ys
slice-append l r nL xs ys =
    let n = length xs in
    let a : (r + 1 - max nL l) - length (drop (l - nL) xs) ≡ r + 1 - max (nL + n) l =
      omega (arith, length-drop (l - nL) xs) in
    let b : (l - nL) - n ≡ l - (nL + n) = omega arith in
    rw (
      drop-append_sub (l - nL) xs ys,
      take-append_sub (r + 1 - max nL l) (drop (l - nL) xs) (drop ((l - nL) - n) ys),
      a,
      b,
    )

take_same :
    (m n : ℕ) (xs : List Bytes)
    → (m ≡ n) ⊎ ((length xs ≤ m) × (length xs ≤ n))
    → take m xs ≡ take n xs
take_same m n xs (inl e) = rw e
take_same m n xs (inr (p, q)) = rw (take_all m xs p, take_all n xs q)

-- One node of the loop, with `k` entries.
module _ (l r nL k : ℕ) (c : List Bytes) (node : Listpack) (h : Holds c node)
    (e : k ≡ length c) where
  abbrev texts : List Bytes
  texts = map stored c

  size : length texts ≡ k
  size = length-map stored c ∙ sym e

  outside : leb (nL + k) l || ltb r nL ≡ true → slice l r nL texts ≡ []
  outside t = elim (Bool-cases (leb (nL + k) l)) [
    | inl p ↦ rw (drop_all (l - nL) texts (ground (arith, size))) (rw take-nil)
    | inr p ↦ let none : r + 1 - max nL l ≡ 0 = ground arith in rw none
  ]

  inside :
      leb (nL + k) l || ltb r nL ≡ false
      → take (min (nL + k) (r + 1) - max nL l) (drop (max nL l - nL) texts) ≡ slice l r nL texts
  inside t =
      let start : max nL l - nL ≡ l - nL = omega arith in
      rw start (
        take_same _ _ (drop (l - nL) texts) (elim (Bool-cases (leb (r + 1) (nL + k))) [
          | inl p ↦ inl (ground arith)
          | inr p ↦ inr (
            ground (arith, length-drop (l - nL) texts, size),
            ground (arith, length-drop (l - nL) texts, size),
          )
        ]))

  here :
      (if leb (nL + k) l || ltb r nL
        then ok []
        else Pack.read (max nL l - nL) (min (nL + k) (r + 1) - max nL l) node)
      ≡ ok (slice l r nL texts)
  here = elim (Bool-cases (leb (nL + k) l || ltb r nL)) [
    | inl t ↦ rw t (ap ok (sym (outside t)))
    | inr t ↦ rw t (read-Holds c node _ _ h ∙ ap ok (inside t))
  ]

lrange_loop-slice :
    (l r nL : ℕ) (cs : List (List Bytes)) (nodes : List Listpack)
    → Chain cs nodes
    → lrange_loop l r nL nodes ≡ ok (slice l r nL (map stored (concat cs)))
unfolding lrange_loop
lrange_loop-slice l r nL [] [] h = ap ok (sym ((rw drop-nil (take-nil (r + 1 - max nL l)))))
lrange_loop-slice l r nL [] (n ∷ ns) h = absurd h
lrange_loop-slice l r nL (c ∷ cs) [] h = absurd h
lrange_loop-slice l r nL (c ∷ cs) (node ∷ nodes) (hc, lc, hs) =
    let whole = lrange_loop-slice l r (nL + node.count) cs nodes hs in
    let one : nL + node.count ≡ nL + length (map stored c) =
      omega (arith, hc.counted, length-map stored c) in
    rw (here l r nL node.count c node hc hc.counted, ◌>>=◌)
      (rw (whole, map-append stored c (concat cs))
        (rw (slice-append l r nL (map stored c) (map stored (concat cs)), one)))

-- The index that `LRANGE` makes of its argument in a list of `n`.
abbrev pub index : ℕ → ℤ → ℕ
index n (pos i) = i
index n (negsuc i) = n - suc i

normalise-index : (n : ℕ) (i : ℤ) → normalise (pos n) i ≡ index n i
unfolding normalise ◌+ℤ◌
normalise-index n (pos i) = refl
normalise-index n (negsuc i) = ground arith

-- The items from index `left` to index `right`, both included, negative ones from the end.
abbrev pub range : ℤ → ℤ → List Bytes → List Bytes
range left right texts =
    let n = length texts in take (index n right + 1 - index n left) (drop (index n left) texts)

lrange_from-slice :
    (l r : ℕ) (cs : List (List Bytes)) (nodes : List Listpack)
    → Chain cs nodes
    → 1 ≤ length (concat cs)
    → lrange_from l r nodes ≡ ok (slice l r 0 (map stored (concat cs)))
unfolding lrange_from
lrange_from-slice l r [] nodes h full = absurd (omega arith)
lrange_from-slice l r (c ∷ cs) [] h full = absurd h
lrange_from-slice l r (c ∷ cs) (n ∷ ns) h full = lrange_loop-slice l r 0 (c ∷ cs) (n ∷ ns) h

-- Cutting the end of the range at the last index changes nothing.
slice_to_end :
    (l r n : ℕ) (texts : List Bytes)
    → length texts ≡ n
    → l < n
    → slice l (min (n - 1) r) 0 texts ≡ take (r + 1 - l) (drop l texts)
slice_to_end l r n texts size lt =
    let start : l - 0 ≡ l = omega arith in
    rw start (
      take_same _ _ (drop l texts) (elim (Bool-cases (ltb r n)) [
        | inl p ↦ inl (ground arith)
        | inr p ↦ inr (ground (arith, length-drop l texts), ground (arith, length-drop l texts))
      ]))

out_of_range :
    (l r n : ℕ) (texts : List Bytes)
    → length texts ≡ n
    → (ltb r l || ltb_ℤ (pos n +ℤ negsuc 0) (pos l)) ≡ true
    → take (r + 1 - l) (drop l texts) ≡ []
unfolding ◌+ℤ◌
out_of_range l r n texts size t = elim (Bool-cases (ltb r l)) [
  | inl p ↦ let none : r + 1 - l ≡ 0 = ground arith in rw none
  | inr p ↦ rw (drop_all l texts (ground arith)) (take-nil (r + 1 - l))
]

in_range :
    (l r n : ℕ)
    → (ltb r l || ltb_ℤ (pos n +ℤ negsuc 0) (pos l)) ≡ false
    → (l < n) × (pos_part (pos n +ℤ negsuc 0) ≡ n - 1)
unfolding ◌+ℤ◌
in_range l r n t = ground arith

-- `LRANGE` on a quicklist that stands for `xs` returns normally with the stored texts of `xs`
-- from the left to the right index, both included, negative ones counted from the end.
pub lrange-range :
    (left right : ℤ) (xs : List Bytes) (q : Quicklist)
    → Models xs q
    → lrange left right q ≡ ok (range left right (map stored xs))
unfolding lrange
lrange-range left right xs q m =
    let n = length xs in
    let size : length (map stored xs) ≡ n = length-map stored xs in
    let l = index n left in
    let r = index n right in
    rw (m.counted, normalise-index n left, normalise-index n right, size)
      (elim (Bool-cases (ltb r l || ltb_ℤ (pos n +ℤ negsuc 0) (pos l))) [
        | inl t ↦ rw t (ap ok (sym (out_of_range l r n (map stored xs) size t)))
        | inr t ↦
            let (lt, last) = in_range l r n t in
            rw (t, last)
              (rw
                (
                  lrange_from-slice l (min (n - 1) r) m.chunks q.nodes m.chain
                      (rw m.cut (omega arith)),
                  m.cut,
                )
                (ap ok (slice_to_end l r n (map stored xs) size lt)))
      ])
