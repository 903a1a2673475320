-- ===== src/Quicklist/Lpush.antt =====
-- `LPUSH` (app/structures/list/handlers.go) on the list that a quicklist stands for.
use shitty_redis.Base.{
  false, ◌+◌, ◌≤◌, ◌≡◌, refl, sym, inl, inr, ap, ◌∙◌, List, [], ◌∷◌, ◌++◌, arith, length,
  append_assoc, All, Bool-cases, ◌==◌,
}
use shitty_redis.Base.Go.{Bytes, Returns}
use shitty_redis.Base.Int.{ℤ, pos, ◌+ℤ◌}
use shitty_redis.Listpack.Pack
use shitty_redis.Listpack.Pack.{Listpack}
use shitty_redis.Listpack.Contents.Sizes.{Holds, new-Holds}
use shitty_redis.Listpack.Contents.Push.{push_l_lem}
use shitty_redis.Quicklist.Ops.{Quicklist, lpush_loop, lpush_onto, lpush}
use shitty_redis.Quicklist.Models.{concat, Chain, Models, recut, Storable}
use shitty_redis.Quicklist.Placing.{push_somewhere-Pushed, bump, zero_test, none_held, first_number}
use mathlib.Core.List.{reverse, reverse-cons}

reverse-nil : (xs : List Bytes) → xs ≡ reverse [] ++ xs
reverse-nil xs = refl

regroup :
    (v : Bytes) (items xs : List Bytes) → reverse items ++ (v ∷ xs) ≡ reverse (v ∷ items) ++ xs
regroup v items xs = rw (reverse-cons v items) (sym (append_assoc (reverse items) (v ∷ []) xs))

lpush_loop-Models :
    (items : List Bytes) (c : List Bytes) (cs : List (List Bytes)) (node : Listpack)
    (back : List Listpack) (count num : ℤ)
    → All Storable items
    → Holds c node
    → Chain cs back
    → 1 ≤ length c + length items
    → count ≡ pos (length (c ++ concat cs))
    → num ≡ pos (length back + 1)
    → Returns (lpush_loop items node back count num) (Models (reverse items ++ (c ++ concat cs)))
unfolding lpush_loop
lpush_loop-Models [] c cs node back count num st h chain full counted numbered =
    recut _ _ _ (reverse-nil (c ++ concat cs)) (
      _,
      refl,
      record {
        chunks = c ∷ cs;
        chain = (h, omega arith, chain);
        cut = refl;
        counted = counted;
        numbered = numbered ∙ ap pos (omega arith);
      },
    )
lpush_loop-Models (v ∷ items) c cs node back count num (sv, st) h chain full counted numbered =
    elim (push_somewhere-Pushed v sv (Pack.push_l v) (λ xs. v ∷ xs)
      (λ xs lp k. push_l_lem v xs lp sv.0 k) c node h) [
        | inl (node', e, h') ↦ rw e (
            recut _ _ _ (regroup v items (c ++ concat cs)) (
              lpush_loop-Models items (v ∷ c) cs node' back (count +ℤ pos 1) num st h' chain
                (omega arith) (bump count _ _ counted (omega arith)) numbered))
        | inr (node', e, h', l) ↦ rw e (
            recut _ _ _ (regroup v items (c ++ concat cs)) (
              lpush_loop-Models items (v ∷ []) (c ∷ cs) node' (node ∷ back) (count +ℤ pos 1)
                (num +ℤ pos 1) st h' (h, l, chain) (omega arith)
                (bump count _ _ counted (omega arith)) (bump num _ _ numbered (omega arith))))
      ]

module _ (xs items : List Bytes) (q : Quicklist) (m : Models xs q) (st : All Storable items)
    (l : 1 ≤ length items) where
  lpush_onto-Models :
      (cs : List (List Bytes)) (nodes : List Listpack)
      → Chain cs nodes
      → concat cs ≡ xs
      → q.num_nodes ≡ pos (length nodes)
      → (length nodes == 0) ≡ false
      → Returns (lpush_onto items q nodes) (Models (reverse items ++ xs))
  unfolding lpush_onto
  lpush_onto-Models [] [] h cut numbered e = cc
  lpush_onto-Models [] (n ∷ ns) h cut numbered e = absurd h
  lpush_onto-Models (c ∷ cs) [] h cut numbered e = absurd h
  lpush_onto-Models (c ∷ cs) (n ∷ ns) (hc, lc, hs) cut numbered e =
      recut _ _ _ (ap (λ (ys : List Bytes). reverse items ++ ys) cut) (
        lpush_loop-Models items c cs n ns q.count q.num_nodes st hc hs (omega arith)
          (m.counted ∙ ap (λ (ys : List Bytes). pos (length ys)) (sym cut))
          (numbered ∙ ap pos (omega arith)))

  -- `LPUSH` of at least one item, all storable, on a quicklist that stands for `xs` returns
  -- normally with a quicklist that stands for the items, the last one first, and then `xs`.
  pub lpush-Models : Returns (lpush items q) (Models (reverse items ++ xs))
  unfolding lpush
  lpush-Models = elim (Bool-cases (length q.nodes == 0)) [
    | inl e ↦ rw (zero_test xs q m ∙ e) (
        recut _ _ _ (ap (λ (ys : List Bytes). reverse items ++ ys) (sym (none_held xs q m e))) (
          lpush_loop-Models items [] [] Pack.new [] q.count (q.num_nodes +ℤ pos 1) st new-Holds tt
            (omega arith)
            (m.counted ∙ ap (λ (ys : List Bytes). pos (length ys)) (none_held xs q m e))
            (first_number xs q m e)))
    | inr e ↦
        rw (zero_test xs q m ∙ e) (lpush_onto-Models m.chunks q.nodes m.chain m.cut m.numbered e)
  ]
