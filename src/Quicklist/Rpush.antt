-- ===== src/Quicklist/Rpush.antt =====
-- `RPUSH` (app/structures/list/handlers.go) on the list that a quicklist stands for.
use shitty_redis.Base.{
  ◌+◌, ◌≤◌, ◌≡◌, refl, sym, inl, inr, ap, ◌∙◌, List, [], ◌∷◌, ◌++◌, arith, length, length-append,
  append_assoc, append-nil, All, Bool-cases, ◌==◌,
}
use shitty_redis.Base.Go.{Bytes, ok, ◌>>=◌, Returns}
use shitty_redis.Base.Int.{ℤ, pos, ◌+ℤ◌}
use shitty_redis.Listpack.Pack
use shitty_redis.Listpack.Pack.{Listpack}
use shitty_redis.Listpack.Contents.Sizes.{Holds, new-Holds}
use shitty_redis.Listpack.Contents.Push.{push_r_lem}
use shitty_redis.Quicklist.Ops.{Quicklist, rpush_loop, split_tail, rpush}
use shitty_redis.Quicklist.Models.{
  concat, concat-append, Chain, Chain-append, Models, recut, Storable,
}
use shitty_redis.Quicklist.Placing.{push_somewhere-Pushed, bump, zero_test, none_held, first_number}

regroup :
    (cs : List (List Bytes)) (c : List Bytes) (v : Bytes) (items : List Bytes)
    → concat (cs ++ (c ∷ [])) ++ ((v ∷ []) ++ items) ≡ concat cs ++ (c ++ (v ∷ items))
regroup cs c v items = simp (concat-append, append-nil, append_assoc)

pub rpush_loop-Models :
    (items : List Bytes) (cs : List (List Bytes)) (c : List Bytes) (front : List Listpack)
    (node : Listpack) (count num : ℤ)
    → All Storable items
    → Chain cs front
    → Holds c node
    → 1 ≤ length c + length items
    → count ≡ pos (length (concat cs ++ c))
    → num ≡ pos (length front + 1)
    → Returns (rpush_loop items front node count num) (Models (concat cs ++ (c ++ items)))
unfolding rpush_loop
rpush_loop-Models [] cs c front node count num st chain h full counted numbered = (
  _,
  refl,
  record {
    chunks = cs ++ (c ∷ []);
    chain = Chain-append cs front (c ∷ []) (node ∷ []) chain (h, omega arith, tt);
    cut = concat-append cs (c ∷ []);
    counted = rw append-nil counted;
    numbered = numbered ∙ ap pos (omega (arith, length-append front (node ∷ [])));
  },
)
rpush_loop-Models (v ∷ items) cs c front node count num (sv, st) chain h full counted numbered =
    let lengths : length (concat cs ++ (c ++ (v ∷ []))) ≡ length (concat cs ++ c) + 1 = omega (
      arith,
      length-append (concat cs) (c ++ (v ∷ [])),
      length-append c (v ∷ []),
      length-append (concat cs) c,
    ) in
    elim (push_somewhere-Pushed v sv (Pack.push_r v) (λ xs. xs ++ (v ∷ []))
      (λ xs lp k. push_r_lem v xs lp sv.0 k) c node h) [
        | inl (node', e, h') ↦ rw e (
            recut _ _ _ (ap (λ (xs : List Bytes). concat cs ++ xs) (append_assoc c (v ∷ []) items))
              (rpush_loop-Models items cs (c ++ (v ∷ [])) front node' (count +ℤ pos 1) num st chain
                h' (omega (arith, length-append c (v ∷ []))) (bump count _ _ counted lengths)
                numbered))
        | inr (node', e, h', l) ↦ rw e (
            recut _ _ _ (regroup cs c v items) (
              rpush_loop-Models items (cs ++ (c ∷ [])) (v ∷ []) (front ++ (node ∷ [])) node'
                (count +ℤ pos 1) (num +ℤ pos 1) st
                (Chain-append cs front (c ∷ []) (node ∷ []) chain (h, l, tt)) h' (omega arith)
                (bump count _ _ counted
                  (rw (concat-append cs (c ∷ []), append-nil) (rw append_assoc lengths)))
                (bump num _ _ numbered (omega (arith, length-append front (node ∷ []))))))
      ]

-- The tail node of a list that has one, as `RPUSH` finds it.
pub Chain-split_tail :
    (cs : List (List Bytes)) (nodes : List Listpack)
    → Chain cs nodes
    → 1 ≤ length nodes
    → (ds : List (List Bytes)) × (c : List Bytes) × (front : List Listpack) × (node : Listpack)
      × (concat ds ++ c ≡ concat cs)
      × Chain ds front
      × Holds c node
      × (1 ≤ length c)
      × (split_tail nodes ≡ ok (front, node))
      × (length front + 1 ≡ length nodes)
unfolding split_tail
Chain-split_tail [] [] h l = absurd (omega arith)
Chain-split_tail [] (n ∷ ns) h l = absurd h
Chain-split_tail (c ∷ cs) [] h l = absurd h
Chain-split_tail (c ∷ []) (n ∷ []) (hc, lc, hs) l =
    ([], c, [], n, sym (append-nil c), tt, hc, lc, refl, omega arith)
Chain-split_tail (c ∷ d ∷ cs) (n ∷ []) (hc, lc, hs) l = absurd hs
Chain-split_tail (c ∷ []) (n ∷ m ∷ ns) (hc, lc, hs) l = absurd hs
Chain-split_tail (c ∷ d ∷ cs) (n ∷ m ∷ ns) (hc, lc, hs) l =
    let (es, e, front, node, cat, chain, he, le, run, size) =
      Chain-split_tail (d ∷ cs) (m ∷ ns) hs (omega arith) in
    (
      c ∷ es,
      e,
      n ∷ front,
      node,
      append_assoc c (concat es) e ∙ ap (λ (xs : List Bytes). c ++ xs) cat,
      (hc, lc, chain),
      he,
      le,
      rw run,
      omega (arith, size),
    )

module _ (xs items : List Bytes) (q : Quicklist) (m : Models xs q) (st : All Storable items)
    (l : 1 ≤ length items) where
  -- `RPUSH` of at least one item, all storable, on a quicklist that stands for `xs` returns
  -- normally with a quicklist that stands for `xs` and then the items in order.
  pub rpush-Models : Returns (rpush items q) (Models (xs ++ items))
  unfolding rpush
  rpush-Models = elim (Bool-cases (length q.nodes == 0)) [
    | inl e ↦ rw (zero_test xs q m ∙ e) (
        recut _ _ _ (ap (λ (ys : List Bytes). ys ++ items) (sym (none_held xs q m e))) (
          rpush_loop-Models items [] [] [] Pack.new q.count (q.num_nodes +ℤ pos 1) st tt new-Holds
            (omega arith)
            (m.counted ∙ ap (λ (ys : List Bytes). pos (length ys)) (none_held xs q m e))
            (first_number xs q m e)))
    | inr e ↦
        let (ds, c, front, node, cat, chain, h, lc, run, size) =
          Chain-split_tail m.chunks q.nodes m.chain (ground arith) in
        rw (zero_test xs q m ∙ e) (
          rw (run, ◌>>=◌)
            (recut _ _ _
              (sym (append_assoc (concat ds) c items)
                ∙ ap (λ (ys : List Bytes). ys ++ items) (cat ∙ m.cut))
              (rpush_loop-Models items ds c front node q.count q.num_nodes st chain h (omega arith)
                (m.counted ∙ ap (λ (ys : List Bytes). pos (length ys)) (sym (cat ∙ m.cut)))
                (m.numbered ∙ ap pos (sym size)))))
  ]
