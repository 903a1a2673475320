-- ===== src/Quicklist/Lpop.antt =====
-- `LPOP` (app/structures/list/handlers.go) on the list that a quicklist stands for.
use shitty_redis.Base.{
  ℕ, zero, suc, ◌≡◌, refl, sym, ap, ◌∙◌, false, List, [], ◌∷◌, arith, map, take, drop, length, ◌==◌,
}
use mathlib.Core.Path.{subst}
use shitty_redis.Base.Go.{Bytes, Returns}
use shitty_redis.Base.Int.{ℤ, pos, negsuc, pos_part, ◌+ℤ◌}
use shitty_redis.Listpack.Pack.{Listpack}
use shitty_redis.Listpack.Codec.{stored}
use shitty_redis.Listpack.Contents.Sizes.{Holds}
use shitty_redis.Listpack.Contents.Pop.{pop_l_lem, pop_l_past}
use shitty_redis.Quicklist.Ops.{Quicklist, lpop_end, lpop_loop, lpop}
use shitty_redis.Quicklist.Models.{concat, Chain, Models}

drop_one : (a : ℤ) (n : ℕ) → a ≡ pos (suc n) → a +ℤ negsuc 0 ≡ pos n
unfolding ◌+ℤ◌
drop_one a n e = ground arith

-- Between two rounds the head may be empty.
abbrev Loose : List (List Bytes) → List Listpack → Type 0
Loose [] [] = Unit
Loose [] (node ∷ nodes) = ⊥
Loose (c ∷ cs) [] = ⊥
Loose (c ∷ cs) (node ∷ nodes) = Holds c node × Chain cs nodes

Chain-Loose : (cs : List (List Bytes)) (nodes : List Listpack) → Chain cs nodes → Loose cs nodes
Chain-Loose [] [] h = tt
Chain-Loose [] (n ∷ ns) h = absurd h
Chain-Loose (c ∷ cs) [] h = absurd h
Chain-Loose (c ∷ cs) (n ∷ ns) (hc, lc, hs) = (hc, hs)

lpop_end-Models :
    (cs : List (List Bytes)) (nodes : List Listpack) (count num : ℤ)
    → Loose cs nodes
    → count ≡ pos (length (concat cs))
    → num ≡ pos (length nodes)
    → Models (concat cs) (lpop_end nodes count num)
unfolding lpop_end
lpop_end-Models [] [] count num h counted numbered = record {
  chunks = [];
  chain = tt;
  cut = refl;
  counted = counted;
  numbered = numbered;
}
lpop_end-Models [] (n ∷ ns) count num h counted numbered = absurd h
lpop_end-Models (c ∷ cs) [] count num h counted numbered = absurd h
lpop_end-Models ([] ∷ cs) (n ∷ ns) count num (hc, hs) counted numbered = rw hc.counted (record {
  chunks = cs;
  chain = hs;
  cut = refl;
  counted = counted;
  numbered = drop_one num (length ns) numbered;
})
lpop_end-Models ((x ∷ c) ∷ cs) (n ∷ ns) count num (hc, hs) counted numbered =
    let some_left : (n.count == 0) ≡ false = ground (arith, hc.counted) in
    rw some_left (record {
      chunks = (x ∷ c) ∷ cs;
      chain = (hc, omega arith, hs);
      cut = refl;
      counted = counted;
      numbered = numbered;
    })

-- What `LPOP` of `c` items from `xs` returns and leaves.
abbrev pub Popped : ℕ → List Bytes → List Bytes × Quicklist → Type 0
Popped c xs r = (r.0 ≡ map stored (take c xs)) × Models (drop c xs) r.1

lpop_loop-Popped :
    (c : ℕ) (nodes : List Listpack) (cs : List (List Bytes)) (count num : ℤ)
    → Loose cs nodes
    → count ≡ pos (length (concat cs))
    → num ≡ pos (length nodes)
    → Returns (lpop_loop c nodes count num) (Popped c (concat cs))
unfolding lpop_loop
lpop_loop-Popped zero nodes cs count num h counted numbered =
    (_, refl, (refl, lpop_end-Models cs nodes count num h counted numbered))
lpop_loop-Popped (suc c) [] [] count num h counted numbered =
    (_, refl, (refl, lpop_end-Models [] [] count num h counted numbered))
lpop_loop-Popped (suc c) [] (d ∷ ds) count num h counted numbered = absurd h
lpop_loop-Popped (suc c) (n ∷ ns) [] count num h counted numbered = absurd h
lpop_loop-Popped (suc c) (n ∷ ns) ([] ∷ ds) count num (hc, hs) counted numbered =
    rw (lpop_loop, pop_l_past [] n 0 hc (omega arith) (omega arith))
      (lpop_loop-Popped (suc c) ns ds count (num +ℤ negsuc 0) (Chain-Loose ds ns hs) counted
        (drop_one num (length ns) numbered))
lpop_loop-Popped (suc c) (n ∷ ns) ((x ∷ d) ∷ ds) count num (hc, hs) counted numbered =
    let ((text, n'), run, (same, h')) = pop_l_lem [] x d n hc in
    let ((texts, q), rest, (equal, m)) =
      lpop_loop-Popped c (n' ∷ ns) (d ∷ ds) (count +ℤ negsuc 0) num (h', hs)
        (drop_one count _ counted) numbered in
    ((text ∷ texts, q), rw (lpop_loop, run) (rw rest), (rw (same, equal), m))

-- `LPOP` on a quicklist that stands for `xs` returns normally, with the stored texts of the first
-- `c` items (none for a count below 0, all for one past the end) and a quicklist that stands for
-- the others.
pub lpop-Popped :
    (c : ℤ) (xs : List Bytes) (q : Quicklist)
    → Models xs q
    → Returns (lpop c q) (Popped (pos_part c) xs)
unfolding lpop
lpop-Popped c xs q m =
    subst
      (λ (ys : List Bytes).
        Returns (lpop_loop (pos_part c) q.nodes q.count q.num_nodes) (Popped (pos_part c) ys))
      m.cut
      (lpop_loop-Popped (pos_part c) q.nodes m.chunks q.count q.num_nodes
        (Chain-Loose m.chunks q.nodes m.chain)
        (m.counted ∙ ap (λ (ys : List Bytes). pos (length ys)) (sym m.cut)) m.numbered)
