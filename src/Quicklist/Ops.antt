-- ===== src/Quicklist/Ops.antt =====
-- The operations of app/structures/list (list.go, handlers.go).
-- The doubly linked nodes from `Head` to `Tail` are the list of their listpacks: `Next` is the
-- order, a nil `Head` is the empty list, and no operation reads `Prev`.
use shitty_redis.Base.{
  ℕ, zero, suc, ◌+◌, ◌-◌, Bool, true, false, ◌||◌, List, [], ◌∷◌, ◌++◌, ltb, leb, ◌==◌,
  if◌then◌else◌,
}
use Prim.Native.Nat.{min, max}
use shitty_redis.Base.Go.{Bytes, Run, ok, err, panic, stuck, ◌>>=◌}
use shitty_redis.Base.Int.{ℤ, pos, negsuc, pos_part, ltb_ℤ, ◌+ℤ◌}
use shitty_redis.Listpack.Pack
use shitty_redis.Listpack.Pack.{Listpack}

pub record Quicklist : Type 0 where
  pub count : ℤ
  pub num_nodes : ℤ
  pub nodes : List Listpack

unfoldable pub new : Quicklist
new = record { count = pos 0; num_nodes = pos 0; nodes = [] }

-- `PushR` or `PushL` into `node`, and if it refuses, into a new node; a second refusal panics.
-- The result tells whether the node is new.
unfoldable pub push_somewhere : (Listpack → Run Listpack) → Listpack → Run (Bool × Listpack)
push_somewhere push node = elim (push node) [
  | ok node' ↦ ok (false, node')
  | err ↦ elim (push Pack.new) [
    | ok node' ↦ ok (true, node')
    | err ↦ panic
    | panic ↦ panic
    | stuck ↦ stuck
  ]
  | panic ↦ panic
  | stuck ↦ stuck
]

-- The loop of `RPUSH`: `node` is the tail, `front` the nodes before it.
unfoldable pub rpush_loop : List Bytes → List Listpack → Listpack → ℤ → ℤ → Run Quicklist
rpush_loop [] front node count num =
    ok (record { count = count; num_nodes = num; nodes = front ++ (node ∷ []) })
rpush_loop (v ∷ items) front node count num =
    push_somewhere (Pack.push_r v) node >>= λ (fresh, node').
    rpush_loop items (if fresh then front ++ (node ∷ []) else front) node' (count +ℤ pos 1)
      (if fresh then num +ℤ pos 1 else num)

unfoldable pub is_zero : ℤ → Bool
is_zero (pos n) = n == 0
is_zero (negsuc n) = false

-- All nodes but the last, and the last; without a node the nil pointer panics.
unfoldable pub split_tail : List Listpack → Run (List Listpack × Listpack)
split_tail [] = panic
split_tail (n ∷ []) = ok ([], n)
split_tail (n ∷ m ∷ ns) = do (front, last) ← split_tail (m ∷ ns); ok (n ∷ front, last)

unfoldable pub rpush : List Bytes → Quicklist → Run Quicklist
rpush items q =
    let onto_tail : Run Quicklist =
      split_tail q.nodes >>= λ (front, node). rpush_loop items front node q.count q.num_nodes in
    if is_zero q.num_nodes
    then rpush_loop items [] Pack.new q.count (q.num_nodes +ℤ pos 1)
    else onto_tail

-- The loop of `LPUSH`: `node` is the head, `back` the nodes behind it.
unfoldable pub lpush_loop : List Bytes → Listpack → List Listpack → ℤ → ℤ → Run Quicklist
lpush_loop [] node back count num =
    ok (record { count = count; num_nodes = num; nodes = node ∷ back })
lpush_loop (v ∷ items) node back count num =
    push_somewhere (Pack.push_l v) node >>= λ (fresh, node').
    lpush_loop items node' (if fresh then node ∷ back else back) (count +ℤ pos 1)
      (if fresh then num +ℤ pos 1 else num)

unfoldable pub lpush_onto : List Bytes → Quicklist → List Listpack → Run Quicklist
lpush_onto items q [] = panic
lpush_onto items q (node ∷ back) = lpush_loop items node back q.count q.num_nodes

unfoldable pub lpush : List Bytes → Quicklist → Run Quicklist
lpush items q =
    if is_zero q.num_nodes
    then lpush_loop items Pack.new [] q.count (q.num_nodes +ℤ pos 1)
    else lpush_onto items q q.nodes

-- `max(0, size - (i * -1))` for a negative index.
unfoldable pub normalise : ℤ → ℤ → ℕ
normalise size (pos i) = i
normalise size (negsuc i) = pos_part (size +ℤ negsuc i)

-- The loop of `LRANGE`. `nE` is `nR + 1`, the index behind the node.
unfoldable pub lrange_loop : ℕ → ℕ → ℕ → List Listpack → Run (List Bytes)
lrange_loop l r nL [] = ok []
lrange_loop l r nL (node ∷ nodes) = do
  let nE = nL + node.count
  let rL = max nL l
  let ele : Run (List Bytes) = Pack.read (rL - nL) (min nE (r + 1) - rL) node
  here ← if leb nE l || ltb r nL then ok [] else ele
  elements ← lrange_loop l r nE nodes
  ok (here ++ elements)

unfoldable pub lrange_from : ℕ → ℕ → List Listpack → Run (List Bytes)
lrange_from l r [] = panic
lrange_from l r (node ∷ nodes) = lrange_loop l r 0 (node ∷ nodes)

unfoldable pub lrange : ℤ → ℤ → Quicklist → Run (List Bytes)
lrange left right q =
    let l = normalise q.count left in
    let r = normalise q.count right in
    let rmax = q.count +ℤ negsuc 0 in
    if ltb r l || ltb_ℤ rmax (pos l) then ok [] else lrange_from l (min (pos_part rmax) r) q.nodes

unfoldable pub llen : Quicklist → ℤ
llen q = q.count

-- The end of `LPOP`: a head that is empty is dropped.
unfoldable pub lpop_end : List Listpack → ℤ → ℤ → Quicklist
lpop_end [] count num = record { count = count; num_nodes = num; nodes = [] }
lpop_end (node ∷ nodes) count num =
    if node.count == 0
    then record { count = count; num_nodes = num +ℤ negsuc 0; nodes = nodes }
    else record { count = count; num_nodes = num; nodes = node ∷ nodes }

-- The loop of `LPOP`: an empty head is dropped, any other gives up its first entry.
unfoldable pub lpop_loop : ℕ → List Listpack → ℤ → ℤ → Run (List Bytes × Quicklist)
lpop_loop zero nodes count num = ok ([], lpop_end nodes count num)
lpop_loop (suc c) [] count num = ok ([], lpop_end [] count num)
lpop_loop (suc c) (node ∷ nodes) count num = elim (Pack.pop_l 0 node) [
  | ok (ele, node') ↦ do
    (elements, q) ← lpop_loop c (node' ∷ nodes) (count +ℤ negsuc 0) num
    ok (ele ∷ elements, q)
  | err ↦ lpop_loop (suc c) nodes count (num +ℤ negsuc 0)
  | panic ↦ panic
  | stuck ↦ stuck
]

unfoldable pub lpop : ℤ → Quicklist → Run (List Bytes × Quicklist)
lpop c q = lpop_loop (pos_part c) q.nodes q.count q.num_nodes
