-- ===== src/Quicklist/Models.antt =====
-- The items that a quicklist stands for, in order, cut into the chunks that its nodes hold.
use shitty_redis.Base.{
  ℕ, ◌+◌, ◌≤◌, ◌≡◌, refl, ◌⊎◌, inl, inr, List, [], ◌∷◌, ◌++◌, arith, length, append_assoc,
  Bool-cases, ltb, leb, ◌&&◌, ◌||◌,
}
use mathlib.Core.Path.{subst}
use shitty_redis.Base.Go.{Bytes, Run, Returns}
use shitty_redis.Base.Int.{pos}
use shitty_redis.Listpack.Entry.{get_entry}
use shitty_redis.Listpack.Pack.{Listpack}
use shitty_redis.Listpack.Codec.{IsItem}
use shitty_redis.Listpack.Contents.Sizes.{Holds}
use shitty_redis.Listpack.Contents.Push.{Room}
use shitty_redis.Quicklist.Ops.{Quicklist, new}

abbrev pub concat : List (List Bytes) → List Bytes
concat [] = []
concat (c ∷ cs) = c ++ concat cs

pub concat-append : (cs ds : List (List Bytes)) → concat (cs ++ ds) ≡ concat cs ++ concat ds
concat-append [] ds = refl
concat-append (c ∷ cs) ds = rw (concat-append cs ds, append_assoc)

-- Node by node, the chunk that it holds; no chunk is empty.
abbrev pub Chain : List (List Bytes) → List Listpack → Type 0
Chain [] [] = Unit
Chain [] (node ∷ nodes) = ⊥
Chain (c ∷ cs) [] = ⊥
Chain (c ∷ cs) (node ∷ nodes) = Holds c node × (1 ≤ length c) × Chain cs nodes

pub Chain-append :
    (cs : List (List Bytes)) (ns : List Listpack) (ds : List (List Bytes)) (ms : List Listpack)
    → Chain cs ns
    → Chain ds ms
    → Chain (cs ++ ds) (ns ++ ms)
Chain-append [] [] ds ms h k = k
Chain-append [] (n ∷ ns) ds ms h k = absurd h
Chain-append (c ∷ cs) [] ds ms h k = absurd h
Chain-append (c ∷ cs) (n ∷ ns) ds ms (hc, l, hs) k = (hc, l, Chain-append cs ns ds ms hs k)

-- The quicklist stands for `items`.
pub record Models (items : List Bytes) (q : Quicklist) : Type 0 where
  pub chunks : List (List Bytes)
  pub chain : Chain chunks q.nodes
  pub cut : concat chunks ≡ items
  pub counted : q.count ≡ pos (length items)
  pub numbered : q.num_nodes ≡ pos (length q.nodes)

pub new-Models : Models [] new
unfolding new
new-Models = record { chunks = []; chain = tt; cut = refl; counted = refl; numbered = refl }

pub recut :
    (xs ys : List Bytes) (r : Run Quicklist)
    → xs ≡ ys
    → Returns r (Models xs)
    → Returns r (Models ys)
recut xs ys r e h = subst (λ (zs : List Bytes). Returns r (Models zs)) e h

-- An item that an empty pack takes: 8186 to 8191 bytes fit neither into the 8185 that are left in
-- an empty pack nor through the exception for large entries.
abbrev pub Storable : Bytes → Type 0
Storable item = IsItem item × ((length (get_entry item) ≤ 8185) ⊎ (8192 ≤ length (get_entry item)))

pub Room-cases : (size n : ℕ) → Room size n ⊎ (¬ Room size n)
Room-cases size n = elim (Bool-cases (ltb size 8192 && (leb 8192 n || leb (size + n) 8192))) [
  | inl e ↦ inl (ground arith)
  | inr e ↦ inr (ground arith)
]
