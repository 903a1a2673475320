-- ===== src/Quicklist/Placing.antt =====
-- Where one pushed item goes, and the test with which both pushes begin.
use shitty_redis.Base.{
  ℕ, ◌+◌, ◌≤◌, ◌≡◌, refl, sym, ◌⊎◌, inl, inr, ap, ◌∙◌, Bool, true, false, List, [], ◌∷◌, arith,
  length, ◌==◌,
}
use shitty_redis.Base.Go.{Bytes, Run, ok, err, Returns}
use shitty_redis.Base.Int.{ℤ, pos, ◌+ℤ◌}
use shitty_redis.Listpack.Entry.{get_entry}
use shitty_redis.Listpack.Pack
use shitty_redis.Listpack.Pack.{Listpack}
use shitty_redis.Listpack.Contents.Sizes.{Holds, new-Holds}
use shitty_redis.Listpack.Contents.Push.{Room}
use shitty_redis.Quicklist.Ops.{Quicklist, push_somewhere, is_zero}
use shitty_redis.Quicklist.Models.{concat, Chain, Models, Storable, Room-cases}

-- An item goes into the node, or, if that is full and not empty, alone into a new one.
module _ (item : Bytes) (storable : Storable item) (push : Listpack → Run Listpack)
    (add : List Bytes → List Bytes)
    (push_lem : (items : List Bytes) (lp : Listpack)
      → Holds items lp
      → (Room lp.size (length (get_entry item)) → Returns (push lp) (Holds (add items)))
        × (¬ Room lp.size (length (get_entry item)) → push lp ≡ err)) where
  abbrev pub Pushed : List Bytes → Run (Bool × Listpack) → Type 0
  Pushed c r =
      ((node : Listpack) × (r ≡ ok (false, node)) × Holds (add c) node)
      ⊎ ((node : Listpack) × (r ≡ ok (true, node)) × Holds (add []) node × (1 ≤ length c))

  empty-Room : Room Pack.new.size (length (get_entry item))
  unfolding Pack.new
  empty-Room = ground arith

  full_is_nonempty :
      (c : List Bytes) (node : Listpack)
      → Holds c node
      → ¬ Room node.size (length (get_entry item))
      → 1 ≤ length c
  full_is_nonempty [] node h full = absurd (full (ground (arith, h.sized)))
  full_is_nonempty (x ∷ c) node h full = omega arith

  pub push_somewhere-Pushed :
      (c : List Bytes) (node : Listpack) → Holds c node → Pushed c (push_somewhere push node)
  unfolding push_somewhere
  push_somewhere-Pushed c node h = elim (Room-cases node.size (length (get_entry item))) [
    | inl room ↦
        let (node', e, h') = (push_lem c node h).0 room in inl (node', rw (push_somewhere, e), h')
    | inr full ↦
        let (node', e, h') = (push_lem [] Pack.new new-Holds).0 empty-Room in
        inr (
          node',
          rw (push_somewhere, (push_lem c node h).1 full, e),
          h',
          full_is_nonempty c node h full,
        )
  ]

pub bump : (a : ℤ) (n m : ℕ) → a ≡ pos n → m ≡ n + 1 → a +ℤ pos 1 ≡ pos m
unfolding ◌+ℤ◌
bump a n m e l = ground arith

pub no_nodes :
    (cs : List (List Bytes)) (nodes : List Listpack)
    → Chain cs nodes
    → length nodes ≡ 0
    → concat cs ≡ []
no_nodes [] nodes h e = refl
no_nodes (c ∷ cs) [] h e = absurd h
no_nodes (c ∷ cs) (n ∷ ns) h e = absurd (omega arith)

module _ (xs : List Bytes) (q : Quicklist) (m : Models xs q) where
  pub zero_test : is_zero q.num_nodes ≡ (length q.nodes == 0)
  unfolding is_zero
  zero_test = ap is_zero m.numbered

  pub none_held : (length q.nodes == 0) ≡ true → xs ≡ []
  none_held e = sym m.cut ∙ no_nodes m.chunks q.nodes m.chain (ground arith)

  pub first_number : (length q.nodes == 0) ≡ true → q.num_nodes +ℤ pos 1 ≡ pos 1
  first_number e = bump q.num_nodes 0 1 (m.numbered ∙ ap pos (ground arith)) refl
