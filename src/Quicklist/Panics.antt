-- ===== src/Quicklist/Panics.antt =====
-- Items that a new listpack refuses, in `RPUSH` (app/structures/list/handlers.go).
use shitty_redis.Base.{
  ◌≤◌, ◌<◌, ◌≡◌, ◌∙◌, inl, inr, List, [], ◌∷◌, ◌++◌, arith, length, All, ◌==◌, Bool-cases,
}
use shitty_redis.Base.Go.{Bytes, err, panic}
use shitty_redis.Base.Int.{ℤ, pos, ◌+ℤ◌}
use shitty_redis.Listpack.Entry.{get_entry}
use shitty_redis.Listpack.Pack
use shitty_redis.Listpack.Pack.{Listpack}
use shitty_redis.Listpack.Codec.{IsItem}
use shitty_redis.Listpack.Contents.Sizes.{Holds, new-Holds}
use shitty_redis.Listpack.Contents.Push.{push_r_lem}
use shitty_redis.Quicklist.Ops.{Quicklist, push_somewhere, rpush_loop, rpush}
use shitty_redis.Quicklist.Models.{Models, Storable}
use shitty_redis.Quicklist.Placing.{push_somewhere-Pushed, zero_test}
use shitty_redis.Quicklist.Rpush.{Chain-split_tail}

-- The entry is larger than what is left in an empty pack, and smaller than the exception for
-- large entries.
abbrev pub Unstorable : Bytes → Type 0
Unstorable item = IsItem item × (8186 ≤ length (get_entry item)) × (length (get_entry item) < 8192)

module _ (v : Bytes) (bad : Unstorable v) where
  refused : (c : List Bytes) (node : Listpack) → Holds c node → Pack.push_r v node ≡ err
  refused c node h = (push_r_lem v c node bad.0 h).1 (λ room. absurd (ground (arith, h.sized)))

  push_somewhere_panics :
      (c : List Bytes) (node : Listpack)
      → Holds c node
      → push_somewhere (Pack.push_r v) node ≡ panic
  unfolding push_somewhere
  push_somewhere_panics c node h =
      rw (push_somewhere, refused c node h, refused [] Pack.new new-Holds)

  rpush_loop_panics :
      (before after : List Bytes) (c : List Bytes) (front : List Listpack) (node : Listpack)
      (count num : ℤ)
      → All Storable before
      → Holds c node
      → rpush_loop (before ++ (v ∷ after)) front node count num ≡ panic
  unfolding rpush_loop
  rpush_loop_panics [] after c front node count num st h = rw (push_somewhere_panics c node h)
  rpush_loop_panics (b ∷ before) after c front node count num (sb, st) h =
      elim (push_somewhere-Pushed b sb (Pack.push_r b) (λ xs. xs ++ (b ∷ []))
        (λ xs lp k. push_r_lem b xs lp sb.0 k) c node h) [
          | inl (node', e, h') ↦ rw e (rpush_loop_panics before after _ _ node' _ _ st h')
          | inr (node', e, h', l) ↦ rw e (rpush_loop_panics before after _ _ node' _ _ st h')
        ]

  -- `RPUSH` on a quicklist that stands for `xs` panics when storable items are followed by an
  -- item below 2 GiB with an entry of 8186 to 8191 bytes.
  pub rpush_panics :
      (xs before after : List Bytes) (q : Quicklist)
      → Models xs q
      → All Storable before
      → rpush (before ++ (v ∷ after)) q ≡ panic
  unfolding rpush
  rpush_panics xs before after q m st = elim (Bool-cases (length q.nodes == 0)) [
    | inl e ↦
        rw (zero_test xs q m ∙ e) (
          rpush_loop_panics before after [] [] Pack.new q.count (q.num_nodes +ℤ pos 1) st new-Holds)
    | inr e ↦
        let (ds, c, front, node, cat, chain, h, lc, run, size) =
          Chain-split_tail m.chunks q.nodes m.chain (ground arith) in
        rw (zero_test xs q m ∙ e)
          (rw run (rpush_loop_panics before after c front node q.count q.num_nodes st h))
  ]
