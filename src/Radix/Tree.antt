-- ===== src/Radix/Tree.antt =====
-- `RaxNode` (app/structures/radix/radix.go). `Children` is an association list from the first byte
-- of a child's prefix; the values are pointers in the code, and any type here. `HasValue` is whether
-- there is a value, since no caller inserts nil.
use shitty_redis.Base.{ℕ, Option}
use shitty_redis.Base.Go.{Bytes}

mutual
  pub data Rax {ℓ} (V : Type ℓ) : Type ℓ where
    node : Bytes → Option V → Kids V → Rax V

  pub data Kids {ℓ} (V : Type ℓ) : Type ℓ where
    nil : Kids V
    cons : ℕ → Rax V → Kids V → Kids V
