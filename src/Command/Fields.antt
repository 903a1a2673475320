-- ===== src/Command/Fields.antt =====
-- app/com.go: the command with its two maps of arguments.
use shitty_redis.Base.{
  ℕ, Bool, true, false, ◌==◌, ◌&&◌, ◌||◌, List, [], ◌∷◌, if◌then◌else◌, get_elem?,
}
use shitty_redis.Base.Go.{Bytes, Run, or_panic}

-- Go compares strings byte by byte.
infix 50 ◌==s◌
unfoldable pub ◌==s◌ : List ℕ → List ℕ → Bool
[] ==s [] = true
[] ==s (y ∷ ys) = false
(x ∷ xs) ==s [] = false
(x ∷ xs) ==s (y ∷ ys) = x == y && xs ==s ys

-- `map[string][]string`, as an association list.
abbrev pub Fields : Type 0
Fields = List (Bytes × List Bytes)

pub record Com : Type 0 where
  pub base : Bytes
  pub args : Fields
  pub extras : Fields

-- Assignment to a map's key.
unfoldable pub put : Bytes → List Bytes → Fields → Fields
put k vs [] = (k, vs) ∷ []
put k vs ((k', vs') ∷ m) =
    let rest = put k vs m in if k ==s k' then (k, vs) ∷ m else (k', vs') ∷ rest

-- A map's value at a key; a missing key gives the nil slice.
unfoldable pub value_at : Bytes → Fields → List Bytes
value_at k [] = []
value_at k ((k', vs) ∷ m) = let rest = value_at k m in if k ==s k' then vs else rest

-- `com.Args[name][0]`, which panics on an empty slice.
unfoldable pub first_at : Bytes → Fields → Run Bytes
first_at k m = or_panic (get_elem? (value_at k m) 0)

unfoldable pub put_arg : Bytes → List Bytes → Com → Com
put_arg k vs cmd = record cmd { args = put k vs cmd.args }

unfoldable pub put_extra : Bytes → List Bytes → Com → Com
put_extra k vs cmd = record cmd { extras = put k vs cmd.extras }

-- `_, ok := m[name]`.
unfoldable pub has_field : Bytes → Fields → Bool
has_field k [] = false
has_field k ((k', vs') ∷ m) = k ==s k' || has_field k m
