-- ===== src/Tests/Packs.antt =====
-- The listpack's theorems on small packs.
use shitty_redis.Base.{◌≡◌, List, [], ◌∷◌, ◌++◌, arith, map, take, drop, length}
use shitty_redis.Base.Go.{Bytes, ok, err, Returns, Ends}
use shitty_redis.Listpack.Entry.{get_entry}
use shitty_redis.Listpack.Pack.{Listpack, read, push_r, push_l, pop_l}
use shitty_redis.Listpack.Codec.{stored}
use shitty_redis.Listpack.Contents.Sizes.{Holds}
use shitty_redis.Listpack.Contents.Read.{read-Holds}
use shitty_redis.Listpack.Contents.Push.{Room, push_r_lem, push_l_lem}
use shitty_redis.Listpack.Contents.Pop.{pop_l_lem}
use shitty_redis.Listpack.Ends.{read-Ends}
use shitty_redis.Tests.Samples.{word, number, two_packed, two_packed-Holds}

abbrev two_items : List Bytes
two_items = word ∷ number ∷ []

read-Holds_example : read 1 5 two_packed ≡ ok (take 5 (drop 1 (map stored two_items)))
read-Holds_example = read-Holds two_items two_packed 1 5 two_packed-Holds

push_r_lem_example :
    (Room 13 (length (get_entry word))
      → Returns (push_r word two_packed) (Holds (two_items ++ (word ∷ []))))
    × (¬ Room 13 (length (get_entry word)) → push_r word two_packed ≡ err)
push_r_lem_example = push_r_lem word two_items two_packed (omega arith) two_packed-Holds

push_l_lem_example :
    (Room 13 (length (get_entry word))
      → Returns (push_l word two_packed) (Holds (word ∷ two_items)))
    × (¬ Room 13 (length (get_entry word)) → push_l word two_packed ≡ err)
push_l_lem_example = push_l_lem word two_items two_packed (omega arith) two_packed-Holds

pop_l_lem_example : Returns (pop_l 1 two_packed) λ r. (r.0 ≡ stored number) × Holds (word ∷ []) r.1
pop_l_lem_example = pop_l_lem (word ∷ []) number [] two_packed two_packed-Holds

abbrev broken : Listpack
broken = record { size = 9; count = 1; entries = 0x85 ∷ b'x' ∷ [] }

read-Ends_example : Ends (read 0 3 broken)
read-Ends_example = read-Ends 0 3 broken
