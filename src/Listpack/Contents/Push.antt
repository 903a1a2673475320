-- ===== src/Listpack/Contents/Push.antt =====
-- `PushR` and `PushL` (app/structures/listpack/listpack.go) on a listpack that holds items.
use shitty_redis.Base.{
  ℕ, ◌+◌, ◌^◌, ◌≤◌, ◌<◌, ◌≡◌, refl, ◌↔◌, ◌⊎◌, inl, inr, true, false, List, [], ◌∷◌, ◌++◌, arith,
  length, length-append, append_assoc, append-nil, All, All-append, Bool-cases,
}
use shitty_redis.Base.Go.{Bytes, ok, err, Returns}
use shitty_redis.Base.Int.{◌+ℤ◌}
use shitty_redis.Listpack.Entry.{get_entry}
use shitty_redis.Listpack.Pack.{
  Listpack, update_size, update_count, refuses, split_last, grow, append_entry, push_r, push_l,
}
use shitty_redis.Listpack.Codec.{IsItem}
use shitty_redis.Listpack.Contents.Sizes.{pack, pack-append, length-pack, length-get_entry, Holds}

-- A pack that is not full has room for an entry of `n` bytes if the entry fits into what is left,
-- or is too large for any pack.
abbrev pub Room : ℕ → ℕ → Type 0
Room size n = (size < 8192) × ((8192 ≤ n) ⊎ (size + n ≤ 8192))

pub refuses-eq-false :
    (lp : Listpack) (entry : Bytes)
    → length entry < 2 ^ 32
    → (refuses lp entry ≡ false) ↔ Room lp.size (length entry)
unfolding refuses
refuses-eq-false lp entry h = ground arith

pub split_last-snoc : (xs : Bytes) (b : ℕ) → split_last (xs ++ (b ∷ [])) ≡ ok (xs, b)
unfolding split_last
split_last-snoc [] b = refl
split_last-snoc (x ∷ []) b = refl
split_last-snoc (x ∷ y ∷ xs) b = rw (split_last-snoc (y ∷ xs) b)

-- `grow` keeps the header in step with the entries.
grow-Holds :
    (items items' : List Bytes) (lp : Listpack) (n : ℕ) (entries : Bytes)
    → Holds items lp
    → lp.size < 8192
    → n < 2 ^ 31 + 14
    → entries ≡ pack items' ++ (0xff ∷ [])
    → length (pack items') ≡ length (pack items) + n
    → length items' ≡ length items + 1
    → All IsItem items'
    → Holds items' (grow n entries lp)
unfolding grow update_size update_count ◌+ℤ◌
grow-Holds items items' lp n entries h room hn e l c short = record {
  bytes = e;
  sized = ground (arith, h.sized);
  counted = ground (arith, h.counted, h.sized, length-pack items);
  within = ground arith;
  few = omega (arith, h.sized, length-pack items);
  short = short;
}

module _ (item : Bytes) (items : List Bytes) (lp : Listpack) (hi : IsItem item)
    (h : Holds items lp) where
  entry_fits : length (get_entry item) < 2 ^ 31 + 14
  entry_fits = omega (arith, length-get_entry item)

  push_r-grow :
      append_entry (get_entry item) lp
      ≡ ok (grow (length (get_entry item)) (pack items ++ (get_entry item ++ (0xff ∷ []))) lp)
  unfolding append_entry
  push_r-grow = rw (h.bytes, split_last-snoc (pack items) 0xff)

  append-Holds :
      lp.size < 8192 → Returns (append_entry (get_entry item) lp) (Holds (items ++ (item ∷ [])))
  append-Holds room = (
    _,
    push_r-grow,
    grow-Holds items (items ++ (item ∷ [])) lp (length (get_entry item)) _ h room entry_fits
        (simp (pack-append, append-nil, append_assoc))
        (rw (pack-append items (item ∷ [])) (
          omega (
            arith,
            length-append (pack items) (get_entry item ++ []),
            length-append (get_entry item) [],
          )))
        (omega (arith, length-append items (item ∷ [])))
        (All-append IsItem items (item ∷ []) h.short (hi, tt)),
  )

  accepts : Room lp.size (length (get_entry item)) → refuses lp (get_entry item) ≡ false
  accepts = (refuses-eq-false lp (get_entry item) (omega (arith, entry_fits))).1

  rejects : ¬ Room lp.size (length (get_entry item)) → refuses lp (get_entry item) ≡ true
  rejects none_left = elim (Bool-cases (refuses lp (get_entry item))) [
    | inl e ↦ e
    | inr e ↦
        absurd (none_left ((refuses-eq-false lp (get_entry item) (omega (arith, entry_fits))).0 e))
  ]

  -- On a listpack that holds `items`, `PushR` of an item below 2 GiB returns normally with a
  -- listpack that holds `items` and then the item if there is room, and an error otherwise.
  pub push_r_lem :
      (Room lp.size (length (get_entry item))
        → Returns (push_r item lp) (Holds (items ++ (item ∷ []))))
      × (¬ Room lp.size (length (get_entry item)) → push_r item lp ≡ err)
  unfolding push_r
  push_r_lem =
      (λ room. rw (accepts room) (append-Holds room.0), λ none_left. rw (rejects none_left))

  prepend-Holds :
      lp.size < 8192
      → Holds (item ∷ items) (grow (length (get_entry item)) (get_entry item ++ lp.entries) lp)
  prepend-Holds room =
      grow-Holds items (item ∷ items) lp (length (get_entry item)) _ h room entry_fits
        (rw (h.bytes, append_assoc)) (omega (arith, length-append (get_entry item) (pack items)))
        (omega arith) (hi, h.short)

  -- On a listpack that holds `items`, `PushL` of an item below 2 GiB returns normally with a
  -- listpack that holds the item and then `items` if there is room, and an error otherwise.
  pub push_l_lem :
      (Room lp.size (length (get_entry item)) → Returns (push_l item lp) (Holds (item ∷ items)))
      × (¬ Room lp.size (length (get_entry item)) → push_l item lp ≡ err)
  unfolding push_l
  push_l_lem =
      (λ room. (_, rw (accepts room), prepend-Holds room.0), λ none_left. rw (rejects none_left))
