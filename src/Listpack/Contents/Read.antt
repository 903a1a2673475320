-- ===== src/Listpack/Contents/Read.antt =====
-- `Read` (app/structures/listpack/listpack.go) on a listpack that holds items.
use shitty_redis.Base.{
  ℕ, zero, suc, ◌-◌, ◌<◌, ◌≡◌, refl, ap, ◌∙◌, List, [], ◌∷◌, ◌++◌, arith, map, take, drop, length,
  length-append, append_assoc, ◌==◌, false, All, take-nil, drop-nil,
}
use shitty_redis.Base.Go.{Bytes, ok, ◌>>=◌}
use shitty_redis.Listpack.Entry.{get_entry}
use shitty_redis.Listpack.Pack.{Listpack, read_loop, read}
use shitty_redis.Listpack.Codec.{IsItem, stored, get_entry-Decodes}
use shitty_redis.Listpack.Codec.Parts.{Decodes}
use shitty_redis.Listpack.Contents.Sizes.{pack, length-get_entry, Holds}

minus_one : (m : ℕ) → suc m - 1 ≡ m
minus_one m = omega arith

suc_ne_zero : (m : ℕ) → (suc m == 0) ≡ false
suc_ne_zero m = ground arith

-- One round of the loop at an entry.
module _ {text entry : Bytes} (d : Decodes text entry) (fuel : ℕ) (rest : Bytes) where
  loop_enough : (k : ℕ) → read_loop (suc fuel) (d.tag ∷ (d.after ++ rest)) k 0 ≡ ok []
  unfolding read_loop
  loop_enough k = ground arith

  loop_skip :
      (k m : ℕ)
      → read_loop (suc fuel) (d.tag ∷ (d.after ++ rest)) (suc k) (suc m)
        ≡ read_loop fuel rest k (suc m)
  unfolding read_loop
  loop_skip k m = rw (d.not_end, suc_ne_zero m) (d.skip (read_loop fuel) rest k (suc m))

  loop_take :
      (m : ℕ)
      → read_loop (suc fuel) (d.tag ∷ (d.after ++ rest)) 0 (suc m)
        ≡ (read_loop fuel rest 0 m >>= λ elements. ok (text ∷ elements))
  unfolding read_loop
  loop_take m = rw (d.not_end, suc_ne_zero m, d.take_one (read_loop fuel) rest (suc m), minus_one m)

  round :
      (texts : List Bytes)
      → ((k m : ℕ) → read_loop fuel rest k m ≡ ok (take m (drop k texts)))
      → (k m : ℕ)
      → read_loop (suc fuel) (d.tag ∷ (d.after ++ rest)) k m ≡ ok (take m (drop k (text ∷ texts)))
  round texts ih k zero = loop_enough k
  round texts ih (suc k) (suc m) = loop_skip k m ∙ ih k (suc m)
  round texts ih zero (suc m) = loop_take m ∙ rw (ih zero m)

split-pack :
    (item : Bytes) (items : List Bytes) (h : IsItem item)
    → let d = get_entry-Decodes item h in
      pack (item ∷ items) ++ (0xff ∷ []) ≡ d.tag ∷ (d.after ++ (pack items ++ (0xff ∷ [])))
split-pack item items h =
    let d = get_entry-Decodes item h in
    append_assoc (get_entry item) (pack items) (0xff ∷ [])
    ∙ ap (λ (t : Bytes). t ++ (pack items ++ (0xff ∷ []))) d.shape

read_loop-pack :
    (items : List Bytes) (fuel : ℕ)
    → All IsItem items
    → length (pack items ++ (0xff ∷ [])) < fuel
    → (offset m : ℕ)
    → read_loop fuel (pack items ++ (0xff ∷ [])) offset m
      ≡ ok (take m (drop offset (map stored items)))
read_loop-pack items zero h f offset m = absurd (omega arith)
read_loop-pack [] (suc fuel) h f offset m =
    rw (drop-nil offset, take-nil m) (unfold read_loop in refl)
read_loop-pack (item ∷ items) (suc fuel) (hi, hs) f offset m =
    let rest = pack items ++ (0xff ∷ []) in
    let shorter : length rest < fuel = omega (
      arith,
      length-get_entry item,
      length-append (get_entry item ++ pack items) (0xff ∷ []),
      length-append (get_entry item) (pack items),
      length-append (pack items) (0xff ∷ []),
    ) in
    rw (split-pack item items hi) (
      round (get_entry-Decodes item hi) fuel rest (map stored items)
        (read_loop-pack items fuel hs shorter) offset m)

-- On a slice that is packed from `items`, whatever the header says.
pub read-pack :
    (items : List Bytes) (lp : Listpack) (offset m : ℕ)
    → All IsItem items
    → lp.entries ≡ pack items ++ (0xff ∷ [])
    → read offset m lp ≡ ok (take m (drop offset (map stored items)))
unfolding read
read-pack items lp offset m short e = rw e (read_loop-pack items _ short (omega arith) offset m)

-- On a listpack that holds `items`, `Read` returns normally with the `m` stored items from
-- `offset` on, or as many as there are.
pub read-Holds :
    (items : List Bytes) (lp : Listpack) (offset m : ℕ)
    → Holds items lp
    → read offset m lp ≡ ok (take m (drop offset (map stored items)))
read-Holds items lp offset m h = read-pack items lp offset m h.short h.bytes
