-- ===== src/Listpack/Contents/Pop.antt =====
-- `PopL` (app/structures/listpack/listpack.go) on a listpack that holds items.
use shitty_redis.Base.{
  ℕ, zero, suc, ◌+◌, ◌%◌, ◌^◌, ◌≤◌, ◌<◌, ◌≡◌, refl, ap, ◌∙◌, List, [], ◌∷◌, ◌++◌, arith, false,
  length, length-append, take-append, drop-append, append_assoc, All, All-append, All-split, leb,
  ◌==◌, ◌||◌,
}
use shitty_redis.Base.Go.{Bytes, ok, err, ◌>>=◌, Returns}
use shitty_redis.Base.Int.{negsuc, sub_ℕ, ◌+ℤ◌}
use shitty_redis.Listpack.Entry.{get_entry}
use shitty_redis.Listpack.Pack.{Listpack, update_size, update_count, pop_loop, pop_l}
use shitty_redis.Listpack.Codec.{IsItem, stored, get_entry-Decodes}
use shitty_redis.Listpack.Codec.Parts.{Decodes, read_bytes-append}
use shitty_redis.Listpack.Contents.Sizes.{pack, pack-append, Holds}

-- One round of the loop at an entry.
module _ {text entry : Bytes} (d : Decodes text entry) (before rest : Bytes) where
  pop_skip : (k : ℕ) → pop_loop (suc k) before (entry ++ rest) ≡ pop_loop k (before ++ entry) rest
  unfolding pop_loop
  pop_skip k = rw d.shape (
      rw (d.byte_count rest, ◌>>=◌, ap length d.shape)
        (rw (take-append (d.tag ∷ d.after) rest, drop-append (d.tag ∷ d.after) rest)))

  pop_here : pop_loop zero before (entry ++ rest) ≡ ok (text, length entry, before ++ rest)
  unfolding pop_loop
  pop_here = rw d.shape (
      rw (
        d.byte_count rest,
        ◌>>=◌,
        ap length d.shape,
        d.popped rest,
        read_bytes-append (d.tag ∷ d.after) rest,
      ))

pop_loop-pack :
    (xs : List Bytes) (x before rest : Bytes)
    → All IsItem xs
    → IsItem x
    → pop_loop (length xs) before (pack xs ++ (get_entry x ++ rest))
      ≡ ok (stored x, length (get_entry x), before ++ (pack xs ++ rest))
pop_loop-pack [] x before rest h hx = pop_here (get_entry-Decodes x hx) before rest
pop_loop-pack (y ∷ xs) x before rest (hy, hs) hx =
    rw (append_assoc (get_entry y) (pack xs) (get_entry x ++ rest)) (
      pop_skip (get_entry-Decodes y hy) before (pack xs ++ (get_entry x ++ rest)) (length xs)
      ∙ pop_loop-pack xs x (before ++ get_entry y) rest hs hx
      ∙ simp append_assoc)

module _ (xs : List Bytes) (x : Bytes) (ys : List Bytes) (lp : Listpack)
    (h : Holds (xs ++ (x ∷ ys)) lp) where
  abbrev popped_pack : Listpack
  popped_pack =
      update_size (sub_ℕ 0 (length (get_entry x)))
        (update_count (negsuc 0) (record lp { entries = pack (xs ++ ys) ++ (0xff ∷ []) }))

  pop_run :
      pop_loop (length xs) [] lp.entries
      ≡ ok (stored x, length (get_entry x), pack (xs ++ ys) ++ (0xff ∷ []))
  pop_run =
      let (short_xs, (short_x, short_ys)) = All-split IsItem xs (x ∷ ys) h.short in
      rw (h.bytes, pack-append xs (x ∷ ys), pack-append xs ys)
        (simp append_assoc (pop_loop-pack xs x [] (pack ys ++ (0xff ∷ [])) short_xs short_x))

  pop_Holds : Holds (xs ++ ys) popped_pack
  unfolding update_size update_count ◌+ℤ◌
  pop_Holds =
      let (short_xs, (short_x, short_ys)) = All-split IsItem xs (x ∷ ys) h.short in
      let bytes_left : length (pack (xs ++ (x ∷ ys)))
          ≡ length (pack (xs ++ ys)) + length (get_entry x) =
        rw (pack-append xs (x ∷ ys), pack-append xs ys)
          (omega (
            arith,
            length-append (pack xs) (get_entry x ++ pack ys),
            length-append (get_entry x) (pack ys),
            length-append (pack xs) (pack ys),
          )) in
      let items_left : length (xs ++ (x ∷ ys)) ≡ length (xs ++ ys) + 1 =
        omega (arith, length-append xs (x ∷ ys), length-append xs ys) in
      record {
        bytes = refl;
        sized = ground (arith, h.sized, h.within, bytes_left);
        counted = ground (arith, h.counted, h.few, items_left);
        within = ground (arith, h.sized, h.within, bytes_left);
        few = omega (arith, h.few, items_left);
        short = All-append IsItem xs ys short_xs short_ys;
      }

  in_range : lp.count == 0 || leb lp.count (length xs % 2 ^ 16) ≡ false
  in_range = ground (arith, h.counted, h.few, length-append xs (x ∷ ys))

  -- On a listpack that holds `xs`, `x` and `ys`, `PopL` at the offset of `x` returns normally
  -- with the stored text of `x` and a listpack that holds `xs` and `ys`.
  pub pop_l_lem : Returns (pop_l (length xs) lp) λ r. (r.0 ≡ stored x) × Holds (xs ++ ys) r.1
  unfolding pop_l
  pop_l_lem = ((stored x, popped_pack), rw (in_range, pop_run), (refl, pop_Holds))

-- On a listpack that holds `items`, `PopL` at an offset past the end, below 2 ^ 16, is an error.
pub pop_l_past :
    (items : List Bytes) (lp : Listpack) (offset : ℕ)
    → Holds items lp
    → length items ≤ offset
    → offset < 2 ^ 16
    → pop_l offset lp ≡ err
unfolding pop_l
pop_l_past items lp offset h le lt = ground (arith, h.counted)
