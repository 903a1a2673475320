-- ===== src/Stream/Ranges.antt =====
-- `ReadAllInRange` and `Push` (app/structures/stream/stream_listpack/stream_listpack.go).
use shitty_redis.Base.{
  ℕ, zero, suc, ◌+◌, ◌≤◌, ◌<◌, ◌≡◌, refl, sym, ap, ◌∙◌, ◌⊎◌, inl, inr, Bool, true, false, ltb,
  Bool-cases, List, [], ◌∷◌, ◌++◌, if◌then◌else◌, length, length-append, map, append_assoc,
  append-nil, All, All-append, All-split, arith,
}
use mathlib.Core.Path.{subst}
use shitty_redis.Base.Go.{Bytes, Run, ok, err, Returns}
use shitty_redis.Listpack.Codec.{IsItem}
use shitty_redis.Listpack.Contents.Sizes.{pack, pack-append, length-pack}
use shitty_redis.Listpack.Contents.Push.{split_last-snoc}
use shitty_redis.Stream.Types.{StreamListpack}
use shitty_redis.Stream.Pack.{
  Entry, get_fields_and_values, gen_items, entry_items, gen_entry, append_entry, is_full, push,
  read_entry, read_started, in_range, range_loop, read_all_in_range,
}
use shitty_redis.Stream.Entries.{
  Written, IsWritten, items_of, shown, all_items, all_items-append, pairs, get_entries-pack,
}
use shitty_redis.Stream.Reading.{Packs, read_entry-Packs, read_from}

-- The entries that a test lets through.
abbrev pub kept : (Entry → Bool) → List Entry → List Entry
kept inside [] = []
kept inside (e ∷ es) = if inside e then e ∷ kept inside es else kept inside es

read_entry-end :
    (s : StreamListpack) (es : List Written)
    → Packs es s
    → read_entry (length (all_items s es)) s ≡ err
unfolding read_entry read_started
read_entry-end s es p =
    let nothing = append-nil (all_items s es) in
    let reads =
      read_from s (all_items s es) [] (subst (All IsItem) (sym nothing) p.short)
        (p.bytes ∙ ap (λ (is : List Bytes). pack is ++ (0xff ∷ [])) (sym nothing)) in
    rw (reads (length (all_items s es)) 0 1 (omega arith)) refl

range_loop-Packs :
    (inside : Entry → Bool) (s : StreamListpack) (before es : List Written) (fuel : ℕ)
    → Packs (before ++ es) s
    → length es < fuel
    → range_loop fuel inside (length (all_items s before)) s ≡ ok (kept inside (map (shown s) es))
unfolding range_loop
range_loop-Packs inside s before es zero p f = absurd (omega arith)
range_loop-Packs inside s before [] (suc fuel) p f =
    let p' : Packs before s = subst (λ (ws : List Written). Packs ws s) (append-nil before) p in
    rw (range_loop, read_entry-end s before p') refl
range_loop-Packs inside s before (e ∷ es) (suc fuel) p f =
    let w : IsWritten e = (All-split IsWritten before (e ∷ es) p.written).1.0 in
    let grown : length (all_items s (before ++ (e ∷ [])))
        ≡ length (all_items s before) + length (items_of s e) =
      ap length (all_items-append s before (e ∷ []) ∙ rw (append-nil (items_of s e)) refl)
      ∙ length-append (all_items s before) (items_of s e) in
    let moved =
      subst (λ (ws : List Written). Packs ws s) (sym (append_assoc before (e ∷ []) es)) p in
    let rest = range_loop-Packs inside s (before ++ (e ∷ [])) es fuel moved (omega arith) in
    rw (range_loop, read_entry-Packs s before e es p w) (rw (sym grown, rest) refl)

length-gen_items :
    (same : Bool) (a c : ℕ) (fs vs : List Bytes) → 1 ≤ length (gen_items same a c fs vs)
unfolding gen_items
length-gen_items true a c fs vs = omega arith
length-gen_items false a c fs vs = omega arith

length-items_of : (s : StreamListpack) (e : Written) → 1 ≤ length (items_of s e)
unfolding entry_items
length-items_of s e = length-gen_items _ _ _ _ _

length-all_items : (s : StreamListpack) (es : List Written) → length es ≤ length (all_items s es)
length-all_items s [] = omega arith
length-all_items s (e ∷ es) = omega (
  arith,
  length-all_items s es,
  length-items_of s e,
  length-append (items_of s e) (all_items s es),
)

-- On a listpack that is packed from entries, `ReadAllInRange` returns normally with the entries
-- of the range, in order, each with its id and its fields and stored values; with other fields
-- than the master's the stored fields too.
pub read_all_in_range-Packs :
    (s : StreamListpack) (es : List Written) (msL seqL msH seqH : ℕ)
    → Packs es s
    → read_all_in_range msL seqL msH seqH s
      ≡ ok (kept (in_range msL seqL msH seqH) (map (shown s) es))
unfolding read_all_in_range
read_all_in_range-Packs s es msL seqL msH seqH p =
    range_loop-Packs (in_range msL seqL msH seqH) s [] es (suc (length s.lp.entries)) p (
      omega (
        arith,
        ap length p.bytes,
        length-append (pack (all_items s es)) (0xff ∷ []),
        length-pack (all_items s es),
        length-all_items s es,
      ))

-- The entry's id is from the low to the high id, both included.
abbrev pub IsInside : ℕ → ℕ → ℕ → ℕ → Entry → Type 0
IsInside msL seqL msH seqH e =
    ((msL < e.ms) ⊎ ((msL ≡ e.ms) × (seqL ≤ e.seq)))
    × ((e.ms < msH) ⊎ ((e.ms ≡ msH) × (e.seq ≤ seqH)))

-- `out` is those of the entries that are inside, in their order.
abbrev pub Selects : (Entry → Type 0) → List Entry → List Entry → Type 0
Selects P [] out = out ≡ []
Selects P (e ∷ es) out =
    (P e × ((more : List Entry) × (out ≡ e ∷ more) × Selects P es more))
    ⊎ ((¬ P e) × Selects P es out)

in_range-IsInside :
    (msL seqL msH seqH : ℕ) (e : Entry)
    → in_range msL seqL msH seqH e ≡ true
    → IsInside msL seqL msH seqH e
unfolding in_range
in_range-IsInside msL seqL msH seqH e h = (low, high)
  where
    low : (msL < e.ms) ⊎ ((msL ≡ e.ms) × (seqL ≤ e.seq))
    low = elim (Bool-cases (ltb msL e.ms)) [
      | inl t ↦ inl (ground arith)
      | inr f ↦ inr (ground arith, ground arith)
    ]

    high : (e.ms < msH) ⊎ ((e.ms ≡ msH) × (e.seq ≤ seqH))
    high = elim (Bool-cases (ltb e.ms msH)) [
      | inl t ↦ inl (ground arith)
      | inr f ↦ inr (ground arith, ground arith)
    ]

in_range-not :
    (msL seqL msH seqH : ℕ) (e : Entry)
    → in_range msL seqL msH seqH e ≡ false
    → ¬ IsInside msL seqL msH seqH e
unfolding in_range
in_range-not msL seqL msH seqH e h inside = ground arith

kept-Selects :
    (msL seqL msH seqH : ℕ) (es : List Entry)
    → Selects (IsInside msL seqL msH seqH) es (kept (in_range msL seqL msH seqH) es)
kept-Selects msL seqL msH seqH [] = refl
kept-Selects msL seqL msH seqH (e ∷ es) = elim (Bool-cases (in_range msL seqL msH seqH e)) [
  | inl t ↦ inl (
    in_range-IsInside msL seqL msH seqH e t,
    (kept (in_range msL seqL msH seqH) es, rw t refl, kept-Selects msL seqL msH seqH es),
  )
  | inr f ↦ inr (in_range-not msL seqL msH seqH e f, rw f (kept-Selects msL seqL msH seqH es))
]

-- On a listpack that is packed from entries, `ReadAllInRange` returns normally with those of them
-- whose id lies between the two given ones, both included, first by milliseconds and then by
-- sequence number, and no others, in order, each with its id and its fields and stored values;
-- with other fields than the master's the stored fields too.
pub read_all_in_range-Selects :
    (s : StreamListpack) (es : List Written) (msL seqL msH seqH : ℕ)
    → Packs es s
    → Returns
        (read_all_in_range msL seqL msH seqH s)
        (Selects (IsInside msL seqL msH seqH) (map (shown s) es))
read_all_in_range-Selects s es msL seqL msH seqH p = (
  kept (in_range msL seqL msH seqH) (map (shown s) es),
  read_all_in_range-Packs s es msL seqL msH seqH p,
  kept-Selects msL seqL msH seqH (map (shown s) es),
)

get_fields_and_values-pairs :
    (fs vs : List Bytes) → length fs ≡ length vs → get_fields_and_values (pairs fs vs) ≡ ok (fs, vs)
unfolding get_fields_and_values
get_fields_and_values-pairs [] [] l = refl
get_fields_and_values-pairs [] (v ∷ vs) l = absurd (omega arith)
get_fields_and_values-pairs (f ∷ fs) [] l = absurd (omega arith)
get_fields_and_values-pairs (f ∷ fs) (v ∷ vs) l =
    rw (get_fields_and_values-pairs fs vs (omega arith)) refl

gen_entry-pairs :
    (s : StreamListpack) (e : Written)
    → IsWritten e
    → gen_entry s (pairs e.fields e.values) e.ms e.seq ≡ ok (pack (items_of s e))
unfolding gen_entry
gen_entry-pairs s e w =
    rw (get_fields_and_values-pairs e.fields e.values w.paired)
      (ap ok (get_entries-pack (items_of s e)))

-- The listpack behind a `Push` of these items.
abbrev grown_by : List Bytes → List Bytes → StreamListpack → StreamListpack
grown_by olds items s = record s {
  count = suc s.count;
  lp = record s.lp { entries = pack olds ++ (pack items ++ (0xff ∷ [])) };
}

append_entry-pack :
    (olds items : List Bytes) (s : StreamListpack)
    → s.lp.entries ≡ pack olds ++ (0xff ∷ [])
    → append_entry (pack items) s ≡ ok (grown_by olds items s)
unfolding append_entry
append_entry-pack olds items s e = simp (e, split_last-snoc (pack olds) 0xff)

all_items-grown_by :
    (olds items : List Bytes) (s : StreamListpack) (es : List Written)
    → all_items (grown_by olds items s) es ≡ all_items s es
unfolding entry_items
all_items-grown_by olds items s [] = refl
all_items-grown_by olds items s (e ∷ es) = rw (all_items-grown_by olds items s es) refl

-- What a `Push` that is not refused does.
pub record Grows (es : List Written) (e : Written) (s : StreamListpack) (r : Run StreamListpack)
    : Type 0 where
  pub pack_after : StreamListpack
  pub returned : r ≡ ok pack_after
  pub packs : Packs (es ++ (e ∷ [])) pack_after
  pub counted : pack_after.count ≡ suc s.count
  pub same_size : pack_after.lp.size ≡ s.lp.size
  pub same_master :
      (pack_after.fields ≡ s.fields) × (pack_after.ms ≡ s.ms) × (pack_after.seq ≡ s.seq)

module _ (es : List Written) (e : Written) (s : StreamListpack) (p : Packs es s) (w : IsWritten e)
    (short : All IsItem (items_of s e)) where
  abbrev longer : StreamListpack
  longer = grown_by (all_items s es) (items_of s e) s

  items_longer : all_items longer (es ++ (e ∷ [])) ≡ all_items s es ++ items_of s e
  items_longer =
      all_items-grown_by (all_items s es) (items_of s e) s (es ++ (e ∷ []))
      ∙ all_items-append s es (e ∷ [])
      ∙ rw (append-nil (items_of s e)) refl

  longer-Packs : Packs (es ++ (e ∷ [])) longer
  longer-Packs = record {
    bytes =
        sym (append_assoc (pack (all_items s es)) (pack (items_of s e)) (0xff ∷ []))
        ∙ ap (λ (bs : Bytes). bs ++ (0xff ∷ []))
            (sym (pack-append (all_items s es) (items_of s e)) ∙ ap pack (sym items_longer));
    written = All-append IsWritten es (e ∷ []) p.written (w, tt);
    short =
        subst (All IsItem) (sym items_longer)
          (All-append IsItem (all_items s es) (items_of s e) p.short short);
    ms_fits = p.ms_fits;
    seq_fits = p.seq_fits;
  }

  -- `Push` of an entry for which there is room, its items below 2 GiB, onto a listpack packed
  -- from entries returns normally with one that is packed from these and the entry, counts one
  -- more, and has the size field and the master entry of before.
  pub push-Grows :
      is_full (pack (items_of s e)) s ≡ false
      → Grows es e s (push (pairs e.fields e.values) e.ms e.seq s)
  push-Grows room = record {
    pack_after = longer;
    returned =
        unfold push in
        rw (gen_entry-pairs s e w, room)
          (append_entry-pack (all_items s es) (items_of s e) s p.bytes);
    packs = longer-Packs;
    counted = refl;
    same_size = refl;
    same_master = (refl, refl, refl);
  }

  -- `Push` of an entry for which there is no room.
  pub push_refused :
      is_full (pack (items_of s e)) s ≡ true → push (pairs e.fields e.values) e.ms e.seq s ≡ err
  unfolding push
  push_refused full = rw (gen_entry-pairs s e w, full) refl
