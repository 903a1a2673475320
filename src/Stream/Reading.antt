-- ===== src/Stream/Reading.antt =====
-- `ReadEntry` (app/structures/stream/stream_listpack/stream_listpack.go) on a packed listpack.
use shitty_redis.Base.{
  ℕ, ◌+◌, ◌-◌, ◌*◌, ◌%◌, ◌^◌, ◌<◌, ◌≡◌, refl, sym, ap, ◌∙◌, Bool, true, false, List, [], ◌∷◌, ◌++◌,
  some, length, length-append, length-map, take, drop, map, map-append, All, arith,
}
use mathlib.Core.Path.{subst}
use shitty_redis.Base.Go.{Bytes, ok}
use shitty_redis.Strconv.{format_uint}
use shitty_redis.Listpack.Codec.{IsItem, stored}
use shitty_redis.Listpack.Contents.Sizes.{pack}
use shitty_redis.Listpack.Contents.Read.{read-pack}
use shitty_redis.Stream.Types.{StreamListpack}
use shitty_redis.Stream.Pack.{match_master_fields, gen_items, entry_items, read_entry}
use shitty_redis.Stream.Entries.{
  Written, IsWritten, items_of, data_of, shown, all_items, all_items-append, pairs, length-pairs,
  gen_values-same, gen_values-pairs, matched, drop_past, Reads, entry_with, read_entry-same,
  read_entry-other, texts-same, texts-other,
}

module _ (s : StreamListpack) (at a c : ℕ) (ha : a < 2 ^ 64) (hc : c < 2 ^ 64) (e : Written)
    (w : IsWritten e) (after : List Bytes) where
  length-gen_same : length (gen_items true a c e.fields e.values) ≡ 4 + length e.values
  unfolding gen_items
  length-gen_same =
      rw (gen_values-same e.fields e.values w.paired)
        (omega (arith, length-append e.values (format_uint (3 + length e.fields) ∷ [])))

  length-gen_other :
      length (gen_items false a c e.fields e.values) ≡ 5 + length (pairs e.fields e.values)
  unfolding gen_items
  length-gen_other = rw (gen_values-pairs e.fields e.values) (
      omega (
        arith,
        length-append (pairs e.fields e.values) (format_uint (4 + 2 * length e.fields) ∷ []),
      ))

  read_entry-gen :
      (b : Bool)
      → (b ≡ true → e.fields ≡ s.fields)
      → Reads s at (map stored (gen_items b a c e.fields e.values ++ after))
      → read_entry at s
        ≡ ok (
          some (entry_with s at a c ha hc (data_of b s e)),
          at + length (gen_items b a c e.fields e.values),
        )
  read_entry-gen true same reads =
      let reads' =
        subst (Reads s at) (texts-same a c ha hc e.fields e.values after w.paired w.few) reads in
      let l : length s.fields ≡ length (map stored e.values) =
        omega (arith, ap length (same refl), length-map stored e.values, w.paired) in
      read_entry-same s at a c ha hc (map stored e.values) _ _ l reads'
      ∙ ap (λ n. ok (some (entry_with s at a c ha hc (pairs s.fields (map stored e.values))), n))
          (omega (arith, length-map stored e.values, length-gen_same))
  read_entry-gen false same reads =
      let reads' =
        subst (Reads s at) (texts-other a c ha hc e.fields e.values after w.paired w.few) reads in
      let l : length (map stored (pairs e.fields e.values)) ≡ 2 * length e.fields = omega (
        arith,
        length-map stored (pairs e.fields e.values),
        length-pairs e.fields e.values w.paired,
      ) in
      read_entry-other s at a c ha hc (length e.fields) (map stored (pairs e.fields e.values)) _ _
        (omega (arith, w.few)) l reads'
      ∙ ap (λ n. ok (some (entry_with s at a c ha hc (map stored (pairs e.fields e.values))), n))
          (omega (arith, length-map stored (pairs e.fields e.values), length-gen_other))

-- The listpack is packed from the entries' items, and its master entry is a pair of uint64s.
pub record Packs (es : List Written) (s : StreamListpack) : Type 0 where
  pub bytes : s.lp.entries ≡ pack (all_items s es) ++ (0xff ∷ [])
  pub written : All IsWritten es
  pub short : All IsItem (all_items s es)
  pub ms_fits : s.ms < 2 ^ 64
  pub seq_fits : s.seq < 2 ^ 64

back : (x m : ℕ) → x < 2 ^ 64 → m < 2 ^ 64 → (m + (x + 2 ^ 64 - m) % 2 ^ 64) % 2 ^ 64 ≡ x
back x m h k = omega arith

pub read_from :
    (s : StreamListpack) (before rest : List Bytes)
    → All IsItem (before ++ rest)
    → s.lp.entries ≡ pack (before ++ rest) ++ (0xff ∷ [])
    → Reads s (length before) (map stored rest)
read_from s before rest short bytes o k m e =
    read-pack (before ++ rest) s.lp o m short bytes
    ∙ ap (λ (ts : List Bytes). ok (take m ts))
        (rw (e, map-append stored before rest)
          (ap (λ n. drop (n + k) (map stored before ++ map stored rest))
              (sym (length-map stored before))
            ∙ drop_past (map stored before) (map stored rest) k))

module _ (s : StreamListpack) (before : List Written) (e : Written) (after : List Written)
    (p : Packs (before ++ (e ∷ after)) s) (w : IsWritten e) where
  -- At the offset of an entry `ReadEntry` reads it.
  pub read_entry-Packs :
      read_entry (length (all_items s before)) s
      ≡ ok (some (shown s e), length (all_items s before) + length (items_of s e))
  unfolding entry_items
  read_entry-Packs =
      let split = all_items-append s before (e ∷ after) in
      let reads =
        read_from s (all_items s before) (items_of s e ++ all_items s after)
          (subst (All IsItem) split p.short)
          (p.bytes ∙ ap (λ (is : List Bytes). pack is ++ (0xff ∷ [])) split) in
      let far_ms : (e.ms + 2 ^ 64 - s.ms) % 2 ^ 64 < 2 ^ 64 = omega arith in
      let far_seq : (e.seq + 2 ^ 64 - s.seq) % 2 ^ 64 < 2 ^ 64 = omega arith in
      read_entry-gen s (length (all_items s before)) _ _ far_ms far_seq e w (all_items s after)
        (match_master_fields e.fields s.fields) (matched e.fields s.fields) reads
      ∙ rw (back e.ms s.ms w.ms_fits p.ms_fits, back e.seq s.seq w.seq_fits p.seq_fits) refl
