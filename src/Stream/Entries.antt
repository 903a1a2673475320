-- ===== src/Stream/Entries.antt =====
-- A stream's listpack (app/structures/stream/stream_listpack) as the list of its entries.
use shitty_redis.Base.{
  ℕ, suc, ◌+◌, ◌*◌, ◌%◌, ◌^◌, ◌<◌, ◌≡◌, refl, sym, ap, ◌∙◌, Bool, true, false, List, [], ◌∷◌, ◌++◌,
  some, length, take, drop, take-append, map, map-append, append_assoc, arith, ltb, Bool-cases, inl,
  inr,
}
use shitty_redis.Base.Go.{Bytes, ok}
use shitty_redis.Base.Int.{pos}
use shitty_redis.Strconv.{parse_int, format_uint, format_int, positive, decimal}
use shitty_redis.Strconv.RoundTrip.{parse_int-format_uint, parse_uint-format_uint}
use shitty_redis.Command.Fields.{◌==s◌}
use shitty_redis.Txns.Watching.{same_key}
use shitty_redis.Listpack.Pack
use shitty_redis.Listpack.Pack.{Listpack}
use shitty_redis.Listpack.Codec.{stored}
use shitty_redis.Listpack.Stored.{stored_number, stored_text}
use shitty_redis.Listpack.Contents.Sizes.{pack}
use shitty_redis.Stream.Types.{StreamListpack}
use shitty_redis.Stream.Ids.{uint_or_err}
use shitty_redis.Stream.Pack.{
  Entry, match_master_fields, get_entries, gen_values, gen_items, entry_items, read_one,
  with_fields, field_count, read_data, is_deleted, is_same_fields, read_flagged, read_started,
  read_entry,
}

pub get_entries-pack : (items : List Bytes) → get_entries items ≡ pack items
unfolding get_entries
get_entries-pack [] = refl
get_entries-pack (item ∷ items) = rw (get_entries-pack items) refl

-- A number is stored as it is.
stored-format_uint : (n : ℕ) → n < 2 ^ 64 → stored (format_uint n) ≡ format_uint n
stored-format_uint n h = elim (Bool-cases (ltb n (2 ^ 63))) [
  | inl e ↦
      stored_number (format_uint n) (pos n)
        (parse_int-format_uint n h ∙ (unfold positive in rw e refl))
      ∙ (unfold format_int in refl)
  | inr e ↦ stored_text (format_uint n) (parse_int-format_uint n h ∙ (unfold positive in rw e refl))
]

parse_int-count : (n : ℕ) → n < 2 ^ 31 → parse_int (format_uint n) ≡ some (pos n)
unfolding positive
parse_int-count n h = parse_int-format_uint n (omega arith) ∙ ground arith

abbrev pub pairs : List Bytes → List Bytes → List Bytes
pairs [] vs = []
pairs (f ∷ fs) [] = []
pairs (f ∷ fs) (v ∷ vs) = f ∷ v ∷ pairs fs vs

pub gen_values-same : (fs vs : List Bytes) → length fs ≡ length vs → gen_values true fs vs ≡ vs
unfolding gen_values
gen_values-same [] [] h = refl
gen_values-same [] (v ∷ vs) h = absurd (omega arith)
gen_values-same (f ∷ fs) [] h = absurd (omega arith)
gen_values-same (f ∷ fs) (v ∷ vs) h = rw (gen_values-same fs vs (omega arith)) refl

pub gen_values-pairs : (fs vs : List Bytes) → gen_values false fs vs ≡ pairs fs vs
unfolding gen_values
gen_values-pairs [] vs = refl
gen_values-pairs (f ∷ fs) [] = refl
gen_values-pairs (f ∷ fs) (v ∷ vs) = rw (gen_values-pairs fs vs) refl

pub length-pairs :
    (fs vs : List Bytes) → length fs ≡ length vs → length (pairs fs vs) ≡ 2 * length fs
length-pairs [] vs h = omega arith
length-pairs (f ∷ fs) [] h = absurd (omega arith)
length-pairs (f ∷ fs) (v ∷ vs) h = omega (arith, length-pairs fs vs (omega arith))

with_fields-pairs :
    (fs vs : List Bytes) → length fs ≡ length vs → with_fields fs vs ≡ ok (pairs fs vs)
unfolding with_fields
with_fields-pairs [] vs h = refl
with_fields-pairs (f ∷ fs) [] h = absurd (omega arith)
with_fields-pairs (f ∷ fs) (v ∷ vs) h = rw (with_fields-pairs fs vs (omega arith)) refl

pub matched : (fs ms : List Bytes) → match_master_fields fs ms ≡ true → fs ≡ ms
unfolding match_master_fields
matched [] [] e = refl
matched [] (m ∷ ms) e = cc
matched (f ∷ fs) [] e = cc
matched (f ∷ fs) (m ∷ ms) e =
    let head : f ≡ m = same_key f m (ground arith) in
    let tail : fs ≡ ms = matched fs ms (ground arith) in rw (head, tail) refl

-- An entry as it was pushed.
pub record Written : Type 0 where
  pub ms : ℕ
  pub seq : ℕ
  pub fields : List Bytes
  pub values : List Bytes

pub record IsWritten (e : Written) : Type 0 where
  pub ms_fits : e.ms < 2 ^ 64
  pub seq_fits : e.seq < 2 ^ 64
  pub paired : length e.fields ≡ length e.values
  pub few : length e.fields < 2 ^ 30

abbrev pub items_of : StreamListpack → Written → List Bytes
items_of s e = entry_items s e.fields e.values e.ms e.seq

-- What comes back of an entry: the master's fields with the stored values, or the stored texts.
abbrev pub data_of : Bool → StreamListpack → Written → List Bytes
data_of true s e = pairs s.fields (map stored e.values)
data_of false s e = map stored (pairs e.fields e.values)

abbrev pub shown : StreamListpack → Written → Entry
shown s e = record {
  ms = e.ms;
  seq = e.seq;
  values = data_of (match_master_fields e.fields s.fields) s e;
}

abbrev pub all_items : StreamListpack → List Written → List Bytes
all_items s [] = []
all_items s (e ∷ es) = items_of s e ++ all_items s es

pub all_items-append :
    (s : StreamListpack) (es fs : List Written)
    → all_items s (es ++ fs) ≡ all_items s es ++ all_items s fs
all_items-append s [] fs = refl
all_items-append s (e ∷ es) fs = rw (all_items-append s es fs, append_assoc) refl

pub drop_past {ℓ} :
    {A : Type ℓ} (xs ys : List A) (k : ℕ) → drop (length xs + k) (xs ++ ys) ≡ drop k ys
drop_past [] ys k = let same : 0 + k ≡ k = omega arith in rw same refl
drop_past (x ∷ xs) ys k =
    let same : suc (length xs) + k ≡ suc (length xs + k) = omega arith in
    rw same (drop_past xs ys k)

take_one {ℓ} : {A : Type ℓ} (x : A) (xs : List A) → take 1 (x ∷ xs) ≡ x ∷ []
take_one x [] = refl
take_one x (y ∷ xs) = refl

-- The offset `at` stands before the texts `texts`.
abbrev pub Reads : StreamListpack → ℕ → List Bytes → Type 0
Reads s at texts = (o k m : ℕ) → o ≡ at + k → Pack.read o m s.lp ≡ ok (take m (drop k texts))

module _ (s : StreamListpack) (at : ℕ) (texts : List Bytes) (reads : Reads s at texts) where
  read_one-at :
      (o k : ℕ) (t : Bytes) (rest : List Bytes)
      → o ≡ at + k
      → drop k texts ≡ t ∷ rest
      → read_one o s ≡ ok t
  unfolding read_one
  read_one-at o k t rest e d = rw (reads o k 1 e, d) refl

module _ (s : StreamListpack) (at a c : ℕ) (ha : a < 2 ^ 64) (hc : c < 2 ^ 64) where
  abbrev pub entry_with : List Bytes → Entry
  entry_with values = record {
    ms = (s.ms + a) % 2 ^ 64;
    seq = (s.seq + c) % 2 ^ 64;
    values = values;
  }

  arrived_same : (n : ℕ) → at + 1 + 2 + n + 1 ≡ at + 3 + n + 1
  arrived_same n = omega arith

  arrived_other : (n : ℕ) → at + 1 + 2 + 1 + n + 1 ≡ at + 4 + n + 1
  arrived_other n = omega arith

  pub read_entry-same :
      (vs : List Bytes) (last : Bytes) (rest : List Bytes)
      → length s.fields ≡ length vs
      → Reads s at ((b'2' ∷ []) ∷ format_uint a ∷ format_uint c ∷ (vs ++ (last ∷ rest)))
      → read_entry at s ≡ ok (some (entry_with (pairs s.fields vs)), at + 3 + length vs + 1)
  unfolding read_entry read_started read_flagged read_data uint_or_err is_deleted is_same_fields
      ◌==s◌
  read_entry-same vs last rest l reads =
      let texts = (b'2' ∷ []) ∷ format_uint a ∷ format_uint c ∷ (vs ++ (last ∷ rest)) in
      rw
        (
          reads at 0 1 (omega arith),
          read_one-at s at texts reads (at + 1) 1 (format_uint a) _ (omega arith) refl,
          parse_uint-format_uint a ha,
          read_one-at s at texts reads (at + 1 + 1) 2 (format_uint c) _ (omega arith) refl,
          parse_uint-format_uint c hc,
          reads (at + 1 + 2) 3 (length s.fields) (omega arith),
        )
        (rw
          (
            l,
            take-append vs (last ∷ rest),
            with_fields-pairs s.fields vs l,
            arrived_same (length vs),
          )
          refl)

  pub read_entry-other :
      (n : ℕ) (ps : List Bytes) (last : Bytes) (rest : List Bytes)
      → n < 2 ^ 31
      → length ps ≡ 2 * n
      → Reads s at
          ((b'0' ∷ []) ∷ format_uint a ∷ format_uint c ∷ format_uint n ∷ (ps ++ (last ∷ rest)))
      → read_entry at s ≡ ok (some (entry_with ps), at + 4 + length ps + 1)
  unfolding read_entry read_started read_flagged read_data uint_or_err is_deleted is_same_fields
      ◌==s◌ field_count
  read_entry-other n ps last rest hn l reads =
      let texts =
        (b'0' ∷ []) ∷ format_uint a ∷ format_uint c ∷ format_uint n ∷ (ps ++ (last ∷ rest)) in
      rw
        (
          reads at 0 1 (omega arith),
          read_one-at s at texts reads (at + 1) 1 (format_uint a) _ (omega arith) refl,
          parse_uint-format_uint a ha,
          read_one-at s at texts reads (at + 1 + 1) 2 (format_uint c) _ (omega arith) refl,
          parse_uint-format_uint c hc,
          read_one-at s at texts reads (at + 1 + 2) 3 (format_uint n) _ (omega arith) refl,
          parse_int-count n hn,
          reads (at + 1 + 2 + 1) 4 (2 * n) (omega arith),
          sym l,
        )
        (rw (take-append ps (last ∷ rest), arrived_other (length ps)) refl)

one_digit : (n : ℕ) → n < 10 → format_uint n ≡ (48 + n) ∷ []
unfolding format_uint decimal
one_digit n h = ground arith

small_text : (n : ℕ) → n < 10 → stored ((48 + n) ∷ []) ≡ (48 + n) ∷ []
small_text n h =
    sym (ap stored (one_digit n h)) ∙ stored-format_uint n (omega arith) ∙ one_digit n h

-- What is stored of the items of an entry.
module _ (a c : ℕ) (ha : a < 2 ^ 64) (hc : c < 2 ^ 64) (fs vs after : List Bytes)
    (paired : length fs ≡ length vs) (few : length fs < 2 ^ 30) where
  pub texts-same :
      map stored (gen_items true a c fs vs ++ after)
      ≡ (b'2' ∷ [])
        ∷ format_uint a
        ∷ format_uint c
        ∷ (map stored vs ++ (stored (format_uint (3 + length fs)) ∷ map stored after))
  unfolding gen_items
  texts-same =
      rw
        (
          gen_values-same fs vs paired,
          append_assoc vs (format_uint (3 + length fs) ∷ []) after,
          map-append stored vs ((format_uint (3 + length fs) ∷ []) ++ after),
          stored-format_uint a ha,
          stored-format_uint c hc,
          small_text 2 (omega arith),
        )
        refl

  pub texts-other :
      map stored (gen_items false a c fs vs ++ after)
      ≡ (b'0' ∷ [])
        ∷ format_uint a
        ∷ format_uint c
        ∷ format_uint (length fs)
        ∷ (map stored (pairs fs vs)
            ++ (stored (format_uint (4 + 2 * length fs)) ∷ map stored after))
  unfolding gen_items
  texts-other =
      rw
        (
          gen_values-pairs fs vs,
          append_assoc (pairs fs vs) (format_uint (4 + 2 * length fs) ∷ []) after,
          map-append stored (pairs fs vs) ((format_uint (4 + 2 * length fs) ∷ []) ++ after),
          stored-format_uint a ha,
          stored-format_uint c hc,
          stored-format_uint (length fs) (omega arith),
          small_text 0 (omega arith),
        )
        refl
