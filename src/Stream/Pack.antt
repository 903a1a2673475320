-- ===== src/Stream/Pack.antt =====
-- The listpack of a stream: app/structures/stream/stream_listpack. Numbers wrap as uint64 and uint32.
use shitty_redis.Base.{
  ℕ, zero, suc, ◌+◌, ◌-◌, ◌*◌, ◌%◌, ◌^◌, Bool, true, false, ◌&&◌, ◌||◌, List, [], ◌∷◌, ◌++◌, Option,
  none, some, ◌==◌, ltb, leb, if◌then◌else◌, get_elem?, length,
}
use shitty_redis.Base.Go.{Bytes, Run, ok, err, panic, stuck, ◌>>=◌, or_panic}
use shitty_redis.Base.Int.{ℤ, pos, negsuc}
use shitty_redis.Strconv.{parse_uint, parse_int, format_uint}
use shitty_redis.Command.Fields.{◌==s◌}
use shitty_redis.Listpack.Entry.{get_entry}
use shitty_redis.Listpack.Pack
use shitty_redis.Listpack.Pack.{Listpack, split_last}
use shitty_redis.Stream.Types.{StreamListpack}
use shitty_redis.Stream.Ids.{uint_or_err}

abbrev pub stream_node_max_entries : ℕ
stream_node_max_entries = 100

abbrev pub stream_node_max_bytes : ℕ
stream_node_max_bytes = 4096

pub record Entry : Type 0 where
  pub ms : ℕ
  pub seq : ℕ
  pub values : List Bytes

-- The fields and the values; a field with no value is an index out of range.
unfoldable pub get_fields_and_values : List Bytes → Run (List Bytes × List Bytes)
get_fields_and_values [] = ok ([], [])
get_fields_and_values (f ∷ []) = panic
get_fields_and_values (f ∷ v ∷ pairs) = do
  (fields, values) ← get_fields_and_values pairs
  ok (f ∷ fields, v ∷ values)

unfoldable pub match_master_fields : List Bytes → List Bytes → Bool
match_master_fields [] [] = true
match_master_fields [] (m ∷ ms) = false
match_master_fields (f ∷ fs) [] = false
match_master_fields (f ∷ fs) (m ∷ ms) = f ==s m && match_master_fields fs ms

-- The entries of the listpack, one after the other.
unfoldable pub get_entries : List Bytes → Bytes
get_entries [] = []
get_entries (item ∷ items) = get_entry item ++ get_entries items

-- The loop over the fields: with other fields than the master's each value has its field in front.
unfoldable pub gen_values : Bool → List Bytes → List Bytes → List Bytes
gen_values same [] values = []
gen_values same (f ∷ fs) [] = []
gen_values same (f ∷ fs) (v ∷ vs) =
    let rest = gen_values same fs vs in if same then v ∷ rest else f ∷ v ∷ rest

-- The items of `genEntry`; the last is their number.
unfoldable pub gen_items : Bool → ℕ → ℕ → List Bytes → List Bytes → List Bytes
gen_items true msDif seqDif fields values =
    (b'2' ∷ [])
    ∷ format_uint msDif
    ∷ format_uint seqDif
    ∷ (gen_values true fields values ++ (format_uint (3 + length fields) ∷ []))
gen_items false msDif seqDif fields values =
    (b'0' ∷ [])
    ∷ format_uint msDif
    ∷ format_uint seqDif
    ∷ format_uint (length fields)
    ∷ (gen_values false fields values ++ (format_uint (4 + 2 * length fields) ∷ []))

unfoldable pub entry_items : StreamListpack → List Bytes → List Bytes → ℕ → ℕ → List Bytes
entry_items s fields values ms seq =
    gen_items (match_master_fields fields s.fields) ((ms + 2 ^ 64 - s.ms) % 2 ^ 64)
      ((seq + 2 ^ 64 - s.seq) % 2 ^ 64) fields values

unfoldable pub gen_entry : StreamListpack → List Bytes → ℕ → ℕ → Run Bytes
gen_entry s pairs ms seq = do
  (fields, values) ← get_fields_and_values pairs
  ok (get_entries (entry_items s fields values ms seq))

-- The inner size and count are not updated.
unfoldable pub append_entry : Bytes → StreamListpack → Run StreamListpack
append_entry entry s = do
  (front, end) ← split_last s.lp.entries
  ok (record s {
    count = suc s.count;
    lp = record s.lp { entries = front ++ (entry ++ (end ∷ [])) };
  })

unfoldable pub is_full : Bytes → StreamListpack → Bool
is_full entry s =
    let rs = (stream_node_max_bytes + 2 ^ 32 - s.lp.size) % 2 ^ 32 in
    ltb rs (length entry % 2 ^ 32) || stream_node_max_entries == s.count % 2 ^ 32

unfoldable pub push : List Bytes → ℕ → ℕ → StreamListpack → Run StreamListpack
push pairs ms seq s = do
  entry ← gen_entry s pairs ms seq
  if is_full entry s then err else append_entry entry s

unfoldable pub master_fields : List Bytes → List Bytes
master_fields [] = []
master_fields (f ∷ []) = f ∷ []
master_fields (f ∷ v ∷ pairs) = f ∷ master_fields pairs

unfoldable pub empty_pack : List Bytes → ℕ → ℕ → StreamListpack
empty_pack pairs ms seq = record {
  ms = ms;
  seq = seq;
  count = 0;
  deleted = 0;
  fields = master_fields pairs;
  lp = Pack.new;
}

-- An error of `Push` is not looked at.
unfoldable pub or_unchanged : StreamListpack → Run StreamListpack → Run StreamListpack
or_unchanged s (ok s') = ok s'
or_unchanged s err = ok s
or_unchanged s panic = panic
or_unchanged s stuck = stuck

unfoldable pub new : List Bytes → ℕ → ℕ → Run StreamListpack
new pairs ms seq =
    or_unchanged (empty_pack pairs ms seq) (push pairs ms seq (empty_pack pairs ms seq))

-- `s.lp.Read(offset, 1)[0]`.
unfoldable pub read_one : ℕ → StreamListpack → Run Bytes
read_one offset s = do texts ← Pack.read offset 1 s.lp; or_panic (get_elem? texts 0)

-- The fields of the master entry with the values that were read, `values[i]` for each.
unfoldable pub with_fields : List Bytes → List Bytes → Run (List Bytes)
with_fields [] values = ok []
with_fields (f ∷ fs) [] = panic
with_fields (f ∷ fs) (v ∷ vs) = do rest ← with_fields fs vs; ok (f ∷ v ∷ rest)

-- The number of fields that `Atoi` reads. `genEntry` writes none below 0, which is not modelled.
unfoldable pub field_count : Option ℤ → Run ℕ
field_count none = err
field_count (some (pos n)) = ok n
field_count (some (negsuc n)) = stuck

-- The data from `offset` on, and the offset behind them.
unfoldable pub read_data : Bool → ℕ → StreamListpack → Run (List Bytes × ℕ)
read_data true offset s = do
  values ← Pack.read offset (length s.fields) s.lp
  pairs ← with_fields s.fields values
  ok (pairs, offset + length s.fields)
read_data false offset s = do
  text ← read_one offset s
  fieldCount ← field_count (parse_int text)
  pairs ← Pack.read (offset + 1) (2 * fieldCount) s.lp
  ok (pairs, offset + 1 + 2 * fieldCount)

unfoldable pub is_deleted : Bytes → Bool
is_deleted flag = flag ==s (b'1' ∷ []) || flag ==s (b'3' ∷ [])

unfoldable pub is_same_fields : Bytes → Bool
is_same_fields flag = flag ==s (b'2' ∷ []) || flag ==s (b'3' ∷ [])

-- `ReadEntry` behind its flag. A deleted entry is the nil pointer.
unfoldable pub read_flagged : Bytes → ℕ → StreamListpack → Run (Option Entry × ℕ)
read_flagged flag offset s = do
  msText ← read_one offset s
  msDif ← uint_or_err (parse_uint msText)
  seqText ← read_one (offset + 1) s
  seqDif ← uint_or_err (parse_uint seqText)
  (pairs, behind) ← read_data (is_same_fields flag) (offset + 2) s
  let entry : Entry = record {
    ms = (s.ms + msDif) % 2 ^ 64;
    seq = (s.seq + seqDif) % 2 ^ 64;
    values = pairs;
  }
  ok (if is_deleted flag then none else some entry, behind + 1)

-- `start`, which is empty at the end of the listpack.
unfoldable pub read_started : List Bytes → ℕ → StreamListpack → Run (Option Entry × ℕ)
read_started [] offset s = err
read_started (flag ∷ more) offset s = read_flagged flag (offset + 1) s

unfoldable pub read_entry : ℕ → StreamListpack → Run (Option Entry × ℕ)
read_entry offset s = do start ← Pack.read offset 1 s.lp; read_started start offset s

unfoldable pub in_range : ℕ → ℕ → ℕ → ℕ → Entry → Bool
in_range msL seqL msH seqH e =
    (ltb msL e.ms || e.ms == msL && leb seqL e.seq)
    && (ltb e.ms msH || e.ms == msH && leb e.seq seqH)

-- The loop of `ReadAllInRange`, on fuel; `entry.Ms` of the nil pointer panics.
unfoldable pub range_loop : ℕ → (Entry → Bool) → ℕ → StreamListpack → Run (List Entry)
range_loop zero inside offset s = stuck
range_loop (suc fuel) inside offset s = elim (read_entry offset s) [
  | ok (some entry, behind) ↦ do
    entries ← range_loop fuel inside behind s
    ok (if inside entry then entry ∷ entries else entries)
  | ok (none, behind) ↦ panic
  | err ↦ ok []
  | panic ↦ panic
  | stuck ↦ stuck
]

unfoldable pub read_all_in_range : ℕ → ℕ → ℕ → ℕ → StreamListpack → Run (List Entry)
read_all_in_range msL seqL msH seqH s =
    range_loop (suc (length s.lp.entries)) (in_range msL seqL msH seqH) 0 s
