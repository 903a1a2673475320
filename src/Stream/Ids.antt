-- ===== src/Stream/Ids.antt =====
-- Stream ids: app/structures/stream/utils.go. An id's two parts are uint64s.
use shitty_redis.Base.{
  ℕ, ◌+◌, ◌-◌, ◌%◌, ◌^◌, Bool, true, false, ◌&&◌, ◌||◌, List, [], ◌∷◌, ◌++◌, Option, none, some,
  ◌==◌, ltb, leb, if◌then◌else◌, get_elem?, length,
}
use shitty_redis.Base.Go.{Bytes, Run, ok, err, ◌>>=◌, or_panic}
use shitty_redis.Strconv.{parse_uint, format_uint}
use shitty_redis.Command.Fields.{◌==s◌}
use shitty_redis.Stream.Types.{StreamId, Stream}

abbrev pub dash : ℕ
dash = b'-'

abbrev pub star : Bytes
star = b'*' ∷ []

abbrev pub max_uint64 : ℕ
max_uint64 = 2 ^ 64 - 1

unfoldable pub prepend : ℕ → List Bytes → List Bytes
prepend c [] = (c ∷ []) ∷ []
prepend c (part ∷ parts) = (c ∷ part) ∷ parts

-- `strings.Split(s, "-")`; it has one part at least.
unfoldable pub split_dash : Bytes → List Bytes
split_dash [] = [] ∷ []
split_dash (c ∷ cs) = let parts = split_dash cs in if c == dash then [] ∷ parts else prepend c parts

unfoldable pub uint_or_err : Option ℕ → Run ℕ
uint_or_err none = err
uint_or_err (some n) = ok n

-- `nums[1]` is an index out of range when there is no dash.
unfoldable pub split_id : Bytes → Run StreamId
split_id id = do
  let nums = split_dash id
  m ← or_panic (get_elem? nums 0)
  s ← or_panic (get_elem? nums 1)
  ms ← uint_or_err (parse_uint m)
  seq ← uint_or_err (parse_uint s)
  ok (record { ms = ms; seq = seq })

unfoldable pub not_after : StreamId → Option StreamId → Bool
not_after id none = false
not_after id (some last) = ltb id.ms last.ms || id.ms == last.ms && leb id.seq last.seq

unfoldable pub validate_id : StreamId → Option StreamId → Run (Unit {0})
validate_id id last =
    if id.ms == 0 && id.seq == 0 then err else if not_after id last then err else ok tt

unfoldable pub validate_stream_entry_id : Bytes → Stream → Run (Unit {0})
validate_stream_entry_id id st = do parsed ← split_id id; validate_id parsed st.last_id

-- `fmt.Sprintf("%d-%d", ms, seq)`.
unfoldable pub format_id : ℕ → ℕ → Bytes
format_id ms seq = format_uint ms ++ (dash ∷ format_uint seq)

-- The case of `*` in the first part; `now` is the clock's milliseconds.
unfoldable pub generate_both : ℕ → Option StreamId → Bytes
generate_both now none = format_id now 0
generate_both now (some last) =
    if ltb last.ms now then format_id now 0 else format_id last.ms ((last.seq + 1) % 2 ^ 64)

-- The case of `*` in the second part.
unfoldable pub generate_seq : ℕ → Option StreamId → Run Bytes
generate_seq ms none = ok (format_id ms (if ms == 0 then 1 else 0))
generate_seq ms (some last) =
    if ltb ms last.ms
    then err
    else if ltb last.ms ms
    then ok (format_id ms 0)
    else ok (format_id last.ms ((last.seq + 1) % 2 ^ 64))

-- `p[1]` is read only if `p[0]` is no `*`.
unfoldable pub generate_second : Bytes → List Bytes → Option StreamId → Run Bytes
generate_second p parts last = do
  s ← or_panic (get_elem? parts 1)
  let seq : Run Bytes = (do ms ← uint_or_err (parse_uint p); generate_seq ms last)
  if s ==s star then seq else ok []

unfoldable pub generate_parts : ℕ → List Bytes → Option StreamId → Run Bytes
generate_parts now parts last = do
  p ← or_panic (get_elem? parts 0)
  let both : Run Bytes = ok (generate_both now last)
  if p ==s star then both else generate_second p parts last

unfoldable pub generate_stream_entry_id : ℕ → Bytes → Stream → Run Bytes
generate_stream_entry_id now id st = generate_parts now (split_dash id) st.last_id

unfoldable pub format_low : Bytes → Bytes
format_low low =
    if low ==s (dash ∷ [])
    then b'0' ∷ dash ∷ b'1' ∷ []
    else if length (split_dash low) == 1
    then low ++ (dash ∷ b'0' ∷ [])
    else low

unfoldable pub format_high : Bytes → Bytes
format_high high =
    if high ==s (b'+' ∷ [])
    then format_id max_uint64 max_uint64
    else if length (split_dash high) == 1
    then high ++ (dash ∷ format_uint max_uint64)
    else high

unfoldable pub format_xrange_ids : Bytes → Bytes → Bytes × Bytes
format_xrange_ids low high = (format_low low, format_high high)

-- The id of `xadd` (app/handlers.go): generated if a part is `*`, and validated otherwise.
unfoldable pub has_star : List Bytes → Run Bool
has_star parts = do
  p ← or_panic (get_elem? parts 0)
  let second : Run Bool = (do s ← or_panic (get_elem? parts 1); ok (s ==s star))
  if p ==s star then ok true else second

unfoldable pub xadd_id : ℕ → Bytes → Stream → Run Bytes
xadd_id now id st = do
  starred ← has_star (split_dash id)
  let validated : Run Bytes = (do valid ← validate_stream_entry_id id st; ok id)
  if starred then generate_stream_entry_id now id st else validated
