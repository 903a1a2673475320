-- ===== src/Listpack/Pack.antt =====
-- The listpack and its operations: app/structures/listpack/listpack.go.
-- `size` and `count` are the numbers that the code keeps big-endian in four and two bytes. An index
-- `i` into `Entries` that only moves forward is the list of the bytes from `i` on.
use shitty_redis.Base.{
  ℕ, zero, suc, ◌+◌, ◌-◌, ◌*◌, ◌%◌, ◌^◌, Bool, true, false, ◌&&◌, ◌||◌, List, [], ◌∷◌, ◌++◌, ltb,
  leb, ◌==◌, if◌then◌else◌, length, take, drop, bit_and,
}
use shitty_redis.Base.Go.{Bytes, Run, ok, err, panic, stuck, ◌>>=◌}
use shitty_redis.Base.Int.{ℤ, pos, negsuc, pos_part, sub_ℕ, ◌+ℤ◌}
use shitty_redis.Strconv.{format_int}
use shitty_redis.Listpack.Entry.{get_entry, get_backlen_byte_count, bytes_to_uint64_be, sign_extend}

abbrev pub max_node_size : ℕ
max_node_size = 8192

pub record Listpack : Type 0 where
  pub size : ℕ
  pub count : ℕ
  pub entries : Bytes

unfoldable pub new : Listpack
new = record { size = 7; count = 0; entries = 0xff ∷ [] }

unfoldable pub update_size : ℤ → Listpack → Listpack
update_size v lp = record lp { size = pos_part (pos lp.size +ℤ v) % 2 ^ 32 }

unfoldable pub update_count : ℤ → Listpack → Listpack
update_count v lp = record lp { count = pos_part (pos lp.count +ℤ v) % 2 ^ 16 }

-- The two checks with which `PushR` and `PushL` begin.
unfoldable pub refuses : Listpack → Bytes → Bool
refuses lp entry =
    let eSize = length entry % 2 ^ 32 in
    leb max_node_size lp.size || ltb eSize max_node_size && ltb (max_node_size - lp.size) eSize

-- The slice without its last byte, and that byte; an empty slice panics.
unfoldable pub split_last : Bytes → Run (Bytes × ℕ)
split_last [] = panic
split_last (b ∷ []) = ok ([], b)
split_last (b ∷ c ∷ bs) = do (front, last) ← split_last (c ∷ bs); ok (b ∷ front, last)

unfoldable pub grow : ℕ → Bytes → Listpack → Listpack
grow added entries lp =
    update_count (pos 1) (update_size (pos added) (record lp { entries = entries }))

-- The end byte is taken off and put back behind the entry.
unfoldable pub append_entry : Bytes → Listpack → Run Listpack
append_entry entry lp = do
  (front, end) ← split_last lp.entries
  ok (grow (length entry) (front ++ (entry ++ (end ∷ []))) lp)

unfoldable pub push_r : Bytes → Listpack → Run Listpack
push_r item lp =
    let entry = get_entry item in if refuses lp entry then err else append_entry entry lp

unfoldable pub push_l : Bytes → Listpack → Run Listpack
push_l item lp =
    let entry = get_entry item in
    if refuses lp entry then err else ok (grow (length entry) (entry ++ lp.entries) lp)

-- Bits of the tag to read, bytes to read behind it, and whether the entry is an integer.
unfoldable pub decode_tag : ℕ → ℕ × ℕ × Bool
decode_tag tag =
    if bit_and tag 0x80 == 0
    then (7, 0, true)
    else if bit_and tag 0xc0 == 0x80
    then (6, 0, false)
    else if bit_and tag 0xe0 == 0xc0
    then (5, 1, true)
    else if bit_and tag 0xf0 == 0xe0
    then (4, 1, false)
    else if tag == 0xf0
    then (0, 4, false)
    else if tag == 0xf1
    then (0, 2, true)
    else if tag == 0xf2
    then (0, 3, true)
    else if tag == 0xf3
    then (0, 4, true)
    else if tag == 0xf4
    then (0, 8, true)
    else (0, 0, false)

-- The value bits that an integer's tag holds, and those that a string's tag holds.
unfoldable pub int_tag_bits : ℕ → ℕ → Bytes
int_tag_bits tagB tag =
    if tagB == 7 then bit_and tag 0x7f ∷ [] else if tagB == 5 then bit_and tag 0x1f ∷ [] else []

unfoldable pub str_tag_bits : ℕ → ℕ → Bytes
str_tag_bits tagB tag =
    if tagB == 6 then bit_and tag 0x3f ∷ [] else if tagB == 4 then bit_and tag 0x0f ∷ [] else []

unfoldable pub int_value : ℕ → ℕ → Bytes → ℤ
int_value tagB readB entry =
    if tagB == 7 then pos (bytes_to_uint64_be 0 entry) else sign_extend entry (tagB + 8 * readB)

-- The next `n` bytes, one index expression each, and those behind them.
unfoldable pub read_bytes : ℕ → Bytes → Run (Bytes × Bytes)
read_bytes zero bs = ok ([], bs)
read_bytes (suc n) [] = panic
read_bytes (suc n) (b ∷ bs) = do (front, rest) ← read_bytes n bs; ok (b ∷ front, rest)

-- One round of the loop in `Read` on an integer and on a string; `again` is the rounds that follow,
-- on the bytes from the new `i` on, the new offset and the number of elements still to be read.
unfoldable pub read_int :
    (Bytes → ℕ → ℕ → Run (List Bytes)) → ℕ → Bytes → ℕ → ℕ → ℕ → ℕ → Run (List Bytes)
read_int again tag after tagB readB (suc offset) m =
    again (drop (readB + get_backlen_byte_count (1 + readB)) after) offset m
read_int again tag after tagB readB zero m = do
  (bytes, rest) ← read_bytes readB after
  let entry = int_tag_bits tagB tag ++ bytes
  elements ← again (drop (get_backlen_byte_count (1 + readB)) rest) zero (m - 1)
  ok (format_int (int_value tagB readB entry) ∷ elements)

unfoldable pub read_str :
    (Bytes → ℕ → ℕ → Run (List Bytes)) → ℕ → Bytes → ℕ → ℕ → ℕ → ℕ → Run (List Bytes)
read_str again tag after tagB readB (suc offset) m = do
  (bytes, rest) ← read_bytes readB after
  let byteCount = bytes_to_uint64_be 0 (str_tag_bits tagB tag ++ bytes)
  again (drop (byteCount + get_backlen_byte_count (1 + readB + byteCount)) rest) offset m
read_str again tag after tagB readB zero m = do
  (bytes, rest) ← read_bytes readB after
  let byteCount = bytes_to_uint64_be 0 (str_tag_bits tagB tag ++ bytes)
  (val, rest') ← read_bytes byteCount rest
  elements ← again (drop (get_backlen_byte_count (1 + readB + byteCount)) rest') zero (m - 1)
  ok (val ∷ elements)

unfoldable pub read_decoded :
    (Bytes → ℕ → ℕ → Run (List Bytes)) → ℕ → Bytes → ℕ → ℕ → ℕ × ℕ × Bool → Run (List Bytes)
read_decoded again tag after offset m (tagB, readB, true) =
    read_int again tag after tagB readB offset m
read_decoded again tag after offset m (tagB, readB, false) =
    read_str again tag after tagB readB offset m

unfoldable pub read_entry :
    (Bytes → ℕ → ℕ → Run (List Bytes)) → ℕ → Bytes → ℕ → ℕ → Run (List Bytes)
read_entry again tag after offset m = read_decoded again tag after offset m (decode_tag tag)

-- The loop of `Read`, on fuel: each round takes a byte at least.
unfoldable pub read_loop : ℕ → Bytes → ℕ → ℕ → Run (List Bytes)
read_loop zero bs offset m = stuck
read_loop (suc fuel) [] offset m = ok []
read_loop (suc fuel) (tag ∷ after) offset m =
    let round = read_entry (read_loop fuel) tag after offset m in
    if tag == 0xff || m == 0 then ok [] else round

unfoldable pub read : ℕ → ℕ → Listpack → Run (List Bytes)
read offset m lp = read_loop (suc (length lp.entries)) lp.entries offset m

-- `byteCount` in `PopL` without the backlen, for the entry that starts with `tag`.
unfoldable pub value_byte_count : ℕ → Bytes → ℕ × ℕ × Bool → Run ℕ
value_byte_count tag after (tagB, readB, true) = ok (1 + readB)
value_byte_count tag after (tagB, readB, false) = do
  (bytes, rest) ← read_bytes readB after
  ok (1 + readB + bytes_to_uint64_be 0 (str_tag_bits tagB tag ++ bytes))

unfoldable pub entry_byte_count : ℕ → Bytes → Run ℕ
entry_byte_count tag after = do
  byteCount ← value_byte_count tag after (decode_tag tag)
  ok (byteCount + get_backlen_byte_count byteCount)

-- `res` in `PopL`.
unfoldable pub text_decoded : ℕ → Bytes → ℕ × ℕ × Bool → Run Bytes
text_decoded tag after (tagB, readB, true) = do
  (bytes, rest) ← read_bytes readB after
  ok (format_int (int_value tagB readB (int_tag_bits tagB tag ++ bytes)))
text_decoded tag after (tagB, readB, false) = do
  (bytes, rest) ← read_bytes readB after
  (val, rest') ← read_bytes (bytes_to_uint64_be 0 (str_tag_bits tagB tag ++ bytes)) rest
  ok val

unfoldable pub entry_text : ℕ → Bytes → Run Bytes
entry_text tag after = text_decoded tag after (decode_tag tag)

-- The loop of `PopL` with `offset` entries to skip: the text, its byte count, and the bytes kept.
unfoldable pub pop_loop : ℕ → Bytes → Bytes → Run (Bytes × ℕ × Bytes)
pop_loop offset before [] = panic
pop_loop (suc offset) before (tag ∷ after) = do
  byteCount ← entry_byte_count tag after
  pop_loop offset (before ++ take byteCount (tag ∷ after)) (drop byteCount (tag ∷ after))
pop_loop zero before (tag ∷ after) = do
  byteCount ← entry_byte_count tag after
  res ← entry_text tag after
  (entry, rest) ← read_bytes byteCount (tag ∷ after)
  ok (res, byteCount, before ++ rest)

unfoldable pub pop_l : ℕ → Listpack → Run (Bytes × Listpack)
pop_l offset lp =
    if lp.count == 0 || leb lp.count (offset % 2 ^ 16)
    then err
    else pop_loop offset [] lp.entries >>= λ (res, byteCount, kept). ok (
      res,
      update_size (sub_ℕ 0 byteCount) (update_count (negsuc 0) (record lp { entries = kept })),
    )
