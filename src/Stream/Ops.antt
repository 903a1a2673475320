-- ===== src/Stream/Ops.antt =====
-- The operations of app/structures/stream/stream.go. The loops of `XRANGE` and `XREAD` are on fuel.
use shitty_redis.Base.{
  ℕ, zero, suc, ◌+◌, ◌%◌, ◌^◌, Bool, ◌&&◌, ◌||◌, List, [], ◌∷◌, ◌++◌, Option, none, some, ◌==◌, ltb,
  if◌then◌else◌, get_elem?, length,
}
use shitty_redis.Base.Go.{Bytes, Run, ok, err, panic, stuck, ◌>>=◌, or_panic}
use shitty_redis.Strconv.{format_uint}
use shitty_redis.Resp.Wire.{crlf, bulk_string}
use shitty_redis.Listpack.Entry.{be_bytes}
use shitty_redis.Radix.Ops
use shitty_redis.Radix.Search.{find_pred, find_suc}
use shitty_redis.Stream.Types.{StreamListpack, StreamId, Stream}
use shitty_redis.Stream.Ids.{split_id, format_id, format_xrange_ids, max_uint64}
use shitty_redis.Stream.Pack
use shitty_redis.Stream.Pack.{Entry, read_all_in_range}

unfoldable pub get_last_id : Stream → ℕ × ℕ
get_last_id st = elim st.last_id [ none ↦ (0, 0) | some id ↦ (id.ms, id.seq) ]

-- The 16 bytes of an id.
unfoldable pub id_bytes : ℕ → ℕ → Bytes
id_bytes ms seq = be_bytes 8 ms ++ be_bytes 8 seq

unfoldable pub set_pack : ℕ → StreamListpack → List StreamListpack → List StreamListpack
set_pack i lp [] = []
set_pack zero lp (p ∷ ps) = lp ∷ ps
set_pack (suc i) lp (p ∷ ps) = p ∷ set_pack i lp ps

-- `splitId` whose error is not looked at gives two zeros.
unfoldable pub id_or_zero : Run StreamId → Run StreamId
id_or_zero (ok id) = ok id
id_or_zero err = ok (record { ms = 0; seq = 0 })
id_or_zero panic = panic
id_or_zero stuck = stuck

unfoldable pub add_pack : List Bytes → StreamId → Stream → Run Stream
add_pack pairs id st = do
  lp ← Pack.new pairs id.ms id.seq
  rax ← Ops.insert (id_bytes id.ms id.seq) (length st.packs) st.rax
  ok (record st { rax = rax; packs = st.packs ++ (lp ∷ []) })

-- The listpack at index `i` takes the entry, or a new one does.
unfoldable pub pushed : ℕ → List Bytes → StreamId → Stream → Run StreamListpack → Run Stream
pushed i pairs id st (ok lp) = ok (record st { packs = set_pack i lp st.packs })
pushed i pairs id st err = add_pack pairs id st
pushed i pairs id st panic = panic
pushed i pairs id st stuck = stuck

unfoldable pub push_at : Option ℕ → List Bytes → StreamId → Stream → Run Stream
push_at none pairs id st = add_pack pairs id st
push_at (some i) pairs id st = do
  lp ← or_panic (get_elem? st.packs i)
  pushed i pairs id st (Pack.push pairs id.ms id.seq lp)

unfoldable pub xadd : List Bytes → Bytes → Stream → Run Stream
xadd pairs text st = do
  id ← id_or_zero (split_id text)
  let counted : Stream = record st {
    length = suc st.length;
    entries_added = suc st.entries_added;
    last_id = some id;
  }
  push_at (Ops.get_max st.rax) pairs id counted

-- The first listpack to read: the one that can hold `low`, or else the least.
unfoldable pub start_pack : Bytes → Stream → Run (Option ℕ)
start_pack low st = do
  cur ← find_pred low st.rax
  ok (elim cur [
    | none ↦ if Ops.is_empty st.rax then none else Ops.get_min st.rax
    | some i ↦ some i
  ])

-- The id of the last entry, or the listpack's own.
unfoldable pub end_id : StreamListpack → List Entry → StreamId
end_id lp [] = record { ms = lp.ms; seq = lp.seq }
end_id lp (e ∷ []) = record { ms = e.ms; seq = e.seq }
end_id lp (e ∷ f ∷ es) = end_id lp (f ∷ es)

-- `next` in `XRANGE`.
unfoldable pub xrange_next : StreamId → Bytes
xrange_next e =
    if ltb e.seq max_uint64
    then id_bytes ((e.ms + 1) % 2 ^ 64) e.seq
    else id_bytes e.ms ((e.seq + 1) % 2 ^ 64)

-- `next` in `XREAD`.
unfoldable pub xread_next : StreamId → Bytes
xread_next e = id_bytes e.ms ((e.seq + 1) % 2 ^ 64)

unfoldable pub past_high : StreamListpack → StreamId → Bool
past_high cur high = ltb high.ms cur.ms || high.ms == cur.ms && ltb high.seq cur.seq

-- The loop of `XRANGE` and of `XREAD`.
unfoldable pub entries_loop :
    ℕ → (StreamId → Bytes) → StreamId → StreamId → Stream → Option ℕ → Run (List Entry)
entries_loop zero next low high st cur = stuck
entries_loop (suc fuel) next low high st none = ok []
entries_loop (suc fuel) next low high st (some i) = do
  lp ← or_panic (get_elem? st.packs i)
  let onward : Run (List Entry) = (do
    es ← read_all_in_range low.ms low.seq high.ms high.seq lp
    cur ← find_suc (next (end_id lp es)) st.rax
    more ← entries_loop fuel next low high st cur
    ok (es ++ more))
  if past_high lp high then ok [] else onward

unfoldable pub field_texts : List Bytes → Run Bytes
field_texts [] = ok []
field_texts (f ∷ []) = panic
field_texts (f ∷ v ∷ pairs) = do
  rest ← field_texts pairs
  ok (bulk_string f ++ (bulk_string v ++ rest))

unfoldable pub entry_text : Entry → Run Bytes
entry_text e = do
  texts ← field_texts e.values
  ok (
      (b'*' ∷ b'2' ∷ crlf)
      ++ (bulk_string (format_id e.ms e.seq)
          ++ ((b'*' ∷ format_uint (length e.values)) ++ (crlf ++ texts))))

unfoldable pub entry_texts : List Entry → Run (List Bytes)
entry_texts [] = ok []
entry_texts (e ∷ es) = do text ← entry_text e; rest ← entry_texts es; ok (text ∷ rest)

unfoldable pub xrange : ℕ → Bytes → Bytes → Stream → Run (List Bytes)
xrange fuel l h st = do
  let ids = format_xrange_ids l h
  low ← split_id ids.0
  high ← split_id ids.1
  cur ← start_pack (id_bytes low.ms low.seq) st
  es ← entries_loop fuel xrange_next low high st cur
  entry_texts es

-- The id behind `low`, from which `XREAD` reads.
unfoldable pub behind : StreamId → StreamId
behind low =
    if ltb low.seq max_uint64
    then record { ms = low.ms; seq = suc low.seq }
    else record { ms = (low.ms + 1) % 2 ^ 64; seq = low.seq }

unfoldable pub joined_texts : List Bytes → Bytes
joined_texts [] = []
joined_texts (t ∷ ts) = t ++ joined_texts ts

unfoldable pub counted_texts : List Bytes → Bytes
counted_texts [] = []
counted_texts (t ∷ ts) = (b'*' ∷ format_uint (length (t ∷ ts))) ++ (crlf ++ joined_texts (t ∷ ts))

unfoldable pub xread : ℕ → Bytes → Stream → Run Bytes
xread fuel l st = do
  parsed ← split_id l
  let low = behind parsed
  let high : StreamId = record { ms = max_uint64; seq = max_uint64 }
  cur ← start_pack (id_bytes low.ms low.seq) st
  es ← entries_loop fuel xread_next low high st cur
  texts ← entry_texts es
  ok (counted_texts texts)
