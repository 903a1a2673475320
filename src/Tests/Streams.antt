-- ===== src/Tests/Streams.antt =====
-- Streams with one entry or none, and a small radix tree.
use shitty_redis.Txns.Ops.{new_world}
use shitty_redis.Keyspace.Store.{Db, find, lookup}
use shitty_redis.Keyspace.Blocking.{is_waiting}
use shitty_redis.Keyspace.Streams.{xadd_key}
use shitty_redis.Keyspace.Waking.{Woken, xadd_key-Woken}
use shitty_redis.Base.{◌++◌, inr}
use shitty_redis.Base.Go.{Returns}
use shitty_redis.Stream.Ids.{validate_stream_entry_id, validate_id, not_after}
use shitty_redis.Base.{
  ℕ, ◌+◌, ◌<◌, ◌≡◌, refl, true, false, none, some, [], ◌∷◌, arith, length, length-append, All,
}
use shitty_redis.Base.Go.{Bytes, ok, stuck}
use shitty_redis.Strconv.{
  parse_digits, parse_number, below, parse_uint, positive, negative, parse_int, decimal,
  format_uint, format_int,
}
use shitty_redis.Command.Fields.{◌==s◌}
use shitty_redis.Listpack.Entry.{
  get_int_listpack_encoding, get_str_listpack_encoding, be_bytes, int_entry_bytes, handle_int_entry,
  str_header, handle_str_entry, get_backlen_byte_count, get_backlen_bytes, item_bytes, get_entry,
}
use shitty_redis.Listpack.Pack as Listpacks
use shitty_redis.Listpack.Codec.{IsItem}
use shitty_redis.Listpack.Contents.Sizes.{pack, length-get_entry}
use shitty_redis.Radix.Tree.{node, nil, cons}
use shitty_redis.Radix.Ops
use shitty_redis.Radix.Inserts.{Inserted, insert-get}
use shitty_redis.Stream.Types.{StreamListpack, StreamId, Stream}
use shitty_redis.Stream.Types
use shitty_redis.Stream.Ids.{
  dash, split_dash, prepend, split_id, format_id, star, max_uint64, has_star, xadd_id,
  generate_both, generate_parts, generate_stream_entry_id,
}
use shitty_redis.Stream.Order.{Names, xadd_id-Names, split_id-format_id}
use shitty_redis.Stream.Wrapping.{xadd_id_wraps}
use shitty_redis.Stream.Pack
use shitty_redis.Stream.Pack.{
  match_master_fields, gen_values, gen_items, entry_items, is_full, master_fields, empty_pack,
  or_unchanged, push, in_range, read_all_in_range,
}
use shitty_redis.Stream.Entries.{Written, IsWritten, items_of, shown}
use shitty_redis.Stream.Ranges.{Grows, push-Grows, IsInside, Selects, read_all_in_range-Selects}
use shitty_redis.Stream.Making.{first_of, empty_pack-Packs, new_loses}
use shitty_redis.Stream.Ops.{id_bytes, xadd, xrange}
use shitty_redis.Stream.Adding.{NoRoom, no_pack, Added, xadd-Added}
use shitty_redis.Stream.Hanging.{Last, xrange_hangs}
use shitty_redis.Tests.Samples.{word, number}
use shitty_redis.Tests.Large.{large, large-Unstorable}

-- The first id that `*` makes in an empty stream.
first_id : xadd_id 1 star Types.new ≡ ok (format_id 1 0)
unfolding xadd_id has_star split_dash prepend generate_stream_entry_id generate_parts generate_both
    Types.new ◌==s◌
first_id = refl

xadd_id-Names_example : Names (format_id 1 0) none
unfolding Types.new
xadd_id-Names_example =
    xadd_id-Names 1 star (format_id 1 0) Types.new (omega arith) (omega arith) tt first_id

abbrev last : StreamId
last = record { ms = 5; seq = max_uint64 }

-- A stream whose last entry has the last sequence number of its millisecond.
abbrev full_stream : Stream
full_stream = record {
  rax = node [] none nil;
  packs = [];
  length = 1;
  last_id = some last;
  max_deleted_entry_id = none;
  entries_added = 1;
}

xadd_id_wraps_example :
    (xadd_id 1 star full_stream ≡ ok (format_id 5 0))
    × (xadd_id 1 (format_uint 5 ++ (dash ∷ star)) full_stream ≡ ok (format_id 5 0))
    × (¬ Names (format_id 5 0) (some last))
xadd_id_wraps_example = xadd_id_wraps 1 full_stream last refl (omega arith) refl (omega arith)

-- An entry at the greatest millisecond.
abbrev entry : Written
entry = record { ms = max_uint64; seq = 5; fields = word ∷ []; values = number ∷ [] }

entry-IsWritten : IsWritten entry
entry-IsWritten = record {
  ms_fits = omega arith;
  seq_fits = omega arith;
  paired = refl;
  few = omega arith;
}

items_are :
    items_of (first_of entry) entry
    ≡ (b'2' ∷ []) ∷ (b'0' ∷ []) ∷ (b'0' ∷ []) ∷ number ∷ (b'4' ∷ []) ∷ []
unfolding entry_items gen_items gen_values match_master_fields empty_pack master_fields ◌==s◌
    format_uint decimal
items_are = refl

items-IsItem : All IsItem (items_of (first_of entry) entry)
items-IsItem =
    rw items_are (omega arith, (omega arith, (omega arith, (omega arith, (omega arith, tt)))))

has_room : is_full (pack (items_of (first_of entry) entry)) (first_of entry) ≡ false
unfolding is_full empty_pack Listpacks.new entry_items gen_items gen_values match_master_fields
    master_fields ◌==s◌ parse_digits parse_number below parse_uint positive negative parse_int
    decimal format_uint format_int get_int_listpack_encoding get_str_listpack_encoding be_bytes
    int_entry_bytes handle_int_entry str_header handle_str_entry get_backlen_byte_count
    get_backlen_bytes item_bytes get_entry
has_room = refl

push-Grows_example :
    Grows [] entry (first_of entry) (push (word ∷ number ∷ []) max_uint64 5 (first_of entry))
push-Grows_example =
    push-Grows [] entry (first_of entry) (empty_pack-Packs entry entry-IsWritten) entry-IsWritten
      items-IsItem has_room

grown : Grows [] entry (first_of entry) (push (word ∷ number ∷ []) max_uint64 5 (first_of entry))
grown =
    push-Grows [] entry (first_of entry) (empty_pack-Packs entry entry-IsWritten) entry-IsWritten
      items-IsItem has_room

read_all_in_range-Selects_example :
    Returns
      (read_all_in_range 0 1 max_uint64 max_uint64 grown.pack_after)
      (Selects (IsInside 0 1 max_uint64 max_uint64) (shown grown.pack_after entry ∷ []))
read_all_in_range-Selects_example =
    read_all_in_range-Selects grown.pack_after (entry ∷ []) 0 1 max_uint64 max_uint64 grown.packs

insert-get_example :
    Inserted {V = ℕ}
      (b'a' ∷ b'c' ∷ [])
      7
      (node [] none (cons b'a' (node word (some 3) nil) nil))
      (Ops.insert (b'a' ∷ b'c' ∷ []) 7 (node [] none (cons b'a' (node word (some 3) nil) nil)))
insert-get_example =
    insert-get 7 b'a' (b'c' ∷ []) (node [] none (cons b'a' (node word (some 3) nil) nil))

abbrev entry_id : StreamId
entry_id = record { ms = max_uint64; seq = 5 }

made : Pack.new (word ∷ number ∷ []) max_uint64 5 ≡ ok grown.pack_after
unfolding Pack.new or_unchanged
made = rw grown.returned refl

entry_id_read : split_id (format_id max_uint64 5) ≡ ok entry_id
entry_id_read =
    split_id-format_id entry_id (record { ms_fits = omega arith; seq_fits = omega arith })

nothing_yet : NoRoom (word ∷ number ∷ []) entry_id Types.new
unfolding Types.new Ops.get_max Ops.get_best Ops.best_kid Ops.value_or
nothing_yet = no_pack refl

xadd-Added_example :
    Added entry_id grown.pack_after Types.new
      (xadd (word ∷ number ∷ []) (format_id max_uint64 5) Types.new)
xadd-Added_example =
    xadd-Added (word ∷ number ∷ []) entry_id grown.pack_after Types.new made
      (format_id max_uint64 5) entry_id_read nothing_yet

abbrev one_entry : Stream
one_entry = record Types.new {
  rax = node [] none (cons 255 (node (id_bytes max_uint64 5) (some 0) nil) nil);
  packs = grown.pack_after ∷ [];
}

one_entry-Last : Last entry one_entry
one_entry-Last = record {
  lp = grown.pack_after;
  key = id_bytes max_uint64 5;
  packs = grown.packs;
  rax_is = refl;
  packs_are = refl;
  last_ms = refl;
  not_last = omega arith;
}

xrange_hangs_example : xrange 1000 (b'-' ∷ []) (b'+' ∷ []) one_entry ≡ stuck
xrange_hangs_example = xrange_hangs entry one_entry one_entry-Last 1000

abbrev large_entry : Written
large_entry = record { ms = 1; seq = 5; fields = word ∷ []; values = large ∷ [] }

abbrev digit : ℕ → Bytes
digit n = (48 + n) ∷ []

large_items_are :
    items_of (first_of large_entry) large_entry ≡ digit 2 ∷ digit 0 ∷ digit 0 ∷ large ∷ digit 4 ∷ []
unfolding entry_items gen_items gen_values match_master_fields empty_pack master_fields ◌==s◌
    format_uint decimal
large_items_are = refl

large_items-IsItem : All IsItem (items_of (first_of large_entry) large_entry)
large_items-IsItem =
    rw large_items_are
      (omega arith, (omega arith, (omega arith, (large-Unstorable.0, (omega arith, tt)))))

length-large_items :
    (4089 < length (pack (items_of (first_of large_entry) large_entry)))
    × (length (pack (items_of (first_of large_entry) large_entry)) < 10000)
length-large_items = rw large_items_are (
    omega (
      arith,
      large-Unstorable.1,
      large-Unstorable.2,
      length-get_entry (digit 2),
      length-get_entry (digit 0),
      length-get_entry (digit 4),
      length-append (get_entry (digit 2)) (pack (digit 0 ∷ digit 0 ∷ large ∷ digit 4 ∷ [])),
      length-append (get_entry (digit 0)) (pack (digit 0 ∷ large ∷ digit 4 ∷ [])),
      length-append (get_entry (digit 0)) (pack (large ∷ digit 4 ∷ [])),
      length-append (get_entry large) (pack (digit 4 ∷ [])),
      length-append (get_entry (digit 4)) [],
    ))

no_room : is_full (pack (items_of (first_of large_entry) large_entry)) (first_of large_entry) ≡ true
unfolding is_full empty_pack Listpacks.new
no_room = let (l, u) = length-large_items in ground arith

large_entry-IsWritten : IsWritten large_entry
large_entry-IsWritten = record {
  ms_fits = omega arith;
  seq_fits = omega arith;
  paired = refl;
  few = omega arith;
}

new_loses_example :
    (Pack.new (word ∷ large ∷ []) 1 5 ≡ ok (first_of large_entry))
    × (read_all_in_range 0 0 max_uint64 max_uint64 (first_of large_entry) ≡ ok [])
new_loses_example =
    new_loses large_entry 0 0 max_uint64 max_uint64 large_entry-IsWritten large_items-IsItem no_room

added_one :
    Added entry_id grown.pack_after Types.new
      (xadd (word ∷ number ∷ []) (format_id max_uint64 5) Types.new)
added_one =
    xadd-Added (word ∷ number ∷ []) entry_id grown.pack_after Types.new made
      (format_id max_uint64 5) entry_id_read nothing_yet

abbrev key : Bytes
key = b's' ∷ []

-- No keys, and the client with channel 3 waits on one.
abbrev db : Db
db = record {
  keyspace = [];
  blpop_waiters = λ k. [];
  channels = 4;
  sent = [];
  xread_waiters = λ k. 3 ∷ [];
  nudged = [];
  timers = [];
  txns = new_world;
}

no_key : find key db ≡ none
unfolding find lookup
no_key = refl

id_has_no_star : has_star (split_dash (format_id max_uint64 5)) ≡ ok false
unfolding has_star split_dash prepend format_id format_uint decimal ◌==s◌
id_has_no_star = refl

id_accepted : xadd_id 1 (format_id max_uint64 5) Types.new ≡ ok (format_id max_uint64 5)
unfolding xadd_id validate_stream_entry_id validate_id not_after Types.new
id_accepted = rw (id_has_no_star, entry_id_read) refl

client_waits : is_waiting 3 (db.xread_waiters key) ≡ true
unfolding is_waiting
client_waits = refl

xadd_key-Woken_example :
    Returns
      (xadd_key 1 key (format_id max_uint64 5) (word ∷ number ∷ []) db)
      (Woken 3 key (format_id max_uint64 5) added_one.stream_after db)
xadd_key-Woken_example =
    xadd_key-Woken 3 1 key (format_id max_uint64 5) (format_id max_uint64 5) (word ∷ number ∷ [])
      Types.new added_one.stream_after db id_accepted added_one.returned client_waits
      (inr (no_key, refl))
