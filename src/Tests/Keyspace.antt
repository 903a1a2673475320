-- ===== src/Tests/Keyspace.antt =====
-- The keyspace with a list, a text and a waiting client.
use shitty_redis.Base.{
  ℕ, ◌-◌, ◌^◌, ◌≡◌, ◌≢◌, refl, ap, inl, inr, false, none, some, List, [], ◌∷◌, ◌++◌, arith, take,
  drop, map,
}
use mathlib.Core.List.{reverse}
use shitty_redis.Base.Go.{Bytes, ok, Returns}
use shitty_redis.Base.Int.{pos, ◌+ℤ◌, pos_part}
use shitty_redis.Strconv.{parse_int, format_int, parse_digits, parse_number, below, positive}
use shitty_redis.Resp.Wire.{bulk_string, to_lower, lower_byte}
use shitty_redis.Command.Fields.{◌==s◌}
use shitty_redis.Listpack.Codec.{stored}
use shitty_redis.Txns.Ops.{new_world}
use shitty_redis.Quicklist.Ops
use shitty_redis.Keyspace.Store.{waiting, var, list, Db, find, lookup, keep, reply}
use shitty_redis.Keyspace.Strings.{get_key, set_key, setup_expiry, scale, expire, incr_key}
use shitty_redis.Keyspace.Lists.{push_key, lpop_key}
use shitty_redis.Keyspace.Blocking.{receive, is_waiting, blpop_key}
use shitty_redis.Keyspace.Laws.{Unchanged}
use shitty_redis.Keyspace.Values.{Counts, int_reply, get_key-set_key, incr_key-Counts, expire_stale}
use shitty_redis.Keyspace.Pushing.{Lists, Pushed, rpush_key-Pushed, lpush_key-Pushed}
use shitty_redis.Keyspace.Reading.{list_reply, pop_reply, Kept, lpop_key-Kept}
use shitty_redis.Keyspace.Waiters.{Pending, push_key-Pending, receive-push_key}
use shitty_redis.Keyspace.Waiting.{receive-blpop_key}
use shitty_redis.Tests.Samples.{
  word, number, word-Storable, number-Storable, two_listed, two_listed-Models,
}

abbrev two_items : List Bytes
two_items = word ∷ number ∷ []

abbrev key : Bytes
key = b'k' ∷ []

abbrev text_key : Bytes
text_key = b't' ∷ []

-- The client with channel 0 waits on the list's key.
abbrev db : Db
db = record {
  keyspace = (key, list two_listed) ∷ (text_key, var number) ∷ [];
  blpop_waiters = λ k. 0 ∷ [];
  channels = 1;
  sent = [];
  xread_waiters = λ k. 3 ∷ [];
  nudged = [];
  timers = [];
  txns = new_world;
}

list_found : find key db ≡ some (list two_listed)
unfolding find lookup ◌==s◌
list_found = refl

text_found : find text_key db ≡ some (var number)
unfolding find lookup ◌==s◌
text_found = refl

number_parsed : parse_int number ≡ some (pos 12)
unfolding parse_int parse_digits parse_number below positive
number_parsed = refl

not_largest : pos 12 ≢ pos (2 ^ 63 - 1)
not_largest e = let l : ◌≡◌ {A = ℕ} 12 (2 ^ 63 - 1) = ap pos_part e in omega arith

get_key-set_key_example :
    (get_key key (set_key key word db) ≡ ok (reply (bulk_string word), set_key key word db))
    × Unchanged key db (set_key key word db)
get_key-set_key_example = get_key-set_key key word db

incr_key-Counts_example :
    (incr_key text_key db
      ≡ ok (int_reply (pos 12 +ℤ pos 1), keep text_key (var (format_int (pos 12 +ℤ pos 1))) db))
    × Counts text_key (pos 12 +ℤ pos 1) (keep text_key (var (format_int (pos 12 +ℤ pos 1))) db)
incr_key-Counts_example =
    incr_key-Counts text_key (pos 12) db (inr (number, text_found, number_parsed)) not_largest

abbrev px : Bytes
px = b'P' ∷ b'X' ∷ []

px_lower : to_lower px ≡ b'p' ∷ b'x' ∷ []
unfolding to_lower lower_byte
px_lower = refl

expire_stale_example :
    let later = set_key key number (setup_expiry px number key (set_key key word db)) in
    (later.timers ≡ db.timers ++ ((scale (10 ^ 6) (pos 12), key) ∷ []))
    × (get_key key later ≡ ok (reply (bulk_string number), later))
    × (find key (expire key later) ≡ none)
expire_stale_example = expire_stale key word number px number (pos 12) db px_lower number_parsed

held : Lists key two_items db
held = (two_listed, list_found, two_listed-Models)

rpush_key-Pushed_example :
    Returns
      (push_key Ops.rpush key (word ∷ []) db)
      λ r. (r.0 ≡ int_reply (pos 3)) × Pushed key (two_items ++ (word ∷ [])) db r.1
rpush_key-Pushed_example =
    rpush_key-Pushed key two_items db (inl held) (word ∷ []) (word-Storable, tt) (omega arith)

lpush_key-Pushed_example :
    Returns
      (push_key Ops.lpush key two_items db)
      λ r. (r.0 ≡ int_reply (pos 4)) × Pushed key (reverse two_items ++ two_items) db r.1
lpush_key-Pushed_example =
    lpush_key-Pushed key two_items db (inl held) two_items (word-Storable, (number-Storable, tt))
      (omega arith)

lpop_key-Kept_example : Returns (lpop_key key number db) λ r.
    (r.0 ≡ pop_reply (map stored (take 12 two_items)))
    × Kept key (drop 12 two_items) (db.blpop_waiters key) r.1
    × Unchanged key db r.1
lpop_key-Kept_example = lpop_key-Kept key number (pos 12) two_items db held number_parsed

waits : Pending 0 key db
unfolding is_waiting
waits = inl refl

nobody_before : is_waiting 0 [] ≡ false
unfolding is_waiting
nobody_before = refl

push_key-Pending_example :
    Returns (push_key Ops.rpush key (word ∷ []) db) (λ r. Pending 0 key r.1)
    × Returns (push_key Ops.lpush key (word ∷ []) db) (λ r. Pending 0 key r.1)
push_key-Pending_example =
    push_key-Pending key two_items (word ∷ []) db (inl held) (word-Storable, tt) (omega arith) 0 key
      waits

receive-push_key_example :
    Returns
      (push_key Ops.rpush key (word ∷ []) db)
      λ r. Returns (receive key 0 r.1) λ r'. r'.0 ≡ list_reply (key ∷ stored word ∷ [])
receive-push_key_example =
    receive-push_key key two_items (word ∷ []) db (inl held) (word-Storable, tt) (omega arith) 0 []
      [] [] word (number ∷ word ∷ []) refl nobody_before refl refl refl

-- A key without a list, in whose row channel 0 stands.
abbrev missing_key : Bytes
missing_key = b'm' ∷ []

is_missing : find missing_key db ≡ none
unfolding find lookup ◌==s◌
is_missing = refl

not_yet : is_waiting 1 (0 ∷ []) ≡ false
unfolding is_waiting
not_yet = refl

receive-blpop_key_example : Returns (blpop_key missing_key db) λ r.
    (r.0 ≡ waiting 1)
    × Returns (push_key Ops.rpush missing_key two_items r.1) λ r'.
      Returns
        (receive missing_key 1 r'.1)
        λ r''. r''.0 ≡ list_reply (missing_key ∷ stored number ∷ [])
receive-blpop_key_example =
    receive-blpop_key missing_key db two_items (word ∷ []) number [] is_missing not_yet refl
      (word-Storable, (number-Storable, tt)) refl refl
