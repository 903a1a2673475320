-- ===== src/Keyspace/Blocking.antt =====
-- `blpop` (app/handlers.go), cut at its `select`: the part before, and its two cases. Whether the
-- timeout passes first is an event; a client whose timeout is not positive has no such event.
use shitty_redis.Base.{
  ℕ, suc, Bool, true, false, ◌||◌, List, [], ◌∷◌, ◌++◌, Option, none, some, ◌==◌, if◌then◌else◌,
}
use shitty_redis.Base.Go.{or_panic, Bytes, Run, ok, ◌>>=◌}
use shitty_redis.Base.Int.{pos, ltb_ℤ}
use shitty_redis.Resp.Wire.{texts, nil, bulk_list, null_bulk_list}
use shitty_redis.Command.Name
use shitty_redis.Command.Fields.{Com, first_at}
use shitty_redis.Quicklist.Ops
use shitty_redis.Quicklist.Ops.{Quicklist}
use shitty_redis.Txns.Ops.{put_watchers, without}
use shitty_redis.Keyspace.Store.{Structure, list, Db, find, keep, Reply, waiting, answer}
use shitty_redis.Keyspace.Lists.{as_list}

-- A new channel at the end of the key's waiters.
unfoldable pub start_waiting : Bytes → Db → Run (Reply × Db)
start_waiting key db = ok (
  waiting db.channels,
  record db {
    channels = suc db.channels;
    blpop_waiters = put_watchers key (db.blpop_waiters key ++ (db.channels ∷ [])) db.blpop_waiters;
  },
)

-- Whether the list has an item; its first is popped.
unfoldable pub blpop_list : Bool → Bytes → Quicklist → Db → Run (Reply × Db)
blpop_list true key q db = do
  (element, q') ← Ops.lpop (pos 1) q
  answer (texts (key ∷ element)) bulk_list (keep key (list q') db)
blpop_list false key q db = start_waiting key db

unfoldable pub blpop_value : Bytes → Option Structure → Db → Run (Reply × Db)
blpop_value key none db = start_waiting key db
blpop_value key (some s) db = do
  lp ← or_panic (as_list s)
  blpop_list (ltb_ℤ (pos 0) (Ops.llen lp)) key lp db

unfoldable pub blpop_key : Bytes → Db → Run (Reply × Db)
blpop_key key db = blpop_value key (find key db) db

unfoldable pub blpop : Com → Db → Run (Reply × Db)
blpop cmd db = do
  key ← first_at Name.key cmd.args
  timeout ← first_at Name.timeout cmd.args
  blpop_key key db

-- The value in a channel, and the channels without it.
unfoldable pub past :
    ℕ × Bytes → Option (Bytes × List (ℕ × Bytes)) → Option (Bytes × List (ℕ × Bytes))
past kept none = none
past kept (some (v, rest)) = some (v, kept ∷ rest)

unfoldable pub take_sent : ℕ → List (ℕ × Bytes) → Option (Bytes × List (ℕ × Bytes))
take_sent ch [] = none
take_sent ch ((c, v) ∷ rest) =
    let later = past (c, v) (take_sent ch rest) in if c == ch then some (v, rest) else later

-- `<-ch`: the answer if there is a value, and a client that waits on if there is none.
unfoldable pub receive_value : Bytes → ℕ → Option (Bytes × List (ℕ × Bytes)) → Db → Run (Reply × Db)
receive_value key ch none db = ok (waiting ch, db)
receive_value key ch (some (pop, rest)) db =
    answer (texts (key ∷ pop ∷ [])) bulk_list (record db { sent = rest })

unfoldable pub receive : Bytes → ℕ → Db → Run (Reply × Db)
receive key ch db = receive_value key ch (take_sent ch db.sent) db

-- `isExists` of `findAndPopCh`.
unfoldable pub is_waiting : ℕ → List ℕ → Bool
is_waiting target [] = false
is_waiting target (ch ∷ chs) = ch == target || is_waiting target chs

-- `findAndPopCh` on the waiters of `blpop`.
unfoldable pub find_and_pop_ch : ℕ → Bytes → Db → Bool × Db
find_and_pop_ch target key db = (
  is_waiting target (db.blpop_waiters key),
  record db {
    blpop_waiters = put_watchers key (without target (db.blpop_waiters key)) db.blpop_waiters;
  },
)

-- The case of the timeout. `pop := <-ch` would block under the lock if nothing was sent.
unfoldable pub blpop_timeout : Bytes → ℕ → Db → Run (Reply × Db)
blpop_timeout key ch db =
    let (exists, db') = find_and_pop_ch ch key db in
    if exists then answer nil null_bulk_list db' else receive key ch db'
