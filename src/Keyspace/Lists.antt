-- ===== src/Keyspace/Lists.antt =====
-- The handlers of lists (app/handlers.go) and `handleBLPOPListeners` (app/utils.go). A key that
-- holds no list leaves the nil pointer `lp`, through which every list operation panics.
use shitty_redis.Base.{
  ℕ, suc, ◌&&◌, List, [], ◌∷◌, ◌++◌, Option, none, some, ◌==◌, if◌then◌else◌, length, get_elem?,
  drop,
}
use shitty_redis.Base.Go.{Bytes, Run, ok, ◌>>=◌, or_panic}
use shitty_redis.Base.Int.{ℤ, pos}
use shitty_redis.Strconv.{atoi_value}
use shitty_redis.Resp.Wire.{text, texts, number, nil, null_bulk, bulk, int, bulk_list}
use shitty_redis.Command.Name
use shitty_redis.Command.Fields.{Com, first_at, value_at}
use shitty_redis.Quicklist.Ops
use shitty_redis.Quicklist.Ops.{Quicklist, is_zero}
use shitty_redis.Txns.Ops.{put_watchers}
use shitty_redis.Keyspace.Store.{
  Structure, var, list, stream, Db, find, keep, forget, Reply, answer,
}

-- The list that is stored, or the nil pointer. Each method of `List` that is called on it reads a
-- field of its receiver first, and `or_panic` stands at that call.
unfoldable pub as_list : Structure → Option Quicklist
as_list (var v) = none
as_list (list q) = some q
as_list (stream st) = none

-- The loop of `handleBLPOPListeners`: what is sent, how many waiters got an element, and the list.
unfoldable pub serve : List ℕ → Quicklist → Run (List (ℕ × Bytes) × ℕ × Quicklist)
serve [] q = ok ([], 0, q)
serve (ch ∷ chs) q =
    let round : Run (List (ℕ × Bytes) × ℕ × Quicklist) = (do
      (elements, q') ← Ops.lpop (pos 1) q
      element ← or_panic (get_elem? elements 0)
      (sends, pop, q'') ← serve chs q'
      ok ((ch, element) ∷ sends, suc pop, q'')) in
    if is_zero (Ops.llen q) then ok ([], 0, q) else round

unfoldable pub handle_blpop_listeners : Bytes → Quicklist → Db → Run (Quicklist × Db)
handle_blpop_listeners key q db = do
  (sends, pop, q') ← serve (db.blpop_waiters key) q
  ok (
    q',
    record db {
      sent = db.sent ++ sends;
      blpop_waiters = put_watchers key (drop pop (db.blpop_waiters key)) db.blpop_waiters;
    },
  )

-- The end of `rpush` and `lpush`, with the list under its key again.
unfoldable pub finish_push : Bytes → ℤ → Quicklist → Db → Run (Reply × Db)
finish_push key len q db = do
  (q', db') ← handle_blpop_listeners key q db
  let kept = keep key (list q') db'
  answer (number len) int (if is_zero q'.count then forget key kept else kept)

-- The list of a key, a new one if there is none.
unfoldable pub list_or_new : Option Structure → Option Quicklist
list_or_new none = some Ops.new
list_or_new (some s) = as_list s

unfoldable pub push_key :
    (List Bytes → Quicklist → Run Quicklist) → Bytes → List Bytes → Db → Run (Reply × Db)
push_key push key values db = do
  lp ← or_panic (list_or_new (find key db))
  q ← push values lp
  finish_push key (Ops.llen q) q db

unfoldable pub rpush : Com → Db → Run (Reply × Db)
rpush cmd db = do
  key ← first_at Name.key cmd.args
  push_key Ops.rpush key (value_at Name.values cmd.args) db

unfoldable pub lpush : Com → Db → Run (Reply × Db)
lpush cmd db = do
  key ← first_at Name.key cmd.args
  push_key Ops.lpush key (value_at Name.values cmd.args) db

unfoldable pub lrange_value : ℤ → ℤ → Option Structure → Db → Run (Reply × Db)
lrange_value l r none db = answer (texts []) bulk_list db
lrange_value l r (some s) db = do
  lp ← or_panic (as_list s)
  elements ← Ops.lrange l r lp
  answer (texts elements) bulk_list db

unfoldable pub lrange_key : Bytes → Bytes → Bytes → Db → Run (Reply × Db)
lrange_key key ls rs db = lrange_value (atoi_value ls) (atoi_value rs) (find key db) db

unfoldable pub lrange : Com → Db → Run (Reply × Db)
lrange cmd db = do
  key ← first_at Name.key cmd.args
  ls ← first_at Name.left cmd.args
  rs ← first_at Name.right cmd.args
  lrange_key key ls rs db

unfoldable pub llen_value : Option Structure → Db → Run (Reply × Db)
llen_value none db = answer (number (pos 0)) int db
llen_value (some s) db = do lp ← or_panic (as_list s); answer (number (Ops.llen lp)) int db

unfoldable pub llen_key : Bytes → Db → Run (Reply × Db)
llen_key key db = llen_value (find key db) db

unfoldable pub llen : Com → Db → Run (Reply × Db)
llen cmd db = do key ← first_at Name.key cmd.args; llen_key key db

-- No element is a null bulk string, one a bulk string, more a list.
unfoldable pub popped_reply : List Bytes → Db → Run (Reply × Db)
popped_reply [] db = answer nil null_bulk db
popped_reply (x ∷ []) db = answer (text x) bulk db
popped_reply (x ∷ y ∷ xs) db = answer (texts (x ∷ y ∷ xs)) bulk_list db

-- The key goes with its last element, unless somebody waits on it.
unfoldable pub keep_popped : Bytes → Quicklist → Db → Db
keep_popped key q db =
    if length (db.blpop_waiters key) == 0 && is_zero (Ops.llen q)
    then forget key db
    else keep key (list q) db

unfoldable pub lpop_value : Bytes → ℤ → Option Structure → Db → Run (Reply × Db)
lpop_value key c none db = answer nil null_bulk db
lpop_value key c (some s) db = do
  lp ← or_panic (as_list s)
  (out, q) ← Ops.lpop c lp
  popped_reply out (keep_popped key q db)

unfoldable pub lpop_key : Bytes → Bytes → Db → Run (Reply × Db)
lpop_key key count db = lpop_value key (atoi_value count) (find key db) db

unfoldable pub lpop : Com → Db → Run (Reply × Db)
lpop cmd db = do
  key ← first_at Name.key cmd.args
  count ← first_at Name.count cmd.args
  lpop_key key count db
