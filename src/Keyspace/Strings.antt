-- ===== src/Keyspace/Strings.antt =====
-- The handlers on string values, `type` and expiry: app/handlers.go and app/utils.go. A handler is
-- its reads of the arguments and a function of what it read.
use shitty_redis.Base.{
  ℕ, suc, ◌-◌, ◌*◌, ◌^◌, List, [], ◌∷◌, ◌++◌, Option, none, some, ◌==◌, if◌then◌else◌,
}
use shitty_redis.Base.Go.{Bytes, Run, ok, panic, ◌>>=◌}
use shitty_redis.Base.Int.{ℤ, pos, negsuc, int64, uint64, ◌+ℤ◌}
use shitty_redis.Strconv.{parse_int, format_int}
use shitty_redis.Resp.Wire.{text, number, nil, simple, null_bulk, bulk, int, to_lower}
use shitty_redis.Command.Name
use shitty_redis.Command.Fields.{◌==s◌, Com, first_at}
use shitty_redis.Command.Reads.{set_expiry}
use shitty_redis.Keyspace.Store.{
  Structure, var, list, stream, Db, find, keep, forget, Reply, failed, answer,
}
use shitty_redis.Txns.Ops.{set_watching_txns_dirty}

abbrev pub pong : Bytes
pong = b'P' ∷ b'O' ∷ b'N' ∷ b'G' ∷ []

abbrev pub ok_text : Bytes
ok_text = b'O' ∷ b'K' ∷ []

unfoldable pub ping : Db → Run (Reply × Db)
ping db = answer (text pong) simple db

unfoldable pub echo : Com → Db → Run (Reply × Db)
echo cmd db = do this ← first_at Name.echothis cmd.args; answer (text this) bulk db

-- The name of a value's type.
unfoldable pub type_name : Option Structure → Bytes
type_name (some (var v)) = b's' ∷ b't' ∷ b'r' ∷ b'i' ∷ b'n' ∷ b'g' ∷ []
type_name (some (list q)) = b'l' ∷ b'i' ∷ b's' ∷ b't' ∷ []
type_name (some (stream st)) = b's' ∷ b't' ∷ b'r' ∷ b'e' ∷ b'a' ∷ b'm' ∷ []
type_name none = b'n' ∷ b'o' ∷ b'n' ∷ b'e' ∷ []

unfoldable pub handle_type : Com → Db → Run (Reply × Db)
handle_type cmd db = do
  key ← first_at Name.key cmd.args
  answer (text (type_name (find key db))) simple db

-- A value that is no string leaves the nil pointer `v`, which `*v` reads.
unfoldable pub get_value : Option Structure → Db → Run (Reply × Db)
get_value none db = answer nil null_bulk db
get_value (some (var v)) db = answer (text v) bulk db
get_value (some (list q)) db = panic
get_value (some (stream st)) db = panic

unfoldable pub get_key : Bytes → Db → Run (Reply × Db)
get_key key db = get_value (find key db) db

unfoldable pub get : Com → Db → Run (Reply × Db)
get cmd db = do key ← first_at Name.key cmd.args; get_key key db

-- A product of int64s, as a machine word.
unfoldable pub scale : ℕ → ℤ → ℤ
scale k (pos n) = int64 (uint64 (pos (k * n)))
scale k (negsuc n) = int64 (uint64 (negsuc (k * suc n - 1)))

unfoldable pub add_timer : Option ℤ → ℕ → Bytes → Db → Db
add_timer none unit key db = db
add_timer (some d) unit key db = record db { timers = db.timers ++ ((scale unit d, key) ∷ []) }

-- An error of `SetupExpiry` is only printed: the state stays as it was. Durations are nanoseconds.
unfoldable pub setup_expiry : Bytes → Bytes → Bytes → Db → Db
setup_expiry et dur key db =
    if to_lower et ==s (b'p' ∷ b'x' ∷ [])
    then add_timer (parse_int dur) (10 ^ 6) key db
    else if to_lower et ==s (b'e' ∷ b'x' ∷ [])
    then add_timer (parse_int dur) (10 ^ 9) key db
    else db

-- `set` after its lock: the expiry type and the duration, if there are extras.
unfoldable pub setup_extras : Bytes → List Bytes → Db → Db
setup_extras key (et ∷ dur ∷ more) db = setup_expiry et dur key db
setup_extras key expiry db = db

unfoldable pub set_key : Bytes → Bytes → Db → Db
set_key key val db =
    let kept = keep key (var val) db in record kept { txns = set_watching_txns_dirty key kept.txns }

unfoldable pub set : Com → Db → Run (Reply × Db)
set cmd db = do
  key ← first_at Name.key cmd.args
  val ← first_at Name.value cmd.args
  let db' = set_key key val db
  expiry ← set_expiry cmd.extras
  answer (text ok_text) simple (setup_extras key expiry db')

-- The sleep of the `n`-th timer ends.
unfoldable pub expire : Bytes → Db → Db
expire key db = forget key db

unfoldable pub incr_number : Bytes → Option ℤ → Db → Run (Reply × Db)
incr_number key none db = ok (failed, db)
incr_number key (some (pos n)) db =
    if n == 2 ^ 63 - 1
    then ok (failed, db)
    else answer (number (pos n +ℤ pos 1)) int (keep key (var (format_int (pos n +ℤ pos 1))) db)
incr_number key (some (negsuc n)) db =
    answer (number (negsuc n +ℤ pos 1)) int (keep key (var (format_int (negsuc n +ℤ pos 1))) db)

unfoldable pub incr_value : Bytes → Option Structure → Db → Run (Reply × Db)
incr_value key none db = answer (number (pos 1)) int (keep key (var (b'1' ∷ [])) db)
incr_value key (some (var v)) db = incr_number key (parse_int v) db
incr_value key (some (list q)) db = ok (failed, db)
incr_value key (some (stream st)) db = ok (failed, db)

unfoldable pub incr_key : Bytes → Db → Run (Reply × Db)
incr_key key db = incr_value key (find key db) db

unfoldable pub incr : Com → Db → Run (Reply × Db)
incr cmd db = do key ← first_at Name.key cmd.args; incr_key key db
