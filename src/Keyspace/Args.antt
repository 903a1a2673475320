-- ===== src/Keyspace/Args.antt =====
-- The handlers of streams (app/handlers.go) on a command: their reads of the arguments. The clock,
-- the fuel of the loops of `XRANGE` and `XREAD`, and `ParseFloat` are arguments.
use shitty_redis.Base.{ℕ, Bool, Option, none, some, if◌then◌else◌}
use shitty_redis.Base.Go.{Bytes, Run, ok, ◌>>=◌}
use shitty_redis.Command.Name
use shitty_redis.Command.Fields.{Com, Fields, first_at, value_at, has_field}
use shitty_redis.Keyspace.Store.{Db, Reply}
use shitty_redis.Keyspace.Streams.{xadd_key, xrange_key, xread_key}

unfoldable pub xadd : ℕ → Com → Db → Run (Reply × Db)
xadd now cmd db = do
  key ← first_at Name.key cmd.args
  id ← first_at Name.id cmd.args
  xadd_key now key id (value_at Name.data_name cmd.args) db

unfoldable pub xrange : ℕ → Com → Db → Run (Reply × Db)
xrange fuel cmd db = do
  key ← first_at Name.key cmd.args
  low ← first_at Name.low cmd.args
  high ← first_at Name.high cmd.args
  xrange_key fuel key low high db

-- `parses` says which durations `ParseFloat` accepts.
unfoldable pub block_option : (Bytes → Bool) → Fields → Run (Option Bool)
block_option parses extras =
    let given : Run (Option Bool) = (do
      duration ← first_at Name.block extras
      ok (some (parses duration))) in
    if has_field Name.block extras then given else ok none

unfoldable pub xread : ℕ → (Bytes → Bool) → Com → Db → Run (Reply × Db)
xread fuel parses cmd db = do
  block ← block_option parses cmd.extras
  (out, ids, db') ←
      xread_key fuel block (value_at Name.keys cmd.args) (value_at Name.ids cmd.args) db
  ok (out, db')
