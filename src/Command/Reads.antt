-- ===== src/Command/Reads.antt =====
-- app/handlers.go: what each handler reads from the command's arguments
-- before it touches the keyspace.
use shitty_redis.Base.{List, [], ◌∷◌, ◌++◌}
use shitty_redis.Base.Go.{Bytes, Run, ok, panic, ◌>>=◌}
use shitty_redis.Command.Fields.{Com, Fields, first_at, value_at}
use shitty_redis.Command.Name
use shitty_redis.Command.Validate.{
  Command, command, get_com, echo, get, set, rpush, lrange, lpush, llen, lpop, blpop, type_of, xadd,
  xrange, xread, incr, watch,
}

-- The expiry type and the duration, which `set` reads when there are extras.
unfoldable pub set_expiry : Fields → Run (List Bytes)
set_expiry [] = ok []
set_expiry (e ∷ es) = do
  t ← first_at Name.expiry_type (e ∷ es)
  d ← first_at Name.duration (e ∷ es)
  ok (t ∷ d ∷ [])

-- `ids[i]` for every key of `xread`.
unfoldable pub matching : List Bytes → List Bytes → Run (List Bytes)
matching [] ids = ok []
matching (k ∷ ks) [] = panic
matching (k ∷ ks) (i ∷ ids) = do rest ← matching ks ids; ok (i ∷ rest)

-- The reads of each handler, in their order.
unfoldable pub reads : Command → Com → Run (List Bytes)
reads echo cmd = do a ← first_at Name.echothis cmd.args; ok (a ∷ [])
reads get cmd = do k ← first_at Name.key cmd.args; ok (k ∷ [])
reads set cmd = do
  k ← first_at Name.key cmd.args
  v ← first_at Name.value cmd.args
  expiry ← set_expiry cmd.extras
  ok (k ∷ v ∷ expiry)
reads rpush cmd = do k ← first_at Name.key cmd.args; ok (k ∷ value_at Name.values cmd.args)
reads lrange cmd = do
  k ← first_at Name.key cmd.args
  l ← first_at Name.left cmd.args
  r ← first_at Name.right cmd.args
  ok (k ∷ l ∷ r ∷ [])
reads lpush cmd = do k ← first_at Name.key cmd.args; ok (k ∷ value_at Name.values cmd.args)
reads llen cmd = do k ← first_at Name.key cmd.args; ok (k ∷ [])
reads lpop cmd = do
  k ← first_at Name.key cmd.args
  c ← first_at Name.count cmd.args
  ok (k ∷ c ∷ [])
reads blpop cmd = do
  k ← first_at Name.key cmd.args
  t ← first_at Name.timeout cmd.args
  ok (k ∷ t ∷ [])
reads type_of cmd = do k ← first_at Name.key cmd.args; ok (k ∷ [])
reads xadd cmd = do
  k ← first_at Name.key cmd.args
  i ← first_at Name.id cmd.args
  ok (k ∷ i ∷ value_at Name.data_name cmd.args)
reads xrange cmd = do
  k ← first_at Name.key cmd.args
  l ← first_at Name.low cmd.args
  h ← first_at Name.high cmd.args
  ok (k ∷ l ∷ h ∷ [])
reads xread cmd = do
  ids ← matching (value_at Name.keys cmd.args) (value_at Name.ids cmd.args)
  ok (value_at Name.keys cmd.args ++ ids)
reads incr cmd = do k ← first_at Name.key cmd.args; ok (k ∷ [])
reads watch cmd = ok (value_at Name.keys cmd.args)
reads c cmd = ok []

-- The checks, then the reads of the handler that `HandleCom` picks by the command's base.
unfoldable pub checked_reads : Bytes → List Bytes → Run (List Bytes)
checked_reads base args = do cmd ← get_com base args; reads (command cmd.base) cmd
