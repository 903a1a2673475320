-- ===== src/Main/Dispatch.antt =====
-- `HandleCom` (app/com.go) on the whole state, with `exec` of app/handlers.go. `i` is the number of the
-- connection. The texts of errors are not kept: `message` stands for the text of the error that a
-- command gives in a state.
use shitty_redis.Base.{ℕ, Bool, true, false, List, [], ◌∷◌}
use shitty_redis.Base.Go.{Bytes, Run, ok, err, panic, stuck, ◌>>=◌}
use shitty_redis.Resp.Wire.{
  resp_encoder, text, texts, nil, simple, simple_err, array, null_bulk_list,
}
use shitty_redis.Command.Fields.{Com, value_at}
use shitty_redis.Command.Name
use shitty_redis.Command.Validate.{Command, command}
use shitty_redis.Txns.Ops
use shitty_redis.Txns.Ops.{World, handle_txn_end, exec_start}
use shitty_redis.Keyspace.Store.{Db, Reply, reply, failed, waiting}
use shitty_redis.Keyspace.Strings
use shitty_redis.Keyspace.Strings.{ok_text}
use shitty_redis.Keyspace.Lists
use shitty_redis.Keyspace.Blocking
use shitty_redis.Keyspace.Args
use shitty_redis.Server.Repl.{Server}
use shitty_redis.Server.Replies
use shitty_redis.Server.Replies.{encoded}

pub record Node : Type 0 where
  pub server : Server
  pub db : Db

-- What the model takes from outside: the clock in milliseconds, the heap in use, the fuel of the
-- loops on streams, which durations `ParseFloat` accepts, the texts of errors, and whether
-- writing the RDB file fails.
pub record Outside : Type 0 where
  pub now : ℕ
  pub alloc : ℕ
  pub fuel : ℕ
  pub parses : Bytes → Bool
  pub message : Com → Node → Bytes
  pub check_message : Bytes → List Bytes → Bytes
  pub rdb_fails : Bool

unfoldable pub on_db : (Db → Run (Reply × Db)) → Node → Run (Reply × Node)
on_db handler node = do (out, db) ← handler node.db; ok (out, record node { db = db })

unfoldable pub put_txns : World → Node → Node
put_txns w node = record node { db = record node.db { txns = w } }

-- A handler of transactions that answers `OK`.
unfoldable pub on_txns : Run World → Node → Run (Reply × Node)
on_txns (ok w) node = do out ← encoded (text ok_text) simple; ok (out, put_txns w node)
on_txns err node = ok (failed, node)
on_txns panic node = panic
on_txns stuck node = stuck

unfoldable pub on_server : Run Reply → Node → Run (Reply × Node)
on_server r node = do out ← r; ok (out, node)

-- The switch, but for `exec`, which no queue holds. An unknown command answers with nothing.
unfoldable pub handle_plain : Outside → ℕ → Command → Com → Node → Run (Reply × Node)
handle_plain out i Command.ping cmd node = on_db Strings.ping node
handle_plain out i Command.echo cmd node = on_db (Strings.echo cmd) node
handle_plain out i Command.get cmd node = on_db (Strings.get cmd) node
handle_plain out i Command.set cmd node = on_db (Strings.set cmd) node
handle_plain out i Command.rpush cmd node = on_db (Lists.rpush cmd) node
handle_plain out i Command.lrange cmd node = on_db (Lists.lrange cmd) node
handle_plain out i Command.lpush cmd node = on_db (Lists.lpush cmd) node
handle_plain out i Command.llen cmd node = on_db (Lists.llen cmd) node
handle_plain out i Command.lpop cmd node = on_db (Lists.lpop cmd) node
handle_plain out i Command.blpop cmd node = on_db (Blocking.blpop cmd) node
handle_plain out i Command.type_of cmd node = on_db (Strings.handle_type cmd) node
handle_plain out i Command.xadd cmd node = on_db (Args.xadd out.now cmd) node
handle_plain out i Command.xrange cmd node = on_db (Args.xrange out.fuel cmd) node
handle_plain out i Command.xread cmd node = on_db (Args.xread out.fuel out.parses cmd) node
handle_plain out i Command.incr cmd node = on_db (Strings.incr cmd) node
handle_plain out i Command.multi cmd node = on_txns (Ops.multi i node.db.txns) node
handle_plain out i Command.exec cmd node = stuck
handle_plain out i Command.discard cmd node = on_txns (Ops.discard i node.db.txns) node
handle_plain out i Command.watch cmd node =
    on_txns (Ops.watch i (value_at Name.keys cmd.args) node.db.txns) node
handle_plain out i Command.unwatch cmd node = on_txns (ok (Ops.unwatch i node.db.txns)) node
handle_plain out i Command.info cmd node = on_server (Replies.info node.server) node
handle_plain out i Command.replconf cmd node = on_server (Replies.replconf cmd node.server) node
handle_plain out i Command.psync cmd node = do
  (r, server) ← Replies.psync node.server
  ok (r, record node { server = server })
handle_plain out i Command.wait cmd node = on_server (Replies.wait node.server) node
handle_plain out i Command.other cmd node = ok (reply [], node)

-- One entry of the answer to `exec`. A handler that waits keeps `exec` waiting, which is not modelled.
unfoldable pub queued_text : Outside → Com → Node → Reply → Run Bytes
queued_text out cmd node (reply b) = ok b
queued_text out cmd node failed = resp_encoder (text (out.message cmd node)) simple_err
queued_text out cmd node (waiting ch) = stuck

unfoldable pub run_queue : Outside → ℕ → List Com → Node → Run (List Bytes × Node)
run_queue out i [] node = ok ([], node)
run_queue out i (cmd ∷ cmds) node = do
  (r, node') ← handle_plain out i (command cmd.base) cmd node
  b ← queued_text out cmd node r
  (res, node'') ← run_queue out i cmds node'
  ok (b ∷ res, node'')

unfoldable pub end_txn : ℕ → Node → Node
end_txn i node = put_txns (handle_txn_end i node.db.txns) node

unfoldable pub exec_run : Outside → ℕ → Run (Bool × World) → Node → Run (Reply × Node)
exec_run out i err node = ok (failed, node)
exec_run out i panic node = panic
exec_run out i stuck node = stuck
exec_run out i (ok (false, w)) node = do r ← encoded nil null_bulk_list; ok (r, put_txns w node)
exec_run out i (ok (true, w)) node = do
  (res, node') ← run_queue out i (node.db.txns.states i).queue node
  r ← encoded (texts res) array
  ok (r, end_txn i node')

unfoldable pub exec : Outside → ℕ → Node → Run (Reply × Node)
exec out i node = exec_run out i (exec_start i node.db.txns) node

unfoldable pub handle_by : Outside → ℕ → Command → Com → Node → Run (Reply × Node)
handle_by out i Command.exec cmd node = exec out i node
handle_by out i c cmd node = handle_plain out i c cmd node

unfoldable pub handle_com : Outside → ℕ → Com → Node → Run (Reply × Node)
handle_com out i cmd node = handle_by out i (command cmd.base) cmd node
