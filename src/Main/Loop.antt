-- ===== src/Main/Loop.antt =====
-- One round of the loops of `HandleClientConn` and of `HandleReplConn` (app/main.go), behind
-- `RESPDecoder`. `fails` says to which connections a write fails in this round.
use shitty_redis.Base.{
  ℕ, ◌/◌, Bool, true, false, ◌&&◌, List, [], ◌∷◌, ◌++◌, Option, none, some, if◌then◌else◌, length,
}
use shitty_redis.Base.Go.{Bytes, Run, ok, err, panic, stuck, ◌>>=◌}
use shitty_redis.Base.Int.{pos, ◌+ℤ◌}
use shitty_redis.Strconv.{format_uint}
use shitty_redis.Resp.Wire.{resp_encoder, text, texts, simple, simple_err, bulk_list, crlf}
use shitty_redis.Command.Fields.{Com}
use shitty_redis.Command.Validate.{Command, command, get_com}
use shitty_redis.Txns.Ops.{enqueue}
use shitty_redis.Keyspace.Store.{Reply, reply, failed, waiting}
use shitty_redis.Server.Repl.{
  MasterRepl, Replication, master_repl, replica_repl, propogate, add_conn, unlock,
}
use shitty_redis.Server.Rdb.{empty_rdb}
use shitty_redis.Main.Dispatch.{Node, Outside, put_txns, handle_com}

-- The commands that a transaction queues.
unfoldable pub is_queued : Command → Bool
is_queued Command.exec = false
is_queued Command.multi = false
is_queued Command.discard = false
is_queued Command.watch = false
is_queued Command.unwatch = false
is_queued c = true

-- `out`, or the channel that the handler waits on.
pub data Sent : Type 0 where
  sends : Bytes → Sent
  waits : ℕ → Sent

unfoldable pub sent : Bytes → Reply → Run Sent
sent message (reply b) = ok (sends b)
sent message failed = do b ← resp_encoder (text message) simple_err; ok (sends b)
sent message (waiting ch) = ok (waits ch)

abbrev pub queued_word : Bytes
queued_word = b'Q' ∷ b'U' ∷ b'E' ∷ b'U' ∷ b'E' ∷ b'D' ∷ []

unfoldable pub run_com : Outside → ℕ → Com → Node → Run (Sent × Node)
run_com out i cmd node =
    let queued : Run (Sent × Node) = (do
      b ← resp_encoder (text queued_word) simple
      ok (sends b, put_txns (enqueue i cmd node.db.txns) node)) in
    let handled : Run (Sent × Node) = (do
      (r, node') ← handle_com out i cmd node
      s ← sent (out.message cmd node) r
      ok (s, node')) in
    if (node.db.txns.states i).is_txn && is_queued (command cmd.base) then queued else handled

unfoldable pub run_checked : Outside → ℕ → Bytes → List Bytes → Run Com → Node → Run (Sent × Node)
run_checked out i base args (ok cmd) node = run_com out i cmd node
run_checked out i base args err node = do
  b ← resp_encoder (text (out.check_message base args)) simple_err
  ok (sends b, node)
run_checked out i base args panic node = panic
run_checked out i base args stuck node = stuck

-- `GetCom`, and the command if it passes its check.
unfoldable pub request : Outside → ℕ → Bytes → List Bytes → Node → Run (Sent × Node)
request out i base args node = run_checked out i base args (get_com base args) node

abbrev pub Writes : Type 0
Writes = List (ℕ × Bytes)

-- `Propogate` of a `set`, as it was received.
unfoldable pub replicate_set :
    (ℕ → Bool) → Command → Bytes → List Bytes → MasterRepl → Run (Writes × MasterRepl)
replicate_set fails Command.set base args m = do
  b ← resp_encoder (texts (base ∷ args)) bulk_list
  propogate fails b m
replicate_set fails c base args m = ok ([], m)

unfoldable pub rdb_transfer : Outside → Bytes
rdb_transfer out =
    let e = empty_rdb (out.now / 1000) out.alloc in (b'$' ∷ (format_uint (length e) ++ crlf)) ++ e

-- The RDB file behind the answer to `psync`; the connection becomes one to a replica. When writing
-- the file fails, the lock stays held.
unfoldable pub send_rdb : Outside → ℕ → Command → MasterRepl → Run (Writes × MasterRepl)
send_rdb out i Command.psync m =
    let transfer : Run (Writes × MasterRepl) = (do
      m' ← unlock (add_conn i m)
      ok ((i, rdb_transfer out) ∷ [], m')) in
    if out.rdb_fails then ok ([], m) else transfer
send_rdb out i c m = ok ([], m)

unfoldable pub after_write :
    Outside → (ℕ → Bool) → ℕ → Bytes → List Bytes → Replication → Run (Writes × Replication)
after_write out fails i base args (replica_repl r) = ok ([], replica_repl r)
after_write out fails i base args (master_repl m) = do
  (ws, m') ← replicate_set fails (command base) base args m
  (ws', m'') ← send_rdb out i (command base) m'
  ok (ws ++ ws', master_repl m'')

-- What a round ends with: what it wrote, or the channel on which it waits.
pub record Round : Type 0 where
  pub writes : Writes
  pub blocked : Option ℕ
  pub node : Node

unfoldable pub put_repl : Replication → Node → Node
put_repl repl node = record node { server = record node.server { repl = repl } }

unfoldable pub answered : Outside → (ℕ → Bool) → ℕ → Bytes → List Bytes → Sent → Node → Run Round
answered out fails i base args (waits ch) node =
    ok (record { writes = []; blocked = some ch; node = node })
answered out fails i base args (sends b) node =
    let written : Run Round = (do
      (ws, repl) ← after_write out fails i base args node.server.repl
      ok (record { writes = (i, b) ∷ ws; blocked = none; node = put_repl repl node })) in
    if fails i then ok (record { writes = []; blocked = none; node = node }) else written

unfoldable pub client_round : Outside → (ℕ → Bool) → ℕ → Bytes → List Bytes → Node → Run Round
client_round out fails i base args node = do
  (s, node') ← request out i base args node
  answered out fails i base args s node'

-- `r.MasterOffset += bc`.
unfoldable pub count_bytes : ℕ → Replication → Replication
count_bytes bc (replica_repl r) =
    replica_repl (record r { master_offset = r.master_offset +ℤ pos bc })
count_bytes bc (master_repl m) = master_repl m

unfoldable pub write_one : (ℕ → Bool) → ℕ → Bytes → Writes
write_one fails i b = if fails i then [] else (i, b) ∷ []

unfoldable pub is_replconf : Command → Bool
is_replconf Command.replconf = true
is_replconf c = false

unfoldable pub replied : (ℕ → Bool) → ℕ → ℕ → Bytes → Sent → Node → Run Round
replied fails i bc base (waits ch) node =
    ok (record { writes = []; blocked = some ch; node = node })
replied fails i bc base (sends b) node = ok (record {
  writes = if is_replconf (command base) then write_one fails i b else [];
  blocked = none;
  node = put_repl (count_bytes bc node.server.repl) node;
})

unfoldable pub repl_rounds :
    Outside → (ℕ → Bool) → ℕ → Bytes → List Bytes → ℕ → Replication → Node → Run Round
repl_rounds out fails i base args bc (master_repl m) node = err
repl_rounds out fails i base args bc (replica_repl r) node = do
  (s, node') ← request out i base args node
  replied fails i bc base s node'

-- A server that is no replica closes the connection, which is `err` here.
unfoldable pub repl_round : Outside → (ℕ → Bool) → ℕ → Bytes → List Bytes → ℕ → Node → Run Round
repl_round out fails i base args bc node =
    repl_rounds out fails i base args bc node.server.repl node
