-- ===== src/Server/Replies.antt =====
-- app/repl_handlers.go, and `info` of app/handlers.go.
use shitty_redis.Base.{[], ◌∷◌, ◌++◌, if◌then◌else◌}
use shitty_redis.Base.Go.{Bytes, Run, ok, ◌>>=◌}
use shitty_redis.Base.Int.{pos}
use shitty_redis.Strconv.{format_int}
use shitty_redis.Resp.Wire.{
  Any, EncodeType, resp_encoder, text, texts, number, simple, bulk, bulk_list, int,
}
use shitty_redis.Command.Fields.{Com, has_field}
use shitty_redis.Command.Name
use shitty_redis.Keyspace.Store.{Reply, reply, failed}
use shitty_redis.Keyspace.Strings.{ok_text}
use shitty_redis.Server.Config.{role_name, master, replica}
use shitty_redis.Server.Repl.{
  MasterRepl, Replication, master_repl, replica_repl, Server, lock, get_conn_count,
}

unfoldable pub encoded : Any → EncodeType → Run Reply
encoded v t = do out ← resp_encoder v t; ok (reply out)

abbrev replconf_text : Bytes
replconf_text = b'R' ∷ b'E' ∷ b'P' ∷ b'L' ∷ b'C' ∷ b'O' ∷ b'N' ∷ b'F' ∷ []

abbrev ack_text : Bytes
ack_text = b'A' ∷ b'C' ∷ b'K' ∷ []

unfoldable pub ack : Replication → Run Reply
ack (master_repl m) = ok failed
ack (replica_repl r) =
    encoded (texts (replconf_text ∷ ack_text ∷ format_int r.master_offset ∷ [])) bulk_list

unfoldable pub replconf : Com → Server → Run Reply
replconf cmd srv =
    if has_field Name.ack cmd.extras then ack srv.repl else encoded (text ok_text) simple

abbrev fullresync : Bytes
fullresync = b'F' ∷ b'U' ∷ b'L' ∷ b'L' ∷ b'R' ∷ b'E' ∷ b'S' ∷ b'Y' ∷ b'N' ∷ b'C' ∷ []

-- The text of the answer to PSYNC.
unfoldable pub resync_text : MasterRepl → Bytes
resync_text m = fullresync ++ (32 ∷ (m.id ++ (32 ∷ format_int m.offset)))

-- The lock is taken here; the connection's loop gives it up.
unfoldable pub psync_repl : Replication → Run (Reply × Replication)
psync_repl (replica_repl r) = ok (failed, replica_repl r)
psync_repl (master_repl m) = do
  held ← lock m
  out ← encoded (text (resync_text held)) simple
  ok (out, master_repl held)

unfoldable pub psync : Server → Run (Reply × Server)
psync srv = do (out, repl) ← psync_repl srv.repl; ok (out, record srv { repl = repl })

unfoldable pub wait_repl : Replication → Run Reply
wait_repl (replica_repl r) = ok failed
wait_repl (master_repl m) = encoded (number (pos (get_conn_count m))) int

unfoldable pub wait : Server → Run Reply
wait srv = wait_repl srv.repl

abbrev role_label : Bytes
role_label = b'r' ∷ b'o' ∷ b'l' ∷ b'e' ∷ b':' ∷ []

abbrev replid_label : Bytes
replid_label =
    b'm' ∷ b'a' ∷ b's' ∷ b't' ∷ b'e' ∷ b'r' ∷ b'_' ∷ b'r' ∷ b'e' ∷ b'p' ∷ b'l' ∷ b'i' ∷ b'd' ∷ b':'
    ∷ []

abbrev offset_label : Bytes
offset_label =
    b'm' ∷ b'a' ∷ b's' ∷ b't' ∷ b'e' ∷ b'r' ∷ b'_' ∷ b'r' ∷ b'e' ∷ b'p' ∷ b'l' ∷ b'_' ∷ b'o' ∷ b'f'
    ∷ b'f' ∷ b's' ∷ b'e' ∷ b't' ∷ b':' ∷ []

unfoldable pub info_text : Replication → Bytes
info_text (master_repl m) =
    role_label
    ++ (role_name master
        ++ (10 ∷ (replid_label ++ (m.id ++ (10 ∷ (offset_label ++ format_int m.offset))))))
info_text (replica_repl r) = role_label ++ role_name replica

unfoldable pub info : Server → Run Reply
info srv = encoded (text (info_text srv.repl)) bulk
