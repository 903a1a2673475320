-- ===== src/Main/Starting.antt =====
-- `Start` (app/server/server.go) on a replica: the handshake, and the loop behind it.
use shitty_redis.Base.{ℕ, ◌≤◌, ◌≡◌, refl, ap, ◌∙◌, false, List, [], ◌++◌, drop, length, All, arith}
use Prim.Native.Nat.{min}
use shitty_redis.Base.Go.{Bytes, Run, ok, err, panic, stuck}
use shitty_redis.Base.Int.{pos, ◌+ℤ◌, IsInt64}
use shitty_redis.Keyspace.Store.{find}
use shitty_redis.Server.Config.{Config, replica}
use shitty_redis.Server.Repl
use shitty_redis.Server.Repl.{
  MasterRepl, ReplicaRepl, Replication, master_repl, replica_repl, Server, new_repl, new_replica,
  replid,
}
use shitty_redis.Server.Handshake.{handshake}
use shitty_redis.Main.Dispatch.{Node, Outside}
use shitty_redis.Main.Loop.{put_repl, rdb_transfer}
use shitty_redis.Main.Conns.{Rounds, Looped, repl_conn}
use shitty_redis.Main.Setting.{ok_line}
use shitty_redis.Main.Joining.{rdb_file, psync_line, pong_line, handshake-psync_line}
use shitty_redis.Main.Feeding.{Fed, IsFed, rounds_of, bytes_of, latest, Taken, repl_conn-Taken}

-- How many bytes each of the four reads of the handshake finds.
pub record Chunks : Type 0 where
  pub pong : ℕ
  pub first_ok : ℕ
  pub second_ok : ℕ
  pub file : ℕ

-- `go replCb(srv, c, r)`. After an error the reader is nil, on which the loop panics.
unfoldable pub repl_cb : Rounds → ℕ → Bytes → Run (ReplicaRepl × Bytes) → Node → Run Looped
repl_cb rounds j bs (ok (r, rest)) node = repl_conn rounds j rest (put_repl (replica_repl r) node)
repl_cb rounds j bs err node = panic
repl_cb rounds j bs panic node = panic
repl_cb rounds j bs stuck node = stuck

unfoldable pub start_as : Replication → Rounds → ℕ → Chunks → Bytes → Node → Run Looped
start_as (master_repl m) rounds j cs bs node = ok ([], bs, node)
start_as (replica_repl r) rounds j cs bs node =
    repl_cb rounds j bs (handshake cs.pong cs.first_ok cs.second_ok cs.file bs r) node

-- `Start`, up to where it listens, on the bytes that the master sends.
unfoldable pub start : Rounds → ℕ → Chunks → Bytes → Node → Run Looped
start rounds j cs bs node = start_as node.server.repl rounds j cs bs node

-- The answers to the first requests come one by one, and the file in one piece.
abbrev pub in_pieces : ℕ → Chunks
in_pieces chunk = record { pong = 7; first_ok = 5; second_ok = 5; file = chunk }

-- What the master of a starting replica sends: the answers of the handshake, the RDB file, the `set`s.
abbrev pub master_bytes : Outside → MasterRepl → List Fed → Bytes → Bytes
master_bytes out m fs rest =
    pong_line
    ++ (ok_line ++ (ok_line ++ (psync_line m ++ (rdb_transfer out ++ (bytes_of fs ++ rest)))))

-- All the bytes are taken without an answer and counted on from the master's offset, and the keys
-- hold the last values.
pub record Started (j chunk : ℕ) (out : Outside) (m : MasterRepl) (fs : List Fed) (rest : Bytes)
    (cfg : Config) (node : Node) : Type 0 where
  pub node' : Node
  pub taken :
      start (rounds_of fs) j (in_pieces chunk) (master_bytes out m fs rest) node
      ≡ ok ([], rest, node')
  pub counted :
      node'.server.repl
      ≡ replica_repl
          (record (new_replica cfg) { master_offset = m.offset +ℤ pos (length (bytes_of fs)) })
  pub values : (key : Bytes) → find key node'.db ≡ latest key fs (find key node.db)

start-repl_conn :
    (rounds : Rounds) (j : ℕ) (cs : Chunks) (bs rest : Bytes) (r r' : ReplicaRepl) (node : Node)
    → node.server.repl ≡ replica_repl r
    → handshake cs.pong cs.first_ok cs.second_ok cs.file bs r ≡ ok (r', rest)
    → start rounds j cs bs node ≡ repl_conn rounds j rest (put_repl (replica_repl r') node)
unfolding start
start-repl_conn rounds j cs bs rest r r' node is_r e =
    ap (λ repl. start_as repl rounds j cs bs node) is_r ∙ opened
  where
    opened :
        start_as (replica_repl r) rounds j cs bs node
        ≡ repl_conn rounds j rest (put_repl (replica_repl r') node)
    opened = unfold start_as repl_cb in rw e refl

-- A replica that `New` has just made starts, its connection `j` outside a transaction, on these
-- bytes: the answers to the first requests, the `psync` line of a master with the id that
-- `NewMaster` gives and an offset that an int64 holds, the RDB file, any number of `set`s, in
-- letters of any case, each with a key, a value and, behind an expiry type, a duration, all texts
-- and their number below 2 ^ 63, and `rest`. The reads find the answers to the first requests one
-- by one and at least the whole file at once. Then `Start`, with a round for each `set`, takes
-- all these bytes but `rest`, without an answer; every key holds the value of its last `set`, or
-- what it held if it has none; and the replica's offset is that of the master and the number of
-- bytes of the `set`s, its other fields those that `New` gave.
pub start-Started :
    (j chunk : ℕ) (out : Outside) (m : MasterRepl) (fs : List Fed) (rest : Bytes) (cfg : Config)
    (node : Node)
    → cfg.role ≡ replica
    → node.server ≡ Repl.new cfg
    → (node.db.txns.states j).is_txn ≡ false
    → 88 ≤ chunk
    → m.id ≡ replid
    → IsInt64 m.offset
    → All IsFed fs
    → Started j chunk out m fs rest cfg node
unfolding Repl.new new_repl
start-Started j chunk out m fs rest cfg node role new plain enough id h fed =
    let is_r : node.server.repl ≡ replica_repl (new_replica cfg) =
      ap (λ (v : Server). v.repl) new ∙ rw role refl in
    let r' : ReplicaRepl = record (new_replica cfg) { master_offset = m.offset } in
    let (joined, whole) =
      handshake-psync_line out m (new_replica cfg) chunk (bytes_of fs ++ rest) id h in
    let all_read : min 88 chunk ≡ 88 = omega arith in
    let t : Taken j fs rest r' (put_repl (replica_repl r') node) =
      repl_conn-Taken j fs rest r' (put_repl (replica_repl r') node) fed (unfold put_repl in refl)
        (unfold put_repl in plain) in
    record {
      node' = t.replica';
      taken =
          start-repl_conn (rounds_of fs) j (in_pieces chunk) _ (bytes_of fs ++ rest)
            (new_replica cfg) r' node is_r
            (joined
              ∙ ap (λ n. ok (r', drop n (rdb_file out ++ (bytes_of fs ++ rest)))) all_read
              ∙ ap (λ bs. ok (r', bs)) whole)
          ∙ t.taken;
      counted = t.counted;
      values = λ key. t.values key ∙ (unfold put_repl in refl);
    }
