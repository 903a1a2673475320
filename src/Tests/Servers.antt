-- ===== src/Tests/Servers.antt =====
-- A master, a replica that starts, and a transaction.
use shitty_redis.Base.{ℕ, ◌≡◌, refl, Bool, true, false, [], ◌∷◌, ◌++◌, All, drop, arith}
use shitty_redis.Base.Go.{Bytes, panic, ok}
use shitty_redis.Base.Int.{pos}
use shitty_redis.Txns.Ops.{new_world, new_state}
use shitty_redis.Command.Fields.{◌==s◌, put_arg}
use shitty_redis.Command.Name
use shitty_redis.Command.Validate
use shitty_redis.Command.Validate.{command, labels, get_com, validate}
use shitty_redis.Keyspace.Store.{Db}
use shitty_redis.Resp.Wire.{to_lower, lower_byte}
use shitty_redis.Server.Config.{Config, master, replica}
use shitty_redis.Server.Repl
use shitty_redis.Server.Repl.{MasterRepl, ReplicaRepl, new_master, new_replica, new_repl, replid}
use shitty_redis.Server.Handshake.{handshake}
use shitty_redis.Main.Dispatch.{Node, Outside}
use shitty_redis.Main.Loop.{client_round, rdb_transfer}
use shitty_redis.Main.Setting.{set_base, ok_line}
use shitty_redis.Main.Locking.{client_round_panics}
use shitty_redis.Main.Joining.{pong_line, psync_line, rdb_file, handshake-psync_line}
use shitty_redis.Main.Feeding.{Fed, IsFed}
use shitty_redis.Main.Starting.{Started, start-Started}
use shitty_redis.Main.Requests.{Request, IsQueueable}
use shitty_redis.Main.Sessions.{Executed, client_conn-Executed}

abbrev key : Bytes
key = b'k' ∷ []

abbrev one : Bytes
one = b'1' ∷ []

abbrev no_db : Db
no_db = record {
  keyspace = [];
  blpop_waiters = λ k. [];
  channels = 0;
  sent = [];
  xread_waiters = λ k. [];
  nudged = [];
  timers = [];
  txns = new_world;
}

abbrev outside : Outside
outside = record {
  now = 1700000000000;
  alloc = 1000;
  fuel = 10;
  parses = λ d. true;
  message = λ cmd node. [];
  check_message = λ base args. [];
  rdb_fails = false;
}

abbrev unbroken : ℕ → Bool
unbroken i = false

abbrev cfg : Config
cfg = record { port = b'1' ∷ []; role = master; master_host = []; master_port = [] }

abbrev fresh : Node
fresh = record { server = Repl.new cfg; db = no_db }

-- Connection 1 is in no transaction.
plain : (no_db.txns.states 1).is_txn ≡ false
unfolding new_world new_state
plain = refl

clean : (no_db.txns.states 1).dirty ≡ false
unfolding new_world new_state
clean = refl

no_queue : (no_db.txns.states 1).queue ≡ []
unfolding new_world new_state
no_queue = refl

client_round_panics_example :
    client_round outside unbroken 1 set_base (key ∷ one ∷ []) fresh ≡ panic
client_round_panics_example =
    client_round_panics outside unbroken 1 (key ∷ one ∷ []) cfg fresh refl refl refl

-- A replica that has just been made.
abbrev replica_cfg : Config
replica_cfg = record cfg { role = replica }

abbrev fresh_replica : Node
fresh_replica = record { server = Repl.new replica_cfg; db = no_db }

-- `SET k 1` and `set k 1 px 1`.
abbrev capital : Fed
capital = record {
  base = b'S' ∷ b'E' ∷ b'T' ∷ [];
  key = key;
  val = one;
  more = [];
  out = outside;
  fails = unbroken;
}

abbrev with_expiry : Fed
with_expiry = record capital { base = set_base; more = (b'p' ∷ b'x' ∷ []) ∷ one ∷ [] }

two_sets-IsFed : All IsFed (capital ∷ with_expiry ∷ [])
unfolding to_lower lower_byte
two_sets-IsFed = (
  record {
    is_set = refl;
    texts = (omega arith, (omega arith, (omega arith, tt)));
    count = omega arith;
    duration = tt;
  },
  (
    record {
      is_set = refl;
      texts = (omega arith, (omega arith, (omega arith, (omega arith, (omega arith, tt)))));
      count = omega arith;
      duration = tt;
    },
    tt,
  ),
)

start-Started_example :
    Started 1 88 outside new_master (capital ∷ with_expiry ∷ []) one replica_cfg fresh_replica
unfolding new_master
start-Started_example =
    start-Started 1 88 outside new_master (capital ∷ with_expiry ∷ []) one replica_cfg fresh_replica
      refl refl plain (omega arith) refl (omega arith) two_sets-IsFed

-- Only 50 bytes of the file have come.
handshake-psync_line_example :
    (handshake 7 5 5 50
        (pong_line
          ++ (ok_line ++ (ok_line ++ (psync_line new_master ++ (rdb_transfer outside ++ one)))))
        (new_replica replica_cfg)
      ≡ ok (
        record (new_replica replica_cfg) { master_offset = pos 0 },
        drop 50 (rdb_file outside ++ one),
      ))
    × (drop 88 (rdb_file outside ++ one) ≡ one)
unfolding new_master
handshake-psync_line_example =
    handshake-psync_line outside new_master (new_replica replica_cfg) 50 one refl (omega arith)

-- `GET k` and `incr k`.
abbrev get_one : Request
get_one = record {
  word = b'G' ∷ b'E' ∷ b'T' ∷ [];
  base = b'g' ∷ b'e' ∷ b't' ∷ [];
  args = key ∷ [];
  cmd =
      put_arg Name.key (key ∷ [])
        (record { base = b'g' ∷ b'e' ∷ b't' ∷ []; args = []; extras = [] });
}

abbrev incr_one : Request
incr_one = record {
  word = b'i' ∷ b'n' ∷ b'c' ∷ b'r' ∷ [];
  base = b'i' ∷ b'n' ∷ b'c' ∷ b'r' ∷ [];
  args = key ∷ [];
  cmd =
      put_arg Name.key (key ∷ [])
        (record { base = b'i' ∷ b'n' ∷ b'c' ∷ b'r' ∷ []; args = []; extras = [] });
}

queueable : All (IsQueueable fresh.server.repl) (get_one ∷ incr_one ∷ [])
unfolding to_lower lower_byte get_com validate command labels ◌==s◌ Validate.find_label
    Validate.validate_key put_arg Repl.new new_repl
queueable = (
  record {
    lower = refl;
    texts = (omega arith, (omega arith, tt));
    count = omega arith;
    checked = refl;
    plain = tt;
    quiet = tt;
  },
  (
    record {
      lower = refl;
      texts = (omega arith, (omega arith, tt));
      count = omega arith;
      checked = refl;
      plain = tt;
      quiet = tt;
    },
    tt,
  ),
)

client_conn-Executed_example : Executed outside unbroken 1 (get_one ∷ incr_one ∷ []) one fresh
client_conn-Executed_example =
    client_conn-Executed outside unbroken 1 (get_one ∷ incr_one ∷ []) one fresh refl queueable plain
      clean no_queue
