-- ===== src/Server/Repl.antt =====
-- app/server/master.go, app/server/replica.go, and the state of app/server/server.go. A connection is
-- a number; writing to it can fail, which `fails` says.
use shitty_redis.Base.{
  ℕ, Bool, true, false, List, [], ◌∷◌, ◌++◌, Option, none, some, if◌then◌else◌, length,
}
use shitty_redis.Base.Go.{Bytes, Run, ok, panic, stuck, ◌>>=◌}
use shitty_redis.Base.Int.{ℤ, pos, ◌+ℤ◌}
use shitty_redis.Server.Config.{Role, master, replica, Config}

-- `mu` is nil, or a lock that is held or free.
pub record MasterRepl : Type 0 where
  pub id : Bytes
  pub repl_connections : List ℕ
  pub offset : ℤ
  pub mu : Option Bool

pub record ReplicaRepl : Type 0 where
  pub master_host : Bytes
  pub master_port : Bytes
  pub master_id : Bytes
  pub master_offset : ℤ

pub data Replication : Type 0 where
  master_repl : MasterRepl → Replication
  replica_repl : ReplicaRepl → Replication

pub record Server : Type 0 where
  pub port : Bytes
  pub address : Bytes
  pub repl : Replication

abbrev pub replid : Bytes
replid =
    b'8' ∷ b'3' ∷ b'7' ∷ b'1' ∷ b'b' ∷ b'4' ∷ b'f' ∷ b'b' ∷ b'1' ∷ b'1' ∷ b'5' ∷ b'5' ∷ b'b' ∷ b'7'
    ∷ b'1' ∷ b'f' ∷ b'4' ∷ b'a' ∷ b'0' ∷ b'4' ∷ b'd' ∷ b'3' ∷ b'e' ∷ b'1' ∷ b'b' ∷ b'c' ∷ b'3'
    ∷ b'e' ∷ b'1' ∷ b'8' ∷ b'c' ∷ b'4' ∷ b'a' ∷ b'9' ∷ b'9' ∷ b'0' ∷ b'a' ∷ b'e' ∷ b'e' ∷ b'b' ∷ []

-- The literal gives no `Mu`, which leaves the pointer nil.
unfoldable pub new_master : MasterRepl
new_master = record { id = replid; repl_connections = []; offset = pos 0; mu = none }

unfoldable pub new_replica : Config → ReplicaRepl
new_replica c = record {
  master_host = c.master_host;
  master_port = c.master_port;
  master_id = [];
  master_offset = pos 0;
}

unfoldable pub new_repl : Role → Config → Replication
new_repl master c = master_repl new_master
new_repl replica c = replica_repl (new_replica c)

unfoldable pub new : Config → Server
new c = record {
  port = c.port;
  address = (b'0' ∷ b'.' ∷ b'0' ∷ b'.' ∷ b'0' ∷ b'.' ∷ b'0' ∷ b':' ∷ []) ++ c.port;
  repl = new_repl c.role c;
}

unfoldable pub is_master : Server → Option MasterRepl
is_master srv = elim srv.repl [ master_repl m ↦ some m | replica_repl r ↦ none ]

unfoldable pub is_replica : Server → Option ReplicaRepl
is_replica srv = elim srv.repl [ master_repl m ↦ none | replica_repl r ↦ some r ]

-- `Mu.Lock()` of the nil pointer panics; a lock that is held is waited for, which is not modelled.
unfoldable pub lock : MasterRepl → Run MasterRepl
lock m = elim m.mu [
  | none ↦ panic
  | some true ↦ stuck
  | some false ↦ ok (record m { mu = some true })
]

-- `Mu.Unlock()` of a free lock ends the program as a panic does.
unfoldable pub unlock : MasterRepl → Run MasterRepl
unlock m = elim m.mu [
  | none ↦ panic
  | some true ↦ ok (record m { mu = some false })
  | some false ↦ panic
]

unfoldable pub incr_offset : ℕ → MasterRepl → MasterRepl
incr_offset v m = record m { offset = m.offset +ℤ pos v }

-- The loop of `Propogate` and of `Broadcast`: what was written, up to the first failure.
unfoldable pub write_all : (ℕ → Bool) → Bytes → List ℕ → List (ℕ × Bytes)
write_all fails b [] = []
write_all fails b (conn ∷ conns) = if fails conn then [] else (conn, b) ∷ write_all fails b conns

-- The error is not looked at by any caller, and is not returned here.
unfoldable pub propogate : (ℕ → Bool) → Bytes → MasterRepl → Run (List (ℕ × Bytes) × MasterRepl)
propogate fails b m = do
  held ← lock m
  let counted = incr_offset (length b) held
  free ← unlock counted
  ok (write_all fails b counted.repl_connections, free)

unfoldable pub broadcast : (ℕ → Bool) → Bytes → MasterRepl → List (ℕ × Bytes)
broadcast fails b m = write_all fails b m.repl_connections

unfoldable pub get_conn_count : MasterRepl → ℕ
get_conn_count m = length m.repl_connections

unfoldable pub add_conn : ℕ → MasterRepl → MasterRepl
add_conn conn m = record m { repl_connections = m.repl_connections ++ (conn ∷ []) }
