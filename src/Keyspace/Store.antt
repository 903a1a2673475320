-- ===== src/Keyspace/Store.antt =====
-- The keyspace of app/structure.go with the waiters, and how a handler ends.
use shitty_redis.Base.{ℕ, List, [], ◌∷◌, Option, none, some, if◌then◌else◌}
use shitty_redis.Base.Go.{Bytes, Run, ok, ◌>>=◌}
use shitty_redis.Base.Int.{ℤ}
use shitty_redis.Resp.Wire.{Any, EncodeType, resp_encoder}
use shitty_redis.Command.Fields.{◌==s◌}
use shitty_redis.Quicklist.Ops.{Quicklist}
use shitty_redis.Stream.Types.{Stream}
use shitty_redis.Txns.Ops.{World}

-- `Structure`: its type tag always agrees with its data, since each `NewStructure` gives both.
pub data Structure : Type 0 where
  var : Bytes → Structure
  list : Quicklist → Structure
  stream : Stream → Structure

abbrev pub Keyspace : Type 0
Keyspace = List (Bytes × Structure)

unfoldable pub lookup : Bytes → Keyspace → Option Structure
lookup k [] = none
lookup k ((j, v) ∷ m) = let rest = lookup k m in if k ==s j then some v else rest

unfoldable pub store : Bytes → Structure → Keyspace → Keyspace
store k v [] = (k, v) ∷ []
store k v ((j, w) ∷ m) = let rest = store k v m in if k ==s j then (k, v) ∷ m else (j, w) ∷ rest

-- `delete(keyspace, key)`.
unfoldable pub delete_structure : Bytes → Keyspace → Keyspace
delete_structure k [] = []
delete_structure k ((j, w) ∷ m) =
    let rest = delete_structure k m in if k ==s j then rest else (j, w) ∷ rest

-- The state behind the lock `kmu`. A channel is a number below `channels`; `sent` are the values
-- sent into channels, the newest last; `nudged` are the channels of `xread` with a key in their buffer. `timers` are the sleeping calls of `Expire`.
pub record Db : Type 0 where
  pub keyspace : Keyspace
  pub blpop_waiters : Bytes → List ℕ
  pub channels : ℕ
  pub sent : List (ℕ × Bytes)
  pub xread_waiters : Bytes → List ℕ
  pub nudged : List ℕ
  pub timers : List (ℤ × Bytes)
  pub txns : World

unfoldable pub find : Bytes → Db → Option Structure
find key db = lookup key db.keyspace

unfoldable pub keep : Bytes → Structure → Db → Db
keep key s db = record db { keyspace = store key s db.keyspace }

unfoldable pub forget : Bytes → Db → Db
forget key db = record db { keyspace = delete_structure key db.keyspace }

-- A handler answers, returns an error, or waits on a channel.
pub data Reply : Type 0 where
  reply : Bytes → Reply
  failed : Reply
  waiting : ℕ → Reply

-- `resp.RESPEncoder(v, t), nil`.
unfoldable pub answer : Any → EncodeType → Db → Run (Reply × Db)
answer v t db = do out ← resp_encoder v t; ok (reply out, db)
