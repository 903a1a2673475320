-- ===== src/Server/Handshake.antt =====
-- `Handshake` (app/server/server.go) on the bytes that the master sends. `Read` gives as many bytes
-- as have come, which the chunks say; a connection that fails is a list of bytes that ends.
use shitty_redis.Base.{ℕ, zero, suc, List, [], ◌∷◌, get_elem?, drop}
use Prim.Native.Nat.{min}
use shitty_redis.Base.Go.{Bytes, Run, ok, err, panic, ◌>>=◌, or_panic}
use shitty_redis.Base.Int.{ℤ, pos, negsuc}
use shitty_redis.Strconv.{parse_int}
use shitty_redis.Resp.Wire.{read_string, trim_space, or_err}
use shitty_redis.Server.Config.{split_space}
use shitty_redis.Server.Repl.{ReplicaRepl}

-- `reader.Read` into a buffer of `size` bytes.
unfoldable pub read_some : ℕ → ℕ → Bytes → Run Bytes
read_some zero chunk bs = ok bs
read_some (suc size) chunk [] = err
read_some (suc size) chunk (b ∷ bs) = ok (drop (min (suc size) chunk) (b ∷ bs))

-- The requests of the handshake, in their order.
abbrev ping_request : List Bytes
ping_request = (b'P' ∷ b'I' ∷ b'N' ∷ b'G' ∷ []) ∷ []

abbrev replconf : Bytes
replconf = b'R' ∷ b'E' ∷ b'P' ∷ b'L' ∷ b'C' ∷ b'O' ∷ b'N' ∷ b'F' ∷ []

abbrev listening_port : Bytes
listening_port =
    b'l' ∷ b'i' ∷ b's' ∷ b't' ∷ b'e' ∷ b'n' ∷ b'i' ∷ b'n' ∷ b'g' ∷ b'-' ∷ b'p' ∷ b'o' ∷ b'r' ∷ b't'
    ∷ []

abbrev psync_request : List Bytes
psync_request = (b'P' ∷ b'S' ∷ b'Y' ∷ b'N' ∷ b'C' ∷ []) ∷ (b'?' ∷ []) ∷ (b'-' ∷ b'1' ∷ []) ∷ []

abbrev capa_request : List Bytes
capa_request =
    replconf
    ∷ (b'c' ∷ b'a' ∷ b'p' ∷ b'a' ∷ [])
    ∷ (b'p' ∷ b's' ∷ b'y' ∷ b'n' ∷ b'c' ∷ b'2' ∷ [])
    ∷ []

unfoldable pub requests : Bytes → List (List Bytes)
requests port =
    ping_request ∷ (replconf ∷ listening_port ∷ port ∷ []) ∷ capa_request ∷ psync_request ∷ []

-- The offset in the answer to PSYNC.
unfoldable pub psync_offset : Bytes → Run ℤ
psync_offset line = do
  os ← or_panic (get_elem? (split_space (trim_space line)) 2)
  or_err (parse_int os)

-- `Atoi(bcs[1:])` of the header of the RDB file; `make` with a negative length panics.
unfoldable pub rdb_count : ℤ → Run ℕ
rdb_count (pos n) = ok n
rdb_count (negsuc n) = panic

unfoldable pub rdb_size : Bytes → Run ℕ
rdb_size [] = panic
rdb_size (marker ∷ digits) = do bc ← or_err (parse_int digits); rdb_count bc

-- From the answer to PSYNC on: the replica with its offset, and the bytes behind the RDB file.
unfoldable pub read_psync : ℕ → Bytes → ReplicaRepl → Run (ReplicaRepl × Bytes)
read_psync chunk bs r = do
  (line, rest) ← read_string bs
  offset ← psync_offset line
  (header, rest') ← read_string rest
  bc ← rdb_size (trim_space header)
  rest'' ← read_some bc chunk rest'
  ok (record r { master_offset = offset }, rest'')

-- The answers to the first three requests are read and not looked at.
unfoldable pub handshake : ℕ → ℕ → ℕ → ℕ → Bytes → ReplicaRepl → Run (ReplicaRepl × Bytes)
handshake c1 c2 c3 c4 bs r = do
  rest ← read_some 1024 c1 bs
  rest' ← read_some 1024 c2 rest
  rest'' ← read_some 1024 c3 rest'
  read_psync c4 rest'' r
