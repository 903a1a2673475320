-- ===== src/Main/Conns.antt =====
-- The loops of `HandleClientConn` and of `HandleReplConn` (app/main.go) on the bytes that a connection
-- brings.
use shitty_redis.Base.{ℕ, ◌≡◌, refl, ap, ◌∙◌, Bool, List, [], ◌∷◌, ◌++◌, Option, none, some}
use shitty_redis.Base.Go.{Bytes, Run, ok, err, panic, stuck, ◌>>=◌}
use shitty_redis.Resp.Wire.{resp_decoder}
use shitty_redis.Server.Repl.{ReplicaRepl, Replication, master_repl, replica_repl}
use shitty_redis.Main.Dispatch.{Node, Outside}
use shitty_redis.Main.Loop.{Writes, Round, client_round, repl_round}

-- What the rounds of a connection take from outside: one entry for each round.
abbrev pub Rounds : Type 0
Rounds = List (Outside × (ℕ → Bool))

-- What a loop has written, the bytes that are left to read, and the state.
abbrev pub Looped : Type 0
Looped = Writes × Bytes × Node

-- `next` is the rest of the loop; a connection that waits on a channel reads no more.
unfoldable pub go_on : (Bytes → Node → Run Looped) → Bytes → Writes → Option ℕ → Node → Run Looped
go_on next rest writes (some ch) node = ok (writes, rest, node)
go_on next rest writes none node = do
  (ws, left, node') ← next rest node
  ok (writes ++ ws, left, node')

abbrev pub Decoded : Type 0
Decoded = Bytes × List Bytes × ℕ × Bytes

-- The loop ends when the decoder gives an error.
unfoldable pub client_decoded :
    (Bytes → Node → Run Looped) → Outside → (ℕ → Bool) → ℕ → Bytes → Run Decoded → Node → Run Looped
client_decoded next out fails i bs (ok (base, args, bc, rest)) node = do
  round ← client_round out fails i base args node
  go_on next rest round.writes round.blocked round.node
client_decoded next out fails i bs err node = ok ([], bs, node)
client_decoded next out fails i bs panic node = panic
client_decoded next out fails i bs stuck node = stuck

-- The loop of `HandleClientConn`, for as many rounds as there are entries.
unfoldable pub client_conn : Rounds → ℕ → Bytes → Node → Run Looped
client_conn [] i bs node = ok ([], bs, node)
client_conn ((out, fails) ∷ more) i bs node =
    client_decoded (client_conn more i) out fails i bs (resp_decoder bs) node

unfoldable pub repl_decoded :
    (Bytes → Node → Run Looped) → Outside → (ℕ → Bool) → ℕ → Bytes → Run Decoded → Node → Run Looped
repl_decoded next out fails i bs (ok (base, args, bc, rest)) node = do
  round ← repl_round out fails i base args bc node
  go_on next rest round.writes round.blocked round.node
repl_decoded next out fails i bs err node = ok ([], bs, node)
repl_decoded next out fails i bs panic node = panic
repl_decoded next out fails i bs stuck node = stuck

-- A server that is no replica reads nothing.
unfoldable pub as_replica : Replication → Bytes → Run Looped → Node → Run Looped
as_replica (replica_repl r) bs looped node = looped
as_replica (master_repl m) bs looped node = ok ([], bs, node)

-- The loop of `HandleReplConn`, in the same way.
unfoldable pub repl_conn : Rounds → ℕ → Bytes → Node → Run Looped
repl_conn [] i bs node = ok ([], bs, node)
repl_conn ((out, fails) ∷ more) i bs node =
    as_replica node.server.repl bs
      (repl_decoded (repl_conn more i) out fails i bs (resp_decoder bs) node) node

-- A round that answers, and the rounds behind it.
module _ (out : Outside) (fails : ℕ → Bool) (more : Rounds) (i : ℕ) (bs : Bytes) (node : Node)
    (base : Bytes) (args : List Bytes) (bc : ℕ) (rest : Bytes) (writes ws : Writes) (left : Bytes)
    (node' node'' : Node) (decoded : resp_decoder bs ≡ ok (base, args, bc, rest)) where
  abbrev answering : Round
  answering = record { writes = writes; blocked = none; node = node' }

  pub client_conn-client_round :
      client_round out fails i base args node ≡ ok answering
      → client_conn more i rest node' ≡ ok (ws, left, node'')
      → client_conn ((out, fails) ∷ more) i bs node ≡ ok (writes ++ ws, left, node'')
  unfolding client_conn client_decoded go_on
  client_conn-client_round e e' = rw decoded (rw (e, ◌>>=◌) (rw (go_on, e') refl))

  pub repl_conn-repl_round :
      (r : ReplicaRepl)
      → node.server.repl ≡ replica_repl r
      → repl_round out fails i base args bc node ≡ ok answering
      → repl_conn more i rest node' ≡ ok (ws, left, node'')
      → repl_conn ((out, fails) ∷ more) i bs node ≡ ok (writes ++ ws, left, node'')
  unfolding repl_conn
  repl_conn-repl_round r is_r e e' =
      ap
        (λ repl.
          as_replica repl bs (repl_decoded (repl_conn more i) out fails i bs (resp_decoder bs) node)
            node)
        is_r
      ∙ looped
    where
      looped :
          as_replica
            (replica_repl r)
            bs
            (repl_decoded (repl_conn more i) out fails i bs (resp_decoder bs) node)
            node
          ≡ ok (writes ++ ws, left, node'')
      looped =
          unfold as_replica repl_decoded go_on in rw decoded (rw (e, ◌>>=◌) (rw (go_on, e') refl))
