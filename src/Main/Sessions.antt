-- ===== src/Main/Sessions.antt =====
-- A transaction from `multi` to `exec` in the loop of `HandleClientConn` (app/main.go), with `exec` of
-- app/handlers.go.
use shitty_redis.Base.{
  ℕ, ◌^◌, ◌<◌, ◌≡◌, refl, ap, ◌∙◌, Bool, false, List, [], ◌∷◌, ◌++◌, map, append-nil, append_assoc,
  none, length, All, arith,
}
use shitty_redis.Base.Go.{Bytes, Run, ok, err, panic, stuck, ◌>>=◌}
use shitty_redis.Resp.Wire.{resp_encoder, resp_decoder, texts, array, to_lower, lower_byte}
use shitty_redis.Resp.RoundTrip.{IsText, resp_decoder-resp_encoder}
use shitty_redis.Command.Fields.{◌==s◌, Com}
use shitty_redis.Command.Validate
use shitty_redis.Command.Validate.{Command, command, labels, get_com, validate}
use shitty_redis.Server.Repl.{Replication, master_repl, replica_repl}
use shitty_redis.Main.Dispatch.{Node, Outside, run_queue, end_txn}
use shitty_redis.Main.Loop.{Writes, Sent, sends, request, answered, Round, client_round}
use shitty_redis.Main.Conns.{Rounds, Looped, client_decoded, go_on, client_conn}
use shitty_redis.Main.Setting.{ok_line, queued_line}
use shitty_redis.Main.Ending.{Ended, end_txn-Ended}
use shitty_redis.Main.Requests.{
  Request, IsQuiet, IsQueueable, multi_base, exec_base, cmd_of, encoding, queue_bytes,
  transaction_bytes, queue_rounds, queued_answers, in_turn, opened,
}
use shitty_redis.Main.Turns.{IsPlainCom, run_queue-in_turn}
use shitty_redis.Main.Quiet.{
  answered-quiet, client_round-quiet, request-enqueue, request-multi, request-exec, exec_sent,
}

-- The writes `before`, the answer of `exec`, and the end of the transaction.
abbrev pub finish : ℕ → Bytes → Writes → (Node → Node) → Run (List Bytes × Node) → Run Looped
finish i rest before ended m = do
  (bs, node') ← m
  b ← resp_encoder (texts bs) array
  ok (before ++ ((i, b) ∷ []), rest, ended node')

-- The whole loop: the rounds that queue, and the round of `exec`.
module _ (out : Outside) (fails : ℕ → Bool) (i : ℕ) (writes : fails i ≡ false) (rest : Bytes) where
  finish-first :
      (w : ℕ × Bytes) (before : Writes) (m : Run (List Bytes × Node))
      → (do (ws, left, node') ← finish i rest before (end_txn i) m; ok (w ∷ ws, left, node'))
        ≡ finish i rest (w ∷ before) (end_txn i) m
  unfolding resp_encoder
  finish-first w before (ok (bs, node')) = refl
  finish-first w before err = refl
  finish-first w before panic = refl
  finish-first w before stuck = refl

  abbrev exec_looped : Run (Sent × Node) → Run Looped
  exec_looped m =
      let round : Run Round = (do (s, node') ← m; answered out fails i exec_base [] s node') in
      do r ← round; go_on (client_conn [] i) rest r.writes r.blocked r.node

  exec-IsQuiet : (repl : Replication) → IsQuiet repl (command exec_base)
  unfolding command labels ◌==s◌ Validate.find_label
  exec-IsQuiet (replica_repl r) = tt
  exec-IsQuiet (master_repl m) = tt

  exec_looped-finish :
      (m : Run (List Bytes × Node))
      → exec_looped (exec_sent out fails i writes m) ≡ finish i rest [] (end_txn i) m
  unfolding resp_encoder
  exec_looped-finish (ok (bs, node')) =
      rw
        (
          answered-quiet out fails i writes exec_base [] _ (end_txn i node')
              (exec-IsQuiet (end_txn i node').server.repl),
          ◌>>=◌,
        )
        (unfold go_on client_conn in refl)
  exec_looped-finish err = refl
  exec_looped-finish panic = refl
  exec_looped-finish stuck = refl

  decoded :
      (word base : Bytes) (args : List Bytes) (more : Bytes)
      → to_lower word ≡ base
      → All IsText (word ∷ args)
      → length (word ∷ args) < 2 ^ 63
      → resp_decoder (encoding word args ++ more)
        ≡ ok (base, args, length (encoding word args), more)
  unfolding resp_encoder
  decoded word base args more lower small h =
      resp_decoder-resp_encoder word args more small h
      ∙ ap (λ b. ok (b, args, length (encoding word args), more)) lower

  exec_conn :
      (q : List Com) (node : Node)
      → (node.db.txns.states i).dirty ≡ false
      → client_conn ((out, fails) ∷ []) i (encoding exec_base [] ++ rest) (opened i q node)
        ≡ finish i rest [] (end_txn i) (run_queue out i q (opened i q node))
  unfolding client_conn client_decoded client_round
  exec_conn q node clean =
      rw
        (decoded exec_base exec_base [] rest (unfold to_lower lower_byte in refl) (omega arith, tt)
          (omega arith))
        (rw (request-exec out fails i writes q node clean)
          (exec_looped-finish (run_queue out i q (opened i q node))))

  go_on-queued :
      (s : Rounds) (more : Bytes) (node : Node)
      → (before : Writes) (m : Run (List Bytes × Node)) (line : Bytes)
      → client_conn s i more node ≡ finish i rest before (end_txn i) m
      → go_on (client_conn s i) more ((i, line) ∷ []) none node
        ≡ finish i rest ((i, line) ∷ before) (end_txn i) m
  unfolding go_on
  go_on-queued s more node before m line e = rw e (finish-first (i, line) before m)

  client_conn-decoded :
      (s : Rounds) (word base : Bytes) (args : List Bytes) (more line : Bytes) (node node' : Node)
      → to_lower word ≡ base
      → All IsText (word ∷ args)
      → length (word ∷ args) < 2 ^ 63
      → request out i base args node ≡ ok (sends line, node')
      → IsQuiet node'.server.repl (command base)
      → client_conn ((out, fails) ∷ s) i (encoding word args ++ more) node
        ≡ go_on (client_conn s i) more ((i, line) ∷ []) none node'
  unfolding client_conn client_decoded
  client_conn-decoded s word base args more line node node' lower small h e quiet =
      rw (decoded word base args more lower small h)
        (rw (client_round-quiet out fails i writes base args line node node' e quiet, ◌>>=◌) refl)

  queue_conn :
      (rs : List Request) (q : List Com) (node : Node)
      → All (IsQueueable node.server.repl) rs
      → (node.db.txns.states i).dirty ≡ false
      → client_conn (queue_rounds out fails rs) i (queue_bytes rs rest) (opened i q node)
        ≡ finish i rest
            (queued_answers i rs)
            (end_txn i)
            (run_queue out i (q ++ map cmd_of rs) (opened i (q ++ map cmd_of rs) node))
  queue_conn [] q node h clean = rw (append-nil q) (exec_conn q node clean)
  queue_conn (r ∷ rs) q node (h, hs) clean =
      client_conn-decoded (queue_rounds out fails rs) r.word r.base r.args (queue_bytes rs rest)
        queued_line (opened i q node) (opened i (q ++ (r.cmd ∷ [])) node) h.lower h.texts h.count
        (request-enqueue out fails i writes r q node h.checked h.plain) h.quiet
      ∙ go_on-queued (queue_rounds out fails rs) (queue_bytes rs rest)
          (opened i (q ++ (r.cmd ∷ [])) node) (queued_answers i rs) _ queued_line
          (queue_conn rs (q ++ (r.cmd ∷ [])) node hs clean
            ∙ ap
                (λ (p : List Com).
                  finish i rest (queued_answers i rs) (end_txn i)
                    (run_queue out i p (opened i p node)))
                (append_assoc q (r.cmd ∷ []) (map cmd_of rs)))

  multi-IsQuiet : (repl : Replication) → IsQuiet repl (command multi_base)
  unfolding command labels ◌==s◌ Validate.find_label
  multi-IsQuiet (replica_repl r) = tt
  multi-IsQuiet (master_repl m) = tt

IsQueueable-plain :
    (repl : Replication) (rs : List Request)
    → All (IsQueueable repl) rs
    → All IsPlainCom (map cmd_of rs)
IsQueueable-plain repl [] h = tt
IsQueueable-plain repl (r ∷ rs) (h, hs) = (h.plain, IsQueueable-plain repl rs hs)

-- The answers, the state in which each command runs, and the state in which the connection is left.
pub record Executed (out : Outside) (fails : ℕ → Bool) (i : ℕ) (rs : List Request) (rest : Bytes)
    (node : Node) : Type 0 where
  pub ended : Node → Node
  pub ends : (node' : Node) → Ended i node' (ended node')
  pub looped :
      client_conn ((out, fails) ∷ queue_rounds out fails rs) i (transaction_bytes rs rest) node
      ≡ finish i rest
          ((i, ok_line) ∷ queued_answers i rs)
          ended
          (in_turn out i (map cmd_of rs) (opened i (map cmd_of rs) node))

-- On a connection `i` with no transaction, an empty queue and nothing dirty, whose answers can be
-- written, the bytes come of `multi`, of any number of requests, in letters of any case and with
-- texts and a number of them below 2 ^ 63, and of `exec`, with no other connection between. Every
-- request passes its check and is not a command that steers a transaction, nor, on a master,
-- `set` or `psync`. Then the loop answers `multi` with `OK` and each request with `QUEUED`; at
-- `exec` the commands go through `HandleCom`, each once and in the order of the requests, from
-- the state in which they are queued, and if all return an answer their answers go out as one
-- array. Behind it the connection is as at its start and in no row of a key that it watched, and
-- nothing else is changed; what follows `exec` is left to read.
pub client_conn-Executed :
    (out : Outside) (fails : ℕ → Bool) (i : ℕ) (rs : List Request) (rest : Bytes) (node : Node)
    → (writes : fails i ≡ false) → All (IsQueueable node.server.repl) rs
    → (node.db.txns.states i).is_txn ≡ false
    → (node.db.txns.states i).dirty ≡ false
    → (node.db.txns.states i).queue ≡ []
    → Executed out fails i rs rest node
client_conn-Executed out fails i rs rest node writes h plain clean empty = record {
  ended = end_txn i;
  ends = end_txn-Ended i;
  looped =
      client_conn-decoded out fails i writes rest (queue_rounds out fails rs) multi_base multi_base
        [] (queue_bytes rs rest) ok_line node (opened i [] node)
        (unfold to_lower lower_byte in refl) (omega arith, tt) (omega arith)
        (request-multi out fails i writes node plain empty)
        (multi-IsQuiet out fails i writes rest node.server.repl)
      ∙ go_on-queued out fails i writes rest (queue_rounds out fails rs) (queue_bytes rs rest)
          (opened i [] node) (queued_answers i rs) _ ok_line
          (queue_conn out fails i writes rest rs [] node h clean)
      ∙ ap (finish i rest ((i, ok_line) ∷ queued_answers i rs) (end_txn i)) (
          run_queue-in_turn out i (map cmd_of rs) (opened i (map cmd_of rs) node)
            (IsQueueable-plain node.server.repl rs h));
}
