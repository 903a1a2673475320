-- ===== src/Main/Quiet.antt =====
-- Rounds of `HandleClientConn` (app/main.go) behind whose answer a master sends nothing.
use shitty_redis.Base.{ℕ, ◌≡◌, refl, ap, ◌∙◌, Bool, true, false, List, [], ◌∷◌, ◌++◌, none}
use shitty_redis.Base.Go.{Bytes, Run, ok, err, panic, stuck, ◌>>=◌}
use shitty_redis.Resp.Wire.{resp_encoder, texts, array}
use shitty_redis.Command.Fields.{◌==s◌, Com}
use shitty_redis.Command.Validate
use shitty_redis.Command.Validate.{Command, command, labels, get_com, validate}
use shitty_redis.Txns.Ops
use shitty_redis.Txns.Ops.{State, World, put_state, enqueue, exec_start}
use shitty_redis.Keyspace.Store.{Reply}
use shitty_redis.Server.Repl.{MasterRepl, Replication, master_repl, replica_repl}
use shitty_redis.Server.Replies.{encoded}
use shitty_redis.Main.Dispatch.{
  Node, Outside, on_txns, handle_plain, handle_by, handle_com, run_queue, end_txn, exec_run, exec,
}
use shitty_redis.Main.Loop.{
  Sent, sends, sent, is_queued, run_com, run_checked, request, replicate_set, send_rdb, after_write,
  answered, client_round, put_repl,
}
use shitty_redis.Main.Setting.{ok_line, queued_line}
use shitty_redis.Main.Requests.{
  Request, IsPlain, IsQuiet, multi_base, exec_base, opened, opened-states, inside, enqueue-opened,
  begin-opened,
}

IsPlain-is_queued : (c : Command) → IsPlain c → is_queued c ≡ true
unfolding is_queued
IsPlain-is_queued Command.exec h = absurd h
IsPlain-is_queued Command.multi h = absurd h
IsPlain-is_queued Command.discard h = absurd h
IsPlain-is_queued Command.watch h = absurd h
IsPlain-is_queued Command.unwatch h = absurd h
IsPlain-is_queued c h = refl

replicate_set-quiet :
    (fails : ℕ → Bool) (c : Command) (base : Bytes) (args : List Bytes) (m : MasterRepl)
    → IsQuiet (master_repl m) c
    → replicate_set fails c base args m ≡ ok ([], m)
unfolding replicate_set
replicate_set-quiet fails Command.set base args m h = absurd h
replicate_set-quiet fails c base args m h = refl

send_rdb-quiet :
    (out : Outside) (i : ℕ) (c : Command) (m : MasterRepl)
    → IsQuiet (master_repl m) c
    → send_rdb out i c m ≡ ok ([], m)
unfolding send_rdb
send_rdb-quiet out i Command.psync m h = absurd h
send_rdb-quiet out i c m h = refl

module _ (out : Outside) (fails : ℕ → Bool) (i : ℕ) (writes : fails i ≡ false) where
  after_write-quiet :
      (base : Bytes) (args : List Bytes) (repl : Replication)
      → IsQuiet repl (command base)
      → after_write out fails i base args repl ≡ ok ([], repl)
  unfolding after_write
  after_write-quiet base args (replica_repl r) h = refl
  after_write-quiet base args (master_repl m) h =
      rw (replicate_set-quiet fails (command base) base args m h, ◌>>=◌)
        (rw (send_rdb-quiet out i (command base) m h, ◌>>=◌) refl)

  pub answered-quiet :
      (base : Bytes) (args : List Bytes) (b : Bytes) (node : Node)
      → IsQuiet node.server.repl (command base)
      → answered out fails i base args (sends b) node
        ≡ ok (record { writes = (i, b) ∷ []; blocked = none; node = node })
  unfolding answered put_repl
  answered-quiet base args b node h =
      rw (after_write-quiet base args node.server.repl h, ◌>>=◌) (rw writes refl)

  pub client_round-quiet :
      (base : Bytes) (args : List Bytes) (b : Bytes) (node node' : Node)
      → request out i base args node ≡ ok (sends b, node')
      → IsQuiet node'.server.repl (command base)
      → client_round out fails i base args node
        ≡ ok (record { writes = (i, b) ∷ []; blocked = none; node = node' })
  unfolding client_round
  client_round-quiet base args b node node' e h = rw (e, ◌>>=◌) (answered-quiet base args b node' h)

  pub request-enqueue :
      (r : Request) (q : List Com) (node : Node)
      → get_com r.base r.args ≡ ok r.cmd
      → IsPlain (command r.cmd.base)
      → request out i r.base r.args (opened i q node)
        ≡ ok (sends queued_line, opened i (q ++ (r.cmd ∷ [])) node)
  unfolding request run_checked run_com resp_encoder
  request-enqueue r q node checked plain = rw checked (
      rw (inside i q node) (
        rw (IsPlain-is_queued (command r.cmd.base) plain)
          (ap (λ n. ok (sends queued_line, n)) (enqueue-opened i r.cmd q node))))

  pub request-multi :
      (node : Node)
      → (node.db.txns.states i).is_txn ≡ false
      → (node.db.txns.states i).queue ≡ []
      → request out i multi_base [] node ≡ ok (sends ok_line, opened i [] node)
  unfolding request run_checked run_com is_queued get_com validate command labels ◌==s◌
      Validate.find_label handle_com handle_by handle_plain on_txns Ops.multi encoded resp_encoder
      sent
  request-multi node e empty = rw e (ap (λ n. ok (sends ok_line, n)) (begin-opened i node empty))

  abbrev pub exec_sent : Run (List Bytes × Node) → Run (Sent × Node)
  exec_sent m = do
    (res, node') ← m
    b ← resp_encoder (texts res) array
    ok (sends b, end_txn i node')

  abbrev exec_answered : Bytes → Run (List Bytes × Node) → Run (Sent × Node)
  exec_answered message m =
      let ended : Run (Reply × Node) = (do
        (res, node') ← m
        r ← encoded (texts res) array
        ok (r, end_txn i node')) in
      do (r, node') ← ended; s ← sent message r; ok (s, node')

  exec_answered-sent :
      (message : Bytes) (m : Run (List Bytes × Node)) → exec_answered message m ≡ exec_sent m
  unfolding encoded sent resp_encoder
  exec_answered-sent message (ok (res, node')) = refl
  exec_answered-sent message err = refl
  exec_answered-sent message panic = refl
  exec_answered-sent message stuck = refl

  pub request-exec :
      (q : List Com) (node : Node)
      → (node.db.txns.states i).dirty ≡ false
      → request out i exec_base [] (opened i q node)
        ≡ exec_sent (run_queue out i q (opened i q node))
  unfolding request run_checked run_com is_queued get_com validate command labels ◌==s◌
      Validate.find_label handle_com handle_by exec exec_start exec_run
  request-exec q node clean =
      let at : (opened i q node).db.txns.states i
          ≡ record (node.db.txns.states i) { is_txn = true; queue = q } =
        opened-states i q node in
      let not_dirty : ((opened i q node).db.txns.states i).dirty ≡ false =
        ap (λ (s : State). s.dirty) at ∙ clean in
      let queued : ((opened i q node).db.txns.states i).queue ≡ q =
        ap (λ (s : State). s.queue) at in
      rw (inside i q node)
        (rw not_dirty (rw queued (exec_answered-sent _ (run_queue out i q (opened i q node)))))
