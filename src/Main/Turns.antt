-- ===== src/Main/Turns.antt =====
-- The queue that `exec` of app/handlers.go runs, beside `HandleCom` of app/main.go.
use shitty_redis.Base.{ℕ, ◌≡◌, refl, List, [], ◌∷◌, All}
use shitty_redis.Base.Go.{Bytes, Run, ok, err, panic, stuck, ◌>>=◌}
use shitty_redis.Command.Fields.{Com}
use shitty_redis.Command.Validate.{Command, command}
use shitty_redis.Keyspace.Store.{Reply, reply, failed, waiting}
use shitty_redis.Main.Dispatch.{
  Node, Outside, handle_plain, handle_by, handle_com, queued_text, run_queue,
}
use shitty_redis.Main.Requests.{IsPlain, text_of, in_turn}

IsPlain-handle_by :
    (out : Outside) (i : ℕ) (c : Command) (cmd : Com) (node : Node)
    → IsPlain c
    → handle_by out i c cmd node ≡ handle_plain out i c cmd node
unfolding handle_by
IsPlain-handle_by out i Command.exec cmd node h = absurd h
IsPlain-handle_by out i c cmd node h = refl

-- `exec` runs its queue as `HandleCom` runs the commands.
text_of-queued_text :
    (out : Outside) (cmd : Com) (node : Node) (r : Reply)
    → queued_text out cmd node r ≡ text_of out cmd node r
unfolding queued_text
text_of-queued_text out cmd node (reply b) = refl
text_of-queued_text out cmd node failed = refl
text_of-queued_text out cmd node (waiting ch) = refl

abbrev pub IsPlainCom : Com → Type 0
IsPlainCom cmd = IsPlain (command cmd.base)

-- One command of the queue, when the rest of it runs in the same way.
module _ (out : Outside) (cmd : Com) (node : Node) where
  abbrev behind : (Node → Run (List Bytes × Node)) → Node → Run Bytes → Run (List Bytes × Node)
  behind f node' m = do b ← m; (res, node'') ← f node'; ok (b ∷ res, node'')

  abbrev queue_step :
      (Node → Run (List Bytes × Node)) → Run (Reply × Node) → Run (List Bytes × Node)
  queue_step f m = do (r, node') ← m; behind f node' (queued_text out cmd node r)

  abbrev turn_step : (Node → Run (List Bytes × Node)) → Run (Reply × Node) → Run (List Bytes × Node)
  turn_step f m = do (r, node') ← m; behind f node' (text_of out cmd node r)

  module _ (f g : Node → Run (List Bytes × Node)) (same : (node' : Node) → f node' ≡ g node') where
    by_text : (node' : Node) (m : Run Bytes) → behind f node' m ≡ behind g node' m
    by_text node' (ok b) = rw (same node') refl
    by_text node' err = refl
    by_text node' panic = refl
    by_text node' stuck = refl

    by_reply : (m : Run (Reply × Node)) → queue_step f m ≡ turn_step g m
    by_reply (ok (r, node')) =
        rw (text_of-queued_text out cmd node r) (by_text node' (text_of out cmd node r))
    by_reply err = refl
    by_reply panic = refl
    by_reply stuck = refl

pub run_queue-in_turn :
    (out : Outside) (i : ℕ) (cmds : List Com) (node : Node)
    → All IsPlainCom cmds
    → run_queue out i cmds node ≡ in_turn out i cmds node
unfolding run_queue handle_com
run_queue-in_turn out i [] node h = refl
run_queue-in_turn out i (cmd ∷ cmds) node (h, hs) =
    rw (IsPlain-handle_by out i (command cmd.base) cmd node h) (
      by_reply out cmd node (run_queue out i cmds) (in_turn out i cmds)
        (λ node'. run_queue-in_turn out i cmds node' hs)
        (handle_plain out i (command cmd.base) cmd node))
