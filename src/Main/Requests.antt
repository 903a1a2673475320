-- ===== src/Main/Requests.antt =====
-- The requests of a transaction as a client sends them to the loop of `HandleClientConn` (app/main.go),
-- and the state of a connection inside a transaction.
use shitty_redis.Base.{
  ℕ, ◌^◌, ◌<◌, ◌≡◌, refl, ap, ◌∙◌, Bool, true, ◌==◌, Bool-cases, inl, inr, if◌then◌else◌, List, [],
  ◌∷◌, ◌++◌, map, length, All, arith,
}
use mathlib.Core.Path.{fun_ext}
use shitty_redis.Base.Go.{Bytes, Run, ok, stuck, ◌>>=◌}
use shitty_redis.Resp.Wire.{resp_encoder, text, simple_err, list_header, bulk_strings, to_lower}
use shitty_redis.Resp.RoundTrip.{IsText}
use shitty_redis.Command.Fields.{Com}
use shitty_redis.Command.Validate.{Command, command, get_com}
use shitty_redis.Txns.Ops.{State, World, put_state, enqueue}
use shitty_redis.Keyspace.Store.{Reply, reply, failed, waiting}
use shitty_redis.Server.Repl.{Replication, master_repl, replica_repl}
use shitty_redis.Main.Dispatch.{Node, Outside, put_txns, handle_com}
use shitty_redis.Main.Loop.{Writes}
use shitty_redis.Main.Conns.{Rounds}
use shitty_redis.Main.Setting.{queued_line}

-- What a client sends, its first word in letters of any case, and the command that `GetCom` makes.
pub record Request : Type 0 where
  pub word : Bytes
  pub base : Bytes
  pub args : List Bytes
  pub cmd : Com

-- No command that steers a transaction.
abbrev pub IsPlain : Command → Type 0
IsPlain Command.exec = ⊥
IsPlain Command.multi = ⊥
IsPlain Command.discard = ⊥
IsPlain Command.watch = ⊥
IsPlain Command.unwatch = ⊥
IsPlain c = Unit

-- A master sends something behind its answer to `set` and to `psync`.
abbrev pub IsQuiet : Replication → Command → Type 0
IsQuiet (replica_repl r) c = Unit
IsQuiet (master_repl m) Command.set = ⊥
IsQuiet (master_repl m) Command.psync = ⊥
IsQuiet (master_repl m) c = Unit

-- A request with texts that a wire carries, which passes its check and is queued.
pub record IsQueueable (repl : Replication) (r : Request) : Type 0 where
  pub lower : to_lower r.word ≡ r.base
  pub texts : All IsText (r.word ∷ r.args)
  pub count : length (r.word ∷ r.args) < 2 ^ 63
  pub checked : get_com r.base r.args ≡ ok r.cmd
  pub plain : IsPlain (command r.cmd.base)
  pub quiet : IsQuiet repl (command r.base)

abbrev pub multi_base : Bytes
multi_base = b'm' ∷ b'u' ∷ b'l' ∷ b't' ∷ b'i' ∷ []

abbrev pub exec_base : Bytes
exec_base = b'e' ∷ b'x' ∷ b'e' ∷ b'c' ∷ []

abbrev pub cmd_of : Request → Com
cmd_of r = r.cmd

abbrev pub encoding : Bytes → List Bytes → Bytes
encoding word args = list_header (word ∷ args) ++ bulk_strings (word ∷ args)

-- The requests and `exec`, as bytes.
abbrev pub queue_bytes : List Request → Bytes → Bytes
queue_bytes [] rest = encoding exec_base [] ++ rest
queue_bytes (r ∷ rs) rest = encoding r.word r.args ++ queue_bytes rs rest

-- From `multi` to `exec`.
abbrev pub transaction_bytes : List Request → Bytes → Bytes
transaction_bytes rs rest = encoding multi_base [] ++ queue_bytes rs rest

-- A round for each request, and one for `exec`.
abbrev pub queue_rounds : Outside → (ℕ → Bool) → List Request → Rounds
queue_rounds out fails [] = (out, fails) ∷ []
queue_rounds out fails (r ∷ rs) = (out, fails) ∷ queue_rounds out fails rs

abbrev pub queued_answers : ℕ → List Request → Writes
queued_answers i rs = map (λ (r : Request). (i, queued_line)) rs

-- The text that stands for a command in the answer to `exec`.
abbrev pub text_of : Outside → Com → Node → Reply → Run Bytes
text_of out cmd node (reply b) = ok b
text_of out cmd node failed = resp_encoder (text (out.message cmd node)) simple_err
text_of out cmd node (waiting ch) = stuck

-- The commands through `HandleCom`, one behind the other.
abbrev pub in_turn : Outside → ℕ → List Com → Node → Run (List Bytes × Node)
in_turn out i [] node = ok ([], node)
in_turn out i (cmd ∷ cmds) node = do
  (r, node') ← handle_com out i cmd node
  b ← text_of out cmd node r
  (bs, node'') ← in_turn out i cmds node'
  ok (b ∷ bs, node'')

-- The connection `i` is inside a transaction with the queue `q`.
abbrev pub opened : ℕ → List Com → Node → Node
opened i q node = record node {
  db = record node.db {
    txns = record node.db.txns {
      states = λ j.
          if i == j
          then record (node.db.txns.states i) { is_txn = true; queue = q }
          else node.db.txns.states j;
    };
  };
}

same_number : (i : ℕ) → (i == i) ≡ true
same_number i = ground arith

pub opened-states :
    (i : ℕ) (q : List Com) (node : Node)
    → (opened i q node).db.txns.states i
      ≡ record (node.db.txns.states i) { is_txn = true; queue = q }
opened-states i q node = rw (same_number i) refl

pub put_opened :
    (i : ℕ) (q q' : List Com) (node : Node) (s : State)
    → s ≡ record (node.db.txns.states i) { is_txn = true; queue = q' }
    → put_txns
        (record (opened i q node).db.txns {
          states = put_state i s (opened i q node).db.txns.states;
        })
        (opened i q node)
      ≡ opened i q' node
unfolding put_txns
put_opened i q q' node s e =
    ap
      (λ (st : ℕ → State). record node {
        db = record node.db { txns = record node.db.txns { states = st } };
      })
      (fun_ext
        λ j. unfold put_state in elim (Bool-cases (i == j)) [ inl t ↦ rw t e | inr f ↦ rw f refl ])

enqueue-inside :
    (i : ℕ) (c : Com) (w : World)
    → (w.states i).is_txn ≡ true
    → enqueue i c w ≡ record w {
      states =
          put_state i (record (w.states i) { queue = (w.states i).queue ++ (c ∷ []) }) w.states;
    }
unfolding enqueue
enqueue-inside i c w e = rw e refl

pub inside :
    (i : ℕ) (q : List Com) (node : Node) → ((opened i q node).db.txns.states i).is_txn ≡ true
inside i q node = ap (λ (s : State). s.is_txn) (opened-states i q node)

pub enqueue-opened :
    (i : ℕ) (c : Com) (q : List Com) (node : Node)
    → put_txns (enqueue i c (opened i q node).db.txns) (opened i q node)
      ≡ opened i (q ++ (c ∷ [])) node
enqueue-opened i c q node =
    ap (λ w. put_txns w (opened i q node))
      (enqueue-inside i c (opened i q node).db.txns (inside i q node))
    ∙ put_opened i q (q ++ (c ∷ [])) node _
        (ap (λ (s : State). record s { queue = s.queue ++ (c ∷ []) }) (opened-states i q node))

abbrev begin : ℕ → World → World
begin i w = record w { states = put_state i (record (w.states i) { is_txn = true }) w.states }

pub begin-opened :
    (i : ℕ) (node : Node)
    → (node.db.txns.states i).queue ≡ []
    → put_txns (begin i node.db.txns) node ≡ opened i [] node
unfolding put_txns
begin-opened i node e =
    ap
      (λ (st : ℕ → State). record node {
        db = record node.db { txns = record node.db.txns { states = st } };
      })
      (fun_ext λ j.
        unfold put_state in
        elim (Bool-cases (i == j)) [
          | inl t ↦
              rw t (
                ap (λ (q : List Com). record (node.db.txns.states i) { is_txn = true; queue = q })
                  e)
          | inr f ↦ rw f refl
        ])
