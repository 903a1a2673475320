-- ===== src/Main/Ending.antt =====
-- The end of a transaction (`HandleTxnEnd` of app/txns.go) on the whole state.
use shitty_redis.Base.{ℕ, ◌≡◌, refl, true, false, ◌==◌, [], Bool, inl, inr, arith}
use shitty_redis.Base.Go.{Bytes}
use shitty_redis.Txns.Ops.{State, new_state, cleanup_watcher, handle_txn_end}
use shitty_redis.Txns.Watching.{has, has_key, put_state-cases, has-cleanup_watcher}
use shitty_redis.Txns.Enlisted.{cleanup_watcher-has, cleanup_watcher-watched}
use shitty_redis.Main.Dispatch.{Node, put_txns, end_txn}

abbrev pub fresh_state : State
fresh_state = record { is_txn = false; queue = []; watched = []; dirty = false }

-- Connection `i` is as at its start and in no row of a key that it watched; nothing else changes.
pub record Ended (i : ℕ) (node node' : Node) : Type 0 where
  pub same_server : node'.server ≡ node.server
  pub same_db : record node'.db { txns = node.db.txns } ≡ node.db
  pub own : node'.db.txns.states i ≡ fresh_state
  pub others : (j : ℕ) → (i == j) ≡ false → node'.db.txns.states j ≡ node.db.txns.states j
  pub gone :
      (key : Bytes)
      → has_key key (node.db.txns.states i).watched ≡ true
      → has i (node'.db.txns.watchers key) ≡ false
  pub left :
      (j : ℕ) (key : Bytes)
      → (i == j) ≡ false
      → has j (node'.db.txns.watchers key) ≡ has j (node.db.txns.watchers key)

same_answers : (a b : Bool) → (a ≡ true → b ≡ true) → (b ≡ true → a ≡ true) → a ≡ b
same_answers true true f g = refl
same_answers true false f g = let e : false ≡ true = f refl in ground arith
same_answers false true f g = g refl
same_answers false false f g = refl

pub end_txn-Ended : (i : ℕ) (node : Node) → Ended i node (end_txn i node)
unfolding end_txn put_txns handle_txn_end new_state
end_txn-Ended i node =
    let w = node.db.txns in
    record {
      same_server = refl;
      same_db = refl;
      own = elim (put_state-cases i fresh_state w.states i) [
        | inl (e, p) ↦ p
        | inr (e, p) ↦ absurd (ground arith)
      ];
      others = λ j n. elim (put_state-cases i fresh_state w.states j) [
        | inl (e, p) ↦ absurd (ground arith)
        | inr (e, p) ↦ p
      ];
      gone = λ key h. cleanup_watcher-watched i (w.states i).watched w.watchers key h;
      left = λ j key n.
          same_answers (has j (cleanup_watcher i (w.states i).watched w.watchers key))
            (has j (w.watchers key)) (cleanup_watcher-has i j (w.states i).watched w.watchers key)
            (has-cleanup_watcher i j (w.states i).watched w.watchers key n);
    }
