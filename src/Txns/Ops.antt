-- ===== src/Txns/Ops.antt =====
-- The state of the transactions and what changes it: app/txns.go, the handlers of app/handlers.go,
-- and the queueing of app/main.go. A connection is a number; its `*Txn`, which `NewState` makes once,
-- is known by that number, so that `watchers` holds numbers.
use shitty_redis.Base.{ℕ, Bool, true, false, List, [], ◌∷◌, ◌++◌, ◌==◌, if◌then◌else◌}
use shitty_redis.Base.Go.{Bytes, Run, ok, err, panic, stuck}
use shitty_redis.Command.Fields.{Com, ◌==s◌}

-- `State` with its `Txn`.
pub record State : Type 0 where
  pub is_txn : Bool
  pub queue : List Com
  pub watched : List Bytes
  pub dirty : Bool

unfoldable pub new_state : State
new_state = record { is_txn = false; queue = []; watched = []; dirty = false }

-- The connections' states, and the map `watchers`, in which a missing key has no transactions.
pub record World : Type 0 where
  pub states : ℕ → State
  pub watchers : Bytes → List ℕ

unfoldable pub new_world : World
new_world = record { states = λ i. new_state; watchers = λ key. [] }

unfoldable pub put_state : ℕ → State → (ℕ → State) → ℕ → State
put_state i s states j = if i == j then s else states j

unfoldable pub put_watchers : Bytes → List ℕ → (Bytes → List ℕ) → Bytes → List ℕ
put_watchers key txns watchers k = if key ==s k then txns else watchers k

-- The loop of `SetWatchingTxnsDirty`.
unfoldable pub mark_dirty : List ℕ → (ℕ → State) → ℕ → State
mark_dirty [] states = states
mark_dirty (t ∷ ts) states = mark_dirty ts (put_state t (record (states t) { dirty = true }) states)

unfoldable pub set_watching_txns_dirty : Bytes → World → World
set_watching_txns_dirty key w = record w { states = mark_dirty (w.watchers key) w.states }

-- `clone` in `CleanupWatcher`.
unfoldable pub without : ℕ → List ℕ → List ℕ
without t [] = []
without t (txn ∷ txns) = let rest = without t txns in if txn == t then rest else txn ∷ rest

unfoldable pub cleanup_watcher : ℕ → List Bytes → (Bytes → List ℕ) → Bytes → List ℕ
cleanup_watcher t [] watchers = watchers
cleanup_watcher t (k ∷ ks) watchers =
    cleanup_watcher t ks (put_watchers k (without t (watchers k)) watchers)

unfoldable pub handle_txn_end : ℕ → World → World
handle_txn_end i w = record {
  states = put_state i new_state w.states;
  watchers = cleanup_watcher i (w.states i).watched w.watchers;
}

unfoldable pub multi : ℕ → World → Run World
multi i w =
    if (w.states i).is_txn
    then err
    else ok (record w { states = put_state i (record (w.states i) { is_txn = true }) w.states })

-- The start of `exec`: whether the queue runs, and the world after an abort.
unfoldable pub exec_start : ℕ → World → Run (Bool × World)
exec_start i w =
    if (w.states i).is_txn
    then if (w.states i).dirty then ok (false, handle_txn_end i w) else ok (true, w)
    else err

unfoldable pub discard : ℕ → World → Run World
discard i w = if (w.states i).is_txn then ok (handle_txn_end i w) else err

unfoldable pub watch_key : ℕ → Bytes → World → World
watch_key i key w = record {
  states =
      put_state i (record (w.states i) { watched = (w.states i).watched ++ (key ∷ []) }) w.states;
  watchers = put_watchers key (w.watchers key ++ (i ∷ [])) w.watchers;
}

unfoldable pub watch_keys : ℕ → List Bytes → World → World
watch_keys i [] w = w
watch_keys i (key ∷ keys) w = watch_keys i keys (watch_key i key w)

unfoldable pub watch : ℕ → List Bytes → World → Run World
watch i keys w = if (w.states i).is_txn then err else ok (watch_keys i keys w)

unfoldable pub unwatch : ℕ → World → World
unwatch i w = record {
  states = put_state i (record (w.states i) { watched = []; dirty = false }) w.states;
  watchers = cleanup_watcher i (w.states i).watched w.watchers;
}

-- `HandleClientConn` on a command inside a transaction.
unfoldable pub enqueue : ℕ → Com → World → World
enqueue i c w =
    if (w.states i).is_txn
    then record w {
      states =
          put_state i (record (w.states i) { queue = (w.states i).queue ++ (c ∷ []) }) w.states;
    }
    else w

-- What a connection can do to the transactions: `set` marks the watchers of its key; `finish` is
-- the end of an `exec`.
pub data Event : Type 0 where
  set_key : Bytes → Event
  on_watch : ℕ → List Bytes → Event
  on_unwatch : ℕ → Event
  on_multi : ℕ → Event
  on_discard : ℕ → Event
  on_queue : ℕ → Com → Event
  finish : ℕ → Event

-- A refused command leaves the state as it was.
unfoldable pub or_same : World → Run World → World
or_same w (ok w') = w'
or_same w err = w
or_same w panic = w
or_same w stuck = w

unfoldable pub apply : Event → World → World
apply (set_key key) w = set_watching_txns_dirty key w
apply (on_watch i keys) w = or_same w (watch i keys w)
apply (on_unwatch i) w = unwatch i w
apply (on_multi i) w = or_same w (multi i w)
apply (on_discard i) w = or_same w (discard i w)
apply (on_queue i c) w = enqueue i c w
apply (finish i) w = handle_txn_end i w

-- Any interleaving of the connections' commands.
unfoldable pub run : List Event → World → World
run [] w = w
run (e ∷ es) w = run es (apply e w)
