-- ===== src/Keyspace/Streams.antt =====
-- The handlers of streams (app/handlers.go) and `WakeAllXREADListeners` (app/utils.go). `xread` is
-- cut at its `select`; a client keeps its keys and ids, which `xread_key` hands back.
use shitty_redis.Base.{
  ℕ, suc, Bool, true, false, List, [], ◌∷◌, ◌++◌, Option, none, some, if◌then◌else◌,
}
use shitty_redis.Base.Go.{Bytes, Run, ok, err, panic, stuck, ◌>>=◌}
use shitty_redis.Resp.Wire.{texts, text, nil, array, bulk, null_bulk_list, bulk_string, crlf}
use shitty_redis.Command.Fields.{◌==s◌}
use shitty_redis.Txns.Ops.{put_watchers, without}
use shitty_redis.Stream.Types
use shitty_redis.Stream.Types.{Stream}
use shitty_redis.Stream.Ids.{format_id, xadd_id}
use shitty_redis.Stream.Ops
use shitty_redis.Stream.Ops.{get_last_id}
use shitty_redis.Keyspace.Store.{
  Structure, var, list, stream, Db, find, keep, Reply, failed, waiting, answer,
}
use shitty_redis.Keyspace.Blocking.{is_waiting}

-- A send into a channel whose buffer has one place; it is skipped when the place is taken.
unfoldable pub nudge : List ℕ → List ℕ → List ℕ
nudge [] nudged = nudged
nudge (ch ∷ chs) nudged = if is_waiting ch nudged then nudge chs nudged else nudge chs (ch ∷ nudged)

unfoldable pub wake_all_xread_listeners : Bytes → Db → Db
wake_all_xread_listeners key db = record db { nudged = nudge (db.xread_waiters key) db.nudged }

-- The handler goes on with what a call returned; an error of the call is the handler's.
unfoldable pub or_failed {ℓ} : {A : Type ℓ} → Run A → Db → (A → Run (Reply × Db)) → Run (Reply × Db)
or_failed (ok a) db next = next a
or_failed err db next = ok (failed, db)
or_failed panic db next = panic
or_failed stuck db next = stuck

-- A missing key gets a new stream; another kind of value is an error.
unfoldable pub with_stream :
    Bytes → Option Structure → Db → (Stream → Db → Run (Reply × Db)) → Run (Reply × Db)
with_stream key none db next = next Types.new (keep key (stream Types.new) db)
with_stream key (some (stream st)) db next = next st db
with_stream key (some (var v)) db next = ok (failed, db)
with_stream key (some (list q)) db next = ok (failed, db)

unfoldable pub xadd_stream : ℕ → Bytes → Bytes → List Bytes → Stream → Db → Run (Reply × Db)
xadd_stream now key id pairs st db = or_failed (xadd_id now id st) db λ made. do
  st' ← Ops.xadd pairs made st
  answer (text made) bulk (wake_all_xread_listeners key (keep key (stream st') db))

unfoldable pub xadd_key : ℕ → Bytes → Bytes → List Bytes → Db → Run (Reply × Db)
xadd_key now key id pairs db = with_stream key (find key db) db (xadd_stream now key id pairs)

unfoldable pub xrange_key : ℕ → Bytes → Bytes → Bytes → Db → Run (Reply × Db)
xrange_key fuel key low high db = with_stream key (find key db) db λ st db'.
    or_failed (Ops.xrange fuel low high st) db' λ entries. answer (texts entries) array db'

-- `$` stands for the last id of the stream, or for 0-0.
unfoldable pub last_or_zero : Option Stream → Bytes
last_or_zero none = b'0' ∷ b'-' ∷ b'0' ∷ []
last_or_zero (some st) = let (ms, seq) = get_last_id st in format_id ms seq

unfoldable pub resolve : Bool → Bytes → Option Stream → Bytes
resolve true id st = if id ==s (b'$' ∷ []) then last_or_zero st else id
resolve false id st = id

-- An error of `XREAD` counts as no entries.
unfoldable pub or_empty : Run Bytes → Run Bytes
or_empty (ok s) = ok s
or_empty err = ok []
or_empty panic = panic
or_empty stuck = stuck

unfoldable pub with_entry : Bytes → Bytes → List Bytes → List Bytes
with_entry key [] res = res
with_entry key (c ∷ entries) res =
    ((b'*' ∷ b'2' ∷ crlf) ++ (bulk_string key ++ (c ∷ entries))) ∷ res

-- The loop over the keys: the answers with the ids, or nothing if a key holds no stream. There are
-- as many ids as keys.
unfoldable pub read_keys :
    ℕ → Bool → List Bytes → List Bytes → Db → Run (Option (List Bytes × List Bytes))
read_keys fuel first [] ids db = ok (some ([], []))
read_keys fuel first (key ∷ keys) [] db = stuck
read_keys fuel first (key ∷ keys) (id ∷ ids) db =
    let rest = read_keys fuel first keys ids db in
    elim (find key db) [
      | none ↦ do
        more ← rest
        ok (elim more [ none ↦ none | some (res, ids') ↦ some (res, resolve first id none ∷ ids') ])
      | some (stream st) ↦ do
        entries ← or_empty (Ops.xread fuel (resolve first id (some st)) st)
        more ← rest
        ok (elim more [
          | none ↦ none
          | some (res, ids') ↦ some (with_entry key entries res, resolve first id (some st) ∷ ids')
        ])
      | some (var v) ↦ ok none
      | some (list q) ↦ ok none
    ]

-- The state of the handler with what `xread` keeps for its loop: the ids.
unfoldable pub keeping : List Bytes → Run (Reply × Db) → Run (Reply × List Bytes × Db)
keeping ids answered = do (r, db) ← answered; ok (r, ids, db)

unfoldable pub add_waiter : ℕ → List Bytes → (Bytes → List ℕ) → Bytes → List ℕ
add_waiter ch [] waiters = waiters
add_waiter ch (key ∷ keys) waiters =
    add_waiter ch keys (put_watchers key (waiters key ++ (ch ∷ [])) waiters)

-- The blocking path. `parsed`: `ParseFloat` accepts the duration.
unfoldable pub start_xread : Bool → List Bytes → Db → Run (Reply × Db)
start_xread false keys db = ok (failed, db)
start_xread true keys db = ok (
  waiting db.channels,
  record db {
    channels = suc db.channels;
    xread_waiters = add_waiter db.channels keys db.xread_waiters;
  },
)

unfoldable pub xread_found : Option Bool → List Bytes → List Bytes → Db → Run (Reply × Db)
xread_found block keys (s ∷ res) db = answer (texts (s ∷ res)) array db
xread_found none keys [] db = answer nil null_bulk_list db
xread_found (some parsed) keys [] db = start_xread parsed keys db

-- `block` is the option of this name, if it is given, with whether its duration parses.
unfoldable pub xread_key :
    ℕ → Option Bool → List Bytes → List Bytes → Db → Run (Reply × List Bytes × Db)
xread_key fuel block keys ids db = do
  found ← read_keys fuel true keys ids db
  elim found [
    | none ↦ ok (failed, ids, db)
    | some (res, ids') ↦ keeping ids' (xread_found block keys res db)
  ]

unfoldable pub find_and_pop_xread : ℕ → Bytes → Db → Db
find_and_pop_xread target key db = record db {
  xread_waiters = put_watchers key (without target (db.xread_waiters key)) db.xread_waiters;
}

unfoldable pub find_and_pop_ch_from_keys : ℕ → List Bytes → Db → Db
find_and_pop_ch_from_keys target [] db = db
find_and_pop_ch_from_keys target (key ∷ keys) db =
    find_and_pop_ch_from_keys target keys (find_and_pop_xread target key db)

unfoldable pub take_nudge : ℕ → Db → Db
take_nudge ch db = record db { nudged = without ch db.nudged }

unfoldable pub nudged_found : List Bytes → ℕ → List Bytes → Db → Run (Reply × Db)
nudged_found keys ch [] db = ok (waiting ch, db)
nudged_found keys ch (s ∷ res) db =
    answer (texts (s ∷ res)) array (find_and_pop_ch_from_keys ch keys db)

-- The case of the channel.
unfoldable pub xread_nudged : ℕ → List Bytes → List Bytes → ℕ → Db → Run (Reply × Db)
xread_nudged fuel keys ids ch db =
    let awake : Run (Reply × Db) = (do
      found ← read_keys fuel false keys ids (take_nudge ch db)
      elim found [
        | none ↦ ok (failed, take_nudge ch db)
        | some (res, ids') ↦ nudged_found keys ch res (take_nudge ch db)
      ]) in
    if is_waiting ch db.nudged then awake else ok (waiting ch, db)

unfoldable pub timeout_found : List Bytes → Db → Run (Reply × Db)
timeout_found [] db = answer nil null_bulk_list db
timeout_found (s ∷ res) db = answer (texts (s ∷ res)) array db

-- The case of the timeout. On a key that holds no stream the lock is unlocked twice, which Go ends
-- like a panic.
unfoldable pub xread_timeout : ℕ → List Bytes → List Bytes → ℕ → Db → Run (Reply × Db)
xread_timeout fuel keys ids ch db =
    let gone = find_and_pop_ch_from_keys ch keys db in
    let awake : Run (Reply × Db) = (do
      found ← read_keys fuel false keys ids (take_nudge ch gone)
      elim found [ none ↦ panic | some (res, ids') ↦ timeout_found res (take_nudge ch gone) ]) in
    if is_waiting ch gone.nudged then awake else answer nil null_bulk_list gone
