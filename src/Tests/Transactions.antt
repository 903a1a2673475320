-- ===== src/Tests/Transactions.antt =====
-- Two connections and one key: the second sets what the first watches.
use shitty_redis.Base.{◌≡◌, refl, true, false, List, [], ◌∷◌, if◌then◌else◌}
use shitty_redis.Base.Go.{Bytes, ok}
use shitty_redis.Command.Fields.{◌==s◌}
use shitty_redis.Txns.Ops.{
  new_state, new_world, put_state, mark_dirty, set_watching_txns_dirty, handle_txn_end, multi,
  exec_start, watch, watch_keys, watch_key, put_watchers, Event, set_key, on_watch, on_multi,
  or_same, apply, run,
}
use shitty_redis.Txns.Watching.{Registered, run-Registered}
use shitty_redis.Txns.Touched.{touched, exec_start-touched}

abbrev key : Bytes
key = b'k' ∷ []

abbrev before : List Event
before = on_watch 1 (key ∷ []) ∷ []

run-Registered_example : Registered (run before new_world)
run-Registered_example = run-Registered before

-- A key is set before `multi`, and another, not watched, behind it.
abbrev mixed : List Event
mixed = on_watch 1 (key ∷ []) ∷ set_key key ∷ on_multi 1 ∷ set_key [] ∷ []

mixed_inside : ((run mixed new_world).states 1).is_txn ≡ true
unfolding run apply or_same watch watch_keys watch_key put_state new_world new_state ◌==s◌ multi
    set_watching_txns_dirty mark_dirty put_watchers
mixed_inside = refl

exec_start-touched_example : exec_start 1 (run mixed new_world) ≡ (
    if touched 1 mixed new_world false
    then ok (false, handle_txn_end 1 (run mixed new_world))
    else ok (true, run mixed new_world))
exec_start-touched_example = exec_start-touched 1 mixed mixed_inside
