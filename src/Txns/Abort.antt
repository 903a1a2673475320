-- ===== src/Txns/Abort.antt =====
-- `exec` after another connection has set a watched key.
use shitty_redis.Base.{
  ℕ, ◌≡◌, refl, ap, ◌∙◌, true, false, List, [], ◌∷◌, ◌==◌, arith, Bool-cases, inl, inr, All,
}
use shitty_redis.Base.Go.{Bytes, ok}
use shitty_redis.Txns.Ops.{
  State, World, new_world, put_state, set_watching_txns_dirty, handle_txn_end, multi, exec_start,
  discard, watch_key, watch_keys, watch, unwatch, enqueue, Event, set_key, on_watch, on_unwatch,
  on_multi, on_discard, on_queue, finish, or_same, apply, run,
}
use shitty_redis.Txns.Watching.{
  has_key, put_state-cases, put_state_same, mark_dirty-dirty, mark_dirty-has, run-Registered,
}

-- The command does not end the transaction of connection `i`, nor drop what it watches.
abbrev pub Spares : ℕ → Event → Type 0
Spares i (on_unwatch j) = (j == i) ≡ false
Spares i (on_discard j) = (j == i) ≡ false
Spares i (finish j) = (j == i) ≡ false
Spares i e = Unit

abbrev Dirty : ℕ → World → Type 0
Dirty i w = (w.states i).dirty ≡ true

module _ (i : ℕ) where
  same-Dirty :
      (j : ℕ) (s : State) (states : ℕ → State)
      → s.dirty ≡ (states j).dirty
      → (states i).dirty ≡ true
      → (put_state j s states i).dirty ≡ true
  same-Dirty j s states e h = put_state_same (λ s. s.dirty) j s states i e ∙ h

  other-Dirty :
      (j : ℕ) (s : State) (states : ℕ → State)
      → (j == i) ≡ false
      → (states i).dirty ≡ true
      → (put_state j s states i).dirty ≡ true
  other-Dirty j s states n h = elim (put_state-cases j s states i) [
    | inl (e, p) ↦ absurd (ground arith)
    | inr (e, p) ↦ ap (λ (s : State). s.dirty) p ∙ h
  ]

  watch_keys-Dirty :
      (j : ℕ) (keys : List Bytes) (w : World) → Dirty i w → Dirty i (watch_keys j keys w)
  unfolding watch_keys watch_key
  watch_keys-Dirty j [] w h = h
  watch_keys-Dirty j (key ∷ keys) w h =
      watch_keys-Dirty j keys (watch_key j key w) (same-Dirty j _ w.states refl h)

  apply-Dirty : (e : Event) (w : World) → Spares i e → Dirty i w → Dirty i (apply e w)
  unfolding apply or_same multi discard watch unwatch enqueue handle_txn_end set_watching_txns_dirty
  apply-Dirty (set_key key) w n h = mark_dirty-dirty (w.watchers key) w.states i h
  apply-Dirty (on_watch j keys) w n h = elim (Bool-cases (w.states j).is_txn) [
    | inl e ↦ rw e h
    | inr e ↦ rw e (watch_keys-Dirty j keys w h)
  ]
  apply-Dirty (on_unwatch j) w n h = other-Dirty j _ w.states n h
  apply-Dirty (on_multi j) w n h = elim (Bool-cases (w.states j).is_txn) [
    | inl e ↦ rw e h
    | inr e ↦ rw e (same-Dirty j _ w.states refl h)
  ]
  apply-Dirty (on_discard j) w n h = elim (Bool-cases (w.states j).is_txn) [
    | inl e ↦ rw e (other-Dirty j _ w.states n h)
    | inr e ↦ rw e h
  ]
  apply-Dirty (on_queue j c) w n h = elim (Bool-cases (w.states j).is_txn) [
    | inl e ↦ rw e (same-Dirty j _ w.states refl h)
    | inr e ↦ rw e h
  ]
  apply-Dirty (finish j) w n h = other-Dirty j _ w.states n h

  run-Dirty : (es : List Event) (w : World) → All (Spares i) es → Dirty i w → Dirty i (run es w)
  unfolding run
  run-Dirty [] w ns h = h
  run-Dirty (e ∷ es) w (n, ns) h = run-Dirty es (apply e w) ns (apply-Dirty e w n h)

-- The world after `before`, a `set` of `key` by any connection, and `after`.
abbrev pub set_between : List Event → Bytes → List Event → World
set_between before key after = run after (apply (set_key key) (run before new_world))

-- When connection `i` watches `key` after some commands, `key` is then set by any connection, and
-- more commands of any connections follow that neither end the transaction of `i` nor drop what
-- it watches, then `exec` of `i`, if it is inside a transaction, aborts: it runs nothing and ends
-- the transaction.
pub exec_start_aborts :
    (i : ℕ) (key : Bytes) (before after : List Event)
    → has_key key ((run before new_world).states i).watched ≡ true
    → All (Spares i) after
    → ((set_between before key after).states i).is_txn ≡ true
    → exec_start i (set_between before key after)
      ≡ ok (false, handle_txn_end i (set_between before key after))
unfolding exec_start
exec_start_aborts i key before after watches spares inside =
    rw (inside, run-Dirty i after (apply (set_key key) (run before new_world)) spares dirty) refl
  where
    dirty : Dirty i (apply (set_key key) (run before new_world))
    dirty =
        unfold apply set_watching_txns_dirty in
        mark_dirty-has _ _ i (run-Registered before i key watches)
