-- ===== src/Txns/Touched.antt =====
-- When `exec` aborts, from the commands of all connections.
use shitty_redis.Base.{
  ℕ, ◌≡◌, refl, ap, sym, ◌∙◌, Bool, true, false, ◌||◌, List, [], ◌∷◌, ◌==◌, arith, Bool-cases, inl,
  inr, if◌then◌else◌,
}
use shitty_redis.Base.Go.{Bytes, ok}
use shitty_redis.Txns.Ops.{
  State, World, new_state, new_world, put_state, mark_dirty, set_watching_txns_dirty,
  handle_txn_end, multi, exec_start, discard, watch_key, watch_keys, watch, unwatch, enqueue, Event,
  set_key, on_watch, on_unwatch, on_multi, on_discard, on_queue, finish, or_same, apply, run,
}
use shitty_redis.Txns.Watching.{
  has, has_key, Registered, apply-Registered, new_world-Registered, put_state-cases, put_state_same,
}
use shitty_redis.Txns.Enlisted.{Enlisted, apply-Enlisted, new_world-Enlisted}

-- Whether a key that `i` watches has been set, given whether it was before the command: what `i`
-- watches is forgotten by its `unwatch`, its `exec`, and its `discard` inside a transaction.
abbrev pub touched_by : ℕ → Event → World → Bool → Bool
touched_by i (set_key key) w t = t || has_key key (w.states i).watched
touched_by i (on_unwatch j) w t = if j == i then false else t
touched_by i (finish j) w t = if j == i then false else t
touched_by i (on_discard j) w t = if (w.states j).is_txn then if j == i then false else t else t
touched_by i (on_watch j keys) w t = t
touched_by i (on_multi j) w t = t
touched_by i (on_queue j c) w t = t

abbrev pub touched : ℕ → List Event → World → Bool → Bool
touched i [] w t = t
touched i (e ∷ es) w t = touched i es (apply e w) (touched_by i e w t)

dirty-mark_dirty :
    (ts : List ℕ) (states : ℕ → State) (i : ℕ)
    → (mark_dirty ts states i).dirty ≡ ((states i).dirty || has i ts)
unfolding mark_dirty
dirty-mark_dirty [] states i = ground arith
dirty-mark_dirty (t ∷ ts) states i =
    let s : State = record (states t) { dirty = true } in
    elim (put_state-cases t s states i) [
      | inl (e, p) ↦
          let now : (put_state t s states i).dirty ≡ true = ap (λ (s : State). s.dirty) p in
          dirty-mark_dirty ts (put_state t s states) i ∙ ground arith
      | inr (e, p) ↦
          dirty-mark_dirty ts (put_state t s states) i
          ∙ ap (λ (s : State). s.dirty || has i ts) p
          ∙ rw e refl
    ]

same_bools : (a b : Bool) → (a ≡ true → b ≡ true) → (b ≡ true → a ≡ true) → a ≡ b
same_bools true b f g = sym (f refl)
same_bools false true f g = g refl
same_bools false false f g = refl

module _ (i : ℕ) where
  dirty-put_state :
      (j : ℕ) (s : State) (states : ℕ → State)
      → s.dirty ≡ false
      → (put_state j s states i).dirty ≡ (if j == i then false else (states i).dirty)
  dirty-put_state j s states c = elim (put_state-cases j s states i) [
    | inl (e, p) ↦
        let same : (j == i) ≡ true = ground arith in
        ap (λ (s : State). s.dirty) p ∙ c ∙ rw same refl
    | inr (e, p) ↦ ap (λ (s : State). s.dirty) p ∙ rw e refl
  ]

  dirty-watch_keys :
      (j : ℕ) (keys : List Bytes) (w : World)
      → ((watch_keys j keys w).states i).dirty ≡ (w.states i).dirty
  unfolding watch_keys watch_key
  dirty-watch_keys j [] w = refl
  dirty-watch_keys j (key ∷ keys) w =
      dirty-watch_keys j keys (watch_key j key w)
      ∙ put_state_same (λ s. s.dirty) j _ w.states i refl

  dirty-apply :
      (e : Event) (w : World)
      → Registered w
      → Enlisted w
      → ((apply e w).states i).dirty ≡ touched_by i e w (w.states i).dirty
  unfolding apply or_same multi discard watch unwatch enqueue handle_txn_end new_state
      set_watching_txns_dirty
  dirty-apply (set_key key) w r l =
      dirty-mark_dirty (w.watchers key) w.states i
      ∙ ap (λ b. (w.states i).dirty || b)
          (same_bools (has i (w.watchers key)) (has_key key (w.states i).watched) (l i key)
            (r i key))
  dirty-apply (on_watch j keys) w r l = elim (Bool-cases (w.states j).is_txn) [
    | inl e ↦ rw e refl
    | inr e ↦ rw e (dirty-watch_keys j keys w)
  ]
  dirty-apply (on_unwatch j) w r l = dirty-put_state j _ w.states refl
  dirty-apply (on_multi j) w r l = elim (Bool-cases (w.states j).is_txn) [
    | inl e ↦ rw e refl
    | inr e ↦ rw e (put_state_same (λ s. s.dirty) j _ w.states i refl)
  ]
  dirty-apply (on_discard j) w r l = elim (Bool-cases (w.states j).is_txn) [
    | inl e ↦ rw e (dirty-put_state j _ w.states refl)
    | inr e ↦ rw e refl
  ]
  dirty-apply (on_queue j c) w r l = elim (Bool-cases (w.states j).is_txn) [
    | inl e ↦ rw e (put_state_same (λ s. s.dirty) j _ w.states i refl)
    | inr e ↦ rw e refl
  ]
  dirty-apply (finish j) w r l = dirty-put_state j _ w.states refl

  dirty-run :
      (es : List Event) (w : World)
      → Registered w
      → Enlisted w
      → ((run es w).states i).dirty ≡ touched i es w (w.states i).dirty
  unfolding run
  dirty-run [] w r l = refl
  dirty-run (e ∷ es) w r l =
      dirty-run es (apply e w) (apply-Registered e w r) (apply-Enlisted e w l)
      ∙ ap (touched i es (apply e w)) (dirty-apply e w r l)

-- After any interleaving of commands that leaves connection `i` inside a transaction, `exec` of
-- `i` aborts exactly when some key was set by any connection while `i` watched it, with no
-- `unwatch`, `exec`, or `discard` of a transaction of `i` since; otherwise it goes on in the same
-- state.
pub exec_start-touched :
    (i : ℕ) (es : List Event)
    → ((run es new_world).states i).is_txn ≡ true
    → exec_start i (run es new_world) ≡ (
        if touched i es new_world false
        then ok (false, handle_txn_end i (run es new_world))
        else ok (true, run es new_world))
unfolding new_world new_state
exec_start-touched i es inside =
    let dirty : ((run es new_world).states i).dirty ≡ touched i es new_world false =
      dirty-run i es new_world new_world-Registered new_world-Enlisted in
    unfold exec_start in rw (inside, dirty) refl
