-- ===== src/Txns/Enlisted.antt =====
-- The map of watchers (app/txns.go) holds no transaction for a key that it does not watch.
use shitty_redis.Base.{
  ℕ, ◌≡◌, refl, ap, sym, ◌∙◌, Bool, true, false, ◌||◌, List, [], ◌∷◌, ◌++◌, ◌==◌, arith, Bool-cases,
  inl, inr, ◌⊎◌,
}
use shitty_redis.Base.Go.{Bytes}
use shitty_redis.Command.Fields.{◌==s◌}
use shitty_redis.Txns.Ops.{
  State, World, new_world, put_state, put_watchers, set_watching_txns_dirty, without,
  cleanup_watcher, handle_txn_end, multi, discard, watch_key, watch_keys, watch, unwatch, enqueue,
  Event, set_key, on_watch, on_unwatch, on_multi, on_discard, on_queue, finish, or_same, apply,
}
use shitty_redis.Txns.Watching.{
  has, has_key, same_key, put_state-cases, put_state_same, mark_dirty-watched,
}

abbrev pub Enlisted : World → Type 0
Enlisted w =
    (i : ℕ) (key : Bytes) → has i (w.watchers key) ≡ true → has_key key (w.states i).watched ≡ true

or_right : (a b : Bool) → b ≡ true → (a || b) ≡ true
or_right a b h = ground arith

or_keeps : (a b c : Bool) → (b ≡ true → c ≡ true) → (a || b) ≡ true → (a || c) ≡ true
or_keeps true b c f h = refl
or_keeps false b c f h = f h

without-has : (t j : ℕ) (ts : List ℕ) → has j (without t ts) ≡ true → has j ts ≡ true
unfolding without
without-has t j [] h = h
without-has t j (x ∷ ts) h = elim (Bool-cases (x == t)) [
  | inl e ↦ or_right (x == j) (has j ts) (without-has t j ts (rw e at h))
  | inr e ↦ or_keeps (x == j) _ (has j ts) (without-has t j ts) (rw e at h)
]

without_none : (t : ℕ) (ts : List ℕ) → has t (without t ts) ≡ false
unfolding without
without_none t [] = refl
without_none t (x ∷ ts) = elim (Bool-cases (x == t)) [
  | inl e ↦ rw e (without_none t ts)
  | inr e ↦ rw e (rw (e, without_none t ts) refl)
]

-- What `cleanup_watcher` leaves in a row was there before.
pub cleanup_watcher-has :
    (t j : ℕ) (ks : List Bytes) (ws : Bytes → List ℕ) (key : Bytes)
    → has j (cleanup_watcher t ks ws key) ≡ true
    → has j (ws key) ≡ true
unfolding cleanup_watcher put_watchers
cleanup_watcher-has t j [] ws key h = h
cleanup_watcher-has t j (k ∷ ks) ws key h =
    let before : has j (put_watchers k (without t (ws k)) ws key) ≡ true =
      cleanup_watcher-has t j ks _ key h in
    elim (Bool-cases (k ==s key)) [
      | inl e ↦
          ap (λ x. has j (ws x)) (sym (same_key k key e)) ∙ without-has t j (ws k) (rw e at before)
      | inr e ↦ rw e at before
    ]

-- A row without `t` stays so.
cleanup_watcher-none :
    (t : ℕ) (ks : List Bytes) (ws : Bytes → List ℕ) (key : Bytes)
    → has t (ws key) ≡ false
    → has t (cleanup_watcher t ks ws key) ≡ false
cleanup_watcher-none t ks ws key h = elim (Bool-cases (has t (cleanup_watcher t ks ws key))) [
  | inl e ↦
      let there : has t (ws key) ≡ true = cleanup_watcher-has t t ks ws key e in
      absurd (ground arith)
  | inr e ↦ e
]

pub cleanup_watcher-watched :
    (t : ℕ) (ks : List Bytes) (ws : Bytes → List ℕ) (key : Bytes)
    → has_key key ks ≡ true
    → has t (cleanup_watcher t ks ws key) ≡ false
unfolding cleanup_watcher
cleanup_watcher-watched t [] ws key h = absurd (ground arith)
cleanup_watcher-watched t (k ∷ ks) ws key h = elim (Bool-cases (k ==s key)) [
  | inl e ↦ cleanup_watcher-none t ks _ key (unfold put_watchers in rw e (without_none t (ws k)))
  | inr e ↦ cleanup_watcher-watched t ks _ key (rw e at h)
]

-- Each operation keeps the rows to those that watch.
module _ (w : World) (r : Enlisted w) where
  replaced :
      (i : ℕ) (s : State)
      → s.watched ≡ (w.states i).watched
      → Enlisted (record w { states = put_state i s w.states })
  replaced i s e j key h =
      ap (has_key key) (put_state_same (λ s. s.watched) i s w.states j e) ∙ r j key h

  cleared :
      (i : ℕ) (s : State)
      → Enlisted (record {
        states = put_state i s w.states;
        watchers = cleanup_watcher i (w.states i).watched w.watchers;
      })
  cleared i s j key h =
      let watches : has_key key (w.states j).watched ≡ true =
        r j key (cleanup_watcher-has i j (w.states i).watched w.watchers key h) in
      elim (put_state-cases i s w.states j) [
        | inl (same, p) ↦
            let gone : has i (cleanup_watcher i (w.states i).watched w.watchers key) ≡ false =
              cleanup_watcher-watched i (w.states i).watched w.watchers key
                (ap (λ n. has_key key (w.states n).watched) same ∙ watches) in
            let there : has i (cleanup_watcher i (w.states i).watched w.watchers key) ≡ true =
              ap (λ n. has n (cleanup_watcher i (w.states i).watched w.watchers key)) same ∙ h in
            absurd (ground arith)
        | inr (other, p) ↦ ap (λ (s : State). has_key key s.watched) p ∙ watches
      ]

  marked : (key : Bytes) → Enlisted (set_watching_txns_dirty key w)
  unfolding set_watching_txns_dirty
  marked key i k h = ap (has_key k) (mark_dirty-watched (w.watchers key) w.states i) ∙ r i k h

has-last :
    (i t : ℕ) (ts : List ℕ) → has i (ts ++ (t ∷ [])) ≡ true → (has i ts ≡ true) ⊎ ((t == i) ≡ true)
has-last i t [] h = inr (ground arith)
has-last i t (x ∷ ts) h = elim (Bool-cases (x == i)) [
  | inl e ↦ inl (rw e refl)
  | inr e ↦ rw e (has-last i t ts (ground arith))
]

has_key-more :
    (key k : Bytes) (ks : List Bytes) → has_key key ks ≡ true → has_key key (ks ++ (k ∷ [])) ≡ true
has_key-more key k [] h = absurd (ground arith)
has_key-more key k (x ∷ ks) h = elim (Bool-cases (x ==s key)) [
  | inl e ↦ rw e refl
  | inr e ↦ rw e (has_key-more key k ks (ground arith))
]

has_key-last :
    (key k : Bytes) (ks : List Bytes) → (k ==s key) ≡ true → has_key key (ks ++ (k ∷ [])) ≡ true
has_key-last key k [] e = rw e refl
has_key-last key k (x ∷ ks) e = or_right (x ==s key) _ (has_key-last key k ks e)

module _ (i : ℕ) (key : Bytes) (w : World) (r : Enlisted w) where
  abbrev seen : State
  seen = record (w.states i) { watched = (w.states i).watched ++ (key ∷ []) }

  -- What was watched is watched still.
  still :
      (j : ℕ) (k : Bytes)
      → has_key k (w.states j).watched ≡ true
      → has_key k (put_state i seen w.states j).watched ≡ true
  still j k h = elim (put_state-cases i seen w.states j) [
    | inl (same, p) ↦
        ap (λ (s : State). has_key k s.watched) p
        ∙ has_key-more k key (w.states i).watched
            (ap (λ n. has_key k (w.states n).watched) same ∙ h)
    | inr (other, p) ↦ ap (λ (s : State). has_key k s.watched) p ∙ h
  ]

  watch_key-Enlisted : Enlisted (watch_key i key w)
  unfolding watch_key put_watchers
  watch_key-Enlisted j k h = elim (Bool-cases (key ==s k)) [
    | inr e ↦ still j k (r j k (rw e at h))
    | inl e ↦ elim (has-last j i (w.watchers key) (rw e at h)) [
      | inl old ↦ still j k (r j k (ap (λ x. has j (w.watchers x)) (sym (same_key key k e)) ∙ old))
      | inr own ↦
          let same : i ≡ j = ground arith in
          ap (λ n. has_key k (put_state i seen w.states n).watched) (sym same) ∙ mine k e
    ]
  ]
    where
      mine :
          (k : Bytes) → (key ==s k) ≡ true → has_key k (put_state i seen w.states i).watched ≡ true
      mine k e = elim (put_state-cases i seen w.states i) [
        | inl (same, p) ↦
            ap (λ (s : State). has_key k s.watched) p ∙ has_key-last k key (w.states i).watched e
        | inr (other, p) ↦ absurd (ground arith)
      ]

watch_keys-Enlisted :
    (i : ℕ) (keys : List Bytes) (w : World) → Enlisted w → Enlisted (watch_keys i keys w)
unfolding watch_keys
watch_keys-Enlisted i [] w r = r
watch_keys-Enlisted i (key ∷ keys) w r =
    watch_keys-Enlisted i keys (watch_key i key w) (watch_key-Enlisted i key w r)

pub apply-Enlisted : (e : Event) (w : World) → Enlisted w → Enlisted (apply e w)
unfolding apply or_same multi discard watch unwatch enqueue handle_txn_end
apply-Enlisted (set_key key) w r = marked w r key
apply-Enlisted (on_watch i keys) w r = elim (Bool-cases (w.states i).is_txn) [
  | inl e ↦ rw e r
  | inr e ↦ rw e (watch_keys-Enlisted i keys w r)
]
apply-Enlisted (on_unwatch i) w r = cleared w r i _
apply-Enlisted (on_multi i) w r = elim (Bool-cases (w.states i).is_txn) [
  | inl e ↦ rw e r
  | inr e ↦ rw e (replaced w r i _ refl)
]
apply-Enlisted (on_discard i) w r = elim (Bool-cases (w.states i).is_txn) [
  | inl e ↦ rw e (cleared w r i _)
  | inr e ↦ rw e r
]
apply-Enlisted (on_queue i c) w r = elim (Bool-cases (w.states i).is_txn) [
  | inl e ↦ rw e (replaced w r i _ refl)
  | inr e ↦ rw e r
]
apply-Enlisted (finish i) w r = cleared w r i _

pub new_world-Enlisted : Enlisted new_world
unfolding new_world
new_world-Enlisted i key h = absurd (ground arith)
