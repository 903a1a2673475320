-- ===== src/Txns/Watching.antt =====
-- Watched keys and the map of watchers (app/txns.go) under any commands.
use shitty_redis.Base.{
  ℕ, ◌≡◌, refl, ap, sym, ◌∙◌, Bool, true, false, ◌||◌, List, [], ◌∷◌, ◌++◌, ◌==◌, arith, Bool-cases,
  inl, inr, ◌⊎◌,
}
use shitty_redis.Base.Go.{Bytes}
use shitty_redis.Command.Fields.{◌==s◌}
use shitty_redis.Txns.Ops.{
  State, new_state, World, new_world, put_state, put_watchers, mark_dirty, set_watching_txns_dirty,
  without, cleanup_watcher, handle_txn_end, multi, discard, watch_key, watch_keys, watch, unwatch,
  enqueue, Event, set_key, on_watch, on_unwatch, on_multi, on_discard, on_queue, finish, or_same,
  apply, run,
}

abbrev pub has : ℕ → List ℕ → Bool
has i [] = false
has i (t ∷ ts) = t == i || has i ts

abbrev pub has_key : Bytes → List Bytes → Bool
has_key key [] = false
has_key key (k ∷ ks) = k ==s key || has_key key ks

pub same_key : (xs ys : Bytes) → (xs ==s ys) ≡ true → xs ≡ ys
unfolding ◌==s◌
same_key [] [] h = refl
same_key [] (y ∷ ys) h = absurd (ground arith)
same_key (x ∷ xs) [] h = absurd (ground arith)
same_key (x ∷ xs) (y ∷ ys) h =
    let e : x ≡ y = ground arith in
    let es : xs ≡ ys = same_key xs ys (ground arith) in rw (e, es) refl

-- Every watched key has its watcher in the map.
abbrev pub Registered : World → Type 0
Registered w =
    (i : ℕ) (key : Bytes) → has_key key (w.states i).watched ≡ true → has i (w.watchers key) ≡ true

has-without :
    (t j : ℕ) (ts : List ℕ) → (t == j) ≡ false → has j ts ≡ true → has j (without t ts) ≡ true
unfolding without
has-without t j [] n h = h
has-without t j (x ∷ ts) n h = elim (Bool-cases (x == t)) [
  | inl e ↦ rw e (has-without t j ts n (ground arith))
  | inr e ↦ rw e (elim (Bool-cases (x == j)) [
    | inl f ↦ rw f refl
    | inr f ↦ rw f (has-without t j ts n (ground arith))
  ])
]

has-put_watchers :
    (key k : Bytes) (ts : List ℕ) (ws : Bytes → List ℕ) (j : ℕ)
    → (has j (ws key) ≡ true → has j ts ≡ true)
    → has j (ws k) ≡ true
    → has j (put_watchers key ts ws k) ≡ true
unfolding put_watchers
has-put_watchers key k ts ws j keeps h = elim (Bool-cases (key ==s k)) [
  | inl e ↦ rw e (keeps (ap (λ x. has j (ws x)) (same_key key k e) ∙ h))
  | inr e ↦ rw e h
]

pub has-cleanup_watcher :
    (t j : ℕ) (ks : List Bytes) (ws : Bytes → List ℕ) (key : Bytes)
    → (t == j) ≡ false
    → has j (ws key) ≡ true
    → has j (cleanup_watcher t ks ws key) ≡ true
unfolding cleanup_watcher
has-cleanup_watcher t j [] ws key n h = h
has-cleanup_watcher t j (k ∷ ks) ws key n h =
    has-cleanup_watcher t j ks _ key n
      (has-put_watchers k key (without t (ws k)) ws j (has-without t j (ws k) n) h)

pub put_state-cases :
    (i : ℕ) (s : State) (states : ℕ → State) (j : ℕ)
    → ((i ≡ j) × (put_state i s states j ≡ s))
      ⊎ (((i == j) ≡ false) × (put_state i s states j ≡ states j))
unfolding put_state
put_state-cases i s states j = elim (Bool-cases (i == j)) [
  | inl e ↦ inl (ground arith, rw e refl)
  | inr e ↦ inr (e, rw e refl)
]

-- A field that the new state shares with the old one.
pub put_state_same :
    {A : Type 0} (f : State → A) (i : ℕ) (s : State) (states : ℕ → State) (j : ℕ)
    → f s ≡ f (states i)
    → f (put_state i s states j) ≡ f (states j)
put_state_same f i s states j h = elim (put_state-cases i s states j) [
  | inl (e, p) ↦ ap f p ∙ h ∙ ap (λ k. f (states k)) e
  | inr (e, p) ↦ ap f p
]

pub mark_dirty-watched :
    (ts : List ℕ) (states : ℕ → State) (i : ℕ)
    → (mark_dirty ts states i).watched ≡ (states i).watched
unfolding mark_dirty
mark_dirty-watched [] states i = refl
mark_dirty-watched (t ∷ ts) states i =
    mark_dirty-watched ts _ i ∙ put_state_same (λ s. s.watched) t _ states i refl

put_dirty :
    (t : ℕ) (states : ℕ → State) (i : ℕ)
    → (states i).dirty ≡ true
    → (put_state t (record (states t) { dirty = true }) states i).dirty ≡ true
put_dirty t states i h = elim (put_state-cases t (record (states t) { dirty = true }) states i) [
  | inl (e, p) ↦ ap (λ (s : State). s.dirty) p
  | inr (e, p) ↦ ap (λ (s : State). s.dirty) p ∙ h
]

pub mark_dirty-dirty :
    (ts : List ℕ) (states : ℕ → State) (i : ℕ)
    → (states i).dirty ≡ true
    → (mark_dirty ts states i).dirty ≡ true
unfolding mark_dirty
mark_dirty-dirty [] states i h = h
mark_dirty-dirty (t ∷ ts) states i h = mark_dirty-dirty ts _ i (put_dirty t states i h)

pub mark_dirty-has :
    (ts : List ℕ) (states : ℕ → State) (i : ℕ)
    → has i ts ≡ true
    → (mark_dirty ts states i).dirty ≡ true
unfolding mark_dirty
mark_dirty-has [] states i h = absurd (ground arith)
mark_dirty-has (t ∷ ts) states i h =
    let s : State = record (states t) { dirty = true } in
    elim (put_state-cases t s states i) [
      | inl (e, p) ↦ mark_dirty-dirty ts _ i (ap (λ (s : State). s.dirty) p)
      | inr (e, p) ↦ mark_dirty-has ts _ i (ground arith)
    ]

-- Each operation keeps the watchers registered.
module _ (w : World) (r : Registered w) where
  replaced :
      (i : ℕ) (s : State)
      → s.watched ≡ (w.states i).watched
      → Registered (record w { states = put_state i s w.states })
  replaced i s e j key h =
      r j key (ap (has_key key) (sym (put_state_same (λ s. s.watched) i s w.states j e)) ∙ h)

  cleared :
      (i : ℕ) (s : State)
      → s.watched ≡ []
      → Registered (record {
        states = put_state i s w.states;
        watchers = cleanup_watcher i (w.states i).watched w.watchers;
      })
  cleared i s e j key h = elim (put_state-cases i s w.states j) [
    | inl (same, p) ↦
        let none_left : false ≡ true =
          sym (ap (has_key key) (ap (λ (s : State). s.watched) p ∙ e)) ∙ h in
        absurd (ground arith)
    | inr (other, p) ↦
        has-cleanup_watcher i j (w.states i).watched w.watchers key other
          (r j key (ap (λ (s : State). has_key key s.watched) (sym p) ∙ h))
  ]

  marked : (key : Bytes) → Registered (set_watching_txns_dirty key w)
  unfolding set_watching_txns_dirty
  marked key i k h =
      r i k (ap (has_key k) (sym (mark_dirty-watched (w.watchers key) w.states i)) ∙ h)

has-append : (i t : ℕ) (ts : List ℕ) → has i ts ≡ true → has i (ts ++ (t ∷ [])) ≡ true
has-append i t [] h = absurd (ground arith)
has-append i t (x ∷ ts) h = elim (Bool-cases (x == i)) [
  | inl e ↦ rw e refl
  | inr e ↦ rw e (has-append i t ts (ground arith))
]

has_last : (i : ℕ) (ts : List ℕ) → has i (ts ++ (i ∷ [])) ≡ true
has_last i [] = ground arith
has_last i (x ∷ ts) = rw (has_last i ts) (ground arith)

has_key-append :
    (key k : Bytes) (ks : List Bytes)
    → has_key key (ks ++ (k ∷ [])) ≡ true
    → (has_key key ks ≡ true) ⊎ ((k ==s key) ≡ true)
has_key-append key k [] h = inr (ground arith)
has_key-append key k (x ∷ ks) h = elim (Bool-cases (x ==s key)) [
  | inl e ↦ inl (rw e refl)
  | inr e ↦ rw e (has_key-append key k ks (ground arith))
]

module _ (i : ℕ) (key : Bytes) (w : World) (r : Registered w) where
  abbrev seen : State
  seen = record (w.states i) { watched = (w.states i).watched ++ (key ∷ []) }

  abbrev watchers' : Bytes → List ℕ
  watchers' = put_watchers key (w.watchers key ++ (i ∷ [])) w.watchers

  kept : (j : ℕ) (k : Bytes) → has j (w.watchers k) ≡ true → has j (watchers' k) ≡ true
  kept j k h = has-put_watchers key k _ w.watchers j (has-append j i (w.watchers key)) h

  own : (k : Bytes) → has_key k seen.watched ≡ true → has i (watchers' k) ≡ true
  unfolding put_watchers
  own k h = elim (has_key-append k key (w.states i).watched h) [
    | inl old ↦ kept i k (r i k old)
    | inr e ↦ rw e (has_last i (w.watchers key))
  ]

  watch_key-Registered : Registered (watch_key i key w)
  unfolding watch_key
  watch_key-Registered j k h = elim (put_state-cases i seen w.states j) [
    | inl (same, p) ↦
        ap (λ n. has n (watchers' k)) (sym same)
        ∙ own k (ap (λ (s : State). has_key k s.watched) (sym p) ∙ h)
    | inr (other, p) ↦ kept j k (r j k (ap (λ (s : State). has_key k s.watched) (sym p) ∙ h))
  ]

watch_keys-Registered :
    (i : ℕ) (keys : List Bytes) (w : World) → Registered w → Registered (watch_keys i keys w)
unfolding watch_keys
watch_keys-Registered i [] w r = r
watch_keys-Registered i (key ∷ keys) w r =
    watch_keys-Registered i keys (watch_key i key w) (watch_key-Registered i key w r)

pub apply-Registered : (e : Event) (w : World) → Registered w → Registered (apply e w)
unfolding apply or_same multi discard watch unwatch enqueue handle_txn_end new_state
apply-Registered (set_key key) w r = marked w r key
apply-Registered (on_watch i keys) w r = elim (Bool-cases (w.states i).is_txn) [
  | inl e ↦ rw e r
  | inr e ↦ rw e (watch_keys-Registered i keys w r)
]
apply-Registered (on_unwatch i) w r = cleared w r i _ refl
apply-Registered (on_multi i) w r = elim (Bool-cases (w.states i).is_txn) [
  | inl e ↦ rw e r
  | inr e ↦ rw e (replaced w r i _ refl)
]
apply-Registered (on_discard i) w r = elim (Bool-cases (w.states i).is_txn) [
  | inl e ↦ rw e (cleared w r i _ refl)
  | inr e ↦ rw e r
]
apply-Registered (on_queue i c) w r = elim (Bool-cases (w.states i).is_txn) [
  | inl e ↦ rw e (replaced w r i _ refl)
  | inr e ↦ rw e r
]
apply-Registered (finish i) w r = cleared w r i _ refl

run-Registered_from : (es : List Event) (w : World) → Registered w → Registered (run es w)
unfolding run
run-Registered_from [] w r = r
run-Registered_from (e ∷ es) w r = run-Registered_from es (apply e w) (apply-Registered e w r)

pub new_world-Registered : Registered new_world
unfolding new_world new_state
new_world-Registered i key h = absurd (ground arith)

-- From the start, after any interleaving of commands, every key that a connection watches has the
-- transaction of the connection among its watchers.
pub run-Registered : (es : List Event) → Registered (run es new_world)
run-Registered es = run-Registered_from es new_world new_world-Registered
