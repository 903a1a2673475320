-- ===== src/Keyspace/Waiters.antt =====
-- `blpop` (app/handlers.go) from the moment that a client waits: pushes, and the timeout.
use shitty_redis.Base.{
  ℕ, ◌≤◌, All, ◌≡◌, refl, sym, ap, ◌∙◌, ◌⊎◌, true, false, ◌==◌, List, [], ◌∷◌, ◌++◌, Option, none,
  some, arith, Bool-cases, Option-cases, inl, inr, if◌then◌else◌, length, drop,
}
use mathlib.Core.Path.{subst}
use shitty_redis.Base.Go.{Bytes, Returns}
use shitty_redis.Resp.Wire.{resp_encoder}
use shitty_redis.Listpack.Codec.{stored}
use shitty_redis.Quicklist.Ops
use shitty_redis.Quicklist.Models.{Storable}
use shitty_redis.Keyspace.Store.{Db, Reply, reply, answer}
use shitty_redis.Keyspace.Lists.{push_key}
use shitty_redis.Keyspace.Blocking.{
  past, take_sent, receive_value, receive, is_waiting, find_and_pop_ch, blpop_timeout,
}
use shitty_redis.Keyspace.Serving.{handed}
use shitty_redis.Keyspace.Pushing.{ListsOrAbsent, Pushed, rpush_key-Pushed, lpush_key-Pushed}
use shitty_redis.Keyspace.Reading.{list_reply}

-- The first value sent into a channel.
abbrev pub value_of : ℕ → List (ℕ × Bytes) → Option Bytes
value_of ch [] = none
value_of ch ((c, v) ∷ rest) = if c == ch then some v else value_of ch rest

take_sent-value_of :
    (ch : ℕ) (sent : List (ℕ × Bytes)) (v : Bytes)
    → value_of ch sent ≡ some v
    → (rest : List (ℕ × Bytes)) × (take_sent ch sent ≡ some (v, rest))
unfolding take_sent past
take_sent-value_of ch [] v e = absurd (ground arith)
take_sent-value_of ch ((c, w) ∷ sent) v e = elim (Bool-cases (c == ch)) [
  | inl t ↦ (sent, ground arith)
  | inr f ↦
      let (rest, r) = take_sent-value_of ch sent v (ground arith) in ((c, w) ∷ rest, rw (f, r) refl)
]

value_of-append_none :
    (ch : ℕ) (xs ys : List (ℕ × Bytes))
    → value_of ch xs ≡ none
    → value_of ch (xs ++ ys) ≡ value_of ch ys
value_of-append_none ch [] ys e = refl
value_of-append_none ch ((c, v) ∷ xs) ys e = elim (Bool-cases (c == ch)) [
  | inl t ↦ absurd (ground arith)
  | inr f ↦ rw f (value_of-append_none ch xs ys (ground arith))
]

value_of-append_some :
    (ch : ℕ) (xs ys : List (ℕ × Bytes)) (v : Bytes)
    → value_of ch xs ≡ some v
    → value_of ch (xs ++ ys) ≡ some v
value_of-append_some ch [] ys v e = absurd (ground arith)
value_of-append_some ch ((c, w) ∷ xs) ys v e = elim (Bool-cases (c == ch)) [
  | inl t ↦ ground arith
  | inr f ↦ rw f (value_of-append_some ch xs ys v (ground arith))
]

-- The client with channel `ch` is waiting on the key, or its element has been sent.
abbrev pub Pending : ℕ → Bytes → Db → Type 0
Pending ch key db =
    (is_waiting ch (db.blpop_waiters key) ≡ true) ⊎ ((v : Bytes) × (value_of ch db.sent ≡ some v))

handed_or_left :
    (ch : ℕ) (chs : List ℕ) (ys : List Bytes)
    → is_waiting ch chs ≡ true
    → (is_waiting ch (drop (length ys) chs) ≡ true)
      ⊎ ((v : Bytes) × (value_of ch (handed chs ys) ≡ some v))
unfolding is_waiting
handed_or_left ch chs [] h = inl h
handed_or_left ch [] (y ∷ ys) h = absurd (ground arith)
handed_or_left ch (c ∷ chs) (y ∷ ys) h = elim (Bool-cases (c == ch)) [
  | inl t ↦ inr (stored y, rw t refl)
  | inr f ↦ elim (handed_or_left ch chs ys (ground arith)) [
    | inl w ↦ inl w
    | inr (v, e) ↦ inr (v, rw f e)
  ]
]

sent_grows :
    (ch : ℕ) (xs ys : List (ℕ × Bytes)) (v : Bytes)
    → value_of ch ys ≡ some v
    → (w : Bytes) × (value_of ch (xs ++ ys) ≡ some w)
sent_grows ch xs ys v e = elim (Option-cases (value_of ch xs)) [
  | inl n ↦ (v, value_of-append_none ch xs ys n ∙ e)
  | inr (w, s) ↦ (w, value_of-append_some ch xs ys w s)
]

-- A client that waits on a key, or whose element has been sent, still does so, or has been sent
-- one, behind a push that does what `Pushed` says, whichever key the push is to.
pub Pending-Pushed :
    (ch : ℕ) (key pushed : Bytes) (ys : List Bytes) (db db' : Db)
    → Pending ch key db
    → Pushed pushed ys db db'
    → Pending ch key db'
Pending-Pushed ch key pushed ys db db' (inr (v, e)) p =
    inr (v, rw p.sent (value_of-append_some ch db.sent _ v e))
Pending-Pushed ch key pushed ys db db' (inl w) p = elim (p.others_waiting key) [
  | inl same ↦
      elim (handed_or_left ch (db.blpop_waiters pushed) ys
        (ap (λ k. is_waiting ch (db.blpop_waiters k)) (sym same) ∙ w)) [
          | inl left ↦ inl (
              ap (λ k. is_waiting ch (db'.blpop_waiters k)) same
              ∙ ap (is_waiting ch) p.served
              ∙ left)
          | inr (v, e) ↦ let (u, s) = sent_grows ch db.sent _ v e in inr (u, rw p.sent s)
        ]
  | inr same ↦ inl (ap (is_waiting ch) same ∙ w)
]

receive-value_of :
    (key : Bytes) (ch : ℕ) (db : Db) (v : Bytes)
    → value_of ch db.sent ≡ some v
    → Returns (receive key ch db) λ r. r.0 ≡ list_reply (key ∷ v ∷ [])
unfolding receive
receive-value_of key ch db v e =
    let (rest, s) = take_sent-value_of ch db.sent v e in
    (
      (list_reply (key ∷ v ∷ []), record db { sent = rest }),
      rw s (unfold receive_value answer resp_encoder in refl),
      refl,
    )

abbrev pub null_list : Reply
null_list = reply (b'*' ∷ b'-' ∷ b'1' ∷ 13 ∷ 10 ∷ [])

-- When the timeout of a client passes, which is waiting or whose element has been sent, the client
-- gets an answer: the element, or the null list if none was sent.
pub blpop_timeout_answers :
    (ch : ℕ) (key : Bytes) (db : Db)
    → Pending ch key db
    → Returns (blpop_timeout key ch db) λ r.
      (r.0 ≡ null_list)
      ⊎ ((v : Bytes) × (value_of ch db.sent ≡ some v) × (r.0 ≡ list_reply (key ∷ v ∷ [])))
unfolding blpop_timeout find_and_pop_ch
blpop_timeout_answers ch key db h = elim (Bool-cases (is_waiting ch (db.blpop_waiters key))) [
  | inl w ↦
      let gone : Db = (find_and_pop_ch ch key db).1 in
      ((null_list, gone), rw w (unfold answer resp_encoder in refl), inl refl)
  | inr n ↦ elim h [
    | inl w ↦ absurd (ground arith)
    | inr (v, e) ↦
        let gone : Db = (find_and_pop_ch ch key db).1 in
        let (r, run, same) = receive-value_of key ch gone v e in (r, rw n run, inr (v, e, same))
  ]
]

value_of-handed :
    (ch : ℕ) (before after : List ℕ) (front : List Bytes) (y : Bytes) (back : List Bytes)
    → is_waiting ch before ≡ false
    → length before ≡ length front
    → value_of ch (handed (before ++ (ch ∷ after)) (front ++ (y ∷ back))) ≡ some (stored y)
unfolding is_waiting
value_of-handed ch [] after [] y back h l = ground arith
value_of-handed ch [] after (x ∷ front) y back h l = absurd (omega arith)
value_of-handed ch (c ∷ before) after [] y back h l = absurd (omega arith)
value_of-handed ch (c ∷ before) after (x ∷ front) y back h l =
    let differs : (c == ch) ≡ false = ground arith in
    rw differs (value_of-handed ch before after front y back (ground arith) (omega arith))

-- A client to whose channel nothing was sent, which waits once in the row, with `n` clients
-- before it, is answered with the key and the stored text of the item at index `n` of the list
-- that the next push to the key makes, if the list is that long.
pub receive-Pushed :
    (ch : ℕ) (key : Bytes) (before after : List ℕ) (front : List Bytes) (y : Bytes)
    (back : List Bytes) (db db' : Db)
    → db.blpop_waiters key ≡ before ++ (ch ∷ after)
    → is_waiting ch before ≡ false
    → value_of ch db.sent ≡ none
    → length before ≡ length front
    → Pushed key (front ++ (y ∷ back)) db db'
    → Returns (receive key ch db') λ r. r.0 ≡ list_reply (key ∷ stored y ∷ [])
receive-Pushed ch key before after front y back db db' w n unsent l p =
    receive-value_of key ch db' (stored y) (
      rw (p.sent, w)
        (value_of-append_none ch db.sent _ unsent
          ∙ value_of-handed ch before after front y back n l))

-- Pushes to a key that holds a list, or to a missing key as to an empty list.
module _ (key : Bytes) (xs items : List Bytes) (db : Db) (h : ListsOrAbsent key xs db)
    (st : All Storable items) (l : 1 ≤ length items) where
  -- On a key that holds a list, or on a missing key as on an empty list, `rpush` and `lpush` of
  -- at least one item, all storable, return normally, and a client that waited on this or any
  -- other key, or whose element had been sent, still waits there, or an element has been sent to
  -- it.
  pub push_key-Pending :
      (ch : ℕ) (waited : Bytes)
      → Pending ch waited db
      → Returns (push_key Ops.rpush key items db) (λ r. Pending ch waited r.1)
        × Returns (push_key Ops.lpush key items db) (λ r. Pending ch waited r.1)
  push_key-Pending ch waited w =
      let (r, e, (a, p)) = rpush_key-Pushed key xs db h items st l in
      let (r', e', (a', p')) = lpush_key-Pushed key xs db h items st l in
      (
        (r, e, Pending-Pushed ch waited key _ db r.1 w p),
        (r', e', Pending-Pushed ch waited key _ db r'.1 w p'),
      )

  -- On a key that holds a list, or on a missing key as on an empty list, `rpush` of at least one
  -- item, all storable, returns normally. A client to whose channel nothing was sent, which waits
  -- in the row of the key with `n` clients, all others, before it, is then answered with the key
  -- and the stored text of the item at index `n` of the list and the new items, if these are that
  -- many.
  pub receive-push_key :
      (ch : ℕ) (before after : List ℕ) (front : List Bytes) (y : Bytes) (back : List Bytes)
      → db.blpop_waiters key ≡ before ++ (ch ∷ after)
      → is_waiting ch before ≡ false
      → value_of ch db.sent ≡ none
      → length before ≡ length front
      → xs ++ items ≡ front ++ (y ∷ back)
      → Returns
          (push_key Ops.rpush key items db)
          λ r. Returns (receive key ch r.1) λ r'. r'.0 ≡ list_reply (key ∷ stored y ∷ [])
  receive-push_key ch before after front y back w n unsent len e =
      let (r, run, (a, p)) = rpush_key-Pushed key xs db h items st l in
      (
        r,
        run,
        receive-Pushed ch key before after front y back db r.1 w n unsent len
            (subst (λ ys. Pushed key ys db r.1) e p),
      )
