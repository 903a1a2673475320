-- ===== src/Keyspace/Waking.antt =====
-- `xadd` (app/handlers.go) with clients waiting in `xread`.
use shitty_redis.Base.{
  ℕ, ◌≡◌, refl, sym, ap, ◌∙◌, ◌⊎◌, true, List, [], ◌∷◌, none, some, ◌==◌, arith, Bool-cases, inl,
  inr,
}
use mathlib.Core.Path.{subst}
use shitty_redis.Base.Go.{Bytes, ok, Returns}
use shitty_redis.Resp.Wire.{resp_encoder, bulk_string}
use shitty_redis.Stream.Types
use shitty_redis.Stream.Types.{Stream}
use shitty_redis.Stream.Ids.{xadd_id}
use shitty_redis.Stream.Ops
use shitty_redis.Keyspace.Store.{stream, Db, find, keep, Reply, reply, answer}
use shitty_redis.Keyspace.Blocking.{is_waiting}
use shitty_redis.Keyspace.Streams.{
  nudge, wake_all_xread_listeners, or_failed, with_stream, xadd_stream, xadd_key,
}
use shitty_redis.Keyspace.Laws.{find-keep, find-keep_other, unless, Unchanged}

nudge-keeps :
    (ch : ℕ) (chs nudged : List ℕ)
    → is_waiting ch nudged ≡ true
    → is_waiting ch (nudge chs nudged) ≡ true
unfolding nudge is_waiting
nudge-keeps ch [] nudged h = h
nudge-keeps ch (c ∷ chs) nudged h = elim (Bool-cases (is_waiting c nudged)) [
  | inl e ↦ rw e (nudge-keeps ch chs nudged h)
  | inr e ↦ rw e (nudge-keeps ch chs (c ∷ nudged) (ground arith))
]

nudge-reaches :
    (ch : ℕ) (chs nudged : List ℕ)
    → is_waiting ch chs ≡ true
    → is_waiting ch (nudge chs nudged) ≡ true
unfolding nudge is_waiting
nudge-reaches ch [] nudged h = absurd (ground arith)
nudge-reaches ch (c ∷ chs) nudged h = elim (Bool-cases (c == ch)) [
  | inl e ↦
      let same : c ≡ ch = ground arith in
      elim (Bool-cases (is_waiting c nudged)) [
        | inl f ↦ rw f (nudge-keeps ch chs nudged (subst (λ n. is_waiting n nudged ≡ true) same f))
        | inr f ↦ rw f (nudge-keeps ch chs (c ∷ nudged) (ground arith))
      ]
  | inr e ↦ elim (Bool-cases (is_waiting c nudged)) [
    | inl f ↦ rw f (nudge-reaches ch chs nudged (ground arith))
    | inr f ↦ rw f (nudge-reaches ch chs (c ∷ nudged) (ground arith))
  ]
]

-- The key holds this stream, or it is missing and the stream is a new one.
abbrev pub Streams : Bytes → Stream → Db → Type 0
Streams key st db = (find key db ≡ some (stream st)) ⊎ ((find key db ≡ none) × (st ≡ Types.new))

-- What an `xadd` that succeeds does.
pub record Woken (ch : ℕ) (key made : Bytes) (st : Stream) (db : Db) (r : Reply × Db) : Type 0 where
  pub answered : r.0 ≡ reply (bulk_string made)
  pub kept : find key r.1 ≡ some (stream st)
  pub others : Unchanged key db r.1
  pub woken : is_waiting ch r.1.nudged ≡ true
  pub still : r.1.xread_waiters ≡ db.xread_waiters

module _ (ch now : ℕ) (key id made : Bytes) (pairs : List Bytes) (st st' : Stream) (db : Db)
    (accepted : xadd_id now id st ≡ ok made) (added : Ops.xadd pairs made st ≡ ok st')
    (waits : is_waiting ch (db.xread_waiters key) ≡ true) where
  xadd_stream-runs :
      (d : Db)
      → xadd_stream now key id pairs st d
        ≡ ok (reply (bulk_string made), wake_all_xread_listeners key (keep key (stream st') d))
  unfolding xadd_stream or_failed
  xadd_stream-runs d = rw (accepted, added) (unfold answer resp_encoder in refl)

  keep-Woken :
      (d : Db)
      → d.xread_waiters ≡ db.xread_waiters
      → Unchanged key db d
      → Woken ch key made st' db
          (reply (bulk_string made), wake_all_xread_listeners key (keep key (stream st') d))
  unfolding wake_all_xread_listeners find
  keep-Woken d same others = record {
    answered = refl;
    kept = unfold find in find-keep key (stream st') d;
    others = λ other. unless other key λ n. elim (others other) [
      | inl e ↦ absurd (n e)
      | inr e ↦ unfold find in find-keep_other other key (stream st') d n ∙ e
    ];
    woken =
        unfold keep in
        nudge-reaches ch (d.xread_waiters key) d.nudged
          (ap (λ (w : Bytes → List ℕ). is_waiting ch (w key)) same ∙ waits);
    still = unfold keep in same;
  }

  -- `xadd` of a key that holds a stream, or of a missing key as of a new stream, whose id is
  -- accepted and whose entry is added, returns normally: the answer is the id, the key holds the
  -- stream with the entry, no other key changes, and a client that waits on the key in `xread`
  -- has been nudged and still waits.
  pub xadd_key-Woken :
      Streams key st db → Returns (xadd_key now key id pairs db) (Woken ch key made st' db)
  unfolding xadd_key with_stream
  xadd_key-Woken (inl found) =
      (_, rw found (xadd_stream-runs db), keep-Woken db refl (λ other. inr refl))
  xadd_key-Woken (inr (absent, fresh)) =
      let d = keep key (stream st) db in
      (
        _,
        rw (absent, sym fresh) (xadd_stream-runs d),
        keep-Woken d (unfold keep in refl)
            (λ other. unless other key λ n. find-keep_other other key (stream st) db n),
      )
