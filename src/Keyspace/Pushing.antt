-- ===== src/Keyspace/Pushing.antt =====
-- `rpush` and `lpush` (app/handlers.go) on the keyspace, with clients waiting on the key.
use shitty_redis.Base.{
  ℕ, ◌≤◌, ◌≡◌, ◌≢◌, refl, sym, ap, ◌∙◌, ◌⊎◌, Bool, true, false, List, [], ◌∷◌, ◌++◌, none, some,
  arith, leb, Bool-cases, inl, inr, if◌then◌else◌, length, drop, drop_all, All,
}
use Prim.Native.Nat.{min}
use mathlib.Core.Path.{subst}
use mathlib.Core.List.{reverse}
use shitty_redis.Base.Go.{Bytes, Run, ◌>>=◌, Returns}
use shitty_redis.Base.Int.{ℤ, pos}
use shitty_redis.Resp.Wire.{resp_encoder}
use shitty_redis.Txns.Ops.{put_watchers}
use shitty_redis.Quicklist.Ops
use shitty_redis.Quicklist.Ops.{Quicklist, is_zero}
use shitty_redis.Quicklist.Models.{Models, Storable, new-Models}
use shitty_redis.Quicklist.Rpush.{rpush-Models}
use shitty_redis.Quicklist.Lpush.{lpush-Models}
use shitty_redis.Keyspace.Store.{list, Db, find, keep, forget, answer}
use shitty_redis.Keyspace.Lists.{
  as_list, list_or_new, handle_blpop_listeners, finish_push, push_key,
}
use shitty_redis.Keyspace.Laws.{
  key_self, other_key, find-keep, find-keep_other, find-forget, find-forget_other, unless,
  Unchanged,
}
use shitty_redis.Keyspace.Values.{int_reply}
use shitty_redis.Keyspace.Serving.{handed, serve-Served}

-- The key holds a list that stands for `xs`.
abbrev pub Lists : Bytes → List Bytes → Db → Type 0
Lists key xs db = (q : Quicklist) × (find key db ≡ some (list q)) × Models xs q

-- The key holds such a list, or there is no key and `xs` is empty.
abbrev pub ListsOrAbsent : Bytes → List Bytes → Db → Type 0
ListsOrAbsent key xs db = Lists key xs db ⊎ ((find key db ≡ none) × (xs ≡ []))

-- The keyspace has this list under the key; an empty one is not kept.
abbrev pub Left : Bytes → List Bytes → Db → Type 0
Left key [] db = find key db ≡ none
Left key (x ∷ xs) db = Lists key (x ∷ xs) db

-- What a push that makes the list `ys` does: the waiters get the first items, oldest first, the
-- key keeps the others, and nothing else changes.
pub record Pushed (key : Bytes) (ys : List Bytes) (db db' : Db) : Type 0 where
  pub sent : db'.sent ≡ db.sent ++ handed (db.blpop_waiters key) ys
  pub served : db'.blpop_waiters key ≡ drop (length ys) (db.blpop_waiters key)
  pub left : Left key (drop (length (db.blpop_waiters key)) ys) db'
  pub others : Unchanged key db db'
  pub others_waiting :
      (other : Bytes) → (other ≡ key) ⊎ (db'.blpop_waiters other ≡ db.blpop_waiters other)

drop-min {ℓ} : {A : Type ℓ} (xs : List A) (n : ℕ) → drop (min (length xs) n) xs ≡ drop n xs
drop-min xs n = elim (Bool-cases (leb n (length xs))) [
  | inl e ↦ let same : min (length xs) n ≡ n = ground arith in rw same refl
  | inr e ↦
      let same : min (length xs) n ≡ length xs = ground arith in
      rw (same, drop_all (length xs) xs (omega arith), drop_all n xs (ground arith)) refl
]

pub put_watchers_self :
    (key : Bytes) (chs : List ℕ) (w : Bytes → List ℕ) → put_watchers key chs w key ≡ chs
unfolding put_watchers
put_watchers_self key chs w = rw (key_self key) refl

put_watchers_other :
    (other key : Bytes) (chs : List ℕ) (w : Bytes → List ℕ)
    → other ≢ key
    → put_watchers key chs w other ≡ w other
unfolding put_watchers
put_watchers_other other key chs w n = rw (other_key key other (λ e. n (sym e))) refl

Left-keep :
    (key : Bytes) (zs : List Bytes) (q : Quicklist) (db : Db)
    → Models zs q
    → Left key zs
        (if is_zero q.count then forget key (keep key (list q) db) else keep key (list q) db)
Left-keep key [] q db m =
    let empty : is_zero q.count ≡ true = unfold is_zero in rw m.counted refl in
    rw empty (find-forget key (keep key (list q) db))
Left-keep key (z ∷ zs) q db m =
    let some_left : is_zero q.count ≡ false = unfold is_zero in rw m.counted (ground arith) in
    rw some_left (q, find-keep key (list q) db, m)

-- The state behind a push, with the key kept or dropped.
module _ (key : Bytes) (ys : List Bytes) (pop : ℕ) (q : Quicklist) (db : Db)
    (counted : pop ≡ min (length (db.blpop_waiters key)) (length ys)) where
  abbrev served_db : Db
  served_db = record db {
    sent = db.sent ++ handed (db.blpop_waiters key) ys;
    blpop_waiters = put_watchers key (drop pop (db.blpop_waiters key)) db.blpop_waiters;
  }

  abbrev kept_db : Bool → Db
  kept_db b = if b then forget key (keep key (list q) served_db) else keep key (list q) served_db

  Pushed-kept :
      (b : Bool)
      → Left key (drop (length (db.blpop_waiters key)) ys) (kept_db b)
      → Pushed key ys db (kept_db b)
  unfolding keep forget
  Pushed-kept true l = record {
    sent = refl;
    served =
        put_watchers_self key _ db.blpop_waiters
        ∙ rw counted (drop-min (db.blpop_waiters key) (length ys));
    left = l;
    others = λ other. unless other key λ n.
        find-forget_other other key (keep key (list q) served_db) n
        ∙ find-keep_other other key (list q) served_db n
        ∙ unfold find in refl;
    others_waiting =
        λ other. unless other key λ n. put_watchers_other other key _ db.blpop_waiters n;
  }
  Pushed-kept false l = record {
    sent = refl;
    served =
        put_watchers_self key _ db.blpop_waiters
        ∙ rw counted (drop-min (db.blpop_waiters key) (length ys));
    left = l;
    others = λ other.
        unless other key λ n. find-keep_other other key (list q) served_db n ∙ unfold find in refl;
    others_waiting =
        λ other. unless other key λ n. put_watchers_other other key _ db.blpop_waiters n;
  }

module _ (key : Bytes) (ys : List Bytes) (len : ℤ) (q : Quicklist) (m : Models ys q) (db : Db) where
  finish_push-Pushed :
      Returns (finish_push key len q db) λ r. (r.0 ≡ int_reply len) × Pushed key ys db r.1
  unfolding finish_push handle_blpop_listeners answer resp_encoder
  finish_push-Pushed =
      let ((sends, pop, q'), served, (a, b, m')) = serve-Served (db.blpop_waiters key) ys q m in
      let l = Left-keep key _ q' (served_db key ys pop q' db b) m' in
      (
        _,
        rw (served, ◌>>=◌) (rw a refl),
        (refl, Pushed-kept key ys pop q' db b (is_zero q'.count) l),
      )

module _ (key : Bytes) (xs : List Bytes) (db : Db) (h : ListsOrAbsent key xs db) where
  held : (q : Quicklist) × (list_or_new (find key db) ≡ some q) × Models xs q
  unfolding list_or_new as_list
  held = elim h [
    | inl (q, found, m) ↦ (q, rw found refl, m)
    | inr (absent, empty) ↦ (
      Ops.new,
      rw absent refl,
      subst (λ (zs : List Bytes). Models zs Ops.new) (sym empty) new-Models,
    )
  ]

  push_key-Pushed :
      (push : List Bytes → Quicklist → Run Quicklist) (items ys : List Bytes)
      → ((q : Quicklist) → Models xs q → Returns (push items q) (Models ys))
      → Returns
          (push_key push key items db)
          λ r. (r.0 ≡ int_reply (pos (length ys))) × Pushed key ys db r.1
  unfolding push_key Ops.llen
  push_key-Pushed push items ys pushes =
      let (q, got, m) = held in
      let (q', pushed, m') = pushes q m in
      let (r, finished, (a, b)) = finish_push-Pushed key ys q'.count q' m' db in
      (r, rw got (rw pushed finished), (a ∙ ap int_reply m'.counted, b))

  -- On a key that holds a list, or on a missing key as on an empty list, `rpush` of at least one
  -- item, all storable, returns normally with the length of the list and the items. The clients
  -- that wait on the key get the stored texts of the first items, oldest client first, and leave
  -- the row; the key keeps the other items, and is gone if there are none; no other key and no
  -- other row changes.
  pub rpush_key-Pushed :
      (items : List Bytes)
      → All Storable items
      → 1 ≤ length items
      → Returns
          (push_key Ops.rpush key items db)
          λ r. (r.0 ≡ int_reply (pos (length (xs ++ items)))) × Pushed key (xs ++ items) db r.1
  rpush_key-Pushed items st l =
      push_key-Pushed Ops.rpush items (xs ++ items) λ q m. rpush-Models xs items q m st l

  -- On a key that holds a list, or on a missing key as on an empty list, `lpush` of at least one
  -- item, all storable, returns normally with the length of the items, the last one first, and
  -- the list. The clients that wait on the key get the stored texts of the first items, oldest
  -- client first, and leave the row; the key keeps the other items, and is gone if there are
  -- none; no other key and no other row changes.
  pub lpush_key-Pushed :
      (items : List Bytes)
      → All Storable items
      → 1 ≤ length items
      → Returns (push_key Ops.lpush key items db) λ r.
        (r.0 ≡ int_reply (pos (length (reverse items ++ xs))))
        × Pushed key (reverse items ++ xs) db r.1
  lpush_key-Pushed items st l =
      push_key-Pushed Ops.lpush items (reverse items ++ xs) λ q m. lpush-Models xs items q m st l
