-- ===== src/Keyspace/Waiting.antt =====
-- `blpop` (app/handlers.go) up to the moment that a client is answered or waits.
use shitty_redis.Base.{
  suc, All, ◌≡◌, refl, ap, ◌∙◌, ◌⊎◌, true, false, List, [], ◌∷◌, ◌++◌, none, arith, inl, inr,
  length, length-append,
}
use shitty_redis.Base.Go.{Bytes, Returns}
use shitty_redis.Base.Int.{pos, ltb_ℤ}
use shitty_redis.Resp.Wire.{resp_encoder}
use shitty_redis.Listpack.Codec.{stored}
use shitty_redis.Quicklist.Ops
use shitty_redis.Quicklist.Models.{Storable}
use shitty_redis.Quicklist.Lpop.{lpop-Popped}
use shitty_redis.Txns.Ops.{put_watchers}
use shitty_redis.Keyspace.Store.{list, Db, find, keep, waiting, answer}
use shitty_redis.Keyspace.Lists.{as_list, push_key}
use shitty_redis.Keyspace.Blocking.{
  start_waiting, blpop_list, blpop_value, blpop_key, receive, is_waiting,
}
use shitty_redis.Keyspace.Laws.{find-keep}
use shitty_redis.Keyspace.Pushing.{Lists, put_watchers_self}
use shitty_redis.Keyspace.Reading.{list_reply}
use shitty_redis.Keyspace.Waiters.{value_of, receive-push_key}

-- `blpop` of a key with items answers at once with the key and the first item's stored text, and
-- leaves the others under the key.
pub blpop_key-Lists :
    (key : Bytes) (x : Bytes) (xs : List Bytes) (db : Db)
    → Lists key (x ∷ xs) db
    → Returns (blpop_key key db) λ r. (r.0 ≡ list_reply (key ∷ stored x ∷ [])) × Lists key xs r.1
unfolding blpop_key blpop_value as_list
blpop_key-Lists key x xs db (q, found, m) =
    let ((out, q'), popped, (same, m')) = lpop-Popped (pos 1) (x ∷ xs) q m in
    let some_left : ltb_ℤ (pos 0) (Ops.llen q) ≡ true =
      unfold Ops.llen in rw m.counted (ground arith) in
    (
      (list_reply (key ∷ out), keep key (list q') db),
      rw found (
          ap (λ b. blpop_list b key q db) some_left
          ∙ (unfold blpop_list answer resp_encoder in rw popped refl)),
      (ap (λ o. list_reply (key ∷ o)) same, (q', find-keep key (list q') db, m')),
    )

abbrev waiting_db : Bytes → Db → Db
waiting_db key db = record db {
  channels = suc db.channels;
  blpop_waiters = put_watchers key (db.blpop_waiters key ++ (db.channels ∷ [])) db.blpop_waiters;
}

-- `blpop` of a key with no items waits, last in the key's row.
pub blpop_key-Pending :
    (key : Bytes) (db : Db)
    → (find key db ≡ none) ⊎ Lists key [] db
    → Returns (blpop_key key db) λ r.
      (r.0 ≡ waiting db.channels)
      × (r.1.blpop_waiters key ≡ db.blpop_waiters key ++ (db.channels ∷ []))
unfolding blpop_key blpop_value start_waiting as_list
blpop_key-Pending key db (inl absent) = (
  (waiting db.channels, waiting_db key db),
  rw absent refl,
  (refl, put_watchers_self key _ db.blpop_waiters),
)
blpop_key-Pending key db (inr (q, found, m)) =
    let empty : ltb_ℤ (pos 0) (Ops.llen q) ≡ false = unfold Ops.llen in rw m.counted refl in
    (
      (waiting db.channels, waiting_db key db),
      rw found (ap (λ b. blpop_list b key q db) empty ∙ (unfold blpop_list in refl)),
      (refl, put_watchers_self key _ db.blpop_waiters),
    )

-- On a missing key, with a row in which the next channel does not stand and with nothing sent
-- into that channel, `blpop` waits on it. If the next command is an `rpush` to the key of at
-- least one item, all storable, it returns normally, and the client is then answered with the key
-- and the stored text of the item behind as many items as there were clients before it, if there
-- is one.
pub receive-blpop_key :
    (key : Bytes) (db : Db) (items front : List Bytes) (y : Bytes) (back : List Bytes)
    → find key db ≡ none
    → is_waiting db.channels (db.blpop_waiters key) ≡ false
    → value_of db.channels db.sent ≡ none
    → All Storable items
    → items ≡ front ++ (y ∷ back)
    → length (db.blpop_waiters key) ≡ length front
    → Returns (blpop_key key db) λ r.
      (r.0 ≡ waiting db.channels)
      × Returns (push_key Ops.rpush key items r.1) λ r'.
        Returns (receive key db.channels r'.1) λ r''. r''.0 ≡ list_reply (key ∷ stored y ∷ [])
unfolding blpop_key blpop_value start_waiting
receive-blpop_key key db items front y back absent fresh unsent st e len = (
  (waiting db.channels, waiting_db key db),
  rw absent refl,
  (
    refl,
    receive-push_key key [] items (waiting_db key db) (inr (unfold find in absent, refl)) st
        (rw e (rw (length-append front (y ∷ back)) (omega arith))) db.channels
        (db.blpop_waiters key) [] front y back (put_watchers_self key _ db.blpop_waiters) fresh
        unsent len e,
  ),
)
