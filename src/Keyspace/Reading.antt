-- ===== src/Keyspace/Reading.antt =====
-- `lrange`, `llen` and `lpop` (app/handlers.go) on a key that holds a list, and the list handlers
-- and `get` on a key that holds something else.
use shitty_redis.Base.{
  ℕ, ◌≡◌, ◌≢◌, refl, ap, Bool, true, false, ◌==◌, ◌&&◌, List, [], ◌∷◌, ◌++◌, none, some, arith,
  Bool-cases, inl, inr, length, take, drop, map,
}
use shitty_redis.Base.Go.{Bytes, ok, panic, Returns}
use shitty_redis.Base.Int.{ℤ, pos, pos_part}
use shitty_redis.Strconv.{parse_int}
use shitty_redis.Strconv.Atoi.{atoi_value-parse_int}
use shitty_redis.Resp.Wire.{resp_encoder, list_header, bulk_strings, bulk_string}
use shitty_redis.Listpack.Codec.{stored}
use shitty_redis.Quicklist.Ops
use shitty_redis.Quicklist.Ops.{Quicklist, is_zero}
use shitty_redis.Quicklist.Models.{Models}
use shitty_redis.Quicklist.Lrange.{range, lrange-range}
use shitty_redis.Quicklist.Lpop.{lpop-Popped}
use shitty_redis.Keyspace.Store.{Structure, var, list, stream, Db, find, Reply, reply, answer}
use shitty_redis.Keyspace.Strings.{get_key, get_value}
use shitty_redis.Keyspace.Lists.{
  as_list, lrange_key, lrange_value, llen_key, llen_value, lpop_key, lpop_value, popped_reply,
  keep_popped,
}
use shitty_redis.Keyspace.Laws.{
  find-keep, find-keep_other, find-forget, find-forget_other, unless, Unchanged,
}
use shitty_redis.Keyspace.Values.{int_reply}
use shitty_redis.Keyspace.Pushing.{Lists}

abbrev pub list_reply : List Bytes → Reply
list_reply vs = reply (list_header vs ++ bulk_strings vs)

-- `lrange` of a key that holds a list, with two texts that read as int64s, answers with the stored
-- texts of the range, and `llen` with the length; both leave the state.
pub lrange_key-range :
    (key ls rs : Bytes) (left right : ℤ) (xs : List Bytes) (db : Db)
    → Lists key xs db
    → parse_int ls ≡ some left
    → parse_int rs ≡ some right
    → (lrange_key key ls rs db ≡ ok (list_reply (range left right (map stored xs)), db))
      × (llen_key key db ≡ ok (int_reply (pos (length xs)), db))
lrange_key-range key ls rs left right xs db (q, found, m) hl hr = (
  unfold lrange_key in
      rw (found, atoi_value-parse_int ls left hl, atoi_value-parse_int rs right hr)
        (unfold lrange_value as_list in
          rw (lrange-range left right xs q m) (unfold answer resp_encoder in refl)),
  unfold llen_key in
      rw found (unfold llen_value as_list answer resp_encoder Ops.llen in rw m.counted refl),
)

-- The answer to `lpop`: nothing, one text, or a list.
abbrev pub pop_reply : List Bytes → Reply
pop_reply [] = reply (b'$' ∷ b'-' ∷ b'1' ∷ 13 ∷ 10 ∷ [])
pop_reply (x ∷ []) = reply (bulk_string x)
pop_reply (x ∷ y ∷ xs) = list_reply (x ∷ y ∷ xs)

popped_reply_lem : (out : List Bytes) (db : Db) → popped_reply out db ≡ ok (pop_reply out, db)
unfolding popped_reply answer resp_encoder
popped_reply_lem [] db = refl
popped_reply_lem (x ∷ []) db = refl
popped_reply_lem (x ∷ y ∷ xs) db = refl

-- The key holds these items; with nobody waiting an empty list is gone.
abbrev pub Kept : Bytes → List Bytes → List ℕ → Db → Type 0
Kept key [] [] db = find key db ≡ none
Kept key xs chs db = Lists key xs db

and_false : (b : Bool) → (b && false) ≡ false
and_false true = refl
and_false false = refl

keep_popped-Unchanged :
    (key : Bytes) (q : Quicklist) (db : Db) → Unchanged key db (keep_popped key q db)
unfolding keep_popped
keep_popped-Unchanged key q db other = unless other key λ n.
    elim (Bool-cases (length (db.blpop_waiters key) == 0 && is_zero (Ops.llen q))) [
      | inl e ↦ rw e (find-forget_other other key db n)
      | inr e ↦ rw e (find-keep_other other key (list q) db n)
    ]

keep_popped-Kept :
    (key : Bytes) (zs : List Bytes) (chs : List ℕ) (q : Quicklist) (db : Db)
    → Models zs q
    → db.blpop_waiters key ≡ chs
    → Kept key zs chs (keep_popped key q db)
unfolding keep_popped
keep_popped-Kept key [] [] q db m e =
    let empty : is_zero (Ops.llen q) ≡ true = unfold is_zero Ops.llen in rw m.counted refl in
    rw (e, empty) (find-forget key db)
keep_popped-Kept key [] (ch ∷ chs) q db m e =
    let waited : (length (ch ∷ chs) == 0) ≡ false = ground arith in
    rw (e, waited) (q, find-keep key (list q) db, m)
keep_popped-Kept key (z ∷ zs) chs q db m e =
    let some_left : is_zero (Ops.llen q) ≡ false =
      unfold is_zero Ops.llen in rw m.counted (ground arith) in
    rw (some_left, and_false (length (db.blpop_waiters key) == 0)) (q, find-keep key (list q) db, m)

-- `lpop` of a key that holds a list, with a count that reads as an int64, returns normally with
-- the stored texts of the first items, as nothing, one text or a list, and leaves the others
-- under the key; an empty list is gone unless a client waits on it. No other key changes.
pub lpop_key-Kept :
    (key count : Bytes) (c : ℤ) (xs : List Bytes) (db : Db)
    → Lists key xs db
    → parse_int count ≡ some c
    → Returns (lpop_key key count db) λ r.
      (r.0 ≡ pop_reply (map stored (take (pos_part c) xs)))
      × Kept key (drop (pos_part c) xs) (db.blpop_waiters key) r.1
      × Unchanged key db r.1
lpop_key-Kept key count c xs db (q, found, m) hc =
    let ((out, q'), popped, (same, m')) = lpop-Popped c xs q m in
    (
      (pop_reply out, keep_popped key q' db),
      unfold lpop_key in
          rw (found, atoi_value-parse_int count c hc)
            (unfold lpop_value as_list in rw popped (popped_reply_lem out (keep_popped key q' db))),
      (ap pop_reply same, keep_popped-Kept key _ _ q' db m' refl, keep_popped-Unchanged key q' db),
    )

-- `get` panics on a key that holds a list or a stream.
pub get_key_panics :
    (key : Bytes) (s : Structure) (db : Db)
    → find key db ≡ some s
    → ((v : Bytes) → s ≢ var v)
    → get_key key db ≡ panic
unfolding get_key get_value
get_key_panics key (var v) db found h = absurd (h v refl)
get_key_panics key (list q) db found h = rw found refl
get_key_panics key (stream st) db found h = rw found refl
