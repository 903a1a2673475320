-- ===== src/Keyspace/Values.antt =====
-- String values (app/handlers.go, app/utils.go): `set`, `get`, `incr` and the expiry of a key.
use shitty_redis.Base.{
  ◌-◌, ◌^◌, ◌≡◌, ◌≢◌, refl, ap, ◌⊎◌, false, ◌==◌, [], ◌∷◌, ◌++◌, none, some, arith, Bool-cases, inl,
  inr,
}
use shitty_redis.Base.Go.{Bytes, ok}
use shitty_redis.Base.Int.{ℤ, pos, negsuc, ◌+ℤ◌, IsInt64}
use shitty_redis.Strconv.{parse_int, format_int, format_uint, decimal}
use shitty_redis.Strconv.RoundTrip.{parse_int-format_int, parse_int-IsInt64}
use shitty_redis.Resp.Wire.{resp_encoder, bulk_string, crlf, to_lower}
use shitty_redis.Command.Fields.{◌==s◌}
use shitty_redis.Keyspace.Store.{
  Structure, var, list, stream, Db, find, keep, Reply, reply, failed, answer,
}
use shitty_redis.Keyspace.Strings.{
  get_key, get_value, set_key, setup_expiry, add_timer, scale, expire, incr_key, incr_value,
  incr_number,
}
use shitty_redis.Keyspace.Laws.{find-keep, find-keep_other, find-forget, unless, Unchanged}

pub find-set_key : (key val : Bytes) (db : Db) → find key (set_key key val db) ≡ some (var val)
unfolding set_key find
find-set_key key val db = unfold find in find-keep key (var val) db

-- After `set` of a key `get` of the same key answers with the value and leaves the state, and
-- every other key holds what it held.
pub get_key-set_key :
    (key val : Bytes) (db : Db)
    → (get_key key (set_key key val db) ≡ ok (reply (bulk_string val), set_key key val db))
      × Unchanged key db (set_key key val db)
unfolding get_key
get_key-set_key key val db = (
  rw (find-set_key key val db) (unfold get_value answer resp_encoder in refl),
  λ other. unless other key λ n. unfold set_key find in find-keep_other other key (var val) db n,
)

-- The key stands for the number `v`; a missing key stands for 0.
abbrev pub Counts : Bytes → ℤ → Db → Type 0
Counts key v db =
    ((find key db ≡ none) × (v ≡ pos 0))
    ⊎ ((s : Bytes) × (find key db ≡ some (var s)) × (parse_int s ≡ some v))

abbrev pub int_reply : ℤ → Reply
int_reply v = reply (b':' ∷ (format_int v ++ crlf))

incr_number_lem :
    (key : Bytes) (v : ℤ) (db : Db)
    → IsInt64 v
    → v ≢ pos (2 ^ 63 - 1)
    → incr_number key (some v) db
      ≡ ok (int_reply (v +ℤ pos 1), keep key (var (format_int (v +ℤ pos 1))) db)
unfolding incr_number answer resp_encoder
incr_number_lem key (pos n) db h m =
    let e : (n == 2 ^ 63 - 1) ≡ false = elim (Bool-cases (n == 2 ^ 63 - 1)) [
      | inl t ↦ absurd (m (ap pos (ground arith)))
      | inr f ↦ f
    ] in
    rw e refl
incr_number_lem key (negsuc n) db h m = refl

one_text : format_int (pos 0 +ℤ pos 1) ≡ b'1' ∷ []
unfolding ◌+ℤ◌ format_int format_uint decimal
one_text = refl

next-IsInt64 : (v : ℤ) → IsInt64 v → v ≢ pos (2 ^ 63 - 1) → IsInt64 (v +ℤ pos 1)
unfolding ◌+ℤ◌
next-IsInt64 (pos n) h m = elim (Bool-cases (n == 2 ^ 63 - 1)) [
  | inl t ↦ absurd (m (ap pos (ground arith)))
  | inr f ↦ ground arith
]
next-IsInt64 (negsuc n) h m = ground arith

Counts-next :
    (key : Bytes) (v : ℤ) (db : Db)
    → IsInt64 v
    → v ≢ pos (2 ^ 63 - 1)
    → Counts key (v +ℤ pos 1) (keep key (var (format_int (v +ℤ pos 1))) db)
Counts-next key v db h m = inr (
  format_int (v +ℤ pos 1),
  find-keep key _ db,
  parse_int-format_int (v +ℤ pos 1) (next-IsInt64 v h m),
)

-- `incr` of a key that holds a text that reads as an int64 below the largest, or of a missing key
-- as of 0, answers with the next number, and the key then holds a text that reads as it.
pub incr_key-Counts :
    (key : Bytes) (v : ℤ) (db : Db)
    → Counts key v db
    → v ≢ pos (2 ^ 63 - 1)
    → (incr_key key db ≡ ok (int_reply (v +ℤ pos 1), keep key (var (format_int (v +ℤ pos 1))) db))
      × Counts key (v +ℤ pos 1) (keep key (var (format_int (v +ℤ pos 1))) db)
unfolding format_int format_uint decimal
incr_key-Counts key v db (inl (absent, zero_count)) m = (
  rw zero_count
      (unfold incr_key in rw absent (unfold incr_value answer resp_encoder in rw one_text refl)),
  Counts-next key v db (rw zero_count (omega arith)) m,
)
incr_key-Counts key v db (inr (s, found, parsed)) m =
    let int64 : IsInt64 v = parse_int-IsInt64 s v parsed in
    (
      unfold incr_key in
          rw found (unfold incr_value in rw parsed (incr_number_lem key v db int64 m)),
      Counts-next key v db int64 m,
    )

-- `incr` refuses a list, a stream, a text that is no int64 and the largest int64, and leaves the
-- state as it was.
pub incr_key_refused :
    (key : Bytes) (s : Structure) (db : Db)
    → find key db ≡ some s
    → ((t : Bytes) → s ≡ var t → (parse_int t ≡ none) ⊎ (parse_int t ≡ some (pos (2 ^ 63 - 1))))
    → incr_key key db ≡ ok (failed, db)
unfolding incr_key
incr_key_refused key (var t) db found refused = elim (refused t refl) [
  | inl e ↦ rw found (unfold incr_value in rw e (unfold incr_number in refl))
  | inr e ↦ rw found (unfold incr_value in rw e (unfold incr_number in refl))
]
incr_key_refused key (list q) db found refused = rw found (unfold incr_value in refl)
incr_key_refused key (stream st) db found refused = rw found (unfold incr_value in refl)

-- After `set` of a key with a duration in milliseconds and a later `set` of the same key, the
-- timer is there and `get` answers with the later value; when the timer ends the key is gone.
pub expire_stale :
    (key old new et dur : Bytes) (d : ℤ) (db : Db)
    → to_lower et ≡ b'p' ∷ b'x' ∷ []
    → parse_int dur ≡ some d
    → let later = set_key key new (setup_expiry et dur key (set_key key old db)) in
      (later.timers ≡ db.timers ++ ((scale (10 ^ 6) d, key) ∷ []))
      × (get_key key later ≡ ok (reply (bulk_string new), later))
      × (find key (expire key later) ≡ none)
expire_stale key old new et dur d db e p =
    let before = setup_expiry et dur key (set_key key old db) in
    (
      unfold set_key keep setup_expiry ◌==s◌ in rw (e, p) (unfold add_timer in refl),
      (get_key-set_key key new before).0,
      unfold expire in find-forget key (set_key key new before),
    )
