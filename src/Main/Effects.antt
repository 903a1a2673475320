-- ===== src/Main/Effects.antt =====
-- What a `set` (app/handlers.go) does to the keys, and what it leaves of the transactions.
use shitty_redis.Command.Fields.{◌==s◌}
use shitty_redis.Txns.Watching.{same_key}
use shitty_redis.Keyspace.Laws.{key_self}
use shitty_redis.Keyspace.Store.{var}
use shitty_redis.Base.{
  Bool-cases, true, some, if◌then◌else◌, ℕ, ◌≡◌, refl, ap, ◌∙◌, inl, inr, List, [], ◌∷◌,
  Option-cases, arith,
}
use shitty_redis.Base.Go.{Bytes}
use shitty_redis.Strconv.{parse_int}
use shitty_redis.Txns.Ops.{State, World, mark_dirty, set_watching_txns_dirty}
use shitty_redis.Txns.Watching.{put_state_same}
use shitty_redis.Keyspace.Store.{Db, find, keep}
use shitty_redis.Keyspace.Strings.{set_key, setup_extras, setup_expiry, add_timer}
use shitty_redis.Keyspace.Values.{find-set_key, get_key-set_key}
use shitty_redis.Main.Setting.{expiry, set_effect}

find-setup_expiry :
    (key et dur k : Bytes) (db : Db) → find key (setup_expiry et dur k db) ≡ find key db
unfolding setup_expiry add_timer find
find-setup_expiry key et dur k db = elim (Option-cases (parse_int dur)) [
  | inl e ↦ rw e (ground arith)
  | inr (d, e) ↦ rw e (ground arith)
]

pub find-setup_extras :
    (key k : Bytes) (more : List Bytes) (db : Db) → find key (setup_extras k more db) ≡ find key db
unfolding setup_extras
find-setup_extras key k [] db = refl
find-setup_extras key k (t ∷ []) db = refl
find-setup_extras key k (t ∷ d ∷ more) db = find-setup_expiry key t d k db

-- The key holds the value, and every other key what it held.
pub find-set_effect :
    (key k v : Bytes) (more : List Bytes) (db : Db)
    → find key (set_effect k v more db) ≡ (if key ==s k then some (var v) else find key db)
find-set_effect key k v more db =
    find-setup_extras key k (expiry more) (set_key k v db) ∙ elim (Bool-cases (key ==s k)) [
      | inl e ↦
          let same : key ≡ k = same_key key k e in
          ap (λ x. find x (set_key k v db)) same ∙ find-set_key k v db ∙ rw e refl
      | inr e ↦ elim ((get_key-set_key k v db).1 key) [
        | inl same ↦
            let found : (key ==s k) ≡ true = ap (λ x. x ==s k) same ∙ key_self k in
            absurd (ground arith)
        | inr kept ↦ kept ∙ rw e refl
      ]
    ]

is_txn-mark_dirty :
    (ts : List ℕ) (states : ℕ → State) (x : ℕ) → (mark_dirty ts states x).is_txn ≡ (states x).is_txn
unfolding mark_dirty
is_txn-mark_dirty [] states x = refl
is_txn-mark_dirty (t ∷ ts) states x =
    is_txn-mark_dirty ts _ x ∙ put_state_same (λ s. s.is_txn) t _ states x refl

txns-setup_expiry : (et dur k : Bytes) (db : Db) → (setup_expiry et dur k db).txns ≡ db.txns
unfolding setup_expiry add_timer
txns-setup_expiry et dur k db = elim (Option-cases (parse_int dur)) [
  | inl e ↦ rw e (ground arith)
  | inr (d, e) ↦ rw e (ground arith)
]

txns-setup_extras :
    (k : Bytes) (more : List Bytes) (db : Db) → (setup_extras k more db).txns ≡ db.txns
unfolding setup_extras
txns-setup_extras k [] db = refl
txns-setup_extras k (t ∷ []) db = refl
txns-setup_extras k (t ∷ d ∷ more) db = txns-setup_expiry t d k db

pub is_txn-set_effect :
    (k v : Bytes) (more : List Bytes) (db : Db) (x : ℕ)
    → ((set_effect k v more db).txns.states x).is_txn ≡ (db.txns.states x).is_txn
is_txn-set_effect k v more db x =
    ap (λ (w : World). (w.states x).is_txn) (txns-setup_extras k (expiry more) (set_key k v db))
    ∙ (unfold set_key set_watching_txns_dirty keep in
        is_txn-mark_dirty (db.txns.watchers k) db.txns.states x)
