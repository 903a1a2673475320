-- ===== src/Keyspace/Laws.antt =====
-- The keyspace as a map: what is found after a store and after a delete.
use shitty_redis.Base.{
  ◌≡◌, ◌≢◌, refl, sym, ap, ◌∙◌, ◌⊎◌, true, false, [], ◌∷◌, none, some, arith, Bool-cases, inl, inr,
}
use shitty_redis.Base.Go.{Bytes}
use shitty_redis.Command.Fields.{◌==s◌}
use shitty_redis.Txns.Watching.{same_key}
use shitty_redis.Keyspace.Store.{
  Structure, Keyspace, lookup, store, delete_structure, Db, find, keep, forget,
}

pub key_self : (k : Bytes) → (k ==s k) ≡ true
unfolding ◌==s◌
key_self [] = refl
key_self (x ∷ k) = rw (key_self k) (ground arith)

pub other_key : (j k : Bytes) → j ≢ k → (j ==s k) ≡ false
other_key j k n = elim (Bool-cases (j ==s k)) [ inl e ↦ absurd (n (same_key j k e)) | inr e ↦ e ]

-- Whatever holds of a key other than `key`.
pub unless {ℓ} : {P : Type ℓ} (other key : Bytes) → (other ≢ key → P) → (other ≡ key) ⊎ P
unless other key h = elim (Bool-cases (other ==s key)) [
  | inl e ↦ inl (same_key other key e)
  | inr e ↦
      inr (h (λ same. true_ne_false (sym (key_self key) ∙ sym (ap (λ k. k ==s key) same) ∙ e)))
]
  where
    true_ne_false : true ≢ false
    true_ne_false h = cc

lookup-store_self : (k : Bytes) (v : Structure) (m : Keyspace) → lookup k (store k v m) ≡ some v
unfolding lookup store
lookup-store_self k v [] = rw (key_self k) refl
lookup-store_self k v ((j, w) ∷ m) = elim (Bool-cases (k ==s j)) [
  | inl e ↦ rw e (rw (key_self k) refl)
  | inr e ↦ rw e (rw e (lookup-store_self k v m))
]

lookup-store_other :
    (j k : Bytes) (v : Structure) (m : Keyspace)
    → (j ==s k) ≡ false
    → lookup j (store k v m) ≡ lookup j m
unfolding lookup store
lookup-store_other j k v [] n = rw n refl
lookup-store_other j k v ((i, w) ∷ m) n = elim (Bool-cases (k ==s i)) [
  | inl e ↦
      let n' : (j ==s i) ≡ false = sym (ap (λ x. j ==s x) (same_key k i e)) ∙ n in
      rw e (rw (n, n') refl)
  | inr e ↦ rw e (rw (lookup-store_other j k v m n) refl)
]

lookup-delete_self : (k : Bytes) (m : Keyspace) → lookup k (delete_structure k m) ≡ none
unfolding lookup delete_structure
lookup-delete_self k [] = refl
lookup-delete_self k ((j, w) ∷ m) = elim (Bool-cases (k ==s j)) [
  | inl e ↦ rw e (lookup-delete_self k m)
  | inr e ↦ rw e (rw e (lookup-delete_self k m))
]

lookup-delete_other :
    (j k : Bytes) (m : Keyspace) → (j ==s k) ≡ false → lookup j (delete_structure k m) ≡ lookup j m
unfolding lookup delete_structure
lookup-delete_other j k [] n = refl
lookup-delete_other j k ((i, w) ∷ m) n = elim (Bool-cases (k ==s i)) [
  | inl e ↦
      let n' : (j ==s i) ≡ false = sym (ap (λ x. j ==s x) (same_key k i e)) ∙ n in
      rw e (rw n' (lookup-delete_other j k m n))
  | inr e ↦ rw e (rw (lookup-delete_other j k m n) refl)
]

pub find-keep : (key : Bytes) (s : Structure) (db : Db) → find key (keep key s db) ≡ some s
unfolding find keep
find-keep key s db = lookup-store_self key s db.keyspace

pub find-keep_other :
    (other key : Bytes) (s : Structure) (db : Db)
    → other ≢ key
    → find other (keep key s db) ≡ find other db
unfolding find keep
find-keep_other other key s db n =
    lookup-store_other other key s db.keyspace (other_key other key n)

pub find-forget : (key : Bytes) (db : Db) → find key (forget key db) ≡ none
unfolding find forget
find-forget key db = lookup-delete_self key db.keyspace

pub find-forget_other :
    (other key : Bytes) (db : Db) → other ≢ key → find other (forget key db) ≡ find other db
unfolding find forget
find-forget_other other key db n = lookup-delete_other other key db.keyspace (other_key other key n)

-- Every key but one holds in the second state what it held in the first.
abbrev pub Unchanged : Bytes → Db → Db → Type 0
Unchanged key db db' = (other : Bytes) → (other ≡ key) ⊎ (find other db' ≡ find other db)
