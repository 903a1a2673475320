-- ===== src/Main/Setting.antt =====
-- A `set` in a round of a connection (app/main.go).
use shitty_redis.Base.{
  ℕ, ◌≡◌, refl, ap, ◌∙◌, ◌⊎◌, inl, inr, true, false, Bool-cases, List, [], ◌∷◌, ◌++◌,
}
use shitty_redis.Base.Go.{Bytes, ok, panic}
use shitty_redis.Resp.Wire.{resp_encoder, crlf}
use shitty_redis.Command.Fields.{◌==s◌, Com, put, put_arg, put_extra, first_at, value_at}
use shitty_redis.Command.Name
use shitty_redis.Command.Validate
use shitty_redis.Command.Validate.{
  Command, command, labels, get_com, validate, validate_set, set_extras,
}
use shitty_redis.Command.Reads.{set_expiry}
use shitty_redis.Txns.Ops.{enqueue}
use shitty_redis.Keyspace.Store.{Db, reply, answer}
use shitty_redis.Keyspace.Strings.{set, set_key, setup_extras}
use shitty_redis.Main.Dispatch.{Node, Outside, on_db, handle_plain, handle_by, handle_com, put_txns}
use shitty_redis.Main.Loop.{sends, sent, run_com, run_checked, request, is_queued, queued_word}

abbrev pub set_base : Bytes
set_base = b's' ∷ b'e' ∷ b't' ∷ []

-- The expiry type and the duration of a `set`, if they are given.
abbrev pub expiry : List Bytes → List Bytes
expiry [] = []
expiry (t ∷ []) = t ∷ []
expiry (t ∷ d ∷ more) = t ∷ d ∷ []

-- With an expiry type there is a duration.
abbrev pub HasDuration : List Bytes → Type 0
HasDuration (t ∷ []) = ⊥
HasDuration more = Unit

abbrev pub set_effect : Bytes → Bytes → List Bytes → Db → Db
set_effect key val more db = setup_extras key (expiry more) (set_key key val db)

abbrev pub ok_line : Bytes
ok_line = b'+' ∷ b'O' ∷ b'K' ∷ crlf

abbrev pub queued_line : Bytes
queued_line = b'+' ∷ (queued_word ++ crlf)

abbrev err_line : Outside → List Bytes → Bytes
err_line out args = b'-' ∷ b'E' ∷ b'R' ∷ b'R' ∷ 32 ∷ (out.check_message set_base args ++ crlf)

pub command-set : command set_base ≡ Command.set
unfolding command labels ◌==s◌ Validate.find_label
command-set = refl

abbrev pub set_com : Bytes → Bytes → List Bytes → Com
set_com k v more = set_extras more (
    put_arg Name.value (v ∷ [])
      (put_arg Name.key (k ∷ []) (record { base = set_base; args = []; extras = [] })))

get_com-set :
    (k v : Bytes) (more : List Bytes) → get_com set_base (k ∷ v ∷ more) ≡ ok (set_com k v more)
unfolding get_com validate validate_set
get_com-set k v more = rw command-set refl

set-set_com :
    (k v : Bytes) (more : List Bytes) (db : Db)
    → HasDuration more
    → set (set_com k v more) db ≡ ok (reply ok_line, set_effect k v more db)
unfolding set set_extras put_arg put_extra put first_at value_at ◌==s◌ set_expiry answer
    resp_encoder
set-set_com k v [] db h = refl
set-set_com k v (t ∷ []) db h = absurd h
set-set_com k v (t ∷ d ∷ more) db h = refl

set_com-base : (k v : Bytes) (more : List Bytes) → (set_com k v more).base ≡ set_base
unfolding set_extras put_arg put_extra
set_com-base k v [] = refl
set_com-base k v (t ∷ []) = refl
set_com-base k v (t ∷ d ∷ more) = refl

set_com-base-set : (k v : Bytes) (more : List Bytes) → command (set_com k v more).base ≡ Command.set
set_com-base-set k v more = ap command (set_com-base k v more) ∙ command-set

module _ (out : Outside) (i : ℕ) (node : Node) where
  handle_com-set :
      (k v : Bytes) (more : List Bytes)
      → HasDuration more
      → handle_com out i (set_com k v more) node
        ≡ ok (reply ok_line, record node { db = set_effect k v more node.db })
  unfolding handle_com handle_by handle_plain on_db
  handle_com-set k v more h =
      rw (set_com-base-set k v more) (rw (set-set_com k v more node.db h) refl)

  -- A `set` outside a transaction.
  pub request-set :
      (k v : Bytes) (more : List Bytes)
      → HasDuration more
      → (node.db.txns.states i).is_txn ≡ false
      → request out i set_base (k ∷ v ∷ more) node
        ≡ ok (sends ok_line, record node { db = set_effect k v more node.db })
  unfolding request run_checked run_com sent
  request-set k v more h plain =
      rw (get_com-set k v more) (rw (run_checked, run_com, plain, handle_com-set k v more h) refl)

  handle_com-set_panics : (k v t : Bytes) → handle_com out i (set_com k v (t ∷ [])) node ≡ panic
  unfolding handle_com handle_by handle_plain on_db set set_extras put_arg put_extra put first_at
      value_at ◌==s◌ set_expiry
  handle_com-set_panics k v t = rw (set_com-base-set k v (t ∷ [])) refl

  pub request-set_queued :
      (k v : Bytes) (more : List Bytes)
      → (node.db.txns.states i).is_txn ≡ true
      → request out i set_base (k ∷ v ∷ more) node
        ≡ ok (sends queued_line, put_txns (enqueue i (set_com k v more) node.db.txns) node)
  unfolding request run_checked run_com is_queued resp_encoder
  request-set_queued k v more e =
      rw (get_com-set k v more) (rw (run_checked, run_com, e, set_com-base-set k v more) refl)

  -- A `set` is answered, whatever its arguments are, or panics.
  pub request-set_any :
      (args : List Bytes)
      → (request out i set_base args node ≡ panic)
        ⊎ ((b : Bytes) × (node' : Node) × (request out i set_base args node ≡ ok (sends b, node'))
            × (node'.server ≡ node.server))
  unfolding request get_com validate validate_set run_checked run_com resp_encoder put_txns
  request-set_any [] = inr (err_line out [], node, rw command-set refl, refl)
  request-set_any (k ∷ []) = inr (err_line out (k ∷ []), node, rw command-set refl, refl)
  request-set_any (k ∷ v ∷ more) = elim (Bool-cases ((node.db.txns.states i).is_txn)) [
    | inl e ↦ inr (
      queued_line,
      put_txns (enqueue i (set_com k v more) node.db.txns) node,
      request-set_queued k v more e,
      refl,
    )
    | inr e ↦ plain more e
  ]
    where
      plain :
          (rest : List Bytes)
          → (node.db.txns.states i).is_txn ≡ false
          → (request out i set_base (k ∷ v ∷ rest) node ≡ panic)
            ⊎ ((b : Bytes) × (node' : Node) × (request out i set_base (k ∷ v ∷ rest) node
                  ≡ ok (sends b, node'))
                × (node'.server ≡ node.server))
      plain [] e = inr (ok_line, _, request-set k v [] tt e, refl)
      plain (t ∷ []) e = inl (
          rw (get_com-set k v (t ∷ []))
            (rw (run_checked, run_com, e, handle_com-set_panics k v t) refl))
      plain (t ∷ d ∷ rest) e = inr (ok_line, _, request-set k v (t ∷ d ∷ rest) tt e, refl)
