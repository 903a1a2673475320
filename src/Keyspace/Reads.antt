-- ===== src/Keyspace/Reads.antt =====
-- The handlers (app/handlers.go) are their reads of the arguments, in the order of `reads`, and
-- then what they do to the keyspace.
use shitty_redis.Base.{ℕ, ◌≡◌, refl, List, [], ◌∷◌}
use shitty_redis.Base.Go.{Bytes, Run, ok, err, panic, stuck, ◌>>=◌}
use shitty_redis.Command.Fields.{Com, first_at, value_at}
use shitty_redis.Command.Name
use shitty_redis.Command.Validate
use shitty_redis.Command.Reads.{reads, set_expiry}
use shitty_redis.Resp.Wire.{text, simple, bulk}
use shitty_redis.Quicklist.Ops
use shitty_redis.Keyspace.Store.{Db, Reply, find, answer}
use shitty_redis.Keyspace.Strings.{
  echo, handle_type, type_name, get, get_key, set, set_key, setup_extras, ok_text, incr, incr_key,
}
use shitty_redis.Keyspace.Lists.{
  push_key, rpush, lpush, lrange, lrange_key, llen, llen_key, lpop, lpop_key,
}
use shitty_redis.Keyspace.Blocking.{blpop, blpop_key}
use shitty_redis.Keyspace.Streams.{xadd_key, xrange_key}
use shitty_redis.Keyspace.Args.{xadd, xrange}

-- A handler on the reads that it has made.
abbrev Handled : Type 0
Handled = List Bytes → Db → Run (Reply × Db)

abbrev on_one : (Bytes → Db → Run (Reply × Db)) → Handled
on_one f (a ∷ []) db = f a db
on_one f args db = panic

abbrev on_two : (Bytes → Bytes → Db → Run (Reply × Db)) → Handled
on_two f (a ∷ b ∷ []) db = f a b db
on_two f args db = panic

abbrev on_three : (Bytes → Bytes → Bytes → Db → Run (Reply × Db)) → Handled
on_three f (a ∷ b ∷ c ∷ []) db = f a b c db
on_three f args db = panic

abbrev on_more : (Bytes → List Bytes → Db → Run (Reply × Db)) → Handled
on_more f [] db = panic
on_more f (a ∷ args) db = f a args db

abbrev on_two_more : (Bytes → Bytes → List Bytes → Db → Run (Reply × Db)) → Handled
on_two_more f (a ∷ b ∷ args) db = f a b args db
on_two_more f args db = panic

-- The reads of a command, and what a handler does behind them.
abbrev behind : Validate.Command → Com → Handled → Db → Run (Reply × Db)
behind c cmd f db = do args ← reads c cmd; f args db

module _ (cmd : Com) (db : Db) where
  one :
      (f : Bytes → Db → Run (Reply × Db)) (m : Run Bytes)
      → (do a ← m; f a db) ≡ (do args ← (do a ← m; ok (a ∷ [])); on_one f args db)
  one f (ok a) = refl
  one f err = refl
  one f panic = refl
  one f stuck = refl

  more :
      (f : Bytes → List Bytes → Db → Run (Reply × Db)) (m : Run Bytes) (rest : List Bytes)
      → (do a ← m; f a rest db) ≡ (do args ← (do a ← m; ok (a ∷ rest)); on_more f args db)
  more f (ok a) rest = refl
  more f err rest = refl
  more f panic rest = refl
  more f stuck rest = refl

  two :
      (f : Bytes → Bytes → Db → Run (Reply × Db)) (m n : Run Bytes)
      → (do a ← m; b ← n; f a b db)
        ≡ (do args ← (do a ← m; b ← n; ok (a ∷ b ∷ [])); on_two f args db)
  two f (ok a) (ok b) = refl
  two f (ok a) err = refl
  two f (ok a) panic = refl
  two f (ok a) stuck = refl
  two f err n = refl
  two f panic n = refl
  two f stuck n = refl

  two_more :
      (f : Bytes → Bytes → List Bytes → Db → Run (Reply × Db)) (m n : Run Bytes) (rest : List Bytes)
      → (do a ← m; b ← n; f a b rest db)
        ≡ (do args ← (do a ← m; b ← n; ok (a ∷ b ∷ rest)); on_two_more f args db)
  two_more f (ok a) (ok b) rest = refl
  two_more f (ok a) err rest = refl
  two_more f (ok a) panic rest = refl
  two_more f (ok a) stuck rest = refl
  two_more f err n rest = refl
  two_more f panic n rest = refl
  two_more f stuck n rest = refl

  three_behind :
      (f : Bytes → Bytes → Bytes → Db → Run (Reply × Db)) (a b : Bytes) (o : Run Bytes)
      → (do c ← o; f a b c db) ≡ (do args ← (do c ← o; ok (a ∷ b ∷ c ∷ [])); on_three f args db)
  three_behind f a b (ok c) = refl
  three_behind f a b err = refl
  three_behind f a b panic = refl
  three_behind f a b stuck = refl

  three :
      (f : Bytes → Bytes → Bytes → Db → Run (Reply × Db)) (m n o : Run Bytes)
      → (do a ← m; b ← n; c ← o; f a b c db)
        ≡ (do args ← (do a ← m; b ← n; c ← o; ok (a ∷ b ∷ c ∷ [])); on_three f args db)
  three f (ok a) (ok b) o = three_behind f a b o
  three f (ok a) err o = refl
  three f (ok a) panic o = refl
  three f (ok a) stuck o = refl
  three f err n o = refl
  three f panic n o = refl
  three f stuck n o = refl

  get-reads : get cmd db ≡ behind Validate.get cmd (on_one get_key) db
  unfolding get reads
  get-reads = one get_key (first_at Name.key cmd.args)

  incr-reads : incr cmd db ≡ behind Validate.incr cmd (on_one incr_key) db
  unfolding incr reads
  incr-reads = one incr_key (first_at Name.key cmd.args)

  llen-reads : llen cmd db ≡ behind Validate.llen cmd (on_one llen_key) db
  unfolding llen reads
  llen-reads = one llen_key (first_at Name.key cmd.args)

  rpush-reads : rpush cmd db ≡ behind Validate.rpush cmd (on_more (push_key Ops.rpush)) db
  unfolding rpush reads
  rpush-reads =
      more (push_key Ops.rpush) (first_at Name.key cmd.args) (value_at Name.values cmd.args)

  lpush-reads : lpush cmd db ≡ behind Validate.lpush cmd (on_more (push_key Ops.lpush)) db
  unfolding lpush reads
  lpush-reads =
      more (push_key Ops.lpush) (first_at Name.key cmd.args) (value_at Name.values cmd.args)

  lpop-reads : lpop cmd db ≡ behind Validate.lpop cmd (on_two lpop_key) db
  unfolding lpop reads
  lpop-reads = two lpop_key (first_at Name.key cmd.args) (first_at Name.count cmd.args)

  lrange-reads : lrange cmd db ≡ behind Validate.lrange cmd (on_three lrange_key) db
  unfolding lrange reads
  lrange-reads =
      three lrange_key (first_at Name.key cmd.args) (first_at Name.left cmd.args)
        (first_at Name.right cmd.args)

  blpop-reads : blpop cmd db ≡ behind Validate.blpop cmd (on_two (λ key timeout. blpop_key key)) db
  unfolding blpop reads
  blpop-reads =
      two (λ key timeout. blpop_key key) (first_at Name.key cmd.args)
        (first_at Name.timeout cmd.args)

  xadd-reads :
      (now : ℕ) → xadd now cmd db ≡ behind Validate.xadd cmd (on_two_more (xadd_key now)) db
  unfolding xadd reads
  xadd-reads now =
      two_more (xadd_key now) (first_at Name.key cmd.args) (first_at Name.id cmd.args)
        (value_at Name.data_name cmd.args)

  xrange-reads :
      (fuel : ℕ) → xrange fuel cmd db ≡ behind Validate.xrange cmd (on_three (xrange_key fuel)) db
  unfolding xrange reads
  xrange-reads fuel =
      three (xrange_key fuel) (first_at Name.key cmd.args) (first_at Name.low cmd.args)
        (first_at Name.high cmd.args)

  echo-reads : echo cmd db ≡ behind Validate.echo cmd (on_one (λ this. answer (text this) bulk)) db
  unfolding echo reads
  echo-reads = one (λ this. answer (text this) bulk) (first_at Name.echothis cmd.args)

  handle_type-reads :
      handle_type cmd db
      ≡ behind Validate.type_of cmd
          (on_one (λ key db. answer (text (type_name (find key db))) simple db))
          db
  unfolding handle_type reads
  handle_type-reads =
      one (λ key db. answer (text (type_name (find key db))) simple db) (first_at Name.key cmd.args)

  abbrev set_reply : Bytes → Bytes → List Bytes → Db → Run (Reply × Db)
  set_reply key val expiry db =
      answer (text ok_text) simple (setup_extras key expiry (set_key key val db))

  set_behind :
      (key val : Bytes) (o : Run (List Bytes))
      → (do expiry ← o; set_reply key val expiry db)
        ≡ (do args ← (do expiry ← o; ok (key ∷ val ∷ expiry)); on_two_more set_reply args db)
  set_behind key val (ok expiry) = refl
  set_behind key val err = refl
  set_behind key val panic = refl
  set_behind key val stuck = refl

  set_parts :
      (m n : Run Bytes) (o : Run (List Bytes))
      → (do key ← m; val ← n; expiry ← o; set_reply key val expiry db) ≡ (do
        args ← (do key ← m; val ← n; expiry ← o; ok (key ∷ val ∷ expiry))
        on_two_more set_reply args db)
  set_parts (ok key) (ok val) o = set_behind key val o
  set_parts (ok key) err o = refl
  set_parts (ok key) panic o = refl
  set_parts (ok key) stuck o = refl
  set_parts err n o = refl
  set_parts panic n o = refl
  set_parts stuck n o = refl

  set-reads : set cmd db ≡ behind Validate.set cmd (on_two_more set_reply) db
  unfolding set reads
  set-reads =
      set_parts (first_at Name.key cmd.args) (first_at Name.value cmd.args) (set_expiry cmd.extras)
