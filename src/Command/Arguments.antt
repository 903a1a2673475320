-- ===== src/Command/Arguments.antt =====
-- app/com.go and app/handlers.go: how the checks on a command's arguments and the handler's reads
-- fit together.
use shitty_redis.Base.{
  ℕ, ◌≤◌, ◌<◌, ◌≡◌, refl, arith, List, [], ◌∷◌, ◌++◌, length, take, Bool-cases, inl, inr, ◌∙◌, ap,
}
use shitty_redis.Base.Go.{Bytes, Run, ok, err, panic, ◌>>=◌}
use shitty_redis.Command.Fields.{◌==s◌, Com, put, put_arg, put_extra, first_at, value_at}
use shitty_redis.Command.Validate.{
  Command, command, get_com, validate, ping, echo, get, set, rpush, lrange, lpush, llen, lpop,
  blpop, type_of, xadd, xrange, xread, incr, multi, exec, discard, watch, unwatch, info, replconf,
  psync, wait, other, validate_echo, validate_key, validate_set, set_extras, validate_push,
  validate_lrange, validate_lpop, validate_blpop, validate_xadd, validate_xrange, validate_watch,
  validate_info, validate_replconf, validate_wait,
}
use shitty_redis.Command.Name
use shitty_redis.Resp.Wire.{to_lower}
use shitty_redis.Command.Reads.{checked_reads, reads, set_expiry}

-- How many arguments a command must have; `xread` counts otherwise.
abbrev pub needed : Command → ℕ
needed echo = 1
needed get = 1
needed set = 2
needed rpush = 2
needed lrange = 3
needed lpush = 2
needed llen = 1
needed lpop = 1
needed blpop = 2
needed type_of = 1
needed xadd = 2
needed xrange = 3
needed incr = 1
needed watch = 1
needed wait = 2
needed c = 0

-- The arguments that the handler works with.
abbrev pub expected : Command → List Bytes → List Bytes
expected echo args = take 1 args
expected get args = take 1 args
expected set args = take 4 args
expected rpush args = args
expected lrange args = take 3 args
expected lpush args = args
expected llen args = take 1 args
expected lpop args = take 2 (args ++ ((b'1' ∷ []) ∷ []))
expected blpop args = take 2 args
expected type_of args = take 1 args
expected xadd args = args
expected xrange args = take 3 args
expected incr args = take 1 args
expected watch args = args
expected c args = []

-- A `set` with an expiry type and no duration.
abbrev pub NoDuration : Command → List Bytes → Type 0
NoDuration set args = length args ≡ 3
NoDuration c args = ⊥

abbrev fresh : Bytes → Com
fresh base = record { base = base; args = []; extras = [] }

abbrev run : Command → Bytes → List Bytes → Run (List Bytes)
run c base args = validate c args (fresh base) >>= λ cmd. reads (command cmd.base) cmd

run-checked :
    (base : Bytes) (args : List Bytes) → checked_reads base args ≡ run (command base) base args
unfolding checked_reads get_com
run-checked base args = refl

-- A command with the arguments it needs.
module _ (base : Bytes) where
  run-replconf : (args : List Bytes) → command base ≡ replconf → run replconf base args ≡ ok []
  unfolding validate validate_replconf reads put_extra
  run-replconf [] e = rw e refl
  run-replconf (a ∷ more) e = elim (Bool-cases (to_lower a ==s Name.getack)) [
    | inl b ↦ rw b (rw e refl)
    | inr b ↦ rw b (rw e refl)
  ]

  run_full :
      (c : Command) (args : List Bytes)
      → command base ≡ c
      → ¬ (c ≡ xread)
      → ¬ NoDuration c args
      → needed c ≤ length args
      → run c base args ≡ ok (expected c args)
  unfolding validate validate_echo validate_key validate_watch validate_set set_extras validate_push
      validate_lrange validate_lpop validate_blpop validate_xadd validate_xrange validate_info
      validate_wait put_arg put_extra put reads set_expiry first_at value_at ◌==s◌
  run_full echo [] e x n h = absurd (omega arith)
  run_full echo (a ∷ more) e x n h = rw e refl
  run_full get [] e x n h = absurd (omega arith)
  run_full get (a ∷ more) e x n h = rw e refl
  run_full llen [] e x n h = absurd (omega arith)
  run_full llen (a ∷ more) e x n h = rw e refl
  run_full type_of [] e x n h = absurd (omega arith)
  run_full type_of (a ∷ more) e x n h = rw e refl
  run_full incr [] e x n h = absurd (omega arith)
  run_full incr (a ∷ more) e x n h = rw e refl
  run_full watch [] e x n h = absurd (omega arith)
  run_full watch (a ∷ more) e x n h = rw e refl
  run_full rpush [] e x n h = absurd (omega arith)
  run_full rpush (a ∷ []) e x n h = absurd (omega arith)
  run_full rpush (a ∷ b ∷ more) e x n h = rw e refl
  run_full lpush [] e x n h = absurd (omega arith)
  run_full lpush (a ∷ []) e x n h = absurd (omega arith)
  run_full lpush (a ∷ b ∷ more) e x n h = rw e refl
  run_full blpop [] e x n h = absurd (omega arith)
  run_full blpop (a ∷ []) e x n h = absurd (omega arith)
  run_full blpop (a ∷ b ∷ more) e x n h = rw e refl
  run_full xadd [] e x n h = absurd (omega arith)
  run_full xadd (a ∷ []) e x n h = absurd (omega arith)
  run_full xadd (a ∷ b ∷ more) e x n h = rw e refl
  run_full lrange [] e x n h = absurd (omega arith)
  run_full lrange (a ∷ []) e x n h = absurd (omega arith)
  run_full lrange (a ∷ b ∷ []) e x n h = absurd (omega arith)
  run_full lrange (a ∷ b ∷ d ∷ more) e x n h = rw e refl
  run_full xrange [] e x n h = absurd (omega arith)
  run_full xrange (a ∷ []) e x n h = absurd (omega arith)
  run_full xrange (a ∷ b ∷ []) e x n h = absurd (omega arith)
  run_full xrange (a ∷ b ∷ d ∷ more) e x n h = rw e refl
  run_full lpop [] e x n h = absurd (omega arith)
  run_full lpop (a ∷ []) e x n h = rw e refl
  run_full lpop (a ∷ b ∷ more) e x n h = rw e refl
  run_full set [] e x n h = absurd (omega arith)
  run_full set (k ∷ []) e x n h = absurd (omega arith)
  run_full set (k ∷ v ∷ []) e x n h = rw e refl
  run_full set (k ∷ v ∷ t ∷ []) e x n h = absurd (n refl)
  run_full set (k ∷ v ∷ t ∷ d ∷ more) e x n h = rw e refl
  run_full xread args e x n h = absurd (x refl)
  run_full wait [] e x n h = absurd (omega arith)
  run_full wait (a ∷ []) e x n h = absurd (omega arith)
  run_full wait (a ∷ b ∷ more) e x n h = rw e refl
  run_full info [] e x n h = rw e refl
  run_full info (a ∷ more) e x n h = rw e refl
  run_full replconf args e x n h = run-replconf args e
  run_full ping args e x n h = rw e refl
  run_full multi args e x n h = rw e refl
  run_full exec args e x n h = rw e refl
  run_full discard args e x n h = rw e refl
  run_full unwatch args e x n h = rw e refl
  run_full psync args e x n h = rw e refl
  run_full other args e x n h = rw e refl

  run-set_panics :
      (args : List Bytes) → command base ≡ set → length args ≡ 3 → run set base args ≡ panic
  unfolding validate validate_set set_extras put_arg put_extra put reads set_expiry first_at
      value_at ◌==s◌
  run-set_panics (k ∷ v ∷ t ∷ []) e h = rw e refl
  run-set_panics [] e h = absurd (omega arith)
  run-set_panics (k ∷ []) e h = absurd (omega arith)
  run-set_panics (k ∷ v ∷ []) e h = absurd (omega arith)
  run-set_panics (k ∷ v ∷ t ∷ d ∷ more) e h = absurd (omega arith)

  run_short : (c : Command) (args : List Bytes) → length args < needed c → run c base args ≡ err
  unfolding validate validate_echo validate_key validate_watch validate_set set_extras validate_push
      validate_lrange validate_lpop validate_blpop validate_xadd validate_xrange validate_info
      validate_wait put_arg put_extra put reads set_expiry first_at value_at ◌==s◌
  run_short echo [] h = refl
  run_short echo (a ∷ more) h = absurd (omega arith)
  run_short get [] h = refl
  run_short get (a ∷ more) h = absurd (omega arith)
  run_short llen [] h = refl
  run_short llen (a ∷ more) h = absurd (omega arith)
  run_short type_of [] h = refl
  run_short type_of (a ∷ more) h = absurd (omega arith)
  run_short incr [] h = refl
  run_short incr (a ∷ more) h = absurd (omega arith)
  run_short watch [] h = refl
  run_short watch (a ∷ more) h = absurd (omega arith)
  run_short lpop [] h = refl
  run_short lpop (a ∷ more) h = absurd (omega arith)
  run_short rpush [] h = refl
  run_short rpush (a ∷ []) h = refl
  run_short rpush (a ∷ b ∷ more) h = absurd (omega arith)
  run_short lpush [] h = refl
  run_short lpush (a ∷ []) h = refl
  run_short lpush (a ∷ b ∷ more) h = absurd (omega arith)
  run_short blpop [] h = refl
  run_short blpop (a ∷ []) h = refl
  run_short blpop (a ∷ b ∷ more) h = absurd (omega arith)
  run_short xadd [] h = refl
  run_short xadd (a ∷ []) h = refl
  run_short xadd (a ∷ b ∷ more) h = absurd (omega arith)
  run_short set [] h = refl
  run_short set (a ∷ []) h = refl
  run_short set (a ∷ b ∷ more) h = absurd (omega arith)
  run_short wait [] h = refl
  run_short wait (a ∷ []) h = refl
  run_short wait (a ∷ b ∷ more) h = absurd (omega arith)
  run_short lrange [] h = refl
  run_short lrange (a ∷ []) h = refl
  run_short lrange (a ∷ b ∷ []) h = refl
  run_short lrange (a ∷ b ∷ d ∷ more) h = absurd (omega arith)
  run_short xrange [] h = refl
  run_short xrange (a ∷ []) h = refl
  run_short xrange (a ∷ b ∷ []) h = refl
  run_short xrange (a ∷ b ∷ d ∷ more) h = absurd (omega arith)
  run_short ping args h = absurd (omega arith)
  run_short multi args h = absurd (omega arith)
  run_short exec args h = absurd (omega arith)
  run_short discard args h = absurd (omega arith)
  run_short unwatch args h = absurd (omega arith)
  run_short psync args h = absurd (omega arith)
  run_short other args h = absurd (omega arith)
  run_short xread args h = absurd (omega arith)
  run_short info args h = absurd (omega arith)
  run_short replconf args h = absurd (omega arith)

-- For a command other than `xread`: with fewer arguments than it needs the check is an error;
-- with enough, unless it is a `set` with exactly three, the handler reads the arguments by
-- position, all of those that it takes, with a count of 1 for an `lpop` that names none.
pub checked_reads_lem :
    (base : Bytes) (args : List Bytes)
    → ¬ (command base ≡ xread)
    → (length args < needed (command base) → checked_reads base args ≡ err)
      × (needed (command base) ≤ length args
          → ¬ NoDuration (command base) args
          → checked_reads base args ≡ ok (expected (command base) args))
checked_reads_lem base args x = (
  λ h. run-checked base args ∙ run_short base (command base) args h,
  λ h n. run-checked base args ∙ run_full base (command base) args refl x n h,
)

-- A `set` with exactly three arguments passes its check and panics in its handler.
pub checked_reads_panics :
    (base : Bytes) (args : List Bytes)
    → command base ≡ set
    → length args ≡ 3
    → checked_reads base args ≡ panic
checked_reads_panics base args e h =
    run-checked base args ∙ ap (λ c. run c base args) e ∙ run-set_panics base args e h
