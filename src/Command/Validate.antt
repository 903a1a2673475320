-- ===== src/Command/Validate.antt =====
-- app/com.go: `GetCom` and the checks it dispatches to.
use shitty_redis.Base.{
  ℕ, zero, suc, ◌/◌, ◌%◌, List, [], ◌∷◌, Option, none, some, ◌==◌, if◌then◌else◌, length, take,
  drop,
}
use mathlib.Core.Option
use shitty_redis.Base.Go.{Bytes, Run, ok, err, panic, ◌>>=◌}
use shitty_redis.Resp.Wire.{to_lower}
use shitty_redis.Command.Fields.{◌==s◌, Com, Fields, put, put_arg, put_extra}
use shitty_redis.Command.Name

-- The cases of the switch on the base.
pub data Command : Type 0 where
  ping : Command
  echo : Command
  get : Command
  set : Command
  rpush : Command
  lrange : Command
  lpush : Command
  llen : Command
  lpop : Command
  blpop : Command
  type_of : Command
  xadd : Command
  xrange : Command
  xread : Command
  incr : Command
  multi : Command
  exec : Command
  discard : Command
  watch : Command
  unwatch : Command
  info : Command
  replconf : Command
  psync : Command
  wait : Command
  other : Command

-- The labels of the switch.
unfoldable pub labels : List (Bytes × Command)
labels =
    (b'p' ∷ b'i' ∷ b'n' ∷ b'g' ∷ [], ping)
    ∷ (b'e' ∷ b'c' ∷ b'h' ∷ b'o' ∷ [], echo)
    ∷ (b'g' ∷ b'e' ∷ b't' ∷ [], get)
    ∷ (b's' ∷ b'e' ∷ b't' ∷ [], set)
    ∷ (b'r' ∷ b'p' ∷ b'u' ∷ b's' ∷ b'h' ∷ [], rpush)
    ∷ (b'l' ∷ b'r' ∷ b'a' ∷ b'n' ∷ b'g' ∷ b'e' ∷ [], lrange)
    ∷ (b'l' ∷ b'p' ∷ b'u' ∷ b's' ∷ b'h' ∷ [], lpush)
    ∷ (b'l' ∷ b'l' ∷ b'e' ∷ b'n' ∷ [], llen)
    ∷ (b'l' ∷ b'p' ∷ b'o' ∷ b'p' ∷ [], lpop)
    ∷ (b'b' ∷ b'l' ∷ b'p' ∷ b'o' ∷ b'p' ∷ [], blpop)
    ∷ (b't' ∷ b'y' ∷ b'p' ∷ b'e' ∷ [], type_of)
    ∷ (b'x' ∷ b'a' ∷ b'd' ∷ b'd' ∷ [], xadd)
    ∷ (b'x' ∷ b'r' ∷ b'a' ∷ b'n' ∷ b'g' ∷ b'e' ∷ [], xrange)
    ∷ (b'x' ∷ b'r' ∷ b'e' ∷ b'a' ∷ b'd' ∷ [], xread)
    ∷ (b'i' ∷ b'n' ∷ b'c' ∷ b'r' ∷ [], incr)
    ∷ (b'm' ∷ b'u' ∷ b'l' ∷ b't' ∷ b'i' ∷ [], multi)
    ∷ (b'e' ∷ b'x' ∷ b'e' ∷ b'c' ∷ [], exec)
    ∷ (b'd' ∷ b'i' ∷ b's' ∷ b'c' ∷ b'a' ∷ b'r' ∷ b'd' ∷ [], discard)
    ∷ (b'w' ∷ b'a' ∷ b't' ∷ b'c' ∷ b'h' ∷ [], watch)
    ∷ (b'u' ∷ b'n' ∷ b'w' ∷ b'a' ∷ b't' ∷ b'c' ∷ b'h' ∷ [], unwatch)
    ∷ (b'i' ∷ b'n' ∷ b'f' ∷ b'o' ∷ [], info)
    ∷ (b'r' ∷ b'e' ∷ b'p' ∷ b'l' ∷ b'c' ∷ b'o' ∷ b'n' ∷ b'f' ∷ [], replconf)
    ∷ (b'p' ∷ b's' ∷ b'y' ∷ b'n' ∷ b'c' ∷ [], psync)
    ∷ (b'w' ∷ b'a' ∷ b'i' ∷ b't' ∷ [], wait)
    ∷ []

unfoldable pub find_label : Bytes → List (Bytes × Command) → Command
find_label base [] = other
find_label base ((name, c) ∷ rest) =
    let later = find_label base rest in if base ==s name then c else later

unfoldable pub command : Bytes → Command
command base = find_label base labels

unfoldable pub validate_echo : List Bytes → Com → Run Com
validate_echo [] cmd = err
validate_echo (a ∷ more) cmd = ok (put_arg Name.echothis (a ∷ []) cmd)

-- `ValidateGet`, `ValidateLLen`, `ValidateType` and `ValidateIncr`, which differ in the message.
unfoldable pub validate_key : List Bytes → Com → Run Com
validate_key [] cmd = err
validate_key (k ∷ more) cmd = ok (put_arg Name.key (k ∷ []) cmd)

abbrev validate_llen : List Bytes → Com → Run Com
validate_llen = validate_key

abbrev validate_type : List Bytes → Com → Run Com
validate_type = validate_key

abbrev validate_incr : List Bytes → Com → Run Com
validate_incr = validate_key

unfoldable pub set_extras : List Bytes → Com → Com
set_extras [] cmd = cmd
set_extras (t ∷ []) cmd = put_extra Name.expiry_type (t ∷ []) cmd
set_extras (t ∷ d ∷ more) cmd =
    put_extra Name.duration (d ∷ []) (put_extra Name.expiry_type (t ∷ []) cmd)

unfoldable pub validate_set : List Bytes → Com → Run Com
validate_set [] cmd = err
validate_set (k ∷ []) cmd = err
validate_set (k ∷ v ∷ more) cmd =
    ok (set_extras more (put_arg Name.value (v ∷ []) (put_arg Name.key (k ∷ []) cmd)))

-- `ValidateRPush` and `ValidateLPush`, which differ in the message.
unfoldable pub validate_push : List Bytes → Com → Run Com
validate_push [] cmd = err
validate_push (k ∷ []) cmd = err
validate_push (k ∷ v ∷ vs) cmd = ok (put_arg Name.values (v ∷ vs) (put_arg Name.key (k ∷ []) cmd))

abbrev validate_lpush : List Bytes → Com → Run Com
validate_lpush = validate_push

unfoldable pub validate_lrange : List Bytes → Com → Run Com
validate_lrange (k ∷ l ∷ r ∷ more) cmd =
    ok (put_arg Name.right (r ∷ []) (put_arg Name.left (l ∷ []) (put_arg Name.key (k ∷ []) cmd)))
validate_lrange more cmd = err

unfoldable pub validate_lpop : List Bytes → Com → Run Com
validate_lpop [] cmd = err
validate_lpop (k ∷ []) cmd =
    ok (put_arg Name.count ((b'1' ∷ []) ∷ []) (put_arg Name.key (k ∷ []) cmd))
validate_lpop (k ∷ c ∷ more) cmd = ok (put_arg Name.count (c ∷ []) (put_arg Name.key (k ∷ []) cmd))

-- The timeout is set to 0 before the check for its argument.
unfoldable pub validate_blpop : List Bytes → Com → Run Com
validate_blpop [] cmd = err
validate_blpop (k ∷ []) cmd = err
validate_blpop (k ∷ t ∷ more) cmd = ok (
    put_arg Name.timeout (t ∷ [])
      (put_arg Name.timeout ((b'0' ∷ []) ∷ []) (put_arg Name.key (k ∷ []) cmd)))

unfoldable pub validate_xadd : List Bytes → Com → Run Com
validate_xadd [] cmd = err
validate_xadd (k ∷ []) cmd = err
validate_xadd (k ∷ i ∷ entries) cmd =
    ok (put_arg Name.data_name entries (put_arg Name.id (i ∷ []) (put_arg Name.key (k ∷ []) cmd)))

unfoldable pub validate_xrange : List Bytes → Com → Run Com
validate_xrange (k ∷ l ∷ h ∷ more) cmd =
    ok (put_arg Name.high (h ∷ []) (put_arg Name.low (l ∷ []) (put_arg Name.key (k ∷ []) cmd)))
validate_xrange more cmd = err

-- `slices.Index` on the arguments in lower case.
unfoldable pub index_of : Bytes → List Bytes → Option ℕ
index_of target [] = none
index_of target (a ∷ more) =
    let later = Option.map suc (index_of target more) in
    if to_lower a ==s target then some 0 else later

-- The loop that assigns the keys and the ids once for each required argument.
unfoldable pub assign_reqs : ℕ → List Bytes → Com → Com
assign_reqs zero reqs cmd = cmd
assign_reqs (suc n) reqs cmd =
    let c = length reqs / 2 in
    assign_reqs n reqs (put_arg Name.ids (drop c reqs) (put_arg Name.keys (take c reqs) cmd))

-- The loop over the options, two at a time; an option with no value is an index out of range.
unfoldable pub xread_options : List Bytes → Fields → Run Fields
xread_options [] extras = ok extras
xread_options (opt ∷ []) extras = panic
xread_options (opt ∷ val ∷ more) extras = xread_options more (put (to_lower opt) (val ∷ []) extras)

unfoldable pub xread_parts : List Bytes → List Bytes → Com → Run Com
xread_parts nonreqs reqs cmd =
    let cmd' = assign_reqs (length reqs) reqs cmd in
    let options = xread_options nonreqs cmd'.extras in
    let cmd'' = options >>= λ extras. ok (record cmd' { extras = extras }) in
    if length reqs % 2 == 0 then cmd'' else err

unfoldable pub xread_at : Option ℕ → List Bytes → Com → Run Com
xread_at none args cmd = err
xread_at (some idx) args cmd = xread_parts (take idx args) (drop (suc idx) args) cmd

unfoldable pub validate_xread : List Bytes → Com → Run Com
validate_xread args cmd = xread_at (index_of Name.streams args) args cmd

unfoldable pub validate_watch : List Bytes → Com → Run Com
validate_watch [] cmd = err
validate_watch (k ∷ ks) cmd = ok (put_arg Name.keys (k ∷ ks) cmd)

unfoldable pub validate_info : List Bytes → Com → Run Com
validate_info [] cmd = ok cmd
validate_info (a ∷ more) cmd = ok (put_extra Name.replicate ((b'_' ∷ []) ∷ []) cmd)

unfoldable pub validate_replconf : List Bytes → Com → Run Com
validate_replconf [] cmd = ok cmd
validate_replconf (a ∷ more) cmd =
    ok (if to_lower a ==s Name.getack then put_extra Name.ack [] cmd else cmd)

unfoldable pub validate_wait : List Bytes → Com → Run Com
validate_wait [] cmd = err
validate_wait (n ∷ []) cmd = err
validate_wait (n ∷ t ∷ more) cmd =
    ok (put_arg Name.timeout (t ∷ []) (put_arg Name.repl_count (n ∷ []) cmd))

-- `ValidateMulti` and the others that only return nil.
abbrev validate_nothing : List Bytes → Com → Run Com
validate_nothing args cmd = ok cmd

-- The switch of `GetCom`. The checks that do nothing stand in its last line.
unfoldable pub validate : Command → List Bytes → Com → Run Com
validate echo = validate_echo
validate get = validate_key
validate set = validate_set
validate rpush = validate_push
validate lrange = validate_lrange
validate lpush = validate_lpush
validate llen = validate_llen
validate lpop = validate_lpop
validate blpop = validate_blpop
validate type_of = validate_type
validate xadd = validate_xadd
validate xrange = validate_xrange
validate xread = validate_xread
validate incr = validate_incr
validate watch = validate_watch
validate info = validate_info
validate replconf = validate_replconf
validate wait = validate_wait
validate c = validate_nothing

unfoldable pub get_com : Bytes → List Bytes → Run Com
get_com base args = validate (command base) args (record { base = base; args = []; extras = [] })
