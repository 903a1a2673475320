-- ===== src/Server/Config.antt =====
-- app/server/config.go. The two flags are what `flag.Parse` leaves in them.
use shitty_redis.Base.{List, [], ◌∷◌, ◌==◌, if◌then◌else◌}
use shitty_redis.Base.Go.{Bytes, Run, ok, err}
use shitty_redis.Stream.Ids.{prepend}

pub data Role : Type 0 where
  master : Role
  replica : Role

unfoldable pub role_name : Role → Bytes
role_name master = b'm' ∷ b'a' ∷ b's' ∷ b't' ∷ b'e' ∷ b'r' ∷ []
role_name replica = b's' ∷ b'l' ∷ b'a' ∷ b'v' ∷ b'e' ∷ []

pub record Config : Type 0 where
  pub port : Bytes
  pub role : Role
  pub master_host : Bytes
  pub master_port : Bytes

-- `strings.Split(s, " ")`; it has one part at least.
unfoldable pub split_space : Bytes → List Bytes
split_space [] = [] ∷ []
split_space (c ∷ cs) = let parts = split_space cs in if c == 32 then [] ∷ parts else prepend c parts

-- The host and the port of the master, if there are both.
unfoldable pub set_master : List Bytes → Config → Run Config
set_master (h ∷ p ∷ more) cfg = ok (record cfg { master_host = h; master_port = p })
set_master parts cfg = err

unfoldable pub repl_cfg : Bytes → Config → Run Config
repl_cfg mc cfg = set_master (split_space mc) cfg

-- An error of `ReplCfg` is not looked at, and leaves host and port empty.
unfoldable pub or_unset : Config → Run Config → Config
or_unset cfg (ok cfg') = cfg'
or_unset cfg other = cfg

unfoldable pub with_replicaof : Bytes → Config → Config
with_replicaof [] cfg = cfg
with_replicaof (c ∷ cs) cfg =
    let cfg' = record cfg { role = replica } in or_unset cfg' (repl_cfg (c ∷ cs) cfg')

unfoldable pub extract_config : Bytes → Bytes → Config
extract_config port replicaof =
    with_replicaof replicaof
      (record { port = port; role = master; master_host = []; master_port = [] })
