-- ===== src/Command/Name.antt =====
-- app/com.go: the keys of the two maps, and the words it compares arguments with.
use shitty_redis.Base.{[], ◌∷◌}
use shitty_redis.Base.Go.{Bytes}

abbrev pub echothis : Bytes
echothis = b'e' ∷ b'c' ∷ b'h' ∷ b'o' ∷ b't' ∷ b'h' ∷ b'i' ∷ b's' ∷ []

abbrev pub key : Bytes
key = b'k' ∷ b'e' ∷ b'y' ∷ []

abbrev pub value : Bytes
value = b'v' ∷ b'a' ∷ b'l' ∷ b'u' ∷ b'e' ∷ []

abbrev pub values : Bytes
values = b'v' ∷ b'a' ∷ b'l' ∷ b'u' ∷ b'e' ∷ b's' ∷ []

abbrev pub left : Bytes
left = b'l' ∷ b'e' ∷ b'f' ∷ b't' ∷ []

abbrev pub right : Bytes
right = b'r' ∷ b'i' ∷ b'g' ∷ b'h' ∷ b't' ∷ []

abbrev pub count : Bytes
count = b'c' ∷ b'o' ∷ b'u' ∷ b'n' ∷ b't' ∷ []

abbrev pub timeout : Bytes
timeout = b't' ∷ b'i' ∷ b'm' ∷ b'e' ∷ b'o' ∷ b'u' ∷ b't' ∷ []

abbrev pub id : Bytes
id = b'i' ∷ b'd' ∷ []

abbrev pub data_name : Bytes
data_name = b'd' ∷ b'a' ∷ b't' ∷ b'a' ∷ []

abbrev pub low : Bytes
low = b'l' ∷ b'o' ∷ b'w' ∷ []

abbrev pub high : Bytes
high = b'h' ∷ b'i' ∷ b'g' ∷ b'h' ∷ []

abbrev pub keys : Bytes
keys = b'k' ∷ b'e' ∷ b'y' ∷ b's' ∷ []

abbrev pub ids : Bytes
ids = b'i' ∷ b'd' ∷ b's' ∷ []

abbrev pub repl_count : Bytes
repl_count = b'r' ∷ b'e' ∷ b'p' ∷ b'l' ∷ b'C' ∷ b'o' ∷ b'u' ∷ b'n' ∷ b't' ∷ []

abbrev pub expiry_type : Bytes
expiry_type = b'e' ∷ b'x' ∷ b'p' ∷ b'i' ∷ b'r' ∷ b'y' ∷ b'T' ∷ b'y' ∷ b'p' ∷ b'e' ∷ []

abbrev pub duration : Bytes
duration = b'd' ∷ b'u' ∷ b'r' ∷ b'a' ∷ b't' ∷ b'i' ∷ b'o' ∷ b'n' ∷ []

abbrev pub replicate : Bytes
replicate = b'r' ∷ b'e' ∷ b'p' ∷ b'l' ∷ b'i' ∷ b'c' ∷ b'a' ∷ b't' ∷ b'e' ∷ []

abbrev pub ack : Bytes
ack = b'a' ∷ b'c' ∷ b'k' ∷ []

abbrev pub streams : Bytes
streams = b's' ∷ b't' ∷ b'r' ∷ b'e' ∷ b'a' ∷ b'm' ∷ b's' ∷ []

abbrev pub getack : Bytes
getack = b'g' ∷ b'e' ∷ b't' ∷ b'a' ∷ b'c' ∷ b'k' ∷ []

abbrev pub block : Bytes
block = b'b' ∷ b'l' ∷ b'o' ∷ b'c' ∷ b'k' ∷ []
