-- ===== src/Resp/Wire.antt =====
-- `RESPEncoder` and `RESPDecoder` (app/resp/resp.go). The reader is the list of the bytes that are
-- still to come; `TrimSpace` and `ToLower` are written for ASCII.
use shitty_redis.Base.{
  ℕ, zero, suc, ◌+◌, Bool, true, false, ◌&&◌, ◌||◌, List, [], ◌∷◌, ◌++◌, Option, none, some, leb,
  ◌==◌, if◌then◌else◌, map, length,
}
use shitty_redis.Base.Go.{Bytes, Run, ok, err, panic, ◌>>=◌}
use shitty_redis.Base.Int.{ℤ, pos, negsuc, pos_part}
use shitty_redis.Strconv.{parse_int, format_int, format_uint}

pub data EncodeType : Type 0 where
  simple null_bulk bulk int bulk_list null_bulk_list simple_err array : EncodeType

-- The dynamic value that is handed to the encoder.
pub data Any : Type 0 where
  text : Bytes → Any
  number : ℤ → Any
  texts : List Bytes → Any
  nil : Any

abbrev pub crlf : Bytes
crlf = 13 ∷ 10 ∷ []

unfoldable pub bulk_string : Bytes → Bytes
bulk_string v = b'$' ∷ (format_uint (length v) ++ (crlf ++ (v ++ crlf)))

unfoldable pub bulk_strings : List Bytes → Bytes
bulk_strings [] = []
bulk_strings (v ∷ vs) = bulk_string v ++ bulk_strings vs

unfoldable pub joined : List Bytes → Bytes
joined [] = []
joined (v ∷ vs) = v ++ joined vs

unfoldable pub list_header : List Bytes → Bytes
list_header vs = b'*' ∷ (format_uint (length vs) ++ crlf)

-- A value of the wrong type panics.
unfoldable pub resp_encoder : Any → EncodeType → Run Bytes
resp_encoder (text v) simple = ok (b'+' ∷ (v ++ crlf))
resp_encoder (number v) int = ok (b':' ∷ (format_int v ++ crlf))
resp_encoder v null_bulk_list = ok (b'*' ∷ b'-' ∷ b'1' ∷ crlf)
resp_encoder (texts vs) bulk_list = ok (list_header vs ++ bulk_strings vs)
resp_encoder v null_bulk = ok (b'$' ∷ b'-' ∷ b'1' ∷ crlf)
resp_encoder (text v) bulk = ok (bulk_string v)
resp_encoder (text v) simple_err = ok (b'-' ∷ b'E' ∷ b'R' ∷ b'R' ∷ 32 ∷ (v ++ crlf))
resp_encoder (texts vs) array = ok (list_header vs ++ joined vs)
resp_encoder v t = panic

-- `ReadString('\n')`: the line with its end.
unfoldable pub read_string : Bytes → Run (Bytes × Bytes)
read_string [] = err
read_string (c ∷ cs) =
    let more : Run (Bytes × Bytes) = read_string cs >>= λ (line, rest). ok (c ∷ line, rest) in
    if c == 10 then ok (c ∷ [], cs) else more

-- `io.ReadFull` into `n` bytes.
unfoldable pub read_full : ℕ → Bytes → Run (Bytes × Bytes)
read_full zero bs = ok ([], bs)
read_full (suc n) [] = err
read_full (suc n) (b ∷ bs) = do (buf, rest) ← read_full n bs; ok (b ∷ buf, rest)

unfoldable pub is_space : ℕ → Bool
is_space c = leb 9 c && leb c 13 || c == 32

unfoldable pub trim_left : Bytes → Bytes
trim_left [] = []
trim_left (c ∷ cs) = let rest = trim_left cs in if is_space c then rest else c ∷ cs

unfoldable pub trim_onto : ℕ → Bytes → Bytes
trim_onto c [] = if is_space c then [] else c ∷ []
trim_onto c (d ∷ ds) = c ∷ d ∷ ds

unfoldable pub trim_right : Bytes → Bytes
trim_right [] = []
trim_right (c ∷ cs) = trim_onto c (trim_right cs)

unfoldable pub trim_space : Bytes → Bytes
trim_space bs = trim_right (trim_left bs)

unfoldable pub lower_byte : ℕ → ℕ
lower_byte c = if leb b'A' c && leb c b'Z' then c + 32 else c

unfoldable pub to_lower : Bytes → Bytes
to_lower = map lower_byte

unfoldable pub or_err : Option ℤ → Run ℤ
or_err none = err
or_err (some n) = ok n

-- A header line: the marker and the number behind it.
unfoldable pub header_number : ℕ → Bytes → Run ℤ
header_number marker [] = err
header_number marker (c ∷ cs) = if c == marker then or_err (parse_int cs) else err

-- One element after its header: base, args, byte count and what is left to read. `make` with a
-- negative length panics.
unfoldable pub read_bulk :
    Bool → Bytes → List Bytes → ℕ → Bytes → ℤ → Run (Bytes × List Bytes × ℕ × Bytes)
read_bulk first base args count bs (pos len) = do
  (buf, rest) ← read_full len bs
  (trailer, rest') ← read_full 2 rest
  let count' = count + (len + length trailer)
  ok (if first then (buf, args, count', rest') else (base, args ++ (buf ∷ []), count', rest'))
read_bulk first base args count bs (negsuc zero) = ok (base, args ++ ([] ∷ []), count, bs)
read_bulk first base args count bs (negsuc (suc n)) = panic

-- The loop over the elements; `first` is `i == 0`.
unfoldable pub decode_loop :
    ℕ → Bool → Bytes → List Bytes → ℕ → Bytes → Run (Bytes × List Bytes × ℕ × Bytes)
decode_loop zero first base args count bs = ok (base, args, count, bs)
decode_loop (suc n) first base args count bs = do
  (line, rest) ← read_string bs
  len ← header_number b'$' (trim_space line)
  (base', args', count', rest') ← read_bulk first base args (count + length line) rest len
  decode_loop n false base' args' count' rest'

-- The command, its arguments, the byte count, and the bytes behind the command.
unfoldable pub resp_decoder : Bytes → Run (Bytes × List Bytes × ℕ × Bytes)
resp_decoder bs = do
  (line, rest) ← read_string bs
  n ← header_number b'*' (trim_space line)
  (base, args, count, rest') ← decode_loop (pos_part n) true [] [] (length line) rest
  ok (to_lower base, args, count, rest')
