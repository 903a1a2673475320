-- ===== src/Tests/Commands.antt =====
-- The theorems on commands, encoded and decoded, on small commands.
use shitty_redis.Base.{All, ℕ, ◌<◌, ◌≤◌, ◌≡◌, ◌+◌, refl, ap, sym, ◌∙◌, [], ◌∷◌, ◌++◌, arith, length}
use shitty_redis.Base.Go.{Bytes, ok, err, ◌>>=◌}
use shitty_redis.Resp.Wire.{
  resp_decoder, read_string, header_number, trim_space, trim_left, trim_right, trim_onto, is_space,
  or_err, decode_loop, read_bulk, read_full, lower_byte, resp_encoder, texts, bulk_list, to_lower,
}
use shitty_redis.Strconv.{parse_int, parse_digits, parse_number, positive, below}
use shitty_redis.Resp.Decode.{resp_decoder_count}
use shitty_redis.Resp.RoundTrip.{resp_decoder-resp_encoder}
use shitty_redis.Command.Fields.{◌==s◌}
use shitty_redis.Command.Validate.{command, find_label, labels, set, lpop, xread}
use shitty_redis.Command.Reads.{checked_reads}
use shitty_redis.Command.Arguments.{needed, NoDuration, expected, checked_reads_lem}
use shitty_redis.Command.Xread.{IsOther, checked_reads-streams}

abbrev set_name : Bytes
set_name = b's' ∷ b'e' ∷ b't' ∷ []

abbrev shouted : Bytes
shouted = b'S' ∷ b'E' ∷ b'T' ∷ []

abbrev lpop_name : Bytes
lpop_name = b'l' ∷ b'p' ∷ b'o' ∷ b'p' ∷ []

abbrev xread_name : Bytes
xread_name = b'x' ∷ b'r' ∷ b'e' ∷ b'a' ∷ b'd' ∷ []

abbrev key : Bytes
key = b'k' ∷ []

abbrev value : Bytes
value = b'v' ∷ []

abbrev px : Bytes
px = b'p' ∷ b'x' ∷ []

set-command : command set_name ≡ set
unfolding command find_label labels ◌==s◌
set-command = refl

lpop-command : command lpop_name ≡ lpop
unfolding command find_label labels ◌==s◌
lpop-command = refl

xread-command : command xread_name ≡ xread
unfolding command find_label labels ◌==s◌
xread-command = refl

resp_decoder-resp_encoder_example :
    (resp_encoder (texts (shouted ∷ key ∷ value ∷ [])) bulk_list >>= λ out.
    resp_decoder (out ++ (b'*' ∷ [])))
    ≡ (resp_encoder (texts (shouted ∷ key ∷ value ∷ [])) bulk_list >>= λ out.
        ok (to_lower shouted, key ∷ value ∷ [], length out, b'*' ∷ []))
resp_decoder-resp_encoder_example =
    resp_decoder-resp_encoder shouted (key ∷ value ∷ []) (b'*' ∷ [])
      (omega arith, (omega arith, (omega arith, tt))) (omega arith)

-- `*1`, `$1`, `A`, each with its line end, and one byte behind.
abbrev one_command : Bytes
one_command = b'*' ∷ b'1' ∷ 13 ∷ 10 ∷ b'$' ∷ b'1' ∷ 13 ∷ 10 ∷ b'A' ∷ 13 ∷ 10 ∷ b'!' ∷ []

one_decoded : resp_decoder one_command ≡ ok (b'a' ∷ [], [], 11, b'!' ∷ [])
unfolding resp_decoder read_string header_number trim_space trim_left trim_right trim_onto is_space
    or_err parse_int parse_digits parse_number positive below decode_loop read_bulk read_full
    to_lower lower_byte
one_decoded = refl

resp_decoder_count_example : 11 + length {A = ℕ} (b'!' ∷ []) ≡ length one_command
resp_decoder_count_example =
    resp_decoder_count one_command (b'a' ∷ []) [] 11 (b'!' ∷ []) one_decoded

lpop_is_not : ¬ (command lpop_name ≡ xread)
lpop_is_not e = let n : ◌≡◌ {A = ℕ} 1 0 = ap needed (sym lpop-command ∙ e) in omega arith

checked_reads_lem_example :
    (1 < needed (command lpop_name) → checked_reads lpop_name (key ∷ []) ≡ err)
    × (needed (command lpop_name) ≤ 1
        → ¬ NoDuration (command lpop_name) (key ∷ [])
        → checked_reads lpop_name (key ∷ []) ≡ ok (expected (command lpop_name) (key ∷ [])))
checked_reads_lem_example = checked_reads_lem lpop_name (key ∷ []) lpop_is_not

abbrev capital : Bytes
capital = b'S' ∷ b'T' ∷ b'R' ∷ b'E' ∷ b'A' ∷ b'M' ∷ b'S' ∷ []

options-IsOther : All IsOther (px ∷ value ∷ [])
unfolding to_lower lower_byte
options-IsOther =
    (unfold to_lower lower_byte in λ e. cc, (unfold to_lower lower_byte in λ e. cc, tt))

checked_reads-streams_example :
    (checked_reads xread_name (px ∷ value ∷ []) ≡ err)
    × (checked_reads xread_name (px ∷ value ∷ capital ∷ key ∷ value ∷ []) ≡ ok (key ∷ value ∷ []))
checked_reads-streams_example =
    checked_reads-streams xread_name (px ∷ value ∷ []) capital (key ∷ value ∷ []) xread-command
      options-IsOther (unfold to_lower lower_byte in refl)
