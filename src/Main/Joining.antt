-- ===== src/Main/Joining.antt =====
-- A replica that joins a master: `Handshake` (app/server/server.go) on the answers of the loop of
-- `HandleClientConn` (app/main.go).
use shitty_redis.Base.{
  ℕ, ◌+◌, ◌/◌, ◌≡◌, ◌≢◌, refl, sym, ap, ◌∙◌, false, [], ◌∷◌, ◌++◌, some, ◌==◌, All, drop, arith,
  append_assoc,
}
use Prim.Native.Nat.{min}
use mathlib.Core.Path.{subst}
use shitty_redis.Base.Go.{Bytes, ok, ◌>>=◌}
use shitty_redis.Base.Int.{ℤ, pos, negsuc, IsInt64}
use shitty_redis.Strconv.{
  parse_int, positive, parse_number, parse_digits, format_int, format_uint, decimal,
}
use shitty_redis.Strconv.RoundTrip.{parse_int-format_int}
use shitty_redis.Resp.Wire.{
  read_string, is_space, trim_left, trim_onto, trim_right, trim_space, or_err, crlf,
}
use shitty_redis.Resp.RoundTrip.{IsDigit, format_uint-IsDigit}
use shitty_redis.Stream.Ids.{prepend}
use shitty_redis.Server.Config.{split_space}
use shitty_redis.Server.Repl.{MasterRepl, ReplicaRepl, replid}
use shitty_redis.Server.Rdb.{
  empty_rdb, length-empty_rdb, aux_int8, aux_string, aux_int32, le_bytes, zeros,
}
use shitty_redis.Server.Handshake.{
  read_some, psync_offset, rdb_count, rdb_size, read_psync, handshake,
}
use shitty_redis.Server.Replies.{resync_text}
use shitty_redis.Main.Dispatch.{Outside}
use shitty_redis.Main.Loop.{rdb_transfer}
use shitty_redis.Main.Setting.{ok_line}

-- A byte of a number: no line feed and no space.
abbrev IsPlain : ℕ → Type 0
IsPlain c = ((c == 10) ≡ false) × (is_space c ≡ false) × ((c == 32) ≡ false)

digits-IsPlain : (ds : Bytes) → All IsDigit ds → All IsPlain ds
unfolding is_space
digits-IsPlain [] h = tt
digits-IsPlain (d ∷ ds) (h, hs) = ((ground arith, ground arith, ground arith), digits-IsPlain ds hs)

format_int-IsPlain : (v : ℤ) → IsInt64 v → All IsPlain (format_int v)
unfolding format_int is_space
format_int-IsPlain (pos n) h = digits-IsPlain _ (format_uint-IsDigit n (omega arith))
format_int-IsPlain (negsuc n) h =
    ((refl, refl, refl), digits-IsPlain _ (format_uint-IsDigit (n + 1) (omega arith)))

format_int-some : (v : ℤ) → IsInt64 v → (c : ℕ) × (cs : Bytes) × (format_int v ≡ c ∷ cs)
format_int-some v h = first (format_int v) (parse_int-format_int v h)
  where
    first : (bs : Bytes) → parse_int bs ≡ some v → (c : ℕ) × (cs : Bytes) × (bs ≡ c ∷ cs)
    first [] e = absurd (no_number e)
      where
        no_number : parse_int [] ≢ some v
        no_number = unfold parse_int in λ p. cc
    first (c ∷ cs) e = (c, cs, refl)

read_string-plain :
    (ds rest : Bytes) → All IsPlain ds → read_string (ds ++ (crlf ++ rest)) ≡ ok (ds ++ crlf, rest)
unfolding read_string
read_string-plain [] rest h = refl
read_string-plain (d ∷ ds) rest ((e, _, _), hs) = rw (e, read_string-plain ds rest hs) refl

trim_right-plain : (ds : Bytes) → All IsPlain ds → trim_right (ds ++ crlf) ≡ ds
unfolding trim_right trim_onto is_space
trim_right-plain [] h = refl
trim_right-plain (d ∷ ds) ((_, e, _), hs) = rw (trim_right-plain ds hs) (kept ds)
  where
    kept : (es : Bytes) → trim_onto d es ≡ d ∷ es
    kept [] = rw e refl
    kept (x ∷ es) = refl

split_space-plain : (ds : Bytes) → All IsPlain ds → split_space ds ≡ ds ∷ []
unfolding split_space prepend
split_space-plain [] h = refl
split_space-plain (d ∷ ds) ((_, _, e), hs) = rw (e, split_space-plain ds hs) refl

-- A line with the number `f` at its end, as `psync` answers it.
abbrev pub resync_line : Bytes → Bytes
resync_line f =
    b'+'
    ∷ b'F'
    ∷ b'U'
    ∷ b'L'
    ∷ b'L'
    ∷ b'R'
    ∷ b'E'
    ∷ b'S'
    ∷ b'Y'
    ∷ b'N'
    ∷ b'C'
    ∷ 32
    ∷ (replid ++ (32 ∷ f))

read_string-resync :
    (f rest : Bytes)
    → All IsPlain f
    → read_string (resync_line f ++ (crlf ++ rest)) ≡ ok (resync_line (f ++ crlf), rest)
unfolding read_string
read_string-resync f rest h = rw (read_string-plain f rest h) refl

psync_offset-resync :
    (c : ℕ) (cs : Bytes)
    → All IsPlain (c ∷ cs)
    → psync_offset (resync_line ((c ∷ cs) ++ crlf)) ≡ or_err (parse_int (c ∷ cs))
unfolding psync_offset trim_space trim_left is_space
psync_offset-resync c cs h = rw trimmed (rw parts refl)
  where
    trimmed : trim_right (resync_line ((c ∷ cs) ++ crlf)) ≡ resync_line (c ∷ cs)
    trimmed = unfold trim_right trim_onto in rw (trim_right-plain (c ∷ cs) h) refl

    parts :
        split_space (resync_line (c ∷ cs))
        ≡ (b'+' ∷ b'F' ∷ b'U' ∷ b'L' ∷ b'L' ∷ b'R' ∷ b'E' ∷ b'S' ∷ b'Y' ∷ b'N' ∷ b'C' ∷ [])
          ∷ replid
          ∷ (c ∷ cs)
          ∷ []
    parts = unfold split_space prepend in rw (split_space-plain (c ∷ cs) h) refl

abbrev pub pong_line : Bytes
pong_line = b'+' ∷ b'P' ∷ b'O' ∷ b'N' ∷ b'G' ∷ crlf

-- The text that `psync` makes of a master, as a line.
abbrev pub psync_line : MasterRepl → Bytes
psync_line m = b'+' ∷ (resync_text m ++ crlf)

-- The file that a master sends behind its line.
abbrev pub rdb_file : Outside → Bytes
rdb_file out = empty_rdb (out.now / 1000) out.alloc

module _ (out : Outside) (m : MasterRepl) (r : ReplicaRepl) (chunk : ℕ) (rest : Bytes) where
  psync_line-append :
      m.id ≡ replid
      → (bs : Bytes) → psync_line m ++ bs ≡ resync_line (format_int m.offset) ++ (crlf ++ bs)
  unfolding resync_text
  psync_line-append e bs = rw e (simp append_assoc)

  rdb_read :
      read_some 88 chunk (rdb_file out ++ rest) ≡ ok (drop (min 88 chunk) (rdb_file out ++ rest))
  unfolding read_some empty_rdb aux_int8 aux_string aux_int32 le_bytes
  rdb_read = refl

  abbrev rdb_header : Bytes
  rdb_header = b'$' ∷ b'8' ∷ b'8' ∷ []

  rdb_transfer-append : rdb_transfer out ++ rest ≡ rdb_header ++ (crlf ++ (rdb_file out ++ rest))
  unfolding rdb_transfer format_uint decimal
  rdb_transfer-append = rw (length-empty_rdb (out.now / 1000) out.alloc) refl

  header_read :
      read_string (rdb_header ++ (crlf ++ (rdb_file out ++ rest)))
      ≡ ok (rdb_header ++ crlf, rdb_file out ++ rest)
  unfolding read_string
  header_read = refl

  header_size : rdb_size (trim_space (rdb_header ++ crlf)) ≡ ok 88
  unfolding rdb_size trim_space trim_left trim_right trim_onto is_space or_err parse_int rdb_count
      positive parse_number parse_digits
  header_size = refl

  offset_read :
      IsInt64 m.offset → psync_offset (resync_line (format_int m.offset ++ crlf)) ≡ ok m.offset
  unfolding or_err
  offset_read h =
      let (c, cs, e) = format_int-some m.offset h in
      let plain : All IsPlain (c ∷ cs) = subst (All IsPlain) e (format_int-IsPlain m.offset h) in
      rw e (
        psync_offset-resync c cs plain
        ∙ ap or_err (ap parse_int (sym e) ∙ parse_int-format_int m.offset h))

  read_psync-psync_line :
      m.id ≡ replid
      → IsInt64 m.offset
      → read_psync chunk (psync_line m ++ (rdb_transfer out ++ rest)) r
        ≡ ok (record r { master_offset = m.offset }, drop (min 88 chunk) (rdb_file out ++ rest))
  unfolding read_psync
  read_psync-psync_line e h = rw (psync_line-append e (rdb_transfer out ++ rest)) (
      rw
        (
          read_string-resync (format_int m.offset) (rdb_transfer out ++ rest)
              (format_int-IsPlain m.offset h),
          ◌>>=◌,
        )
        (rw (offset_read h, ◌>>=◌)
          (rw rdb_transfer-append
            (rw (header_read, ◌>>=◌) (rw (header_size, ◌>>=◌) (rw rdb_read refl))))))

  -- The line that a master with the id that `NewMaster` gives, at an offset that an int64 holds,
  -- answers to `psync`, and the RDB file behind it, are taken by the handshake of a replica: on
  -- `PONG`, two times `OK`, the line, the file and `rest`, of which `chunk` bytes have come when
  -- the file is read, it returns normally. The replica has the offset of the master, and of the
  -- file and `rest` 88 bytes, or only `chunk`, are taken. With all 88 taken, `rest` is left.
  pub handshake-psync_line :
      m.id ≡ replid
      → IsInt64 m.offset
      → (handshake 7 5 5 chunk
            (pong_line ++ (ok_line ++ (ok_line ++ (psync_line m ++ (rdb_transfer out ++ rest)))))
            r
          ≡ ok (record r { master_offset = m.offset }, drop (min 88 chunk) (rdb_file out ++ rest)))
        × (drop 88 (rdb_file out ++ rest) ≡ rest)
  handshake-psync_line e h = (
    unfold handshake read_some in read_psync-psync_line e h,
    unfold empty_rdb aux_int8 aux_string aux_int32 le_bytes zeros in refl,
  )
