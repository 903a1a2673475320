-- ===== src/Stream/Wrapping.antt =====
-- The ids that `xadd` makes behind the last sequence number of a millisecond
-- (app/structures/stream/utils.go, app/handlers.go).
use shitty_redis.Base.{
  ℕ, ◌+◌, ◌-◌, ◌%◌, ◌^◌, ◌<◌, ◌≤◌, ◌≡◌, refl, sym, ◌∙◌, false, List, [], ◌∷◌, ◌++◌, some, ◌==◌, ltb,
  get_elem?, All, arith,
}
use mathlib.Core.Path.{subst}
use shitty_redis.Base.Go.{Bytes, Run, ok}
use shitty_redis.Strconv.{format_uint}
use shitty_redis.Strconv.RoundTrip.{parse_uint-format_uint}
use shitty_redis.Resp.RoundTrip.{IsDigit, format_uint-IsDigit}
use shitty_redis.Command.Fields.{◌==s◌}
use shitty_redis.Stream.Types.{StreamId, Stream}
use shitty_redis.Stream.Ids.{
  dash, star, split_dash, prepend, uint_or_err, format_id, generate_both, generate_seq,
  generate_second, generate_parts, generate_stream_entry_id, has_star, xadd_id,
}
use shitty_redis.Stream.Order.{After, Names, split_dash-parts, split_id-format_id}

-- The two ways to have an id made for the millisecond of the last one.
module _ (now : ℕ) (st : Stream) (last : StreamId) (at_last : st.last_id ≡ some last)
    (fits : last.ms < 2 ^ 64) (full : last.seq ≡ 2 ^ 64 - 1) where
  wrapped : (last.seq + 1) % 2 ^ 64 ≡ 0
  wrapped = omega arith

  xadd_id-both : now ≤ last.ms → xadd_id now star st ≡ ok (format_id last.ms 0)
  unfolding xadd_id has_star split_dash prepend ◌==s◌ generate_stream_entry_id generate_parts
      generate_both
  xadd_id-both h =
      let behind : ltb last.ms now ≡ false = ground arith in
      rw at_last (rw behind (rw wrapped refl))

  abbrev asked : Bytes
  asked = format_uint last.ms ++ (dash ∷ star)

  split_dash-asked : split_dash asked ≡ format_uint last.ms ∷ star ∷ []
  split_dash-asked =
      split_dash-parts (format_uint last.ms) star (format_uint-IsDigit last.ms fits)
      ∙ (unfold split_dash prepend in refl)

  generate_second-asked :
      (parts : List Bytes)
      → get_elem? parts 1 ≡ some star
      → generate_second (format_uint last.ms) parts (some last) ≡ ok (format_id last.ms 0)
  unfolding generate_second generate_seq uint_or_err ◌==s◌
  generate_second-asked parts got =
      let same : ltb last.ms last.ms ≡ false = ground arith in
      rw got (rw (parse_uint-format_uint last.ms fits) (rw same (rw wrapped refl)))

  -- A run of digits is no `*`.
  no_star : (ds : Bytes) → All IsDigit ds → (ds ==s star) ≡ false
  unfolding ◌==s◌
  no_star [] h = refl
  no_star (d ∷ ds) (h, hs) = let other : (d == b'*') ≡ false = ground arith in rw other refl

  xadd_id-second : xadd_id now asked st ≡ ok (format_id last.ms 0)
  unfolding xadd_id has_star generate_stream_entry_id generate_parts ◌==s◌
  xadd_id-second =
      let digits : (format_uint last.ms ==s star) ≡ false =
        no_star (format_uint last.ms) (format_uint-IsDigit last.ms fits) in
      rw split_dash-asked (rw digits (rw at_last (generate_second-asked _ refl)))

  -- When the last id of a stream has the largest sequence number, 2 ^ 64 - 1, and a millisecond
  -- below 2 ^ 64 that the clock has not passed, `xadd` with `*`, and `xadd` with this millisecond
  -- and `-*`, make the id of the same millisecond with sequence number 0, which is no id after
  -- the last one.
  pub xadd_id_wraps :
      now ≤ last.ms
      → (xadd_id now star st ≡ ok (format_id last.ms 0))
        × (xadd_id now asked st ≡ ok (format_id last.ms 0))
        × (¬ Names (format_id last.ms 0) st.last_id)
  xadd_id_wraps h = (
    xadd_id-both h,
    xadd_id-second,
    λ (id, reads, after).
        let id' : StreamId = record { ms = last.ms; seq = 0 } in
        let same : ◌≡◌ {A = Run StreamId} (ok id) (ok id') =
          sym reads ∙ split_id-format_id id' (record { ms_fits = fits; seq_fits = omega arith }) in
        let same_id : id ≡ id' = cc in
        let later : After id' (some last) =
          subst (λ i. After i (some last)) same_id (subst (After id) at_last after) in
        ground arith,
  )
