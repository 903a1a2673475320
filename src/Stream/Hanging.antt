-- ===== src/Stream/Hanging.antt =====
-- `XRANGE` (app/structures/stream/stream.go) at the greatest millisecond.
use shitty_redis.Base.{
  ℕ, zero, suc, ◌<◌, ◌≡◌, refl, ap, ◌∙◌, true, false, List, [], ◌∷◌, none, some, ltb, get_elem?,
  arith,
}
use shitty_redis.Base.Go.{Bytes, ok, stuck}
use shitty_redis.Strconv.{format_uint, decimal}
use shitty_redis.Command.Fields.{◌==s◌}
use shitty_redis.Listpack.Entry.{be_bytes}
use shitty_redis.Radix.Tree.{node, nil, cons}
use shitty_redis.Radix.Ops.{value_or, better, get_best, best_kid, get_min, is_empty}
use shitty_redis.Radix.Search.{
  find_pred, find_suc, find_near, find_kids, find_kid, beside, best_behind,
}
use shitty_redis.Stream.Types.{StreamListpack, StreamId, Stream}
use shitty_redis.Stream.Ids.{
  split_id, format_id, format_low, format_high, format_xrange_ids, max_uint64,
}
use shitty_redis.Stream.Order.{split_id-format_id}
use shitty_redis.Stream.Pack.{in_range, read_all_in_range}
use shitty_redis.Stream.Entries.{Written, shown}
use shitty_redis.Stream.Reading.{Packs}
use shitty_redis.Stream.Ranges.{read_all_in_range-Packs}
use shitty_redis.Stream.Ops.{
  id_bytes, start_pack, end_id, xrange_next, past_high, entries_loop, xrange,
}

-- The stream has one listpack, with the entry `e` at the greatest millisecond.
pub record Last (e : Written) (st : Stream) : Type 0 where
  pub lp : StreamListpack
  pub key : Bytes
  pub packs : Packs (e ∷ []) lp
  pub rax_is : st.rax ≡ node [] none (cons 255 (node key (some 0) nil) nil)
  pub packs_are : st.packs ≡ lp ∷ []
  pub last_ms : e.ms ≡ max_uint64
  pub not_last : e.seq < max_uint64

abbrev lowest : StreamId
lowest = record { ms = 0; seq = 1 }

abbrev highest : StreamId
highest = record { ms = max_uint64; seq = max_uint64 }

low_is : format_low (b'-' ∷ []) ≡ format_id 0 1
unfolding format_low format_id format_uint decimal ◌==s◌
low_is = refl

high_is : format_high (b'+' ∷ []) ≡ format_id max_uint64 max_uint64
unfolding format_high ◌==s◌
high_is = refl

lowest_read : split_id (format_id 0 1) ≡ ok lowest
lowest_read = split_id-format_id lowest (record { ms_fits = omega arith; seq_fits = omega arith })

highest_read : split_id (format_id max_uint64 max_uint64) ≡ ok highest
highest_read = split_id-format_id highest (record { ms_fits = omega arith; seq_fits = omega arith })

module _ (e : Written) (st : Stream) (l : Last e st) where
  -- From a key that starts with another byte each search ends at the one listpack.
  find_suc-Last : (id : Bytes) → find_suc (0 ∷ id) st.rax ≡ ok (some 0)
  unfolding find_suc find_near find_kids find_kid beside best_behind better get_best value_or
  find_suc-Last id = rw l.rax_is refl

  find_pred-Last : (id : Bytes) → find_pred (0 ∷ id) st.rax ≡ ok none
  unfolding find_pred find_near find_kids find_kid beside best_behind value_or
  find_pred-Last id = rw l.rax_is refl

  get_min-Last : get_min st.rax ≡ some 0
  unfolding get_min best_kid better get_best value_or
  get_min-Last = rw l.rax_is refl

  is_empty-Last : is_empty st.rax ≡ false
  unfolding is_empty
  is_empty-Last = rw l.rax_is refl

  start_pack-Last : (id : Bytes) → start_pack (0 ∷ id) st ≡ ok (some 0)
  unfolding start_pack
  start_pack-Last id = rw (find_pred-Last id, is_empty-Last, get_min-Last) refl

  first_pack : get_elem? st.packs 0 ≡ some l.lp
  first_pack = ap (λ (ps : List StreamListpack). get_elem? ps 0) l.packs_are

  inside : in_range 0 1 max_uint64 max_uint64 (shown l.lp e) ≡ true
  unfolding in_range
  inside = let a = l.last_ms in let b = l.not_last in ground arith

  next-Last : xrange_next (record { ms = e.ms; seq = e.seq }) ≡ id_bytes 0 e.seq
  unfolding xrange_next
  next-Last =
      let b : ltb e.seq max_uint64 ≡ true = let n = l.not_last in ground arith in
      rw (b, l.last_ms) refl

  not_past : past_high l.lp highest ≡ false
  unfolding past_high
  not_past = let a = l.packs.ms_fits in let b = l.packs.seq_fits in ground arith

  read-Last : read_all_in_range 0 1 max_uint64 max_uint64 l.lp ≡ ok (shown l.lp e ∷ [])
  read-Last =
      read_all_in_range-Packs l.lp (e ∷ []) 0 1 max_uint64 max_uint64 l.packs ∙ rw inside refl

  loop_goes_on : (fuel : ℕ) → entries_loop fuel xrange_next lowest highest st (some 0) ≡ stuck
  unfolding id_bytes be_bytes end_id entries_loop
  loop_goes_on zero = refl
  loop_goes_on (suc fuel) =
      rw
        (
          entries_loop,
          first_pack,
          not_past,
          read-Last,
          next-Last,
          find_suc-Last _,
          loop_goes_on fuel,
        )
        refl

  from_start : start_pack (id_bytes 0 1) st ≡ ok (some 0)
  unfolding id_bytes be_bytes
  from_start = start_pack-Last _

  -- On a stream with one listpack, whose one entry is at the greatest millisecond with a sequence
  -- number that is not the largest, and whose key starts with the byte 255, `XRANGE` from `-` to
  -- `+` runs out of any fuel.
  pub xrange_hangs : (fuel : ℕ) → xrange fuel (b'-' ∷ []) (b'+' ∷ []) st ≡ stuck
  unfolding xrange format_xrange_ids
  xrange_hangs fuel =
      rw (low_is, high_is, lowest_read, highest_read, from_start, loop_goes_on fuel) refl
