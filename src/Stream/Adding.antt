-- ===== src/Stream/Adding.antt =====
-- `XADD` (app/structures/stream/stream.go) when no listpack has room.
use shitty_redis.Base.{
  ℕ, suc, ◌/◌, ◌%◌, ◌^◌, ◌≡◌, refl, List, [], ◌∷◌, ◌++◌, none, some, if◌then◌else◌, get_elem?,
  length,
}
use shitty_redis.Base.Go.{Bytes, Run, ok, err}
use shitty_redis.Command.Fields.{◌==s◌}
use shitty_redis.Listpack.Entry.{be_bytes}
use shitty_redis.Radix.Ops
use shitty_redis.Radix.Inserts.{insert-get}
use shitty_redis.Stream.Types.{StreamListpack, StreamId, Stream}
use shitty_redis.Stream.Ids.{split_id}
use shitty_redis.Stream.Pack
use shitty_redis.Stream.Ops.{id_bytes, id_or_zero, add_pack, pushed, push_at, xadd}

-- There is no listpack, or the greatest one refuses the entry.
pub data NoRoom (pairs : List Bytes) (id : StreamId) (st : Stream) : Type 0 where
  no_pack : Ops.get_max st.rax ≡ none → NoRoom pairs id st
  full_pack :
      (i : ℕ) (lp : StreamListpack)
      → Ops.get_max st.rax ≡ some i
      → get_elem? st.packs i ≡ some lp
      → Pack.push pairs id.ms id.seq lp ≡ err
      → NoRoom pairs id st

-- The stream with one listpack more, at the id's bytes.
pub record Added (id : StreamId) (lp : StreamListpack) (st : Stream) (r : Run Stream) : Type 0 where
  pub stream_after : Stream
  pub returned : r ≡ ok stream_after
  pub packs_after : stream_after.packs ≡ st.packs ++ (lp ∷ [])
  pub finds :
      (j : Bytes)
      → Ops.get j stream_after.rax
        ≡ (if j ==s id_bytes id.ms id.seq then some (length st.packs) else Ops.get j st.rax)
  pub last_after : stream_after.last_id ≡ some id
  pub length_after : stream_after.length ≡ suc st.length
  pub added_after : stream_after.entries_added ≡ suc st.entries_added

module _ (pairs : List Bytes) (id : StreamId) (lp : StreamListpack) (st : Stream)
    (made : Pack.new pairs id.ms id.seq ≡ ok lp) where
  abbrev counted : Stream
  counted = record st {
    length = suc st.length;
    entries_added = suc st.entries_added;
    last_id = some id;
  }

  add_pack-Added : Added id lp st (add_pack pairs id counted)
  unfolding id_bytes be_bytes
  add_pack-Added =
      let i =
        insert-get (length st.packs) (id.ms / 256 ^ 7 % 256) (be_bytes 7 id.ms ++ be_bytes 8 id.seq)
          st.rax in
      record {
        stream_after = record counted { rax = i.rax_after; packs = st.packs ++ (lp ∷ []) };
        returned = unfold add_pack in rw (made, i.returned) refl;
        packs_after = refl;
        finds = i.finds;
        last_after = refl;
        length_after = refl;
        added_after = refl;
      }

  push_at-room :
      NoRoom pairs id st → push_at (Ops.get_max st.rax) pairs id counted ≡ add_pack pairs id counted
  unfolding push_at pushed
  push_at-room (no_pack e) = rw e refl
  push_at-room (full_pack i lp' e f g) = rw (e, f, g) refl

  -- `XADD` with an id that reads as an id, on a stream without a listpack or whose greatest one
  -- refuses the entry, and where the new listpack can be made, returns normally: the new listpack
  -- is behind the others, `Get` finds it at the 16 bytes of the id and at other keys what it
  -- found before, the id is the last one, and the length and the number of entries added are one
  -- more.
  pub xadd-Added :
      (text : Bytes)
      → split_id text ≡ ok id
      → NoRoom pairs id st
      → Added id lp st (xadd pairs text st)
  unfolding xadd id_or_zero
  xadd-Added text e n = rw (e, push_at-room n) add_pack-Added
