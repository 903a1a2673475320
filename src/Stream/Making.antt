-- ===== src/Stream/Making.antt =====
-- `New` (app/structures/stream/stream_listpack/stream_listpack.go).
use shitty_redis.Base.{ℕ, ◌≡◌, refl, true, [], All}
use shitty_redis.Base.Go.{ok}
use shitty_redis.Listpack.Pack
use shitty_redis.Listpack.Codec.{IsItem}
use shitty_redis.Listpack.Contents.Sizes.{pack}
use shitty_redis.Stream.Types.{StreamListpack}
use shitty_redis.Stream.Pack.{is_full, empty_pack, or_unchanged, new, read_all_in_range}
use shitty_redis.Stream.Entries.{Written, IsWritten, items_of, pairs}
use shitty_redis.Stream.Reading.{Packs}
use shitty_redis.Stream.Ranges.{push_refused, read_all_in_range-Packs}

abbrev pub first_of : Written → StreamListpack
first_of e = empty_pack (pairs e.fields e.values) e.ms e.seq

pub empty_pack-Packs : (e : Written) → IsWritten e → Packs [] (first_of e)
unfolding empty_pack Pack.new
empty_pack-Packs e w = record {
  bytes = refl;
  written = tt;
  short = tt;
  ms_fits = w.ms_fits;
  seq_fits = w.seq_fits;
}

-- When there is no room in a new listpack for an entry with its items below 2 GiB, `New` returns
-- the empty listpack all the same, from which no range reads an entry.
pub new_loses :
    (e : Written) (msL seqL msH seqH : ℕ)
    → IsWritten e
    → All IsItem (items_of (first_of e) e)
    → is_full (pack (items_of (first_of e) e)) (first_of e) ≡ true
    → (new (pairs e.fields e.values) e.ms e.seq ≡ ok (first_of e))
      × (read_all_in_range msL seqL msH seqH (first_of e) ≡ ok [])
new_loses e msL seqL msH seqH w short full =
    let p = empty_pack-Packs e w in
    (
      unfold new in unfold or_unchanged in rw (push_refused [] e (first_of e) p w short full) refl,
      read_all_in_range-Packs (first_of e) [] msL seqL msH seqH p,
    )
