-- ===== src/Listpack/Codec/Parts.antt =====
-- What the readers find at the start of an entry, as one statement, and facts about its parts.
use shitty_redis.Base.{
  ℕ, suc, ◌-◌, ◌≡◌, refl, false, List, [], ◌∷◌, ◌++◌, arith, length, drop, drop-append, ◌==◌,
}
use shitty_redis.Base.Go.{Bytes, Run, ok, ◌>>=◌}
use shitty_redis.Listpack.Entry.{get_backlen_bytes, get_backlen_byte_count}
use shitty_redis.Listpack.Pack.{read_bytes, read_entry, entry_byte_count, entry_text}

-- What `Read` and `PopL` make of `entry`, whatever bytes follow it, when `text` is stored there.
pub record Decodes (text entry : Bytes) : Type 0 where
  pub tag : ℕ
  pub after : Bytes
  pub shape : entry ≡ tag ∷ after
  pub not_end : (tag == 0xff) ≡ false
  pub skip :
      (again : Bytes → ℕ → ℕ → Run (List Bytes)) (rest : Bytes) (k m : ℕ)
      → read_entry again tag (after ++ rest) (suc k) m ≡ again rest k m
  pub take_one :
      (again : Bytes → ℕ → ℕ → Run (List Bytes)) (rest : Bytes) (m : ℕ)
      → read_entry again tag (after ++ rest) 0 m
        ≡ (again rest 0 (m - 1) >>= λ elements. ok (text ∷ elements))
  pub byte_count : (rest : Bytes) → entry_byte_count tag (after ++ rest) ≡ ok (length entry)
  pub popped : (rest : Bytes) → entry_text tag (after ++ rest) ≡ ok text

-- `getBacklenBytes` writes as many bytes as `getBacklenByteCount` counts.
pub length-get_backlen_bytes : (l : ℕ) → length (get_backlen_bytes l) ≡ get_backlen_byte_count l
unfolding get_backlen_bytes get_backlen_byte_count
length-get_backlen_bytes l = ground arith

pub read_bytes-append : (xs ys : Bytes) → read_bytes (length xs) (xs ++ ys) ≡ ok (xs, ys)
unfolding read_bytes
read_bytes-append [] ys = refl
read_bytes-append (x ∷ xs) ys = rw (read_bytes-append xs ys)

pub drop_all : (n : ℕ) (xs ys : Bytes) → length xs ≡ n → drop n (xs ++ ys) ≡ ys
drop_all n xs ys e = rw (← e) (drop-append xs ys)

-- `bl` is the backlen behind `n` bytes.
pub drop_backlen :
    (n : ℕ) (ys : Bytes) → drop (get_backlen_byte_count n) (get_backlen_bytes n ++ ys) ≡ ys
drop_backlen n ys = drop_all _ (get_backlen_bytes n) ys (length-get_backlen_bytes n)
