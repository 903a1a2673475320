-- ===== src/Listpack/Ends.antt =====
-- The loop of `Read` (app/structures/listpack/listpack.go) on any bytes, and its fuel.
use shitty_redis.Base.{
  ℕ, zero, suc, ◌-◌, ◌≤◌, ◌<◌, ◌≡◌, refl, inl, inr, Bool, true, false, List, [], ◌∷◌, arith, ◌==◌,
  ◌||◌, drop, length, length-drop, Bool-cases,
}
use shitty_redis.Base.Go.{Bytes, Run, ok, err, panic, stuck, ◌>>=◌, Ends, Ends-bind}
use shitty_redis.Listpack.Pack.{
  Listpack, decode_tag, read_bytes, read_int, read_str, read_decoded, read_entry, read_loop, read,
}

read_bytes-Ends :
    (n : ℕ) (bs : Bytes)
    → Ends (read_bytes n bs)
      × ((r : Bytes × Bytes) → read_bytes n bs ≡ ok r → length r.1 ≤ length bs)
unfolding read_bytes
read_bytes-Ends zero bs = (tt, λ r e. ground arith)
read_bytes-Ends (suc n) [] = (tt, λ r e. cc)
read_bytes-Ends (suc n) (b ∷ bs) =
    let (ends, left) = read_bytes-Ends n bs in
    (Ends-bind (read_bytes n bs) _ ends (λ a e. tt), more (read_bytes n bs) left)
  where
    more :
        (m : Run (Bytes × Bytes))
        → ((r : Bytes × Bytes) → m ≡ ok r → length r.1 ≤ length bs)
        → (r : Bytes × Bytes) → (m >>= λ x. ok (b ∷ x.0, x.1)) ≡ ok r
        → length r.1 ≤ suc (length bs)
    more (ok x) h r e = ground (arith, h x refl)
    more err h r e = cc
    more panic h r e = cc
    more stuck h r e = cc

-- One round ends if the rounds that follow do.
module _ (again : Bytes → ℕ → ℕ → Run (List Bytes)) (tag : ℕ) (after : Bytes)
    (ends : (rest : Bytes) (k m : ℕ) → length rest ≤ length after → Ends (again rest k m)) where
  dropped :
      (n readB : ℕ) (r : Bytes × Bytes)
      → read_bytes readB after ≡ ok r
      → length (drop n r.1) ≤ length after
  dropped n readB r e = omega (arith, length-drop n r.1, (read_bytes-Ends readB after).1 r e)

  read_int-Ends : (tagB readB k m : ℕ) → Ends (read_int again tag after tagB readB k m)
  unfolding read_int
  read_int-Ends tagB readB (suc k) m = ends _ k m (omega (arith, length-drop {0} _ after))
  read_int-Ends tagB readB zero m =
      Ends-bind (read_bytes readB after) _ (read_bytes-Ends readB after).0 (λ r e.
        Ends-bind (again _ 0 (m - 1)) _ (ends _ 0 (m - 1) (dropped _ readB r e)) (λ a p. tt))

  read_str-Ends : (tagB readB k m : ℕ) → Ends (read_str again tag after tagB readB k m)
  unfolding read_str
  read_str-Ends tagB readB (suc k) m =
      Ends-bind (read_bytes readB after) _ (read_bytes-Ends readB after).0
        (λ r e. ends _ k m (dropped _ readB r e))
  read_str-Ends tagB readB zero m =
      Ends-bind (read_bytes readB after) _ (read_bytes-Ends readB after).0 (λ r e.
        Ends-bind (read_bytes _ r.1) _ (read_bytes-Ends _ r.1).0 (λ r' e'.
          Ends-bind (again _ 0 (m - 1)) _
            (ends _ 0 (m - 1) (
              omega (
                arith,
                length-drop {0} _ r'.1,
                (read_bytes-Ends _ r.1).1 r' e',
                (read_bytes-Ends readB after).1 r e,
              )))
            (λ a p. tt)))

  read_decoded-Ends : (k m : ℕ) (d : ℕ × ℕ × Bool) → Ends (read_decoded again tag after k m d)
  unfolding read_decoded
  read_decoded-Ends k m (tagB, readB, true) = read_int-Ends tagB readB k m
  read_decoded-Ends k m (tagB, readB, false) = read_str-Ends tagB readB k m

read_loop-Ends : (fuel : ℕ) (bs : Bytes) (k m : ℕ) → length bs < fuel → Ends (read_loop fuel bs k m)
unfolding read_loop read_entry
read_loop-Ends zero bs k m h = absurd (omega arith)
read_loop-Ends (suc fuel) [] k m h = tt
read_loop-Ends (suc fuel) (tag ∷ after) k m h = elim (Bool-cases (tag == 0xff || m == 0)) [
  | inl e ↦ rw e tt
  | inr e ↦ rw e (
      read_decoded-Ends (read_loop fuel) tag after
        (λ rest k' m' l. read_loop-Ends fuel rest k' m' (omega arith)) k m (decode_tag tag))
]

-- The fuel given to `Read` is enough on every listpack, whatever its bytes are.
pub read-Ends : (offset m : ℕ) (lp : Listpack) → Ends (read offset m lp)
unfolding read
read-Ends offset m lp = read_loop-Ends _ lp.entries offset m (omega arith)
