-- ===== src/Base/Go.antt =====
-- How a Go function ends: with a value, with an error result, with a panic, or, for a loop that is
-- modelled on fuel, with its fuel used up (which no Go run does).
use shitty_redis.Base.{ℕ, List, Option, none, some, ◌≡◌, refl}

-- A Go string or byte slice.
abbrev pub Bytes : Type 0
Bytes = List ℕ

pub data Run {ℓ} (V : Type ℓ) : Type ℓ where
  stuck : Run V
  panic : Run V
  err : Run V
  ok : V → Run V

infixl 5 ◌>>=◌
abbrev pub ◌>>=◌ {ℓ κ} : {V : Type ℓ} → {W : Type κ} → Run V → (V → Run W) → Run W
stuck >>= next = stuck
panic >>= next = panic
err >>= next = err
ok v >>= next = next v

-- An index expression: out of range is a panic.
abbrev pub or_panic {ℓ} : {A : Type ℓ} → Option A → Run A
or_panic none = panic
or_panic (some a) = ok a

-- The function returns normally, with a value that satisfies `P`.
abbrev pub Returns {κ ℓ} : {V : Type ℓ} → Run V → (V → Type κ) → Type (ℓ ⊔ κ)
Returns {V} m holds = (v : V) × (m ≡ ok v) × holds v

-- The modelled loops had fuel enough.
abbrev pub Ends {ℓ} : {A : Type ℓ} → Run A → Type 0
Ends (ok a) = Unit
Ends err = Unit
Ends panic = Unit
Ends stuck = ⊥

pub Ends-bind {ℓ κ} :
    {A : Type ℓ} {B : Type κ} (m : Run A) (f : A → Run B)
    → Ends m
    → ((a : A) → m ≡ ok a → Ends (f a))
    → Ends (m >>= f)
Ends-bind (ok a) f e h = h a refl
Ends-bind err f e h = tt
Ends-bind panic f e h = tt
Ends-bind stuck f e h = absurd e

-- What a chain that returned went through.
pub >>=-eq-ok {ℓ κ} :
    {V : Type ℓ} {W : Type κ} (m : Run V) (next : V → Run W) {w : W}
    → (m >>= next) ≡ ok w
    → (v : V) × (m ≡ ok v) × (next v ≡ ok w)
>>=-eq-ok stuck next e = cc
>>=-eq-ok panic next e = cc
>>=-eq-ok err next e = cc
>>=-eq-ok (ok v) next e = (v, refl, e)
