-- ===== src/Base/Bits.antt =====
-- Masks on bytes as arithmetic; each is a table of at most 256 entries, checked by evaluation.
use shitty_redis.Base.{
  ℕ, zero, suc, ◌+◌, ◌*◌, ◌/◌, ◌%◌, ◌<◌, ◌≡◌, refl, Bool, true, ◌&&◌, ◌==◌, arith, bit_and, bit_or,
}

module _ (f g : ℕ → ℕ) where
  agree_below : ℕ → Bool
  agree_below zero = true
  agree_below (suc n) = f n == g n && agree_below n

  agree_below→eq : (n i : ℕ) → agree_below n ≡ true → i < n → f i ≡ g i
  unfolding agree_below
  agree_below→eq zero i e h = absurd (omega arith)
  agree_below→eq (suc n) i e h = ground (arith, agree_below→eq n i)

pub bit_and_0x7f : (b : ℕ) → b < 256 → bit_and b 0x7f ≡ b % 128
unfolding agree_below
bit_and_0x7f b = agree_below→eq (λ b. bit_and b 0x7f) (λ b. b % 128) 256 b refl

pub bit_and_0x3f : (b : ℕ) → b < 256 → bit_and b 0x3f ≡ b % 64
unfolding agree_below
bit_and_0x3f b = agree_below→eq (λ b. bit_and b 0x3f) (λ b. b % 64) 256 b refl

pub bit_and_0x1f : (b : ℕ) → b < 256 → bit_and b 0x1f ≡ b % 32
unfolding agree_below
bit_and_0x1f b = agree_below→eq (λ b. bit_and b 0x1f) (λ b. b % 32) 256 b refl

pub bit_and_0x0f : (b : ℕ) → b < 256 → bit_and b 0x0f ≡ b % 16
unfolding agree_below
bit_and_0x0f b = agree_below→eq (λ b. bit_and b 0x0f) (λ b. b % 16) 256 b refl

pub bit_and_0x80 : (b : ℕ) → b < 256 → bit_and b 0x80 ≡ b / 128 * 128
unfolding agree_below
bit_and_0x80 b = agree_below→eq (λ b. bit_and b 0x80) (λ b. b / 128 * 128) 256 b refl

pub bit_and_0xc0 : (b : ℕ) → b < 256 → bit_and b 0xc0 ≡ b / 64 * 64
unfolding agree_below
bit_and_0xc0 b = agree_below→eq (λ b. bit_and b 0xc0) (λ b. b / 64 * 64) 256 b refl

pub bit_and_0xe0 : (b : ℕ) → b < 256 → bit_and b 0xe0 ≡ b / 32 * 32
unfolding agree_below
bit_and_0xe0 b = agree_below→eq (λ b. bit_and b 0xe0) (λ b. b / 32 * 32) 256 b refl

pub bit_and_0xf0 : (b : ℕ) → b < 256 → bit_and b 0xf0 ≡ b / 16 * 16
unfolding agree_below
bit_and_0xf0 b = agree_below→eq (λ b. bit_and b 0xf0) (λ b. b / 16 * 16) 256 b refl

pub bit_or_0x80 : (b : ℕ) → b < 64 → bit_or 0x80 b ≡ 128 + b
unfolding agree_below
bit_or_0x80 b = agree_below→eq (λ b. bit_or 0x80 b) (λ b. 128 + b) 64 b refl

pub bit_or_0xc0 : (b : ℕ) → b < 32 → bit_or 0xc0 b ≡ 192 + b
unfolding agree_below
bit_or_0xc0 b = agree_below→eq (λ b. bit_or 0xc0 b) (λ b. 192 + b) 32 b refl

pub bit_or_0xe0 : (b : ℕ) → b < 16 → bit_or 0xe0 b ≡ 224 + b
unfolding agree_below
bit_or_0xe0 b = agree_below→eq (λ b. bit_or 0xe0 b) (λ b. 224 + b) 16 b refl
