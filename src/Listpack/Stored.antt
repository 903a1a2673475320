-- ===== src/Listpack/Stored.antt =====
-- What storing an item does to its text.
use shitty_redis.Base.{◌≡◌, sym, ◌↔◌, inl, inr, ◌∙◌, none, some, Option-cases}
use shitty_redis.Base.Go.{Bytes}
use shitty_redis.Base.Int.{ℤ}
use shitty_redis.Strconv.{parse_int, format_int}
use shitty_redis.Strconv.RoundTrip.{parse_int-format_int, parse_int-IsInt64}
use shitty_redis.Listpack.Codec.{number_text, stored}

pub stored_number : (item : Bytes) (v : ℤ) → parse_int item ≡ some v → stored item ≡ format_int v
unfolding stored number_text
stored_number item v e = rw e

pub stored_text : (item : Bytes) → parse_int item ≡ none → stored item ≡ item
unfolding stored number_text
stored_text item e = rw e

-- Storing a text that came out of a listpack gives the same text back.
pub stored-stored : (item : Bytes) → stored (stored item) ≡ stored item
stored-stored item = elim (Option-cases (parse_int item)) [
  | inl e ↦ rw (stored_text item e) (stored_text item e)
  | inr (v, e) ↦
      rw (stored_number item v e)
        (stored_number (format_int v) v (parse_int-format_int v (parse_int-IsInt64 item v e)))
]

-- An item comes back as it was exactly when it is no int64, or is one as Go prints it.
pub stored-eq_self_iff :
    (item : Bytes)
    → (stored item ≡ item) ↔ ((v : ℤ) → parse_int item ≡ some v → item ≡ format_int v)
stored-eq_self_iff item = (
  λ same v e. sym same ∙ stored_number item v e,
  λ printed. elim (Option-cases (parse_int item)) [
    | inl e ↦ stored_text item e
    | inr (v, e) ↦ stored_number item v e ∙ sym (printed v e)
  ],
)
