-- ===== src/Stream/Order.antt =====
-- The ids that `xadd` gives to entries (app/structures/stream/utils.go, app/handlers.go), in order.
use shitty_redis.Base.{
  ℕ, ◌+◌, ◌-◌, ◌%◌, ◌^◌, ◌<◌, ◌≡◌, refl, sym, ◌∙◌, ◌⊎◌, inl, inr, Bool, true, false, List, [], ◌∷◌,
  ◌++◌, Option, none, some, ◌==◌, ltb, if◌then◌else◌, get_elem?, All, arith, Bool-cases,
  Option-cases,
}
use mathlib.Core.Path.{subst}
use shitty_redis.Base.Go.{Bytes, Run, ok, ◌>>=◌, >>=-eq-ok}
use shitty_redis.Strconv.{parse_uint, parse_number, below, format_uint}
use shitty_redis.Strconv.RoundTrip.{parse_uint-format_uint}
use shitty_redis.Resp.RoundTrip.{IsDigit, format_uint-IsDigit}
use shitty_redis.Command.Fields.{◌==s◌}
use shitty_redis.Stream.Types.{StreamId, Stream}
use shitty_redis.Stream.Ids.{
  dash, star, split_dash, prepend, uint_or_err, split_id, not_after, validate_id,
  validate_stream_entry_id, format_id, generate_both, generate_seq, generate_second, generate_parts,
  generate_stream_entry_id, has_star, xadd_id,
}

split_dash-digits : (ds : Bytes) → All IsDigit ds → split_dash ds ≡ ds ∷ []
unfolding split_dash prepend
split_dash-digits [] h = refl
split_dash-digits (d ∷ ds) (hd, hs) =
    let no_dash : (d == dash) ≡ false = ground arith in rw (no_dash, split_dash-digits ds hs) refl

pub split_dash-parts :
    (ds rest : Bytes) → All IsDigit ds → split_dash (ds ++ (dash ∷ rest)) ≡ ds ∷ split_dash rest
unfolding split_dash prepend
split_dash-parts [] rest h = refl
split_dash-parts (d ∷ ds) rest (hd, hs) =
    let no_dash : (d == dash) ≡ false = ground arith in
    rw (no_dash, split_dash-parts ds rest hs) refl

-- Both parts are uint64s.
pub record IsId (id : StreamId) : Type 0 where
  pub ms_fits : id.ms < 2 ^ 64
  pub seq_fits : id.seq < 2 ^ 64

-- An id that is printed reads back.
pub split_id-format_id : (id : StreamId) → IsId id → split_id (format_id id.ms id.seq) ≡ ok id
unfolding split_id format_id
split_id-format_id id h =
    rw
      (
        split_dash-parts (format_uint id.ms) (format_uint id.seq)
            (format_uint-IsDigit id.ms h.ms_fits),
        split_dash-digits (format_uint id.seq) (format_uint-IsDigit id.seq h.seq_fits),
      )
      (rw (parse_uint-format_uint id.ms h.ms_fits, parse_uint-format_uint id.seq h.seq_fits)
        (unfold uint_or_err in refl))

-- The id comes after the last one, and is not 0-0.
abbrev pub After : StreamId → Option StreamId → Type 0
After id none = 0 < id.ms + id.seq
After id (some last) =
    (0 < id.ms + id.seq) × ((last.ms < id.ms) ⊎ ((last.ms ≡ id.ms) × (last.seq < id.seq)))

validate_id-After :
    (id : StreamId) (last : Option StreamId) → validate_id id last ≡ ok tt → After id last
unfolding validate_id not_after
validate_id-After id none e = ground arith
validate_id-After id (some last) e = elim (Bool-cases (ltb last.ms id.ms)) [
  | inl more ↦ (ground arith, inl (ground arith))
  | inr same ↦ (ground arith, inr (ground arith, ground arith))
]

-- The last id is a pair of uint64s, its sequence number not the largest.
abbrev pub Room : Option StreamId → Type 0
Room none = Unit
Room (some last) = (last.ms < 2 ^ 64) × (last.seq < 2 ^ 64 - 1)

-- A text that reads as an id after the last one.
abbrev pub Names : Bytes → Option StreamId → Type 0
Names text last = (id : StreamId) × (split_id text ≡ ok id) × After id last

named :
    (id : StreamId) (last : Option StreamId)
    → IsId id
    → After id last
    → Names (format_id id.ms id.seq) last
named id last h a = (id, split_id-format_id id h, a)

generate_both-Names :
    (now : ℕ) (last : Option StreamId)
    → 0 < now
    → now < 2 ^ 64
    → Room last
    → Names (generate_both now last) last
unfolding generate_both
generate_both-Names now none p h r =
    named (record { ms = now; seq = 0 }) none (omega arith) (omega arith)
generate_both-Names now (some last) p h r = elim (Bool-cases (ltb last.ms now)) [
  | inl e ↦ rw e (named (record { ms = now; seq = 0 }) (some last) (omega arith) (ground arith))
  | inr e ↦ rw e (
      let next : (last.seq + 1) % 2 ^ 64 ≡ last.seq + 1 = omega arith in
      rw next (
        named (record { ms = last.ms; seq = last.seq + 1 }) (some last) (omega arith)
          (ground arith)))
]

renamed :
    (a b : Bytes) (last : Option StreamId)
    → Names a last
    → ◌≡◌ {A = Run Bytes} (ok a) (ok b)
    → Names b last
renamed a b last n e = let same : a ≡ b = cc in subst (λ (t : Bytes). Names t last) same n

generate_seq-Names :
    (ms : ℕ) (last : Option StreamId) (text : Bytes)
    → ms < 2 ^ 64
    → Room last
    → generate_seq ms last ≡ ok text
    → Names text last
unfolding generate_seq
generate_seq-Names ms none text h r e = elim (Bool-cases (ms == 0)) [
  | inl z ↦
      renamed _ text none (named (record { ms = ms; seq = 1 }) none (omega arith) (omega arith))
        (rw z at e)
  | inr p ↦
      renamed _ text none (named (record { ms = ms; seq = 0 }) none (omega arith) (ground arith))
        (rw p at e)
]
generate_seq-Names ms (some last) text h r e = elim (Bool-cases (ltb ms last.ms)) [
  | inl less ↦ absurd (ground arith)
  | inr more ↦ elim (Bool-cases (ltb last.ms ms)) [
    | inl after ↦
        renamed (format_id ms 0) text (some last)
          (named (record { ms = ms; seq = 0 }) (some last) (omega arith) (ground arith))
          (ground arith)
    | inr same ↦
        let next : (last.seq + 1) % 2 ^ 64 ≡ last.seq + 1 = omega arith in
        renamed (format_id last.ms (last.seq + 1)) text (some last)
          (named (record { ms = last.ms; seq = last.seq + 1 }) (some last) (omega arith)
            (ground arith))
          (ground (arith, next))
  ]
]

uint_or_err-lt : (s : Bytes) (n : ℕ) → uint_or_err (parse_uint s) ≡ ok n → n < 2 ^ 64
unfolding uint_or_err parse_uint below
uint_or_err-lt s n e = elim (Option-cases (parse_number s)) [
  | inl f ↦ ground arith
  | inr (k, f) ↦ ground arith
]

-- The ids that are generated.
module _ (now : ℕ) (last : Option StreamId) (text : Bytes) (p : 0 < now) (h : now < 2 ^ 64)
    (r : Room last) where
  second-Names :
      (part : Bytes) (parts : List Bytes) (s : Bytes)
      → get_elem? parts 1 ≡ some s
      → (s ==s star) ≡ true
      → generate_second part parts last ≡ ok text
      → Names text last
  unfolding generate_second
  second-Names part parts s got starred e =
      let e' : (uint_or_err (parse_uint part) >>= λ ms. generate_seq ms last) ≡ ok text =
        sym (rw (got, starred) refl) ∙ e in
      let (ms, parsed, made) =
        >>=-eq-ok (uint_or_err (parse_uint part)) (λ ms. generate_seq ms last) e' in
      generate_seq-Names ms last text (uint_or_err-lt part ms parsed) r made

  generate_parts-Names :
      (parts : List Bytes)
      → has_star parts ≡ ok true
      → generate_parts now parts last ≡ ok text
      → Names text last
  unfolding has_star generate_parts
  generate_parts-Names [] s e = cc
  generate_parts-Names (part ∷ []) s e = elim (Bool-cases (part ==s star)) [
    | inl both ↦
        renamed (generate_both now last) text last (generate_both-Names now last p h r)
          (ground arith)
    | inr single ↦ absurd (ground arith)
  ]
  generate_parts-Names (part ∷ second ∷ parts) s e = elim (Bool-cases (part ==s star)) [
    | inl both ↦
        renamed (generate_both now last) text last (generate_both-Names now last p h r)
          (ground arith)
    | inr single ↦
        second-Names part (part ∷ second ∷ parts) second refl (ground arith) (ground arith)
  ]

checked-Names :
    (id text : Bytes) (st : Stream)
    → (validate_stream_entry_id id st >>= λ valid. ok id) ≡ ok text
    → Names text st.last_id
unfolding validate_stream_entry_id
checked-Names id text st e =
    let (valid, checked, same) = >>=-eq-ok (validate_stream_entry_id id st) (λ valid. ok id) e in
    let (parsed, split, fits) = >>=-eq-ok (split_id id) (λ i. validate_id i st.last_id) checked in
    renamed id text st.last_id (parsed, split, validate_id-After parsed st.last_id fits) same

-- Before the sequence numbers run out, and with a clock above 0 and below 2 ^ 64, every id that
-- `xadd` accepts or makes reads as an id after 0-0 and after the last one.
pub xadd_id-Names :
    (now : ℕ) (id text : Bytes) (st : Stream)
    → 0 < now
    → now < 2 ^ 64
    → Room st.last_id
    → xadd_id now id st ≡ ok text
    → Names text st.last_id
unfolding xadd_id generate_stream_entry_id
xadd_id-Names now id text st p h r e =
    let (starred, s, e') = >>=-eq-ok (has_star (split_dash id)) _ e in by_star starred s e'
  where
    by_star :
        (starred : Bool)
        → has_star (split_dash id) ≡ ok starred
        → (if starred
            then generate_stream_entry_id now id st
            else validate_stream_entry_id id st >>= λ valid. ok id)
          ≡ ok text
        → Names text st.last_id
    by_star true s e = generate_parts-Names now st.last_id text p h r (split_dash id) s e
    by_star false s e = checked-Names id text st e
