-- ===== src/Command/Xread.antt =====
-- app/com.go and app/handlers.go: `xread`, from the check of its arguments to the handler's reads.
use shitty_redis.Base.{
  ℕ, zero, suc, ◌/◌, ◌%◌, ◌≤◌, ◌<◌, ◌≡◌, ◌≢◌, refl, ap, ◌∙◌, All, arith, Bool-cases, inl, inr,
  Option, none, some, List, [], ◌∷◌, ◌++◌, length, take, drop, ◌==◌, Bool, true, false, length-drop,
  if◌then◌else◌,
}
use mathlib.Core.Option
use shitty_redis.Base.Go.{Bytes, Run, ok, err, panic, ◌>>=◌}
use shitty_redis.Resp.Wire.{to_lower}
use shitty_redis.Txns.Watching.{same_key}
use shitty_redis.Command.Name
use shitty_redis.Command.Fields.{◌==s◌, Com, Fields, put, put_arg, value_at}
use shitty_redis.Command.Validate.{
  command, get_com, validate, xread, validate_xread, xread_at, xread_parts, xread_options,
  assign_reqs, index_of,
}
use shitty_redis.Command.Reads.{checked_reads, reads, matching}

-- Arguments in which the word `streams` is at an index, or nowhere.
unfoldable pub xread_result : Option ℕ → List Bytes → Run (List Bytes)
xread_result none args = err
xread_result (some i) args =
    let reqs = drop (suc i) args in
    if length reqs % 2 == 0 then if i % 2 == 0 then ok reqs else panic else err

length-take_le : (i : ℕ) (args : List Bytes) → i ≤ length args → length (take i args) ≡ i
length-take_le zero args h = refl
length-take_le (suc i) [] h = absurd (omega arith)
length-take_le (suc i) (a ∷ args) h = ap suc (length-take_le i args (omega arith))

take-drop : (i : ℕ) (args : List Bytes) → take i args ++ drop i args ≡ args
take-drop zero args = refl
take-drop (suc i) [] = refl
take-drop (suc i) (a ∷ args) = ap (◌∷◌ a) (take-drop i args)

length-drop_half :
    (args : List Bytes)
    → length args % 2 ≡ 0
    → length (take (length args / 2) args) ≡ length (drop (length args / 2) args)
length-drop_half args h =
    omega (
      arith,
      length-drop (length args / 2) args,
      length-take_le (length args / 2) args (omega arith),
    )

matching-eq : (ks ids : List Bytes) → length ks ≡ length ids → matching ks ids ≡ ok ids
unfolding matching
matching-eq [] [] h = refl
matching-eq [] (i ∷ ids) h = absurd (omega arith)
matching-eq (k ∷ ks) [] h = absurd (omega arith)
matching-eq (k ∷ ks) (i ∷ ids) h = rw (matching-eq ks ids (omega arith)) refl

xread_options-even :
    (opts : List Bytes) (extras : Fields)
    → length opts % 2 ≡ 0
    → (extras' : Fields) × (xread_options opts extras ≡ ok extras')
unfolding xread_options
xread_options-even [] extras h = (extras, refl)
xread_options-even (o ∷ []) extras h = absurd (omega arith)
xread_options-even (o ∷ v ∷ opts) extras h = xread_options-even opts _ (omega arith)

xread_options-odd :
    (opts : List Bytes) (extras : Fields) → length opts % 2 ≡ 1 → xread_options opts extras ≡ panic
unfolding xread_options
xread_options-odd [] extras h = absurd (omega arith)
xread_options-odd (o ∷ []) extras h = refl
xread_options-odd (o ∷ v ∷ opts) extras h = xread_options-odd opts _ (omega arith)

abbrev assigned : Bytes → List Bytes → List Bytes → Com
assigned base ks ids = record {
  base = base;
  args = (Name.keys, ks) ∷ (Name.ids, ids) ∷ [];
  extras = [];
}

abbrev halves : Bytes → List Bytes → Com
halves base reqs = assigned base (take (length reqs / 2) reqs) (drop (length reqs / 2) reqs)

assign_reqs-again :
    (n : ℕ) (base : Bytes) (reqs : List Bytes)
    → assign_reqs n reqs (halves base reqs) ≡ halves base reqs
unfolding assign_reqs put_arg put ◌==s◌
assign_reqs-again zero base reqs = refl
assign_reqs-again (suc n) base reqs = assign_reqs-again n base reqs

abbrev fresh : Bytes → Com
fresh base = record { base = base; args = []; extras = [] }

assign_reqs-fresh :
    (base : Bytes) (reqs : List Bytes) (r : Bytes)
    → assign_reqs (length (r ∷ reqs)) (r ∷ reqs) (fresh base) ≡ halves base (r ∷ reqs)
unfolding assign_reqs put_arg put ◌==s◌
assign_reqs-fresh base reqs r = assign_reqs-again (length reqs) base (r ∷ reqs)

abbrev read_parts : Bytes → List Bytes → List Bytes → Run (List Bytes)
read_parts base nonreqs reqs =
    xread_parts nonreqs reqs (fresh base) >>= λ cmd. reads (command cmd.base) cmd

module _ (base : Bytes) (e : command base ≡ xread) where
  read_parts-odd_reqs :
      (nonreqs reqs : List Bytes) → length reqs % 2 ≡ 1 → read_parts base nonreqs reqs ≡ err
  unfolding xread_parts
  read_parts-odd_reqs nonreqs reqs h =
      let no : (length reqs % 2 == 0) ≡ false = ground arith in rw no refl

  read_parts-odd_options :
      (nonreqs reqs : List Bytes)
      → length reqs % 2 ≡ 0
      → length nonreqs % 2 ≡ 1
      → read_parts base nonreqs reqs ≡ panic
  unfolding xread_parts
  read_parts-odd_options nonreqs reqs h o =
      let yes : (length reqs % 2 == 0) ≡ true = ground arith in
      rw (yes, xread_options-odd nonreqs _ o) refl

  read_halves :
      (reqs : List Bytes) (extras : Fields)
      → length reqs % 2 ≡ 0
      → reads (command base) (record (halves base reqs) { extras = extras }) ≡ ok reqs
  unfolding reads value_at ◌==s◌
  read_halves reqs extras h =
      rw
        (
          e,
          matching-eq (take (length reqs / 2) reqs) (drop (length reqs / 2) reqs)
              (length-drop_half reqs h),
        )
        (rw (take-drop (length reqs / 2) reqs) refl)

  read_none :
      (extras : Fields) → reads (command base) (record (fresh base) { extras = extras }) ≡ ok []
  unfolding reads value_at matching
  read_none extras = rw e refl

  read_parts-ok :
      (nonreqs reqs : List Bytes)
      → length reqs % 2 ≡ 0
      → length nonreqs % 2 ≡ 0
      → read_parts base nonreqs reqs ≡ ok reqs
  unfolding xread_parts
  read_parts-ok nonreqs [] h o =
      let (extras, eq) = xread_options-even nonreqs [] o in
      unfold assign_reqs in rw eq (read_none extras)
  read_parts-ok nonreqs (r ∷ reqs) h o =
      let (extras, eq) = xread_options-even nonreqs [] o in
      let yes : (length (r ∷ reqs) % 2 == 0) ≡ true = ground arith in
      rw (yes, assign_reqs-fresh base reqs r, eq) (read_halves (r ∷ reqs) extras h)

bound_step :
    (b : Bool) (o : Option ℕ) (n i : ℕ)
    → ((j : ℕ) → o ≡ some j → j < n)
    → (if b then some 0 else Option.map suc o) ≡ some i
    → i < suc n
bound_step true o n i bound h = grind arith
bound_step false none n i bound h = grind arith
bound_step false (some j) n i bound h = let less : j < n = bound j refl in grind arith

index_of-bound :
    (target : Bytes) (args : List Bytes) (i : ℕ) → index_of target args ≡ some i → i < length args
unfolding index_of
index_of-bound target [] i h = grind arith
index_of-bound target (a ∷ args) i h =
    bound_step (to_lower a ==s target) (index_of target args) (length args) i
      (index_of-bound target args) h

module _ (base : Bytes) (e : command base ≡ xread) where
  result_at :
      (o : Option ℕ) (args : List Bytes)
      → ((i : ℕ) → o ≡ some i → i < length args)
      → (xread_at o args (fresh base) >>= λ cmd. reads (command cmd.base) cmd) ≡ xread_result o args
  unfolding xread_at xread_result
  result_at none args b = refl
  result_at (some i) args b =
      let len : length (take i args) ≡ i = length-take_le i args (omega (arith, b i refl)) in
      elim (Bool-cases (length (drop (suc i) args) % 2 == 0)) [
        | inr odd ↦
            rw odd (read_parts-odd_reqs base e (take i args) (drop (suc i) args) (ground arith))
        | inl even ↦ rw even elim (Bool-cases (i % 2 == 0)) [
          | inl p ↦ rw p (
              read_parts-ok base e (take i args) (drop (suc i) args) (ground arith)
                (rw len (ground arith)))
          | inr p ↦ rw p (
              read_parts-odd_options base e (take i args) (drop (suc i) args) (ground arith)
                (rw len (ground arith)))
        ]
      ]

-- `xread` is an error when the word `streams` is not there or an odd number of arguments follows
-- its first occurrence; otherwise it panics when an odd number comes before it, and else its
-- handler reads exactly the arguments behind the word, as keys and ids.
pub checked_reads-xread_result :
    (base : Bytes) (args : List Bytes)
    → command base ≡ xread
    → checked_reads base args ≡ xread_result (index_of Name.streams args) args
unfolding checked_reads get_com validate validate_xread
checked_reads-xread_result base args e =
    rw e (result_at base e (index_of Name.streams args) args (index_of-bound Name.streams args))

abbrev pub streams_word : Bytes
streams_word = b's' ∷ b't' ∷ b'r' ∷ b'e' ∷ b'a' ∷ b'm' ∷ b's' ∷ []

-- Any other word, in letters of any case.
abbrev pub IsOther : Bytes → Type 0
IsOther a = to_lower a ≢ streams_word

differs : (a : Bytes) → IsOther a → (to_lower a ==s streams_word) ≡ false
differs a n = elim (Bool-cases (to_lower a ==s streams_word)) [
  | inl e ↦ absurd (n (same_key (to_lower a) streams_word e))
  | inr e ↦ e
]

index_of-none : (args : List Bytes) → All IsOther args → index_of Name.streams args ≡ none
unfolding index_of
index_of-none [] h = refl
index_of-none (a ∷ args) (n, h) = rw (differs a n, index_of-none args h) refl

index_of-length :
    (before : List Bytes) (word : Bytes) (after : List Bytes)
    → All IsOther before
    → to_lower word ≡ streams_word
    → index_of Name.streams (before ++ (word ∷ after)) ≡ some (length before)
unfolding index_of ◌==s◌
index_of-length [] word after h e = rw e refl
index_of-length (a ∷ before) word after (n, h) e =
    rw (differs a n, index_of-length before word after h e) refl

drop-behind :
    (before : List Bytes) (word : Bytes) (after : List Bytes)
    → drop (suc (length before)) (before ++ (word ∷ after)) ≡ after
drop-behind [] word after = refl
drop-behind (a ∷ before) word after = drop-behind before word after

-- `xread` without the word `streams`, in letters of any case, among its arguments is an error.
-- Where the word stands first behind the arguments `before` and in front of `after`: it is an
-- error when the number of arguments in `after` is odd; else a panic when the number in `before`
-- is odd; and else the handler reads exactly `after`, as keys and ids.
pub checked_reads-streams :
    (base : Bytes) (before : List Bytes) (word : Bytes) (after : List Bytes)
    → command base ≡ xread
    → All IsOther before
    → to_lower word ≡ streams_word
    → (checked_reads base before ≡ err)
      × (checked_reads base (before ++ (word ∷ after)) ≡ (
          if length after % 2 == 0
          then if length before % 2 == 0 then ok after else panic
          else err))
checked_reads-streams base before word after e others is_word = (
  checked_reads-xread_result base before e
      ∙ (ap (λ o. xread_result o before) (index_of-none before others) ∙ none_there),
  checked_reads-xread_result base (before ++ (word ∷ after)) e
      ∙ (ap (λ o. xread_result o (before ++ (word ∷ after)))
            (index_of-length before word after others is_word)
          ∙ found),
)
  where
    none_there : xread_result none before ≡ err
    none_there = unfold xread_result in refl

    found : xread_result (some (length before)) (before ++ (word ∷ after)) ≡ (
        if length after % 2 == 0 then if length before % 2 == 0 then ok after else panic else err)
    found = unfold xread_result in rw (drop-behind before word after) refl
