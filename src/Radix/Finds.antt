-- ===== src/Radix/Finds.antt =====
-- `Insert` and `Get` (app/structures/radix/radix.go) as the operations of a finite map.
use shitty_redis.Base.{
  ℕ, ◌≡◌, refl, ap, true, false, [], ◌∷◌, ◌++◌, Option, none, some, ◌==◌, if◌then◌else◌, get_elem?,
  length, arith, Bool-cases, inl, inr,
}
use shitty_redis.Base.Go.{Bytes, Run, ok}
use shitty_redis.Command.Fields.{◌==s◌}
use shitty_redis.Radix.Tree.{Rax, Kids, node, nil, cons}
use shitty_redis.Radix.Ops.{lcp, has_prefix, at_end, get_kid, get_next}

-- Two lists that part at once.
abbrev pub Parts : Bytes → Bytes → Type 0
Parts [] y = Unit
Parts (a ∷ x) [] = Unit
Parts (a ∷ x) (b ∷ y) = (a == b) ≡ false

pub record Split (id prefix : Bytes) : Type 0 where
  pub common : Bytes
  pub left : Bytes
  pub right : Bytes
  pub left_is : id ≡ common ++ left
  pub right_is : prefix ≡ common ++ right
  pub parts : Parts left right

pub same_byte : (a b : ℕ) → (a == b) ≡ true → a ≡ b
same_byte a b e = ground arith

no_common : (id prefix : Bytes) → Parts id prefix → Split id prefix
no_common id prefix p = record {
  common = [];
  left = id;
  right = prefix;
  left_is = refl;
  right_is = refl;
  parts = p;
}

pub split : (id prefix : Bytes) → Split id prefix
split [] prefix = no_common [] prefix tt
split (a ∷ id) [] = no_common (a ∷ id) [] tt
split (a ∷ id) (b ∷ prefix) = elim (Bool-cases (a == b)) [
  | inl e ↦
      let s = split id prefix in
      record {
        common = a ∷ s.common;
        left = s.left;
        right = s.right;
        left_is = ap (λ (t : Bytes). a ∷ t) s.left_is;
        right_is = rw (same_byte a b e) (ap (λ (t : Bytes). b ∷ t) s.right_is);
        parts = s.parts;
      }
  | inr e ↦ no_common (a ∷ id) (b ∷ prefix) e
]

lcp-Parts : (x y : Bytes) → Parts x y → lcp x y ≡ 0
unfolding lcp
lcp-Parts [] y p = refl
lcp-Parts (a ∷ x) [] p = refl
lcp-Parts (a ∷ x) (b ∷ y) p = rw p refl

pub lcp-common : (c x y : Bytes) → Parts x y → lcp (c ++ x) (c ++ y) ≡ length c
unfolding lcp
lcp-common [] x y p = lcp-Parts x y p
lcp-common (a ∷ c) x y p =
    let same : (a == a) ≡ true = ground arith in rw (same, lcp-common c x y p) refl

pub byte_behind : (c : Bytes) (b : ℕ) (y : Bytes) → get_elem? (c ++ (b ∷ y)) (length c) ≡ some b
byte_behind [] b y = refl
byte_behind (a ∷ c) b y = byte_behind c b y

module _ {ℓ} {V : Type ℓ} where
  -- A leaf, and what `Get` finds below a shared prefix.
  pub get_next-leaf :
      (z id : Bytes) (v : V)
      → get_next z (node id (some v) nil) ≡ (if z ==s id then some v else none)
  unfolding get_next has_prefix ◌==s◌ at_end get_kid
  get_next-leaf [] [] v = refl
  get_next-leaf [] (a ∷ id) v = refl
  get_next-leaf (b ∷ z) [] v = refl
  get_next-leaf (b ∷ z) (a ∷ id) v = elim (Bool-cases (a == b)) [
    | inl e ↦ let f : (b == a) ≡ true = ground arith in rw (e, f) (get_next-leaf z id v)
    | inr e ↦ let f : (b == a) ≡ false = ground arith in rw (e, f) refl
  ]

  pub get_next-under :
      (c x y : Bytes) (v : V) (o' o : Option V) (ks' ks : Kids V)
      → ((z : Bytes)
          → at_end z o' (get_kid z ks') ≡ (if z ==s x then some v else get_next z (node y o ks)))
      → (j : Bytes)
      → get_next j (node c o' ks')
        ≡ (if j ==s (c ++ x) then some v else get_next j (node (c ++ y) o ks))
  unfolding get_next has_prefix ◌==s◌
  get_next-under [] x y v o' o ks' ks law j = law j
  get_next-under (a ∷ c) x y v o' o ks' ks law [] = refl
  get_next-under (a ∷ c) x y v o' o ks' ks law (b ∷ j) = elim (Bool-cases (a == b)) [
    | inl e ↦
        let f : (b == a) ≡ true = ground arith in
        rw (e, f) (get_next-under c x y v o' o ks' ks law j)
    | inr e ↦ let f : (b == a) ≡ false = ground arith in rw (e, f) refl
  ]

  -- A node that replaces `cur`.
  pub record Replaced (id : Bytes) (v : V) (cur : Rax V) (r : Run (Rax V)) : Type ℓ where
    pub node_after : Rax V
    pub returned : r ≡ ok node_after
    pub finds : (j : Bytes) → get_next j node_after ≡ (if j ==s id then some v else get_next j cur)

  -- The children that replace `kids`.
  pub record Linked (id : Bytes) (v : V) (kids : Kids V) (r : Run (Kids V)) : Type ℓ where
    pub kids_after : Kids V
    pub returned : r ≡ ok kids_after
    pub finds : (j : Bytes) → get_kid j kids_after ≡ (if j ==s id then some v else get_kid j kids)

  -- What replaces a node with the rest `y` of its prefix, by what `x` is left of the id.
  module _ (v : V) (o : Option V) (ks : Kids V) where
    pub at_node :
        (z : Bytes)
        → at_end z (some v) (get_kid z ks)
          ≡ (if z ==s [] then some v else get_next z (node [] o ks))
    unfolding at_end ◌==s◌ get_next has_prefix
    at_node [] = refl
    at_node (c ∷ z) = refl

    pub below_node :
        (a : ℕ) (x : Bytes) (ks' : Kids V)
        → ((j : Bytes) → get_kid j ks' ≡ (if j ==s (a ∷ x) then some v else get_kid j ks))
        → (z : Bytes)
        → at_end z o (get_kid z ks') ≡ (if z ==s (a ∷ x) then some v else get_next z (node [] o ks))
    unfolding at_end ◌==s◌ get_next has_prefix
    below_node a x ks' law [] = refl
    below_node a x ks' law (c ∷ z) = law (c ∷ z)

    pub above_node :
        (b : ℕ) (y z : Bytes)
        → at_end z (some v) (get_kid z (cons b (node (b ∷ y) o ks) nil))
          ≡ (if z ==s [] then some v else get_next z (node (b ∷ y) o ks))
    unfolding at_end ◌==s◌ get_next get_kid has_prefix
    above_node b y [] = refl
    above_node b y (c ∷ z) = elim (Bool-cases (c == b)) [
      | inl e ↦ rw e refl
      | inr e ↦ let f : (b == c) ≡ false = ground arith in rw (e, f) refl
    ]

    pub beside_node :
        (a b : ℕ) (x y z : Bytes)
        → (a == b) ≡ false
        → at_end z none
            (get_kid z (cons b (node (b ∷ y) o ks) (cons a (node (a ∷ x) (some v) nil) nil)))
          ≡ (if z ==s (a ∷ x) then some v else get_next z (node (b ∷ y) o ks))
    unfolding at_end ◌==s◌ get_kid
    beside_node a b x y [] ne = unfold get_next in unfold has_prefix in refl
    beside_node a b x y (c ∷ z) ne = elim (Bool-cases (c == b)) [
      | inl e ↦ let f : (c == a) ≡ false = ground arith in rw (e, f) refl
      | inr e ↦
          let g : get_next (c ∷ z) (node (b ∷ y) o ks) ≡ none =
            let f : (b == c) ≡ false = ground arith in
            unfold get_next in unfold has_prefix in rw f refl in
          elim (Bool-cases (c == a)) [
            | inl f ↦ rw (e, f, get_next-leaf (c ∷ z) (a ∷ x) v, g) (unfold ◌==s◌ in rw f refl)
            | inr f ↦ rw (e, f, g) refl
          ]
    ]
