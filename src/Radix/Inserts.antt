-- ===== src/Radix/Inserts.antt =====
-- `Insert` (app/structures/radix/radix.go).
use shitty_redis.Base.{
  ℕ, ◌≡◌, refl, sym, ap, ◌∙◌, true, false, [], ◌∷◌, ◌++◌, Option, none, some, ◌==◌, ltb,
  if◌then◌else◌, length, length-append, take, take-append, drop-append, append-nil, arith,
  Bool-cases, inl, inr,
}
use shitty_redis.Base.Go.{Bytes, Run, ok}
use shitty_redis.Command.Fields.{◌==s◌}
use shitty_redis.Radix.Tree.{Rax, Kids, node, nil, cons}
use shitty_redis.Radix.Ops.{new, place, insert_kid, insert_cur, insert, at_end, get_kid, get}
use shitty_redis.Radix.Finds.{
  Parts, split, lcp-common, byte_behind, get_next-leaf, get_next-under, at_node, below_node,
  above_node, beside_node, Replaced, Linked,
}

-- The children behind the next round, when there is one.
abbrev Deeper {ℓ} : {V : Type ℓ} → V → Kids V → Bytes → Type ℓ
Deeper v ks [] = Unit {ℓ}
Deeper v ks (a ∷ x) = Linked (a ∷ x) v ks (insert_kid (a ∷ x) v ks)

module _ {ℓ} {V : Type ℓ} (v : V) (o : Option V) (ks : Kids V) (c : Bytes) where
  same_length : (length c == length c) ≡ true
  same_length = ground arith

  module _ (a : ℕ) (x : Bytes) where
    longer_eq : (length c == length (c ++ (a ∷ x))) ≡ false
    longer_eq = let l = length-append c (a ∷ x) in ground arith

    longer_lt : ltb (length c) (length (c ++ (a ∷ x))) ≡ true
    longer_lt = let l = length-append c (a ∷ x) in ground arith

  -- The four cases of the switch.
  place_same :
      (below : Run (Kids V))
      → place (c ++ []) v (c ++ []) o ks (length c) below ≡ ok (node c (some v) ks)
  unfolding place
  place_same below = rw (append-nil c, same_length) refl

  place_below :
      (a : ℕ) (x : Bytes) (below : Run (Kids V)) (ks' : Kids V)
      → below ≡ ok ks'
      → place (c ++ (a ∷ x)) v (c ++ []) o ks (length c) below ≡ ok (node c o ks')
  unfolding place
  place_below a x below ks' e = rw (e, append-nil c, same_length, longer_eq a x, longer_lt a x) refl

  place_above :
      (b : ℕ) (y : Bytes) (below : Run (Kids V))
      → place (c ++ []) v (c ++ (b ∷ y)) o ks (length c) below
        ≡ ok (node c (some v) (cons b (node (b ∷ y) o ks) nil))
  unfolding place
  place_above b y below =
      rw
        (
          append-nil c,
          longer_eq b y,
          longer_lt b y,
          same_length,
          byte_behind c b y,
          drop-append c (b ∷ y),
          take_whole,
        )
        refl
    where
      take_whole : take (length c) c ≡ c
      take_whole = ap (take (length c)) (sym (append-nil c)) ∙ take-append c []

  place_beside :
      (a b : ℕ) (x y : Bytes) (below : Run (Kids V))
      → place (c ++ (a ∷ x)) v (c ++ (b ∷ y)) o ks (length c) below
        ≡ ok (node c none (cons b (node (b ∷ y) o ks) (cons a (node (a ∷ x) (some v) nil) nil)))
  unfolding place new
  place_beside a b x y below =
      rw
        (
          longer_eq b y,
          longer_lt b y,
          longer_eq a x,
          byte_behind c b y,
          byte_behind c a x,
          drop-append c (b ∷ y),
          drop-append c (a ∷ x),
          take-append c (a ∷ x),
        )
        refl

  place-Replaced :
      (x y : Bytes)
      → Parts x y
      → Deeper v ks x
      → Replaced
          (c ++ x)
          v
          (node (c ++ y) o ks)
          (place (c ++ x) v (c ++ y) o ks (length c) (insert_kid x v ks))
  place-Replaced [] [] p l = record {
    node_after = node c (some v) ks;
    returned = place_same _;
    finds = get_next-under c [] [] v (some v) o ks ks (at_node v o ks);
  }
  place-Replaced (a ∷ x) [] p l = record {
    node_after = node c o l.kids_after;
    returned = place_below a x _ l.kids_after l.returned;
    finds =
        get_next-under c (a ∷ x) [] v o o l.kids_after ks
          (below_node v o ks a x l.kids_after l.finds);
  }
  place-Replaced [] (b ∷ y) p l = record {
    node_after = node c (some v) (cons b (node (b ∷ y) o ks) nil);
    returned = place_above b y _;
    finds = get_next-under c [] (b ∷ y) v (some v) o _ ks (above_node v o ks b y);
  }
  place-Replaced (a ∷ x) (b ∷ y) p l = record {
    node_after = node c none (cons b (node (b ∷ y) o ks) (cons a (node (a ∷ x) (some v) nil) nil));
    returned = place_beside a b x y _;
    finds = get_next-under c (a ∷ x) (b ∷ y) v none o _ ks (λ z. beside_node v o ks a b x y z p);
  }

  insert_cur-split :
      (x y : Bytes)
      → Parts x y
      → Deeper v ks x
      → Replaced (c ++ x) v (node (c ++ y) o ks) (insert_cur (c ++ x) v (node (c ++ y) o ks))
  unfolding insert_cur
  insert_cur-split x y p l = rw (lcp-common c x y p, drop-append c x) (place-Replaced x y p l)

  insert_cur-at :
      (id prefix x y : Bytes)
      → id ≡ c ++ x
      → prefix ≡ c ++ y
      → Parts x y
      → Deeper v ks x
      → Replaced id v (node prefix o ks) (insert_cur id v (node prefix o ks))
  insert_cur-at id prefix x y e f p l = rw (e, f) (insert_cur-split x y p l)

module _ {ℓ} {V : Type ℓ} (v : V) (fb : ℕ) (id : Bytes) where
  insert_kid-nil : Linked (fb ∷ id) v nil (insert_kid (fb ∷ id) v nil)
  unfolding insert_kid get_kid new ◌==s◌
  insert_kid-nil = record {
    kids_after = cons fb (node (fb ∷ id) (some v) nil) nil;
    returned = refl;
    finds = found;
  }
    where
      found :
          (j : Bytes)
          → get_kid j (cons fb (node (fb ∷ id) (some v) nil) nil)
            ≡ (if j ==s (fb ∷ id) then some v else get_kid j nil)
      found [] = refl
      found (c ∷ j) = elim (Bool-cases (c == fb)) [
        | inl e ↦ rw (e, get_next-leaf (c ∷ j) (fb ∷ id) v) (rw e refl)
        | inr e ↦ rw e refl
      ]

  module _ (b : ℕ) (cur : Rax V) (ks : Kids V) where
    insert_kid-here :
        (fb == b) ≡ true
        → Replaced (fb ∷ id) v cur (insert_cur (fb ∷ id) v cur)
        → Linked (fb ∷ id) v (cons b cur ks) (insert_kid (fb ∷ id) v (cons b cur ks))
    unfolding insert_kid get_kid ◌==s◌
    insert_kid-here e r = record {
      kids_after = cons b r.node_after ks;
      returned = rw (e, r.returned) refl;
      finds = found;
    }
      where
        found :
            (j : Bytes)
            → get_kid j (cons b r.node_after ks)
              ≡ (if j ==s (fb ∷ id) then some v else get_kid j (cons b cur ks))
        found [] = refl
        found (c ∷ j) = elim (Bool-cases (c == b)) [
          | inl f ↦ rw f (r.finds (c ∷ j))
          | inr f ↦ let g : (c == fb) ≡ false = ground arith in rw f (rw g refl)
        ]

    insert_kid-there :
        (fb == b) ≡ false
        → Linked (fb ∷ id) v ks (insert_kid (fb ∷ id) v ks)
        → Linked (fb ∷ id) v (cons b cur ks) (insert_kid (fb ∷ id) v (cons b cur ks))
    unfolding insert_kid get_kid ◌==s◌
    insert_kid-there e l = record {
      kids_after = cons b cur l.kids_after;
      returned = rw (e, l.returned) refl;
      finds = found;
    }
      where
        found :
            (j : Bytes)
            → get_kid j (cons b cur l.kids_after)
              ≡ (if j ==s (fb ∷ id) then some v else get_kid j (cons b cur ks))
        found [] = refl
        found (c ∷ j) = elim (Bool-cases (c == b)) [
          | inl f ↦ let g : (c == fb) ≡ false = ground arith in rw f (rw g refl)
          | inr f ↦ rw f (l.finds (c ∷ j))
        ]

deeper {ℓ} :
    {V : Type ℓ} (v : V) (ks : Kids V)
    → ((a : ℕ) (x : Bytes) → Linked (a ∷ x) v ks (insert_kid (a ∷ x) v ks))
    → (x : Bytes) → Deeper v ks x
deeper v ks links [] = tt
deeper v ks links (a ∷ x) = links a x

mutual
  insert_kid-Linked {ℓ} :
      {V : Type ℓ} (v : V) (fb : ℕ) (id : Bytes) (ks : Kids V)
      → Linked (fb ∷ id) v ks (insert_kid (fb ∷ id) v ks)
  insert_kid-Linked v fb id nil = insert_kid-nil v fb id
  insert_kid-Linked v fb id (cons b cur ks) = elim (Bool-cases (fb == b)) [
    | inl e ↦ insert_kid-here v fb id b cur ks e (insert_cur-Replaced v (fb ∷ id) cur)
    | inr e ↦ insert_kid-there v fb id b cur ks e (insert_kid-Linked v fb id ks)
  ]

  insert_cur-Replaced {ℓ} :
      {V : Type ℓ} (v : V) (id : Bytes) (cur : Rax V) → Replaced id v cur (insert_cur id v cur)
  insert_cur-Replaced v id (node prefix o ks) =
      let s = split id prefix in
      insert_cur-at v o ks s.common id prefix s.left s.right s.left_is s.right_is s.parts
        (deeper v ks (λ a x. insert_kid-Linked v a x ks) s.left)

-- What `Insert` leaves behind.
pub record Inserted {ℓ} {V : Type ℓ} (id : Bytes) (v : V) (r : Rax V) (result : Run (Rax V))
    : Type ℓ where
  pub rax_after : Rax V
  pub returned : result ≡ ok rax_after
  pub finds : (j : Bytes) → get j rax_after ≡ (if j ==s id then some v else get j r)

-- `Insert` of a value at a key of at least one byte returns normally, whatever the tree is, and
-- in the tree behind it `Get` finds the value at that key, and at any other key what it found
-- before.
pub insert-get {ℓ} :
    {V : Type ℓ} (v : V) (fb : ℕ) (id : Bytes) (r : Rax V)
    → Inserted (fb ∷ id) v r (insert (fb ∷ id) v r)
unfolding insert get at_end ◌==s◌
insert-get v fb id (node prefix o ks) =
    let l = insert_kid-Linked v fb id ks in
    record { rax_after = node prefix o l.kids_after; returned = rw l.returned refl; finds = found }
  where
    found :
        (j : Bytes)
        → get j (node prefix o (insert_kid-Linked v fb id ks).kids_after)
          ≡ (if j ==s (fb ∷ id) then some v else get j (node prefix o ks))
    found [] = refl
    found (c ∷ j) = (insert_kid-Linked v fb id ks).finds (c ∷ j)
