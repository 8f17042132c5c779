-- ===== src/Contacts/Query/Order.antt =====
-- The order of the contacts is strict and total.
use axe_voice_desktop.Prelude.{
  Bool, true, false, ◌≡◌, ◌≢◌, ◌⊎◌, ltb, [], ◌∷◌, inl, inr, refl, arith, Text,
}
use axe_voice_desktop.Contacts.Book.{Contact}
use axe_voice_desktop.Contacts.Query.{Ordering, by_flag, comes_before, compare, or_by}

abbrev flip : Ordering → Ordering
flip Ordering.less = Ordering.greater
flip Ordering.equal = Ordering.equal
flip Ordering.greater = Ordering.less

-- Less, then less; or equal on either side.
abbrev then_by : Ordering → Ordering → Ordering
then_by Ordering.less Ordering.less = Ordering.less
then_by Ordering.less Ordering.equal = Ordering.less
then_by Ordering.equal y = y
then_by x y = Ordering.greater

-- Going on from one comparison to the next does not lead back.
abbrev Chains : Ordering → Ordering → Ordering → Type 0
Chains x y z =
    ((x ≡ Ordering.equal) × (z ≡ y))
    ⊎ ((y ≡ Ordering.equal) × (z ≡ x))
    ⊎ ((x ≡ Ordering.less) × (y ≡ Ordering.less) × (z ≡ Ordering.less))
    ⊎ (x ≡ Ordering.greater)
    ⊎ (y ≡ Ordering.greater)

compare_self : (xs : Text) → compare xs xs ≡ Ordering.equal
unfolding compare
compare_self [] = refl
compare_self (x ∷ xs) = ground (arith, compare_self xs)

compare-flip : (xs ys : Text) → compare ys xs ≡ flip (compare xs ys)
unfolding compare
compare-flip [] [] = refl
compare-flip [] (y ∷ ys) = refl
compare-flip (x ∷ xs) [] = refl
compare-flip (x ∷ xs) (y ∷ ys) = ground (arith, compare-flip xs ys)

compare-Chains : (xs ys zs : Text) → Chains (compare xs ys) (compare ys zs) (compare xs zs)
unfolding compare
compare-Chains [] [] zs = inl (refl, refl)
compare-Chains [] (y ∷ ys) [] = ground arith
compare-Chains [] (y ∷ ys) (z ∷ zs) = ground arith
compare-Chains (x ∷ xs) [] zs = ground arith
compare-Chains (x ∷ xs) (y ∷ ys) [] = ground arith
compare-Chains (x ∷ xs) (y ∷ ys) (z ∷ zs) = ground (arith, compare-Chains xs ys zs)

by_flag-Chains : (x y z : Bool) → Chains (by_flag x y) (by_flag y z) (by_flag x z)
by_flag-Chains true true z = inl (refl, refl)
by_flag-Chains false false z = inl (refl, refl)
by_flag-Chains true false true = ground arith
by_flag-Chains true false false = ground arith
by_flag-Chains false true z = ground arith

by_flag-flip : (x y : Bool) → by_flag y x ≡ flip (by_flag x y)
by_flag-flip true true = refl
by_flag-flip true false = refl
by_flag-flip false true = refl
by_flag-flip false false = refl

-- One comparison before another: transitive if both are.
or_by_trans :
    (x y z : Ordering) (p q r : Bool)
    → Chains x y z
    → (p ≡ true → q ≡ true → r ≡ true)
    → or_by x p ≡ true
    → or_by y q ≡ true
    → or_by z r ≡ true
or_by_trans x y z p q r h k l m = ground (arith, h, k, l, m)

abbrev by_destinations : Contact → Contact → Bool
by_destinations x y = or_by (compare x.destination y.destination) (ltb x.id y.id)

abbrev by_names : Contact → Contact → Bool
by_names x y = or_by (compare x.name y.name) (by_destinations x y)

comes_before_trans :
    (a b c : Contact) → comes_before a b ≡ true → comes_before b c ≡ true → comes_before a c ≡ true
unfolding comes_before
comes_before_trans a b c =
    or_by_trans (by_flag a.favorite b.favorite) (by_flag b.favorite c.favorite)
      (by_flag a.favorite c.favorite) (by_names a b) (by_names b c) (by_names a c)
      (by_flag-Chains a.favorite b.favorite c.favorite)
      (or_by_trans (compare a.name b.name) (compare b.name c.name) (compare a.name c.name)
        (by_destinations a b) (by_destinations b c) (by_destinations a c)
        (compare-Chains a.name b.name c.name)
        (or_by_trans (compare a.destination b.destination) (compare b.destination c.destination)
          (compare a.destination c.destination) (ltb a.id b.id) (ltb b.id c.id) (ltb a.id c.id)
          (compare-Chains a.destination b.destination c.destination) (λ h k. ground (arith, h, k))))

comes_before_self : (a : Contact) → comes_before a a ≡ false
unfolding comes_before
comes_before_self a = ground (arith, compare_self a.name, compare_self a.destination)

or_by-flip :
    (x : Ordering) (p q : Bool)
    → (p ≡ true) ⊎ (q ≡ true)
    → (or_by x p ≡ true) ⊎ (or_by (flip x) q ≡ true)
or_by-flip Ordering.less p q h = inl refl
or_by-flip Ordering.equal p q h = h
or_by-flip Ordering.greater p q h = inr refl

comes_before-total :
    (a b : Contact) → a.id ≢ b.id → (comes_before a b ≡ true) ⊎ (comes_before b a ≡ true)
unfolding comes_before
comes_before-total a b h =
    rw
      (
        by_flag-flip a.favorite b.favorite,
        compare-flip a.name b.name,
        compare-flip a.destination b.destination,
      )
      (or_by-flip (by_flag a.favorite b.favorite) (by_names a b)
        (or_by (flip (compare a.name b.name))
          (or_by (flip (compare a.destination b.destination)) (ltb b.id a.id)))
        (or_by-flip (compare a.name b.name) (by_destinations a b)
          (or_by (flip (compare a.destination b.destination)) (ltb b.id a.id))
          (or_by-flip (compare a.destination b.destination) (ltb a.id b.id) (ltb b.id a.id)
            (ground (arith, h)))))

-- What `std::sort` asks of its comparison, and more: of two contacts with different identifiers one
-- comes first.
pub record IsStrictOrder (before : Contact → Contact → Bool) : Type 0 where
  pub irreflexive : (a : Contact) → before a a ≡ false
  pub transitive : (a b c : Contact) → before a b ≡ true → before b c ≡ true → before a c ≡ true
  pub total : (a b : Contact) → a.id ≢ b.id → (before a b ≡ true) ⊎ (before b a ≡ true)

-- The comparison that is handed to `std::sort` is a strict order, and decides between any two contacts
-- with different identifiers.
pub comes_before-IsStrictOrder : IsStrictOrder comes_before
comes_before-IsStrictOrder = record {
  irreflexive = comes_before_self;
  transitive = comes_before_trans;
  total = comes_before-total;
}
