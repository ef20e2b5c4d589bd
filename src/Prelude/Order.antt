-- ===== src/Prelude/Order.antt =====
-- Strict orders as Boolean tests, combined as in an ORDER BY clause, and the first item by one.

use Prim.Native.Nat.{suc}
use mathlib.Core.Path.{◌≡◌, refl, ap, ◌∙◌}
use mathlib.Core.Logic.{inl, inr}
use mathlib.Core.Bool.{Bool, true, false}
use mathlib.Core.List.{List, [], ◌∷◌}
use native.Mathlib.Omega.{arith}
use mirrortools.Prelude.Tests.{if◌then◌else◌, ltb, Bool-cases}
use mirrortools.Prelude.Lists.{All, All-impl, length, count}

-- What a sort key gives: items that are not ordered either way stand level.
pub record IsWeakOrder {ℓ} {A : Type ℓ} (before : A → A → Bool) : Type ℓ where
  pub asym : (a b : A) → before a b ≡ true → before b a ≡ false
  pub neg_trans : (a b c : A) → before a b ≡ false → before b c ≡ false → before a c ≡ false

module _ {ℓ} {A : Type ℓ} where
  -- First by one order, and where that leaves two items level by the next.
  abbrev pub then_by : (A → A → Bool) → (A → A → Bool) → A → A → Bool
  then_by first second a b = if first a b then true else if first b a then false else second a b

  pub then_by-IsWeakOrder :
      (first second : A → A → Bool)
      → IsWeakOrder first
      → IsWeakOrder second
      → IsWeakOrder (then_by first second)
  then_by-IsWeakOrder first second o p = record {
    asym = λ a b h. ground (arith, o.asym a b, o.asym b a, p.asym a b);
    neg_trans = λ a b c h k. ground (
      arith,
      o.neg_trans a b c,
      o.neg_trans b c a,
      o.neg_trans c a b,
      o.neg_trans c b a,
      o.neg_trans b a c,
      o.neg_trans a c b,
      p.neg_trans a b c,
    );
  }

  -- The reverse order: DESC.
  abbrev pub descending : (A → A → Bool) → A → A → Bool
  descending before a b = before b a

  pub descending-IsWeakOrder :
      (before : A → A → Bool) → IsWeakOrder before → IsWeakOrder (descending before)
  descending-IsWeakOrder before o = record {
    asym = λ a b h. o.asym b a h;
    neg_trans = λ a b c h k. o.neg_trans c b a k h;
  }

  -- The first item: one that no item comes before. Of items that stand level, the earliest.
  unfoldable pub first_by : (A → A → Bool) → A → List A → A
  first_by before best [] = best
  first_by before best (x ∷ xs) = first_by before (if before x best then x else best) xs

  first_by-le :
      (before : A → A → Bool) (o : IsWeakOrder before) (best : A) (xs : List A)
      → before best (first_by before best xs) ≡ false
  unfolding first_by
  first_by-le before o best [] = ground (arith, o.asym best best)
  first_by-le before o best (x ∷ xs) = ground (
    arith,
    first_by-le before o (if before x best then x else best) xs,
    o.asym x best,
    o.neg_trans best x (first_by before x xs),
  )

  pub first_by-IsFirst :
      (before : A → A → Bool) (o : IsWeakOrder before) (best : A) (xs : List A)
      → All (λ x. before x (first_by before best xs) ≡ false) (best ∷ xs)
  unfolding first_by
  first_by-IsFirst before o best [] = (first_by-le before o best [], tt)
  first_by-IsFirst before o best (x ∷ xs) =
      let next = (if before x best then x else best) in
      let chosen = first_by before next xs in
      let rest = first_by-IsFirst before o next xs in
      (
        first_by-le before o best (x ∷ xs),
        (ground (arith, rest.0, o.neg_trans x best chosen), rest.1),
      )

module _ {ℓ κ} {A : Type ℓ} {K : Type κ} where
  -- By a key.
  abbrev pub by_key : (A → K) → (K → K → Bool) → A → A → Bool
  by_key key before a b = before (key a) (key b)

  pub by_key-IsWeakOrder :
      (key : A → K) (before : K → K → Bool) → IsWeakOrder before → IsWeakOrder (by_key key before)
  by_key-IsWeakOrder key before o = record {
    asym = λ a b. o.asym (key a) (key b);
    neg_trans = λ a b c. o.neg_trans (key a) (key b) (key c);
  }

pub ltb-IsWeakOrder : IsWeakOrder ltb
ltb-IsWeakOrder = record { asym = λ a b h. ground arith; neg_trans = λ a b c h k. ground arith }

module _ {ℓ} {A : Type ℓ} (before : A → A → Bool) where
  unfoldable pub insert_sorted : A → List A → List A
  insert_sorted x [] = x ∷ []
  insert_sorted x (y ∷ ys) =
      let later = y ∷ insert_sorted x ys in if before y x then later else x ∷ y ∷ ys

  -- ORDER BY; items that stand level keep their order.
  unfoldable pub sort_by : List A → List A
  unfolding insert_sorted
  sort_by [] = []
  sort_by (x ∷ xs) = insert_sorted x (sort_by xs)

  -- No item comes before an earlier one.
  abbrev pub InOrder : List A → Type 0
  InOrder [] = Unit
  InOrder (x ∷ xs) = All (λ y. before y x ≡ false) xs × InOrder xs

  All-insert_sorted {κ} :
      (P : A → Type κ) (x : A) (ys : List A) → P x → All P ys → All P (insert_sorted x ys)
  unfolding insert_sorted
  All-insert_sorted P x [] px h = (px, tt)
  All-insert_sorted P x (y ∷ ys) px h = elim (Bool-cases (before y x)) [
    | inl e ↦ rw e (h.0, All-insert_sorted P x ys px h.1)
    | inr e ↦ rw e (px, h)
  ]

  pub All-sort_by {κ} : (P : A → Type κ) (xs : List A) → All P xs → All P (sort_by xs)
  unfolding sort_by
  All-sort_by P [] h = tt
  All-sort_by P (x ∷ xs) h = All-insert_sorted P x (sort_by xs) h.0 (All-sort_by P xs h.1)

  length-insert_sorted : (x : A) (ys : List A) → length (insert_sorted x ys) ≡ suc (length ys)
  unfolding insert_sorted
  length-insert_sorted x [] = refl
  length-insert_sorted x (y ∷ ys) = ground (arith, length-insert_sorted x ys)

  pub length-sort_by : (xs : List A) → length (sort_by xs) ≡ length xs
  unfolding sort_by
  length-sort_by [] = refl
  length-sort_by (x ∷ xs) = length-insert_sorted x (sort_by xs) ∙ ap suc (length-sort_by xs)

  count-insert_sorted :
      (p : A → Bool) (x : A) (ys : List A) → count p (insert_sorted x ys) ≡ count p (x ∷ ys)
  unfolding insert_sorted count
  count-insert_sorted p x [] = refl
  count-insert_sorted p x (y ∷ ys) = ground (arith, count-insert_sorted p x ys)

  -- Sorting neither adds nor loses an item.
  pub count-sort_by : (p : A → Bool) (xs : List A) → count p (sort_by xs) ≡ count p xs
  unfolding sort_by count
  count-sort_by p [] = refl
  count-sort_by p (x ∷ xs) =
      ground (arith, count-insert_sorted p x (sort_by xs), count-sort_by p xs)

  module _ (o : IsWeakOrder before) where
    insert_sorted-InOrder : (x : A) (ys : List A) → InOrder ys → InOrder (insert_sorted x ys)
    unfolding insert_sorted
    insert_sorted-InOrder x [] h = (tt, tt)
    insert_sorted-InOrder x (y ∷ ys) h = elim (Bool-cases (before y x)) [
      | inl e ↦ rw e (
        All-insert_sorted (λ z. before z y ≡ false) x ys (o.asym y x e) h.0,
        insert_sorted-InOrder x ys h.1,
      )
      | inr e ↦ rw e (
        (
          e,
          All-impl (λ z. before z y ≡ false) (λ z. before z x ≡ false) ys
              (λ z k. o.neg_trans z y x k e) h.0,
        ),
        h,
      )
    ]

    pub sort_by-InOrder : (xs : List A) → InOrder (sort_by xs)
    unfolding sort_by
    sort_by-InOrder [] = tt
    sort_by-InOrder (x ∷ xs) = insert_sorted-InOrder x (sort_by xs) (sort_by-InOrder xs)

pub All-first_by {ℓ κ} :
    {A : Type ℓ} (before : A → A → Bool) (P : A → Type κ) (best : A) (xs : List A)
    → P best
    → All P xs
    → P (first_by before best xs)
unfolding first_by
All-first_by before P best [] h k = h
All-first_by before P best (x ∷ xs) h k = elim (Bool-cases (before x best)) [
  | inl e ↦ rw e (All-first_by before P x xs k.0 k.1)
  | inr e ↦ rw e (All-first_by before P best xs h k.1)
]

module _ {ℓ} {A : Type ℓ} (before : A → A → Bool) where
  insert_sorted_first :
      (x : A) (ys : List A) → All (λ y. before y x ≡ false) ys → insert_sorted before x ys ≡ x ∷ ys
  unfolding insert_sorted
  insert_sorted_first x [] h = refl
  insert_sorted_first x (y ∷ ys) h = ground (arith, h.0)

  -- What is in order is left as it is.
  pub sort_by_sorted : (xs : List A) → InOrder before xs → sort_by before xs ≡ xs
  unfolding sort_by
  sort_by_sorted [] h = refl
  sort_by_sorted (x ∷ xs) h =
      ap (insert_sorted before x) (sort_by_sorted xs h.1) ∙ insert_sorted_first x xs h.0

All-of-insert_sorted {ℓ κ} :
    {A : Type ℓ} (before : A → A → Bool) (P : A → Type κ) (x : A) (ys : List A)
    → All P (insert_sorted before x ys)
    → P x × All P ys
unfolding insert_sorted
All-of-insert_sorted before P x [] h = h
All-of-insert_sorted before P x (y ∷ ys) h = elim (Bool-cases (before y x)) [
  | inl e ↦
      let sorted = (rw e at h) in
      let rest = All-of-insert_sorted before P x ys sorted.1 in (rest.0, (sorted.0, rest.1))
  | inr e ↦ rw e at h
]

-- What holds of all items of a sorted list holds of all items.
pub All-of-sort_by {ℓ κ} :
    {A : Type ℓ} (before : A → A → Bool) (P : A → Type κ) (xs : List A)
    → All P (sort_by before xs)
    → All P xs
unfolding sort_by
All-of-sort_by before P [] h = tt
All-of-sort_by before P (x ∷ xs) h =
    let found = All-of-insert_sorted before P x (sort_by before xs) h in
    (found.0, All-of-sort_by before P xs found.1)
