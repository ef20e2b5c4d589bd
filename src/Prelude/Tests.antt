-- ===== src/Prelude/Tests.antt =====
-- Boolean tests on the native numbers, and the split on a computed test.
use Prim.Native.Nat.{ℕ, compare, Ordering}
use mathlib.Core.Path.{◌≡◌, refl}
use mathlib.Core.Logic.{◌⊎◌, inl, inr, ◌↔◌}
use mathlib.Core.Bool.{Bool, true, false}
use mathlib.Core.Option.{Option, none, some}
use native.Mathlib.Omega.{arith}

abbrev pub ltb : ℕ → ℕ → Bool
ltb a b = elim (compare a b) [ Ordering.lt ↦ true | _ ↦ false ]

abbrev pub leb : ℕ → ℕ → Bool
leb a b = elim (compare a b) [ Ordering.gt ↦ false | _ ↦ true ]

abbrev pub nat_eq : ℕ → ℕ → Bool
nat_eq a b = elim (compare a b) [ Ordering.eq ↦ true | _ ↦ false ]

infix 1 if◌then◌else◌
abbrev pub if◌then◌else◌ {ℓ} : {A : Type ℓ} → Bool → A → A → A
if true then x else y = x
if false then x else y = y

pub nat_eq_iff : (a b : ℕ) → (nat_eq a b ≡ true) ↔ (a ≡ b)
nat_eq_iff a b = (λ h. ground arith, λ h. ground arith)

pub Bool-cases : (b : Bool) → (b ≡ true) ⊎ (b ≡ false)
Bool-cases true = inl refl
Bool-cases false = inr refl

pub Option-cases {ℓ} : {A : Type ℓ} (o : Option A) → (o ≡ none) ⊎ ((a : A) × (o ≡ some a))
Option-cases none = inl refl
Option-cases (some a) = inr (a, refl)

-- A value that is returned behind two early returns of none.
pub two_guards {ℓ} :
    {A : Type ℓ} (a b : Bool) (x : A) {y : A}
    → (if a then none else if b then none else some x) ≡ some y
    → (a ≡ false) × (b ≡ false) × (x ≡ y)
two_guards true b x e = (cc, cc, cc)
two_guards false true x e = (refl, cc, cc)
two_guards false false x e = (refl, refl, cc)

-- What holds of both branches, each under its test, holds of the choice.
pub if_holds {ℓ κ} :
    {A : Type ℓ} (P : A → Type κ) (test : Bool) (x y : A)
    → (test ≡ true → P x)
    → (test ≡ false → P y)
    → P (if test then x else y)
if_holds P true x y h k = h refl
if_holds P false x y h k = k refl

pub some_eq {ℓ} : {A : Type ℓ} {x y : A} → some x ≡ some y → x ≡ y
some_eq e = cc

pub three_guards {ℓ} :
    {A : Type ℓ} (a b c : Bool) (x : A) {y : A}
    → (if a then none else if b then none else if c then none else some x) ≡ some y
    → (a ≡ false) × (b ≡ false) × (c ≡ false) × (x ≡ y)
three_guards true b c x e = (cc, cc, cc, cc)
three_guards false true c x e = (refl, cc, cc, cc)
three_guards false false true x e = (refl, refl, cc, cc)
three_guards false false false x e = (refl, refl, refl, cc)
