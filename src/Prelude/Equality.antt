-- ===== src/Prelude/Equality.antt =====
-- Equality tests by instances, and maps as association lists.
use Prim.Native.Nat.{ℕ}
use mathlib.Core.Path.{◌≡◌, refl}
use mathlib.Core.Logic.{◌↔◌}
use mathlib.Core.Bool.{Bool, true, false, ◌||◌}
use mathlib.Core.Option.{Option, none, some}
use mathlib.Core.List.{List, [], ◌∷◌}
use native.Mathlib.Omega.{arith}
use mirrortools.Prelude.Tests.{nat_eq, nat_eq_iff, if◌then◌else◌}

-- A type whose equality a program can test.
pub record Eq {ℓ} (A : Type ℓ) : Type ℓ where
  pub same : A → A → Bool
  pub same_iff : (a b : A) → (same a b ≡ true) ↔ (a ≡ b)

infix 50 ◌==◌
abbrev pub ◌==◌ {ℓ} : {A : Type ℓ} ⦃e : Eq A⦄ → A → A → Bool
◌==◌ ⦃e⦄ = e.same

instance abbrev pub nat_has_eq : Eq ℕ
nat_has_eq = record { same = nat_eq; same_iff = nat_eq_iff }

module _ {ℓ} {A : Type ℓ} ⦃e : Eq A⦄ where
  pub eq_refl : (a : A) → (a == a) ≡ true
  eq_refl a = (e.same_iff a a).1 refl

  -- x is among the items.
  unfoldable pub contains : List A → A → Bool
  contains [] a = false
  contains (x ∷ xs) a = x == a || contains xs a

module _ {ℓ κ} {K : Type ℓ} {V : Type κ} ⦃e : Eq K⦄ where
  -- delete(m, key)
  unfoldable pub remove : K → List (K × V) → List (K × V)
  remove key [] = []
  remove key ((x, old) ∷ rest) =
      let kept = remove key rest in if x == key then kept else (x, old) ∷ kept

  -- m[key] = new
  unfoldable pub insert : K → V → List (K × V) → List (K × V)
  insert key new [] = (key, new) ∷ []
  insert key new ((x, old) ∷ rest) =
      let kept = insert key new rest in if x == key then (key, new) ∷ rest else (x, old) ∷ kept

  unfoldable pub lookup : K → List (K × V) → Option V
  lookup key [] = none
  lookup key ((x, old) ∷ rest) = let found = lookup key rest in if x == key then some old else found

  pub lookup-remove :
      (key x : K) (entries : List (K × V))
      → lookup x (remove key entries) ≡ (if key == x then none else lookup x entries)
  unfolding lookup remove
  lookup-remove key x [] = ground arith
  lookup-remove key x ((y, old) ∷ rest) =
      ground (arith, e.same_iff y key, e.same_iff y x, e.same_iff key x, lookup-remove key x rest)

  pub lookup-insert :
      (key x : K) (new : V) (entries : List (K × V))
      → lookup x (insert key new entries) ≡ (if key == x then some new else lookup x entries)
  unfolding lookup insert
  lookup-insert key x new [] = refl
  lookup-insert key x new ((y, old) ∷ rest) =
      ground
        (arith, e.same_iff y key, e.same_iff y x, e.same_iff key x, lookup-insert key x new rest)
