-- ===== src/Prelude/Int.antt =====
-- Go's signed integers, as far as the daemon reads them: comparisons with a bound and with each
-- other. `negsuc n` is -(n + 1).
use Prim.Native.Nat.{ℕ, suc}
use mathlib.Core.Bool.{Bool, true, false}
use native.Mathlib.Omega.{arith}
use mirrortools.Prelude.Tests.{ltb}
use mirrortools.Prelude.Order.{IsWeakOrder}

pub data ℤ : Type 0 where
  pos : ℕ → ℤ
  negsuc : ℕ → ℤ

abbrev pub ltb_ℤ : ℤ → ℤ → Bool
ltb_ℤ (pos a) (pos b) = ltb a b
ltb_ℤ (pos a) (negsuc b) = false
ltb_ℤ (negsuc a) (pos b) = true
ltb_ℤ (negsuc a) (negsuc b) = ltb b a

pub ltb_ℤ-IsWeakOrder : IsWeakOrder ltb_ℤ
ltb_ℤ-IsWeakOrder = record { asym = λ a b h. ground arith; neg_trans = λ a b c h k. ground arith }

-- A value of at least one, or the default.
abbrev pub positive_or : ℕ → ℤ → ℕ
positive_or d (pos n) = elim n [ ℕ.zero ↦ d | suc m ↦ suc m ]
positive_or d (negsuc n) = d
