-- ===== src/Base/Int.antt =====
-- The C `int` that a call returns, as far as the code tests it.
use Prim.Native.Nat.{ℕ, zero, suc}
use mathlib.Core.Path.{◌≡◌, refl}
use mathlib.Core.Logic.{◌≢◌}
use mathlib.Core.Bool.{Bool, true, false}
use ota_backup.Base.Tests.{◌==◌, eq_self}

-- `negsuc n` is -(n + 1).
pub data ℤ : Type 0 where
  pos : ℕ → ℤ
  negsuc : ℕ → ℤ

abbrev pub minus_one : ℤ
minus_one = negsuc 0

abbrev pub is_zero : ℤ → Bool
is_zero (pos zero) = true
is_zero (pos (suc n)) = false
is_zero (negsuc n) = false

abbrev pub is_negative : ℤ → Bool
is_negative (pos n) = false
is_negative (negsuc n) = true

abbrev pub is_positive : ℤ → Bool
is_positive (pos zero) = false
is_positive (pos (suc n)) = true
is_positive (negsuc n) = false

abbrev pub is_minus_one : ℤ → Bool
is_minus_one (pos n) = false
is_minus_one (negsuc zero) = true
is_minus_one (negsuc (suc n)) = false

pub eq_of_is_zero : (r : ℤ) → is_zero r ≡ true → r ≡ pos 0
eq_of_is_zero (pos zero) h = refl
eq_of_is_zero (pos (suc n)) h = cc
eq_of_is_zero (negsuc n) h = cc

pub not_zero_of_ne : (r : ℤ) → r ≢ pos 0 → is_zero r ≡ false
not_zero_of_ne (pos zero) h = absurd (h refl)
not_zero_of_ne (pos (suc n)) h = refl
not_zero_of_ne (negsuc n) h = refl

pub eq_of_is_positive : (r : ℤ) → is_positive r ≡ true → (n : ℕ) × (r ≡ pos (suc n))
eq_of_is_positive (pos zero) h = cc
eq_of_is_positive (pos (suc n)) h = (n, refl)
eq_of_is_positive (negsuc n) h = cc

abbrev pub int_equal : ℤ → ℤ → Bool
int_equal (pos m) (pos n) = m == n
int_equal (pos m) (negsuc n) = false
int_equal (negsuc m) (pos n) = false
int_equal (negsuc m) (negsuc n) = m == n

pub int_equal_self : (i : ℤ) → int_equal i i ≡ true
int_equal_self (pos m) = eq_self m
int_equal_self (negsuc m) = eq_self m
