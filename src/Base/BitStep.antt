-- ===== src/Base/BitStep.antt =====
-- One binary digit of the native bit operations: their meaning with the fuel taken away.
use Prim.Native.Nat.{
  ℕ, zero, suc, ◌+◌, ◌*◌, ◌/◌, ◌%◌, ◌≤◌, ◌<◌, min, max, bit_and, bit_or, bit_xor, digits, bitwise,
  differ, bit_and-bitwise, bit_or-bitwise, bit_xor-bitwise,
}
use mathlib.Core.Path.{◌≡◌, refl}
use native.Mathlib.Omega.{arith}
use native.Mathlib.Nat.{le_refl}

module _ (z : ℕ → ℕ) (f : ℕ → ℕ → ℕ) where
  -- Fuel past the first operand changes nothing.
  enough : (x y k l : ℕ) → x ≤ l → x ≤ k → digits z f k x y ≡ digits z f l x y
  enough (suc x) y (suc k) (suc l) hl hk =
      rw (enough (suc x / 2) (y / 2) k l (omega arith) (omega arith))
  enough zero y (suc k) (suc l) hl hk = refl
  enough zero y (suc k) zero hl hk = refl
  enough zero y zero (suc l) hl hk = refl
  enough zero y zero zero hl hk = refl
  enough (suc x) y k zero hl hk = absurd (omega arith)
  enough (suc x) y zero (suc l) hl hk = absurd (omega arith)

  lowest :
      (y x : ℕ)
      → bitwise z f (suc x) y ≡ bitwise z f (suc x / 2) (y / 2) * 2 + f (suc x % 2) (y % 2)
  lowest y x = omega (arith, enough (suc x / 2) (y / 2) x (suc x / 2) (le_refl _) (omega arith))

pub bit_and_step : (x y : ℕ) → bit_and x y ≡ bit_and (x / 2) (y / 2) * 2 + min (x % 2) (y % 2)
bit_and_step zero y = simp bit_and-bitwise (omega arith)
bit_and_step (suc x) y = simp bit_and-bitwise (lowest (λ d. 0) min y x)

pub bit_or_step : (x y : ℕ) → bit_or x y ≡ bit_or (x / 2) (y / 2) * 2 + max (x % 2) (y % 2)
bit_or_step zero y = simp bit_or-bitwise (omega arith)
bit_or_step (suc x) y = simp bit_or-bitwise (lowest (λ d. d) max y x)

-- The digit of an exclusive or is the sum without its carry.
differ_digits : (x y : ℕ) → x < 2 → y < 2 → differ x y ≡ (x + y) % 2
differ_digits zero y p q = omega arith
differ_digits (suc zero) zero p q = refl
differ_digits (suc zero) (suc zero) p q = refl
differ_digits (suc zero) (suc (suc y)) p q = absurd (omega arith)
differ_digits (suc (suc x)) y p q = absurd (omega arith)

pub bit_xor_step : (a b : ℕ) → bit_xor a b ≡ bit_xor (a / 2) (b / 2) * 2 + (a + b) % 2
bit_xor_step zero b = simp bit_xor-bitwise (omega arith)
bit_xor_step (suc a) b = simp bit_xor-bitwise (
    omega (
      arith,
      lowest (λ d. d) differ b a,
      differ_digits (suc a % 2) (b % 2) (omega arith) (omega arith),
    ))
