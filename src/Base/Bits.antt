-- ===== src/Base/Bits.antt =====
-- Bit operations field by field, at every width.
use Prim.Native.Nat.{
  ℕ, zero, suc, ◌+◌, ◌-◌, ◌*◌, ◌/◌, ◌%◌, ◌^◌, ◌<◌, bit_and, bit_or, bit_xor, min, max,
  bit_or-bitwise, bit_and-bitwise,
}
use mathlib.Core.Path.{◌≡◌, refl, ap, ◌∙◌}
use native.Mathlib.Nat.{pow-suc, one-le-pow, div-add-mod}
use native.Mathlib.Omega.{arith}
use ota_backup.Base.BitStep.{bit_and_step, bit_or_step, bit_xor_step}

-- An operation that works digit by digit: on the lowest digits it is `f`.
module _ (op f : ℕ → ℕ → ℕ) (none_set : op 0 0 ≡ 0)
    (step : (a b : ℕ) → op a b ≡ op (a / 2) (b / 2) * 2 + f (a % 2) (b % 2)) where
  double : (q k : ℕ) → q * 2 ^ suc k ≡ 2 * (q * 2 ^ k)
  double q k = omega (arith, ap (λ (t : ℕ). q * t) (pow-suc 2 k))

  -- The high parts and the low parts of two words do not meet.
  split_fields :
      (k a b r s : ℕ)
      → r < 2 ^ k
      → s < 2 ^ k
      → op (a * 2 ^ k + r) (b * 2 ^ k + s) ≡ op a b * 2 ^ k + op r s
  split_fields zero a b r s hr hs =
      ground (arith, ends r s (omega arith) (omega arith), none_set, whole a r, whole b s)
    where
      ends : (r s : ℕ) → r ≡ 0 → s ≡ 0 → op r s ≡ 0
      ends r s p q = rw (p, q) none_set

      whole : (a r : ℕ) → a * 1 + r ≡ a + r
      whole a r = omega arith
  split_fields (suc k) a b r s hr hs = ground (
    arith,
    step (a * 2 ^ suc k + r) (b * 2 ^ suc k + s),
    step r s,
    double a k,
    double b k,
    double (op a b) k,
    split_fields k a b (r / 2) (s / 2) (omega (arith, pow-suc 2 k)) (omega (arith, pow-suc 2 k)),
  )

pub bit_and_fields :
    (k a b r s : ℕ)
    → r < 2 ^ k
    → s < 2 ^ k
    → bit_and (a * 2 ^ k + r) (b * 2 ^ k + s) ≡ bit_and a b * 2 ^ k + bit_and r s
bit_and_fields = split_fields bit_and min refl bit_and_step

pub bit_or_fields :
    (k a b r s : ℕ)
    → r < 2 ^ k
    → s < 2 ^ k
    → bit_or (a * 2 ^ k + r) (b * 2 ^ k + s) ≡ bit_or a b * 2 ^ k + bit_or r s
bit_or_fields = split_fields bit_or max refl bit_or_step

pub bit_xor_fields :
    (k a b r s : ℕ)
    → r < 2 ^ k
    → s < 2 ^ k
    → bit_xor (a * 2 ^ k + r) (b * 2 ^ k + s) ≡ bit_xor a b * 2 ^ k + bit_xor r s
bit_xor_fields =
    split_fields bit_xor (λ x y. (x + y) % 2) refl (λ a b. omega (arith, bit_xor_step a b))

-- Laws at every number, by induction on a bound that halves.
module _ where
  or_zero : (n a : ℕ) → a < suc n → bit_or a 0 ≡ a
  or_zero n zero h = refl
  or_zero zero (suc a) h = absurd (omega arith)
  or_zero (suc n) (suc a) h =
      omega (arith, bit_or_step (suc a) 0, or_zero n (suc a / 2) (omega arith))

  xor_zero : (n a : ℕ) → a < suc n → bit_xor a 0 ≡ a
  xor_zero n zero h = refl
  xor_zero zero (suc a) h = absurd (omega arith)
  xor_zero (suc n) (suc a) h =
      omega (arith, bit_xor_step (suc a) 0, xor_zero n (suc a / 2) (omega arith))

  and_zero : (n a : ℕ) → a < suc n → bit_and a 0 ≡ 0
  and_zero n zero h = refl
  and_zero zero (suc a) h = absurd (omega arith)
  and_zero (suc n) (suc a) h =
      omega (arith, bit_and_step (suc a) 0, and_zero n (suc a / 2) (omega arith))

  xor_self : (n a : ℕ) → a < suc n → bit_xor a a ≡ 0
  xor_self n zero h = refl
  xor_self zero (suc a) h = absurd (omega arith)
  xor_self (suc n) (suc a) h =
      omega (arith, bit_xor_step (suc a) (suc a), xor_self n (suc a / 2) (omega arith))

  xor_comm : (n a b : ℕ) → a < suc n → b < suc n → bit_xor a b ≡ bit_xor b a
  xor_comm zero zero zero h k = refl
  xor_comm zero (suc a) b h k = absurd (omega arith)
  xor_comm zero zero (suc b) h k = absurd (omega arith)
  xor_comm (suc n) a b h k = omega (
    arith,
    bit_xor_step a b,
    bit_xor_step b a,
    xor_comm n (a / 2) (b / 2) (omega arith) (omega arith),
  )

  xor_twice : (n a b : ℕ) → a < suc n → b < suc n → bit_xor (bit_xor a b) b ≡ a
  xor_twice zero zero zero h k = refl
  xor_twice zero (suc a) b h k = absurd (omega arith)
  xor_twice zero zero (suc b) h k = absurd (omega arith)
  xor_twice (suc n) a b h k =
      ground (arith, bit_xor_step (bit_xor a b) b, bit_xor_step a b, xor_twice n (a / 2) (b / 2))

-- Below a power of two the result stays below it.
pub bit_xor_lt : (k a b : ℕ) → a < 2 ^ k → b < 2 ^ k → bit_xor a b < 2 ^ k
bit_xor_lt zero zero zero h j = omega arith
bit_xor_lt zero (suc a) b h j = absurd (omega arith)
bit_xor_lt zero zero (suc b) h j = absurd (omega arith)
bit_xor_lt (suc k) a b h j = omega (
  arith,
  pow-suc 2 k,
  bit_xor_step a b,
  bit_xor_lt k (a / 2) (b / 2) (omega (arith, pow-suc 2 k)) (omega (arith, pow-suc 2 k)),
)

pub bit_or_lt : (k a b : ℕ) → a < 2 ^ k → b < 2 ^ k → bit_or a b < 2 ^ k
bit_or_lt zero zero zero h j = omega arith
bit_or_lt zero (suc a) b h j = absurd (omega arith)
bit_or_lt zero zero (suc b) h j = absurd (omega arith)
bit_or_lt (suc k) a b h j = omega (
  arith,
  pow-suc 2 k,
  bit_or_step a b,
  bit_or_lt k (a / 2) (b / 2) (omega (arith, pow-suc 2 k)) (omega (arith, pow-suc 2 k)),
)

pub bit_or-zero : (a : ℕ) → bit_or a 0 ≡ a
bit_or-zero a = or_zero a a (omega arith)

pub zero-bit_or : (a : ℕ) → bit_or 0 a ≡ a
zero-bit_or a = bit_or-bitwise 0 a

pub bit_and-zero : (a : ℕ) → bit_and a 0 ≡ 0
bit_and-zero a = and_zero a a (omega arith)

pub bit_xor-zero : (a : ℕ) → bit_xor a 0 ≡ a
bit_xor-zero a = xor_zero a a (omega arith)

pub bit_xor_self : (a : ℕ) → bit_xor a a ≡ 0
bit_xor_self a = xor_self a a (omega arith)

pub bit_xor-cancel : (a b : ℕ) → bit_xor (bit_xor a b) b ≡ a
bit_xor-cancel a b = xor_twice (a + b) a b (omega arith) (omega arith)

pub zero-bit_and : (a : ℕ) → bit_and 0 a ≡ 0
zero-bit_and a = bit_and-bitwise 0 a

mask_half : (k : ℕ) → (2 ^ suc k - 1) / 2 ≡ 2 ^ k - 1
mask_half k = omega (arith, pow-suc 2 k, one-le-pow k 2)

mask_odd : (k : ℕ) → (2 ^ suc k - 1) % 2 ≡ 1
mask_odd k = omega (arith, pow-suc 2 k, one-le-pow k 2)

and_ones : (k r : ℕ) → r < 2 ^ k → bit_and r (2 ^ k - 1) ≡ r
and_ones zero r h = rw bit_and-zero (omega arith)
and_ones (suc k) r h =
    bit_and_step r (2 ^ suc k - 1)
    ∙ rw (mask_half k, mask_odd k, and_ones k (r / 2) (omega (arith, pow-suc 2 k))) (omega arith)

-- A mask of `k` low bits is the remainder by `2 ^ k`.
pub bit_and_low : (k a : ℕ) → bit_and a (2 ^ k - 1) ≡ a % 2 ^ k
bit_and_low k a = ground (
  arith,
  one-le-pow k 2,
  bit_and_fields k (a / 2 ^ k) 0 (a % 2 ^ k) (2 ^ k - 1),
  and_ones k (a % 2 ^ k),
  bit_and-zero (a / 2 ^ k),
  div-add-mod a (2 ^ k),
)

pub bit_xor_comm : (a b : ℕ) → bit_xor a b ≡ bit_xor b a
bit_xor_comm a b = xor_comm (a + b) a b (omega arith) (omega arith)
