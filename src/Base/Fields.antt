-- ===== src/Base/Fields.antt =====
-- Words made of fields: a disjoint `|` is a sum, and a mask of adjacent bits cuts a field out.
use Prim.Native.Nat.{ℕ, ◌+◌, ◌-◌, ◌*◌, ◌/◌, ◌%◌, ◌^◌, ◌<◌, bit_and, bit_or}
use mathlib.Core.Path.{◌≡◌}
use native.Mathlib.Nat.{div-add-mod, one-le-pow}
use native.Mathlib.Omega.{arith}
use ota_backup.Base.Bits.{
  bit_or_fields, bit_and_fields, bit_or-zero, zero-bit_or, bit_and-zero, bit_and_low,
}

pub or_disjoint : (k q r : ℕ) → r < 2 ^ k → bit_or (q * 2 ^ k) r ≡ q * 2 ^ k + r
or_disjoint k q r h =
    ground (arith, one-le-pow k 2, bit_or_fields k q 0 0 r, bit_or-zero q, zero-bit_or r)

-- The same for a word whose low bits are clear.
pub or_add : (k x r : ℕ) → x % 2 ^ k ≡ 0 → r < 2 ^ k → bit_or x r ≡ x + r
or_add k x r clear h = ground (arith, or_disjoint k (x / 2 ^ k) r, div-add-mod x (2 ^ k))

-- A field put into clear bits, from bit `k` up to bit `m`.
pub or_between :
    (k m a r q : ℕ)
    → r < 2 ^ k
    → r < 2 ^ m
    → q * 2 ^ k < 2 ^ m
    → bit_or (a * 2 ^ m + r) (q * 2 ^ k) ≡ a * 2 ^ m + r + q * 2 ^ k
or_between k m a r q hr hm hq = ground (
  arith,
  one-le-pow k 2,
  bit_or_fields m a 0 r (q * 2 ^ k),
  bit_or_fields k 0 q r 0,
  bit_or-zero a,
  bit_or-zero r,
  zero-bit_or q,
)

pub and_window : (k n x : ℕ) → bit_and x ((2 ^ n - 1) * 2 ^ k) ≡ x / 2 ^ k % 2 ^ n * 2 ^ k
and_window k n x = ground (
  arith,
  one-le-pow k 2,
  bit_and_fields k (x / 2 ^ k) (2 ^ n - 1) (x % 2 ^ k) 0,
  bit_and-zero (x % 2 ^ k),
  bit_and_low n (x / 2 ^ k),
  div-add-mod x (2 ^ k),
)
