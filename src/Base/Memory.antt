-- ===== src/Base/Memory.antt =====
-- `memcpy` and `memset` on byte buffers.
use Prim.Native.Nat.{ℕ, suc, ◌+◌, ◌-◌, ◌≤◌}
use mathlib.Core.Path.{◌≡◌}
use mathlib.Core.List.{List, [], ◌∷◌, ◌++◌}
use native.Mathlib.Omega.{arith}
use ota_backup.Base.Lists.{
  length, take, drop, replicate, length-append, length-take, length-drop, take-append,
  drop-replicate,
}

-- `memset(buf, 0, n)` on a buffer of `n` bytes.
abbrev pub zeros : ℕ → List ℕ
zeros n = replicate n 0

-- `memcpy(dst + at, src, n)`; the source holds `n` bytes and the destination `at + n`.
abbrev pub memcpy : List ℕ → ℕ → List ℕ → ℕ → List ℕ
memcpy dst at src n = take at dst ++ (take n src ++ drop (at + n) dst)

-- Copying within both buffers keeps the size of the destination.
pub length-memcpy :
    (dst : List ℕ) (at : ℕ) (src : List ℕ) (n : ℕ)
    → n ≤ length src
    → at + n ≤ length dst
    → length (memcpy dst at src n) ≡ length dst
length-memcpy dst at src n h k = omega (
  arith,
  length-append (take at dst) (take n src ++ drop (at + n) dst),
  length-append (take n src) (drop (at + n) dst),
  length-take at dst,
  length-take n src,
  length-drop (at + n) dst,
)

pub take-memcpy :
    (dst src : List ℕ) (n : ℕ) → n ≤ length src → take n (memcpy dst 0 src n) ≡ take n src
take-memcpy dst src n h =
    take-append n (take n src) (drop (0 + n) dst) (omega (arith, length-take n src))

-- A prefix that is copied into a cleared buffer is padded with zeros.
pub memcpy_cleared :
    (m : ℕ) (src : List ℕ) (n : ℕ) → memcpy (zeros m) 0 src n ≡ take n src ++ zeros (m - n)
memcpy_cleared m src n = rw (from_start, drop-replicate {A = ℕ} n m 0)
  where
    from_start : 0 + n ≡ n
    from_start = omega arith

-- Past a prefix and `n` bytes more of a cleared tail.
pub drop-append_zeros :
    (pre : List ℕ) (n k : ℕ) → drop (length pre + n) (pre ++ zeros k) ≡ zeros (k - n)
drop-append_zeros [] n k = rw start (drop-replicate {A = ℕ} n k 0)
  where
    start : 0 + n ≡ n
    start = omega arith
drop-append_zeros (x ∷ pre) n k = rw moved (drop-append_zeros pre n k)
  where
    moved : suc (length pre) + n ≡ suc (length pre + n)
    moved = omega arith
