-- ===== src/Rkimage/Compare.antt =====
-- rkimage.cpp: my_memcmp.
pub mod First
use ota_backup.Base.{
  ℕ, zero, suc, ◌+◌, List, [], ◌∷◌, Bool, ◌==◌, not, if◌then◌else◌, Option, none, some,
}

-- The loop over the bytes left, `at` being how many are behind it: the result, and `*index` where it is
-- set. Both buffers hold the bytes; where one ends early, nothing is read and the loop ends.
pub compare_from : ℕ → ℕ → List ℕ → List ℕ → ℕ × Option ℕ
compare_from at zero a b = (0, none)
compare_from at (suc len) [] b = (0, none)
compare_from at (suc len) (x ∷ a) [] = (0, none)
compare_from at (suc len) (x ∷ a) (y ∷ b) =
    let rest = compare_from (at + 1) len a b in if not (x == y) then (1, some at) else rest

-- `my_memcmp`.
pub my_memcmp : List ℕ → List ℕ → ℕ → ℕ × Option ℕ
my_memcmp a b len = compare_from 0 len a b
