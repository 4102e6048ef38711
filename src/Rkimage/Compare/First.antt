-- ===== src/Rkimage/Compare/First.antt =====
-- my_memcmp finds the first difference.
use ota_backup.Base.{
  ℕ, zero, suc, ◌+◌, ◌≤◌, ◌<◌, ◌≡◌, ◌≢◌, ◌⊎◌, inl, inr, ◌∙◌, refl, ap₂, arith, List, [], ◌∷◌, false,
  Bool-cases, ==→eq, ◌==◌, Option, none, some, length, take, get_or,
}
use ota_backup.Rkimage.Compare.{compare_from, my_memcmp}

-- Equal bytes with the result 0, or the result 1 and the place of the first byte that differs, the
-- bytes before it being equal.
abbrev pub Compares : ℕ → ℕ → List ℕ → List ℕ → ℕ × Option ℕ → Type 0
Compares at len a b r =
    ((r ≡ (0, none)) × (take len a ≡ take len b))
    ⊎ ((i : ℕ) × (i < len)
        × (r ≡ (1, some (at + i)))
        × (take i a ≡ take i b)
        × (get_or a i 0 ≢ get_or b i 0))

compare_from-Compares :
    (at len : ℕ) (a b : List ℕ)
    → len ≤ length a
    → len ≤ length b
    → Compares at len a b (compare_from at len a b)
unfolding compare_from
compare_from-Compares at zero a b h k = inl (refl, refl)
compare_from-Compares at (suc len) [] b h k = absurd (omega arith)
compare_from-Compares at (suc len) (x ∷ a) [] h k = absurd (omega arith)
compare_from-Compares at (suc len) (x ∷ a) (y ∷ b) h k = elim (Bool-cases (x == y)) [
  | inr differ ↦ rw differ (inr (0, omega arith, here, refl, not_equal differ))
  | inl same ↦
      rw same (
        longer (==→eq x y same)
          (compare_from-Compares (at + 1) len a b (omega arith) (omega arith)))
]
  where
    here : ◌≡◌ {A = ℕ × Option ℕ} (1, some at) (1, some (at + 0))
    here = ground arith

    not_equal : (x == y) ≡ false → x ≢ y
    not_equal e q = ground arith

    longer :
        x ≡ y
        → Compares (at + 1) len a b (compare_from (at + 1) len a b)
        → Compares at (suc len) (x ∷ a) (y ∷ b) (compare_from (at + 1) len a b)
    longer e (inl (r, q)) = inl (r, ap₂ (λ s t. s ∷ t) e q)
    longer e (inr (i, lt, r, q, ne)) =
        inr (suc i, omega arith, r ∙ moved i, ap₂ (λ s t. s ∷ t) e q, ne)
      where
        moved : (i : ℕ) → ◌≡◌ {A = ℕ × Option ℕ} (1, some (at + 1 + i)) (1, some (at + suc i))
        moved i = ground arith

-- On buffers that hold `len` bytes at least, `my_memcmp` returns 0 and sets no index when the first
-- `len` bytes agree, and otherwise 1 with the index of the first byte that differs.
pub my_memcmp-Compares :
    (a b : List ℕ) (len : ℕ)
    → len ≤ length a
    → len ≤ length b
    → Compares 0 len a b (my_memcmp a b len)
unfolding my_memcmp
my_memcmp-Compares a b len h k = compare_from-Compares 0 len a b h k
