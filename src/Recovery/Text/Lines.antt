-- ===== src/Recovery/Text/Lines.antt =====
-- What `fgets` leaves of a file.
use ota_backup.Base.{
  ℕ, zero, suc, ◌≡◌, refl, ap, ◌≤◌, ◌<◌, arith, List, [], ◌∷◌, ◌++◌, ◌==◌, length, inl, inr,
  Bool-cases,
}
use ota_backup.Recovery.Text.{line}

line-length : (n : ℕ) (s : List ℕ) → length (line n s).1 ≤ length s
unfolding line
line-length zero s = omega arith
line-length (suc n) [] = omega arith
line-length (suc n) (c ∷ s) = elim (Bool-cases (c == 10)) [
  | inl newline ↦ rw newline (omega arith)
  | inr other ↦ rw other (omega (arith, line-length n s))
]

-- A line takes one character at least.
pub line_shorter : (n : ℕ) (c : ℕ) (s : List ℕ) → length (line (suc n) (c ∷ s)).1 < length (c ∷ s)
unfolding line
line_shorter n c s = elim (Bool-cases (c == 10)) [
  | inl newline ↦ rw newline (omega arith)
  | inr other ↦ rw other (omega (arith, line-length n s))
]

-- A line and what is left are the file.
pub line-append : (n : ℕ) (s : List ℕ) → (line n s).0 ++ (line n s).1 ≡ s
unfolding line
line-append zero s = refl
line-append (suc n) [] = refl
line-append (suc n) (c ∷ s) = elim (Bool-cases (c == 10)) [
  | inl newline ↦ rw newline refl
  | inr other ↦ rw other (ap (◌∷◌ c) (line-append n s))
]
