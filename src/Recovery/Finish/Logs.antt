-- ===== src/Recovery/Finish/Logs.antt =====
-- What the log files hold.
use ota_backup.Base.{
  ℕ, zero, suc, ◌≡◌, refl, ap, ◌<◌, arith, List, [], ◌∷◌, ◌++◌, false, ◌==◌, some, length, All, inl,
  inr, Bool-cases,
}
use ota_backup.Recovery.Text.{c_string, fgets, line}
use ota_backup.Recovery.Text.Lines.{line_shorter, line-append}
use ota_backup.Recovery.Finish.{copy_lines, copied}

-- Without a zero.
abbrev pub IsText : List ℕ → Type 0
IsText s = All (λ c. (c == 0) ≡ false) s

pub c_string-IsText : (s : List ℕ) → IsText s → c_string s ≡ s
unfolding c_string
c_string-IsText [] h = refl
c_string-IsText (c ∷ s) h = rw h.0 (ap (◌∷◌ c) (c_string-IsText s h.1))

line-IsText : (n : ℕ) (s : List ℕ) → IsText s → IsText (line n s).0 × IsText (line n s).1
unfolding line
line-IsText zero s h = (tt, h)
line-IsText (suc n) [] h = (tt, tt)
line-IsText (suc n) (c ∷ s) h = elim (Bool-cases (c == 10)) [
  | inl newline ↦ rw newline ((h.0, tt), h.1)
  | inr other ↦ rw other ((h.0, (line-IsText n s h.1).0), (line-IsText n s h.1).1)
]

copy_lines-IsText :
    (fuel : ℕ) (s : List ℕ) → IsText s → length s < fuel → copy_lines fuel s ≡ some s
unfolding copy_lines fgets
copy_lines-IsText zero s h k = absurd (omega arith)
copy_lines-IsText (suc fuel) [] h k = refl
copy_lines-IsText (suc fuel) (c ∷ s) h k =
    let (buf, rest) = line 4095 (c ∷ s) in
    let parts = line-IsText 4095 (c ∷ s) h in
    rw
      (
        copy_lines-IsText fuel rest parts.1 (omega (arith, line_shorter 4094 c s)),
        c_string-IsText buf parts.0,
      )
      (ap some (line-append 4095 (c ∷ s)))

-- The fuel of `copied` is enough for every file.
copy_lines_ends :
    (fuel : ℕ) (s : List ℕ) → length s < fuel → (t : List ℕ) × (copy_lines fuel s ≡ some t)
unfolding copy_lines fgets
copy_lines_ends zero s k = absurd (omega arith)
copy_lines_ends (suc fuel) [] k = ([], refl)
copy_lines_ends (suc fuel) (c ∷ s) k =
    let (buf, rest) = line 4095 (c ∷ s) in
    let (t, e) = copy_lines_ends fuel rest (omega (arith, line_shorter 4094 c s)) in
    (c_string buf ++ t, rw e refl)

-- A file without zeros is copied whole.
pub copied-IsText : (s : List ℕ) → IsText s → copied s ≡ s
unfolding copied
copied-IsText s h = rw (copied, copy_lines-IsText (suc (length s)) s h (omega arith)) refl
