-- ===== src/Image/Scan/Digits.antt =====
-- A scan leaves no more of the file than it was given, and stays in the model on a file without signs.
use ota_backup.Base.{
  ℕ, zero, suc, ◌+◌, ◌*◌, ◌≤◌, ◌≡◌, ◌⊎◌, inl, inr, List, [], ◌∷◌, Bool, true, ◌==◌, ◌||◌,
  Bool-cases, Option, none, some, arith, length as size,
}
use ota_backup.Image.Scan.{
  if_digit, Scanned, scanned, outside, then_scan, is_space, skip_space, hex_digit, digits,
  is_outside, field, scan_hex,
}

-- '+', '-', 'x' and 'X'.
abbrev pub is_sign : ℕ → Bool
is_sign c = c == 43 || c == 45 || c == 120 || c == 88

-- One of them is among the characters.
abbrev pub HasSign : List ℕ → Type 0
HasSign [] = ⊥
HasSign (c ∷ s) = (is_sign c ≡ true) ⊎ HasSign s

-- A predicate of what a scan leaves, and what is known where it leaves the model.
abbrev pub Holds {ℓ} : {A : Type ℓ} → Type 0 → (A → Type 0) → Scanned A → Type 0
Holds F P (scanned a) = P a
Holds F P outside = F

pub then_scan-Holds :
    {A B : Type 0} (F : Type 0) (P : A → Type 0) (Q : B → Type 0) (x : Scanned A)
    (k : A → Scanned B)
    → Holds F P x
    → ((a : A) → P a → Holds F Q (k a))
    → Holds F Q (then_scan x k)
unfolding then_scan
then_scan-Holds F P Q (scanned a) k h f = f a h
then_scan-Holds F P Q outside k h f = h

-- What is left of the file: `n` characters at most, and a sign among them is known as `F`.
abbrev pub Within : Type 0 → ℕ → List ℕ → Type 0
Within F n s = (size s ≤ n) × (HasSign s → F)

is_outside-HasSign : (s : List ℕ) → is_outside s ≡ true → HasSign s
unfolding is_outside
is_outside-HasSign [] e = cc
is_outside-HasSign (c ∷ []) e = inl (ground arith)
is_outside-HasSign (c ∷ d ∷ s) e = elim (Bool-cases (c == 43 || c == 45)) [
  | inl sign ↦ inl (ground arith)
  | inr other ↦ inr (inl (ground arith))
]

module _ (F : Type 0) where
  Within-tail : (n c : ℕ) (s : List ℕ) → Within F n (c ∷ s) → Within F n s
  Within-tail n c s h = (omega (arith, h.0), λ k. h.1 (inr k))

  skip_space-Within : (n : ℕ) (s : List ℕ) → Within F n s → Within F n (skip_space s)
  unfolding skip_space
  skip_space-Within n [] h = h
  skip_space-Within n (c ∷ s) h = elim (Bool-cases (is_space c)) [
    | inl e ↦ rw e (skip_space-Within n s (Within-tail n c s h))
    | inr e ↦ rw e h
  ]

  if_digit-Within :
      (o : Option ℕ) (stop : ℕ × List ℕ) (go : ℕ → ℕ × List ℕ) (n : ℕ)
      → Within F n stop.1
      → ((d : ℕ) → Within F n (go d).1)
      → Within F n (if_digit o stop go).1
  unfolding if_digit
  if_digit-Within none stop go n h k = h
  if_digit-Within (some d) stop go n h k = k d

  digits-Within :
      (width value n : ℕ) (s : List ℕ) → Within F n s → Within F n (digits width value s).1
  unfolding digits
  digits-Within zero value n s h = h
  digits-Within (suc width) value n [] h = h
  digits-Within (suc width) value n (c ∷ s) h =
      if_digit-Within (hex_digit c) (value, c ∷ s) (λ d. digits width (16 * value + d) s) n h
        (λ d. digits-Within width (16 * value + d) n s (Within-tail n c s h))

  field-Within : (width old n : ℕ) (s : List ℕ) → Within F n s → Within F n (field width old s).1
  unfolding field
  field-Within width old n [] h = h
  field-Within width old n (c ∷ s) h =
      if_digit-Within (hex_digit c) (old, c ∷ s) (λ d. digits width 0 (c ∷ s)) n h
        (λ d. digits-Within width 0 n (c ∷ s) h)

  pub scan_hex-left :
      (width old n : ℕ) (s : List ℕ)
      → Within F n s
      → Holds F (λ (r : ℕ × List ℕ). Within F n r.1) (scan_hex width old s)
  unfolding scan_hex
  scan_hex-left width old n s h = elim (Bool-cases (is_outside (skip_space s))) [
    | inl e ↦ rw e ((skip_space-Within n s h).1 (is_outside-HasSign (skip_space s) e))
    | inr e ↦ rw e (field-Within width old n (skip_space s) (skip_space-Within n s h))
  ]
