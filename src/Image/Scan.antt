-- ===== src/Image/Scan.antt =====
-- `fscanf` as Image.cpp uses it: `%2x` and `%4x` on the characters that are left of the file.
pub mod Digits
use ota_backup.Base.{
  ℕ, zero, suc, ◌+◌, ◌-◌, ◌*◌, ◌/◌, ◌%◌, List, [], ◌∷◌, Bool, true, false, ◌&&◌, ◌||◌, ◌==◌, leb,
  if◌then◌else◌, Option, none, some,
}

-- What a scan leaves. `outside`: the field has a sign or the prefix `0x`, which `%x` takes too and the
-- model does not follow.
pub data Scanned {ℓ} (A : Type ℓ) : Type ℓ where
  scanned : A → Scanned A
  outside : Scanned A

unfoldable pub then_scan : {A B : Type 0} → Scanned A → (A → Scanned B) → Scanned B
then_scan (scanned a) rest = rest a
then_scan outside rest = outside

-- `isspace`.
unfoldable pub is_space : ℕ → Bool
is_space c = c == 32 || (leb 9 c && leb c 13)

unfoldable pub skip_space : List ℕ → List ℕ
skip_space [] = []
skip_space (c ∷ s) = let rest = skip_space s in if is_space c then rest else c ∷ s

unfoldable pub hex_digit : ℕ → Option ℕ
hex_digit c =
    if leb 48 c && leb c 57
    then some (c - 48)
    else if leb 65 c && leb c 70
    then some (c - 55)
    else if leb 97 c && leb c 102
    then some (c - 87)
    else none

-- On a digit or not.
unfoldable pub if_digit : Option ℕ → ℕ × List ℕ → (ℕ → ℕ × List ℕ) → ℕ × List ℕ
if_digit none stop go = stop
if_digit (some d) stop go = go d

-- At most `width` digits behind `value`.
unfoldable pub digits : ℕ → ℕ → List ℕ → ℕ × List ℕ
digits zero value s = (value, s)
digits (suc width) value [] = (value, [])
digits (suc width) value (c ∷ s) =
    if_digit (hex_digit c) (value, c ∷ s) (λ d. digits width (16 * value + d) s)

-- A field starts with a sign or with `0x`.
unfoldable pub is_outside : List ℕ → Bool
is_outside [] = false
is_outside (c ∷ []) = c == 43 || c == 45
is_outside (c ∷ d ∷ s) = c == 43 || c == 45 || (c == 48 && (d == 120 || d == 88))

-- The field, once the space is skipped: without a digit the variable keeps its value.
unfoldable pub field : ℕ → ℕ → List ℕ → ℕ × List ℕ
field width old [] = (old, [])
field width old (c ∷ s) = if_digit (hex_digit c) (old, c ∷ s) (λ d. digits width 0 (c ∷ s))

-- `fscanf(fp, "%<width>x", &variable)` with the variable's value before.
unfoldable pub scan_hex : ℕ → ℕ → List ℕ → Scanned (ℕ × List ℕ)
scan_hex width old s =
    let s' = skip_space s in if is_outside s' then outside else scanned (field width old s')
