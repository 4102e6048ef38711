-- ===== src/Recovery/Text/Tokens.antt =====
-- The tokens of `strtok`.
use ota_backup.Base.{
  ℕ, ◌≡◌, refl, ap, List, [], ◌∷◌, ◌++◌, Bool, true, false, Option, none, some, All, inl, inr,
  Bool-cases,
}
use ota_backup.Recovery.Text.{skip_delimiters, token, strtok}

-- Characters without a delimiter, one at least.
abbrev pub IsToken : (ℕ → Bool) → List ℕ → Type 0
IsToken delim [] = ⊥
IsToken delim (c ∷ t) = All (λ x. delim x ≡ false) (c ∷ t)

abbrev pub OfToken : (ℕ → Bool) → Option (List ℕ × List ℕ) → Type 0
OfToken delim none = Unit
OfToken delim (some (t, rest)) = IsToken delim t

token_inside : (delim : ℕ → Bool) (s : List ℕ) → All (λ x. delim x ≡ false) (token delim s).0
unfolding token
token_inside delim [] = tt
token_inside delim (c ∷ s) = elim (Bool-cases (delim c)) [
  | inl ends ↦ rw ends tt
  | inr inside ↦ rw inside (inside, token_inside delim s)
]

skip_delimiters-OfToken :
    (delim : ℕ → Bool) (s : List ℕ)
    → OfToken delim
        (elim (skip_delimiters delim s) [ [] ↦ none | c ∷ s' ↦ some (token delim (c ∷ s')) ])
unfolding skip_delimiters token
skip_delimiters-OfToken delim [] = tt
skip_delimiters-OfToken delim (c ∷ s) = elim (Bool-cases (delim c)) [
  | inl skipped ↦ rw skipped (skip_delimiters-OfToken delim s)
  | inr inside ↦ rw (inside, inside) (inside, token_inside delim s)
]

pub strtok-OfToken : (delim : ℕ → Bool) (s : List ℕ) → OfToken delim (strtok delim s)
unfolding strtok
strtok-OfToken delim s = skip_delimiters-OfToken delim s

token-append :
    (delim : ℕ → Bool) (sep : ℕ) (t s : List ℕ)
    → delim sep ≡ true
    → All (λ x. delim x ≡ false) t
    → token delim (t ++ (sep ∷ s)) ≡ (t, s)
unfolding token
token-append delim sep [] s ends h = rw ends refl
token-append delim sep (c ∷ t) s ends h = rw (h.0, token-append delim sep t s ends h.1) refl

-- A token with its delimiter behind it is read.
pub strtok-append :
    (delim : ℕ → Bool) (sep : ℕ) (t s : List ℕ)
    → delim sep ≡ true
    → IsToken delim t
    → strtok delim (t ++ (sep ∷ s)) ≡ some (t, s)
unfolding strtok skip_delimiters
strtok-append delim sep [] s ends h = absurd h
strtok-append delim sep (c ∷ t) s ends h =
    rw (strtok, h.0) (ap some (token-append delim sep (c ∷ t) s ends h))
