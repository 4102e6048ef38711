-- ===== src/Recovery/Text.antt =====
-- recovery.cpp: the C library's calls on strings that it uses. A string is its characters before the
-- terminating zero.
pub mod Lines
pub mod Tokens
use ota_backup.Base.{
  ℕ, zero, suc, ◌+◌, ◌-◌, List, [], ◌∷◌, ◌++◌, Bool, true, false, ◌==◌, ◌||◌, if◌then◌else◌, Option,
  none, some, length, take,
}

-- What follows, when there is a result.
infixl 5 ◌>>=◌
abbrev pub ◌>>=◌ {ℓ κ} : {A : Type ℓ} {B : Type κ} → Option A → (A → Option B) → Option B
none >>= f = none
some a >>= f = f a

-- What a buffer holds as a string.
unfoldable pub c_string : List ℕ → List ℕ
c_string [] = []
c_string (c ∷ s) = if c == 0 then [] else c ∷ c_string s

-- "\n" and "\r\n", as sets of characters.
abbrev pub is_newline : ℕ → Bool
is_newline c = c == 10

abbrev pub is_line_end : ℕ → Bool
is_line_end c = c == 13 || c == 10

-- `strtok`: the token, and where the next call goes on.
unfoldable pub skip_delimiters : (ℕ → Bool) → List ℕ → List ℕ
skip_delimiters delim [] = []
skip_delimiters delim (c ∷ s) = if delim c then skip_delimiters delim s else c ∷ s

unfoldable pub token : (ℕ → Bool) → List ℕ → List ℕ × List ℕ
token delim [] = ([], [])
token delim (c ∷ s) = let (t, rest) = token delim s in if delim c then ([], s) else (c ∷ t, rest)

unfoldable pub strtok : (ℕ → Bool) → List ℕ → Option (List ℕ × List ℕ)
strtok delim s = elim (skip_delimiters delim s) [ [] ↦ none | c ∷ s' ↦ some (token delim (c ∷ s')) ]

-- `strlcpy(dst, s, size)` and `strlcat(dst, s, size)`, for a `dst` that is a string in its buffer.
unfoldable pub strlcpy : List ℕ → ℕ → List ℕ
strlcpy s size = take (size - 1) s

unfoldable pub strlcat : List ℕ → List ℕ → ℕ → List ℕ
strlcat dst s size = dst ++ take (size - 1 - length dst) s

-- `fgets(buf, size, fp)`: the characters read, and what is left of the file.
unfoldable pub line : ℕ → List ℕ → List ℕ × List ℕ
line zero s = ([], s)
line (suc n) [] = ([], [])
line (suc n) (c ∷ s) = let (l, rest) = line n s in if c == 10 then (c ∷ [], s) else (c ∷ l, rest)

unfoldable pub fgets : ℕ → List ℕ → Option (List ℕ × List ℕ)
fgets size [] = none
fgets size (c ∷ s) = some (line (size - 1) (c ∷ s))
