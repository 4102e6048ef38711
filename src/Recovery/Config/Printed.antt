-- ===== src/Recovery/Config/Printed.antt =====
-- A configuration that is printed and read.
use ota_backup.Base.{
  ℕ, zero, suc, ◌+◌, ◌≡◌, ◌⊎◌, refl, sym, ap, ap₂, ◌∙◌, ◌≤◌, ◌<◌, arith, List, [], ◌∷◌, ◌++◌, Bool,
  true, false, ◌==◌, ◌||◌, ◌&&◌, not, Option, none, some, length, length-append, All, All-map,
  ==→eq, inl, inr, Bool-cases, eq_self,
}
use ota_backup.Recovery.Text.{c_string}
use ota_backup.Recovery.Options.{is_prefix}
use ota_backup.Recovery.Config.{
  getline_loop, mygetline, contains, behind_equals, skip_blanks, line_value, line_or, read_lines,
  read_config,
}

-- A value that a line gives, or what the rest gives.
abbrev line_found : Option (List ℕ) → Option (Option (List ℕ)) → Option (Option (List ℕ))
line_found none rest = rest
line_found (some value) rest = some (some value)

-- Neither a zero nor a character that ends a line.
abbrev pub IsPlain : List ℕ → Type 0
IsPlain s = All (λ c. ((c == 0) ≡ false) × ((c == 10) ≡ false) × ((c == 13) ≡ false)) s

-- Lines with their newlines.
abbrev pub print_lines : List (List ℕ) → List ℕ → List ℕ
print_lines [] s = s
print_lines (l ∷ ls) s = l ++ (10 ∷ print_lines ls s)

getline_loop-IsPlain :
    (l s : List ℕ)
    → IsPlain l
    → getline_loop false (l ++ (10 ∷ s)) ≡ record { ended = true; characters = l; left = s }
unfolding getline_loop
getline_loop-IsPlain [] s h = refl
getline_loop-IsPlain (c ∷ l) s h = rw (h.0.1, h.0.2, getline_loop-IsPlain l s h.1) refl

mygetline-IsPlain : (l s : List ℕ) → IsPlain l → mygetline (l ++ (10 ∷ s)) ≡ (some l, s)
unfolding mygetline
mygetline-IsPlain l s h = rw (getline_loop-IsPlain l s h) refl

c_string-IsPlain : (l : List ℕ) → IsPlain l → c_string l ≡ l
unfolding c_string
c_string-IsPlain [] h = refl
c_string-IsPlain (c ∷ l) h = rw h.0.0 (ap (◌∷◌ c) (c_string-IsPlain l h.1))

is_prefix-append : (key s : List ℕ) → is_prefix key (key ++ s) ≡ true
unfolding is_prefix
is_prefix-append [] s = refl
is_prefix-append (c ∷ key) s = rw (eq_self c) (is_prefix-append key s)

behind_equals-append :
    (key value : List ℕ)
    → All (λ c. (c == 61) ≡ false) key
    → behind_equals (key ++ (61 ∷ value)) ≡ some value
unfolding behind_equals
behind_equals-append [] value h = refl
behind_equals-append (c ∷ key) value h = rw h.0 (behind_equals-append key value h.1)

-- A name without '=' that is no comment, and a value without a space at its start.
abbrev pub IsKey : List ℕ → Type 0
IsKey [] = ⊥
IsKey (c ∷ key) = ((c == 35) ≡ false) × All (λ x. (x == 61) ≡ false) (c ∷ key)

abbrev pub IsValue : List ℕ → Type 0
IsValue [] = Unit
IsValue (c ∷ value) = (c == 32) ≡ false

skip_blanks-IsValue : (value : List ℕ) → IsValue value → skip_blanks value ≡ value
unfolding skip_blanks
skip_blanks-IsValue [] h = refl
skip_blanks-IsValue (c ∷ value) h = rw h refl

line_value-append :
    (key value : List ℕ)
    → IsKey key
    → IsValue value
    → line_value key (key ++ (61 ∷ value)) ≡ some value
unfolding line_value contains
line_value-append [] value h k = absurd h
line_value-append (c ∷ key) value h k =
    rw
      (
        h.0,
        is_prefix-append (c ∷ key) (61 ∷ value),
        behind_equals-append (c ∷ key) value h.1,
        skip_blanks-IsValue value k,
      )
      refl

read_lines-line :
    (fuel : ℕ) (key l s : List ℕ)
    → IsPlain l
    → read_lines (suc fuel) key (l ++ (10 ∷ s)) ≡ line_or key (some l) (read_lines fuel key s)
unfolding read_lines
read_lines-line fuel key l s h =
    ap (λ (r : Option (List ℕ) × List ℕ). line_or key r.0 (read_lines fuel key r.1))
      (mygetline-IsPlain l s h)

line_or-IsPlain :
    (key l : List ℕ) (value : Option (List ℕ)) (rest : Option (Option (List ℕ)))
    → IsPlain l
    → line_value key l ≡ value
    → line_or key (some l) rest ≡ line_found value rest
unfolding line_or
line_or-IsPlain key l none rest h e = rw (line_or, c_string-IsPlain l h, e) refl
line_or-IsPlain key l (some v) rest h e = rw (line_or, c_string-IsPlain l h, e) refl

-- A text with the key in it.
abbrev pub IsIn : List ℕ → List ℕ → Type 0
IsIn key l = (before : List ℕ) × (behind : List ℕ) × (l ≡ before ++ (key ++ behind))

-- A comment, or a line that does not have the key in it.
abbrev pub IsOther : List ℕ → List ℕ → Type 0
IsOther key l = ((rest : List ℕ) × (l ≡ 35 ∷ rest)) ⊎ ¬ (IsIn key l)

is_prefix-IsIn : (key l : List ℕ) → is_prefix key l ≡ true → (rest : List ℕ) × (l ≡ key ++ rest)
unfolding is_prefix
is_prefix-IsIn [] l h = (l, refl)
is_prefix-IsIn (k ∷ key) [] h = cc
is_prefix-IsIn (k ∷ key) (c ∷ l) h = elim (Bool-cases (k == c)) [
  | inl same ↦
      (let found = is_prefix-IsIn key l (rw same at h) in
        (found.0, ap₂ (λ x xs. x ∷ xs) (sym (==→eq k c same)) found.1))
  | inr other ↦ absurd (no_prefix (rw other at h))
]
  where
    no_prefix : ◌≡◌ {A = Bool} false true → ⊥
    no_prefix e = cc

contains-IsIn : (key l : List ℕ) → contains key l ≡ true → IsIn key l
unfolding contains
contains-IsIn key [] h = let found = is_prefix-IsIn key [] h in ([], found.0, found.1)
contains-IsIn key (c ∷ l) h = elim (Bool-cases (is_prefix key (c ∷ l))) [
  | inl here ↦ (let found = is_prefix-IsIn key (c ∷ l) here in ([], found.0, found.1))
  | inr later ↦
      (let found = contains-IsIn key l (rw later at h) in
        (c ∷ found.0, found.1, ap (◌∷◌ c) found.2))
]

line_value-IsOther : (key l : List ℕ) → IsOther key l → line_value key l ≡ none
unfolding line_value
line_value-IsOther key [] h = refl
line_value-IsOther key (c ∷ l) (inl (rest, e)) = rw (comment) refl
  where
    first : List ℕ → ℕ
    first [] = 0
    first (x ∷ xs) = x

    comment : (c == 35) ≡ true
    comment = ground (arith, ap first e)
line_value-IsOther key (c ∷ l) (inr absent) = elim (Bool-cases (c == 35)) [
  | inl comment ↦ rw comment refl
  | inr text ↦ elim (Bool-cases (contains key (c ∷ l))) [
    | inl there ↦ absurd (absent (contains-IsIn key (c ∷ l) there))
    | inr away ↦ rw (text, away) refl
  ]
]

read_lines-print_lines :
    (fuel : ℕ) (key value : List ℕ) (before : List (List ℕ)) (s : List ℕ)
    → length before < fuel
    → All (λ l. IsPlain l × (line_value key l ≡ none)) before
    → IsKey key
    → IsValue value
    → IsPlain (key ++ (61 ∷ value))
    → read_lines fuel key (print_lines before ((key ++ (61 ∷ value)) ++ (10 ∷ s)))
      ≡ some (some value)
read_lines-print_lines zero key value before s enough other k v plain = absurd (omega arith)
read_lines-print_lines (suc fuel) key value [] s enough other k v plain =
    read_lines-line fuel key (key ++ (61 ∷ value)) s plain
    ∙ line_or-IsPlain key (key ++ (61 ∷ value)) (some value) (read_lines fuel key s) plain
        (line_value-append key value k v)
read_lines-print_lines (suc fuel) key value (l ∷ before) s enough other k v plain =
    read_lines-line fuel key l rest other.0.0
    ∙ line_or-IsPlain key l none (read_lines fuel key rest) other.0.0 other.0.1
    ∙ read_lines-print_lines fuel key value before s (omega arith) other.1 k v plain
  where
    rest : List ℕ
    rest = print_lines before ((key ++ (61 ∷ value)) ++ (10 ∷ s))

print_lines-length :
    (ls : List (List ℕ)) (s : List ℕ) → length ls + length s ≤ length (print_lines ls s)
print_lines-length [] s = omega arith
print_lines-length (l ∷ ls) s =
    omega (arith, length-append l (10 ∷ print_lines ls s), print_lines-length ls s)

-- readConfig reads back the value of a line `key=value`, spaces in the value included, from a file in
-- which every line before it is a comment or does not have the key in it; what comes behind the line does
-- not matter. The key is no comment and has no '=', the value does not start with a space, and no line
-- holds a zero or a carriage return.
pub read_config-print_lines :
    (key value : List ℕ) (before : List (List ℕ)) (s : List ℕ)
    → All (λ l. IsPlain l × IsOther key l) before
    → IsKey key
    → IsValue value
    → IsPlain (key ++ (61 ∷ value))
    → read_config (print_lines before ((key ++ (61 ∷ value)) ++ (10 ∷ s))) key ≡ some (some value)
unfolding read_config
read_config-print_lines key value before s other k v plain =
    read_lines-print_lines (suc (length file)) key value before s
      (omega (arith, print_lines-length before ((key ++ (61 ∷ value)) ++ (10 ∷ s))))
      (All-map (λ l. IsPlain l × IsOther key l) (λ l. IsPlain l × (line_value key l ≡ none))
        (λ l h. (h.0, line_value-IsOther key l h.1)) before other)
      k v plain
  where
    file : List ℕ
    file = print_lines before ((key ++ (61 ∷ value)) ++ (10 ∷ s))

-- What is left is shorter, as soon as there is a line.
getline_loop-left : (b : Bool) (s : List ℕ) → length (getline_loop b s).left ≤ length s
unfolding getline_loop
getline_loop-left b [] = omega arith
getline_loop-left b (c ∷ s) = elim (Bool-cases (c == 10)) [
  | inl newline ↦ rw newline (omega arith)
  | inr other ↦ elim (Bool-cases (b || c == 13)) [
    | inl lost ↦ rw (other, lost) (omega (arith, getline_loop-left (not b && c == 13) s))
    | inr kept ↦ rw (other, kept) (omega (arith, getline_loop-left (not b && c == 13) s))
  ]
]

getline_loop_shorter :
    (b : Bool) (c : ℕ) (s : List ℕ) → length (getline_loop b (c ∷ s)).left ≤ length s
unfolding getline_loop
getline_loop_shorter b c s = elim (Bool-cases (c == 10)) [
  | inl newline ↦ rw newline (omega arith)
  | inr other ↦ elim (Bool-cases (b || c == 13)) [
    | inl lost ↦ rw (other, lost) (getline_loop-left (not b && c == 13) s)
    | inr kept ↦ rw (other, kept) (getline_loop-left (not b && c == 13) s)
  ]
]

line_or_ends :
    (key : List ℕ) (got : Option (List ℕ)) (rest : Option (Option (List ℕ)))
    → (got ≡ none) ⊎ ((value : Option (List ℕ)) × (rest ≡ some value))
    → (value : Option (List ℕ)) × (line_or key got rest ≡ some value)
unfolding line_or
line_or_ends key none rest h = (none, refl)
line_or_ends key (some l) rest (inl e) = cc
line_or_ends key (some l) rest (inr (value, e)) = by_value (line_value key (c_string l))
  where
    by_value :
        (o : Option (List ℕ))
        → (v : Option (List ℕ)) × (elim o [ some found ↦ some (some found) | none ↦ rest ] ≡ some v)
    by_value none = (value, e)
    by_value (some found) = (some found, refl)

-- The fuel of readConfig is enough for every file.
read_lines_ends :
    (fuel : ℕ) (key s : List ℕ)
    → length s < fuel
    → (value : Option (List ℕ)) × (read_lines fuel key s ≡ some value)
unfolding read_lines mygetline getline_loop
read_lines_ends zero key s enough = absurd (omega arith)
read_lines_ends (suc fuel) key [] enough = line_or_ends key none (read_lines fuel key []) (inl refl)
read_lines_ends (suc fuel) key (c ∷ s) enough =
    line_or_ends key (mygetline (c ∷ s)).0 (read_lines fuel key (mygetline (c ∷ s)).1) (
      inr (
        read_lines_ends fuel key (mygetline (c ∷ s)).1
          (omega (arith, getline_loop_shorter false c s))))
