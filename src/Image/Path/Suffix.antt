-- ===== src/Image/Path/Suffix.antt =====
-- Which paths LoadHex takes.
use ota_backup.Base.{
  ℕ, ◌≡◌, ◌≢◌, ◌⊎◌, inl, inr, ◌↔◌, ◌∙◌, refl, ap, ap₂, List, [], ◌∷◌, ◌++◌, append_assoc, true,
  false, Bool-cases, ◌==◌, if◌then◌else◌, Option, none, some, ==→eq, eq_self, ◌≤◌, arith, All,
}
use ota_backup.Image.Path.{
  strrchr, to_upper, strupr, split_whole_name, split_path, str_equal, hex_ext, check_file_ext,
}

abbrev Last : List ℕ → Option (List ℕ) → Type 0
Last s none = Unit
Last s (some []) = ⊥
Last s (some (c ∷ found)) = (pre : List ℕ) × (s ≡ pre ++ (c ∷ found))

strrchr-Last : (s : List ℕ) (c : ℕ) → Last s (strrchr s c)
unfolding strrchr
strrchr-Last [] c = tt
strrchr-Last (x ∷ s) c = later (strrchr s c) (strrchr-Last s c)
  where
    later :
        (o : Option (List ℕ))
        → Last s o
        → Last
            (x ∷ s)
            (elim o [ some found ↦ some found | none ↦ if x == c then some (x ∷ s) else none ])
    later none h = elim (Bool-cases (x == c)) [
      | inl here ↦ rw here ([], refl)
      | inr other ↦ rw other tt
    ]
    later (some []) h = h
    later (some (y ∷ found)) h = (x ∷ h.0, ap (◌∷◌ x) h.1)

-- A character that is not in the tail is found before it.
abbrev then_tail : Option (List ℕ) → List ℕ → Option (List ℕ)
then_tail none t = none
then_tail (some found) t = some (found ++ t)

strrchr-none : (s : List ℕ) (c : ℕ) → All (λ x. x ≢ c) s → strrchr s c ≡ none
unfolding strrchr
strrchr-none [] c h = refl
strrchr-none (x ∷ s) c h = rw (strrchr-none s c h.1, other) refl
  where
    other : (x == c) ≡ false
    other = ground (arith, h.0)

strrchr-append :
    (s t : List ℕ) (c : ℕ) → All (λ x. x ≢ c) t → strrchr (s ++ t) c ≡ then_tail (strrchr s c) t
unfolding strrchr
strrchr-append [] t c h = strrchr-none t c h
strrchr-append (x ∷ s) t c h = rw (strrchr-append s t c h) (later (strrchr s c))
  where
    later :
        (o : Option (List ℕ))
        → (elim (then_tail o t) [
          | some found ↦ some found
          | none ↦ if x == c then some (x ∷ s ++ t) else none
        ])
          ≡ then_tail
              (elim o [ some found ↦ some found | none ↦ if x == c then some (x ∷ s) else none ])
              t
    later none = elim (Bool-cases (x == c)) [ inl here ↦ rw here refl | inr other ↦ rw other refl ]
    later (some found) = refl

pub str_equal-eq : (s t : List ℕ) → str_equal s t ≡ true → s ≡ t
unfolding str_equal
str_equal-eq [] [] e = refl
str_equal-eq [] (y ∷ t) e = absurd cc
str_equal-eq (x ∷ s) [] e = absurd cc
str_equal-eq (x ∷ s) (y ∷ t) e = elim (Bool-cases (x == y)) [
  | inl same ↦ ap₂ (λ a b. a ∷ b) (==→eq x y same) (str_equal-eq s t (rw same at e))
  | inr other ↦ absurd (refuted (rw other at e))
]
  where
    refuted : false ≡ true → ⊥
    refuted e = cc

pub str_equal_refl : (s : List ℕ) → str_equal s s ≡ true
unfolding str_equal
str_equal_refl [] = refl
str_equal_refl (x ∷ s) = rw (eq_self x, str_equal_refl s) refl

strrchr-found :
    (s t : List ℕ) (c : ℕ) → All (λ x. x ≢ c) t → strrchr (s ++ (c ∷ t)) c ≡ some (c ∷ t)
unfolding strrchr
strrchr-found [] t c h = rw (strrchr-none t c h, eq_self c) refl
strrchr-found (x ∷ s) t c h = rw (strrchr-found s t c h) refl

-- An extension that `toupper` makes `.HEX` of.
abbrev pub IsHexExt : List ℕ → Type 0
IsHexExt ext = strupr ext ≡ hex_ext

-- A list ends in `ext`.
abbrev EndsIn : List ℕ → List ℕ → Type 0
EndsIn ext s = (stem : List ℕ) × (s ≡ stem ++ ext)

split_whole_name-EndsIn : (s : List ℕ) → EndsIn (split_whole_name s) s ⊎ (split_whole_name s ≡ [])
unfolding split_whole_name
split_whole_name-EndsIn s = found (strrchr s 46) (strrchr-Last s 46)
  where
    found :
        (o : Option (List ℕ))
        → Last s o
        → EndsIn (elim o [ some ext ↦ ext | none ↦ [] ]) s
          ⊎ ((elim o [ some ext ↦ ext | none ↦ [] ]) ≡ [])
    found none h = inr refl
    found (some []) h = absurd h
    found (some (x ∷ w)) h = inl h

split_path-EndsIn : (s : List ℕ) → EndsIn (split_path s) s ⊎ (split_path s ≡ [])
unfolding split_path
split_path-EndsIn s = found (strrchr s 47) (strrchr-Last s 47)
  where
    found :
        (o : Option (List ℕ))
        → Last s o
        → EndsIn
            (elim o [
              | none ↦ split_whole_name s
              | some [] ↦ []
              | some (slash ∷ whole_name) ↦ split_whole_name whole_name
            ])
            s
          ⊎ ((elim o [
            | none ↦ split_whole_name s
            | some [] ↦ []
            | some (slash ∷ whole_name) ↦ split_whole_name whole_name
          ])
              ≡ [])
    found none h = split_whole_name-EndsIn s
    found (some []) h = absurd h
    found (some (x ∷ w)) h = elim (split_whole_name-EndsIn w) [
      | inl e ↦ inl (
        h.0 ++ (x ∷ e.0),
        h.1 ∙ rw (append_assoc h.0 (x ∷ e.0) (split_whole_name w)) (ap (λ r. h.0 ++ (x ∷ r)) e.1),
      )
      | inr e ↦ inr e
    ]

-- The characters of such an extension: a dot, then no dot and no slash.
abbrev IsExt : List ℕ → Type 0
IsExt ext = (t : List ℕ) × (ext ≡ 46 ∷ t) × All (λ x. x ≢ 46) t × All (λ x. x ≢ 47) ext

dot : (a : ℕ) → to_upper a ≡ 46 → a ≡ 46
unfolding to_upper
dot a e = ground arith

letter : (a b : ℕ) → to_upper a ≡ b → 65 ≤ b → (a ≢ 46) × (a ≢ 47)
unfolding to_upper
letter a b e h = (λ k. ground arith, λ k. ground arith)

IsHexExt-IsExt : (ext : List ℕ) → IsHexExt ext → IsExt ext
unfolding strupr
IsHexExt-IsExt [] e = absurd cc
IsHexExt-IsExt (a ∷ []) e = absurd cc
IsHexExt-IsExt (a ∷ b ∷ []) e = absurd cc
IsHexExt-IsExt (a ∷ b ∷ c ∷ []) e = absurd cc
IsHexExt-IsExt (a ∷ b ∷ c ∷ d ∷ x ∷ s) e = absurd cc
IsHexExt-IsExt (a ∷ b ∷ c ∷ d ∷ []) e = (
  b ∷ c ∷ d ∷ [],
  ap (λ x. x ∷ b ∷ c ∷ d ∷ []) is_dot,
  (hb.0, (hc.0, (hd.0, tt))),
  (not_slash, (hb.1, (hc.1, (hd.1, tt)))),
)
  where
    is_dot : a ≡ 46
    is_dot = dot a cc

    not_slash : a ≢ 47
    not_slash k = omega (arith, is_dot)

    hb : (b ≢ 46) × (b ≢ 47)
    hb = letter b 72 (cc) (omega arith)

    hc : (c ≢ 46) × (c ≢ 47)
    hc = letter c 69 (cc) (omega arith)

    hd : (d ≢ 46) × (d ≢ 47)
    hd = letter d 88 (cc) (omega arith)

split_whole_name-append : (s ext : List ℕ) → IsExt ext → split_whole_name (s ++ ext) ≡ ext
unfolding split_whole_name
split_whole_name-append s ext h = rw (h.1, split_whole_name, strrchr-found s h.0 46 h.2) refl

split_path-append : (s ext : List ℕ) → IsExt ext → split_path (s ++ ext) ≡ ext
unfolding split_path
split_path-append s ext h =
    rw (split_path, strrchr-append s ext 47 h.3) (found (strrchr s 47) (strrchr-Last s 47))
  where
    found :
        (o : Option (List ℕ))
        → Last s o
        → (elim (then_tail o ext) [
          | none ↦ split_whole_name (s ++ ext)
          | some [] ↦ []
          | some (slash ∷ whole_name) ↦ split_whole_name whole_name
        ])
          ≡ ext
    found none k = split_whole_name-append s ext h
    found (some []) k = absurd k
    found (some (x ∷ w)) k = split_whole_name-append w ext h

-- `CheckFileExt` takes exactly the paths that end in `.hex`, in any case of its letters.
pub check_file_ext_iff :
    (path : List ℕ)
    → check_file_ext path ≡ true
      ↔ ((stem : List ℕ) × (ext : List ℕ) × (path ≡ stem ++ ext) × IsHexExt ext)
unfolding check_file_ext strupr
check_file_ext_iff path = (taken, takes)
  where
    taken :
        str_equal (strupr (split_path path)) hex_ext ≡ true
        → (stem : List ℕ) × (ext : List ℕ) × (path ≡ stem ++ ext) × IsHexExt ext
    taken e =
        let hex = str_equal-eq (strupr (split_path path)) hex_ext e in
        elim (split_path-EndsIn path) [
          | inl k ↦ (k.0, split_path path, k.1, hex)
          | inr k ↦ absurd (nothing (rw k at hex))
        ]
      where
        nothing : ◌≡◌ {A = List ℕ} [] hex_ext → ⊥
        nothing e = cc

    takes :
        ((stem : List ℕ) × (ext : List ℕ) × (path ≡ stem ++ ext) × IsHexExt ext)
        → str_equal (strupr (split_path path)) hex_ext ≡ true
    takes (stem, ext, e, h) =
        rw (e, split_path-append stem ext (IsHexExt-IsExt ext h), h) (str_equal_refl hex_ext)
