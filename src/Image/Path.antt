-- ===== src/Image/Path.antt =====
-- Image.cpp: the extension of a path, on its characters.
pub mod Suffix
use ota_backup.Base.{
  ℕ, zero, suc, ◌+◌, ◌-◌, List, [], ◌∷◌, Bool, true, false, ◌&&◌, ◌==◌, leb, if◌then◌else◌, Option,
  none, some,
}

-- `strrchr`: what starts at the last `c`.
unfoldable pub strrchr : List ℕ → ℕ → Option (List ℕ)
strrchr [] c = none
strrchr (x ∷ s) c =
    let later = strrchr s c in
    elim later [ some found ↦ some found | none ↦ if x == c then some (x ∷ s) else none ]

-- `toupper` on ASCII, and `_strupr`.
unfoldable pub to_upper : ℕ → ℕ
to_upper c = if leb 97 c && leb c 122 then c - 32 else c

unfoldable pub strupr : List ℕ → List ℕ
strupr [] = []
strupr (c ∷ s) = to_upper c ∷ strupr s

-- The extension that `_split_whole_name` leaves.
unfoldable pub split_whole_name : List ℕ → List ℕ
split_whole_name whole_name = elim (strrchr whole_name 46) [ some ext ↦ ext | none ↦ [] ]

-- The extension that `_splitpath` leaves; `path[strlen(path)]` is the end of the string, never a '/'.
unfoldable pub split_path : List ℕ → List ℕ
split_path path = elim (strrchr path 47) [
  | none ↦ split_whole_name path
  | some [] ↦ []
  | some (slash ∷ whole_name) ↦ split_whole_name whole_name
]

-- `strcmp(s, t) == 0`.
unfoldable pub str_equal : List ℕ → List ℕ → Bool
str_equal [] [] = true
str_equal [] (y ∷ t) = false
str_equal (x ∷ s) [] = false
str_equal (x ∷ s) (y ∷ t) = x == y && str_equal s t

-- `.HEX`
abbrev pub hex_ext : List ℕ
hex_ext = 46 ∷ 72 ∷ 69 ∷ 88 ∷ []

-- `CheckFileExt` for a path whose parts fit its buffers.
unfoldable pub check_file_ext : List ℕ → Bool
unfolding split_path split_whole_name
check_file_ext path = str_equal (strupr (split_path path)) hex_ext
