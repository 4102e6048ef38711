-- ===== src/Recovery/Config.antt =====
-- recovery.cpp: the configuration file of the card, read line by line.
pub mod Printed
mod Examples
use ota_backup.Base.{
  ℕ, zero, suc, List, [], ◌∷◌, Bool, true, false, ◌==◌, ◌||◌, ◌&&◌, not, if◌then◌else◌, Option,
  none, some, length,
}
use ota_backup.Recovery.Text.{◌>>=◌, c_string}
use ota_backup.Recovery.Options.{is_prefix}

-- What the loop of mygetline leaves: whether it met a newline, the characters, and what is left.
pub record Read : Type 0 where
  pub ended : Bool
  pub characters : List ℕ
  pub left : List ℕ

-- The loop of mygetline. Behind a carriage return a newline ends the line, and any other character is
-- lost with it.
unfoldable pub getline_loop : Bool → List ℕ → Read
getline_loop behind_return [] = record { ended = false; characters = []; left = [] }
getline_loop behind_return (c ∷ s) =
    let ended : Read = record { ended = true; characters = []; left = s } in
    let next = getline_loop (not behind_return && c == 13) s in
    let kept : Read = record next { characters = c ∷ next.characters } in
    if c == 10 then ended else if behind_return || c == 13 then next else kept

-- The line; `none` is -1, at the end of the file.
unfoldable pub mygetline : List ℕ → Option (List ℕ) × List ℕ
mygetline s =
    let r = getline_loop false s in
    let at_end : Option (List ℕ) = elim r.characters [ [] ↦ none | c ∷ l ↦ some (c ∷ l) ] in
    (if r.ended then some r.characters else at_end, r.left)

-- `strstr(s, key) != NULL`.
unfoldable pub contains : List ℕ → List ℕ → Bool
contains key [] = is_prefix key []
contains key (c ∷ s) = is_prefix key (c ∷ s) || contains key s

-- What stands behind the first '=', without the spaces there.
unfoldable pub behind_equals : List ℕ → Option (List ℕ)
behind_equals [] = none
behind_equals (c ∷ s) = let later = behind_equals s in if c == 61 then some s else later

unfoldable pub skip_blanks : List ℕ → List ℕ
skip_blanks [] = []
skip_blanks (c ∷ s) = let rest = skip_blanks s in if c == 32 then rest else c ∷ s

-- The value that a line gives the key; a comment and an empty line give none.
unfoldable pub line_value : List ℕ → List ℕ → Option (List ℕ)
line_value key [] = none
line_value key (c ∷ s) =
    let value = behind_equals (c ∷ s) >>= (λ v. some (skip_blanks v)) in
    if c == 35 then none else if contains key (c ∷ s) then value else none

-- What a line leads to: NULL at the end of the file, the value, or what the rest of the file gives.
unfoldable pub line_or :
    List ℕ → Option (List ℕ) → Option (Option (List ℕ)) → Option (Option (List ℕ))
line_or key none rest = some none
line_or key (some l) rest = elim (line_value key (c_string l)) [
  | some value ↦ some (some value)
  | none ↦ rest
]

-- The loop of readConfig from the start of the file; the inner `none` is NULL, the outer one is out of
-- fuel.
unfoldable pub read_lines : ℕ → List ℕ → List ℕ → Option (Option (List ℕ))
unfolding line_or
read_lines zero key s = none
read_lines (suc fuel) key s =
    let (got, left) = mygetline s in line_or key got (read_lines fuel key left)

unfoldable pub read_config : List ℕ → List ℕ → Option (Option (List ℕ))
read_config s key = read_lines (suc (length s)) key s

-- The values of `SdBootConfigs`.
pub record SdBootConfigs : Type 0 where
  pub pcba_test : List ℕ
  pub fw_update : List ℕ
  pub display_lcd : List ℕ
  pub display_led : List ℕ
  pub demo_copy : List ℕ
  pub volume_label : List ℕ

abbrev pub sd_boot_configs : SdBootConfigs
sd_boot_configs = record {
  pcba_test = 49 ∷ [];
  fw_update = 48 ∷ [];
  display_lcd = 49 ∷ [];
  display_led = 49 ∷ [];
  demo_copy = 48 ∷ [];
  volume_label = 114 ∷ 111 ∷ 99 ∷ 107 ∷ 99 ∷ 104 ∷ 105 ∷ 112 ∷ [];
}

-- Their names.
abbrev pub pcba_test_key : List ℕ
pcba_test_key = 112 ∷ 99 ∷ 98 ∷ 97 ∷ 95 ∷ 116 ∷ 101 ∷ 115 ∷ 116 ∷ []

abbrev pub fw_update_key : List ℕ
fw_update_key = 102 ∷ 119 ∷ 95 ∷ 117 ∷ 112 ∷ 100 ∷ 97 ∷ 116 ∷ 101 ∷ []

abbrev pub display_lcd_key : List ℕ
display_lcd_key = 100 ∷ 105 ∷ 115 ∷ 112 ∷ 108 ∷ 97 ∷ 121 ∷ 95 ∷ 108 ∷ 99 ∷ 100 ∷ []

abbrev pub display_led_key : List ℕ
display_led_key = 100 ∷ 105 ∷ 115 ∷ 112 ∷ 108 ∷ 97 ∷ 121 ∷ 95 ∷ 108 ∷ 101 ∷ 100 ∷ []

abbrev pub demo_copy_key : List ℕ
demo_copy_key = 100 ∷ 101 ∷ 109 ∷ 111 ∷ 95 ∷ 99 ∷ 111 ∷ 112 ∷ 121 ∷ []

abbrev pub volume_label_key : List ℕ
volume_label_key = 118 ∷ 111 ∷ 108 ∷ 117 ∷ 109 ∷ 101 ∷ 95 ∷ 108 ∷ 97 ∷ 98 ∷ 101 ∷ 108 ∷ []

unfoldable pub value_or : Option (List ℕ) → List ℕ → List ℕ
value_or none old = old
value_or (some value) old = value

-- `parseSDBootConfig` on the file, or without one; `gVolume_label` is the label that it sets.
unfoldable pub parse_sd_boot_config : Option (List ℕ) → SdBootConfigs → Option SdBootConfigs
parse_sd_boot_config none c = some c
parse_sd_boot_config (some s) c = do
  v0 ← read_config s pcba_test_key
  v1 ← read_config s fw_update_key
  v2 ← read_config s display_led_key
  v3 ← read_config s display_lcd_key
  v4 ← read_config s demo_copy_key
  v5 ← read_config s volume_label_key
  some (record {
    pcba_test = value_or v0 c.pcba_test;
    fw_update = value_or v1 c.fw_update;
    display_lcd = value_or v3 c.display_lcd;
    display_led = value_or v2 c.display_led;
    demo_copy = value_or v4 c.demo_copy;
    volume_label = value_or v5 c.volume_label;
  })
