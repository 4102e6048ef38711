-- ===== src/Recovery/Config/Examples.antt =====
-- A configuration file with a comment, another key and the key that is read.
use ota_backup.Base.{
  ℕ, ◌≡◌, refl, List, [], ◌∷◌, ◌++◌, some, inl, inr, ap, arith, length, length-append,
}
use ota_backup.Recovery.Text.{c_string}
use ota_backup.Recovery.Options.{is_prefix}
use ota_backup.Recovery.Config.{
  getline_loop, mygetline, contains, behind_equals, skip_blanks, line_value, line_or, read_lines,
  read_config, sd_boot_configs, value_or, parse_sd_boot_config,
}
use ota_backup.Recovery.Config.Printed.{print_lines, read_config-print_lines}

-- "fw_update"
abbrev small_key : List ℕ
small_key = 102 ∷ 119 ∷ 95 ∷ 117 ∷ 112 ∷ 100 ∷ 97 ∷ 116 ∷ 101 ∷ []

-- "#x" and "a=1"
abbrev small_before : List (List ℕ)
small_before = (35 ∷ 120 ∷ []) ∷ (97 ∷ 61 ∷ 49 ∷ []) ∷ []

-- The second line is shorter than the key.
too_short : (before behind : List ℕ) → (97 ∷ 61 ∷ 49 ∷ []) ≡ before ++ (small_key ++ behind) → ⊥
too_short before behind e =
    absurd
      (omega (arith, ap (λ (l : List ℕ). length l) e, length-append before (small_key ++ behind)))

read_config-print_lines_example :
    read_config
      (print_lines small_before ((small_key ++ (61 ∷ 49 ∷ [])) ++ (10 ∷ 120 ∷ [])))
      small_key
    ≡ some (some (49 ∷ []))
read_config-print_lines_example =
    read_config-print_lines small_key (49 ∷ []) small_before (120 ∷ [])
      (
        (((refl, refl, refl), ((refl, refl, refl), tt)), inl (120 ∷ [], refl)),
        (
          (
            ((refl, refl, refl), ((refl, refl, refl), ((refl, refl, refl), tt))),
            inr (λ h. too_short h.0 h.1 h.2),
          ),
          tt,
        ),
      )
      (refl, (refl, (refl, (refl, (refl, (refl, (refl, (refl, (refl, (refl, tt)))))))))) refl
      (
        (refl, refl, refl),
        (
          (refl, refl, refl),
          (
            (refl, refl, refl),
            (
              (refl, refl, refl),
              (
                (refl, refl, refl),
                (
                  (refl, refl, refl),
                  (
                    (refl, refl, refl),
                    (
                      (refl, refl, refl),
                      ((refl, refl, refl), ((refl, refl, refl), ((refl, refl, refl), tt))),
                    ),
                  ),
                ),
              ),
            ),
          ),
        ),
      )

-- "fw_update= 1\r\nvolume_label=a b"
abbrev small_config : List ℕ
small_config =
    102 ∷ 119 ∷ 95 ∷ 117 ∷ 112 ∷ 100 ∷ 97 ∷ 116 ∷ 101 ∷ 61 ∷ 32 ∷ 49 ∷ 13 ∷ 10 ∷ 118 ∷ 111 ∷ 108
    ∷ 117 ∷ 109 ∷ 101 ∷ 95 ∷ 108 ∷ 97 ∷ 98 ∷ 101 ∷ 108 ∷ 61 ∷ 97 ∷ 32 ∷ 98 ∷ []

small_config_parsed :
    parse_sd_boot_config (some small_config) sd_boot_configs
    ≡ some (record sd_boot_configs { fw_update = 49 ∷ []; volume_label = 97 ∷ 32 ∷ 98 ∷ [] })
unfolding getline_loop mygetline contains is_prefix behind_equals skip_blanks line_value line_or
    read_lines read_config value_or parse_sd_boot_config c_string
small_config_parsed = refl
