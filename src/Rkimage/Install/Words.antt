-- ===== src/Rkimage/Install/Words.antt =====
-- rkimage.cpp: the strings of install_rkimage, handle_update_script and recover_backup.
use ota_backup.Base.{ℕ, List, [], ◌∷◌}

-- The names of items and the paths of their partitions: "boot", "system", "backup", "recovery",
-- "parameter", "bootloader" and "/misc".
abbrev pub boot_word : List ℕ
boot_word = 98 ∷ 111 ∷ 111 ∷ 116 ∷ []

abbrev pub system_word : List ℕ
system_word = 115 ∷ 121 ∷ 115 ∷ 116 ∷ 101 ∷ 109 ∷ []

abbrev pub backup_word : List ℕ
backup_word = 98 ∷ 97 ∷ 99 ∷ 107 ∷ 117 ∷ 112 ∷ []

abbrev pub recovery_word : List ℕ
recovery_word = 114 ∷ 101 ∷ 99 ∷ 111 ∷ 118 ∷ 101 ∷ 114 ∷ 121 ∷ []

abbrev pub parameter_word : List ℕ
parameter_word = 112 ∷ 97 ∷ 114 ∷ 97 ∷ 109 ∷ 101 ∷ 116 ∷ 101 ∷ 114 ∷ []

abbrev pub bootloader_word : List ℕ
bootloader_word = 98 ∷ 111 ∷ 111 ∷ 116 ∷ 108 ∷ 111 ∷ 97 ∷ 100 ∷ 101 ∷ 114 ∷ []

abbrev pub misc_path : List ℕ
misc_path = 47 ∷ 109 ∷ 105 ∷ 115 ∷ 99 ∷ []

abbrev pub cust_path : List ℕ
cust_path = 47 ∷ 99 ∷ 117 ∷ 115 ∷ 116 ∷ []

-- "/mnt/external_sd", "boot-recovery", "recovery\n--update_rkimage=", "update-bootloader" and
-- "#!enable_script"
abbrev pub external_sd : List ℕ
external_sd =
    47 ∷ 109 ∷ 110 ∷ 116 ∷ 47 ∷ 101 ∷ 120 ∷ 116 ∷ 101 ∷ 114 ∷ 110 ∷ 97 ∷ 108 ∷ 95 ∷ 115 ∷ 100 ∷ []

abbrev pub boot_recovery : List ℕ
boot_recovery = 98 ∷ 111 ∷ 111 ∷ 116 ∷ 45 ∷ 114 ∷ 101 ∷ 99 ∷ 111 ∷ 118 ∷ 101 ∷ 114 ∷ 121 ∷ []

abbrev pub update_rkimage : List ℕ
update_rkimage =
    114 ∷ 101 ∷ 99 ∷ 111 ∷ 118 ∷ 101 ∷ 114 ∷ 121 ∷ 10 ∷ 45 ∷ 45 ∷ 117 ∷ 112 ∷ 100 ∷ 97 ∷ 116 ∷ 101
    ∷ 95 ∷ 114 ∷ 107 ∷ 105 ∷ 109 ∷ 97 ∷ 103 ∷ 101 ∷ 61 ∷ []

abbrev pub update_bootloader : List ℕ
update_bootloader =
    117 ∷ 112 ∷ 100 ∷ 97 ∷ 116 ∷ 101 ∷ 45 ∷ 98 ∷ 111 ∷ 111 ∷ 116 ∷ 108 ∷ 111 ∷ 97 ∷ 100 ∷ 101 ∷ 114
    ∷ []

abbrev pub enable_script : List ℕ
enable_script =
    35 ∷ 33 ∷ 101 ∷ 110 ∷ 97 ∷ 98 ∷ 108 ∷ 101 ∷ 95 ∷ 115 ∷ 99 ∷ 114 ∷ 105 ∷ 112 ∷ 116 ∷ []
