-- ===== src/Recovery/Options/Names.antt =====
-- recovery.cpp: the table of the long options.
use ota_backup.Base.{ℕ, List, [], ◌∷◌, Bool, true, false}

-- `struct option`; an argument is required or there is none.
pub record LongOption : Type 0 where
  pub name : List ℕ
  pub has_arg : Bool
  pub val : ℕ

-- "factory_mode"
abbrev pub factory_mode_name : List ℕ
factory_mode_name = 102 ∷ 97 ∷ 99 ∷ 116 ∷ 111 ∷ 114 ∷ 121 ∷ 95 ∷ 109 ∷ 111 ∷ 100 ∷ 101 ∷ []

-- "send_intent"
abbrev pub send_intent_name : List ℕ
send_intent_name = 115 ∷ 101 ∷ 110 ∷ 100 ∷ 95 ∷ 105 ∷ 110 ∷ 116 ∷ 101 ∷ 110 ∷ 116 ∷ []

-- "update_package"
abbrev pub update_package_name : List ℕ
update_package_name =
    117 ∷ 112 ∷ 100 ∷ 97 ∷ 116 ∷ 101 ∷ 95 ∷ 112 ∷ 97 ∷ 99 ∷ 107 ∷ 97 ∷ 103 ∷ 101 ∷ []

-- "update_rkimage"
abbrev pub update_rkimage_name : List ℕ
update_rkimage_name =
    117 ∷ 112 ∷ 100 ∷ 97 ∷ 116 ∷ 101 ∷ 95 ∷ 114 ∷ 107 ∷ 105 ∷ 109 ∷ 97 ∷ 103 ∷ 101 ∷ []

-- "update_rc"
abbrev pub update_rc_name : List ℕ
update_rc_name = 117 ∷ 112 ∷ 100 ∷ 97 ∷ 116 ∷ 101 ∷ 95 ∷ 114 ∷ 99 ∷ []

-- "update_rp"
abbrev pub update_rp_name : List ℕ
update_rp_name = 117 ∷ 112 ∷ 100 ∷ 97 ∷ 116 ∷ 101 ∷ 95 ∷ 114 ∷ 112 ∷ []

-- "update_rf"
abbrev pub update_rf_name : List ℕ
update_rf_name = 117 ∷ 112 ∷ 100 ∷ 97 ∷ 116 ∷ 101 ∷ 95 ∷ 114 ∷ 102 ∷ []

-- "update_rb"
abbrev pub update_rb_name : List ℕ
update_rb_name = 117 ∷ 112 ∷ 100 ∷ 97 ∷ 116 ∷ 101 ∷ 95 ∷ 114 ∷ 98 ∷ []

-- "wipe_data"
abbrev pub wipe_data_name : List ℕ
wipe_data_name = 119 ∷ 105 ∷ 112 ∷ 101 ∷ 95 ∷ 100 ∷ 97 ∷ 116 ∷ 97 ∷ []

-- "wipe_cache"
abbrev pub wipe_cache_name : List ℕ
wipe_cache_name = 119 ∷ 105 ∷ 112 ∷ 101 ∷ 95 ∷ 99 ∷ 97 ∷ 99 ∷ 104 ∷ 101 ∷ []

-- "show_text"
abbrev pub show_text_name : List ℕ
show_text_name = 115 ∷ 104 ∷ 111 ∷ 119 ∷ 95 ∷ 116 ∷ 101 ∷ 120 ∷ 116 ∷ []

-- "wipe_all"
abbrev pub wipe_all_name : List ℕ
wipe_all_name = 119 ∷ 105 ∷ 112 ∷ 101 ∷ 95 ∷ 97 ∷ 108 ∷ 108 ∷ []

-- "just_exit"
abbrev pub just_exit_name : List ℕ
just_exit_name = 106 ∷ 117 ∷ 115 ∷ 116 ∷ 95 ∷ 101 ∷ 120 ∷ 105 ∷ 116 ∷ []

-- "locale"
abbrev pub locale_name : List ℕ
locale_name = 108 ∷ 111 ∷ 99 ∷ 97 ∷ 108 ∷ 101 ∷ []

-- "stages"
abbrev pub stages_name : List ℕ
stages_name = 115 ∷ 116 ∷ 97 ∷ 103 ∷ 101 ∷ 115 ∷ []

-- `OPTIONS`, whose values are those of the characters and of their sums.
abbrev pub options : List LongOption
options =
    record { name = factory_mode_name; has_arg = true; val = 102 }
    ∷ record { name = send_intent_name; has_arg = true; val = 115 }
    ∷ record { name = update_package_name; has_arg = true; val = 117 }
    ∷ record { name = update_rkimage_name; has_arg = true; val = 114 }
    ∷ record { name = update_rc_name; has_arg = true; val = 213 }
    ∷ record { name = update_rp_name; has_arg = true; val = 226 }
    ∷ record { name = update_rf_name; has_arg = true; val = 261 }
    ∷ record { name = update_rb_name; has_arg = true; val = 212 }
    ∷ record { name = wipe_data_name; has_arg = false; val = 119 }
    ∷ record { name = wipe_cache_name; has_arg = false; val = 99 }
    ∷ record { name = show_text_name; has_arg = false; val = 116 }
    ∷ record { name = wipe_all_name; has_arg = false; val = 216 }
    ∷ record { name = just_exit_name; has_arg = false; val = 120 }
    ∷ record { name = locale_name; has_arg = true; val = 108 }
    ∷ record { name = stages_name; has_arg = true; val = 103 }
    ∷ []
