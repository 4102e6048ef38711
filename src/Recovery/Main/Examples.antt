-- ===== src/Recovery/Main/Examples.antt =====
-- An update of a board whose card cannot be mounted, on a disk in memory.
use mathlib.Core.List.{Memᴰ}
use ota_backup.Base.{
  ℕ, ◌≡◌, refl, List, [], ◌∷◌, ◌++◌, true, false, Option, none, some, minus_one, take,
}
use ota_backup.RobotUpdate.Firmware.{Progress}
use ota_backup.RobotUpdate.Session.{robot_sub_sys_update}
use ota_backup.Recovery.Storage.{FilePath, zero_message, command_file, rotated_log}
use ota_backup.Recovery.Disk.{Disk, disk_storage, disk_storage-StorageLaws}
use ota_backup.Recovery.Finish.{Globals, finish_recovery}
use ota_backup.Recovery.Erase.{cache_root, is_last, erase_volume}
use ota_backup.Recovery.Erase.Kept.{start_of, erase_volume-start}
use ota_backup.Recovery.Options.{
  Settings, no_settings, update_rc_name, set_stage, set_option, split_name, is_prefix, exact_option,
  starting_options, only_option, find_option, parsed, after_dashes, long_option, get_options,
  wipe_all_name,
}
use ota_backup.Image.Path.{str_equal}
use ota_backup.Recovery.Devices.{
  header, codes, protocol, silent, no_card, formatting, refusing, leaving, bare,
}
use ota_backup.Recovery.Main.{module_of, modules_of, run_updates}
use ota_backup.Recovery.Main.Boards.{run_updates_boards}

abbrev small_files : FilePath → Option (List ℕ)
small_files command_file = some (45 ∷ 10 ∷ [])
small_files (rotated_log n) = some (7 ∷ [])
small_files _ = none

abbrev small_disk : Disk
small_disk = record { message = zero_message; file = small_files }

-- "--update_rc=/x"
abbrev rc_settings : Settings
rc_settings = record no_settings { update_rc = some (47 ∷ 120 ∷ []) }

rc_settings_got :
    get_options none (((45 ∷ 45 ∷ update_rc_name) ++ (61 ∷ 47 ∷ 120 ∷ [])) ∷ []) no_settings
    ≡ rc_settings
unfolding set_stage set_option split_name is_prefix exact_option starting_options only_option
    find_option parsed after_dashes long_option get_options str_equal
rc_settings_got = refl

-- "--wipe_a" is enough for "--wipe_all"
wipe_all_got :
    (get_options none ((45 ∷ 45 ∷ take 6 wipe_all_name) ∷ []) no_settings).wipe_data ≡ true
unfolding set_stage set_option split_name is_prefix exact_option starting_options only_option
    find_option parsed after_dashes long_option get_options str_equal
wipe_all_got = refl

erase_volume-start_example :
    disk_storage.contents
      (rotated_log 1)
      (erase_volume disk_storage formatting cache_root 0 small_disk).2
    ≡ start_of disk_storage disk_storage-StorageLaws (rotated_log 1) small_disk
unfolding is_last
erase_volume-start_example =
    erase_volume-start disk_storage disk_storage-StorageLaws formatting (λ g v. refl)
      (rotated_log 1) small_disk 0 refl refl refl (λ g u. refl) refl small_disk refl
      (Memᴰ.tail (Memᴰ.head refl)) refl

abbrev small_globals : Globals
small_globals = record {
  locale = none;
  tmplog_offset = 0;
  need_clear_misc = true;
  auto_update_complete = false;
  updatepath = [];
}

abbrev no_progress : Progress
no_progress = record { data_total = 0; data_sended = 0 }

not_mounted :
    robot_sub_sys_update protocol silent no_card
      (record { number = 13; file = 47 ∷ 120 ∷ [] } ∷ [])
      no_progress
      small_disk
    ≡ some (minus_one, no_progress, small_disk)
unfolding robot_sub_sys_update
not_mounted = refl

rc_modules : modules_of protocol rc_settings ≡ record { number = 13; file = 47 ∷ 120 ∷ [] } ∷ []
unfolding modules_of module_of
rc_modules = refl

run_updates_boards_example :
    run_updates header codes disk_storage formatting refusing leaving [] bare protocol silent
      no_card 5 false none rc_settings no_progress small_globals small_disk
    ≡ finish_recovery disk_storage none small_globals small_disk
run_updates_boards_example =
    run_updates_boards header codes disk_storage formatting refusing leaving [] bare protocol silent
      no_card 5 false rc_settings no_progress no_progress small_globals small_disk small_disk
      minus_one (record { number = 13; file = 47 ∷ 120 ∷ [] }) []
      (record { not_error = refl; not_corrupt = refl })
      (record { no_package = refl; no_rkimage = refl; no_wipe_data = refl; no_wipe_cache = refl })
      rc_modules not_mounted
