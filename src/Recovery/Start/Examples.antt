-- ===== src/Recovery/Start/Examples.antt =====
-- A whole run whose command updates one board, without a card for the robot.
use ota_backup.Base.{ℕ, ◌≡◌, refl, List, [], ◌∷◌, ◌++◌, true, false, Option, none, some}
use ota_backup.Image.Path.{str_equal}
use ota_backup.RobotUpdate.Firmware.{Progress}
use ota_backup.RobotUpdate.Session.{robot_sub_sys_update}
use ota_backup.Recovery.Text.{
  skip_delimiters, token, strtok, strlcpy, strlcat, line, fgets, c_string,
}
use ota_backup.Recovery.Storage.{FilePath, zero_message, command_file}
use ota_backup.Recovery.Disk.{Disk, disk_storage, disk_storage-StorageLaws}
use ota_backup.Recovery.Args.{
  Started, message_args, if_recovery, from_message, file_args, from_file, add_lines, boot_message,
  if_no_args, message_arguments, file_arguments, written, get_args,
}
use ota_backup.Recovery.Finish.{
  Globals, Finished, copy_lines, copied, append_log_file, copy_log_file, copy_logs, strflag,
  write_intent, write_locale, clear_misc, write_flag, leave, finish_recovery, without_spaces,
  locale_of, load_locale_from_cache,
}
use ota_backup.Recovery.Rotate.{log_name, rotate_last_logs}
use ota_backup.Recovery.Erase.{is_cache, erase_volume, sure_mount}
use ota_backup.Recovery.Options.{
  update_rc_name, set_stage, set_option, split_name, is_prefix, exact_option, starting_options,
  only_option, find_option, parsed, after_dashes, long_option, get_options,
}
use ota_backup.Recovery.Paths.{get_auto_sdcard_update_path}
use ota_backup.Recovery.Main.{module_of, modules_of, perform_rest, perform, conclude, run_updates}
use ota_backup.Recovery.Devices.{
  header, codes, protocol, silent, no_card, formatting, refusing, leaving, bare,
}
use ota_backup.Recovery.Sdtool.{Factory}
use ota_backup.Recovery.Start.{
  Boot, Ended, by_recovery, is_adbd, locale_or_cached, wait_for_card, set_update_path, recover,
  choose_run, prepared, recovery_main,
}
use ota_backup.Recovery.Start.Ends.{get_args-recovery_main}

abbrev no_factory : Factory Disk
no_factory = record {
  sd_boot_config = λ w. none;
  pcba_core = λ w. (none, w);
  copy_demo_files = λ w. w;
  is_loader_updated = λ w. false;
}

abbrev plain_boot : Boot Disk
plain_boot = record { rename = λ f g w. w; adb_main = λ w. w; check_sdboot = λ w. false }

-- "--update_rc=/x"
abbrev small_files : FilePath → Option (List ℕ)
small_files command_file = some ((45 ∷ 45 ∷ update_rc_name) ++ (61 ∷ 47 ∷ 120 ∷ 10 ∷ []))
small_files _ = none

abbrev small_disk : Disk
small_disk = record { message = zero_message; file = small_files }

abbrev small_globals : Globals
small_globals = record {
  locale = none;
  tmplog_offset = 0;
  need_clear_misc = true;
  auto_update_complete = false;
  updatepath = [];
}

abbrev no_progress : Progress
no_progress = record { data_total = 0; data_sended = 0 }

abbrev small_run : Option (Ended Disk)
small_run =
    recovery_main header codes disk_storage formatting refusing leaving [] bare no_factory
      plain_boot protocol silent no_card 5 false (record { program = 114 ∷ []; args = [] })
      no_progress small_globals small_disk

abbrev finished_or : Finished Disk → Option (Ended Disk) → Finished Disk
finished_or r (some (by_recovery r')) = r'
finished_or r _ = r

abbrev small_finished : Finished Disk
small_finished =
    finished_or (record { globals = small_globals; world = small_disk; unlinked = false }) small_run

small_run_ended : small_run ≡ some (by_recovery small_finished)
unfolding skip_delimiters token strtok strlcpy strlcat line fgets c_string message_args if_recovery
    from_message file_args from_file add_lines boot_message if_no_args message_arguments
    file_arguments written get_args str_equal copy_lines copied append_log_file copy_log_file
    copy_logs strflag write_intent write_locale clear_misc write_flag leave finish_recovery
    without_spaces locale_of load_locale_from_cache log_name rotate_last_logs is_cache erase_volume
    sure_mount set_stage set_option split_name is_prefix exact_option starting_options only_option
    find_option parsed after_dashes long_option get_options get_auto_sdcard_update_path module_of
    modules_of perform_rest perform conclude run_updates is_adbd locale_or_cached wait_for_card
    set_update_path recover choose_run prepared recovery_main robot_sub_sys_update
small_run_ended = refl

small_unlinked : small_finished.unlinked ≡ true
unfolding skip_delimiters token strtok strlcpy strlcat line fgets c_string message_args if_recovery
    from_message file_args from_file add_lines boot_message if_no_args message_arguments
    file_arguments written get_args str_equal copy_lines copied append_log_file copy_log_file
    copy_logs strflag write_intent write_locale clear_misc write_flag leave finish_recovery
    without_spaces locale_of load_locale_from_cache log_name rotate_last_logs is_cache erase_volume
    sure_mount set_stage set_option split_name is_prefix exact_option starting_options only_option
    find_option parsed after_dashes long_option get_options get_auto_sdcard_update_path module_of
    modules_of perform_rest perform conclude run_updates is_adbd locale_or_cached wait_for_card
    set_update_path recover choose_run prepared recovery_main robot_sub_sys_update
small_unlinked = refl

get_args-recovery_main_example :
    (t : Started Disk) × (get_args header disk_storage
        (record { program = []; args = [] })
        small_finished.world
      ≡ some t)
    × (t.arguments ≡ record { program = []; args = [] })
get_args-recovery_main_example =
    get_args-recovery_main header codes disk_storage formatting refusing leaving [] bare no_factory
      plain_boot protocol silent no_card disk_storage-StorageLaws 5 false
      (record { program = 114 ∷ []; args = [] }) no_progress small_globals small_disk small_finished
      refl small_run_ended small_unlinked []
