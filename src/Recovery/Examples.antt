-- ===== src/Recovery/Examples.antt =====
-- An update that is cut off and started again, on a disk in memory.
use ota_backup.Base.{ℕ, ◌≡◌, refl, arith, List, [], ◌∷◌, true, false, Option, none, some}
use ota_backup.Image.Path.{str_equal}
use ota_backup.Image.Scan.{is_space}
use ota_backup.Recovery.Text.{
  skip_delimiters, token, strtok, strlcpy, strlcat, line, fgets, c_string,
}
use ota_backup.Recovery.Storage.{
  BootHeader, zero_message, FilePath, command_file, temporary_log_file, log_file, locale_file,
  to_read,
}
use ota_backup.Recovery.Disk.{Disk, disk_storage, disk_storage-StorageLaws}
use ota_backup.Recovery.Args.{
  Arguments, Started, boot_recovery, message_args, if_recovery, from_message, file_args, from_file,
  add_lines, boot_message, if_no_args, message_arguments, file_arguments, written, get_args,
}
use ota_backup.Recovery.Args.Bounded.{AreArgs, get_args-AreArgs}
use ota_backup.Recovery.Args.Restart.{get_args_restarts}
use ota_backup.Recovery.Args.Total.{get_args_ends}
use ota_backup.Recovery.Finish.{
  Globals, Finished, copy_lines, copied, append_log_file, copy_log_file, copy_logs, strflag,
  write_intent, write_locale, clear_misc, write_flag, leave, finish_recovery,
  load_locale_from_cache,
}
use ota_backup.Recovery.Finish.Logged.{Logged, finish_recovery-Logged}
use ota_backup.Recovery.Finish.Cleared.{get_args-finish_recovery}
use ota_backup.Recovery.Finish.Locale.{load_locale_from_cache-finish_recovery}

-- The sizes of the message of the Android recovery system.
abbrev header : BootHeader
header = record { command_size = 32; recovery_size = 768 }

-- "--wipe_data\r\n\n--x\n"
abbrev small_command : List ℕ
small_command =
    45 ∷ 45 ∷ 119 ∷ 105 ∷ 112 ∷ 101 ∷ 95 ∷ 100 ∷ 97 ∷ 116 ∷ 97 ∷ 13 ∷ 10 ∷ 10 ∷ 45 ∷ 45 ∷ 120 ∷ 10
    ∷ []

-- "--wipe_data" and "--x"
abbrev small_args : List (List ℕ)
small_args =
    (45 ∷ 45 ∷ 119 ∷ 105 ∷ 112 ∷ 101 ∷ 95 ∷ 100 ∷ 97 ∷ 116 ∷ 97 ∷ []) ∷ (45 ∷ 45 ∷ 120 ∷ []) ∷ []

abbrev small_file : FilePath → Option (List ℕ)
small_file command_file = some small_command
small_file temporary_log_file = some (65 ∷ 10 ∷ 66 ∷ [])
small_file log_file = some (67 ∷ [])
small_file _ = none

abbrev small_disk : Disk
small_disk = record { message = zero_message; file = small_file }

abbrev small_program : Arguments
small_program = record { program = 114 ∷ []; args = [] }

abbrev small_started : Started Disk
small_started = record {
  arguments = record { program = 114 ∷ []; args = small_args };
  stage = [];
  world = record {
    message = record {
      command = boot_recovery;
      status = [];
      recovery =
          114 ∷ 101 ∷ 99 ∷ 111 ∷ 118 ∷ 101 ∷ 114 ∷ 121 ∷ 10 ∷ 45 ∷ 45 ∷ 119 ∷ 105 ∷ 112 ∷ 101 ∷ 95
          ∷ 100 ∷ 97 ∷ 116 ∷ 97 ∷ 10 ∷ 45 ∷ 45 ∷ 120 ∷ 10 ∷ [];
      stage = [];
    };
    file = small_file;
  };
}

small_disk_started : get_args header disk_storage small_program small_disk ≡ some small_started
unfolding skip_delimiters token strtok strlcpy strlcat line fgets c_string message_args if_recovery
    from_message file_args from_file add_lines boot_message if_no_args message_arguments
    file_arguments written get_args str_equal
small_disk_started = refl

get_args_ends_example :
    (s : Started Disk) × (get_args header disk_storage small_program small_disk ≡ some s)
get_args_ends_example = get_args_ends header disk_storage small_program small_disk

get_args-AreArgs_example : AreArgs 99 small_args
get_args-AreArgs_example =
    get_args-AreArgs header disk_storage small_program small_disk small_started refl
      small_disk_started

abbrev lost_files : Disk
lost_files = record { message = small_started.world.message; file = λ f. none }

get_args_restarts_example :
    (s' : Started Disk) × (get_args header disk_storage
        (record { program = []; args = [] })
        lost_files
      ≡ some s')
    × (s'.arguments.args ≡ small_args)
    × (s'.world.message ≡ small_started.world.message)
get_args_restarts_example =
    get_args_restarts header disk_storage disk_storage-StorageLaws.get_set small_program small_disk
      small_started refl small_disk_started (omega arith) (λ e. cc) [] lost_files refl

abbrev small_globals : Globals
small_globals = record {
  locale = some (101 ∷ 110 ∷ []);
  tmplog_offset = 0;
  need_clear_misc = true;
  auto_update_complete = true;
  updatepath = 47 ∷ 97 ∷ [];
}

abbrev finished_or : Finished Disk → Option (Finished Disk) → Finished Disk
finished_or r none = r
finished_or r (some r') = r'

abbrev small_finished : Finished Disk
small_finished =
    finished_or (record { globals = small_globals; world = small_disk; unlinked = false })
      (finish_recovery disk_storage none small_globals small_started.world)

small_disk_finished :
    finish_recovery disk_storage none small_globals small_started.world ≡ some small_finished
unfolding line fgets c_string copy_lines copied append_log_file copy_log_file copy_logs strflag
    write_intent write_locale clear_misc write_flag leave finish_recovery
small_disk_finished = refl

small_log : (small_finished.world.file log_file) ≡ some (67 ∷ 65 ∷ 10 ∷ 66 ∷ [])
unfolding line fgets c_string copy_lines copied append_log_file copy_log_file copy_logs strflag
    write_intent write_locale clear_misc write_flag leave finish_recovery
small_log = refl

finish_recovery-Logged_example :
    Logged disk_storage (67 ∷ []) small_finished.globals.tmplog_offset small_finished.world
finish_recovery-Logged_example =
    finish_recovery-Logged disk_storage disk_storage-StorageLaws none small_globals (67 ∷ [])
      small_started.world small_finished (refl, omega arith, (refl, (refl, (refl, tt))))
      small_disk_finished

small_unlinked : small_finished.unlinked ≡ true
unfolding line fgets c_string copy_lines copied append_log_file copy_log_file copy_logs strflag
    write_intent write_locale clear_misc write_flag leave finish_recovery
small_unlinked = refl

get_args-finish_recovery_example :
    (s : Started Disk) × (get_args header disk_storage small_program small_finished.world ≡ some s)
    × (s.arguments ≡ small_program)
get_args-finish_recovery_example =
    get_args-finish_recovery disk_storage disk_storage-StorageLaws header none small_globals
      small_started.world small_finished refl small_disk_finished small_unlinked (114 ∷ [])

small_locale_opens : (disk_storage.fopen_path locale_file to_read small_finished.world).0 ≡ true
unfolding line fgets c_string copy_lines copied append_log_file copy_log_file copy_logs strflag
    write_intent write_locale clear_misc write_flag leave finish_recovery
small_locale_opens = refl

load_locale_from_cache-finish_recovery_example :
    load_locale_from_cache disk_storage none small_finished.world
    ≡ some (
      some (101 ∷ 110 ∷ []),
      (disk_storage.fopen_path locale_file to_read small_finished.world).1,
    )
unfolding is_space
load_locale_from_cache-finish_recovery_example =
    load_locale_from_cache-finish_recovery disk_storage disk_storage-StorageLaws none small_globals
      (101 ∷ 110 ∷ []) small_started.world small_finished refl
      (omega arith, ((refl, refl), ((refl, refl), tt))) small_disk_finished small_locale_opens
