-- ===== src/Recovery/Rotate/Examples.antt =====
-- Logs on a disk in memory.
use ota_backup.Base.{ℕ, ◌≡◌, refl, List, [], ◌∷◌, ◌==◌, if◌then◌else◌, Option, none, some}
use ota_backup.Recovery.Storage.{
  FilePath, same_path, same_path_self, same_path_turned, last_log_file, rotated_log,
}
use ota_backup.Recovery.Rotate.{log_name, rotate_last_logs}
use ota_backup.Recovery.Rotate.Shifted.{or_else, Renames, rotate_last_logs-moved_on}

abbrev Files : Type 0
Files = FilePath → Option (List ℕ)

abbrev rename_file : FilePath → FilePath → Files → Files
rename_file f g files k =
    if same_path g k then or_else (files f) (files g) else if same_path f k then none else files k

rename_file-Renames : Renames rename_file (λ f files. files f)
rename_file-Renames = record {
  moved = λ f g files differ. rw (same_path_self g) refl;
  emptied = λ f g files differ. rw (same_path_turned f g differ, same_path_self f) refl;
  other_kept = λ f g k files other other'. rw (other, other') refl;
}

-- Three logs, of which the second is missing.
abbrev small_logs : Files
small_logs last_log_file = some (1 ∷ [])
small_logs (rotated_log n) = if n == 2 then some (3 ∷ []) else none
small_logs _ = none

rotate_last_logs-moved_on_example :
    (rotate_last_logs rename_file 2 small_logs) (log_name 1) ≡ some (1 ∷ [])
unfolding log_name
rotate_last_logs-moved_on_example =
    rotate_last_logs-moved_on rename_file (λ f files. files f) rename_file-Renames 2 small_logs 1
