-- ===== src/Recovery/Rotate.antt =====
-- recovery.cpp: rotate_last_logs.
pub mod Shifted
mod Examples
use ota_backup.Base.{ℕ, zero, suc}
use ota_backup.Recovery.Storage.{FilePath, last_log_file, rotated_log}

-- The name of a log: last_log, and last_log.1 and on.
unfoldable pub log_name : ℕ → FilePath
log_name zero = last_log_file
log_name (suc i) = rotated_log (suc i)

-- The loop from `max - 1` down to 0; `rename` takes the old name and the new one.
unfoldable pub rotate_last_logs : {W : Type 0} → (FilePath → FilePath → W → W) → ℕ → W → W
rotate_last_logs rename zero w = w
rotate_last_logs rename (suc i) w =
    rotate_last_logs rename i (rename (log_name i) (log_name (suc i)) w)
