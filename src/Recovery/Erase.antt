-- ===== src/Recovery/Erase.antt =====
-- recovery.cpp: erase_volume, which keeps the last logs when it formats /cache, and the mounts that
-- format what cannot be mounted.
pub mod Kept
use ota_backup.Base.{
  ℕ, ◌^◌, List, [], ◌∷◌, Bool, true, false, not, if◌then◌else◌, Option, none, some, take, ℤ,
  is_zero,
}
use ota_backup.Recovery.Storage.{
  Storage, FilePath, to_read, to_write, flag_file, last_log_file, last_install_file, locale_file,
  rotated_log, read_file,
}
use ota_backup.Recovery.Finish.{copy_logs}

-- The volumes that recovery.cpp names; `sdcard_root` is IN_SDCARD_ROOT.
pub data Volume : Type 0 where
  cache_root data_root metadata_root sdcard_root system_root cust_root : Volume

unfoldable pub is_cache : Volume → Bool
is_cache cache_root = true
is_cache _ = false

-- The calls of roots.cpp, `readdir` to the end on CACHE_LOG_DIR, and whether `stat` returns 0. `use_null`
-- is what `fread` and `fclose` do where `fopen` gave NULL, which C leaves undefined: the bytes that are in
-- memory then, and what is left of the world; a run that goes on behind it may go on anyhow.
pub record Roots (W : Type 0) : Type 0 where
  pub ensure_path_mounted : Volume → W → ℤ × W
  pub ensure_path_unmounted : Volume → W → W
  pub format_volume : Volume → W → ℤ × W
  pub cache_log_dir : W → List FilePath
  pub has_stat : FilePath → W → Bool
  pub use_null : FilePath → W → List ℕ × W

-- The names in CACHE_LOG_DIR that start with "last".
unfoldable pub is_last : FilePath → Bool
is_last flag_file = true
is_last last_log_file = true
is_last last_install_file = true
is_last locale_file = true
is_last (rotated_log n) = true
is_last _ = false

-- A file in memory, with 512 KB of its bytes at most.
pub record SavedLogFile : Type 0 where
  pub name : FilePath
  pub bytes : List ℕ

abbrev pub in_memory : FilePath → List ℕ → SavedLogFile
in_memory name s = record { name = name; bytes = take (2 ^ 19) s }

module _ {W : Type 0} (storage : Storage W) (roots : Roots W) where
  -- What `fopen` gave is not tested.
  unfoldable pub saved_log :
      FilePath → Option (List ℕ) → List SavedLogFile → W → List SavedLogFile × W
  saved_log name none head w =
      let (bytes, w') = roots.use_null name w in (in_memory name bytes ∷ head, w')
  saved_log name (some s) head w = (in_memory name s ∷ head, w)

  -- A file with a stat.
  unfoldable pub save_log : FilePath → List SavedLogFile → W → List SavedLogFile × W
  save_log name head w =
      let (content, w') = read_file storage name w in saved_log name content head w'

  -- The loop over the directory. The file that comes last is the head of the list; one without a stat is
  -- left out.
  unfoldable pub save_logs : List FilePath → List SavedLogFile → W → List SavedLogFile × W
  save_logs [] head w = (head, w)
  save_logs (name ∷ names) head w =
      let next : List SavedLogFile × W =
        if is_last name
        then (if roots.has_stat name w then save_log name head w else (head, w))
        else (head, w) in
      save_logs names next.0 next.1

  unfoldable pub restore_logs : List SavedLogFile → W → W
  restore_logs [] w = w
  restore_logs (p ∷ head) w =
      let (opened, w') = storage.fopen_path p.name to_write w in
      restore_logs head (if opened then storage.fputs p.name p.bytes w' else w')

  -- The result, `tmplog_offset` and the world.
  unfoldable pub erase_volume : Volume → ℕ → W → ℤ × ℕ × W
  unfolding is_cache
  erase_volume volume offset w =
      let (_, w1) = roots.ensure_path_mounted volume w in
      let (head, w2) = save_logs (roots.cache_log_dir w1) [] w1 in
      let (result, w3) = roots.format_volume volume (roots.ensure_path_unmounted volume w2) in
      let (offset', w4) = copy_logs storage 0 (restore_logs head w3) in
      let (result', w3') = roots.format_volume volume (roots.ensure_path_unmounted volume w) in
      if is_cache volume then (result, offset', w4) else (result', offset, w3')

  -- `SureCacheMount` and `SureMetadataMount`, which leave `tmplog_offset` and the world.
  unfoldable pub sure_mount : Volume → ℕ → W → ℕ × W
  sure_mount volume offset w =
      let (failed, w1) = roots.ensure_path_mounted volume w in
      let (_, w2) = roots.format_volume volume w1 in
      let (_, w3) = roots.ensure_path_mounted volume w2 in
      if is_zero failed then (offset, w1) else (0, w3)
