-- ===== src/Recovery/Finish.antt =====
-- recovery.cpp: the logs, and finish_recovery, which leaves the recovery system.
pub mod Logs
pub mod Steps
pub mod Untouched
pub mod Logged
pub mod Cleared
pub mod Locale
use ota_backup.Base.{
  ℕ, zero, suc, ◌+◌, ◌-◌, max, List, [], ◌∷◌, ◌++◌, Bool, true, false, not, if◌then◌else◌, Option,
  none, some, length, take, drop, zeros,
}
use ota_backup.Image.Scan.{is_space}
use ota_backup.Recovery.Text.{◌>>=◌, c_string, fgets}
use ota_backup.Recovery.Storage.{
  Storage, FilePath, Mode, to_read, to_write, to_append, zero_message, command_file, flag_file,
  intent_file, log_file, last_log_file, last_install_file, locale_file, temporary_log_file,
  temporary_install_file,
}

-- The globals that it reads and writes: `locale`, `tmplog_offset`, `bNeedClearMisc`,
-- `bAutoUpdateComplete` and `updatepath`.
pub record Globals : Type 0 where
  pub locale : Option (List ℕ)
  pub tmplog_offset : ℕ
  pub need_clear_misc : Bool
  pub auto_update_complete : Bool
  pub updatepath : List ℕ

-- The loop of copy_log_file, on what is left of the source, with what it writes; `none`: out of fuel.
unfoldable pub copy_lines : ℕ → List ℕ → Option (List ℕ)
copy_lines zero s = none
copy_lines (suc fuel) s = elim (fgets 4096 s) [
  | none ↦ some []
  | some (buf, rest) ↦ copy_lines fuel rest >>= (λ t. some (c_string buf ++ t))
]

-- What the loop writes for a source; its fuel is enough, so that the `none` is never met.
unfoldable pub copied : List ℕ → List ℕ
copied s = elim (copy_lines (suc (length s)) s) [ none ↦ [] | some t ↦ t ]

-- "success$path="
abbrev pub success_word : List ℕ
success_word = 115 ∷ 117 ∷ 99 ∷ 99 ∷ 101 ∷ 115 ∷ 115 ∷ 36 ∷ 112 ∷ 97 ∷ 116 ∷ 104 ∷ 61 ∷ []

abbrev pub strflag_size : ℕ
strflag_size = 160

-- The buffer `strflag`, for a path that fits it.
unfoldable pub strflag : List ℕ → List ℕ
strflag path = take strflag_size ((success_word ++ path) ++ zeros strflag_size)

-- The characters that `isspace` does not take.
unfoldable pub without_spaces : List ℕ → List ℕ
without_spaces [] = []
without_spaces (c ∷ s) = let rest = without_spaces s in if is_space c then rest else c ∷ rest

-- What `load_locale_from_cache` sets `locale` to; `none`: it reads a buffer that nothing was read into.
unfoldable pub locale_of : List ℕ → Option (List ℕ)
locale_of s = do (buffer, _) ← fgets 80 s; some (without_spaces (c_string buffer))

-- What finish_recovery leaves; `unlinked` is false when it warns that the command file is still there.
pub record Finished (W : Type 0) : Type 0 where
  pub globals : Globals
  pub world : W
  pub unlinked : Bool

module _ {W : Type 0} (storage : Storage W) where
  -- copy_log_file with `append`, on `tmplog_offset`.
  unfoldable pub append_log_file : FilePath → FilePath → ℕ → W → ℕ × W
  append_log_file source destination offset w =
      let (opened, w1) = storage.fopen_path destination to_append w in
      let (found, w2) = storage.fopen_path source to_read w1 in
      let s = storage.contents source w2 in
      if not opened
      then (offset, w1)
      else if not found
      then (offset, w2)
      else (max offset (length s), storage.fputs destination (copied (drop offset s)) w2)

  -- copy_log_file without it.
  unfoldable pub copy_log_file : FilePath → FilePath → W → W
  copy_log_file source destination w =
      let (opened, w1) = storage.fopen_path destination to_write w in
      let (found, w2) = storage.fopen_path source to_read w1 in
      if not opened
      then w1
      else if not found
      then w2
      else storage.fputs destination (copied (storage.contents source w2)) w2

  unfoldable pub copy_logs : ℕ → W → ℕ × W
  copy_logs offset w =
      let (offset', w1) = append_log_file temporary_log_file log_file offset w in
      let w2 = copy_log_file temporary_log_file last_log_file w1 in
      (offset', copy_log_file temporary_install_file last_install_file w2)

  unfoldable pub write_intent : Option (List ℕ) → W → W
  write_intent none w = w
  write_intent (some send_intent) w =
      let (opened, w') = storage.fopen_path intent_file to_write w in
      if opened then storage.fputs intent_file send_intent w' else w'

  -- `none`: fwrite on a file that did not open.
  unfoldable pub write_locale : Option (List ℕ) → W → Option W
  write_locale none w = some w
  write_locale (some locale) w =
      let (opened, w') = storage.fopen_path locale_file to_write w in
      if opened then some (storage.fputs locale_file locale w') else none

  unfoldable pub clear_misc : Bool → W → W
  clear_misc need_clear_misc w =
      if need_clear_misc then storage.set_bootloader_message zero_message w else w

  -- The flag file, whose opening is tested for a message only.
  unfoldable pub write_flag : Globals → W → Option W
  write_flag g w =
      let (opened, w') = storage.fopen_path flag_file to_write w in
      if not g.auto_update_complete
      then some w
      else if opened
      then some (storage.fputs flag_file (strflag g.updatepath) w')
      else none

  -- The command file is removed at the end.
  unfoldable pub leave : Globals → W → Finished W
  leave g w =
      let (unlinked, w') = storage.unlink_file command_file w in
      record {
        globals = record g { auto_update_complete = false };
        world = storage.unmount_cache w';
        unlinked = unlinked;
      }

  unfoldable pub finish_recovery : Option (List ℕ) → Globals → W → Option (Finished W)
  finish_recovery send_intent g w = do
    w1 ← write_locale g.locale (write_intent send_intent w)
    let (offset, w2) = copy_logs g.tmplog_offset w1
    let g' = record g { tmplog_offset = offset }
    w3 ← write_flag g' (clear_misc g.need_clear_misc w2)
    some (leave g' w3)

  unfoldable pub load_locale_from_cache : Option (List ℕ) → W → Option (Option (List ℕ) × W)
  load_locale_from_cache locale w =
      let (opened, w') = storage.fopen_path locale_file to_read w in
      let loaded = locale_of (storage.contents locale_file w') >>= (λ l. some (some l, w')) in
      if opened then loaded else some (locale, w')
