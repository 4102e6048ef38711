-- ===== src/Recovery/Storage.antt =====
-- recovery.cpp: what the main program keeps between boots, the bootloader message and the files of
-- /cache.
use ota_backup.Base.{
  ℕ, ◌+◌, ◌-◌, ◌*◌, ◌/◌, ◌%◌, ltb, get_or, refl, sym, ap, ◌∙◌, ==→eq, arith, List, [], ◌∷◌, ◌++◌,
  Bool, true, false, ◌==◌, eq_self, if◌then◌else◌, Option, none, some, ◌≡◌,
}

-- `struct bootloader_message`, its fields as strings; what stands behind the zero of a field is left
-- out, as nothing reads it.
pub record BootloaderMessage : Type 0 where
  pub command : List ℕ
  pub status : List ℕ
  pub recovery : List ℕ
  pub stage : List ℕ

-- A message that `memset` cleared.
abbrev pub zero_message : BootloaderMessage
zero_message = record { command = []; status = []; recovery = []; stage = [] }

-- The sizes of its fields, from bootloader.h.
pub record BootHeader : Type 0 where
  pub command_size : ℕ
  pub recovery_size : ℕ

-- The paths that recovery.cpp names; `rotated_log n` is last_log.n, and `other_file` stands for those
-- that it meets in a directory and whose names do not start with "last".
pub data FilePath : Type 0 where
  command_file flag_file intent_file log_file last_log_file last_install_file locale_file : FilePath
  temporary_log_file temporary_install_file : FilePath
  rotated_log other_file : ℕ → FilePath

abbrev path_number : FilePath → ℕ
path_number command_file = 0
path_number flag_file = 1
path_number intent_file = 2
path_number log_file = 3
path_number last_log_file = 4
path_number last_install_file = 5
path_number locale_file = 6
path_number temporary_log_file = 7
path_number temporary_install_file = 8
path_number (rotated_log n) = 9 + 2 * n
path_number (other_file n) = 10 + 2 * n

abbrev pub same_path : FilePath → FilePath → Bool
same_path f g = path_number f == path_number g

pub same_path_self : (f : FilePath) → same_path f f ≡ true
same_path_self f = eq_self (path_number f)

turned : (m n : ℕ) → (m == n) ≡ false → (n == m) ≡ false
turned m n h = ground arith

pub same_path_turned : (f g : FilePath) → same_path f g ≡ false → same_path g f ≡ false
same_path_turned f g h = turned (path_number f) (path_number g) h

-- The path of a number, so that different paths have different numbers.
path_of : ℕ → FilePath
path_of n =
    let known =
      command_file ∷ flag_file ∷ intent_file ∷ log_file ∷ last_log_file ∷ last_install_file
      ∷ locale_file ∷ temporary_log_file ∷ temporary_install_file ∷ [] in
    if ltb n 9
    then get_or known n command_file
    else if n % 2 == 1
    then rotated_log ((n - 9) / 2)
    else other_file ((n - 10) / 2)

path_of-path_number : (f : FilePath) → path_of (path_number f) ≡ f
unfolding path_of
path_of-path_number command_file = refl
path_of-path_number flag_file = refl
path_of-path_number intent_file = refl
path_of-path_number log_file = refl
path_of-path_number last_log_file = refl
path_of-path_number last_install_file = refl
path_of-path_number locale_file = refl
path_of-path_number temporary_log_file = refl
path_of-path_number temporary_install_file = refl
path_of-path_number (rotated_log n) = rw (large, odd) (ap rotated_log half)
  where
    large : ltb (9 + 2 * n) 9 ≡ false
    large = ground arith

    odd : ((9 + 2 * n) % 2 == 1) ≡ true
    odd = ground arith

    half : (9 + 2 * n - 9) / 2 ≡ n
    half = omega arith
path_of-path_number (other_file n) = rw (large, even) (ap other_file half)
  where
    large : ltb (10 + 2 * n) 9 ≡ false
    large = ground arith

    even : ((10 + 2 * n) % 2 == 1) ≡ false
    even = ground arith

    half : (10 + 2 * n - 10) / 2 ≡ n
    half = omega arith

pub same_path→eq : (f g : FilePath) → same_path f g ≡ true → f ≡ g
same_path→eq f g h =
    sym (path_of-path_number f)
    ∙ ap path_of (==→eq (path_number f) (path_number g) h)
    ∙ path_of-path_number g

-- "r", "w" and "a".
pub data Mode : Type 0 where
  to_read to_write to_append : Mode

-- The calls on them: `get_bootloader_message` into a cleared message, `set_bootloader_message`,
-- `fopen_path` or `fopen` (false: not opened), the bytes of a file, `fputs` or `fwrite` at the end of an opened
-- one, `ensure_path_mounted` with `unlink` (true: the file is gone), `ensure_path_unmounted`.
pub record Storage (W : Type 0) : Type 0 where
  pub get_bootloader_message : W → BootloaderMessage
  pub set_bootloader_message : BootloaderMessage → W → W
  pub fopen_path : FilePath → Mode → W → Bool × W
  pub contents : FilePath → W → List ℕ
  pub fputs : FilePath → List ℕ → W → W
  pub unlink_file : FilePath → W → Bool × W
  pub unmount_cache : W → W

-- What they promise: the message and the files are apart, a file that was opened to be written is
-- empty, what is put in it stands at its end, and an unlinked file does not open.
pub record StorageLaws {W : Type 0} (storage : Storage W) : Type 0 where
  pub get_set :
      (m : BootloaderMessage) (w : W)
      → storage.get_bootloader_message (storage.set_bootloader_message m w) ≡ m
  pub get_fopen :
      (f : FilePath) (mode : Mode) (w : W)
      → storage.get_bootloader_message (storage.fopen_path f mode w).1
        ≡ storage.get_bootloader_message w
  pub get_fputs :
      (f : FilePath) (s : List ℕ) (w : W)
      → storage.get_bootloader_message (storage.fputs f s w) ≡ storage.get_bootloader_message w
  pub get_unlink :
      (f : FilePath) (w : W)
      → storage.get_bootloader_message (storage.unlink_file f w).1
        ≡ storage.get_bootloader_message w
  pub get_unmount :
      (w : W)
      → storage.get_bootloader_message (storage.unmount_cache w) ≡ storage.get_bootloader_message w
  pub unlinked :
      (f : FilePath) (w : W)
      → (storage.unlink_file f w).0 ≡ true
      → (storage.fopen_path f to_read (storage.unmount_cache (storage.unlink_file f w).1)).0 ≡ false
  pub truncated :
      (f : FilePath) (w : W)
      → (storage.fopen_path f to_write w).0 ≡ true
      → storage.contents f (storage.fopen_path f to_write w).1 ≡ []
  pub appended :
      (f : FilePath) (w : W)
      → storage.contents f (storage.fopen_path f to_append w).1 ≡ storage.contents f w
  pub opened_to_read :
      (f g : FilePath) (w : W)
      → storage.contents g (storage.fopen_path f to_read w).1 ≡ storage.contents g w
  pub put :
      (f : FilePath) (s : List ℕ) (w : W)
      → storage.contents f (storage.fputs f s w) ≡ storage.contents f w ++ s
  pub other_opened :
      (f g : FilePath) (mode : Mode) (w : W)
      → same_path f g ≡ false
      → storage.contents g (storage.fopen_path f mode w).1 ≡ storage.contents g w
  pub other_put :
      (f g : FilePath) (s : List ℕ) (w : W)
      → same_path f g ≡ false
      → storage.contents g (storage.fputs f s w) ≡ storage.contents g w
  pub other_unlinked :
      (f g : FilePath) (w : W)
      → same_path f g ≡ false
      → storage.contents g (storage.unlink_file f w).1 ≡ storage.contents g w
  pub opening_kept :
      (f g : FilePath) (w : W)
      → (storage.fopen_path f to_read (storage.fopen_path g to_read w).1).0
        ≡ (storage.fopen_path f to_read w).0
  pub contents_set :
      (f : FilePath) (m : BootloaderMessage) (w : W)
      → storage.contents f (storage.set_bootloader_message m w) ≡ storage.contents f w
  pub contents_unmount :
      (f : FilePath) (w : W) → storage.contents f (storage.unmount_cache w) ≡ storage.contents f w

-- A file that is opened to be read, and its bytes.
abbrev pub read_file : {W : Type 0} → Storage W → FilePath → W → Option (List ℕ) × W
read_file storage f w =
    let (opened, w') = storage.fopen_path f to_read w in
    (if opened then some (storage.contents f w') else none, w')
