-- ===== src/Recovery/Disk.antt =====
-- A storage that lies in memory: the message and, per path, the bytes of the file, if there is one.
use ota_backup.Base.{
  ℕ, ◌≡◌, refl, ap, List, [], ◌++◌, Bool, true, false, if◌then◌else◌, Option, none, some,
}
use ota_backup.Recovery.Storage.{
  BootloaderMessage, FilePath, Mode, to_read, to_write, to_append, same_path, same_path_self,
  Storage, StorageLaws,
}

pub record Disk : Type 0 where
  pub message : BootloaderMessage
  pub file : FilePath → Option (List ℕ)

abbrev bytes_of : Option (List ℕ) → List ℕ
bytes_of none = []
bytes_of (some s) = s

abbrev is_there : Option (List ℕ) → Bool
is_there none = false
is_there (some s) = true

abbrev store : FilePath → Option (List ℕ) → Disk → Disk
store f o d = record d { file = λ g. if same_path f g then o else d.file g }

abbrev open_disk : FilePath → Mode → Disk → Bool × Disk
open_disk f to_read d = (is_there (d.file f), d)
open_disk f to_write d = (true, store f (some []) d)
open_disk f to_append d = (true, store f (some (bytes_of (d.file f))) d)

abbrev pub disk_storage : Storage Disk
disk_storage = record {
  get_bootloader_message = λ d. d.message;
  set_bootloader_message = λ m d. record d { message = m };
  fopen_path = open_disk;
  contents = λ f d. bytes_of (d.file f);
  fputs = λ f s d. store f (some (bytes_of (d.file f) ++ s)) d;
  unlink_file = λ f d. (true, store f none d);
  unmount_cache = λ d. d;
}

open_disk-message :
    (f : FilePath) (mode : Mode) (d : Disk) → (open_disk f mode d).1.message ≡ d.message
open_disk-message f to_read d = refl
open_disk-message f to_write d = refl
open_disk-message f to_append d = refl

open_disk-other :
    (f g : FilePath) (mode : Mode) (d : Disk)
    → same_path f g ≡ false
    → bytes_of ((open_disk f mode d).1.file g) ≡ bytes_of (d.file g)
open_disk-other f g to_read d h = refl
open_disk-other f g to_write d h = rw h refl
open_disk-other f g to_append d h = rw h refl

pub disk_storage-StorageLaws : StorageLaws disk_storage
disk_storage-StorageLaws = record {
  get_set = λ m d. refl;
  get_fopen = open_disk-message;
  get_fputs = λ f s d. refl;
  get_unlink = λ f d. refl;
  get_unmount = λ d. refl;
  unlinked = λ f d h. ap (λ b. is_there (if b then none else d.file f)) (same_path_self f);
  truncated = λ f d h. rw (same_path_self f) refl;
  appended = λ f d. rw (same_path_self f) refl;
  opened_to_read = λ f g d. refl;
  put = λ f s d. rw (same_path_self f) refl;
  other_opened = open_disk-other;
  other_put = λ f g s d h. rw h refl;
  other_unlinked = λ f g d h. rw h refl;
  opening_kept = λ f g d. refl;
  contents_set = λ f m d. refl;
  contents_unmount = λ f d. refl;
}
