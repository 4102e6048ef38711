-- ===== src/Rkimage/Install/Examples.antt =====
-- An installation from the image file with one item, onto devices that lie in memory.
use ota_backup.Base.{
  replicate, ◌^◌, ℕ, ◌+◌, ◌≤◌, ◌≡◌, inl, inr, refl, ap, arith, List, [], ◌∷◌, Bool, true, false,
  Bool-cases, leb, ◌==◌, eq_self, if◌then◌else◌, none, some, ℤ, pos, negsuc, minus_one, length,
  take, drop, memcpy,
}
use ota_backup.Image.Path.{str_equal}
use ota_backup.Image.Path.Suffix.{str_equal_refl}
use ota_backup.Rkimage.Target.{Target, write_all}
use ota_backup.Rkimage.Target.Places.{Place, at_path, at_mtd, HasPlaces}
use ota_backup.Rkimage.Copy.Copied.{IsPartition}
use ota_backup.Rkimage.Items.{ImageHeader}
use ota_backup.Rkimage.Verify.Examples.{boot_name, boot_file}
use ota_backup.Rkimage.Install.Words.{recovery_word, bootloader_word}
use ota_backup.Rkimage.Install.{InstallCalls, install_image}
use ota_backup.Rkimage.Install.Loaded.{OnResult, Loaded, install_image-Loaded}

-- The bytes of every device, which of them is open, and the place in it.
record Devices : Type 0 where
  is_open : Place
  files : Place → List ℕ
  position : ℕ

abbrev same_place : Place → Place → Bool
same_place (at_path p) (at_path q) = str_equal p q
same_place (at_path p) (at_mtd j) = false
same_place (at_mtd i) (at_path q) = false
same_place (at_mtd i) (at_mtd j) = i == j

same_place_self : (p : Place) → same_place p p ≡ true
same_place_self (at_path p) = str_equal_refl p
same_place_self (at_mtd i) = eq_self i

write_on : List ℕ → Devices → ℤ × Devices
write_on bytes d =
    let now = d.files d.is_open in
    let then_ = memcpy now d.position bytes (length bytes) in
    if leb (d.position + length bytes) (length now)
    then (
      pos (length bytes),
      record {
        is_open = d.is_open;
        files = λ p. if same_place p d.is_open then then_ else d.files p;
        position = d.position + length bytes;
      },
    )
    else (minus_one, d)

abbrev read_on : ℕ → Devices → List ℕ × Devices
read_on n d =
    let got = take n (drop d.position (d.files d.is_open)) in
    (got, record d { position = d.position + length got })

abbrev seek_on : ℤ → Devices → Devices
seek_on (pos o) d = record d { position = o }
seek_on (negsuc n) d = d

abbrev devices : Target Devices
devices = record {
  ensure_path_mounted = λ path d. (pos 0, d);
  ensure_path_unmounted = λ path d. (pos 0, d);
  create_directories = λ path d. d;
  volume_for_path = λ path. record { fs_type = []; blk_device = path };
  find_mtd = λ name. none;
  open_path = λ path d. (pos 3, record d { is_open = at_path path; position = 0 });
  open_mtd = λ index d. (pos 3, record d { is_open = at_mtd index; position = 0 });
  lseek_target = seek_on;
  write_target = write_on;
  read_target = read_on;
}

-- A write that is complete fits.
write_on-fits :
    (bytes : List ℕ) (d : Devices)
    → (write_all devices bytes d).0 ≡ true
    → leb (d.position + length bytes) (length (d.files d.is_open)) ≡ true
unfolding write_on write_all
write_on-fits bytes d =
    elim (Bool-cases (leb (d.position + length bytes) (length (d.files d.is_open)))) [
      | inl fits ↦ λ h. fits
      | inr long ↦ rw long (λ h. absurd (refused h))
    ]
  where
    refused : ◌≡◌ {A = Bool} false true → ⊥
    refused h = cc

devices-IsPartition : IsPartition Devices devices (λ d. d.files d.is_open) (λ d. d.position)
unfolding write_on write_all
devices-IsPartition = record {
  written = λ bytes d h. written bytes d (write_on-fits bytes d h);
  whole_read = λ n d h. (refl, refl, ap (λ k. d.position + k) h);
  sought_content = sought;
  sought_at = λ o d. refl;
}
  where
    written :
        (bytes : List ℕ) (d : Devices)
        → leb (d.position + length bytes) (length (d.files d.is_open)) ≡ true
        → (d.position + length bytes ≤ length (d.files d.is_open))
          × ((write_on bytes d).1.files (write_on bytes d).1.is_open
              ≡ memcpy (d.files d.is_open) d.position bytes (length bytes))
          × ((write_on bytes d).1.position ≡ d.position + length bytes)
    written bytes d fits = rw (fits, same_place_self d.is_open) (ground arith, refl, refl)

    sought : (o : ℤ) (d : Devices) → (seek_on o d).files (seek_on o d).is_open ≡ d.files d.is_open
    sought (pos n) d = refl
    sought (negsuc n) d = refl

devices-HasPlaces : HasPlaces Devices devices (λ d. d.is_open)
unfolding write_on
devices-HasPlaces = record {
  path_opened = λ path d h. refl;
  mtd_opened = λ index d h. refl;
  sought = sought;
  written = λ bytes d.
      elim (Bool-cases (leb (d.position + length bytes) (length (d.files d.is_open)))) [
        | inl fits ↦ rw fits refl
        | inr long ↦ rw long refl
      ];
  was_read = λ n d. refl;
}
  where
    sought : (o : ℤ) (d : Devices) → (seek_on o d).is_open ≡ d.is_open
    sought (pos n) d = refl
    sought (negsuc n) d = refl

abbrev quiet_calls : InstallCalls Devices
quiet_calls = record {
  set_message = λ command text d. (pos 0, d);
  reboot_recovery = λ d. d;
  check_and_resizefs = λ device d. (pos 0, d);
  is_script = λ script. true;
  evaluate_script = λ script d. (true, d);
  restore = λ d. d;
  custom = λ d. d;
}

-- Every device has 2 MB.
abbrev large_devices : Devices
large_devices = record { is_open = at_path []; files = λ p. replicate (2 ^ 21) 9; position = 0 }

-- The items that an image has to have.
abbrev full_image : ImageHeader
full_image = record {
  tag = 7;
  size = 5;
  item =
      record { name = recovery_word; offset = 2; size = 3 }
      ∷ record { name = bootloader_word; offset = 0; size = 2 }
      ∷ [];
}

install_image-Loaded_example :
    OnResult
      (Loaded Devices devices
        (λ p d. d.files p)
        (λ d. d.is_open)
        (λ d. d.position)
        devices-HasPlaces
        devices-IsPartition
        quiet_calls
        true
        false
        full_image
        []
        boot_file)
      (install_image devices quiet_calls false true false full_image []
        (some boot_file)
        boot_name
        none
        large_devices)
install_image-Loaded_example =
    install_image-Loaded Devices devices (λ p d. d.files p) (λ d. d.is_open) (λ d. d.position)
      devices-HasPlaces devices-IsPartition quiet_calls true false full_image [] boot_file boot_name
      none large_devices
