-- ===== src/Recovery/Paths.antt =====
-- recovery.cpp: where main finds an update, in /cache, on a USB device or on the card.
use ota_backup.Base.{
  ℕ, List, [], ◌∷◌, ◌++◌, Bool, true, false, not, if◌then◌else◌, Option, none, some, ℤ, is_zero,
  drop,
}
use ota_backup.Image.Path.{strrchr}
use ota_backup.Recovery.Erase.{Volume}
use ota_backup.Recovery.Options.{is_prefix}

-- "CACHE:", "/cache/", "/mnt/usb_storage" and the two paths of the card.
abbrev pub cache_word : List ℕ
cache_word = 67 ∷ 65 ∷ 67 ∷ 72 ∷ 69 ∷ 58 ∷ []

abbrev pub cache_slash : List ℕ
cache_slash = 47 ∷ 99 ∷ 97 ∷ 99 ∷ 104 ∷ 101 ∷ 47 ∷ []

abbrev pub usb_root : List ℕ
usb_root =
    47 ∷ 109 ∷ 110 ∷ 116 ∷ 47 ∷ 117 ∷ 115 ∷ 98 ∷ 95 ∷ 115 ∷ 116 ∷ 111 ∷ 114 ∷ 97 ∷ 103 ∷ 101 ∷ []

-- "/dev/block/"
abbrev pub dev_block : List ℕ
dev_block = 47 ∷ 100 ∷ 101 ∷ 118 ∷ 47 ∷ 98 ∷ 108 ∷ 111 ∷ 99 ∷ 107 ∷ 47 ∷ []

-- "/FirmwareUpdate/update.img" and "/FirmwareUpdate/auto_sd_update.tag"
abbrev pub firmware_update : List ℕ
firmware_update =
    47 ∷ 70 ∷ 105 ∷ 114 ∷ 109 ∷ 119 ∷ 97 ∷ 114 ∷ 101 ∷ 85 ∷ 112 ∷ 100 ∷ 97 ∷ 116 ∷ 101 ∷ 47 ∷ []

abbrev pub auto_factory_update_package : List ℕ
auto_factory_update_package =
    firmware_update ++ (117 ∷ 112 ∷ 100 ∷ 97 ∷ 116 ∷ 101 ∷ 46 ∷ 105 ∷ 109 ∷ 103 ∷ [])

abbrev pub auto_factory_update_tag : List ℕ
auto_factory_update_tag =
    firmware_update
    ++ (97 ∷ 117 ∷ 116 ∷ 111 ∷ 95 ∷ 115 ∷ 100 ∷ 95 ∷ 117 ∷ 112 ∷ 100 ∷ 97 ∷ 116 ∷ 101 ∷ 46 ∷ 116
        ∷ 97 ∷ 103 ∷ [])

-- "CACHE:foo" becomes "/cache/foo".
unfoldable pub cache_path : List ℕ → List ℕ
cache_path path = if is_prefix cache_word path then cache_slash ++ drop 6 path else path

-- The calls for a USB device and the other calls of main: the names that `readdir` gives on /dev/block,
-- `mount` with vfat or with ntfs (true: it is 0), `access` with F_OK or `fopen` with "rb" (true: it is
-- there), `umount`, the mount of the card, `rk_check_and_resizefs` on the device of a volume, and
-- `restore` and `custom`, and the flag and the demo files that handle_board_id writes at its end.
pub record System (W : Type 0) : Type 0 where
  pub block_devices : W → List (List ℕ)
  pub mount_vfat : List ℕ → W → Bool × W
  pub mount_ntfs : List ℕ → W → Bool × W
  pub is_there : List ℕ → W → Bool
  pub umount_usb : W → W
  pub mount_card : W → ℤ × W
  pub check_and_resizefs : Volume → W → ℤ × W
  pub restore : W → ℤ × W
  pub custom : W → ℤ × W
  pub copy_demo : W → W

module _ {W : Type 0} (system : System W) where
  -- One block device: mounted by vfat or by ntfs, and unmounted again unless the file is on it. True: it
  -- is.
  unfoldable pub try_usb_device : List ℕ → List ℕ → W → Bool × W
  try_usb_device search_file device w =
      let (vfat, w1) = system.mount_vfat (dev_block ++ device) w in
      let (ntfs, w2) = system.mount_ntfs (dev_block ++ device) w1 in
      let mounted : Bool × W = if vfat then (true, w1) else (ntfs, w2) in
      if not mounted.0
      then (false, mounted.1)
      else if system.is_there search_file mounted.1
      then (true, mounted.1)
      else (false, system.umount_usb mounted.1)

  unfoldable pub try_usb_devices : List ℕ → List (List ℕ) → W → W
  unfolding try_usb_device
  try_usb_devices search_file [] w = w
  try_usb_devices search_file (device ∷ devices) w =
      let tried : Bool × W =
        if is_prefix (115 ∷ 100 ∷ []) device
        then try_usb_device search_file device w
        else (false, w) in
      let rest = try_usb_devices search_file devices tried.1 in if tried.0 then tried.1 else rest

  -- `findPackageAndMountUsbDevice`, for a path that has a '/': the path behind the last '/' on the USB
  -- device, whether it was found or not.
  unfoldable pub find_package_and_mount_usb_device : List ℕ → W → List ℕ × W
  find_package_and_mount_usb_device path w =
      let file_name : List ℕ = elim (strrchr path 47) [ none ↦ [] | some found ↦ found ] in
      let search_file = usb_root ++ file_name in
      (search_file, try_usb_devices search_file (system.block_devices w) w)

  -- The path of an update as main rewrites it.
  unfoldable pub update_path : List ℕ → W → List ℕ × W
  unfolding cache_path
  update_path path w =
      let path' = cache_path path in
      let found = find_package_and_mount_usb_device path' w in
      if is_prefix usb_root path' then found else (path', w)

  -- `get_auto_sdcard_update_path`.
  unfoldable pub get_auto_sdcard_update_path : List ℕ → W → Option (List ℕ) × W
  get_auto_sdcard_update_path ex_sdcard_root w =
      let (failed, w') = system.mount_card w in
      if not (is_zero failed)
      then (none, w')
      else if system.is_there (ex_sdcard_root ++ auto_factory_update_tag) w'
      then (some (ex_sdcard_root ++ auto_factory_update_package), w')
      else (none, w')
