-- ===== src/Rkimage/Install.antt =====
-- rkimage.cpp: install_rkimage, from the search for the image to the loader in /misc, with
-- find_update_img, read_data_from_image, handle_update_script and recover_backup.
pub mod Words
pub mod Loaded
mod Examples
use ota_backup.Base.{
  ℕ, ◌+◌, ◌*◌, List, [], ◌∷◌, ◌++◌, Bool, true, false, ◌==◌, ◌&&◌, not, if◌then◌else◌, Option, none,
  some, ℤ, pos, negsuc, minus_one, is_zero, is_negative, int_equal, take,
}
use ota_backup.Image.Path.{str_equal}
use ota_backup.Rkimage.Read.{OpenFile}
use ota_backup.Rkimage.Items.{
  ImageItem, ImageHeader, ImageFormat, CheckedImage, find_item, read_source, check_image_file,
}
use ota_backup.Rkimage.Target.{Target, TargetVolume}
use ota_backup.Rkimage.Copy.{write_image, parameter_path}
use ota_backup.Rkimage.Verify.{image_compare}
use ota_backup.Rkimage.Loader.{write_loader}
use ota_backup.Rkimage.Install.Words.{
  boot_word, system_word, backup_word, recovery_word, parameter_word, bootloader_word, misc_path,
  cust_path, external_sd, boot_recovery, update_rkimage, update_bootloader, enable_script,
}

-- The calls of other files: set_bootloader_message with a command and a text for recovery, the restart
-- into recovery, rk_check_and_resizefs on a device, the parser of edify (true: without an error) and what
-- it does with a script (true: there is a value), and `restore` and `custom`.
pub record InstallCalls (D : Type 0) : Type 0 where
  pub set_message : List ℕ → List ℕ → D → ℤ × D
  pub reboot_recovery : D → D
  pub check_and_resizefs : List ℕ → D → ℤ × D
  pub is_script : List ℕ → Bool
  pub evaluate_script : List ℕ → D → Bool × D
  pub restore : D → D
  pub custom : D → D

-- What an installation leaves: its result, bIfUpdateLoader, and whether it has restarted.
pub record Installed (D : Type 0) : Type 0 where
  pub result : ℤ
  pub if_update_loader : Bool
  pub rebooted : Bool
  pub world : D

module _ {D : Type 0} (target : Target D) (calls : InstallCalls D) where
  -- What follows a call that has a result.
  pub then_with : Option (ℤ × D) → (ℤ → D → Option (Installed D)) → Option (Installed D)
  then_with none rest = none
  then_with (some (r, d)) rest = rest r d

  pub ended : ℤ → Bool → D → Option (Installed D)
  ended result loader d =
      some (record { result = result; if_update_loader = loader; rebooted = false; world = d })

  -- `goto update_error`, or what follows.
  pub unless_failed : ℤ → Bool → D → Option (Installed D) → Option (Installed D)
  unless_failed r loader d next = if not (is_zero r) then ended minus_one loader d else next

  -- The image behind the header: its source, which opens each time as the first time.
  module _ (use_board_id has_memory loader : Bool) (hdr : ImageHeader) (stack : List ℕ)
      (source : Option OpenFile) where
    pub write_item_to : List ℕ → List ℕ → D → Option (ℤ × D)
    write_item_to name path d = write_image target hdr true stack source name path (pos 0) d

    pub compare_item : List ℕ → List ℕ → D → Option (ℤ × D)
    compare_item name path d =
        image_compare target has_memory hdr true stack source name path (pos 0) d

    -- An item that is written and then compared. `missing` is what follows the result -4.
    pub write_checked :
        List ℕ
        → (ℤ → D → Option (Installed D))
        → (D → Option (Installed D))
        → D
        → Option (Installed D)
    write_checked name missing next d = then_with (write_item_to name (47 ∷ name) d) (λ r d1.
        let absent = missing r d1 in
        let checked =
          then_with (compare_item name (47 ∷ name) d1)
            (λ r' d2. unless_failed r' loader d2 (next d2)) in
        if int_equal r (negsuc 3) then absent else unless_failed r loader d1 checked)

    -- From the message for the loader on.
    pub finish_install : D → Option (Installed D)
    finish_install d =
        let (r, d1) = calls.set_message bootloader_word update_bootloader d in
        let (r', d2) =
          write_loader target hdr source bootloader_word misc_path (pos (3 * 16 * 1024)) d1 in
        let (_, d3) = target.ensure_path_mounted cust_path d2 in
        let (_, d4) = target.ensure_path_mounted (47 ∷ system_word) d3 in
        unless_failed r loader d1 (
          unless_failed r' loader d2
            (ended (pos 0) true (if use_board_id then calls.custom d4 else d2)))

    -- `handle_update_script`; its result is looked at for a message only.
    pub handle_update_script : ImageItem → D → Option D
    handle_update_script i d = elim source [
      | none ↦ some d
      | some f ↦ elim (read_source true stack i.offset i.size f) [
        | none ↦ none
        | some (ret, script, f') ↦
            let (valued, d1) = calls.evaluate_script script d in
            if is_zero ret && (str_equal (take 15 script) enable_script && calls.is_script script)
            then some d1
            else some d
      ]
    ]

    -- The script, where the item `script_item` is in the image.
    pub run_script : Option ImageItem → D → Option (Installed D)
    run_script none d = finish_install d
    run_script (some i) d = elim (handle_update_script i d) [
      | none ↦ none
      | some d1 ↦ finish_install d1
    ]

    -- From the recovery on: an item that is not there is an error.
    pub update_recovery : Option ImageItem → D → Option (Installed D)
    update_recovery script d =
        write_checked recovery_word (λ r d1. ended minus_one loader d1) (run_script script) d

    pub update_backup : Option ImageItem → D → Option (Installed D)
    update_backup script d =
        let written =
          write_checked backup_word (λ r d1. ended minus_one loader d1) (update_recovery script)
            d in
        elim (find_item hdr backup_word) [ none ↦ update_recovery script d | some i ↦ written ]

    -- The system, with the check of its file system where it was written.
    pub update_system : Option ImageItem → D → Option (Installed D)
    update_system script d =
        write_checked system_word (λ r d1. update_backup script d1)
          (λ d1.
            let (r, d2) =
              calls.check_and_resizefs ((target.volume_for_path (47 ∷ system_word)).blk_device)
                d1 in
            unless_failed r loader d2 (update_backup script d2))
          d

    pub update_boot : Option ImageItem → D → Option (Installed D)
    update_boot script d =
        write_checked boot_word (λ r d1. update_system script d1) (update_system script) d

    -- The parameter from a card: where it differs, it is written and compared, and the machine restarts.
    pub update_parameter : List ℕ → Option ImageItem → D → Option (Installed D)
    update_parameter update_file script d =
        then_with (compare_item parameter_word parameter_path d) (λ differs d1.
          let write = then_with (write_item_to parameter_word parameter_path d1) (λ r d2.
            unless_failed r loader d2 (
              then_with (compare_item parameter_word parameter_path d2) (λ r' d3.
                let (_, d4) = calls.set_message boot_recovery (update_rkimage ++ update_file) d3 in
                unless_failed r' loader d3 (
                  some (record {
                    result = pos 0;
                    if_update_loader = loader;
                    rebooted = true;
                    world = calls.reboot_recovery d4;
                  }))))) in
          if is_zero differs then update_boot script d1 else write)

    -- From the valid image on.
    pub install_image : List ℕ → Option ImageItem → D → Option (Installed D)
    install_image update_file script d =
        let (_, d1) = target.ensure_path_mounted cust_path d in
        let (_, d2) = target.ensure_path_mounted (47 ∷ system_word) d1 in
        let d3 = if use_board_id then calls.restore d2 else d in
        if str_equal (take 16 update_file) external_sd
        then update_parameter update_file script d3
        else update_boot script d3

  -- `find_update_img` and `install_rkimage`. `script_name` is RK_UPDATE_SCRIPT, which rkimage.h defines,
  -- and `file` the image where the path is mounted.
  pub install_checked :
      Bool
      → Bool
      → Bool
      → List ℕ
      → Option OpenFile
      → List ℕ
      → List ℕ
      → Option CheckedImage
      → D
      → Option (Installed D)
  install_checked use_board_id has_memory loader stack file script_name update_file none d = none
  install_checked use_board_id has_memory loader stack file script_name update_file (some c) d =
      elim c.header [
        | none ↦ ended (pos 1) loader d
        | some hdr ↦
            let installed =
              install_image use_board_id has_memory loader hdr stack file update_file
                (find_item hdr script_name) d in
            if not (is_zero c.result) then ended (pos 1) loader d else installed
      ]

  pub install_rkimage :
      ImageFormat
      → (List ℕ → ℕ → ℕ)
      → ℤ
      → Bool
      → Bool
      → Bool
      → List ℕ
      → (D → Option OpenFile)
      → List ℕ
      → List ℕ
      → ℕ
      → D
      → Option (Installed D)
  install_rkimage format crc_32_new model use_board_id has_memory loader stack open_image
        script_name update_file fw_offset d =
      let (mounted, d1) = target.ensure_path_mounted update_file d in
      let file = open_image d1 in
      let installed =
        install_checked use_board_id has_memory loader stack file script_name update_file
          (check_image_file format crc_32_new true stack model fw_offset file) d1 in
      if not (is_zero mounted) then ended (pos 1) loader d1 else installed

  -- From the restored system on.
  pub recovered : Bool → Bool → ImageHeader → List ℕ → Option OpenFile → D → Option (Installed D)
  recovered has_memory loader hdr stack source d =
      then_with (write_image target hdr false stack source system_word (47 ∷ system_word) (pos 0) d)
        (λ r d1. unless_failed r loader d1 (
          then_with
            (image_compare target has_memory hdr false stack source system_word (47 ∷ system_word)
              (pos 0) d1)
            (λ r' d2. unless_failed r' loader d2 (ended (pos 0) loader d2))))

  pub recover_checked :
      Bool → Bool → List ℕ → Option OpenFile → Option CheckedImage → D → Option (Installed D)
  recover_checked has_memory loader stack source none d = none
  recover_checked has_memory loader stack source (some c) d = elim c.header [
    | none ↦ ended (pos 1) loader d
    | some hdr ↦
        let restored = recovered has_memory loader hdr stack source d in
        if not (is_zero c.result) then ended (pos 1) loader d else restored
  ]

  -- `recover_backup`; `open_backup` opens the partition with an index.
  pub recover_backup :
      ImageFormat
      → (List ℕ → ℕ → ℕ)
      → ℤ
      → Bool
      → Bool
      → List ℕ
      → (ℕ → D → Option OpenFile)
      → List ℕ
      → ℕ
      → D
      → Option (Installed D)
  recover_backup format crc_32_new model has_memory loader stack open_backup root_path fw_offset d =
      elim (target.find_mtd ((target.volume_for_path root_path).blk_device)) [
        | none ↦ ended (pos 1) loader d
        | some index ↦
            recover_checked has_memory loader stack (open_backup index d)
              (check_image_file format crc_32_new false stack model fw_offset (open_backup index d))
              d
      ]
