-- ===== src/Recovery/Devices.antt =====
-- Devices for the tests of the main program, on a disk in memory: a CAN bus that is silent, a card that
-- cannot be mounted, a format that leaves no file, installations that fail and a menu that is left.
use ota_backup.Base.{ℕ, List, [], ◌∷◌, true, false, none, pos, minus_one}
use ota_backup.RobotUpdate.Transport.{CanDevice, Protocol}
use ota_backup.RobotUpdate.Session.{Services}
use ota_backup.Recovery.Storage.{BootHeader, to_read, command_file, rotated_log}
use ota_backup.Recovery.Disk.{Disk, disk_storage}
use ota_backup.Recovery.Erase.{Roots}
use ota_backup.Recovery.Paths.{System}
use ota_backup.Recovery.Prompt.{InstallCodes, Installers, Menu, reboot}

abbrev pub header : BootHeader
header = record { command_size = 32; recovery_size = 768 }

abbrev pub codes : InstallCodes
codes = record {
  install_success = pos 0;
  install_error = pos 1;
  install_corrupt = pos 2;
  install_none = pos 3;
}

abbrev pub protocol : Protocol
protocol = record {
  rm_upgrade_id = 1;
  rm_sysctrl_id = 2;
  start_cmd = 3;
  start_resp = 4;
  addr_cmd = 5;
  addr_resp = 6;
  data_cmd = 7;
  data_resp = 8;
  crc_cmd = 9;
  crc_resp = 10;
  end_cmd = 11;
  end_resp = 12;
  rc_upgrade_id = 13;
  rb_l_arm_upgrade_id = 14;
  rb_r_arm_upgrade_id = 15;
  rb_body_upgrade_id = 16;
  rf_upgrade_id = 17;
  rp_upgrade_id = 18;
  rc_sys_ctrl_id = 19;
  rp_sysctrl_id = 20;
  rf_sysctrl_id = 21;
  rb_r_arm_sys_ctrl_id = 22;
  rb_l_arm_sys_ctrl_id = 23;
  rb_body_sys_ctrl_id = 24;
}

abbrev pub silent : CanDevice Disk
silent = record {
  send = λ s d bytes n w. (minus_one, w);
  read = λ s t buf n timeout w. (minus_one, buf, w);
}

abbrev pub no_card : Services (List ℕ) Disk
no_card = record {
  load_hex = λ file bytes. none;
  ensure_path_mounted = λ w. (minus_one, w);
  open_can_device = λ w. (minus_one, w);
  close_can_device = λ w. w;
}

-- A format that leaves no file.
abbrev pub formatting : Roots Disk
formatting = record {
  ensure_path_mounted = λ v w. (pos 0, w);
  ensure_path_unmounted = λ v w. w;
  format_volume = λ v w. (pos 0, record w { file = λ f. none });
  cache_log_dir = λ w. command_file ∷ rotated_log 1 ∷ [];
  has_stat = λ f w. (disk_storage.fopen_path f to_read w).0;
  use_null = λ f w. ([], w);
}

abbrev pub refusing : Installers Disk
refusing = record {
  install_package = λ path wipe w. (pos 1, wipe, w);
  install_rkimage = λ path w. (pos 1, w);
  device_wipe_data = λ w. (pos 0, w);
  mtd_scan_partitions = λ w. (minus_one, w);
  mtd_find_partition_by_name = λ p w. none;
  open_output = λ p w. (false, w);
  open_input = λ p w. (false, w);
  sparse_file_import = λ p w. (false, w);
  sparse_file_write = λ p w. (minus_one, w);
}

abbrev pub leaving : Menu Disk
leaving = record {
  choose = λ w. (reboot, w);
  confirm_item = λ w. (0, w);
  is_text_visible = λ w. true;
  update_card = λ w. (minus_one, false, w);
  update_cache = λ w. (minus_one, false, w);
  apply_from_adb = λ w. (minus_one, false, w);
  recover_backup = λ w. w;
}

abbrev pub bare : System Disk
bare = record {
  block_devices = λ w. [];
  mount_vfat = λ device w. (false, w);
  mount_ntfs = λ device w. (false, w);
  is_there = λ path w. false;
  umount_usb = λ w. w;
  mount_card = λ w. (minus_one, w);
  check_and_resizefs = λ v w. (pos 0, w);
  restore = λ w. (pos 0, w);
  custom = λ w. (pos 0, w);
  copy_demo = λ w. w;
}
