-- ===== src/RobotUpdate/Examples.antt =====
-- Boards that answer everything, and what an update of them gives.
use ota_backup.Base.{
  ℕ, ◌+◌, ◌%◌, ◌^◌, ◌≡◌, ◌↔◌, ◌==◌, Bool-cases, ==→eq, inl, inr, refl, true, List, [], ◌∷◌, none,
  some, All, pos, is_zero, arith, if◌then◌else◌,
}
use ota_backup.Crc16.{crc16}
use ota_backup.Image.Element.{IsSized}
use ota_backup.Image.Load.{loaded, load_hex}
use ota_backup.Image.Examples.{
  no_variables, small_path, small_file, small_elements, small_file_loaded,
}
use ota_backup.RobotUpdate.Transport.{CanDevice, GivesPackets, Protocol}
use ota_backup.RobotUpdate.Request.{
  attempts, request, start_request, address_request, crc_request, data_request, end_request,
  send_start_flag, send_data_address, send_data_crc, send_end_flag,
}
use ota_backup.RobotUpdate.Request.Completed.{plain, Completed}
use ota_backup.RobotUpdate.Firmware.{
  Progress, download_progress, if_printed, data_tries, block_tries, send_firmware_data, block,
  if_done, send_element_data, send_elements, send_firmware,
}
use ota_backup.RobotUpdate.Firmware.Delivered.{Delivered, send_firmware-Delivered}
use ota_backup.RobotUpdate.Firmware.Total.{send_firmware_ends_iff}
use ota_backup.RobotUpdate.Session.{
  Loaded, Services, UpgradeModule, addr_bytes, enter_request, exit_request, boards,
  enter_upgrade_mode, exit_upgrade_mode, enter_all, exit_all, all_enter_upgrade_mode,
  all_exit_upgrade_mode, end_upgrade, upgrade_loaded, upgrade, whatever, upgrade_all,
  robot_sub_sys_update,
}
use ota_backup.RobotUpdate.Session.Upgraded.{Upgraded, robot_sub_sys_update-result}
use ota_backup.RobotUpdate.Session.Hex.{LoadsHex, upgrade-LoadsHex}
use ota_backup.RobotUpdate.Session.Willing.{IsWilling, upgrade_willing}
use ota_backup.RobotUpdate.Session.Modes.{upgrade_mode-Completed}

abbrev protocol : Protocol
protocol = record {
  rm_upgrade_id = 17;
  rm_sysctrl_id = 16;
  start_cmd = 1;
  start_resp = 2;
  addr_cmd = 3;
  addr_resp = 4;
  data_cmd = 5;
  data_resp = 6;
  crc_cmd = 7;
  crc_resp = 8;
  end_cmd = 9;
  end_resp = 10;
  rc_upgrade_id = 33;
  rb_l_arm_upgrade_id = 49;
  rb_r_arm_upgrade_id = 65;
  rb_body_upgrade_id = 81;
  rf_upgrade_id = 97;
  rp_upgrade_id = 113;
  rc_sys_ctrl_id = 32;
  rp_sysctrl_id = 112;
  rf_sysctrl_id = 96;
  rb_r_arm_sys_ctrl_id = 64;
  rb_l_arm_sys_ctrl_id = 48;
  rb_body_sys_ctrl_id = 80;
}

-- The world counts what is sent; every answer says 0 in its third byte.
abbrev willing : CanDevice ℕ
willing = record {
  send = λ s d bytes len n. (pos 0, n + 1);
  read = λ s t buf len timeout n. (pos 3, t ∷ 3 ∷ 0 ∷ [], n);
}

willing-GivesPackets : GivesPackets willing
willing-GivesPackets = record { not_empty = λ s t buf len timeout w e. cc }

abbrev no_progress : Progress
no_progress = record { data_total = 0; data_sended = 0 }

abbrev all_sent : Progress
all_sent = record { data_total = 3; data_sended = 3 }

abbrev small_image : Loaded
small_image = record { elements = small_elements; data_size = 3 }

small_elements-IsSized : All IsSized small_elements
small_elements-IsSized = (refl, (refl, tt))

small_sent :
    send_firmware willing protocol 33 small_elements 3 no_progress 0 ≡ some (pos 0, all_sent, 6)
unfolding attempts request address_request crc_request data_request send_data_address send_data_crc
    download_progress if_printed data_tries block_tries send_firmware_data block if_done
    send_element_data send_elements send_firmware crc16
small_sent = refl

send_firmware-Delivered_example :
    Delivered willing willing-GivesPackets protocol 33 small_elements 0 6
send_firmware-Delivered_example =
    send_firmware-Delivered willing willing-GivesPackets protocol 33 small_elements 3 no_progress
      all_sent 0 6 small_elements-IsSized small_sent

send_firmware_ends_iff_example :
    send_firmware willing protocol 33 [] 0 no_progress 0 ≡ none ↔ 0 % 2 ^ 32 ≡ 0
send_firmware_ends_iff_example = send_firmware_ends_iff willing protocol 33 [] 0 no_progress 0

-- There is one file, for boards with two bytes per address.
abbrev one_file : Services ℕ ℕ
one_file = record {
  load_hex = λ file bytes. if bytes == 2 then some small_image else none;
  ensure_path_mounted = λ n. (pos 0, n);
  open_can_device = λ n. (pos 0, n);
  close_can_device = λ n. n + 100;
}

one_file_agrees :
    (file bytes : ℕ) (image : Loaded)
    → (if bytes == 2 then some small_image else none) ≡ some image
    → load_hex no_variables small_path (some small_file) bytes
      ≡ some (loaded image.elements image.data_size)
one_file_agrees file bytes image e = elim (Bool-cases (bytes == 2)) [
  | inl two ↦ rw (==→eq bytes 2 two) (as_two (rw two at e))
  | inr other ↦ absurd (nothing (rw other at e))
]
  where
    as_two :
        some small_image ≡ some image
        → load_hex no_variables small_path (some small_file) 2
          ≡ some (loaded image.elements image.data_size)
    as_two e = rw (← same) small_file_loaded
      where
        same : small_image ≡ image
        same = cc

    nothing : none ≡ some image → ⊥
    nothing e = cc

abbrev one_file-LoadsHex : LoadsHex one_file no_variables
one_file-LoadsHex = record {
  path = λ file. small_path;
  contents = λ file. some small_file;
  agrees = one_file_agrees;
}

small_upgraded : upgrade protocol willing one_file 33 0 no_progress 0 ≡ some (pos 0, all_sent, 8)
unfolding attempts request start_request address_request crc_request data_request end_request
    send_start_flag send_data_address send_data_crc send_end_flag download_progress if_printed
    data_tries block_tries send_firmware_data block if_done send_element_data send_elements
    send_firmware crc16 addr_bytes end_upgrade upgrade_loaded upgrade
small_upgraded = refl

upgrade-LoadsHex_example :
    (image : Loaded) × (load_hex no_variables small_path (some small_file) (addr_bytes protocol 33)
      ≡ some (loaded image.elements image.data_size))
    × Upgraded willing willing-GivesPackets protocol 33 image 0 8
upgrade-LoadsHex_example =
    upgrade-LoadsHex willing willing-GivesPackets protocol 33 one_file no_variables
      one_file-LoadsHex 0 no_progress all_sent 0 8 small_upgraded

-- The second board has an address of one byte, for which there is no file: its upgrade fails.
abbrev two_modules : List (UpgradeModule ℕ)
two_modules = record { number = 33; file = 0 } ∷ record { number = 113; file = 0 } ∷ []

robot_updated :
    robot_sub_sys_update protocol willing one_file two_modules no_progress 0
    ≡ some (pos 0, all_sent, 120)
unfolding attempts request start_request address_request crc_request data_request end_request
    send_start_flag send_data_address send_data_crc send_end_flag download_progress if_printed
    data_tries block_tries send_firmware_data block if_done send_element_data send_elements
    send_firmware crc16 addr_bytes end_upgrade upgrade_loaded upgrade enter_request exit_request
    boards enter_upgrade_mode exit_upgrade_mode enter_all exit_all all_enter_upgrade_mode
    all_exit_upgrade_mode whatever upgrade_all robot_sub_sys_update
robot_updated = refl

robot_sub_sys_update-result_example :
    (v : ℕ) × (pos 0 ≡ pos 0) × (all_exit_upgrade_mode protocol willing v + 100 ≡ 120)
robot_sub_sys_update-result_example =
    robot_sub_sys_update-result willing protocol one_file two_modules no_progress all_sent 0 120
      (pos 0) refl refl robot_updated

upgrade_mode-Completed_example :
    (is_zero (enter_upgrade_mode protocol willing 32 0).0 ≡ true
      → Completed willing
          (plain (enter_request protocol 32) ∷ [])
          0
          (enter_upgrade_mode protocol willing 32 0).1)
    × (is_zero (exit_upgrade_mode protocol willing 32 0).0 ≡ true
        → Completed willing
            (plain (exit_request protocol 32) ∷ [])
            0
            (exit_upgrade_mode protocol willing 32 0).1)
upgrade_mode-Completed_example = upgrade_mode-Completed willing protocol willing-GivesPackets 32 0

willing-IsWilling : IsWilling willing
willing-IsWilling = record {
  sends = λ s d bytes len w. refl;
  answers = λ s t buf len timeout w. refl;
  agrees = λ s t buf len timeout w. refl;
}

one_file_loads : one_file.load_hex 0 (addr_bytes protocol 33) ≡ some small_image
unfolding addr_bytes
one_file_loads = refl

upgrade_willing_example :
    (g' : Progress) × (w' : ℕ) × (upgrade protocol willing one_file 33 0 no_progress 0
      ≡ some (pos 0, g', w'))
upgrade_willing_example =
    upgrade_willing willing willing-IsWilling protocol 33 one_file 0 small_image no_progress 0
      one_file_loads (λ e. omega arith)
