-- ===== src/RobotUpdate/Transport.antt =====
-- What robotUpdate.cpp takes from rmCAN.cpp and from headers that are not in the repository.
use ota_backup.Base.{ℕ, List, ℤ, pos, ◌≢◌}

-- `sendCANData` and `readCANData` in a world `W`. `read` takes the source, the type, the cleared buffer
-- with its length and the timeout, and gives the buffer back.
pub record CanDevice (W : Type 0) : Type 0 where
  pub send : ℕ → ℕ → List ℕ → ℕ → W → ℤ × W
  pub read : ℕ → ℕ → List ℕ → ℕ → ℕ → W → ℤ × List ℕ × W

-- A read returns -1 or the length of a packet, and no packet is empty.
pub record GivesPackets {W : Type 0} (can : CanDevice W) : Type 0 where
  pub not_empty :
      (s_id msg_type : ℕ) (buf : List ℕ) (len timeout : ℕ) (w : W)
      → (can.read s_id msg_type buf len timeout w).0 ≢ pos 0

-- The message types of robot_update_message.h and the identifiers of robot_common_data.h.
pub record Protocol : Type 0 where
  pub rm_upgrade_id : ℕ
  pub rm_sysctrl_id : ℕ
  pub start_cmd : ℕ
  pub start_resp : ℕ
  pub addr_cmd : ℕ
  pub addr_resp : ℕ
  pub data_cmd : ℕ
  pub data_resp : ℕ
  pub crc_cmd : ℕ
  pub crc_resp : ℕ
  pub end_cmd : ℕ
  pub end_resp : ℕ
  pub rc_upgrade_id : ℕ
  pub rb_l_arm_upgrade_id : ℕ
  pub rb_r_arm_upgrade_id : ℕ
  pub rb_body_upgrade_id : ℕ
  pub rf_upgrade_id : ℕ
  pub rp_upgrade_id : ℕ
  pub rc_sys_ctrl_id : ℕ
  pub rp_sysctrl_id : ℕ
  pub rf_sysctrl_id : ℕ
  pub rb_r_arm_sys_ctrl_id : ℕ
  pub rb_l_arm_sys_ctrl_id : ℕ
  pub rb_body_sys_ctrl_id : ℕ
