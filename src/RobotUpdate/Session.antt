-- ===== src/RobotUpdate/Session.antt =====
-- robotUpdate.cpp: one board's upgrade, and the whole update of the robot.
pub mod Upgraded
pub mod Modes
pub mod Hex
pub mod Willing
use ota_backup.Base.{
  ℕ, zero, suc, ◌%◌, ◌^◌, ◌+◌, List, [], ◌∷◌, Bool, true, false, ◌==◌, ◌||◌, ◌&&◌, not,
  if◌then◌else◌, Option, none, some, ℤ, pos, minus_one, is_zero, is_positive, zeros, get_or,
}
use ota_backup.Image.Element.{ImageElement}
use ota_backup.RobotUpdate.Transport.{CanDevice, Protocol}
use ota_backup.RobotUpdate.Request.{Request, cmd_timeout, request, send_start_flag, send_end_flag}
use ota_backup.RobotUpdate.Firmware.{Progress, Outcome, if_done, send_firmware}

-- What `LoadHex` leaves when it returns true: the elements and `m_DataSize`.
pub record Loaded : Type 0 where
  pub elements : List ImageElement
  pub data_size : ℕ

-- What the update calls besides the two CAN calls: the loader of hex files in `File`, given the bytes
-- per address (`none`: it returns false), the mount of the card, and the opening and the closing of the
-- CAN device.
pub record Services (File : Type 0) (W : Type 0) : Type 0 where
  pub load_hex : File → ℕ → Option Loaded
  pub ensure_path_mounted : W → ℤ × W
  pub open_can_device : W → ℤ × W
  pub close_can_device : W → W

abbrev pub single_byte : ℕ
single_byte = 1

abbrev pub double_byte : ℕ
double_byte = 2

abbrev pub common_sysctrl_subsys_state_query : ℕ
common_sysctrl_subsys_state_query = 24

abbrev pub common_sysctrl_subsys_state_query_rep : ℕ
common_sysctrl_subsys_state_query_rep = 25

abbrev pub common_sysctrl_upgrade_cmd : ℕ
common_sysctrl_upgrade_cmd = 32

abbrev pub common_sysctrl_upgrade_cmd_rep : ℕ
common_sysctrl_upgrade_cmd_rep = 33

abbrev pub common_sysctrl_exit_upgrade_cmd : ℕ
common_sysctrl_exit_upgrade_cmd = 34

abbrev pub common_sysctrl_exit_upgrade_cmd_rep : ℕ
common_sysctrl_exit_upgrade_cmd_rep = 35

-- `UPGRADE_MODULE`.
pub record UpgradeModule (File : Type 0) : Type 0 where
  pub number : ℕ
  pub file : File

-- A step whose result is not looked at.
unfoldable pub whatever : {W : Type 0} → Outcome W → (Progress → W → Outcome W) → Outcome W
whatever none rest = none
whatever (some (ret, g, w)) rest = rest g w

module _ (p : Protocol) where
  unfoldable pub addr_bytes : ℕ → ℕ
  addr_bytes sub_module =
      if sub_module == p.rp_upgrade_id || sub_module == p.rf_upgrade_id
      then single_byte
      else double_byte

  unfoldable pub enter_request : ℕ → Request
  enter_request board = record {
    source = p.rm_sysctrl_id;
    target = board;
    message = common_sysctrl_upgrade_cmd ∷ 2 ∷ [];
    len = 2;
    resp = common_sysctrl_upgrade_cmd_rep;
    resp_len = 3;
    timeout = cmd_timeout;
  }

  unfoldable pub exit_request : ℕ → Request
  exit_request board = record {
    source = p.rm_sysctrl_id;
    target = board;
    message = common_sysctrl_exit_upgrade_cmd ∷ 2 ∷ [];
    len = 2;
    resp = common_sysctrl_exit_upgrade_cmd_rep;
    resp_len = 3;
    timeout = cmd_timeout;
  }

  -- The boards in the order in which they enter and leave the upgrade mode.
  unfoldable pub boards : List ℕ
  boards =
      p.rc_sys_ctrl_id ∷ p.rp_sysctrl_id ∷ p.rf_sysctrl_id ∷ p.rb_r_arm_sys_ctrl_id
      ∷ p.rb_l_arm_sys_ctrl_id ∷ p.rb_body_sys_ctrl_id ∷ []

  module _ {W : Type 0} (can : CanDevice W) where
    unfoldable pub enter_upgrade_mode : ℕ → W → ℤ × W
    unfolding enter_request
    enter_upgrade_mode board w =
        let (reply, w') = request can (enter_request board) w in (reply.ret, w')

    unfoldable pub exit_upgrade_mode : ℕ → W → ℤ × W
    unfolding exit_request
    exit_upgrade_mode board w =
        let (reply, w') = request can (exit_request board) w in (reply.ret, w')

    unfoldable pub is_upgrade_mode : ℕ → W → ℤ × W
    is_upgrade_mode board w =
        let (ret, w') =
          can.send p.rm_sysctrl_id board (common_sysctrl_subsys_state_query ∷ 2 ∷ []) 2 w in
        let (ret', ret_data, w'') =
          can.read board common_sysctrl_subsys_state_query_rep (zeros 4) 4 cmd_timeout w' in
        if is_zero ret
        then (if is_positive ret' && get_or ret_data 2 0 == 11 then pos 0 else minus_one, w'')
        else (minus_one, w')

    -- The results of the boards are printed only.
    unfoldable pub enter_all : List ℕ → W → W
    enter_all [] w = w
    enter_all (board ∷ rest) w = enter_all rest (enter_upgrade_mode board w).1

    unfoldable pub exit_all : List ℕ → W → W
    exit_all [] w = w
    exit_all (board ∷ rest) w = exit_all rest (exit_upgrade_mode board w).1

    unfoldable pub all_enter_upgrade_mode : W → ℤ × W
    unfolding boards
    all_enter_upgrade_mode w = (pos 0, enter_all boards w)

    unfoldable pub all_exit_upgrade_mode : W → W
    unfolding boards
    all_exit_upgrade_mode w = exit_all boards w

    -- The end flag, and the result behind it.
    unfoldable pub end_upgrade : ℕ → Progress → W → Outcome W
    end_upgrade sub_module g w =
        let (ret, w') = send_end_flag p sub_module can w in
        if is_zero ret then some (pos 0, g, w') else some (minus_one, g, w')

    -- `upgrade` behind `LoadHex`.
    unfoldable pub upgrade_loaded : ℕ → Option Loaded → Progress → W → Outcome W
    upgrade_loaded sub_module none g w = some (minus_one, g, w)
    upgrade_loaded sub_module (some image) g w =
        let (ret, w') = send_start_flag p sub_module can w in
        let sending =
          if_done (send_firmware can p sub_module image.elements image.data_size g w')
            (end_upgrade sub_module) in
        if is_zero ret then sending else some (minus_one, g, w')

    module _ {File : Type 0} (services : Services File W) where
      unfoldable pub upgrade : ℕ → File → Progress → W → Outcome W
      unfolding addr_bytes
      upgrade sub_module file g w =
          upgrade_loaded sub_module (services.load_hex file (addr_bytes sub_module)) g w

      -- The loop over the modules, whose results are not looked at; what follows is the rest of the call.
      unfoldable pub upgrade_all :
          List (UpgradeModule File) → (Progress → W → Outcome W) → Progress → W → Outcome W
      upgrade_all [] rest g w = rest g w
      upgrade_all (m ∷ ms) rest g w = whatever (upgrade m.number m.file g w) (upgrade_all ms rest)

      -- `robotSubSysUpdate`; `ms` are the first `count` modules.
      unfoldable pub robot_sub_sys_update : List (UpgradeModule File) → Progress → W → Outcome W
      robot_sub_sys_update ms g w =
          let (mounted, w1) = services.ensure_path_mounted w in
          let (opened, w2) = services.open_can_device w1 in
          let (_, w3) = all_enter_upgrade_mode w2 in
          let updating =
            upgrade_all ms
              (λ g' w'. some (opened, g', services.close_can_device (all_exit_upgrade_mode w'))) g
              w3 in
          if not (is_zero mounted)
          then some (minus_one, g, w1)
          else if not (is_zero opened)
          then some (minus_one, g, w2)
          else updating
