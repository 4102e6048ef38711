-- ===== src/Recovery/Main.antt =====
-- recovery.cpp: main behind the reading of its arguments.
pub mod Modules
pub mod Boards
pub mod Keeps
pub mod Ends
mod Examples
use ota_backup.Base.{
  ℕ, zero, suc, List, [], ◌∷◌, ◌++◌, Bool, true, false, not, ◌&&◌, ◌||◌, if◌then◌else◌, Option,
  none, some, ℤ, pos, is_zero, int_equal, drop, length,
}
use ota_backup.RobotUpdate.Transport.{CanDevice, Protocol}
use ota_backup.RobotUpdate.Firmware.{Progress, Outcome}
use ota_backup.RobotUpdate.Session.{UpgradeModule, Services, robot_sub_sys_update}
use ota_backup.Recovery.Text.{◌>>=◌}
use ota_backup.Recovery.Storage.{BootHeader, Storage}
use ota_backup.Recovery.Finish.{Globals, Finished, copy_logs, finish_recovery}
use ota_backup.Recovery.Erase.{
  Volume, Roots, cache_root, data_root, sdcard_root, system_root, cust_root,
}
use ota_backup.Recovery.Options.{Settings}
use ota_backup.Recovery.Clone.{clone_data_if_exist}
use ota_backup.Recovery.Paths.{System}
use ota_backup.Recovery.Prompt.{InstallCodes, Installers, Menu, erase, prompt_and_wait}

-- `UPGRADE_MODULE modules[6]`, of which `count` are set.
unfoldable pub module_of : ℕ → Option (List ℕ) → List (UpgradeModule (List ℕ))
module_of number none = []
module_of number (some file) = record { number = number; file = file } ∷ []

unfoldable pub modules_of : Protocol → Settings → List (UpgradeModule (List ℕ))
unfolding module_of
modules_of p s =
    module_of p.rc_upgrade_id s.update_rc
    ++ (module_of p.rp_upgrade_id s.update_rp
        ++ (module_of p.rf_upgrade_id s.update_rf
            ++ (module_of p.rb_l_arm_upgrade_id s.update_rb
                ++ (module_of p.rb_r_arm_upgrade_id s.update_rb
                    ++ module_of p.rb_body_upgrade_id s.update_rb))))

-- What the installation leaves.
pub record Performed (W : Type 0) : Type 0 where
  pub status : ℤ
  pub globals : Globals
  pub world : W

module _ (h : BootHeader) (codes : InstallCodes) {W : Type 0} (storage : Storage W)
    (roots : Roots W) (installers : Installers W) (menu : Menu W) (ex_sdcard_root : List ℕ)
    (system : System W) where
  unfoldable pub erase_on : Volume → Globals → W → ℤ × Globals × W
  erase_on volume g w = erase h codes storage roots installers menu ex_sdcard_root volume g w

  -- `if (…) status = INSTALL_ERROR;`
  unfoldable pub error_unless_zero : ℤ → ℤ → ℤ
  error_unless_zero result status = if is_zero result then status else codes.install_error

  -- The package, with the wipe of /cache that it may ask for.
  unfoldable pub perform_package : List ℕ → Bool → Globals → W → Performed W
  unfolding erase_on
  perform_package path wipe_cache g w =
      let (status, wipe_cache', w1) = installers.install_package path wipe_cache w in
      let (_, g2, w2) = erase_on cache_root g w1 in
      let wiped : Globals × W = if wipe_cache' then (g2, w2) else (g, w1) in
      if int_equal status codes.install_success
      then record {
        status = status;
        globals = record wiped.0 { auto_update_complete = true };
        world = wiped.1;
      }
      else record { status = status; globals = g; world = w1 }

  unfoldable pub perform_rkimage : List ℕ → Globals → W → Performed W
  perform_rkimage path g w =
      let (status, w1) = installers.install_rkimage path w in
      let g' =
        if int_equal status codes.install_success
        then record g { auto_update_complete = true }
        else g in
      record { status = status; globals = g'; world = w1 }

  -- The image on the card.
  unfoldable pub perform_card : List ℕ → Bool → Globals → W → Performed W
  unfolding erase_on
  perform_card path wipe_cache g w =
      let (status, w1) = installers.install_rkimage path w in
      let (_, g2, w2) = erase_on cache_root g w1 in
      let wipes = int_equal status codes.install_success && wipe_cache in
      record {
        status = status;
        globals = if wipes then g2 else g;
        world = if wipes then w2 else w1;
      }

  -- `handle_board_id`: the first result that is not 0, or 0.
  unfoldable pub handle_board_id : W → ℤ × W
  handle_board_id w =
      let (resized_system, w1) = system.check_and_resizefs system_root w in
      let (resized_cust, w2) = system.check_and_resizefs cust_root w1 in
      let (_, w3) = roots.ensure_path_mounted cust_root w2 in
      let (_, w4) = roots.ensure_path_mounted system_root w3 in
      let (restored, w5) = system.restore w4 in
      let (customised, w6) = system.custom w5 in
      if not (is_zero resized_system)
      then (resized_system, w1)
      else if not (is_zero resized_cust)
      then (resized_cust, w2)
      else if not (is_zero restored)
      then (restored, w5)
      else if not (is_zero customised)
      then (customised, w6)
      else (pos 0, system.copy_demo w6)

  -- The clone of /databk, or else the wipe of /data.
  unfoldable pub clone_or_erase : ℤ → Globals → W → Performed W
  unfolding erase_on error_unless_zero
  clone_or_erase status g w =
      let (cloned, w1) = clone_data_if_exist installers w in
      let (erased, g2, w2) = erase_on data_root g w1 in
      if is_zero cloned
      then record { status = status; globals = g; world = w1 }
      else record { status = error_unless_zero erased status; globals = g2; world = w2 }

  -- `if (… && erase_volume(…)) status = INSTALL_ERROR;`
  unfoldable pub erase_if : Bool → Volume → Performed W → Performed W
  unfolding erase_on error_unless_zero
  erase_if wipes volume r =
      let (erased, g, w) = erase_on volume r.globals r.world in
      if wipes
      then record { status = error_unless_zero erased r.status; globals = g; world = w }
      else r

  -- The system and the card; handle_board_id sets `status` anew.
  unfoldable pub resize_if : Bool → Bool → Performed W → Performed W
  unfolding error_unless_zero handle_board_id
  resize_if use_board_id wipe_all r =
      let (board, w1) = handle_board_id r.world in
      let (resized, w2) = system.check_and_resizefs system_root r.world in
      if not wipe_all
      then r
      else if use_board_id
      then record r { status = board; world = w1 }
      else record r { status = error_unless_zero resized r.status; world = w2 }

  -- The wipe of the data.
  unfoldable pub perform_wipe : Bool → Bool → Bool → Globals → W → Performed W
  unfolding clone_or_erase erase_if resize_if error_unless_zero
  perform_wipe use_board_id wipe_cache wipe_all g w =
      let (device, w1) = installers.device_wipe_data w in
      let r1 = clone_or_erase (error_unless_zero device codes.install_success) g w1 in
      let r2 = erase_if wipe_cache cache_root r1 in
      erase_if wipe_all sdcard_root (resize_if use_board_id wipe_all r2)

  unfoldable pub perform_wipe_cache : Globals → W → Performed W
  unfolding erase_on error_unless_zero
  perform_wipe_cache g w =
      let (erased, g', w') = erase_on cache_root g w in
      record { status = error_unless_zero erased codes.install_success; globals = g'; world = w' }

  unfoldable pub perform_rest : Bool → Settings → Globals → W → Performed W
  unfolding perform_wipe perform_wipe_cache
  perform_rest use_board_id s g w =
      if s.wipe_data
      then perform_wipe use_board_id s.wipe_cache s.wipe_all g w
      else if s.wipe_cache
      then perform_wipe_cache g w
      else record {
        status = if s.just_exit then codes.install_success else codes.install_none;
        globals = g;
        world = w;
      }

  -- The chain of main from the package to nothing at all; `auto` is `auto_sdcard_update_path`.
  unfoldable pub perform : Bool → Option (List ℕ) → Settings → Globals → W → Performed W
  unfolding perform_package perform_rkimage perform_card perform_rest
  perform use_board_id auto s g w = elim s.update_package [
    | some path ↦ perform_package path s.wipe_cache g w
    | none ↦ elim s.update_rkimage [
      | some path ↦ perform_rkimage path g w
      | none ↦ elim auto [
        | some path ↦ perform_card path s.wipe_cache g w
        | none ↦ perform_rest use_board_id s g w
      ]
    ]
  ]

  -- What follows the installation: the logs, the menu unless it succeeded, and finish_recovery.
  unfoldable pub conclude : ℕ → Option (List ℕ) → Performed W → Option (Finished W)
  conclude fuel send_intent r =
      let failed =
        int_equal r.status codes.install_error || int_equal r.status codes.install_corrupt in
      let (offset, w1) = copy_logs storage r.globals.tmplog_offset r.world in
      let g' : Globals =
        if failed
        then record r.globals { tmplog_offset = offset; need_clear_misc = true }
        else r.globals in
      let w' = if failed then w1 else r.world in
      let prompted =
        prompt_and_wait h codes storage roots installers menu ex_sdcard_root fuel r.status g' w' in
      let finished = prompted >>= (λ (g2, w2). finish_recovery storage send_intent g2 w2) in
      if int_equal r.status codes.install_success
      then finish_recovery storage send_intent g' w'
      else finished

  module _ (p : Protocol) (can : CanDevice W) (services : Services (List ℕ) W) where
    -- The boards come first; the result of robotSubSysUpdate is not looked at, and a board update ends
    -- with `just_exit`. `none`: the program ended, or out of fuel.
    unfoldable pub run_updates :
        ℕ → Bool → Option (List ℕ) → Settings → Progress → Globals → W → Option (Finished W)
    unfolding perform conclude modules_of
    run_updates fuel use_board_id auto s progress g w = elim (modules_of p s) [
      | [] ↦ conclude fuel s.send_intent (perform use_board_id auto s g w)
      | m ∷ ms ↦ robot_sub_sys_update p can services (m ∷ ms) progress w >>= (λ (_, _, w').
          conclude fuel s.send_intent
            (perform use_board_id auto (record s { just_exit = true }) g w'))
    ]
