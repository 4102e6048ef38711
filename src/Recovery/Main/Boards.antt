-- ===== src/Recovery/Main/Boards.antt =====
-- A command that updates boards only.
use ota_backup.Base.{
  ℕ, ◌≡◌, refl, List, ◌∷◌, Bool, true, false, Option, none, some, ℤ, int_equal, int_equal_self,
}
use ota_backup.RobotUpdate.Transport.{CanDevice, Protocol}
use ota_backup.RobotUpdate.Firmware.{Progress}
use ota_backup.RobotUpdate.Session.{UpgradeModule, Services, robot_sub_sys_update}
use ota_backup.Recovery.Storage.{BootHeader, Storage}
use ota_backup.Recovery.Finish.{Globals, finish_recovery}
use ota_backup.Recovery.Erase.{Roots}
use ota_backup.Recovery.Options.{Settings}
use ota_backup.Recovery.Paths.{System}
use ota_backup.Recovery.Prompt.{InstallCodes, Installers, Menu}
use ota_backup.Recovery.Main.{perform_rest, perform, conclude, modules_of, run_updates}

-- No package, no image and no wipe.
pub record OnlyBoards (s : Settings) : Type 0 where
  pub no_package : s.update_package ≡ none
  pub no_rkimage : s.update_rkimage ≡ none
  pub no_wipe_data : s.wipe_data ≡ false
  pub no_wipe_cache : s.wipe_cache ≡ false

-- Success is no error.
pub record Distinct (codes : InstallCodes) : Type 0 where
  pub not_error : int_equal codes.install_success codes.install_error ≡ false
  pub not_corrupt : int_equal codes.install_success codes.install_corrupt ≡ false

module _ (h : BootHeader) (codes : InstallCodes) {W : Type 0} (storage : Storage W)
    (roots : Roots W) (installers : Installers W) (menu : Menu W) (ex_sdcard_root : List ℕ)
    (system : System W) where
  perform_boards :
      (use_board_id : Bool) (s : Settings) (g : Globals) (w : W)
      → OnlyBoards s
      → perform h codes storage roots installers menu ex_sdcard_root system use_board_id none
          (record s { just_exit = true })
          g
          w
        ≡ record { status = codes.install_success; globals = g; world = w }
  unfolding perform perform_rest
  perform_boards use_board_id s g w only =
      rw (only.no_package, only.no_rkimage, only.no_wipe_data, only.no_wipe_cache) refl

  conclude_success :
      (fuel : ℕ) (send_intent : Option (List ℕ)) (g : Globals) (w : W)
      → Distinct codes
      → conclude h codes storage roots installers menu ex_sdcard_root system fuel send_intent
          (record { status = codes.install_success; globals = g; world = w })
        ≡ finish_recovery storage send_intent g w
  unfolding conclude
  conclude_success fuel send_intent g w distinct =
      rw (distinct.not_error, distinct.not_corrupt, int_equal_self codes.install_success) refl

  -- A command that updates boards only ends as a success whatever robotSubSysUpdate returns, also when
  -- the card cannot be mounted, the device cannot be opened or every upgrade has failed: there is no
  -- menu, and finish_recovery runs at once on what the boards left. There is no update on the card, and
  -- robotSubSysUpdate returns.
  pub run_updates_boards :
      (p : Protocol) (can : CanDevice W) (services : Services (List ℕ) W) (fuel : ℕ)
      (use_board_id : Bool) (s : Settings) (progress progress' : Progress) (g : Globals) (w w' : W)
      (ret : ℤ) (m : UpgradeModule (List ℕ)) (ms : List (UpgradeModule (List ℕ)))
      → Distinct codes
      → OnlyBoards s
      → modules_of p s ≡ m ∷ ms
      → robot_sub_sys_update p can services (m ∷ ms) progress w ≡ some (ret, progress', w')
      → run_updates h codes storage roots installers menu ex_sdcard_root system p can services fuel
          use_board_id none s progress g w
        ≡ finish_recovery storage s.send_intent g w'
  unfolding run_updates
  run_updates_boards p can services fuel use_board_id s progress progress' g w w' ret m ms distinct
        only modules updated =
      rw (run_updates, modules, updated, perform_boards use_board_id s g w' only)
        (conclude_success fuel s.send_intent g w' distinct)
