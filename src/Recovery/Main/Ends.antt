-- ===== src/Recovery/Main/Ends.antt =====
-- However main ends, the next boot starts the main system.
use ota_backup.Base.{
  ℕ, ◌≡◌, refl, ◌∙◌, List, [], ◌∷◌, Bool, true, false, ◌||◌, if◌then◌else◌, Option, none, some,
  int_equal,
}
use ota_backup.RobotUpdate.Transport.{CanDevice, Protocol}
use ota_backup.RobotUpdate.Firmware.{Progress, Outcome}
use ota_backup.RobotUpdate.Session.{UpgradeModule, Services, robot_sub_sys_update}
use ota_backup.Recovery.Text.{◌>>=◌}
use ota_backup.Recovery.Storage.{BootHeader, Storage}
use ota_backup.Recovery.Finish.{Globals, Finished, copy_logs, finish_recovery}
use ota_backup.Recovery.Finish.Steps.{OnSome}
use ota_backup.Recovery.Erase.{Roots}
use ota_backup.Recovery.Options.{Settings}
use ota_backup.Recovery.Paths.{System}
use ota_backup.Recovery.Prompt.{InstallCodes, Installers, Menu, prompt_and_wait}
use ota_backup.Recovery.Prompt.Kept.{prompt_and_wait-misc}
use ota_backup.Recovery.Main.{Performed, perform, conclude, modules_of, run_updates}
use ota_backup.Recovery.Main.Keeps.{pick-misc, perform-Keeps}

module _ (h : BootHeader) (codes : InstallCodes) {W : Type 0} (storage : Storage W)
    (roots : Roots W) (installers : Installers W) (menu : Menu W) (ex_sdcard_root : List ℕ)
    (system : System W) where
  -- The last step was finish_recovery, with `bNeedClearMisc` set.
  pub record Concluded (send_intent : Option (List ℕ)) (r : Finished W) : Type 0 where
    pub globals : Globals
    pub world : W
    pub needed : globals.need_clear_misc ≡ true
    pub finished : finish_recovery storage send_intent globals world ≡ some r

  conclude-Concluded :
      (fuel : ℕ) (send_intent : Option (List ℕ)) (p : Performed W) (r : Finished W)
      → p.globals.need_clear_misc ≡ true
      → conclude h codes storage roots installers menu ex_sdcard_root system fuel send_intent p
        ≡ some r
      → Concluded send_intent r
  unfolding conclude
  conclude-Concluded fuel send_intent p r needed e =
      by_success (int_equal p.status codes.install_success) e
    where
      failed : Bool
      failed = int_equal p.status codes.install_error || int_equal p.status codes.install_corrupt

      logged : ℕ × W
      logged = copy_logs storage p.globals.tmplog_offset p.world

      g' : Globals
      g' =
          if failed
          then record p.globals { tmplog_offset = logged.0; need_clear_misc = true }
          else p.globals

      w' : W
      w' = if failed then logged.1 else p.world

      needed' : g'.need_clear_misc ≡ true
      needed' =
          pick-misc failed (record p.globals { tmplog_offset = logged.0; need_clear_misc = true })
            p.globals refl needed

      prompted : Option (Globals × W)
      prompted =
          prompt_and_wait h codes storage roots installers menu ex_sdcard_root fuel p.status g' w'

      after_prompt :
          (o : Option (Globals × W))
          → OnSome {A = Globals × W} (λ q. q.0.need_clear_misc ≡ true) o
          → (o >>= (λ (g2, w2). finish_recovery storage send_intent g2 w2)) ≡ some r
          → Concluded send_intent r
      after_prompt none k e = cc
      after_prompt (some (g2, w2)) k e = record {
        globals = g2;
        world = w2;
        needed = k;
        finished = e;
      }

      by_success :
          (b : Bool)
          → (if b
              then finish_recovery storage send_intent g' w'
              else (prompted >>= (λ (g2, w2). finish_recovery storage send_intent g2 w2)))
            ≡ some r
          → Concluded send_intent r
      by_success true e = record { globals = g'; world = w'; needed = needed'; finished = e }
      by_success false e =
          after_prompt prompted
            (prompt_and_wait-misc h codes storage roots installers menu ex_sdcard_root fuel p.status
              g' w' needed')
            e

  module _ (p : Protocol) (can : CanDevice W) (services : Services (List ℕ) W) where
    pub run_updates-Concluded :
        (fuel : ℕ) (use_board_id : Bool) (auto : Option (List ℕ)) (s : Settings)
        (progress : Progress) (g : Globals) (w : W) (r : Finished W)
        → g.need_clear_misc ≡ true
        → run_updates h codes storage roots installers menu ex_sdcard_root system p can services
            fuel use_board_id auto s progress g w
          ≡ some r
        → Concluded s.send_intent r
    unfolding run_updates
    run_updates-Concluded fuel use_board_id auto s progress g w r needed e =
        by_modules (modules_of p s) e
      where
        installed : Settings → W → Performed W
        installed s' w' =
            perform h codes storage roots installers menu ex_sdcard_root system use_board_id auto s'
              g w'

        concluded : Performed W → Option (Finished W)
        concluded =
            conclude h codes storage roots installers menu ex_sdcard_root system fuel s.send_intent

        ends :
            (s' : Settings) (w' : W)
            → concluded (installed s' w') ≡ some r
            → Concluded s.send_intent r
        ends s' w' q =
            conclude-Concluded fuel s.send_intent (installed s' w') r
              (perform-Keeps h codes storage roots installers menu ex_sdcard_root system
                  use_board_id auto s' g w'
                ∙ needed)
              q

        with_boards :
            (o : Outcome W)
            → (o >>= (λ (_, _, w'). concluded (installed (record s { just_exit = true }) w')))
              ≡ some r
            → Concluded s.send_intent r
        with_boards none q = cc
        with_boards (some (ret, progress', w')) q = ends (record s { just_exit = true }) w' q

        by_modules :
            (ms : List (UpgradeModule (List ℕ)))
            → (elim ms [
              | [] ↦ concluded (installed s w)
              | m ∷ ms' ↦
                  robot_sub_sys_update p can services (m ∷ ms') progress w
                  >>= (λ (_, _, w'). concluded (installed (record s { just_exit = true }) w'))
            ])
              ≡ some r
            → Concluded s.send_intent r
        by_modules [] q = ends s w q
        by_modules (m ∷ ms) q =
            with_boards (robot_sub_sys_update p can services (m ∷ ms) progress w) q
