-- ===== src/Recovery/Start/Ends.antt =====
-- However main ends that did not go to the factory's run, the next boot starts the main system.
use ota_backup.Base.{ℕ, ◌≡◌, refl, ◌∙◌, subst, List, [], Bool, true, ◌||◌, Option, none, some}
use ota_backup.RobotUpdate.Transport.{CanDevice, Protocol}
use ota_backup.RobotUpdate.Firmware.{Progress}
use ota_backup.RobotUpdate.Session.{Services}
use ota_backup.Recovery.Text.{◌>>=◌}
use ota_backup.Recovery.Storage.{BootHeader, Storage, StorageLaws}
use ota_backup.Recovery.Args.{Arguments, Started, get_args}
use ota_backup.Recovery.Finish.{Globals, Finished}
use ota_backup.Recovery.Finish.Cleared.{get_args-finish_recovery}
use ota_backup.Recovery.Finish.Steps.{OnSome, OnSome-any, OnSome-bind, OnSome-if}
use ota_backup.Recovery.Rotate.{rotate_last_logs}
use ota_backup.Recovery.Erase.{Roots, cache_root, metadata_root, sure_mount}
use ota_backup.Recovery.Options.{Settings, no_settings, get_options}
use ota_backup.Recovery.Paths.{System, get_auto_sdcard_update_path}
use ota_backup.Recovery.Prompt.{InstallCodes, Installers, Menu}
use ota_backup.Recovery.Main.Ends.{Concluded, run_updates-Concluded}
use ota_backup.Recovery.Sdtool.{Factory, sdtool_main}
use ota_backup.Recovery.Start.{
  Boot, Ended, by_adbd, by_sdtool, by_recovery, is_adbd, locale_or_cached, wait_for_card,
  set_update_path, recover, choose_run, prepared, recovery_main,
}

OnSome-each {ℓ} :
    {A : Type ℓ} (Q : A → Type 0) (o : Option A) → ((a : A) → o ≡ some a → Q a) → OnSome Q o
OnSome-each Q none h = tt
OnSome-each Q (some a) h = h a refl

module _ (h : BootHeader) (codes : InstallCodes) {W : Type 0} (storage : Storage W)
    (roots : Roots W) (installers : Installers W) (menu : Menu W) (ex_sdcard_root : List ℕ)
    (system : System W) (factory : Factory W) (boot : Boot W) (p : Protocol) (can : CanDevice W)
    (services : Services (List ℕ) W) where
  -- A run for the updates ends with finish_recovery, and `bNeedClearMisc` is set there.
  abbrev EndsClear : Ended W → Type 0
  EndsClear (by_adbd w) = Unit
  EndsClear (by_sdtool r) = Unit
  EndsClear (by_recovery r) =
      (send_intent : Option (List ℕ)) × Concluded h codes storage roots installers menu
        ex_sdcard_root system send_intent r

  set_update_path-misc :
      (path : Option (List ℕ)) (g : Globals) (w : W)
      → (set_update_path h codes storage roots installers menu ex_sdcard_root system factory boot p
          can services path g w).1.need_clear_misc
        ≡ g.need_clear_misc
  unfolding set_update_path
  set_update_path-misc none g w = refl
  set_update_path-misc (some path) g w = refl

  choose_run-EndsClear :
      (fuel : ℕ) (use_board_id : Bool) (s : Settings) (progress : Progress) (g : Globals) (w : W)
      → g.need_clear_misc ≡ true
      → OnSome EndsClear (
          choose_run h codes storage roots installers menu ex_sdcard_root system factory boot p can
            services fuel use_board_id s progress g w)
  unfolding choose_run recover
  choose_run-EndsClear fuel use_board_id s progress g w needed =
      OnSome-if EndsClear (boot.check_sdboot w || s.factory_mode_en)
        (from_card >>= (λ r. some (by_sdtool r))) (recovered >>= (λ r. some (by_recovery r)))
        (OnSome-bind (λ r. Unit) EndsClear from_card (λ r. some (by_sdtool r))
          (OnSome-any from_card) (λ r _. tt))
        (OnSome-bind (λ r. EndsClear (by_recovery r)) EndsClear recovered
          (λ r. some (by_recovery r))
          (OnSome-each (λ r. EndsClear (by_recovery r)) recovered
            (λ r e. (
              s.send_intent,
              run_updates-Concluded h codes storage roots installers menu ex_sdcard_root system p
                  can services fuel use_board_id auto.0
                  (record s { update_package = step.0; update_rkimage = step'.0 }) progress step'.1
                  step'.2 r needed' e,
            )))
          (λ r k. k))
    where
      from_card : Option (Finished W)
      from_card =
          sdtool_main h codes storage roots installers menu ex_sdcard_root system factory fuel
            s.factory_mode g w

      recovered : Option (Finished W)
      recovered =
          recover h codes storage roots installers menu ex_sdcard_root system factory boot p can
            services fuel use_board_id s progress g w

      set_path : Option (List ℕ) → Globals → W → Option (List ℕ) × Globals × W
      set_path =
          set_update_path h codes storage roots installers menu ex_sdcard_root system factory boot p
            can services

      auto : Option (List ℕ) × W
      auto = get_auto_sdcard_update_path system ex_sdcard_root w

      step : Option (List ℕ) × Globals × W
      step = set_path s.update_package g auto.1

      step' : Option (List ℕ) × Globals × W
      step' = set_path s.update_rkimage step.1 step.2

      needed' : step'.1.need_clear_misc ≡ true
      needed' =
          set_update_path-misc s.update_rkimage step.1 step.2
          ∙ set_update_path-misc s.update_package g auto.1
          ∙ needed

  prepared-misc :
      (g : Globals) (started : Started W)
      → OnSome {A = Settings × Globals × W}
          (λ r. r.1.need_clear_misc ≡ g.need_clear_misc)
          (prepared h codes storage roots installers menu ex_sdcard_root system factory boot p can
            services g started)
  unfolding prepared
  prepared-misc g started =
      OnSome-bind {A = Option (List ℕ) × W} (λ r. Unit) Kept (cached s.locale started.world) next
        (OnSome-any (cached s.locale started.world)) (λ r _. refl)
    where
      Kept : Settings × Globals × W → Type 0
      Kept r = r.1.need_clear_misc ≡ g.need_clear_misc

      s : Settings
      s =
          get_options none started.arguments.args
            (record no_settings { locale = g.locale; stage = started.stage })

      cached : Option (List ℕ) → W → Option (Option (List ℕ) × W)
      cached =
          locale_or_cached h codes storage roots installers menu ex_sdcard_root system factory boot
            p can services

      next : Option (List ℕ) × W → Option (Settings × Globals × W)
      next (locale, w1) =
          let (offset, w2) = sure_mount storage roots cache_root g.tmplog_offset w1 in
          let (offset', w3) = sure_mount storage roots metadata_root offset w2 in
          some (
            s,
            record g { locale = locale; tmplog_offset = offset' },
            wait_for_card h codes storage roots installers menu ex_sdcard_root system factory boot p
                can services 2 w3,
          )

  recovery_main-EndsClear :
      (fuel : ℕ) (use_board_id : Bool) (a : Arguments) (progress : Progress) (g : Globals) (w : W)
      → g.need_clear_misc ≡ true
      → OnSome EndsClear (
          recovery_main h codes storage roots installers menu ex_sdcard_root system factory boot p
            can services fuel use_board_id a progress g w)
  unfolding recovery_main
  recovery_main-EndsClear fuel use_board_id a progress g w needed =
      OnSome-if EndsClear (is_adbd a.args) (some (by_adbd (boot.adb_main w)))
        (started >>= behind_args) tt
        (OnSome-bind (λ s. Unit) EndsClear started behind_args (OnSome-any started)
          (λ s _.
            OnSome-bind {A = Settings × Globals × W} (λ r. r.1.need_clear_misc ≡ g.need_clear_misc)
              EndsClear (prepare s) behind_mounts (prepared-misc g s)
              (λ r kept.
                choose_run-EndsClear fuel use_board_id r.0 progress r.1 r.2 (kept ∙ needed))))
    where
      started : Option (Started W)
      started =
          get_args h storage a
            (rotate_last_logs boot.rename 10 (roots.ensure_path_mounted cache_root w).1)

      prepare : Started W → Option (Settings × Globals × W)
      prepare =
          prepared h codes storage roots installers menu ex_sdcard_root system factory boot p can
            services g

      behind_mounts : Settings × Globals × W → Option (Ended W)
      behind_mounts (s, g', w') =
          choose_run h codes storage roots installers menu ex_sdcard_root system factory boot p can
            services fuel use_board_id s progress g' w'

      behind_args : Started W → Option (Ended W)
      behind_args s = prepare s >>= behind_mounts

  -- However main ends, with boards, packages, images or wipes that failed, and whatever was chosen in
  -- the menu, the next boot has no arguments: when the run has removed the command file, get_args finds
  -- nothing to do. The run was not the factory's, and `bNeedClearMisc` is set at its start.
  pub get_args-recovery_main :
      StorageLaws storage
      → (fuel : ℕ) (use_board_id : Bool) (a : Arguments) (progress : Progress) (g : Globals) (w : W)
        (r : Finished W)
      → g.need_clear_misc ≡ true
      → recovery_main h codes storage roots installers menu ex_sdcard_root system factory boot p can
          services fuel use_board_id a progress g w
        ≡ some (by_recovery r)
      → r.unlinked ≡ true
      → (program : List ℕ)
      → (t : Started W) × (get_args h storage (record { program = program; args = [] }) r.world
          ≡ some t)
        × (t.arguments ≡ record { program = program; args = [] })
  get_args-recovery_main laws fuel use_board_id a progress g w r needed e gone program =
      let (send_intent, c) =
        subst (OnSome EndsClear) e
          (recovery_main-EndsClear fuel use_board_id a progress g w needed) in
      get_args-finish_recovery storage laws h send_intent c.globals c.world r c.needed c.finished
        gone program
