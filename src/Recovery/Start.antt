-- ===== src/Recovery/Start.antt =====
-- recovery.cpp: the whole of main.
pub mod Ends
mod Examples
use ota_backup.Base.{
  ℕ, zero, suc, List, [], ◌∷◌, Bool, true, false, ◌||◌, not, if◌then◌else◌, Option, none, some, ℤ,
  is_zero,
}
use ota_backup.Image.Path.{str_equal}
use ota_backup.RobotUpdate.Transport.{CanDevice, Protocol}
use ota_backup.RobotUpdate.Firmware.{Progress}
use ota_backup.RobotUpdate.Session.{Services}
use ota_backup.Recovery.Text.{◌>>=◌}
use ota_backup.Recovery.Storage.{BootHeader, Storage, FilePath}
use ota_backup.Recovery.Args.{Arguments, Started, get_args}
use ota_backup.Recovery.Finish.{Globals, Finished, load_locale_from_cache}
use ota_backup.Recovery.Rotate.{rotate_last_logs}
use ota_backup.Recovery.Erase.{Volume, Roots, cache_root, metadata_root, sure_mount}
use ota_backup.Recovery.Options.{Settings, no_settings, get_options}
use ota_backup.Recovery.Paths.{System, update_path, get_auto_sdcard_update_path}
use ota_backup.Recovery.Prompt.{InstallCodes, Installers, Menu}
use ota_backup.Recovery.Main.{run_updates}
use ota_backup.Recovery.Sdtool.{Factory, sdtool_main}

-- `rename`, `adb_main` and `check_sdboot` (true: it is 0).
pub record Boot (W : Type 0) : Type 0 where
  pub rename : FilePath → FilePath → W → W
  pub adb_main : W → W
  pub check_sdboot : W → Bool

-- How main ends.
pub data Ended (W : Type 0) : Type 0 where
  by_adbd : W → Ended W
  by_sdtool by_recovery : Finished W → Ended W

-- "--adbd"
abbrev pub adbd_word : List ℕ
adbd_word = 45 ∷ 45 ∷ 97 ∷ 100 ∷ 98 ∷ 100 ∷ []

unfoldable pub is_adbd : List (List ℕ) → Bool
is_adbd (arg ∷ []) = str_equal arg adbd_word
is_adbd _ = false

module _ (h : BootHeader) (codes : InstallCodes) {W : Type 0} (storage : Storage W)
    (roots : Roots W) (installers : Installers W) (menu : Menu W) (ex_sdcard_root : List ℕ)
    (system : System W) (factory : Factory W) (boot : Boot W) (p : Protocol) (can : CanDevice W)
    (services : Services (List ℕ) W) where
  -- `if (locale == NULL) load_locale_from_cache();`
  unfoldable pub locale_or_cached : Option (List ℕ) → W → Option (Option (List ℕ) × W)
  locale_or_cached none w = load_locale_from_cache storage none w
  locale_or_cached (some locale) w = some (some locale, w)

  -- The card is tried twice.
  unfoldable pub wait_for_card : ℕ → W → W
  wait_for_card zero w = w
  wait_for_card (suc left) w =
      let (failed, w1) = system.mount_card w in
      let later = wait_for_card left w1 in if is_zero failed then w1 else later

  -- The path of an update, with `updatepath`.
  unfoldable pub set_update_path : Option (List ℕ) → Globals → W → Option (List ℕ) × Globals × W
  set_update_path none g w = (none, g, w)
  set_update_path (some path) g w =
      let (path', w') = update_path system path w in
      (some path', record g { updatepath = path' }, w')

  -- From the end of the options to the updates.
  unfoldable pub recover : ℕ → Bool → Settings → Progress → Globals → W → Option (Finished W)
  unfolding set_update_path
  recover fuel use_board_id s progress g w =
      let (auto, w1) = get_auto_sdcard_update_path system ex_sdcard_root w in
      let (package_path, g2, w2) = set_update_path s.update_package g w1 in
      let (rkimage_path, g3, w3) = set_update_path s.update_rkimage g2 w2 in
      run_updates h codes storage roots installers menu ex_sdcard_root system p can services fuel
        use_board_id auto
        (record s { update_package = package_path; update_rkimage = rkimage_path }) progress g3 w3

  -- What is behind the mounts: the factory's run, or the updates.
  unfoldable pub choose_run : ℕ → Bool → Settings → Progress → Globals → W → Option (Ended W)
  unfolding recover
  choose_run fuel use_board_id s progress g w =
      let from_card =
        sdtool_main h codes storage roots installers menu ex_sdcard_root system factory fuel
          s.factory_mode g w in
      let recovered = recover fuel use_board_id s progress g w in
      if boot.check_sdboot w || s.factory_mode_en
      then from_card >>= (λ r. some (by_sdtool r))
      else recovered >>= (λ r. some (by_recovery r))

  -- The options, the locale and the mounts.
  unfoldable pub prepared : Globals → Started W → Option (Settings × Globals × W)
  unfolding locale_or_cached wait_for_card
  prepared g started = do
    let given = record no_settings { locale = g.locale; stage = started.stage }
    let s = get_options none started.arguments.args given
    (locale, w1) ← locale_or_cached s.locale started.world
    let (offset, w2) = sure_mount storage roots cache_root g.tmplog_offset w1
    let (offset', w3) = sure_mount storage roots metadata_root offset w2
    some (s, record g { locale = locale; tmplog_offset = offset' }, wait_for_card 2 w3)

  unfoldable pub recovery_main : ℕ → Bool → Arguments → Progress → Globals → W → Option (Ended W)
  unfolding prepared choose_run is_adbd
  recovery_main fuel use_board_id a progress g w =
      let (_, w1) = roots.ensure_path_mounted cache_root w in
      let run = get_args h storage a (rotate_last_logs boot.rename 10 w1) >>= (λ started.
        prepared g started >>= (λ (s, g', w'). choose_run fuel use_board_id s progress g' w')) in
      if is_adbd a.args then some (by_adbd (boot.adb_main w)) else run
