-- ===== src/Recovery/Sdtool.antt =====
-- recovery.cpp: sdtool_main, the factory's run from the card.
use ota_backup.Base.{
  ℕ, List, [], ◌∷◌, ◌++◌, Bool, false, ◌==◌, ◌&&◌, ◌||◌, not, if◌then◌else◌, Option, none, some,
  is_zero, int_equal,
}
use ota_backup.Image.Path.{str_equal}
use ota_backup.Recovery.Text.{◌>>=◌}
use ota_backup.Recovery.Storage.{BootHeader, Storage}
use ota_backup.Recovery.Finish.{Globals, Finished, finish_recovery}
use ota_backup.Recovery.Erase.{Roots, sdcard_root}
use ota_backup.Recovery.Paths.{System}
use ota_backup.Recovery.Config.{SdBootConfigs, sd_boot_configs, parse_sd_boot_config}
use ota_backup.Recovery.Prompt.{InstallCodes, Installers, Menu, erase, prompt_and_wait}
use ota_backup.Recovery.Main.{Performed, clone_or_erase}

-- What it calls besides: the configuration file of the card (none: it does not open), the test program
-- with its exit code (none: it was ended by a signal), the copy of the demo files, and the global
-- `bIfUpdateLoader`, which the installation sets.
pub record Factory (W : Type 0) : Type 0 where
  pub sd_boot_config : W → Option (List ℕ)
  pub pcba_core : W → Option ℕ × W
  pub copy_demo_files : W → W
  pub is_loader_updated : W → Bool

-- "1", "small" and "/sdupdate.img"
abbrev pub one_word : List ℕ
one_word = 49 ∷ []

abbrev pub small_word : List ℕ
small_word = 115 ∷ 109 ∷ 97 ∷ 108 ∷ 108 ∷ []

abbrev pub sdupdate_img : List ℕ
sdupdate_img = 47 ∷ 115 ∷ 100 ∷ 117 ∷ 112 ∷ 100 ∷ 97 ∷ 116 ∷ 101 ∷ 46 ∷ 105 ∷ 109 ∷ 103 ∷ []

-- `pcbaTestPass`: the program exited with 0.
unfoldable pub is_passed : Option ℕ → Bool
is_passed none = false
is_passed (some code) = code == 0

-- `factory_mode != NULL && !strcmp(factory_mode, "small")`
unfoldable pub is_small : Option (List ℕ) → Bool
is_small none = false
is_small (some mode) = str_equal mode small_word

module _ (h : BootHeader) (codes : InstallCodes) {W : Type 0} (storage : Storage W)
    (roots : Roots W) (installers : Installers W) (menu : Menu W) (ex_sdcard_root : List ℕ)
    (system : System W) (factory : Factory W) where
  -- The demo files, when the card of the user can be mounted.
  unfoldable pub copy_demo_if : Bool → Performed W → Performed W
  copy_demo_if wanted r =
      let (failed, w) = roots.ensure_path_mounted sdcard_root r.world in
      let copied = if is_zero failed then factory.copy_demo_files w else w in
      if wanted then record r { world = copied } else r

  -- The wipes, the installation and the demo files, behind a test that passed.
  unfoldable pub factory_update : SdBootConfigs → Globals → W → Performed W
  unfolding copy_demo_if
  factory_update c g w =
      let (_, g1, w1) =
        erase h codes storage roots installers menu ex_sdcard_root sdcard_root g w in
      let r =
        clone_or_erase h codes storage roots installers menu ex_sdcard_root system
          codes.install_success g1 w1 in
      let (status, w2) = installers.install_rkimage (ex_sdcard_root ++ sdupdate_img) r.world in
      let installed : Performed W = record r { status = status; world = w2 } in
      let wants_demo = str_equal c.demo_copy one_word in
      if not (str_equal c.fw_update one_word)
      then copy_demo_if wants_demo r
      else if int_equal status codes.install_success
      then copy_demo_if wants_demo installed
      else installed

  -- The test, and what follows it.
  unfoldable pub factory_run : SdBootConfigs → Globals → W → Performed W
  unfolding factory_update is_passed
  factory_run c g w =
      let (code, w1) = factory.pcba_core w in
      let tests = str_equal c.pcba_test one_word in
      let w2 = if tests then w1 else w in
      if tests && not (is_passed code)
      then record { status = codes.install_error; globals = g; world = w1 }
      else factory_update c g w2

  -- The label `finish`: `bNeedClearMisc` goes off when the run failed, and for a small firmware or a new
  -- loader, so that the message stays.
  unfoldable pub factory_finish : ℕ → Option (List ℕ) → Performed W → Option (Finished W)
  unfolding is_small
  factory_finish fuel factory_mode r =
      let keeps = is_small factory_mode || factory.is_loader_updated r.world in
      let off : Globals = record r.globals { need_clear_misc = false } in
      let prompted =
        prompt_and_wait h codes storage roots installers menu ex_sdcard_root fuel r.status off
          r.world in
      let failed = prompted >>= (λ (g, w). finish_recovery storage none g w) in
      if int_equal r.status codes.install_success
      then finish_recovery storage none (if keeps then off else r.globals) r.world
      else failed

  unfoldable pub sdtool_main : ℕ → Option (List ℕ) → Globals → W → Option (Finished W)
  unfolding factory_run factory_finish
  sdtool_main fuel factory_mode g w =
      let (_, w1) = roots.ensure_path_mounted sdcard_root w in
      parse_sd_boot_config (factory.sd_boot_config w1) sd_boot_configs
      >>= (λ c. factory_finish fuel factory_mode (factory_run c g w1))
