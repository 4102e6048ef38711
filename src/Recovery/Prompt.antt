-- ===== src/Recovery/Prompt.antt =====
-- recovery.cpp: prompt_and_wait, the menu that follows an update that did not succeed.
pub mod Kept
use ota_backup.Base.{
  ℕ, zero, suc, List, [], ◌∷◌, ◌++◌, Bool, true, false, ◌==◌, not, ◌&&◌, if◌then◌else◌, Option,
  none, some, ℤ, is_negative, int_equal,
}
use ota_backup.Recovery.Text.{◌>>=◌, strlcpy}
use ota_backup.Recovery.Storage.{BootHeader, Storage, zero_message}
use ota_backup.Recovery.Args.{set_recovery_message}
use ota_backup.Recovery.Finish.{Globals, Finished, copy_logs, finish_recovery}
use ota_backup.Recovery.Erase.{Volume, cache_root, data_root, Roots, erase_volume}

-- The results of an installation, from install.h.
pub record InstallCodes : Type 0 where
  pub install_success : ℤ
  pub install_error : ℤ
  pub install_corrupt : ℤ
  pub install_none : ℤ

-- The actions of Device that the menu offers; `no_action` stands for all others.
pub data Action : Type 0 where
  reboot wipe_data_item wipe_cache_item apply_ext recover_system apply_int_rkimg apply_cache :
      Action
  apply_adb_sideload no_action : Action

-- The partitions of the user's data and of their backup.
pub data Partition : Type 0 where
  userdata databk : Partition

-- `install_package` with its `wipe_cache` before and after, and `install_rkimage`; `WipeData` of the device; the calls
-- on the partitions, by their device index, and those of the sparse library (true: not NULL, and not
-- negative for a device that opens).
pub record Installers (W : Type 0) : Type 0 where
  pub install_package : List ℕ → Bool → W → ℤ × Bool × W
  pub install_rkimage : List ℕ → W → ℤ × W
  pub device_wipe_data : W → ℤ × W
  pub mtd_scan_partitions : W → ℤ × W
  pub mtd_find_partition_by_name : Partition → W → Option ℕ
  pub open_output : ℕ → W → Bool × W
  pub open_input : ℕ → W → Bool × W
  pub sparse_file_import : ℕ → W → Bool × W
  pub sparse_file_write : ℕ → W → ℤ × W

-- The screen and what is chosen on it: `get_menu_selection` with `InvokeMenuItem`, the item of the
-- question of wipe_data, `IsTextVisible`, `update_directory` on the card or on /cache with the
-- `wipe_cache` that it leaves, `apply_from_adb` and `recover_backup`.
pub record Menu (W : Type 0) : Type 0 where
  pub choose : W → Action × W
  pub confirm_item : W → ℕ × W
  pub is_text_visible : W → Bool
  pub update_card : W → ℤ × Bool × W
  pub update_cache : W → ℤ × Bool × W
  pub apply_from_adb : W → ℤ × Bool × W
  pub recover_backup : W → W

-- What a turn of the loop leaves: whether the menu is left, `status`, and the state.
pub record Turned (W : Type 0) : Type 0 where
  pub leaves : Bool
  pub status : ℤ
  pub globals : Globals
  pub world : W

-- "/update.img"
abbrev pub update_img : List ℕ
update_img = 47 ∷ 117 ∷ 112 ∷ 100 ∷ 97 ∷ 116 ∷ 101 ∷ 46 ∷ 105 ∷ 109 ∷ 103 ∷ []

module _ (h : BootHeader) (codes : InstallCodes) {W : Type 0} (storage : Storage W)
    (roots : Roots W) (installers : Installers W) (menu : Menu W) (ex_sdcard_root : List ℕ) where
  -- erase_volume on the state of the program.
  unfoldable pub erase : Volume → Globals → W → ℤ × Globals × W
  erase volume g w =
      let (result, offset, w') = erase_volume storage roots volume g.tmplog_offset w in
      (result, record g { tmplog_offset = offset }, w')

  -- `wipe_data`: only the seventh item means yes.
  unfoldable pub wipe_data : Bool → Globals → W → Globals × W
  unfolding erase
  wipe_data confirm g w =
      let (chosen_item, w1) = menu.confirm_item w in
      let w2 = if confirm then w1 else w in
      let (_, w3) = installers.device_wipe_data w2 in
      let (_, g4, w4) = erase data_root g w3 in
      let (_, g5, w5) = erase cache_root g4 w4 in
      if not confirm then (g5, w5) else if chosen_item == 7 then (g5, w5) else (g, w1)

  -- The end of an installation from the card or from /cache.
  unfoldable pub installed : ℤ × Bool × W → Globals → Turned W
  unfolding erase
  installed (status, wipe_cache, w) g =
      let (_, g', w') = erase cache_root g w in
      let succeeded = int_equal status codes.install_success in
      let wiped : Globals × W =
        if succeeded then (if wipe_cache then (g', w') else (g, w)) else (g, w) in
      record {
        leaves = not (is_negative status) && succeeded && not (menu.is_text_visible wiped.1);
        status = status;
        globals = wiped.0;
        world = wiped.1;
      }

  -- `apply_from_adb` and what follows it.
  unfoldable pub sideloaded : ℤ × Bool × W → Globals → Turned W
  sideloaded (status, _, w) g =
      let (offset, w') = copy_logs storage g.tmplog_offset w in
      let succeeded = int_equal status codes.install_success in
      let failed = not (is_negative status) && not succeeded in
      record {
        leaves = not (is_negative status) && succeeded && not (menu.is_text_visible w);
        status = status;
        globals = if failed then record g { tmplog_offset = offset } else g;
        world = if failed then w' else w;
      }

  -- The switch over the chosen item.
  unfoldable pub act : Action → ℤ → Globals → W → Turned W
  unfolding erase wipe_data installed sideloaded
  act reboot status g w = record { leaves = true; status = status; globals = g; world = w }
  act wipe_data_item status g w =
      let (g', w') = wipe_data (menu.is_text_visible w) g w in
      record { leaves = not (menu.is_text_visible w'); status = status; globals = g'; world = w' }
  act wipe_cache_item status g w =
      let (_, g', w') = erase cache_root g w in
      record { leaves = not (menu.is_text_visible w'); status = status; globals = g'; world = w' }
  act apply_ext status g w = installed (menu.update_card w) g
  act recover_system status g w = record {
    leaves = false;
    status = status;
    globals = g;
    world = menu.recover_backup w;
  }
  act apply_int_rkimg status g w =
      let (_, w') =
        installers.install_rkimage (ex_sdcard_root ++ update_img)
          (set_recovery_message h storage w) in
      record { leaves = not (menu.is_text_visible w'); status = status; globals = g; world = w' }
  act apply_cache status g w = installed (menu.update_cache w) g
  act apply_adb_sideload status g w = sideloaded (menu.apply_from_adb w) g
  act no_action status g w = record { leaves = false; status = status; globals = g; world = w }

  -- The loop, which runs until the menu is left: `fuel` bounds its turns. `none`: out of fuel, or a file
  -- that finish_recovery needs did not open.
  unfoldable pub prompt_and_wait : ℕ → ℤ → Globals → W → Option (Globals × W)
  unfolding act
  prompt_and_wait zero status g w = none
  prompt_and_wait (suc fuel) status g w = finish_recovery storage none g w >>= (λ r.
      let (action, w1) = menu.choose r.world in
      let t : Turned W = act action status r.globals w1 in
      let rest = prompt_and_wait fuel t.status t.globals t.world in
      if t.leaves then some (t.globals, t.world) else rest)
