-- ===== src/Recovery/Main/Keeps.antt =====
-- No installation changes `bNeedClearMisc`.
use ota_backup.Base.{
  ℕ, ◌≡◌, refl, ◌∙◌, List, Bool, true, false, ◌&&◌, if◌then◌else◌, Option, none, some, ℤ, is_zero,
  int_equal, inl, inr, Bool-cases,
}
use ota_backup.Recovery.Storage.{BootHeader, Storage}
use ota_backup.Recovery.Finish.{Globals}
use ota_backup.Recovery.Erase.{Volume, Roots, cache_root, sdcard_root}
use ota_backup.Recovery.Options.{Settings}
use ota_backup.Recovery.Clone.{clone_data_if_exist}
use ota_backup.Recovery.Paths.{System}
use ota_backup.Recovery.Prompt.{InstallCodes, Installers, Menu, erase}
use ota_backup.Recovery.Main.{
  Performed, erase_on, perform_package, perform_rkimage, perform_card, clone_or_erase, erase_if,
  resize_if, error_unless_zero, perform_wipe, perform_wipe_cache, perform_rest, perform,
}

-- Two states that need the same.
pub pick-misc :
    {v : Bool} (b : Bool) (x y : Globals)
    → x.need_clear_misc ≡ v
    → y.need_clear_misc ≡ v
    → (if b then x else y).need_clear_misc ≡ v
pick-misc true x y h k = h
pick-misc false x y h k = k

module _ (h : BootHeader) (codes : InstallCodes) {W : Type 0} (storage : Storage W)
    (roots : Roots W) (installers : Installers W) (menu : Menu W) (ex_sdcard_root : List ℕ)
    (system : System W) where
  abbrev pub Keeps : Globals → Performed W → Type 0
  Keeps g r = r.globals.need_clear_misc ≡ g.need_clear_misc

  perform_package-Keeps :
      (path : List ℕ) (wipe_cache : Bool) (g : Globals) (w : W)
      → Keeps g (
          perform_package h codes storage roots installers menu ex_sdcard_root system path
            wipe_cache g w)
  unfolding perform_package erase_on erase
  perform_package-Keeps path wipe_cache g w =
      by_tests (int_equal installed.0 codes.install_success) installed.1
    where
      installed : ℤ × Bool × W
      installed = installers.install_package path wipe_cache w

      erased : ℤ × Globals × W
      erased =
          erase_on h codes storage roots installers menu ex_sdcard_root system cache_root g
            installed.2

      by_tests :
          (p q : Bool)
          → (let wiped : Globals × W = if q then (erased.1, erased.2) else (g, installed.2) in
              Keeps g (
                if p
                then record {
                  status = installed.0;
                  globals = record wiped.0 { auto_update_complete = true };
                  world = wiped.1;
                }
                else record { status = installed.0; globals = g; world = installed.2 }))
      by_tests true true = refl
      by_tests true false = refl
      by_tests false q = refl

  perform_rkimage-Keeps :
      (path : List ℕ) (g : Globals) (w : W)
      → Keeps g
          (perform_rkimage h codes storage roots installers menu ex_sdcard_root system path g w)
  unfolding perform_rkimage
  perform_rkimage-Keeps path g w =
      pick-misc (int_equal (installers.install_rkimage path w).0 codes.install_success)
        (record g { auto_update_complete = true }) g refl refl

  perform_card-Keeps :
      (path : List ℕ) (wipe_cache : Bool) (g : Globals) (w : W)
      → Keeps g (
          perform_card h codes storage roots installers menu ex_sdcard_root system path wipe_cache g
            w)
  unfolding perform_card erase_on erase
  perform_card-Keeps path wipe_cache g w =
      let (status, w1) = installers.install_rkimage path w in
      let (_, g2, w2) =
        erase_on h codes storage roots installers menu ex_sdcard_root system cache_root g w1 in
      pick-misc (int_equal status codes.install_success && wipe_cache) g2 g refl refl

  clone_or_erase-Keeps :
      (status : ℤ) (g : Globals) (w : W)
      → Keeps g
          (clone_or_erase h codes storage roots installers menu ex_sdcard_root system status g w)
  unfolding clone_or_erase erase_on erase
  clone_or_erase-Keeps status g w =
      elim (Bool-cases (is_zero (clone_data_if_exist installers w).0)) [
        | inl cloned ↦ rw cloned refl
        | inr failed ↦ rw failed refl
      ]

  erase_if-Keeps :
      (wipes : Bool) (volume : Volume) (r : Performed W)
      → Keeps r.globals
          (erase_if h codes storage roots installers menu ex_sdcard_root system wipes volume r)
  unfolding erase_if erase_on erase
  erase_if-Keeps true volume r = refl
  erase_if-Keeps false volume r = refl

  resize_if-Keeps :
      (use_board_id wipe_all : Bool) (r : Performed W)
      → Keeps r.globals (
          resize_if h codes storage roots installers menu ex_sdcard_root system use_board_id
            wipe_all r)
  unfolding resize_if
  resize_if-Keeps use_board_id false r = refl
  resize_if-Keeps true true r = refl
  resize_if-Keeps false true r = refl

  perform_wipe-Keeps :
      (use_board_id wipe_cache wipe_all : Bool) (g : Globals) (w : W)
      → Keeps g (
          perform_wipe h codes storage roots installers menu ex_sdcard_root system use_board_id
            wipe_cache wipe_all g w)
  unfolding perform_wipe
  perform_wipe-Keeps use_board_id wipe_cache wipe_all g w =
      let (device, w1) = installers.device_wipe_data w in
      let status =
        error_unless_zero h codes storage roots installers menu ex_sdcard_root system device
          codes.install_success in
      let r1 =
        clone_or_erase h codes storage roots installers menu ex_sdcard_root system status g w1 in
      let r2 =
        erase_if h codes storage roots installers menu ex_sdcard_root system wipe_cache cache_root
          r1 in
      let r3 =
        resize_if h codes storage roots installers menu ex_sdcard_root system use_board_id wipe_all
          r2 in
      erase_if-Keeps wipe_all sdcard_root r3
      ∙ resize_if-Keeps use_board_id wipe_all r2
      ∙ erase_if-Keeps wipe_cache cache_root r1
      ∙ clone_or_erase-Keeps status g w1

  perform_rest-Keeps :
      (use_board_id : Bool) (s : Settings) (g : Globals) (w : W)
      → Keeps g (
          perform_rest h codes storage roots installers menu ex_sdcard_root system use_board_id s g
            w)
  unfolding perform_rest perform_wipe_cache erase_on erase
  perform_rest-Keeps use_board_id s g w = by_wipes s.wipe_data s.wipe_cache
    where
      nothing : Performed W
      nothing = record {
        status = if s.just_exit then codes.install_success else codes.install_none;
        globals = g;
        world = w;
      }

      by_wipes :
          (d c : Bool)
          → Keeps g (
              if d
              then perform_wipe h codes storage roots installers menu ex_sdcard_root system
                  use_board_id s.wipe_cache s.wipe_all g w
              else if c
              then perform_wipe_cache h codes storage roots installers menu ex_sdcard_root system g
                  w
              else nothing)
      by_wipes true c = perform_wipe-Keeps use_board_id s.wipe_cache s.wipe_all g w
      by_wipes false true = refl
      by_wipes false false = refl

  pub perform-Keeps :
      (use_board_id : Bool) (auto : Option (List ℕ)) (s : Settings) (g : Globals) (w : W)
      → Keeps g (
          perform h codes storage roots installers menu ex_sdcard_root system use_board_id auto s g
            w)
  unfolding perform
  perform-Keeps use_board_id auto s g w = by_paths s.update_package s.update_rkimage auto
    where
      install : List ℕ → Performed W
      install path =
          perform_package h codes storage roots installers menu ex_sdcard_root system path
            s.wipe_cache g w

      rkimage : List ℕ → Performed W
      rkimage path =
          perform_rkimage h codes storage roots installers menu ex_sdcard_root system path g w

      card : List ℕ → Performed W
      card path =
          perform_card h codes storage roots installers menu ex_sdcard_root system path s.wipe_cache
            g w

      rest : Performed W
      rest =
          perform_rest h codes storage roots installers menu ex_sdcard_root system use_board_id s g
            w

      chain : Option (List ℕ) → Option (List ℕ) → Option (List ℕ) → Performed W
      chain p i c = elim p [
        | some path ↦ install path
        | none ↦ elim i [
          | some path ↦ rkimage path
          | none ↦ elim c [ some path ↦ card path | none ↦ rest ]
        ]
      ]

      by_paths : (p i c : Option (List ℕ)) → Keeps g (chain p i c)
      by_paths (some path) i c = perform_package-Keeps path s.wipe_cache g w
      by_paths none (some path) c = perform_rkimage-Keeps path g w
      by_paths none none (some path) = perform_card-Keeps path s.wipe_cache g w
      by_paths none none none = perform_rest-Keeps use_board_id s g w
