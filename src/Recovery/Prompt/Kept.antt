-- ===== src/Recovery/Prompt/Kept.antt =====
-- The menu keeps `bNeedClearMisc`.
use ota_backup.Base.{
  ℕ, zero, suc, ◌≡◌, refl, ◌∙◌, List, Bool, true, false, ◌==◌, ◌&&◌, not, if◌then◌else◌, Option,
  none, some, ℤ, int_equal, is_negative, inl, inr, Bool-cases,
}
use ota_backup.Recovery.Storage.{BootHeader, Storage}
use ota_backup.Recovery.Finish.{
  Globals, Finished, copy_logs, write_intent, write_locale, clear_misc, write_flag, leave,
  finish_recovery,
}
use ota_backup.Recovery.Finish.Steps.{
  OnSome, OnSome-any, OnSome-bind, OnSome-if, OnSome-map, finish_recovery-OnSome,
}
use ota_backup.Recovery.Erase.{Roots, cache_root}
use ota_backup.Recovery.Prompt.{
  InstallCodes, Action, Installers, Menu, Turned, erase, wipe_data, installed, sideloaded, act,
  prompt_and_wait, reboot, wipe_data_item, wipe_cache_item, apply_ext, recover_system,
  apply_int_rkimg, apply_cache, apply_adb_sideload, no_action,
}

module _ {W : Type 0} (storage : Storage W) where
  pub finish_recovery-misc :
      (send_intent : Option (List ℕ)) (g : Globals) (w : W)
      → OnSome {A = Finished W}
          (λ r. r.globals.need_clear_misc ≡ g.need_clear_misc)
          (finish_recovery storage send_intent g w)
  unfolding leave
  finish_recovery-misc send_intent g w =
      finish_recovery-OnSome storage (λ w1. Unit)
        (λ r. r.globals.need_clear_misc ≡ g.need_clear_misc) send_intent g w
        (OnSome-any (write_locale storage g.locale (write_intent storage send_intent w)))
        (λ w1 _.
          let (offset, w2) = copy_logs storage g.tmplog_offset w1 in
          let g' : Globals = record g { tmplog_offset = offset } in
          let flagged = write_flag storage g' (clear_misc storage g.need_clear_misc w2) in
          OnSome-map (λ w3. Unit)
            (λ w3. (leave storage g' w3).globals.need_clear_misc ≡ g.need_clear_misc) flagged
            (OnSome-any flagged) (λ w3 _. refl))

module _ (h : BootHeader) (codes : InstallCodes) {W : Type 0} (storage : Storage W)
    (roots : Roots W) (installers : Installers W) (menu : Menu W) (ex_sdcard_root : List ℕ) where
  wipe_data-misc :
      (confirm : Bool) (g : Globals) (w : W)
      → (wipe_data h codes storage roots installers menu ex_sdcard_root confirm g
          w).0.need_clear_misc
        ≡ g.need_clear_misc
  unfolding wipe_data erase
  wipe_data-misc false g w = refl
  wipe_data-misc true g w = elim (Bool-cases ((menu.confirm_item w).0 == 7)) [
    | inl wanted ↦ rw wanted refl
    | inr refused ↦ rw refused refl
  ]

  installed-misc :
      (status : ℤ) (wipe_cache : Bool) (w : W) (g : Globals)
      → (installed h codes storage roots installers menu ex_sdcard_root
          (status, wipe_cache, w)
          g).globals.need_clear_misc
        ≡ g.need_clear_misc
  unfolding installed erase
  installed-misc status wipe_cache w g =
      by_tests (int_equal status codes.install_success) wipe_cache
    where
      erased : ℤ × Globals × W
      erased = erase h codes storage roots installers menu ex_sdcard_root cache_root g w

      by_tests :
          (p q : Bool)
          → (let wiped : Globals × W =
                if p then (if q then (erased.1, erased.2) else (g, w)) else (g, w) in
              wiped.0.need_clear_misc ≡ g.need_clear_misc)
      by_tests true true = refl
      by_tests true false = refl
      by_tests false q = refl

  sideloaded-misc :
      (status : ℤ) (wipe_cache : Bool) (w : W) (g : Globals)
      → (sideloaded h codes storage roots installers menu ex_sdcard_root
          (status, wipe_cache, w)
          g).globals.need_clear_misc
        ≡ g.need_clear_misc
  unfolding sideloaded
  sideloaded-misc status wipe_cache w g =
      by_test (not (is_negative status) && not (int_equal status codes.install_success))
        (copy_logs storage g.tmplog_offset w).0
    where
      by_test :
          (p : Bool) (offset : ℕ)
          → (let g' : Globals = if p then record g { tmplog_offset = offset } else g in
              g'.need_clear_misc ≡ g.need_clear_misc)
      by_test true offset = refl
      by_test false offset = refl

  act-misc :
      (action : Action) (status : ℤ) (g : Globals) (w : W)
      → (act h codes storage roots installers menu ex_sdcard_root action status g
          w).globals.need_clear_misc
        ≡ g.need_clear_misc
  unfolding act erase
  act-misc reboot status g w = refl
  act-misc wipe_data_item status g w = wipe_data-misc (menu.is_text_visible w) g w
  act-misc wipe_cache_item status g w = refl
  act-misc apply_ext status g w =
      let (s, wipe_cache, w') = menu.update_card w in installed-misc s wipe_cache w' g
  act-misc recover_system status g w = refl
  act-misc apply_int_rkimg status g w = refl
  act-misc apply_cache status g w =
      let (s, wipe_cache, w') = menu.update_cache w in installed-misc s wipe_cache w' g
  act-misc apply_adb_sideload status g w =
      let (s, wipe_cache, w') = menu.apply_from_adb w in sideloaded-misc s wipe_cache w' g
  act-misc no_action status g w = refl

  pub prompt_and_wait-misc :
      (fuel : ℕ) (status : ℤ) (g : Globals) (w : W)
      → g.need_clear_misc ≡ true
      → OnSome {A = Globals × W}
          (λ r. r.0.need_clear_misc ≡ true)
          (prompt_and_wait h codes storage roots installers menu ex_sdcard_root fuel status g w)
  unfolding prompt_and_wait
  prompt_and_wait-misc zero status g w needed = tt
  prompt_and_wait-misc (suc fuel) status g w needed =
      OnSome-bind {A = Finished W} (λ r. r.globals.need_clear_misc ≡ g.need_clear_misc) Kept
        (finish_recovery storage none g w) next (finish_recovery-misc storage none g w)
        (λ r kept.
          let (action, w1) = menu.choose r.world in
          let t : Turned W =
            act h codes storage roots installers menu ex_sdcard_root action status r.globals w1 in
          let k = act-misc action status r.globals w1 ∙ kept ∙ needed in
          OnSome-if Kept t.leaves (some (t.globals, t.world))
            (prompt_and_wait h codes storage roots installers menu ex_sdcard_root fuel t.status
              t.globals t.world)
            k (prompt_and_wait-misc fuel t.status t.globals t.world k))
    where
      Kept : Globals × W → Type 0
      Kept r = r.0.need_clear_misc ≡ true

      next : Finished W → Option (Globals × W)
      next r =
          let (action, w1) = menu.choose r.world in
          let t : Turned W =
            act h codes storage roots installers menu ex_sdcard_root action status r.globals w1 in
          let rest =
            prompt_and_wait h codes storage roots installers menu ex_sdcard_root fuel t.status
              t.globals t.world in
          if t.leaves then some (t.globals, t.world) else rest
