-- ===== src/RobotUpdate/Session/Upgraded.antt =====
-- What the results of `upgrade` and of `robotSubSysUpdate` say.
use ota_backup.Base.{
  ℕ, ◌≡◌, inl, inr, ◌∙◌, refl, sym, List, [], ◌∷◌, true, Bool-cases, ℤ, pos, minus_one, is_zero,
  eq_of_is_zero, Option, none, some, All,
}
use ota_backup.Image.Element.{IsSized}
use ota_backup.RobotUpdate.Transport.{CanDevice, GivesPackets, Protocol}
use ota_backup.RobotUpdate.Request.{start_request, end_request, send_start_flag, send_end_flag}
use ota_backup.RobotUpdate.Request.Completed.{
  plain, Completed, send_start_flag-Completed, send_end_flag-Completed,
}
use ota_backup.RobotUpdate.Firmware.{Progress, Outcome, send_firmware}
use ota_backup.RobotUpdate.Firmware.Delivered.{
  Delivered, if_done-Continued, send_firmware-Delivered,
}
use ota_backup.RobotUpdate.Session.{
  Loaded, Services, UpgradeModule, whatever, addr_bytes, end_upgrade, upgrade_loaded, upgrade,
  upgrade_all, all_enter_upgrade_mode, all_exit_upgrade_mode, robot_sub_sys_update,
}

module _ {W : Type 0} (can : CanDevice W) (gives : GivesPackets can) (p : Protocol) (m : ℕ) where
  -- A board that was told to start, was given the image and was told that this was the end.
  pub record Upgraded (image : Loaded) (w w' : W) : Type 0 where
    pub started : W
    pub filled : W
    pub start : Completed can (plain (start_request p m) ∷ []) w started
    pub delivered : Delivered can gives p m image.elements started filled
    pub finish : Completed can (plain (end_request p m) ∷ []) filled w'

  end_upgrade-Completed :
      (g g' : Progress) (w w' : W)
      → end_upgrade p can m g w ≡ some (pos 0, g', w')
      → Completed can (plain (end_request p m) ∷ []) w w'
  unfolding end_upgrade
  end_upgrade-Completed g g' w w' e = elim (Bool-cases (is_zero ended.0)) [
    | inl done ↦ settled (rw done at e) (send_end_flag-Completed can gives p m w done)
    | inr bad ↦ absurd (stopped (rw bad at e))
  ]
    where
      ended : ℤ × W
      ended = send_end_flag p m can w

      settled :
          ◌≡◌ {A = Outcome W} (some (pos 0, g, ended.1)) (some (pos 0, g', w'))
          → Completed can (plain (end_request p m) ∷ []) w ended.1
          → Completed can (plain (end_request p m) ∷ []) w w'
      settled e c = rw (sym same) c
        where
          same : ended.1 ≡ w'
          same = cc

      stopped : ◌≡◌ {A = Outcome W} (some (minus_one, g, ended.1)) (some (pos 0, g', w')) → ⊥
      stopped e = cc

  upgrade_loaded-Upgraded :
      (image : Loaded) (g g' : Progress) (w w' : W)
      → All IsSized image.elements
      → upgrade_loaded p can m (some image) g w ≡ some (pos 0, g', w')
      → Upgraded image w w'
  unfolding upgrade_loaded
  upgrade_loaded-Upgraded image g g' w w' h e = elim (Bool-cases (is_zero begun.0)) [
    | inr bad ↦ absurd (stopped (rw bad at e))
    | inl done ↦
        (let c =
            if_done-Continued (send_firmware can p m image.elements image.data_size g begun.1)
              (end_upgrade p can m) (pos 0) g' w' (rw done at e) refl in
          record {
            started = begun.1;
            filled = c.world;
            start = send_start_flag-Completed can gives p m w done;
            delivered =
                send_firmware-Delivered can gives p m image.elements image.data_size g c.progress
                  begun.1 c.world h c.stepped;
            finish = end_upgrade-Completed c.progress g' c.world w' c.followed;
          })
  ]
    where
      begun : ℤ × W
      begun = send_start_flag p m can w

      stopped : ◌≡◌ {A = Outcome W} (some (minus_one, g, begun.1)) (some (pos 0, g', w')) → ⊥
      stopped e = cc

  upgrade_loaded-image :
      (loaded : Option Loaded) (g g' : Progress) (w w' : W)
      → upgrade_loaded p can m loaded g w ≡ some (pos 0, g', w')
      → ((image : Loaded) → loaded ≡ some image → All IsSized image.elements)
      → (image : Loaded) × (loaded ≡ some image) × Upgraded image w w'
  unfolding upgrade_loaded
  upgrade_loaded-image none g g' w w' e h = absurd (failed e)
    where
      failed : ◌≡◌ {A = Outcome W} (some (minus_one, g, w)) (some (pos 0, g', w')) → ⊥
      failed e = cc
  upgrade_loaded-image (some image) g g' w w' e h =
      (image, refl, upgrade_loaded-Upgraded image g g' w w' (h image refl) e)

  -- In a world whose reads give packets, an `upgrade` that returns 0 has loaded its file, and when the
  -- loader's elements are as long as they say, the board was told to start, was given the elements in
  -- order, each as its address and its bytes in pieces of at most 500 with a checksum that it found
  -- right, and was told that this was the end; it has answered every step.
  pub upgrade-Upgraded :
      {File : Type 0} (services : Services File W) (file : File) (g g' : Progress) (w w' : W)
      → upgrade p can services m file g w ≡ some (pos 0, g', w')
      → ((image : Loaded)
          → services.load_hex file (addr_bytes p m) ≡ some image
          → All IsSized image.elements)
      → (image : Loaded) × (services.load_hex file (addr_bytes p m) ≡ some image)
        × Upgraded image w w'
  unfolding upgrade
  upgrade-Upgraded services file g g' w w' e h =
      upgrade_loaded-image (services.load_hex file (addr_bytes p m)) g g' w w' e h

module _ {W : Type 0} (can : CanDevice W) (p : Protocol) {File : Type 0}
    (services : Services File W) where
  whatever_cases :
      (o : Outcome W) (rest : Progress → W → Outcome W) (x : ℤ × Progress × W)
      → whatever o rest ≡ some x
      → (g : Progress) × (w : W) × (rest g w ≡ some x)
  unfolding whatever
  whatever_cases none rest x e = absurd cc
  whatever_cases (some (r, g, w)) rest x e = (g, w, e)

  upgrade_all-result :
      (ms : List (UpgradeModule File)) (opened : ℤ) (close : W → W) (g g' : Progress) (w w' : W)
      (r : ℤ)
      → upgrade_all p can services ms (λ h v. some (opened, h, close v)) g w ≡ some (r, g', w')
      → (v : W) × (opened ≡ r) × (close v ≡ w')
  unfolding upgrade_all
  upgrade_all-result [] opened close g g' w w' r e = (w, same e, closed e)
    where
      same : ◌≡◌ {A = Outcome W} (some (opened, g, close w)) (some (r, g', w')) → opened ≡ r
      same e = cc

      closed : ◌≡◌ {A = Outcome W} (some (opened, g, close w)) (some (r, g', w')) → close w ≡ w'
      closed e = cc
  upgrade_all-result (m ∷ ms) opened close g g' w w' r e =
      let next =
        whatever_cases (upgrade p can services m.number m.file g w)
          (upgrade_all p can services ms (λ h v. some (opened, h, close v))) (r, g', w') e in
      upgrade_all-result ms opened close next.0 g' next.1 w' r next.2

  -- When the card is mounted and the CAN device opens, a `robotSubSysUpdate` that returns returns 0,
  -- whatever became of the boards' upgrades, and it has told every board to leave the upgrade mode and
  -- closed the device last.
  pub robot_sub_sys_update-result :
      (ms : List (UpgradeModule File)) (g g' : Progress) (w w' : W) (r : ℤ)
      → is_zero (services.ensure_path_mounted w).0 ≡ true
      → is_zero (services.open_can_device (services.ensure_path_mounted w).1).0 ≡ true
      → robot_sub_sys_update p can services ms g w ≡ some (r, g', w')
      → (v : W) × (r ≡ pos 0) × (services.close_can_device (all_exit_upgrade_mode p can v) ≡ w')
  unfolding robot_sub_sys_update
  robot_sub_sys_update-result ms g g' w w' r mounted opened e =
      let ended =
        upgrade_all-result ms (services.open_can_device (services.ensure_path_mounted w).1).0
          (λ v. services.close_can_device (all_exit_upgrade_mode p can v)) g g'
          (all_enter_upgrade_mode p can
            (services.open_can_device (services.ensure_path_mounted w).1).1).1
          w' r (rw (mounted, opened) at e) in
      (ended.0, sym ended.1 ∙ eq_of_is_zero _ opened, ended.2)
