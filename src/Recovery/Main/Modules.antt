-- ===== src/Recovery/Main/Modules.antt =====
-- The modules of a board update.
use ota_backup.Base.{
  ℕ, ◌+◌, ◌≤◌, ◌≡◌, refl, arith, List, ◌++◌, Option, none, some, length, length-append, ◌*◌,
}
use ota_backup.RobotUpdate.Transport.{Protocol}
use ota_backup.RobotUpdate.Session.{UpgradeModule}
use ota_backup.Recovery.Options.{Settings}
use ota_backup.Recovery.Main.{module_of, modules_of}

-- How many modules an option adds.
abbrev pub times : Option (List ℕ) → ℕ → ℕ
times none n = 0
times (some file) n = n

module_of-length : (n : ℕ) (o : Option (List ℕ)) → length (module_of n o) ≡ times o 1
unfolding module_of
module_of-length n none = refl
module_of-length n (some file) = refl

times-bound : (o : Option (List ℕ)) → (times o 1 ≤ 1) × (times o 3 ≡ 3 * times o 1)
times-bound none = (omega arith, omega arith)
times-bound (some file) = (omega arith, omega arith)

-- The modules fit the array of six: there is one for each of the boards rc, rp and rf with a file and
-- three for the file of rb, and none exactly when no board has a file.
pub modules_of-length :
    (p : Protocol) (s : Settings)
    → (length (modules_of p s)
        ≡ times s.update_rc 1 + times s.update_rp 1 + times s.update_rf 1 + times s.update_rb 3)
      × (length (modules_of p s) ≤ 6)
unfolding modules_of
modules_of-length p s = (total, omega (arith, total, at_most))
  where
    rc : List (UpgradeModule (List ℕ))
    rc = module_of p.rc_upgrade_id s.update_rc

    rp : List (UpgradeModule (List ℕ))
    rp = module_of p.rp_upgrade_id s.update_rp

    rf : List (UpgradeModule (List ℕ))
    rf = module_of p.rf_upgrade_id s.update_rf

    l_arm : List (UpgradeModule (List ℕ))
    l_arm = module_of p.rb_l_arm_upgrade_id s.update_rb

    r_arm : List (UpgradeModule (List ℕ))
    r_arm = module_of p.rb_r_arm_upgrade_id s.update_rb

    body : List (UpgradeModule (List ℕ))
    body = module_of p.rb_body_upgrade_id s.update_rb

    total :
        length (rc ++ (rp ++ (rf ++ (l_arm ++ (r_arm ++ body)))))
        ≡ times s.update_rc 1 + times s.update_rp 1 + times s.update_rf 1 + times s.update_rb 3
    total = omega (
      arith,
      length-append rc (rp ++ (rf ++ (l_arm ++ (r_arm ++ body)))),
      length-append rp (rf ++ (l_arm ++ (r_arm ++ body))),
      length-append rf (l_arm ++ (r_arm ++ body)),
      length-append l_arm (r_arm ++ body),
      length-append r_arm body,
      module_of-length p.rc_upgrade_id s.update_rc,
      module_of-length p.rp_upgrade_id s.update_rp,
      module_of-length p.rf_upgrade_id s.update_rf,
      module_of-length p.rb_l_arm_upgrade_id s.update_rb,
      module_of-length p.rb_r_arm_upgrade_id s.update_rb,
      module_of-length p.rb_body_upgrade_id s.update_rb,
      (times-bound s.update_rb).1,
    )

    at_most :
        times s.update_rc 1 + times s.update_rp 1 + times s.update_rf 1 + times s.update_rb 3 ≤ 6
    at_most = omega (
      arith,
      (times-bound s.update_rc).0,
      (times-bound s.update_rp).0,
      (times-bound s.update_rf).0,
      (times-bound s.update_rb).0,
      (times-bound s.update_rb).1,
    )
