-- ===== src/RobotUpdate/Session/Modes.antt =====
-- What the results of the calls that change or ask the boards' mode say.
use ota_backup.Base.{
  ℕ, suc, ◌≡◌, inl, inr, ap, List, [], ◌∷◌, true, Bool-cases, ◌&&◌, ◌==◌, ℤ, pos, minus_one,
  is_zero, is_positive, eq_of_is_zero, eq_of_is_positive, zeros, get_or, arith, if◌then◌else◌,
}
use ota_backup.RobotUpdate.Transport.{CanDevice, GivesPackets, Protocol}
use ota_backup.RobotUpdate.Request.Acknowledged.{request-Acknowledged}
use ota_backup.RobotUpdate.Request.Completed.{plain, Completed, completed_plain}
use ota_backup.RobotUpdate.Session.{
  enter_request, exit_request, enter_upgrade_mode, exit_upgrade_mode, is_upgrade_mode,
}

module _ {W : Type 0} (can : CanDevice W) (p : Protocol) where
  -- In a world whose reads give packets: when `enter_upgrade_mode` returns 0 the board has answered the
  -- request to enter the mode, and when `exit_upgrade_mode` returns 0 the one to leave it.
  pub upgrade_mode-Completed :
      (gives : GivesPackets can) (board : ℕ) (w : W)
      → (is_zero (enter_upgrade_mode p can board w).0 ≡ true
          → Completed can
              (plain (enter_request p board) ∷ [])
              w
              (enter_upgrade_mode p can board w).1)
        × (is_zero (exit_upgrade_mode p can board w).0 ≡ true
            → Completed can
                (plain (exit_request p board) ∷ [])
                w
                (exit_upgrade_mode p can board w).1)
  unfolding enter_upgrade_mode exit_upgrade_mode
  upgrade_mode-Completed gives board w = (
    λ e. completed_plain can (request-Acknowledged can gives (enter_request p board) w e),
    λ e. completed_plain can (request-Acknowledged can gives (exit_request p board) w e),
  )

  -- The state query was sent to the board and answered with the mode 0x0B.
  pub record InUpgradeMode (board : ℕ) (w w' : W) : Type 0 where
    pub between : W
    pub answer_len : ℕ
    pub answer : List ℕ
    pub sent : can.send p.rm_sysctrl_id board (24 ∷ 2 ∷ []) 2 w ≡ (pos 0, between)
    pub got : can.read board 25 (zeros 4) 4 1 between ≡ (pos (suc answer_len), answer, w')
    pub mode : get_or answer 2 0 ≡ 11

  -- When `is_upgrade_mode` returns 0, the state query was sent to the board and answered with the mode
  -- 0x0B in the third byte.
  pub is_upgrade_mode-InUpgradeMode :
      (board : ℕ) (w : W)
      → is_zero (is_upgrade_mode p can board w).0 ≡ true
      → InUpgradeMode board w (is_upgrade_mode p can board w).1
  unfolding is_upgrade_mode
  is_upgrade_mode-InUpgradeMode board w e = elim (Bool-cases (is_zero sending.0)) [
    | inr failed ↦ absurd (refused (rw failed at e))
    | inl done ↦ rw done (asked done (rw done at e))
  ]
    where
      sending : ℤ × W
      sending = can.send p.rm_sysctrl_id board (24 ∷ 2 ∷ []) 2 w

      reading : ℤ × List ℕ × W
      reading = can.read board 25 (zeros 4) 4 1 sending.1

      refused : is_zero minus_one ≡ true → ⊥
      refused e = cc

      asked :
          is_zero sending.0 ≡ true
          → is_zero
              (if is_positive reading.0 && get_or reading.1 2 0 == 11 then pos 0 else minus_one)
            ≡ true
          → InUpgradeMode board w reading.2
      asked done e = record {
        between = sending.1;
        answer_len = (eq_of_is_positive reading.0 some_packet).0;
        answer = reading.1;
        sent = ap (λ (r : ℤ). (r, sending.1)) (eq_of_is_zero sending.0 done);
        got = ap (λ (r : ℤ). (r, reading.1, reading.2)) (eq_of_is_positive reading.0 some_packet).1;
        mode = ground arith;
      }
        where
          some_packet : is_positive reading.0 ≡ true
          some_packet = ground arith
