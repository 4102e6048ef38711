-- ===== src/Flexcan/Open/Closing.antt =====
-- What opening leaves to be closed.
use ota_backup.Base.{
  ◌≡◌, ◌⊎◌, refl, arith, true, false, ℤ, pos, minus_one, is_negative, is_positive,
}
use ota_backup.Flexcan.Open.{SocketCalls, flexcan_device_open, flexcan_device_close}

module _ {W : Type 0} (calls : SocketCalls W) where
  -- The result of opening is -1, or it is the socket that is kept, and not negative.
  pub flexcan_device_open_answers :
      (w : W)
      → ((flexcan_device_open calls w).0 ≡ minus_one)
        ⊎ (((flexcan_device_open calls w).0 ≡ (flexcan_device_open calls w).1)
            × (is_negative (flexcan_device_open calls w).0 ≡ false))
  unfolding flexcan_device_open
  flexcan_device_open_answers w = ground arith

  pub flexcan_device_close_positive :
      (sockfd : ℤ) (w : W)
      → is_positive sockfd ≡ true
      → flexcan_device_close calls sockfd w ≡ (pos 0, minus_one, calls.close sockfd w)
  unfolding flexcan_device_close
  flexcan_device_close_positive sockfd w h = rw h refl
