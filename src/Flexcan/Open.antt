-- ===== src/Flexcan/Open.antt =====
-- flexcan.cpp: the socket is opened and closed.
pub mod Closing
use ota_backup.Base.{
  ℕ, Bool, true, false, if◌then◌else◌, not, ℤ, pos, minus_one, is_negative, is_positive, is_zero,
}

-- The system calls, in a world `W`: `socket` and `bind` with their results, the `ioctl` that asks for
-- the number of the interface, and `close`.
pub record SocketCalls (W : Type 0) : Type 0 where
  pub socket : W → ℤ × W
  pub ioctl : ℤ → W → ℤ × ℕ × W
  pub bind : ℤ → ℕ → W → ℤ × W
  pub close : ℤ → W → W

module _ {W : Type 0} (calls : SocketCalls W) where
  -- `flexcan_device_open`: the result and `sockfd`, which a failure behind `socket` leaves as it is.
  unfoldable pub flexcan_device_open : W → ℤ × ℤ × W
  flexcan_device_open w =
      let (sockfd, w1) = calls.socket w in
      let (failed, ifindex, w2) = calls.ioctl sockfd w1 in
      let (bound, w3) = calls.bind sockfd ifindex w2 in
      if is_negative sockfd
      then (minus_one, sockfd, w1)
      else if not (is_zero failed)
      then (minus_one, sockfd, calls.close sockfd w2)
      else if is_negative bound
      then (minus_one, sockfd, calls.close sockfd w3)
      else (sockfd, sockfd, w3)

  -- `flexcan_device_close`: the result and `sockfd`.
  unfoldable pub flexcan_device_close : ℤ → W → ℤ × ℤ × W
  flexcan_device_close sockfd w =
      if is_positive sockfd then (pos 0, minus_one, calls.close sockfd w) else (pos 0, sockfd, w)
