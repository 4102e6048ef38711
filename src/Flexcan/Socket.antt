-- ===== src/Flexcan/Socket.antt =====
-- What flexcan.cpp takes from the system: the constants of <linux/can.h> and the CAN socket.
use ota_backup.Base.{ℕ, List, ◌≡◌, ◌-◌, ◌^◌, ℤ}

-- `struct can_frame`: an identifier with its flags, a length and 8 bytes.
pub record CanFrame : Type 0 where
  pub can_id : ℕ
  pub can_dlc : ℕ
  pub payload : List ℕ

-- The macros that the code names. Their values are in no file of the repository.
pub record CanHeader : Type 0 where
  pub eff_flag : ℕ
  pub eff_mask : ℕ
  pub err_flag : ℕ

-- The documented values: an extended frame has a 29-bit identifier, and bit 31 says so.
pub record IsLinux (h : CanHeader) : Type 0 where
  pub eff_flag_value : h.eff_flag ≡ 2 ^ 31
  pub eff_mask_value : h.eff_mask ≡ 2 ^ 29 - 1
  pub err_flag_value : h.err_flag ≡ 2 ^ 29

-- The open socket in a world `W`: `write` and `read` of one frame with what they return, `read` with
-- the buffer as it leaves it, and `sizeof(struct can_frame)`.
pub record CanSocket (W : Type 0) : Type 0 where
  pub write : CanFrame → W → ℤ × W
  pub read : CanFrame → W → ℤ × CanFrame × W
  pub frame_size : ℕ
