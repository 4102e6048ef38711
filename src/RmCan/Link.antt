-- ===== src/RmCan/Link.antt =====
-- rmCAN.h, and what rmCAN.cpp takes from the layer below.
use ota_backup.Base.{ℕ, List, Bool, ℤ}
use ota_backup.Flexcan.Packet.{FlexcanPacket}
use ota_backup.Flexcan.Socket.{CanHeader, CanSocket}
use ota_backup.Flexcan.Frame.{flexcan_send}

-- `struct CANPACKET`; `bytes` is what `p_data` points to.
pub record CanPacket : Type 0 where
  pub priority : ℕ
  pub src_id : ℕ
  pub dst_id : ℕ
  pub bytes : List ℕ
  pub len : ℕ

-- Sending one flexcan packet, and whether `errno` is ENOBUFS.
pub record Link (W : Type 0) : Type 0 where
  pub send : FlexcanPacket → W → ℤ × W
  pub no_buffers : W → Bool

-- The link that rmCAN.cpp is built on: flexcan.cpp over a socket.
abbrev pub flexcan_link : {W : Type 0} → CanHeader → CanSocket W → (W → Bool) → Link W
flexcan_link h sock no_buffers = record { send = flexcan_send h sock; no_buffers = no_buffers }
