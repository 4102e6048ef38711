-- ===== src/Flexcan/Frame/Errors.antt =====
-- The packets that are refused, and what is known of every packet that is taken.
use ota_backup.Base.{ℕ, ◌<◌, ◌≤◌, ◌≡◌, ◌≢◌, ◌⊎◌, arith, ℤ, pos, minus_one, bit_and}
use ota_backup.Flexcan.Socket.{CanFrame, CanHeader, CanSocket}
use ota_backup.Flexcan.Packet.{FlexcanPacket}
use ota_backup.Flexcan.Packet.Ranges.{
  id_to_priority_lt, id_to_sum_lt, id_to_s_module_lt, id_to_d_module_lt,
}
use ota_backup.Flexcan.Frame.{zero_frame, raw_recv, flexcan_send, parse_frame, flexcan_recv}

-- The fields of a packet that was read.
pub record IsReceived (p : FlexcanPacket) : Type 0 where
  pub priority_lt : p.priority < 8
  pub s_id_lt : p.s_id < 256
  pub d_id_lt : p.d_id < 256
  pub sum_lt : p.sum < 256
  pub len_le : p.len ≤ 8
  pub part_pos : p.sum ≢ 0 → 0 < p.len
  pub part_len : p.sum ≢ 0 → p.len ≤ 6

abbrev Answers : ℤ × FlexcanPacket → Type 0
Answers (ret, p) = (ret ≡ minus_one) ⊎ ((ret ≡ pos 0) × IsReceived p)

parse_frame-Answers :
    (h : CanHeader) (f : CanFrame) (p : FlexcanPacket) → f.can_dlc ≤ 8 → Answers (parse_frame h f p)
unfolding parse_frame
parse_frame-Answers h f p dlc =
    let id : ℕ = bit_and f.can_id h.eff_mask in
    ground
      (arith, id_to_priority_lt id, id_to_sum_lt id, id_to_s_module_lt id, id_to_d_module_lt id)

module _ {W : Type 0} (h : CanHeader) (sock : CanSocket W) where
  -- Whatever the socket gives, if no frame claims more than its 8 bytes, `flexcan_recv` returns -1, or
  -- 0 and a packet whose fields fit, a part of a longer packet holding 1 to 6 bytes.
  pub flexcan_recv_answers :
      (p : FlexcanPacket) (w : W)
      → (sock.read zero_frame w).1.can_dlc ≤ 8
      → let (ret, q, w') = flexcan_recv h sock p w in
        (ret ≡ minus_one) ⊎ ((ret ≡ pos 0) × IsReceived q)
  unfolding flexcan_recv raw_recv
  flexcan_recv_answers p w dlc =
      ground (arith, parse_frame-Answers h (sock.read zero_frame w).1 p dlc)

  -- What does not fit a frame is refused before anything is written: no byte, more than 8, or more
  -- than 6 beside the two numbers of a part.
  pub flexcan_send_refuses :
      (p : FlexcanPacket) (w : W)
      → (p.len ≡ 0) ⊎ (8 < p.len) ⊎ ((p.sum ≢ 0) × (6 < p.len))
      → flexcan_send h sock p w ≡ (minus_one, w)
  unfolding flexcan_send
  flexcan_send_refuses p w bad = ground arith
