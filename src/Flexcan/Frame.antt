-- ===== src/Flexcan/Frame.antt =====
-- flexcan.cpp: one packet to one frame and back, over the socket.
pub mod RoundTrip
pub mod Errors
mod Examples
use ota_backup.Base.{
  ℕ, ◌+◌, ◌-◌, Bool, true, false, ◌∷◌, bit_and, bit_or, ◌==◌, ltb, not, if◌then◌else◌, ℤ, pos,
  minus_one, is_negative, is_zero, is_minus_one, ◌||◌, get_or, take, drop, zeros, memcpy,
}
use ota_backup.Flexcan.Socket.{CanFrame, CanHeader, CanSocket}
use ota_backup.Flexcan.Packet.{
  FlexcanPacket, base_id, data_to_sum, id_to_priority, id_to_s_module, id_to_d_module, id_to_sum,
  can_data_max_len, can_sub_packet_offset, can_sub_packet_size,
}

abbrev pub zero_frame : CanFrame
zero_frame = record { can_id = 0; can_dlc = 0; payload = zeros 8 }

-- `ret != sizeof(struct can_frame)`.
is_size : ℕ → ℤ → Bool
is_size n r = elim r [ pos m ↦ m == n | _ ↦ false ]

-- The fields of `packet` that a received frame gives; `packet` is as the caller left it.
pub parse_frame : CanHeader → CanFrame → FlexcanPacket → ℤ × FlexcanPacket
parse_frame h f packet =
    let ext_id = bit_and f.can_id h.eff_mask in
    let sum = id_to_sum ext_id in
    let p = record packet {
      priority = id_to_priority ext_id;
      s_id = id_to_s_module ext_id;
      d_id = id_to_d_module ext_id;
      sum = sum;
    } in
    if sum == 0
    then (
      pos 0,
      record p {
        bytes = memcpy p.bytes 0 f.payload f.can_dlc;
        len = f.can_dlc;
        packet_id = 0;
        packet_sn = 0;
      },
    )
    else if ltb f.can_dlc (can_sub_packet_offset + 1)
    then (minus_one, p)
    else (
      pos 0,
      record p {
        bytes =
            memcpy p.bytes 0 (drop can_sub_packet_offset f.payload)
              (f.can_dlc - can_sub_packet_offset);
        len = f.can_dlc - can_sub_packet_offset;
        packet_id = get_or f.payload 0 0;
        packet_sn = get_or f.payload 1 0;
      },
    )

module _ {W : Type 0} (h : CanHeader) (sock : CanSocket W) where
  -- `__flexcan_send`: the frame leaves as an extended frame.
  pub raw_send : CanFrame → W → ℤ × W
  raw_send f w =
      let id = bit_or (bit_and f.can_id h.eff_mask) h.eff_flag in
      let (ret, w') = sock.write (record f { can_id = id }) w in
      if is_minus_one ret then (minus_one, w') else (pos 0, w')

  -- `__flexcan_recv`.
  pub raw_recv : CanFrame → W → ℤ × CanFrame × W
  raw_recv f w =
      let (ret, f', w') = sock.read f w in
      if is_negative ret
      then (minus_one, f', w')
      else if not (is_size sock.frame_size ret)
      then (minus_one, f', w')
      else if not (bit_and f'.can_id h.err_flag == 0)
      then (minus_one, f', w')
      else (pos 0, f', w')

  -- The packet is passed by address and never NULL. `len` is unsigned, so `len <= 0` is `len == 0`.
  pub flexcan_send : FlexcanPacket → W → ℤ × W
  flexcan_send p w =
      if p.len == 0 || ltb can_data_max_len p.len
      then (minus_one, w)
      else if p.sum == 0
      then raw_send
          (record {
            can_id = base_id p;
            can_dlc = p.len;
            payload = memcpy (zeros 8) 0 p.bytes p.len;
          })
          w
      else if ltb can_sub_packet_size p.len
      then (minus_one, w)
      else raw_send
          (record {
            can_id = bit_or (base_id p) (data_to_sum p.sum);
            can_dlc = p.len + can_sub_packet_offset;
            payload =
                memcpy (p.packet_id ∷ p.packet_sn ∷ zeros 6) can_sub_packet_offset p.bytes p.len;
          })
          w

  pub flexcan_recv : FlexcanPacket → W → ℤ × FlexcanPacket × W
  flexcan_recv packet w =
      let (ret, f, w') = raw_recv zero_frame w in
      if not (is_zero ret)
      then (minus_one, packet, w')
      else if bit_and f.can_id h.eff_flag == 0
      then (minus_one, packet, w')
      else (let (ret', p) = parse_frame h f packet in (ret', p, w'))
