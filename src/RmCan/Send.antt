-- ===== src/RmCan/Send.antt =====
-- rmCAN.cpp, the sending side: a message in one packet, or cut into numbered parts.
pub mod Parts
pub mod Valid
pub mod Overflow
use ota_backup.Base.{
  ℕ, zero, suc, ◌+◌, ◌-◌, ◌*◌, ◌/◌, ◌%◌, ◌^◌, List, Bool, true, false, ◌&&◌, ◌==◌, leb, not,
  if◌then◌else◌, Option, none, some, ℤ, pos, minus_one, is_zero, is_negative, drop, zeros, memcpy,
}
use ota_backup.Flexcan.Packet.{FlexcanPacket, can_data_max_len, can_sub_packet_size, u8}
use ota_backup.RmCan.Link.{CanPacket, Link}

-- `struct flexcan_packet can_data` with the common fields of the message.
unfoldable pub common_data : CanPacket → FlexcanPacket
common_data m = record {
  packet_id = 0;
  priority = m.priority;
  s_id = m.src_id;
  d_id = m.dst_id;
  bytes = zeros 8;
  len = 0;
  packet_sn = 0;
  sum = 0;
}

-- `uint8_t num`: the parts of a message of `len` bytes.
pub part_count : ℕ → ℕ
part_count len = u8 (
    if len % can_sub_packet_size == 0
    then len / can_sub_packet_size
    else len / can_sub_packet_size + 1)

-- `uint32_t left`: what the last of `num` parts holds.
pub last_len : ℕ → ℕ → ℕ
last_len len num = (len + 2 ^ 32 + can_sub_packet_size - num * can_sub_packet_size) % 2 ^ 32

-- `if (ret != 0) goto send_err;` behind a call that may also run out of fuel.
pub if_sent : {W : Type 0} → Option (ℤ × W) → (ℤ → W → Option (ℤ × W)) → Option (ℤ × W)
if_sent none rest = none
if_sent (some (ret, w)) rest = let next = rest ret w in if is_zero ret then next else some (ret, w)

module _ {W : Type 0} (link : Link W) where
  -- `_sendToCan`: again after 3 ms while the device has no buffers. `none`: the fuel ran out.
  pub send_retry : ℕ → FlexcanPacket → W → Option (ℤ × W)
  send_retry zero p w = none
  send_retry (suc fuel) p w =
      let (ret, w') = link.send p w in
      let again = send_retry fuel p w' in
      if is_negative ret && link.no_buffers w' then again else some (ret, w')

  -- The last part, behind the loop.
  pub send_last : ℕ → FlexcanPacket → List ℕ → ℕ → ℕ → W → Option (ℤ × W)
  send_last fuel can_data p left sn w =
      send_retry fuel
        (record can_data { len = left; packet_sn = sn; bytes = memcpy can_data.bytes 0 p left }) w

  -- The loop `for (i = 0; i < num - 1; i++)` over the rounds left, and what follows it. `p` is what
  -- `p_data` still holds. A part that is not sent ends it (`goto send_err`).
  pub send_parts : ℕ → ℕ → ℕ → FlexcanPacket → List ℕ → ℕ → ℕ → W → Option (ℤ × W)
  send_parts fuel zero i can_data p left sn w = send_last fuel can_data p left sn w
  send_parts fuel (suc rounds) i can_data p left sn w =
      let part = record can_data {
        packet_sn = i;
        bytes = memcpy can_data.bytes 0 p can_sub_packet_size;
      } in
      if_sent (send_retry fuel part w) λ ret w'.
        send_parts fuel rounds (i + 1)
          (record part {
            bytes = memcpy part.bytes 0 (zeros can_sub_packet_size) can_sub_packet_size;
          })
          (drop can_sub_packet_size p) left sn w'

  -- `sendToCan`, with the value of `g_PacketsId` before and after. The packet is never NULL.
  pub send_to_can : ℕ → CanPacket → ℕ → W → Option (ℤ × W) × ℕ
  send_to_can fuel m packets_id w =
      let can_data = common_data m in
      if leb m.len can_data_max_len
      then (
        send_retry fuel
            (record can_data { len = m.len; bytes = memcpy can_data.bytes 0 m.bytes m.len }) w,
        packets_id,
      )
      else (let num = part_count m.len in
          (
            send_parts fuel (num - 1) 0
                (record can_data {
                  packet_id = packets_id;
                  sum = u8 (num + 255);
                  len = can_sub_packet_size;
                })
                m.bytes (last_len m.len num) (u8 (num + 255)) w,
            u8 (packets_id + 1),
          ))
