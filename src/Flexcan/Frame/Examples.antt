-- ===== src/Flexcan/Frame/Examples.antt =====
-- A socket that keeps the frame that was written last.
use ota_backup.Base.{◌+◌, ◌-◌, ◌^◌, ◌≡◌, ◌⊎◌, refl, [], ◌∷◌, pos, minus_one, arith}
use ota_backup.Flexcan.Socket.{CanFrame, CanHeader, CanSocket, IsLinux}
use ota_backup.Flexcan.Packet.{FlexcanPacket}
use ota_backup.Flexcan.Frame.{zero_frame, flexcan_send, flexcan_recv}
use ota_backup.Flexcan.Frame.RoundTrip.{IsPacket, zero_packet, Delivers, flexcan_recv-flexcan_send}
use ota_backup.Flexcan.Frame.Errors.{IsReceived, flexcan_recv_answers}

abbrev linux_header : CanHeader
linux_header = record { eff_flag = 2 ^ 31; eff_mask = 2 ^ 29 - 1; err_flag = 2 ^ 29 }

linux_header-IsLinux : IsLinux linux_header
linux_header-IsLinux = record {
  eff_flag_value = refl;
  eff_mask_value = refl;
  err_flag_value = refl;
}

abbrev wire : CanSocket CanFrame
wire = record { write = λ f w. (pos 16, f); read = λ f w. (pos 16, w, w); frame_size = 16 }

wire-Delivers : Delivers wire zero_frame
wire-Delivers = record { takes = λ f. refl; after = λ f. f; gives = λ f. refl }

-- Part 2 of 4 of the message with number 9.
abbrev part_packet : FlexcanPacket
part_packet = record {
  packet_id = 9;
  priority = 3;
  s_id = 0x21;
  d_id = 0x43;
  bytes = 1 ∷ 2 ∷ 3 ∷ 0 ∷ 0 ∷ 0 ∷ 0 ∷ 0 ∷ [];
  len = 3;
  packet_sn = 2;
  sum = 3;
}

part_packet-IsPacket : IsPacket part_packet
part_packet-IsPacket = record {
  priority_lt = omega arith;
  s_id_lt = omega arith;
  d_id_lt = omega arith;
  sum_lt = omega arith;
  len_pos = omega arith;
  len_le = omega arith;
  size = refl;
  padded = refl;
  whole_id = λ e. absurd (omega arith);
  whole_sn = λ e. absurd (omega arith);
  part_len = λ e. omega arith;
}

flexcan_recv-flexcan_send_example :
    let (ret, w') = flexcan_send linux_header wire part_packet zero_frame in
    let (ret', p', w'') = flexcan_recv linux_header wire zero_packet w' in
    (ret ≡ pos 0) × (ret' ≡ pos 0) × (p' ≡ part_packet)
flexcan_recv-flexcan_send_example =
    flexcan_recv-flexcan_send linux_header linux_header-IsLinux wire part_packet zero_frame
      part_packet-IsPacket wire-Delivers

-- A frame of three bytes.
abbrev sent_frame : CanFrame
sent_frame = record {
  can_id = 2 ^ 31 + 5;
  can_dlc = 3;
  payload = 1 ∷ 2 ∷ 3 ∷ 0 ∷ 0 ∷ 0 ∷ 0 ∷ 0 ∷ [];
}

flexcan_recv_answers_example :
    let (ret, q, w') = flexcan_recv linux_header wire zero_packet sent_frame in
    (ret ≡ minus_one) ⊎ ((ret ≡ pos 0) × IsReceived q)
flexcan_recv_answers_example =
    flexcan_recv_answers linux_header wire zero_packet sent_frame (omega arith)
