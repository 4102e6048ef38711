-- ===== src/RmCan/Examples.antt =====
-- A message of ten bytes, sent as two parts and taken in the other order.
use mathlib.Core.List.{Permᴰ}
use ota_backup.Base.{
  ℕ, ◌+◌, ◌%◌, ◌≡◌, ◌≤◌, ◌<◌, inr, refl, ◌++◌, List, [], ◌∷◌, false, none, pos, arith, All,
}
use ota_backup.Flexcan.Packet.{FlexcanPacket}
use ota_backup.Flexcan.Frame.RoundTrip.{IsPacket}
use ota_backup.RmCan.Link.{CanPacket, Link}
use ota_backup.RmCan.Send.{common_data, part_count, last_len, send_to_can}
use ota_backup.RmCan.Send.Parts.{IsLong, parts_of, send_list, send_to_can-eq-send_list}
use ota_backup.RmCan.Send.Overflow.{last_len_overflows}
use ota_backup.RmCan.Send.Valid.{HasFields, KeptBehind, send_to_can-KeptBehind}
use ota_backup.RmCan.Receive.{RobotIds, Receiver, find}
use ota_backup.RmCan.Receive.Collect.{deliver, kept}
use ota_backup.RmCan.Receive.Reassemble.{deliver-parts}

abbrev robot_ids : RobotIds
robot_ids = record { rm_sysctrl_id = 16; rm_upgrade_id = 17 }

abbrev ten_bytes : CanPacket
ten_bytes = record {
  priority = 3;
  src_id = 33;
  dst_id = 17;
  bytes = 1 ∷ 2 ∷ 3 ∷ 4 ∷ 5 ∷ 6 ∷ 7 ∷ 8 ∷ 9 ∷ 10 ∷ [];
  len = 10;
}

ten_bytes-IsLong : IsLong ten_bytes
ten_bytes-IsLong = record { long = omega arith; fits = omega arith; sized = refl }

ten_bytes-HasFields : HasFields ten_bytes
ten_bytes-HasFields = record {
  priority_lt = omega arith;
  src_id_lt = omega arith;
  dst_id_lt = omega arith;
}

-- The world counts the packets.
abbrev counting_link : Link ℕ
counting_link = record { send = λ p n. (pos 0, n + 1); no_buffers = λ n. false }

send_to_can-eq-send_list_example :
    send_to_can counting_link 1 ten_bytes 255 0
    ≡ (send_list counting_link 1 (parts_of ten_bytes 255) (pos 0) 0, (255 + 1) % 256)
send_to_can-eq-send_list_example =
    send_to_can-eq-send_list counting_link 1 ten_bytes 255 0 ten_bytes-IsLong

-- The world is the packets that were sent.
abbrev logging_link : Link (List FlexcanPacket)
logging_link = record { send = λ p log. (pos 0, p ∷ log); no_buffers = λ log. false }

send_to_can-KeptBehind_example :
    KeptBehind logging_link
      (λ log. All IsPacket log)
      (λ p log v h. (v, h))
      (send_to_can logging_link 1 ten_bytes 255 []).0
send_to_can-KeptBehind_example =
    send_to_can-KeptBehind logging_link (λ log. All IsPacket log) (λ p log v h. (v, h)) 1 ten_bytes
      255 [] ten_bytes-HasFields (omega arith) (omega arith) refl tt

abbrev second_first : List FlexcanPacket
second_first =
    record {
      packet_id = 4;
      priority = 3;
      s_id = 33;
      d_id = 17;
      bytes = 7 ∷ 8 ∷ 9 ∷ 10 ∷ 0 ∷ 0 ∷ 0 ∷ 0 ∷ [];
      len = 4;
      packet_sn = 1;
      sum = 1;
    }
    ∷ record {
      packet_id = 4;
      priority = 3;
      s_id = 33;
      d_id = 17;
      bytes = 1 ∷ 2 ∷ 3 ∷ 4 ∷ 5 ∷ 6 ∷ 0 ∷ 0 ∷ [];
      len = 6;
      packet_sn = 0;
      sum = 1;
    }
    ∷ []

second_first-perm : Permᴰ (parts_of ten_bytes 4) second_first
unfolding common_data
second_first-perm = Permᴰ.swap refl refl

abbrev empty_receiver : Receiver
empty_receiver = record { incomplete = []; recv_list = [] }

nothing_kept : kept empty_receiver 33 4 ≡ none
unfolding find
nothing_kept = refl

deliver-parts_example :
    ((deliver robot_ids second_first empty_receiver).recv_list ≡ [] ++ (ten_bytes ∷ []))
    × (kept (deliver robot_ids second_first empty_receiver) 33 4 ≡ none)
deliver-parts_example =
    deliver-parts robot_ids ten_bytes 4 second_first empty_receiver ten_bytes-IsLong (inr refl)
      nothing_kept second_first-perm

last_len_overflows_example :
    (1531 ≤ 1533
      → 1533 ≤ 1536
      → (part_count 1533 ≡ 0) × (last_len 1533 (part_count 1533) ≡ 1533 + 6))
    × (8 < 1533
        → 1533 ≤ 1530
        → (0 < last_len 1533 (part_count 1533)) × (last_len 1533 (part_count 1533) ≤ 6))
last_len_overflows_example = last_len_overflows 1533
