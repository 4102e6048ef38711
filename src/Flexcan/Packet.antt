-- ===== src/Flexcan/Packet.antt =====
-- flexcan.h: a packet, and how its fields go into the identifier of a frame and come back.
pub mod Ident
pub mod Ranges
use ota_backup.Base.{ℕ, ◌+◌, ◌-◌, ◌*◌, ◌/◌, ◌%◌, ◌^◌, List, bit_and, bit_or}

-- `struct flexcan_packet`; `bytes` is its array `data`, of CAN_DATA_MAX_LEN bytes.
pub record FlexcanPacket : Type 0 where
  pub packet_id : ℕ
  pub priority : ℕ
  pub s_id : ℕ
  pub d_id : ℕ
  pub bytes : List ℕ
  pub len : ℕ
  pub packet_sn : ℕ
  pub sum : ℕ

abbrev pub packet_max_num : ℕ
packet_max_num = 256

abbrev pub can_data_max_len : ℕ
can_data_max_len = 8

abbrev pub can_sub_packet_offset : ℕ
can_sub_packet_offset = 2

abbrev pub can_sub_packet_size : ℕ
can_sub_packet_size = can_data_max_len - can_sub_packet_offset

abbrev pub can_data_total_size : ℕ
can_data_total_size = can_sub_packet_size * packet_max_num

-- `(uint32_t)x << k`.
abbrev pub shl32 : ℕ → ℕ → ℕ
shl32 x k = x * 2 ^ k % 2 ^ 32

abbrev pub u8 : ℕ → ℕ
u8 x = x % 2 ^ 8

-- The macros CAN_DATA2ID_….
pub data_to_priority : ℕ → ℕ
data_to_priority p = shl32 (bit_and p 0x7) 26

pub data_to_s_sys : ℕ → ℕ
data_to_s_sys s = shl32 (bit_and s 0xF0) 18

pub data_to_d_sys : ℕ → ℕ
data_to_d_sys d = shl32 (bit_and d 0xF0) 14

pub data_to_s_smod : ℕ → ℕ
data_to_s_smod s = shl32 (bit_and s 0x0F) 4

pub data_to_d_smod : ℕ → ℕ
data_to_d_smod d = bit_and d 0x0F

pub data_to_sum : ℕ → ℕ
data_to_sum sum = shl32 (bit_and sum 0xFF) 8

-- The macros CAN_ID2DATA_….
pub id_to_priority : ℕ → ℕ
id_to_priority p = u8 (bit_and p 0x1C000000 / 2 ^ 26)

pub id_to_s_sys : ℕ → ℕ
id_to_s_sys s = u8 (bit_and s 0x03C00000 / 2 ^ 18)

pub id_to_d_sys : ℕ → ℕ
id_to_d_sys d = u8 (bit_and d 0x003C0000 / 2 ^ 14)

pub id_to_s_smod : ℕ → ℕ
id_to_s_smod s = u8 (bit_and s 0x000000F0 / 2 ^ 4)

pub id_to_d_smod : ℕ → ℕ
id_to_d_smod d = u8 (bit_and d 0x0000000F)

pub id_to_sum : ℕ → ℕ
id_to_sum m = u8 (bit_and m 0x0000FF00 / 2 ^ 8)

pub id_to_s_module : ℕ → ℕ
unfolding id_to_s_sys id_to_s_smod
id_to_s_module s = bit_or (id_to_s_sys s) (id_to_s_smod s)

pub id_to_d_module : ℕ → ℕ
unfolding id_to_d_sys id_to_d_smod
id_to_d_module d = bit_or (id_to_d_sys d) (id_to_d_smod d)

-- `frame.can_id` before the packet sum is put in: the `|` of the five macros.
pub base_id : FlexcanPacket → ℕ
base_id p =
    bit_or
      (bit_or
        (bit_or (bit_or (data_to_priority p.priority) (data_to_s_sys p.s_id))
          (data_to_d_sys p.d_id))
        (data_to_s_smod p.s_id))
      (data_to_d_smod p.d_id)
