-- ===== src/Flexcan/Packet/Ranges.antt =====
-- What any identifier decodes to fits the fields of a packet.
use ota_backup.Base.{ℕ, ◌<◌, arith, and_window, bit_or_lt}
use ota_backup.Flexcan.Packet.{
  id_to_priority, id_to_s_sys, id_to_d_sys, id_to_s_smod, id_to_d_smod, id_to_sum, id_to_s_module,
  id_to_d_module,
}

pub id_to_priority_lt : (id : ℕ) → id_to_priority id < 8
unfolding id_to_priority
id_to_priority_lt id = omega (arith, and_window 26 3 id)

pub id_to_sum_lt : (id : ℕ) → id_to_sum id < 256
unfolding id_to_sum
id_to_sum_lt id = omega arith

pub id_to_s_module_lt : (id : ℕ) → id_to_s_module id < 256
unfolding id_to_s_module
id_to_s_module_lt id = bit_or_lt 8 (id_to_s_sys id) (id_to_s_smod id) (omega arith) (omega arith)

pub id_to_d_module_lt : (id : ℕ) → id_to_d_module id < 256
unfolding id_to_d_module
id_to_d_module_lt id = bit_or_lt 8 (id_to_d_sys id) (id_to_d_smod id) (omega arith) (omega arith)
