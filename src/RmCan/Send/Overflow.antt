-- ===== src/RmCan/Send/Overflow.antt =====
-- The messages that are too long for the count of their parts.
use ota_backup.Base.{ℕ, ◌+◌, ◌≤◌, ◌<◌, ◌≡◌, arith}
use ota_backup.RmCan.Send.{part_count, last_len}

-- For a length of 1531 to 1536 bytes, which CAN_DATA_TOTAL_SIZE allows, the count of the parts wraps to
-- 0, and what is copied into the last part is six bytes more than the whole message, though a part holds
-- 6; for every length from 9 to 1530 the last part holds 1 to 6 bytes.
pub last_len_overflows :
    (len : ℕ)
    → (1531 ≤ len → len ≤ 1536 → (part_count len ≡ 0) × (last_len len (part_count len) ≡ len + 6))
      × (8 < len
          → len ≤ 1530
          → (0 < last_len len (part_count len)) × (last_len len (part_count len) ≤ 6))
unfolding part_count last_len
last_len_overflows len = (λ h k. (ground arith, ground arith), λ h k. (ground arith, ground arith))
