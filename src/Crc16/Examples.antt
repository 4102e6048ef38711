-- ===== src/Crc16/Examples.antt =====
-- Checksums of small blocks.
use ota_backup.Base.{◌/◌, ◌%◌, ◌≡◌, ◌≢◌, refl, [], ◌∷◌, ◌++◌, arith, All}
use ota_backup.Crc16.{shift_bit, shift_bits, crc_byte, crc_bytes, crc16, IsByte}
use ota_backup.Crc16.Detect.{crc16_detects_byte}
use ota_backup.Crc16.Residue.{crc16-residue}

-- "123456789", whose checksum is the check value of CRC-16/MODBUS.
crc16_check_value : crc16 (49 ∷ 50 ∷ 51 ∷ 52 ∷ 53 ∷ 54 ∷ 55 ∷ 56 ∷ 57 ∷ []) 9 ≡ 0x4B37
unfolding crc16 crc_bytes crc_byte shift_bits shift_bit
crc16_check_value = refl

bytes-IsByte : All IsByte (7 ∷ 255 ∷ [])
bytes-IsByte = (omega arith, (omega arith, tt))

crc16_detects_byte_example :
    crc16 (7 ∷ 255 ∷ 18 ∷ 7 ∷ 255 ∷ []) 5 ≢ crc16 (7 ∷ 255 ∷ 19 ∷ 7 ∷ 255 ∷ []) 5
crc16_detects_byte_example =
    crc16_detects_byte (7 ∷ 255 ∷ []) (7 ∷ 255 ∷ []) 18 19 5 bytes-IsByte bytes-IsByte (omega arith)
      (omega arith) refl (λ e. omega arith)

crc16-residue_example :
    crc16 ((7 ∷ 255 ∷ []) ++ (crc16 (7 ∷ 255 ∷ []) 2 % 256 ∷ crc16 (7 ∷ 255 ∷ []) 2 / 256 ∷ [])) 4
    ≡ 0
crc16-residue_example = crc16-residue (7 ∷ 255 ∷ [])
