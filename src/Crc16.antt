-- ===== src/Crc16.antt =====
-- bootable/recovery/robot_update/crc16.cpp: the checksum of a firmware block.
pub mod Bounds
pub mod Detect
pub mod Residue
mod Examples
use ota_backup.Base.{
  ℕ, zero, suc, ◌/◌, ◌^◌, ◌<◌, List, [], ◌∷◌, bit_and, bit_xor, ◌==◌, if◌then◌else◌, take,
}

-- The polynomial of the inner loop.
abbrev pub poly : ℕ
poly = 0xA001

abbrev pub initial : ℕ
initial = 0xFFFF

-- One round of the inner loop. The register is a `uint16_t`: a shift to the right and an exclusive
-- or with a 16-bit constant keep it below 2 ^ 16, so nothing is cut off.
pub shift_bit : ℕ → ℕ
shift_bit crc =
    let tmp = bit_and crc 0x0001 in
    let shifted = crc / 2 in if tmp == 0 then shifted else bit_xor shifted poly

-- `for (j = 0; j < 8; j++)`, over the rounds left.
pub shift_bits : ℕ → ℕ → ℕ
shift_bits zero crc = crc
shift_bits (suc rounds) crc = shift_bits rounds (shift_bit crc)

-- One round of the outer loop.
pub crc_byte : ℕ → ℕ → ℕ
crc_byte crc byte = shift_bits 8 (bit_xor crc byte)

pub crc_bytes : ℕ → List ℕ → ℕ
crc_bytes crc [] = crc
crc_bytes crc (byte ∷ bytes) = crc_bytes (crc_byte crc byte) bytes

-- The caller's buffer holds at least `len` bytes.
unfoldable pub crc16 : List ℕ → ℕ → ℕ
crc16 buf len = crc_bytes initial (take len buf)

abbrev pub IsByte : ℕ → Type 0
IsByte b = b < 2 ^ 8

abbrev pub IsU16 : ℕ → Type 0
IsU16 c = c < 2 ^ 16
