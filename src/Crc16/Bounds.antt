-- ===== src/Crc16/Bounds.antt =====
-- The register stays a 16-bit number.
use ota_backup.Base.{
  ℕ, zero, suc, ◌/◌, ◌%◌, ◌≡◌, List, [], ◌∷◌, ◌++◌, bit_and, bit_xor, refl, All, arith, bit_and_low,
  bit_xor_lt,
}
use ota_backup.Crc16.{shift_bit, shift_bits, crc_byte, crc_bytes, poly, IsByte, IsU16}

pub low_bit : (c : ℕ) → bit_and c 1 ≡ c % 2
low_bit c = bit_and_low 1 c

pub shift_bit-even : (c : ℕ) → c % 2 ≡ 0 → shift_bit c ≡ c / 2
unfolding shift_bit
shift_bit-even c h = ground (arith, low_bit c)

pub shift_bit-odd : (c : ℕ) → c % 2 ≡ 1 → shift_bit c ≡ bit_xor (c / 2) poly
unfolding shift_bit
shift_bit-odd c h = ground (arith, low_bit c)

pub shift_bit-IsU16 : (c : ℕ) → IsU16 c → IsU16 (shift_bit c)
unfolding shift_bit
shift_bit-IsU16 c h = ground (arith, bit_xor_lt 16 (c / 2) poly)

pub shift_bits-IsU16 : (n c : ℕ) → IsU16 c → IsU16 (shift_bits n c)
unfolding shift_bits
shift_bits-IsU16 zero c h = h
shift_bits-IsU16 (suc n) c h = shift_bits-IsU16 n (shift_bit c) (shift_bit-IsU16 c h)

pub xor-IsU16 : (c b : ℕ) → IsU16 c → IsByte b → IsU16 (bit_xor c b)
xor-IsU16 c b h k = bit_xor_lt 16 c b h (omega arith)

pub crc_byte-IsU16 : (c b : ℕ) → IsU16 c → IsByte b → IsU16 (crc_byte c b)
unfolding crc_byte
crc_byte-IsU16 c b h k = shift_bits-IsU16 8 _ (xor-IsU16 c b h k)

pub crc_bytes-IsU16 : (c : ℕ) (bs : List ℕ) → IsU16 c → All IsByte bs → IsU16 (crc_bytes c bs)
unfolding crc_bytes
crc_bytes-IsU16 c [] h k = h
crc_bytes-IsU16 c (b ∷ bs) h k = crc_bytes-IsU16 (crc_byte c b) bs (crc_byte-IsU16 c b h k.0) k.1

pub crc_bytes-append :
    (c : ℕ) (xs ys : List ℕ) → crc_bytes c (xs ++ ys) ≡ crc_bytes (crc_bytes c xs) ys
unfolding crc_bytes
crc_bytes-append c [] ys = refl
crc_bytes-append c (x ∷ xs) ys = crc_bytes-append (crc_byte c x) xs ys
