-- ===== src/Crc16/Residue.antt =====
-- A block followed by its own checksum, low byte first, has checksum 0.
use ota_backup.Base.{
  ℕ, zero, suc, ◌+◌, ◌*◌, ◌/◌, ◌%◌, ◌^◌, ◌≡◌, refl, sym, ap, ◌∙◌, List, [], ◌∷◌, ◌++◌, bit_xor,
  arith, bit_xor_fields, bit_xor_self, bit_xor-zero, length, take_all, length-append,
}
use native.Mathlib.Nat.{pow-suc}
use ota_backup.Crc16.{shift_bits, crc_byte, crc_bytes, crc16, initial}
use ota_backup.Crc16.Bounds.{shift_bit-even, crc_bytes-append}

-- Zero bits go out with no feedback.
shift_bits-zeros : (n q : ℕ) → shift_bits n (q * 2 ^ n) ≡ q
unfolding shift_bits
shift_bits-zeros zero q = omega arith
shift_bits-zeros (suc n) q =
    ap (shift_bits n) (shift_bit-even (q * 2 ^ suc n) (omega (arith, twice)) ∙ omega (arith, twice))
    ∙ shift_bits-zeros n q
  where
    twice : q * 2 ^ suc n ≡ 2 * (q * 2 ^ n)
    twice = omega (arith, ap (λ (t : ℕ). q * t) (pow-suc 2 n))

crc_byte-low : (c : ℕ) → crc_byte c (c % 256) ≡ c / 256
unfolding crc_byte
crc_byte-low c = ap (shift_bits 8) cleared ∙ shift_bits-zeros 8 (c / 256)
  where
    cleared : bit_xor c (c % 256) ≡ c / 256 * 2 ^ 8
    cleared = ground (
      arith,
      bit_xor_fields 8 (c / 256) 0 (c % 256) (c % 256),
      bit_xor_self (c % 256),
      bit_xor-zero (c / 256),
    )

crc_byte_self : (c : ℕ) → crc_byte c c ≡ 0
unfolding crc_byte
crc_byte_self c = ap (shift_bits 8) (bit_xor_self c) ∙ shift_bits-zeros 8 0

crc16_whole : (bytes : List ℕ) (n : ℕ) → length bytes ≡ n → crc16 bytes n ≡ crc_bytes initial bytes
unfolding crc16
crc16_whole bytes n h = ap (crc_bytes initial) (take_all n bytes (omega arith))

self_check :
    (bytes : List ℕ) (c : ℕ)
    → crc_bytes initial bytes ≡ c
    → crc16 (bytes ++ (c % 256 ∷ c / 256 ∷ [])) (length bytes + 2) ≡ 0
unfolding crc_bytes
self_check bytes c e =
    crc16_whole (bytes ++ (c % 256 ∷ c / 256 ∷ [])) _
      (omega (arith, length-append bytes (c % 256 ∷ c / 256 ∷ [])))
    ∙ crc_bytes-append initial bytes (c % 256 ∷ c / 256 ∷ [])
    ∙ rw (e, crc_byte-low c) (crc_byte_self (c / 256))

-- The checksum of a block with its own checksum behind it, low byte first, is 0.
pub crc16-residue :
    (bytes : List ℕ)
    → let crc = crc16 bytes (length bytes) in
      crc16 (bytes ++ (crc % 256 ∷ crc / 256 ∷ [])) (length bytes + 2) ≡ 0
crc16-residue bytes = self_check bytes _ (sym (crc16_whole bytes (length bytes) refl))
