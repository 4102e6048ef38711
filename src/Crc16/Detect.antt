-- ===== src/Crc16/Detect.antt =====
-- What damage the checksum notices.
use ota_backup.Base.{
  ℕ, zero, suc, ◌+◌, ◌/◌, ◌^◌, ◌≤◌, ◌≡◌, ◌≢◌, ap, ◌∙◌, sym, List, [], ◌∷◌, ◌++◌, bit_xor, All,
  arith, bit_xor_fields, bit_xor-cancel, bit_xor_comm, take, length, take_all, length-append,
}
use ota_backup.Crc16.{
  shift_bit, shift_bits, crc_byte, crc_bytes, crc16, poly, initial, IsByte, IsU16,
}
use ota_backup.Crc16.Bounds.{
  shift_bit-even, shift_bit-odd, shift_bit-IsU16, xor-IsU16, crc_byte-IsU16, crc_bytes-append,
  crc_bytes-IsU16,
}

-- The polynomial has the top bit, so the top bit of the result tells the bit that went out.
odd_high : (c : ℕ) → IsU16 c → 2 ^ 15 ≤ bit_xor (c / 2) poly
odd_high c h = ground (arith, bit_xor_fields 15 0 1 (c / 2) 0x2001)

xor_right_injective : (a b m : ℕ) → bit_xor a m ≡ bit_xor b m → a ≡ b
xor_right_injective a b m e =
    sym (bit_xor-cancel a m) ∙ ap (λ x. bit_xor x m) e ∙ bit_xor-cancel b m

shift_bit-injective : (a b : ℕ) → IsU16 a → IsU16 b → shift_bit a ≡ shift_bit b → a ≡ b
shift_bit-injective a b ha hb e = ground (
  arith,
  shift_bit-even a,
  shift_bit-even b,
  shift_bit-odd a,
  shift_bit-odd b,
  odd_high a,
  odd_high b,
  xor_right_injective (a / 2) (b / 2) poly,
)

shift_bits-injective : (n a b : ℕ) → IsU16 a → IsU16 b → shift_bits n a ≡ shift_bits n b → a ≡ b
unfolding shift_bits
shift_bits-injective zero a b ha hb e = e
shift_bits-injective (suc n) a b ha hb e =
    shift_bit-injective a b ha hb
      (shift_bits-injective n _ _ (shift_bit-IsU16 a ha) (shift_bit-IsU16 b hb) e)

-- One round of the outer loop loses nothing of the register.
crc_byte-injective :
    (a b x : ℕ) → IsU16 a → IsU16 b → IsByte x → crc_byte a x ≡ crc_byte b x → a ≡ b
unfolding crc_byte
crc_byte-injective a b x ha hb hx e =
    xor_right_injective a b x
      (shift_bits-injective 8 _ _ (xor-IsU16 a x ha hx) (xor-IsU16 b x hb hx) e)

crc_bytes-injective :
    (a b : ℕ) (xs : List ℕ)
    → IsU16 a
    → IsU16 b
    → All IsByte xs
    → crc_bytes a xs ≡ crc_bytes b xs
    → a ≡ b
unfolding crc_bytes
crc_bytes-injective a b [] ha hb h e = e
crc_bytes-injective a b (x ∷ xs) ha hb h e = crc_byte-injective a b x ha hb h.0 (
    crc_bytes-injective (crc_byte a x) (crc_byte b x) xs (crc_byte-IsU16 a x ha h.0)
      (crc_byte-IsU16 b x hb h.0) h.1 e)

xor_left_injective : (m a b : ℕ) → bit_xor m a ≡ bit_xor m b → a ≡ b
xor_left_injective m a b e = xor_right_injective a b m (bit_xor_comm a m ∙ e ∙ bit_xor_comm m b)

crc_byte-injective_byte :
    (c a b : ℕ) → IsU16 c → IsByte a → IsByte b → crc_byte c a ≡ crc_byte c b → a ≡ b
unfolding crc_byte
crc_byte-injective_byte c a b hc ha hb e =
    xor_left_injective c a b
      (shift_bits-injective 8 _ _ (xor-IsU16 c a hc ha) (xor-IsU16 c b hc hb) e)

same_byte :
    (xs ys : List ℕ) (a b len : ℕ)
    → All IsByte xs
    → All IsByte ys
    → IsByte a
    → IsByte b
    → length xs + suc (length ys) ≡ len
    → crc16 (xs ++ (a ∷ ys)) len ≡ crc16 (xs ++ (b ∷ ys)) len
    → a ≡ b
unfolding crc16 crc_byte crc_bytes
same_byte xs ys a b len hx hy ha hb hl e = crc_byte-injective_byte start a b hs ha hb (
    crc_bytes-injective (crc_byte start a) (crc_byte start b) ys (crc_byte-IsU16 start a hs ha)
      (crc_byte-IsU16 start b hs hb) hy (sym (whole a) ∙ e ∙ whole b))
  where
    start : ℕ
    start = crc_bytes initial xs

    hs : IsU16 start
    hs = crc_bytes-IsU16 initial xs (omega arith) hx

    whole : (c : ℕ) → crc_bytes initial (take len (xs ++ (c ∷ ys))) ≡ crc_bytes start (c ∷ ys)
    whole c =
        ap (crc_bytes initial)
          (take_all len (xs ++ (c ∷ ys)) (omega (arith, length-append xs (c ∷ ys))))
        ∙ crc_bytes-append initial xs (c ∷ ys)

-- Two blocks of one length that differ in exactly one byte have different checksums.
pub crc16_detects_byte :
    (xs ys : List ℕ) (a b len : ℕ)
    → All IsByte xs
    → All IsByte ys
    → IsByte a
    → IsByte b
    → length xs + suc (length ys) ≡ len
    → a ≢ b
    → crc16 (xs ++ (a ∷ ys)) len ≢ crc16 (xs ++ (b ∷ ys)) len
crc16_detects_byte xs ys a b len hx hy ha hb hl differ e =
    differ (same_byte xs ys a b len hx hy ha hb hl e)
