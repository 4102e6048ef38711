-- ===== src/Image/RoundTrip/Fields.antt =====
-- Numbers as hex digits, which the scans read back.
use ota_backup.Base.{
  ℕ, ◌+◌, ◌*◌, ◌/◌, ◌%◌, ◌^◌, ◌<◌, ◌≡◌, ap, ap₂, arith, List, [], ◌∷◌, ◌++◌, false, ltb,
  if◌then◌else◌, some, All, length as size,
}
use ota_backup.Image.Scan.{
  scanned, then_scan, is_space, skip_space, hex_digit, if_digit, digits, is_outside, field,
  scan_hex,
}
use ota_backup.Image.Load.{scan_data}

-- A hex digit, a byte in two and an address in four of them.
abbrev pub hex_char : ℕ → ℕ
hex_char d = if ltb d 10 then 48 + d else 55 + d

abbrev pub print_byte : ℕ → List ℕ
print_byte b = hex_char (b / 16) ∷ hex_char (b % 16) ∷ []

abbrev pub print_address : ℕ → List ℕ
print_address a = print_byte (a / 256) ++ print_byte (a % 256)

abbrev pub print_bytes : List ℕ → List ℕ
print_bytes [] = []
print_bytes (b ∷ bytes) = print_byte b ++ print_bytes bytes

hex_digit-hex_char : (d : ℕ) → d < 16 → hex_digit (hex_char d) ≡ some d
unfolding hex_digit
hex_digit-hex_char d h = ground arith

not_space : (d : ℕ) → d < 16 → is_space (hex_char d) ≡ false
unfolding is_space
not_space d h = ground arith

not_outside :
    (d e : ℕ) (s : List ℕ) → d < 16 → e < 16 → is_outside (hex_char d ∷ hex_char e ∷ s) ≡ false
unfolding is_outside
not_outside d e s h k = ground arith

pub scan_hex-print_byte :
    (b old : ℕ) (s : List ℕ) → b < 256 → scan_hex 2 old (print_byte b ++ s) ≡ scanned (b, s)
unfolding scan_hex skip_space field digits if_digit
scan_hex-print_byte b old s h =
    rw
      (
        not_space (b / 16) (omega arith),
        not_outside (b / 16) (b % 16) s (omega arith) (omega arith),
        hex_digit-hex_char (b / 16) (omega arith),
        hex_digit-hex_char (b % 16) (omega arith),
      )
      (ap (λ (v : ℕ). scanned (v, s)) whole)
  where
    whole : 16 * (16 * 0 + b / 16) + b % 16 ≡ b
    whole = omega arith

pub scan_hex-print_address :
    (a old : ℕ) (s : List ℕ) → a < 2 ^ 16 → scan_hex 4 old (print_address a ++ s) ≡ scanned (a, s)
unfolding scan_hex skip_space field digits if_digit
scan_hex-print_address a old s h =
    rw
      (
        not_space (a / 256 / 16) (omega arith),
        not_outside (a / 256 / 16) (a / 256 % 16) _ (omega arith) (omega arith),
        hex_digit-hex_char (a / 256 / 16) (omega arith),
        hex_digit-hex_char (a / 256 % 16) (omega arith),
        hex_digit-hex_char (a % 256 / 16) (omega arith),
        hex_digit-hex_char (a % 256 % 16) (omega arith),
      )
      (ap (λ (v : ℕ). scanned (v, s)) whole)
  where
    whole :
        16 * (16 * (16 * (16 * 0 + a / 256 / 16) + a / 256 % 16) + a % 256 / 16) + a % 256 % 16 ≡ a
    whole = omega arith

abbrev pub sum_of : List ℕ → ℕ
sum_of [] = 0
sum_of (b ∷ bytes) = b + sum_of bytes

-- The last byte, or the value before.
abbrev pub last_of : ℕ → List ℕ → ℕ
last_of c [] = c
last_of c (b ∷ bytes) = last_of b bytes

pub scan_data-print_bytes :
    (bytes : List ℕ) (c sum : ℕ) (s : List ℕ)
    → All (λ b. b < 256) bytes
    → scan_data (size bytes) c sum (print_bytes bytes ++ s)
      ≡ scanned (record {
        character = last_of c bytes;
        sum_var = sum + sum_of bytes;
        bytes = bytes;
        left = s;
      })
unfolding scan_data then_scan
scan_data-print_bytes [] c sum s h =
    ap (λ n. scanned (record { character = c; sum_var = n; bytes = []; left = s })) none_added
  where
    none_added : sum ≡ sum + 0
    none_added = omega arith
scan_data-print_bytes (b ∷ bytes) c sum s h =
    rw
      (
        scan_hex-print_byte b c (print_bytes bytes ++ s) h.0,
        scan_data-print_bytes bytes b (sum + b) s h.1,
      )
      (ap₂
        (λ m n.
          scanned
            (record { character = last_of b bytes; sum_var = m; bytes = n ∷ bytes; left = s }))
        added fits)
  where
    added : sum + b + sum_of bytes ≡ sum + (b + sum_of bytes)
    added = omega arith

    fits : b % 256 ≡ b
    fits = omega (arith, h.0)
