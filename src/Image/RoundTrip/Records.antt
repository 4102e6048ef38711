-- ===== src/Image/RoundTrip/Records.antt =====
-- Printed data records and what LoadHex makes of them.
use ota_backup.Base.{
  ℕ, zero, suc, ◌+◌, ◌-◌, ◌*◌, ◌/◌, ◌%◌, ◌^◌, ◌<◌, ◌≡◌, ◌∙◌, refl, arith, List, [], ◌∷◌, ◌++◌,
  append_assoc, Bool, true, false, Option, some, All, length as size, length-append,
}
use ota_backup.Image.Element.{ImageElement}
use ota_backup.Image.Scan.{
  Scanned, scanned, then_scan, scan_hex, is_space, skip_space, hex_digit, if_digit, digits,
  is_outside, field,
}
use ota_backup.Image.Elements.{store, compact_elements}
use ota_backup.Image.Elements.Sized.{total}
use ota_backup.Image.Path.{check_file_ext}
use ota_backup.Image.Load.{
  Variables, scan_data, is_checked, checked_line, address_sum, data_record, end_record,
  typed_record, hex_record, hex_line, next_line, load_lines, compacted, finish, load_hex,
}
use ota_backup.Image.RoundTrip.Fields.{
  print_byte, print_address, print_bytes, sum_of, last_of, scan_hex-print_byte,
  scan_hex-print_address, scan_data-print_bytes,
}

-- What one record can hold: a 16-bit address and at most 255 bytes.
pub record IsRecord (e : ImageElement) : Type 0 where
  pub address_lt : e.address < 2 ^ 16
  pub sized : size e.bytes ≡ e.length
  pub length_lt : e.length < 256
  pub are_bytes : All (λ b. b < 256) e.bytes

abbrev pub record_sum : ImageElement → ℕ
record_sum e = e.length + (e.address / 256 + e.address % 256) + sum_of e.bytes

-- The byte that makes the sum of a record 0 modulo 256.
abbrev pub checksum_of : ℕ → ℕ
checksum_of sum = (256 - sum % 256) % 256

-- A data record behind its colon, up to the end of the line.
abbrev pub print_record : ImageElement → List ℕ
print_record e =
    print_byte e.length
    ++ print_address e.address
    ++ print_byte 0
    ++ print_bytes e.bytes
    ++ print_byte (checksum_of (record_sum e))

-- ":00000001FF"
abbrev pub end_line : List ℕ
end_line = 58 ∷ (print_byte 0 ++ print_address 0 ++ print_byte 1 ++ print_byte 255)

abbrev pub print_file : List ImageElement → List ℕ
print_file [] = end_line
print_file (e ∷ es) = 58 ∷ (print_record e ++ (10 ∷ print_file es))

-- The elements that the records make up, put in one after the other.
abbrev pub gathered : ℕ → List ImageElement → List ImageElement → List ImageElement
gathered addr_bytes es [] = es
gathered addr_bytes es (r ∷ rs) = gathered addr_bytes (store addr_bytes es r) rs

-- The variables behind a record.
abbrev behind_record : ℕ → Variables → ImageElement → Variables
behind_record addr_bytes v e = record v {
  elements = store addr_bytes v.elements e;
  data_size = v.data_size + e.length;
  byte_count = e.length;
  address = e.address;
  separator = 0;
  character = last_of v.character e.bytes;
  checksum = checksum_of (record_sum e);
}

checks : (sum : ℕ) → is_checked (checksum_of sum) sum ≡ true
unfolding is_checked
checks sum = ground arith

-- No base address has been set.
abbrev IsPlain : Variables → Type 0
IsPlain v = (v.base_address ≡ 0) × (v.extended_address ≡ 0)

hex_record-print_record :
    (addr_bytes : ℕ) (v : Variables) (e : ImageElement) (s : List ℕ)
    → IsRecord e
    → IsPlain v
    → hex_record addr_bytes v (print_record e ++ s)
      ≡ scanned (record {
        variables = behind_record addr_bytes v e;
        left = s;
        good = true;
        last_byte = false;
      })
unfolding hex_record then_scan typed_record data_record checked_line
hex_record-print_record addr_bytes v e s r plain =
    rw
      (
        append_assoc (print_bytes e.bytes) (print_byte cs) s,
        scan_hex-print_byte e.length v.byte_count
            (print_address e.address
              ++ (print_byte 0 ++ (print_bytes e.bytes ++ (print_byte cs ++ s))))
            r.length_lt,
        scan_hex-print_address e.address v.address
            (print_byte 0 ++ (print_bytes e.bytes ++ (print_byte cs ++ s))) r.address_lt,
        scan_hex-print_byte 0 v.separator (print_bytes e.bytes ++ (print_byte cs ++ s))
            (omega arith),
        bytes_read e.length r.sized,
        scan_hex-print_byte cs v.checksum s (omega arith),
        summed,
        checks (record_sum e),
        placed,
      )
      refl
  where
    cs : ℕ
    cs = checksum_of (record_sum e)

    sum : ℕ
    sum = e.length + address_sum e.address

    bytes_read :
        (n : ℕ)
        → size e.bytes ≡ n
        → scan_data n v.character sum (print_bytes e.bytes ++ (print_byte cs ++ s))
          ≡ scanned (record {
            character = last_of v.character e.bytes;
            sum_var = sum + sum_of e.bytes;
            bytes = e.bytes;
            left = print_byte cs ++ s;
          })
    bytes_read n h =
        rw (← h) (scan_data-print_bytes e.bytes v.character sum (print_byte cs ++ s) r.are_bytes)

    summed : sum + sum_of e.bytes + 0 ≡ record_sum e
    summed = unfold address_sum in omega arith

    placed : (v.extended_address * 2 ^ 16 + v.base_address * 2 ^ 4 + e.address) % 2 ^ 32 ≡ e.address
    placed = omega (arith, plain.0, plain.1, r.address_lt)

end_of_file :
    (addr_bytes : ℕ) (v : Variables)
    → hex_record addr_bytes v (print_byte 0 ++ print_address 0 ++ print_byte 1 ++ print_byte 255)
      ≡ scanned (record {
        variables = record v { byte_count = 0; address = 0; separator = 1; checksum = 255 };
        left = [];
        good = true;
        last_byte = true;
      })
unfolding hex_record then_scan typed_record end_record checked_line is_checked address_sum scan_hex
    skip_space is_space is_outside field digits if_digit hex_digit
end_of_file addr_bytes v = refl

-- The variables behind the records, as far as an image is made of them.
abbrev Reads : ℕ → Variables → List ImageElement → Option (Scanned (Bool × Variables)) → Type 0
Reads addr_bytes v rs o =
    (v' : Variables) × (o ≡ some (scanned (true, v')))
    × (v'.elements ≡ gathered addr_bytes v.elements rs)
    × (v'.data_size ≡ v.data_size + total rs)

load_lines-print_file :
    (rs : List ImageElement) (fuel addr_bytes : ℕ) (v : Variables)
    → All IsRecord rs
    → IsPlain v
    → size (print_file rs) < fuel
    → Reads addr_bytes v rs (load_lines fuel addr_bytes v (print_file rs))
unfolding load_lines next_line hex_line
load_lines-print_file rs zero addr_bytes v h plain more = absurd (omega arith)
load_lines-print_file [] (suc fuel) addr_bytes v h plain more =
    rw (end_of_file addr_bytes v) (_, refl, refl, omega arith)
load_lines-print_file (e ∷ es) (suc zero) addr_bytes v h plain more =
    absurd (omega (arith, length-append (print_record e) (10 ∷ print_file es)))
load_lines-print_file (e ∷ es) (suc (suc fuel)) addr_bytes v h plain more =
    let rest =
      load_lines-print_file es fuel addr_bytes (behind_record addr_bytes v e) h.1 plain
        (omega (arith, length-append (print_record e) (10 ∷ print_file es))) in
    rw (hex_record-print_record addr_bytes v e (10 ∷ print_file es) h.0 plain)
      (rest.0, rest.1, rest.2, rest.3 ∙ added)
  where
    added : v.data_size + e.length + total es ≡ v.data_size + (e.length + total es)
    added = omega arith

-- A file of printed records is read to its end, and what was put in is compacted.
pub load_hex-print_records :
    (v : Variables) (path : List ℕ) (addr_bytes : ℕ) (rs : List ImageElement)
    → check_file_ext path ≡ true
    → All IsRecord rs
    → load_hex v path (some (print_file rs)) addr_bytes
      ≡ some (compacted (total rs) (compact_elements (gathered addr_bytes [] rs)))
unfolding load_hex
load_hex-print_records v path addr_bytes rs hex h =
    let read =
      load_lines-print_file rs (size (print_file rs) + 1) addr_bytes
        (record v { elements = []; data_size = 0; base_address = 0; extended_address = 0 }) h
        (refl, refl) (omega arith) in
    rw (hex, read.1) (finished read.0 read.2 read.3)
  where
    finished :
        (v' : Variables)
        → v'.elements ≡ gathered addr_bytes [] rs
        → v'.data_size ≡ 0 + total rs
        → some (finish (scanned (true, v')))
          ≡ some (compacted (total rs) (compact_elements (gathered addr_bytes [] rs)))
    finished v' es n = unfold finish in rw (es, n ∙ from_zero) refl
      where
        from_zero : 0 + total rs ≡ total rs
        from_zero = omega arith
