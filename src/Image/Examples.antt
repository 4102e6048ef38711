-- ===== src/Image/Examples.antt =====
-- A hex file with two data records apart, and its end record.
use ota_backup.Base.{ℕ, ◌≡◌, refl, arith, All, true, ◌++◌, List, [], ◌∷◌, some}
use ota_backup.Image.Element.{ImageElement}
use ota_backup.Image.Scan.{
  then_scan, is_space, skip_space, hex_digit, if_digit, digits, is_outside, field, scan_hex,
}
use ota_backup.Image.Elements.{
  add_image_element, joined, store, compare_element, insert, sort, compact_from, compact_elements,
}
use ota_backup.Image.Elements.Sized.{Holding, compact_elements-Holding}
use ota_backup.Image.Path.{
  strrchr, to_upper, strupr, split_whole_name, split_path, str_equal, check_file_ext,
}
use ota_backup.Image.Path.Suffix.{IsHexExt, check_file_ext_iff}
use ota_backup.Image.Load.{
  Variables, scan_data, is_checked, checked_line, address_sum, data_record, end_record,
  typed_record, hex_record, hex_line, next_line, load_lines, loaded, compacted, finish, load_hex,
}
use ota_backup.Image.RoundTrip.Records.{IsRecord, print_file}
use ota_backup.Image.RoundTrip.Images.{Segment, image_records, AreApart, load_hex-print_file}

abbrev pub no_variables : Variables
no_variables = record {
  elements = [];
  data_size = 0;
  base_address = 0;
  extended_address = 0;
  byte_count = 0;
  address = 0;
  separator = 0;
  character = 0;
  checksum = 0;
}

-- "a.Hex"
abbrev pub small_path : List ℕ
small_path = 97 ∷ 46 ∷ 72 ∷ 101 ∷ 120 ∷ []

-- ':0201000001A25A\n:0102000003FA\n:00000001FF'
abbrev pub small_file : List ℕ
small_file =
    58 ∷ 48 ∷ 50 ∷ 48 ∷ 49 ∷ 48 ∷ 48 ∷ 48 ∷ 48 ∷ 48 ∷ 49 ∷ 65 ∷ 50 ∷ 53 ∷ 65 ∷ 10 ∷ 58 ∷ 48 ∷ 49
    ∷ 48 ∷ 50 ∷ 48 ∷ 48 ∷ 48 ∷ 48 ∷ 48 ∷ 51 ∷ 70 ∷ 65 ∷ 10 ∷ 58 ∷ 48 ∷ 48 ∷ 48 ∷ 48 ∷ 48 ∷ 48 ∷ 48
    ∷ 49 ∷ 70 ∷ 70 ∷ []

abbrev pub small_elements : List ImageElement
small_elements =
    record { address = 256; length = 2; bytes = 1 ∷ 162 ∷ [] }
    ∷ record { address = 512; length = 1; bytes = 3 ∷ [] }
    ∷ []

pub small_file_loaded :
    load_hex no_variables small_path (some small_file) 2 ≡ some (loaded small_elements 3)
unfolding then_scan is_space skip_space hex_digit if_digit digits is_outside field scan_hex
    add_image_element store compare_element insert sort compact_from compact_elements strrchr
    to_upper strupr split_whole_name split_path str_equal check_file_ext scan_data is_checked
    checked_line address_sum data_record end_record typed_record hex_record hex_line next_line
    load_lines compacted finish load_hex
small_file_loaded = refl

check_file_ext_iff_example :
    (check_file_ext small_path ≡ true
      → (stem : List ℕ) × (ext : List ℕ) × (small_path ≡ stem ++ ext) × IsHexExt ext)
    × (((stem : List ℕ) × (ext : List ℕ) × (small_path ≡ stem ++ ext) × IsHexExt ext)
        → check_file_ext small_path ≡ true)
check_file_ext_iff_example = check_file_ext_iff small_path

-- Elements that follow on each other, out of order, and one apart.
abbrev three_elements : List ImageElement
three_elements =
    record { address = 12; length = 4; bytes = 5 ∷ 6 ∷ 7 ∷ 8 ∷ [] }
    ∷ record { address = 10; length = 4; bytes = 1 ∷ 2 ∷ 3 ∷ 4 ∷ [] }
    ∷ record { address = 40; length = 1; bytes = 9 ∷ [] }
    ∷ []

abbrev two_elements : List ImageElement
two_elements =
    record { address = 10; length = 8; bytes = 1 ∷ 2 ∷ 3 ∷ 4 ∷ 5 ∷ 6 ∷ 7 ∷ 8 ∷ [] }
    ∷ record { address = 40; length = 1; bytes = 9 ∷ [] }
    ∷ []

three_compacted : compact_elements three_elements ≡ some two_elements
unfolding compact_elements compact_from sort insert compare_element joined
three_compacted = refl

compact_elements-Holding_example : Holding 9 two_elements
compact_elements-Holding_example =
    compact_elements-Holding three_elements two_elements (refl, (refl, (refl, tt))) three_compacted

small_path_taken : check_file_ext small_path ≡ true
unfolding check_file_ext split_path split_whole_name strrchr strupr to_upper str_equal
small_path_taken = refl

-- Three bytes at 256 in two records, and one at 512.
abbrev low_segment : Segment
low_segment = record { start = 256; first = 1 ∷ 162 ∷ []; rest = (7 ∷ []) ∷ [] }

abbrev high_segment : Segment
high_segment = record { start = 512; first = 3 ∷ []; rest = [] }

abbrev segment_elements : List ImageElement
segment_elements =
    record { address = 256; length = 3; bytes = 1 ∷ 162 ∷ 7 ∷ [] }
    ∷ record { address = 512; length = 1; bytes = 3 ∷ [] }
    ∷ []

segments-AreApart : AreApart 2 (low_segment ∷ high_segment ∷ [])
segments-AreApart = (
  record {
    ascends = omega arith;
    gap = λ e. absurd (omega (arith, e));
    gap_of_words = λ e. absurd (omega (arith, e));
  },
  tt,
)

segments-IsRecord : All IsRecord (image_records 2 (low_segment ∷ high_segment ∷ []))
segments-IsRecord = (
  record {
    address_lt = omega arith;
    sized = refl;
    length_lt = omega arith;
    are_bytes = (omega arith, (omega arith, tt));
  },
  (
    record {
      address_lt = omega arith;
      sized = refl;
      length_lt = omega arith;
      are_bytes = (omega arith, tt);
    },
    (
      record {
        address_lt = omega arith;
        sized = refl;
        length_lt = omega arith;
        are_bytes = (omega arith, tt);
      },
      tt,
    ),
  ),
)

load_hex-print_file_example :
    load_hex no_variables small_path
      (some (print_file (image_records 2 (low_segment ∷ high_segment ∷ []))))
      2
    ≡ some (loaded segment_elements 4)
load_hex-print_file_example =
    load_hex-print_file no_variables small_path 2 low_segment (high_segment ∷ []) small_path_taken
      (omega arith) segments-AreApart segments-IsRecord
