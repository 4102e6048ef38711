-- ===== src/Image/Load.antt =====
-- Image.cpp: LoadHex, record by record.
pub mod Finish
pub mod Lines
use ota_backup.Base.{
  ℕ, zero, suc, ◌+◌, ◌-◌, ◌*◌, ◌/◌, ◌%◌, ◌^◌, List, [], ◌∷◌, ◌++◌, Bool, true, false, ◌&&◌, ◌||◌,
  ◌==◌, leb, not, if◌then◌else◌, Option, none, some, length as size,
}
use ota_backup.Image.Element.{ImageElement}
use ota_backup.Image.Scan.{Scanned, scanned, outside, then_scan, scan_hex}
use ota_backup.Image.Elements.{store, compact_elements}
use ota_backup.Image.Path.{check_file_ext}

-- The variables of `LoadHex` and of the image. `byte_count`, `address`, `separator`, `character` and
-- `checksum` have no initial value, so that a run starts from any.
pub record Variables : Type 0 where
  pub elements : List ImageElement
  pub data_size : ℕ
  pub base_address : ℕ
  pub extended_address : ℕ
  pub byte_count : ℕ
  pub address : ℕ
  pub separator : ℕ
  pub character : ℕ
  pub checksum : ℕ

-- What reading a record leaves: the variables, what is left of the file, whether the record was good,
-- and `last_byte`.
pub record Line : Type 0 where
  pub variables : Variables
  pub left : List ℕ
  pub good : Bool
  pub last_byte : Bool

-- `count` bytes by `%2x`: the last value of `character`, the sum with them, the bytes, what is left.
pub record Data : Type 0 where
  pub character : ℕ
  pub sum_var : ℕ
  pub bytes : List ℕ
  pub left : List ℕ

unfoldable pub scan_data : ℕ → ℕ → ℕ → List ℕ → Scanned Data
scan_data zero character sum_var s =
    scanned (record { character = character; sum_var = sum_var; bytes = []; left = s })
scan_data (suc count) character sum_var s = then_scan (scan_hex 2 character s) (λ (c, s').
    then_scan (scan_data count c (sum_var + c) s')
      (λ d. scanned (record d { bytes = c % 256 ∷ d.bytes })))

-- `((checksum + sum_var) % 256) == 0`, the sums being unsigned int.
unfoldable pub is_checked : ℕ → ℕ → Bool
is_checked checksum sum_var = (checksum + sum_var % 256) % 256 == 0

-- The checksum at the end of a record, and what follows when it is right.
unfoldable pub checked_line : Variables → ℕ → List ℕ → Bool → (Variables → Variables) → Scanned Line
checked_line v sum_var s last good = then_scan (scan_hex 2 v.checksum s) (λ (c, s').
    let v' = record v { checksum = c } in
    scanned (
      if is_checked c sum_var
      then record { variables = good v'; left = s'; good = true; last_byte = last }
      else record { variables = v'; left = s'; good = false; last_byte = false }))

unfoldable pub address_sum : ℕ → ℕ
address_sum a = a / 2 ^ 8 + a % 256

-- Type 0x00. A byte count above 0xFF is one that `%2x` has not read.
unfoldable pub data_record : ℕ → Variables → List ℕ → Scanned Line
data_record addr_bytes v s =
    then_scan (scan_data v.byte_count v.character (v.byte_count + address_sum v.address) s) (λ d.
      checked_line (record v { data_size = v.data_size + v.byte_count; character = d.character })
        (d.sum_var + v.separator) d.left false
        (λ v'. record v' {
          elements = store addr_bytes v'.elements (record {
            address = (v.extended_address * 2 ^ 16 + v.base_address * 2 ^ 4 + v.address) % 2 ^ 32;
            length = v.byte_count;
            bytes = d.bytes;
          });
        }))

-- Type 0x01, the end of the file.
unfoldable pub end_record : Variables → List ℕ → Scanned Line
end_record v s =
    checked_line v (v.byte_count + address_sum v.address + v.separator) s true (λ v'. v')

-- Type 0x02.
pub segment_record : Variables → List ℕ → Scanned Line
segment_record v s = then_scan (scan_hex 4 v.base_address s) (λ (a, s').
    checked_line (record v { base_address = a })
      (v.byte_count + address_sum v.address + v.separator + address_sum a) s' false (λ v'. v'))

-- Type 0x03. `sum_var` is added to itself.
pub start_segment_record : Variables → List ℕ → Scanned Line
start_segment_record v s =
    then_scan
      (scan_data v.byte_count v.character
        (v.byte_count + (v.byte_count + address_sum v.address + v.separator)) s)
      (λ d. checked_line (record v { character = d.character }) d.sum_var d.left false (λ v'. v'))

-- Type 0x04.
pub linear_record : Variables → List ℕ → Scanned Line
linear_record v s = then_scan (scan_hex 4 v.extended_address s) (λ (a, s').
    checked_line (record v { extended_address = a })
      (v.byte_count + address_sum v.address + v.separator + address_sum a) s' false (λ v'. v'))

-- Type 0x05.
pub start_linear_record : Variables → List ℕ → Scanned Line
start_linear_record v s =
    then_scan
      (scan_data v.byte_count v.character (v.byte_count + address_sum v.address + v.separator) s)
      (λ d. checked_line (record v { character = d.character }) d.sum_var d.left false (λ v'. v'))

-- The chain of tests of `separator`.
unfoldable pub typed_record : ℕ → Variables → List ℕ → Scanned Line
typed_record addr_bytes v s =
    if v.separator == 0
    then data_record addr_bytes v s
    else if v.separator == 1
    then end_record v s
    else if v.separator == 2
    then segment_record v s
    else if v.separator == 3
    then start_segment_record v s
    else if v.separator == 4
    then linear_record v s
    else if v.separator == 5
    then start_linear_record v s
    else scanned (record { variables = v; left = s; good = false; last_byte = false })

-- A record behind its colon.
unfoldable pub hex_record : ℕ → Variables → List ℕ → Scanned Line
hex_record addr_bytes v s = then_scan (scan_hex 2 v.byte_count s) (λ (n, s1).
    then_scan (scan_hex 4 v.address s1) (λ (a, s2).
      then_scan (scan_hex 2 v.separator s2) (λ (t, s3).
        typed_record addr_bytes (record v { byte_count = n; address = a; separator = t }) s3)))

-- One pass of the loop on a character of the file: a record, a line end, a space, or no hex file.
unfoldable pub hex_line : ℕ → Variables → ℕ → List ℕ → Scanned Line
hex_line addr_bytes v colon s =
    if colon == 58
    then hex_record addr_bytes v s
    else scanned (record {
      variables = v;
      left = s;
      good = colon == 13 || colon == 10 || colon == 32;
      last_byte = false;
    })

-- Where the loop goes from a pass.
unfoldable pub next_line :
    Scanned Line
    → (Variables → List ℕ → Option (Scanned (Bool × Variables)))
    → Option (Scanned (Bool × Variables))
next_line outside again = some outside
next_line (scanned l) again =
    let more = again l.variables l.left in
    if not l.good
    then some (scanned (false, l.variables))
    else if l.last_byte
    then some (scanned (true, l.variables))
    else more

-- The loop of `LoadHex` on fuel: `bRet` and the variables; `none`: the fuel is used up.
unfoldable pub load_lines : ℕ → ℕ → Variables → List ℕ → Option (Scanned (Bool × Variables))
load_lines zero addr_bytes v s = none
load_lines (suc fuel) addr_bytes v [] = some (scanned (true, v))
load_lines (suc fuel) addr_bytes v (colon ∷ s) =
    next_line (hex_line addr_bytes v colon s) (load_lines fuel addr_bytes)

-- What `LoadHex` answers: false, or true with the elements and the data size; `undefined`: the loop of
-- `CompactElements` has read behind the vector; `unmodelled`: a field with a sign or a prefix.
pub data Load : Type 0 where
  refused : Load
  loaded : List ImageElement → ℕ → Load
  undefined : Load
  unmodelled : Load

-- From the loop to the answer.
unfoldable pub compacted : ℕ → Option (List ImageElement) → Load
compacted data_size none = undefined
compacted data_size (some es) = loaded es data_size

unfoldable pub finish : Scanned (Bool × Variables) → Load
finish outside = unmodelled
finish (scanned (false, v)) = refused
finish (scanned (true, v)) = compacted v.data_size (compact_elements v.elements)

-- `LoadHex`: `file` is none where `fopen` fails, and `v` holds what the variables happen to hold.
unfoldable pub load_hex : Variables → List ℕ → Option (List ℕ) → ℕ → Option Load
load_hex v path none addr_bytes = some refused
load_hex v path (some file) addr_bytes =
    let lines =
      load_lines (size file + 1) addr_bytes
        (record v { elements = []; data_size = 0; base_address = 0; extended_address = 0 }) file in
    if check_file_ext path
    then elim lines [ none ↦ none | some answer ↦ some (finish answer) ]
    else some refused
