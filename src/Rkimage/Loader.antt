-- ===== src/Rkimage/Loader.antt =====
-- rkimage.cpp: make_loader_data, which turns a packed loader into the one that the old loader updates
-- itself with, and write_loader. The places of fields are those of the structures there, the ones of a
-- loader packed, with enumerations of four bytes.
pub mod Held
pub mod Place
use ota_backup.Base.{
  ℕ, zero, suc, ◌+◌, ◌*◌, ◌/◌, ◌%◌, ◌^◌, List, [], ◌∷◌, ◌++◌, Bool, true, false, ◌==◌, ltb, not,
  if◌then◌else◌, Option, none, some, ℤ, pos, negsuc, is_negative, length, take, drop, memcpy, zeros,
  get_or,
}
use ota_backup.Image.Path.{str_equal}
use ota_backup.Rkimage.Read.{OpenFile, seek_to, read}
use ota_backup.Rkimage.Check.{word}
use ota_backup.Rkimage.Items.{ImageItem, ImageHeader, find_item, signed}
use ota_backup.Rkimage.Target.{Target, write_all, open_partition_path}

abbrev pub max_loader_len : ℕ
max_loader_len = 256 * 1024

abbrev pub headinfo_size : ℕ
headinfo_size = 512

-- `BCD2INT`
pub bcd2int : ℕ → ℕ
bcd2int num = num / 2 ^ 4 % 2 ^ 4 * 10 + num % 2 ^ 4

-- Numbers of two and of four bytes, the low byte first.
pub half_at : List ℕ → ℕ → ℕ
half_at b i = get_or b i 0 + get_or b (i + 1) 0 * 2 ^ 8

pub word_at : List ℕ → ℕ → ℕ
word_at b i = word (drop i b)

pub half_bytes : ℕ → List ℕ
half_bytes n = n % 2 ^ 8 ∷ n / 2 ^ 8 % 2 ^ 8 ∷ []

pub word_bytes : ℕ → List ℕ
word_bytes n = n % 2 ^ 8 ∷ n / 2 ^ 8 % 2 ^ 8 ∷ n / 2 ^ 16 % 2 ^ 8 ∷ n / 2 ^ 24 % 2 ^ 8 ∷ []

-- "RK28@Copyright2008Rockchip", "FlashData" and "FlashBoot"
abbrev pub bootsign : List ℕ
bootsign =
    82 ∷ 75 ∷ 50 ∷ 56 ∷ 64 ∷ 67 ∷ 111 ∷ 112 ∷ 121 ∷ 114 ∷ 105 ∷ 103 ∷ 104 ∷ 116 ∷ 50 ∷ 48 ∷ 48 ∷ 56
    ∷ 82 ∷ 111 ∷ 99 ∷ 107 ∷ 99 ∷ 104 ∷ 105 ∷ 112 ∷ []

abbrev pub flash_data : List ℕ
flash_data = 70 ∷ 108 ∷ 97 ∷ 115 ∷ 104 ∷ 68 ∷ 97 ∷ 116 ∷ 97 ∷ []

abbrev pub flash_boot : List ℕ
flash_boot = 70 ∷ 108 ∷ 97 ∷ 115 ∷ 104 ∷ 66 ∷ 111 ∷ 111 ∷ 116 ∷ []

-- Every second byte of `szName`, ten at most and up to a zero.
pub name_from : ℕ → ℕ → List ℕ → List ℕ
name_from zero j entry = []
name_from (suc left) j entry =
    let rest = name_from left (j + 2) entry in
    let c = get_or entry (5 + j) 0 in if c == 0 then [] else c ∷ rest

pub entry_name : List ℕ → List ℕ
entry_name entry = name_from 10 0 entry

-- The entries of the two names, the last one where there are more: the loader from where they start.
pub record FlashEntries : Type 0 where
  pub data_entry : Option (List ℕ)
  pub boot_entry : Option (List ℕ)

pub noted : List ℕ → FlashEntries → FlashEntries
noted entry e =
    if str_equal (entry_name entry) flash_data
    then record e { data_entry = some entry }
    else if str_equal (entry_name entry) flash_boot
    then record e { boot_entry = some entry }
    else e

-- The loop over `left` entries from the `i`-th on.
pub entries_from : List ℕ → ℕ → ℕ → FlashEntries → FlashEntries
entries_from old zero i e = e
entries_from old (suc left) i e =
    entries_from old left (i + 1) (noted (drop (word_at old 38 + get_or old 42 0 * i) old) e)

-- The header of 512 bytes: sign, time, version, and the places of the two parts.
pub new_header : List ℕ → ℕ → ℕ → List ℕ
new_header old data_len boot_len =
    memcpy (zeros 32) 0 bootsign (length bootsign)
    ++ zeros 16
    ++ half_bytes (half_at old 14)
    ++ half_bytes (get_or old 16 0)
    ++ half_bytes (get_or old 17 0)
    ++ half_bytes (get_or old 18 0)
    ++ half_bytes (get_or old 19 0)
    ++ half_bytes (get_or old 20 0)
    ++ word_bytes (bcd2int (word_at old 6 / 2 ^ 8 % 2 ^ 8))
    ++ word_bytes (bcd2int (word_at old 6 % 2 ^ 8))
    ++ zeros 16
    ++ word_bytes headinfo_size
    ++ word_bytes data_len
    ++ word_bytes (headinfo_size + data_len)
    ++ word_bytes boot_len
    ++ zeros 412

-- `make_loader_data`: the new loader, `none` where the result is -1. Both parts lie in the old loader.
pub make_loader_data : List ℕ → Option (List ℕ)
make_loader_data old =
    let e =
      entries_from old (get_or old 37 0) 0 (record { data_entry = none; boot_entry = none }) in
    elim e.data_entry [
      | none ↦ none
      | some part ↦ elim e.boot_entry [
        | none ↦ none
        | some boot ↦ some (
            new_header old (word_at part 49) (word_at boot 49)
            ++ take (word_at part 49) (drop (word_at part 45) old)
            ++ take (word_at boot 49) (drop (word_at boot 45) old))
      ]
    ]

-- "BOOT", the tag of a packed loader.
abbrev pub boot_tag : ℕ
boot_tag = 0x544F4F42

-- What is written for an item of which `got` was read.
pub loader_bytes : List ℕ → Option (List ℕ)
loader_bytes got =
    let old_loader = memcpy (zeros max_loader_len) 0 got (length got) in
    if word old_loader == boot_tag then make_loader_data old_loader else some got

module _ {D : Type 0} (target : Target D) where
  -- The comparison of what was written with what is read back.
  pub read_back : List ℕ → List ℕ × D → ℤ × D
  read_back bytes (got, d) =
      if not (length got == length bytes)
      then (negsuc 7, d)
      else if not (str_equal got bytes)
      then (negsuc 8, d)
      else (pos 0, d)

  -- From the opening of the destination on.
  pub store_loader : List ℕ → ℤ → ℤ × D → ℤ × D
  store_loader bytes woffset (fd, d) =
      let (written, d1) = write_all target bytes (target.lseek_target woffset d) in
      let checked =
        read_back bytes (target.read_target (length bytes) (target.lseek_target woffset d1)) in
      if is_negative fd then (negsuc 5, d) else if not written then (negsuc 6, d1) else checked

  -- What follows the read of the item: the bytes to write, of the `size` that was asked for.
  pub store_read : Option (List ℕ) → Bool → List ℕ → ℤ → D → ℤ × D
  store_read none is_whole dest woffset d = (if not is_whole then negsuc 3 else negsuc 4, d)
  store_read (some bytes) is_whole dest woffset d =
      let stored = store_loader bytes woffset (open_partition_path target dest d) in
      if not is_whole then (negsuc 3, d) else stored

  -- What follows the search for the item.
  pub write_item : Option ImageItem → Option OpenFile → List ℕ → ℤ → D → ℤ × D
  write_item none source dest woffset d = (negsuc 1, d)
  write_item (some i) none dest woffset d =
      (if ltb max_loader_len i.offset then negsuc 1 else negsuc 2, d)
  write_item (some i) (some f) dest woffset d =
      let got = (read i.size (seek_to (signed i.offset) f)).0 in
      let stored = store_read (loader_bytes got) (length got == i.size) dest woffset d in
      if ltb max_loader_len i.offset then (negsuc 1, d) else stored

  -- `write_loader` for an item that fits `old_loader`; the source is `none` where `open` gives 0 or fails.
  pub write_loader : ImageHeader → Option OpenFile → List ℕ → List ℕ → ℤ → D → ℤ × D
  write_loader hdr source src dest woffset d = write_item (find_item hdr src) source dest woffset d
