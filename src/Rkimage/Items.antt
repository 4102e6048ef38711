-- ===== src/Rkimage/Items.antt =====
-- rkimage.cpp: the header of an image with its items, and CheckImageFile, which reads it.
use ota_backup.Base.{
  ℕ, ◌+◌, ◌-◌, ◌%◌, ◌^◌, List, [], ◌∷◌, Bool, ◌==◌, ltb, not, if◌then◌else◌, Option, none, some, ℤ,
  pos, negsuc, minus_one, is_zero, is_positive, map, drop,
}
use ota_backup.Image.Path.{str_equal}
use ota_backup.Rkimage.Read.{OpenFile, read_file, read_partition}
use ota_backup.Rkimage.Check.{word, check_image_crc}

-- `RKIMAGE_ITEM` and `RKIMAGE_HDR`, as far as they are used. rkimage.h, which declares them, is not in the
-- repository: their numbers are taken to have 32 bits, and `item` has the first `item_count` items.
pub record ImageItem : Type 0 where
  pub name : List ℕ
  pub offset : ℕ
  pub size : ℕ

pub record ImageHeader : Type 0 where
  pub tag : ℕ
  pub size : ℕ
  pub item : List ImageItem

-- `FindItem`
unfoldable pub find_among : List ImageItem → List ℕ → Option ImageItem
find_among [] name = none
find_among (i ∷ items) name =
    let rest = find_among items name in if str_equal i.name name then some i else rest

unfoldable pub find_item : ImageHeader → List ℕ → Option ImageItem
find_item hdr name = find_among hdr.item name

-- `adjustFileOffset`
pub adjusted : ℕ → ImageItem → ImageItem
adjusted offset i = record i { offset = (i.offset + offset) % 2 ^ 32 }

pub adjust_file_offset : ImageHeader → ℕ → ImageHeader
adjust_file_offset hdr offset = record hdr { item = map (adjusted offset) hdr.item }

-- A number of 32 bits as an `int`, and as the `off_t` of 32 bits that MY_READ takes.
unfoldable pub signed : ℕ → ℤ
signed n = let m = n % 2 ^ 32 in if ltb m (2 ^ 31) then pos m else negsuc (2 ^ 32 - 1 - m)

-- `MY_READ`
unfoldable pub read_source : Bool → List ℕ → ℕ → ℕ → OpenFile → Option (ℤ × List ℕ × OpenFile)
read_source is_file stack offset size f =
    if is_file
    then some (read_file (signed offset) size f)
    else read_partition stack (signed offset) size f

-- What CheckImageFile leaves: its result, gFwOffset, and the header where it was read in full.
pub record CheckedImage : Type 0 where
  pub result : ℤ
  pub fw_offset : ℕ
  pub header : Option ImageHeader

-- "RKFW", the tag of the packaging with a loader in front.
abbrev pub rkfw_tag : ℕ
rkfw_tag = 0x57464B52

-- What rkimage.h defines: RKIMAGE_TAG, the size of a header, and the header in its bytes.
pub record ImageFormat : Type 0 where
  pub rkimage_tag : ℕ
  pub header_size : ℕ
  pub header_of : List ℕ → ImageHeader

-- `model` is the result of `property_get("ro.product.model", …)`.
module _ (format : ImageFormat) (crc_32_new : List ℕ → ℕ → ℕ) (is_file : Bool) (stack : List ℕ)
    (model : ℤ) where
  -- From the check of the tag on. check_image_crc opens the same path again.
  pub check_header : ℕ → ImageHeader → OpenFile → Option CheckedImage
  check_header fw_offset hdr f =
      if not (hdr.tag == format.rkimage_tag)
      then some (record { result = negsuc 2; fw_offset = fw_offset; header = some hdr })
      else if not (is_positive model)
      then some (record { result = negsuc 3; fw_offset = fw_offset; header = some hdr })
      else elim (check_image_crc crc_32_new is_file stack fw_offset hdr.size (some f)) [
        | none ↦ none
        | some r ↦
            if not (is_zero r)
            then some (record { result = negsuc 5; fw_offset = fw_offset; header = some hdr })
            else some (record {
              result = pos 0;
              fw_offset = fw_offset;
              header =
                  some (if not (fw_offset == 0) then adjust_file_offset hdr fw_offset else hdr);
            })
      ]

  -- The read of the header at gFwOffset, and what follows it.
  pub check_at : ℕ → OpenFile → Option CheckedImage
  check_at fw_offset f = elim (read_source is_file stack fw_offset format.header_size f) [
    | none ↦ none
    | some (ret, buffer, f') ↦
        let checked = check_header fw_offset (format.header_of buffer) f in
        if not (is_zero ret)
        then some (record { result = negsuc 1; fw_offset = fw_offset; header = none })
        else checked
  ]

  -- `CheckImageFile`: the file is `none` where `open` fails, before gFwOffset is set.
  pub check_image_file : ℕ → Option OpenFile → Option CheckedImage
  check_image_file fw_offset none =
      some (record { result = minus_one; fw_offset = fw_offset; header = none })
  check_image_file fw_offset (some f) = elim (read_source is_file stack 0 512 f) [
    | none ↦ none
    | some (ret, buf, f') ↦
        let at = if word buf == rkfw_tag then word (drop 0x21 buf) else 0 in
        let checked = check_at at f' in
        if not (is_zero ret)
        then some (record { result = negsuc 1; fw_offset = 0; header = none })
        else checked
  ]
