-- ===== src/Rkimage/Check.antt =====
-- rkimage.cpp: check_image_crc.
pub mod Whole
use ota_backup.Base.{
  ℕ, zero, suc, ◌+◌, ◌-◌, ◌*◌, ◌%◌, ◌^◌, List, [], ◌∷◌, Bool, true, false, ◌==◌, ltb, not,
  if◌then◌else◌, Option, none, some, ℤ, pos, minus_one, is_zero, min, get_or,
}
use ota_backup.Rkimage.Read.{OpenFile, seek, read_file, read_partition}

-- `MY_READ` with `g_src_isFile?-1:offset` as its offset; `stack` is what `buf` of `read_partition` happens
-- to hold.
pub my_read : Bool → List ℕ → ℕ → ℕ → OpenFile → Option (ℤ × List ℕ × OpenFile)
my_read is_file stack offset size f =
    if is_file then some (read_file minus_one size f) else read_partition stack (pos offset) size f

abbrev pub chunk_size : ℕ
chunk_size = 32 * 2 ^ 9

-- `int remain = image_size`; below 0 it is 0 for the loop.
unfoldable pub remain_of : ℕ → ℕ
remain_of image_size = if ltb (image_size % 2 ^ 32) (2 ^ 31) then image_size % 2 ^ 32 else 0

-- `*(unsigned long*)buffer`, four bytes, the low one first.
pub word : List ℕ → ℕ
word b = get_or b 0 0 + get_or b 1 0 * 2 ^ 8 + get_or b 2 0 * 2 ^ 16 + get_or b 3 0 * 2 ^ 24

module _ (crc_32_new : List ℕ → ℕ → ℕ) (is_file : Bool) (stack : List ℕ) where
  -- The checksum behind the image, and the comparison.
  pub compare_crc : ℕ → Option (ℤ × List ℕ × OpenFile) → Option ℤ
  compare_crc crc none = none
  compare_crc crc (some (ret, buffer, f)) =
      if not (is_zero ret)
      then some minus_one
      else if not (crc == word buffer)
      then some minus_one
      else some (pos 0)

  -- What follows a read of a chunk.
  pub if_read : Option (ℤ × List ℕ × OpenFile) → (List ℕ → OpenFile → Option ℤ) → Option ℤ
  if_read none rest = none
  if_read (some (ret, buffer, f)) rest =
      let next = rest buffer f in if not (is_zero ret) then some minus_one else next

  -- The loop `while(remain > 0)` on fuel, and what follows it.
  pub crc_loop : ℕ → ℕ → ℕ → ℕ → OpenFile → Option ℤ
  crc_loop zero remain crc file_offset f = none
  crc_loop (suc fuel) remain crc file_offset f =
      let read_count = min chunk_size remain in
      let done = compare_crc crc (my_read is_file stack file_offset 4 f) in
      let more = if_read (my_read is_file stack file_offset read_count f) (λ buffer f'.
        crc_loop fuel (remain - read_count) (crc_32_new buffer crc) (file_offset + read_count)
          f') in
      if remain == 0 then done else more

  -- `check_image_crc`: the file is `none` where `open` fails. A result `none`: a loop ran out of its fuel.
  pub check_image_crc : ℕ → ℕ → Option OpenFile → Option ℤ
  check_image_crc fw_offset image_size none = some minus_one
  check_image_crc fw_offset image_size (some f) =
      crc_loop (remain_of image_size + 1) (remain_of image_size) 0 fw_offset (seek fw_offset f)
