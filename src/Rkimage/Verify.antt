-- ===== src/Rkimage/Verify.antt =====
-- rkimage.cpp: image_compare, which compares an item of an image with a partition.
pub mod Equal
pub mod Ends
pub mod Examples
use ota_backup.Base.{
  ℕ, zero, suc, ◌+◌, ◌-◌, ◌*◌, List, Bool, false, ◌==◌, not, if◌then◌else◌, Option, none, some, ℤ,
  pos, negsuc, minus_one, is_zero, is_negative, min, length, ◌||◌,
}
use ota_backup.Image.Path.{str_equal}
use ota_backup.Rkimage.Read.{OpenFile, seek_to}
use ota_backup.Rkimage.Check.{remain_of}
use ota_backup.Rkimage.Compare.{my_memcmp}
use ota_backup.Rkimage.Items.{ImageItem, ImageHeader, find_item, signed, read_source}
use ota_backup.Rkimage.Target.{Target, open_partition_path}
use ota_backup.Rkimage.Copy.{Reader, with_item, copy_to, item_step, parameter_path}

abbrev pub compare_buffer_size : ℕ
compare_buffer_size = 1024 * 1024

module _ {D : Type 0} (target : Target D) where
  -- The comparison of what was read; a read of the destination that is not of a whole buffer fails.
  pub if_same : List ℕ → ℕ → List ℕ × D → (D → Option (ℤ × D)) → Option (ℤ × D)
  if_same src_buf src_read_count (dest_buf, d) rest =
      let next = rest d in
      if not (length dest_buf == compare_buffer_size)
      then some (negsuc 1, d)
      else if not ((my_memcmp src_buf dest_buf src_read_count).0 == 0)
      then some (minus_one, d)
      else next

  -- What follows a read of the source.
  pub if_source :
      Option (ℤ × List ℕ × OpenFile) → D → (List ℕ → OpenFile → Option (ℤ × D)) → Option (ℤ × D)
  if_source none d rest = none
  if_source (some (ret, got, f)) d rest =
      let next = rest got f in if not (is_zero ret) then some (negsuc 1, d) else next

  -- The loop on fuel. dest_remain is counted down behind the loop only, so that it is the same in every
  -- turn.
  pub compare_loop : Reader → ℕ → ℕ → ℕ → ℕ → OpenFile → D → Option (ℤ × D)
  compare_loop read_at zero src_remain dest_remain file_offset f d = none
  compare_loop read_at (suc fuel) src_remain dest_remain file_offset f d =
      let read_count = min compare_buffer_size src_remain in
      let more = if_source (read_at file_offset read_count f) d (λ got f'.
        if_same got read_count (target.read_target compare_buffer_size d) (
          compare_loop read_at fuel (src_remain - read_count) dest_remain (file_offset + read_count)
            f')) in
      if src_remain == 0 || dest_remain == 0 then some (pos 0, d) else more

  -- `image_compare`; `has_memory` is that the first `malloc` gives a buffer. The second is not looked at,
  -- and gives one here.
  pub image_compare :
      Bool
      → ImageHeader
      → Bool
      → List ℕ
      → Option OpenFile
      → List ℕ
      → List ℕ
      → ℤ
      → D
      → Option (ℤ × D)
  image_compare has_memory hdr is_file stack source src dest woffset d =
      with_item target (find_item hdr src) source d (λ i f.
        let src_remain = remain_of i.size in
        let dest_remain = if str_equal dest parameter_path then item_step else src_remain in
        copy_to target (open_partition_path target dest d) woffset (λ d1.
          let compared =
            compare_loop (read_source is_file stack) (src_remain + 1) src_remain dest_remain
              i.offset f d1 in
          if not has_memory then some (negsuc 6, d1) else compared))
