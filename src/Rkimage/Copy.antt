-- ===== src/Rkimage/Copy.antt =====
-- rkimage.cpp: write_image, copy_file_from_image and write_image_from_file, which copy from an image to a
-- partition or to a file by steps of a buffer.
pub mod Pieces
pub mod Copied
pub mod Stored
pub mod Ends
use ota_backup.Base.{
  ℕ, zero, suc, ◌+◌, ◌-◌, ◌*◌, List, [], ◌∷◌, Bool, true, false, ◌==◌, ◌||◌, not, if◌then◌else◌,
  Option, none, some, ℤ, pos, negsuc, minus_one, is_zero, is_negative, min, length, take, drop,
  memcpy, zeros,
}
use ota_backup.Image.Path.{str_equal}
use ota_backup.Rkimage.Read.{OpenFile, seek_to, read_file}
use ota_backup.Rkimage.Check.{remain_of}
use ota_backup.Rkimage.Items.{ImageItem, ImageHeader, find_item, signed, read_source}
use ota_backup.Rkimage.Target.{Target, write_all, open_file_path, open_partition_path}

-- A reader at an offset of the source, as MY_READ.
abbrev pub Reader : Type 0
Reader = ℕ → ℕ → OpenFile → Option (ℤ × List ℕ × OpenFile)

abbrev pub item_step : ℕ
item_step = 16 * 1024

-- "/parameter"
abbrev pub parameter_path : List ℕ
parameter_path = 47 ∷ 112 ∷ 97 ∷ 114 ∷ 97 ∷ 109 ∷ 101 ∷ 116 ∷ 101 ∷ 114 ∷ []

abbrev pub file_step : ℕ
file_step = 1024 * 1024

-- `pread64(…)` gives as many bytes as it was asked for: the result is 0 then. The place of the next
-- `read` stays.
pub pread : ℕ → ℕ → OpenFile → ℤ × List ℕ × OpenFile
pread at n f =
    let got = take n (drop at f.content) in (if length got == n then pos 0 else minus_one, got, f)

module _ {D : Type 0} where
  -- What follows a read; where it fails, -1 behind a write and -2 before the first.
  pub if_read :
      Bool
      → Option (ℤ × List ℕ × OpenFile)
      → D
      → (List ℕ → OpenFile → Option (ℤ × D))
      → Option (ℤ × D)
  if_read written none d rest = none
  if_read written (some (ret, got, f)) d rest =
      let next = rest got f in
      if not (is_zero ret) then some (if written then minus_one else negsuc 1, d) else next

  -- What follows a write.
  pub if_written : Bool × D → (D → Option (ℤ × D)) → Option (ℤ × D)
  if_written (true, d) rest = rest d
  if_written (false, d) rest = some (minus_one, d)

module _ {D : Type 0} (target : Target D) where
  -- The parameter partition is written `times` times, the next at 512 KB times `i`.
  pub write_copies : ℕ → ℕ → List ℕ → D → Bool × D
  write_copies zero i bytes d = (true, d)
  write_copies (suc times) i bytes d =
      let (written, d') = write_all target bytes (target.lseek_target (pos (512 * 1024 * i)) d) in
      let rest = write_copies times (i + 1) bytes d' in if written then rest else (false, d')

  pub write_step : Bool → List ℕ → D → Bool × D
  write_step is_parameter bytes d =
      if is_parameter then write_copies 4 0 bytes d else write_all target bytes d

  module _ (step : ℕ) (dest_is_file is_parameter : Bool) (read_at : Reader) where
    -- The loop `while(src_remain>0 && dest_remain > 0)` on fuel: the result of the function.
    pub copy_loop : ℕ → Bool → ℕ → ℕ → ℕ → OpenFile → D → Option (ℤ × D)
    copy_loop zero written src_remain dest_remain file_offset f d = none
    copy_loop (suc fuel) written src_remain dest_remain file_offset f d =
        let read_count = min step src_remain in
        let left = src_remain - read_count in
        let write_count = if left == 0 then dest_remain else step in
        let count = if dest_is_file then write_count else step in
        let more = if_read written (read_at file_offset read_count f) d (λ got f'.
          if_written
            (write_step is_parameter (take count (memcpy (zeros step) 0 got (length got))) d)
            (copy_loop fuel true left (dest_remain - write_count) (file_offset + read_count) f')) in
        if src_remain == 0 || dest_remain == 0 then some (pos 0, d) else more

  -- From the opening of the destination on: the place in it, and the copy.
  pub copy_to : ℤ × D → ℤ → (D → Option (ℤ × D)) → Option (ℤ × D)
  copy_to (fd, d) woffset copy =
      let copied = copy (target.lseek_target woffset d) in
      if is_negative fd then some (negsuc 5, d) else copied

  -- The item with the name, the source, and what follows. The source is `none` where `open` gives the
  -- descriptor 0, and has no byte where `open` fails, which is not seen: every read of it fails then.
  unfoldable pub with_item :
      Option ImageItem
      → Option OpenFile
      → D
      → (ImageItem → OpenFile → Option (ℤ × D))
      → Option (ℤ × D)
  with_item none source d rest = some (negsuc 3, d)
  with_item (some i) none d rest = some (negsuc 4, d)
  with_item (some i) (some f) d rest = rest i (seek_to (signed i.offset) f)

  -- `write_image`. A negative `size` of an item is 0 for the loop.
  pub write_image :
      ImageHeader → Bool → List ℕ → Option OpenFile → List ℕ → List ℕ → ℤ → D → Option (ℤ × D)
  write_image hdr is_file stack source src dest woffset d =
      with_item (find_item hdr src) source d (λ i f.
        let is_parameter = str_equal dest parameter_path in
        let src_remain = remain_of i.size in
        let dest_remain = if is_parameter then item_step else src_remain in
        copy_to (open_partition_path target dest d) woffset (λ d1.
          copy_loop item_step false is_parameter (read_source is_file stack) (src_remain + 1) false
            src_remain dest_remain i.offset f d1))

  -- `copy_file_from_image`
  pub copy_file_from_image :
      ImageHeader → Option OpenFile → List ℕ → List ℕ → ℤ → D → Option (ℤ × D)
  copy_file_from_image hdr source src dest woffset d =
      with_item (find_item hdr src) source d (λ i f.
        let src_remain = remain_of i.size in
        copy_to (open_file_path target dest d) woffset (λ d1.
          copy_loop item_step true false (λ at n f'. some (read_file (signed at) n f'))
            (src_remain + 1) false src_remain src_remain i.offset f d1))

  -- `write_image_from_file`, with the source as above: a file that does not open has the length -1, which
  -- is no step, as the length of a file without a byte.
  pub write_image_from_file : Option OpenFile → List ℕ → ℤ → D → Option (ℤ × D)
  write_image_from_file none dest woffset d = some (negsuc 4, d)
  write_image_from_file (some f) dest woffset d =
      let image_length = length f.content in
      copy_to (open_partition_path target dest d) woffset (λ d1.
        copy_loop file_step false false (λ at n f'. some (pread at n f')) (image_length + 1) false
          image_length image_length 0 f d1)
