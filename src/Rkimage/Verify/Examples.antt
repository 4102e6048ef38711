-- ===== src/Rkimage/Verify/Examples.antt =====
-- A partition that lies in memory, and an image file with one item.
use ota_backup.Base.{
  ℕ, ◌+◌, ◌^◌, ◌≤◌, ◌≡◌, inl, inr, refl, ap, arith, List, [], ◌∷◌, Bool, true, false, Bool-cases,
  leb, if◌then◌else◌, none, some, ℤ, pos, minus_one, length, take, drop, memcpy, replicate,
}
use ota_backup.Image.Path.{str_equal}
use ota_backup.Rkimage.Read.{OpenFile, seek_to, read, seek}
use ota_backup.Rkimage.Items.{ImageItem, ImageHeader, find_item, find_among}
use ota_backup.Rkimage.Target.{Target, write_all, open_partition_path}
use ota_backup.Rkimage.Copy.{write_image}
use ota_backup.Rkimage.Copy.Copied.{Copied, IsPartition}
use ota_backup.Rkimage.Copy.Stored.{StoredBytes, seek_to-content, write_image-StoredBytes}
use ota_backup.Rkimage.Verify.{image_compare}
use ota_backup.Rkimage.Verify.Equal.{image_compare-Same}

pub write_in : List ℕ → OpenFile → ℤ × OpenFile
write_in bytes d =
    if leb (d.position + length bytes) (length d.content)
    then (
      pos (length bytes),
      record {
        content = memcpy d.content d.position bytes (length bytes);
        position = d.position + length bytes;
      },
    )
    else (minus_one, d)

abbrev pub in_memory : Target OpenFile
in_memory = record {
  ensure_path_mounted = λ path d. (pos 0, d);
  ensure_path_unmounted = λ path d. (pos 0, d);
  create_directories = λ path d. d;
  volume_for_path = λ path. record { fs_type = []; blk_device = path };
  find_mtd = λ name. none;
  open_path = λ path d. (pos 3, d);
  open_mtd = λ index d. (pos 3, d);
  lseek_target = seek_to;
  write_target = write_in;
  read_target = read;
}

-- A write that is complete fits.
write_all-fits :
    (bytes : List ℕ) (d : OpenFile)
    → (write_all in_memory bytes d).0 ≡ true
    → leb (d.position + length bytes) (length d.content) ≡ true
unfolding write_in write_all
write_all-fits bytes d = elim (Bool-cases (leb (d.position + length bytes) (length d.content))) [
  | inl fits ↦ λ h. fits
  | inr long ↦ rw long (λ h. absurd (refused h))
]
  where
    refused : ◌≡◌ {A = Bool} false true → ⊥
    refused h = cc

pub in_memory-IsPartition : IsPartition OpenFile in_memory (λ d. d.content) (λ d. d.position)
unfolding write_in write_all read seek_to seek
in_memory-IsPartition = record {
  written = λ bytes d h. written bytes d (write_all-fits bytes d h);
  whole_read = λ n d h. (refl, refl, ap (λ k. d.position + k) h);
  sought_content = λ o d. seek_to-content o d;
  sought_at = λ o d. refl;
}
  where
    written :
        (bytes : List ℕ) (d : OpenFile)
        → leb (d.position + length bytes) (length d.content) ≡ true
        → (d.position + length bytes ≤ length d.content)
          × ((write_in bytes d).1.content ≡ memcpy d.content d.position bytes (length bytes))
          × ((write_in bytes d).1.position ≡ d.position + length bytes)
    written bytes d fits = rw fits (ground arith, refl, refl)

-- "boot"
abbrev pub boot_name : List ℕ
boot_name = 98 ∷ 111 ∷ 111 ∷ 116 ∷ []

abbrev boot_item : ImageItem
boot_item = record { name = boot_name; offset = 2; size = 3 }

abbrev pub boot_image : ImageHeader
boot_image = record { tag = 7; size = 5; item = boot_item ∷ [] }

abbrev pub boot_file : OpenFile
boot_file = record { content = 1 ∷ 2 ∷ 3 ∷ 4 ∷ 5 ∷ []; position = 0 }

abbrev pub partition : OpenFile
partition = record { content = replicate (2 ^ 21) 9; position = 0 }

write_image-StoredBytes_example :
    Copied
      (StoredBytes OpenFile in_memory
        (λ d. d.content)
        (λ d. d.position)
        in_memory-IsPartition
        8
        boot_name
        partition
        3
        (take 3 (drop 2 boot_file.content)))
      (write_image in_memory boot_image true []
        (some boot_file)
        boot_name
        boot_name
        (pos 8)
        partition)
unfolding find_item find_among str_equal
write_image-StoredBytes_example =
    write_image-StoredBytes OpenFile in_memory (λ d. d.content) (λ d. d.position)
      in_memory-IsPartition 8 boot_name partition boot_image [] boot_name boot_file boot_item refl
      (omega arith) refl

image_compare-Same_example :
    Copied
      (λ d'.
        take 3 (drop 8 ((open_partition_path in_memory boot_name partition).1).content)
        ≡ take 3 (drop 2 boot_file.content))
      (image_compare in_memory true boot_image true []
        (some boot_file)
        boot_name
        boot_name
        (pos 8)
        partition)
unfolding find_item find_among str_equal
image_compare-Same_example =
    image_compare-Same OpenFile in_memory (λ d. d.content) (λ d. d.position) in_memory-IsPartition
      true boot_image [] boot_name boot_name 8 partition boot_file boot_item refl (omega arith)
      (omega arith)
