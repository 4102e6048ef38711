-- ===== src/Rkimage/Examples.antt =====
-- A device of two blocks, and an image of three bytes with its checksum.
use ota_backup.Base.{
  ℕ, ◌+◌, ◌≡◌, inr, refl, arith, List, [], ◌∷◌, ◌++◌, true, ◌==◌, if◌then◌else◌, some, pos,
  minus_one, length, take, drop, replicate, length-append, length-replicate,
}
use ota_backup.Rkimage.Read.{OpenFile, read_partition}
use ota_backup.Rkimage.Read.Slice.{slice, read_partition-slice}
use ota_backup.Rkimage.Check.{word, check_image_crc}
use ota_backup.Rkimage.Check.Whole.{Continues, check_image_crc-whole}

abbrev two_blocks : OpenFile
two_blocks = record { content = replicate 512 1 ++ replicate 512 2; position = 7 }

two_blocks_size : length two_blocks.content ≡ 1024
two_blocks_size = omega (
  arith,
  length-append {A = ℕ} (replicate 512 1) (replicate 512 2),
  length-replicate {A = ℕ} 512 1,
  length-replicate {A = ℕ} 512 2,
)

-- Four bytes across the end of the first block.
read_partition-slice_example :
    (f' : OpenFile) × (read_partition (replicate 512 0) (pos 510) 4 two_blocks
      ≡ some (pos 0, take 4 (drop 510 two_blocks.content), f'))
read_partition-slice_example =
    read_partition-slice (replicate 512 0) 510 4 two_blocks (length-replicate {A = ℕ} 512 0)
      (omega (arith, two_blocks_size)) (inr (omega arith))

-- A sum of bytes, which can be continued.
byte_sum : List ℕ → ℕ → ℕ
byte_sum [] c = c
byte_sum (x ∷ xs) c = byte_sum xs (c + x)

byte_sum-append : (xs ys : List ℕ) (c : ℕ) → byte_sum (xs ++ ys) c ≡ byte_sum ys (byte_sum xs c)
unfolding byte_sum
byte_sum-append [] ys c = refl
byte_sum-append (x ∷ xs) ys c = byte_sum-append xs ys (c + x)

byte_sum-Continues : Continues byte_sum
unfolding byte_sum
byte_sum-Continues = record { nothing = λ c. refl; appended = byte_sum-append }

abbrev small_image_file : OpenFile
small_image_file = record { content = 9 ∷ 1 ∷ 2 ∷ 3 ∷ 6 ∷ 0 ∷ 0 ∷ 0 ∷ []; position = 0 }

check_image_crc-whole_example :
    check_image_crc byte_sum true [] 1 3 (some small_image_file)
    ≡ some (
        if byte_sum (slice small_image_file 1 3) 0 == word (slice small_image_file (1 + 3) 4)
        then pos 0
        else minus_one)
check_image_crc-whole_example =
    check_image_crc-whole byte_sum byte_sum-Continues [] 1 3 small_image_file (omega arith)
      (omega arith)
