-- ===== src/Rkimage/Check/Whole.antt =====
-- The check by chunks is a check of the image as a whole.
use ota_backup.Base.{
  ℕ, zero, suc, ◌+◌, ◌-◌, ◌%◌, ◌^◌, ◌≤◌, ◌<◌, ◌≡◌, inl, inr, refl, sym, ap, ap₂, ◌∙◌, arith, List,
  [], ◌++◌, true, false, Bool-cases, ◌==◌, ltb, not, if◌then◌else◌, some, pos, minus_one, length,
  min,
}
use ota_backup.Rkimage.Read.{OpenFile, seek, seek_to, read, read_file}
use ota_backup.Rkimage.Read.Slice.{slice, length-slice, slice-add}
use ota_backup.Rkimage.Check.{
  my_read, remain_of, word, compare_crc, if_read, crc_loop, check_image_crc,
}

-- A checksum that can be continued over the bytes that follow.
pub record Continues (crc : List ℕ → ℕ → ℕ) : Type 0 where
  pub nothing : (c : ℕ) → crc [] c ≡ c
  pub appended : (xs ys : List ℕ) (c : ℕ) → crc (xs ++ ys) c ≡ crc ys (crc xs c)

file_read :
    (f : OpenFile) (size : ℕ)
    → f.position + size ≤ length f.content
    → read_file minus_one size f
      ≡ (pos 0, slice f f.position size, record f { position = f.position + size })
unfolding read_file seek_to read
file_read f size h = rw (length-slice f f.position size h, same) refl
  where
    same : (size == size) ≡ true
    same = ground arith

module _ (crc : List ℕ → ℕ → ℕ) (goes : Continues crc) (stack : List ℕ) where
  crc_loop-whole :
      (fuel remain c at : ℕ) (f : OpenFile)
      → remain < fuel
      → f.position + remain + 4 ≤ length f.content
      → crc_loop crc true stack fuel remain c at f
        ≡ some (
            if crc (slice f f.position remain) c == word (slice f (f.position + remain) 4)
            then pos 0
            else minus_one)
  unfolding crc_loop my_read compare_crc if_read
  crc_loop-whole zero remain c at f h there = absurd (omega arith)
  crc_loop-whole (suc fuel) zero c at f h there =
      rw (file_read f 4 (omega arith), here, goes.nothing c)
        (compared (word (slice f f.position 4)))
    where
      here : f.position + 0 ≡ f.position
      here = omega arith

      compared :
          (n : ℕ)
          → (if not (c == n) then some minus_one else some (pos 0))
            ≡ some (if c == n then pos 0 else minus_one)
      compared n = elim (Bool-cases (c == n)) [ inl e ↦ rw e refl | inr e ↦ rw e refl ]
  crc_loop-whole (suc fuel) (suc r) c at f h there =
      rw (not_done, file_read f k (omega arith))
        (crc_loop-whole fuel (suc r - k) (crc (slice f f.position k) c) (at + k)
            (record f { position = f.position + k }) (omega arith) (omega arith)
          ∙ ap₂ (λ x y. some (if x == word y then pos 0 else minus_one)) summed
              (ap (λ i. slice f i 4) behind))
    where
      k : ℕ
      k = min 16384 (suc r)

      not_done : (suc r == 0) ≡ false
      not_done = ground arith

      behind : f.position + k + (suc r - k) ≡ f.position + suc r
      behind = omega arith

      all : k + (suc r - k) ≡ suc r
      all = omega arith

      summed :
          crc (slice f (f.position + k) (suc r - k)) (crc (slice f f.position k) c)
          ≡ crc (slice f f.position (suc r)) c
      summed =
          sym (goes.appended (slice f f.position k) (slice f (f.position + k) (suc r - k)) c)
          ∙ ap (λ b. crc b c)
              (slice-add f f.position k (suc r - k) ∙ ap (λ n. slice f f.position n) all)

  -- On an image file of less than 2 GB that is there in full with the four bytes behind it, and for a
  -- checksum that can be continued, `check_image_crc` returns 0 exactly when those four bytes are the
  -- checksum of the whole image, and -1 otherwise.
  pub check_image_crc-whole :
      (fw_offset image_size : ℕ) (f : OpenFile)
      → image_size < 2 ^ 31
      → fw_offset + image_size + 4 ≤ length f.content
      → check_image_crc crc true stack fw_offset image_size (some f)
        ≡ some (
            if crc (slice f fw_offset image_size) 0 == word (slice f (fw_offset + image_size) 4)
            then pos 0
            else minus_one)
  unfolding check_image_crc remain_of seek
  check_image_crc-whole fw_offset image_size f h there =
      rw (fits, low)
        (crc_loop-whole (image_size + 1) image_size 0 fw_offset (record f { position = fw_offset })
          (omega arith) there)
    where
      low : image_size % 2 ^ 32 ≡ image_size
      low = omega arith

      fits : ltb (image_size % 2 ^ 32) (2 ^ 31) ≡ true
      fits = ground arith
