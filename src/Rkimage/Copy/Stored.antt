-- ===== src/Rkimage/Copy/Stored.antt =====
-- rkimage.cpp: write_image and write_image_from_file leave the bytes of their source.
use ota_backup.Base.{
  ℕ, ◌+◌, ◌%◌, ◌^◌, ◌≤◌, ◌<◌, ◌≡◌, inl, inr, refl, ap, ◌∙◌, arith, List, true, false, Bool-cases,
  ltb, ◌==◌, Option, some, ℤ, pos, negsuc, length, take, drop, take_all, ==→eq, subst,
}
use ota_backup.Image.Path.{str_equal}
use ota_backup.Rkimage.Read.{OpenFile, seek, seek_to, read, read_file}
use ota_backup.Rkimage.Check.{remain_of}
use ota_backup.Rkimage.Items.{ImageItem, ImageHeader, find_item, signed, read_source}
use ota_backup.Rkimage.Target.{Target, open_partition_path}
use ota_backup.Rkimage.Copy.{
  with_item, copy_to, pread, item_step, file_step, parameter_path, write_image,
  write_image_from_file, Reader, copy_loop,
}
use ota_backup.Rkimage.Copy.Copied.{Copied, Copied-map, ReadsAt, IsPartition, copy_loop-Copied}

pub signed_small : (n : ℕ) → n < 2 ^ 31 → signed n ≡ pos n
unfolding signed
signed_small n h = rw (low, fits) refl
  where
    low : n % 2 ^ 32 ≡ n
    low = omega arith

    fits : ltb n (2 ^ 31) ≡ true
    fits = ground arith

read_file-ReadsAt :
    (c : List ℕ) (place n : ℕ) (f : OpenFile)
    → f.content ≡ c
    → ReadsAt c place n (some (read_file (pos place) n f))
unfolding read_file seek_to seek read
read_file-ReadsAt c place n f e = elim (Bool-cases (length (take n (drop place f.content)) == n)) [
  | inl full ↦
      rw full (
        ap (λ l. take n (drop place l)) e,
        ==→eq (length (take n (drop place f.content))) n full,
        e,
      )
  | inr part ↦ rw part tt
]

pub read_source-ReadsAt :
    (stack c : List ℕ) (place n : ℕ) (f : OpenFile)
    → place < 2 ^ 31
    → f.content ≡ c
    → ReadsAt c place n (read_source true stack place n f)
unfolding read_source
read_source-ReadsAt stack c place n f h e =
    rw (signed_small place h) (read_file-ReadsAt c place n f e)

pub seek_to-content : (o : ℤ) (f : OpenFile) → (seek_to o f).content ≡ f.content
unfolding seek_to seek
seek_to-content (pos n) f = refl
seek_to-content (negsuc n) f = refl

pread-ReadsAt :
    (c : List ℕ) (place n : ℕ) (f : OpenFile)
    → f.content ≡ c
    → ReadsAt c place n (some (pread place n f))
unfolding pread
pread-ReadsAt c place n f e = elim (Bool-cases (length (take n (drop place f.content)) == n)) [
  | inl full ↦
      rw full (
        ap (λ l. take n (drop place l)) e,
        ==→eq (length (take n (drop place f.content))) n full,
        e,
      )
  | inr part ↦ rw part tt
]

-- From the destination on: the copy starts at the offset in it, on the content as it was.
pub copy_to-Copied :
    (D : Type 0) (target : Target D) (P : D → Type 0) (p : ℤ × D) (woffset : ℕ)
    (copy : D → Option (ℤ × D))
    → Copied P (copy (target.lseek_target (pos woffset) (p.1)))
    → Copied P (copy_to target p (pos woffset) copy)
unfolding copy_to
copy_to-Copied D target P (pos n, d) woffset copy h = h
copy_to-Copied D target P (negsuc n, d) woffset copy h = tt

module _ (D : Type 0) (target : Target D) (content : D → List ℕ) (at : D → ℕ)
    (is : IsPartition D target content at) (woffset : ℕ) (dest : List ℕ) (d : D) where
  -- A copy that starts at `woffset`.
  starting :
      (step : ℕ) (read_at : Reader) (c : List ℕ) (bound : ℕ)
      → 0 < step
      → ((place n : ℕ) (f : OpenFile)
          → place + n ≤ bound
          → f.content ≡ c
          → ReadsAt c place n (read_at place n f))
      → (r place : ℕ) (f : OpenFile) (d1 : D) → place + r ≤ bound
      → f.content ≡ c
      → Copied
          (λ d'.
            (take r (drop woffset (content d')) ≡ take r (drop place c))
            × (take woffset (content d') ≡ take woffset (content d1)))
          (copy_loop target step false false read_at
            (r + 1)
            false
            r
            r
            place
            f
            (target.lseek_target (pos woffset) d1))
  starting step read_at c bound some_step reads r place f d1 k e =
      subst
        (λ o.
          Copied
            (λ d'.
              (take r (drop o (content d')) ≡ take r (drop place c))
              × (take o (content d') ≡ take o (content d1)))
            (copy_loop target step false false read_at (r + 1) false r r place f
              (target.lseek_target (pos woffset) d1)))
        (is.sought_at woffset d1)
        (subst
          (λ l.
            Copied
              (λ d'.
                (take r (drop (at d2) (content d')) ≡ take r (drop place c))
                × (take (at d2) (content d') ≡ take (at d2) l))
              (copy_loop target step false false read_at (r + 1) false r r place f d2))
          (is.sought_content (pos woffset) d1)
          (copy_loop-Copied target content at is step read_at c bound reads some_step (r + 1) false
            r place f d2 (omega arith) k e))
    where
      d2 : D
      d2 = target.lseek_target (pos woffset) d1

  -- The bytes are at `woffset`, and those before are as the opened destination had them.
  abbrev pub StoredBytes : ℕ → List ℕ → D → Type 0
  StoredBytes n bytes d' =
      (take n (drop woffset (content d')) ≡ bytes)
      × (take woffset (content d') ≡ take woffset (content ((open_partition_path target dest d).1)))

  -- write_image_from_file on a file that opens has a result, and where it is 0, the partition holds the
  -- whole file at the offset, with the bytes before it as they were.
  pub write_image_from_file-StoredBytes :
      (f : OpenFile)
      → Copied
          (StoredBytes (length f.content) f.content)
          (write_image_from_file target (some f) dest (pos woffset) d)
  unfolding write_image_from_file
  write_image_from_file-StoredBytes f =
      copy_to-Copied D target (StoredBytes (length f.content) f.content)
        (open_partition_path target dest d) woffset _
        (Copied-map _ (StoredBytes (length f.content) f.content)
          (λ d' h. (h.0 ∙ take_all (length f.content) f.content (omega arith), h.1)) _
          (starting file_step (λ at' n f'. some (pread at' n f')) f.content (length f.content)
            (omega arith) (λ place n f' k e. pread-ReadsAt f.content place n f' e)
            (length f.content) 0 f _ (omega arith) refl))

  -- write_image from a file, on an item below 2 GB and a destination other than /parameter, has a result,
  -- and where it is 0, the partition holds the bytes of the item at the offset, with the bytes before it
  -- as they were.
  pub write_image-StoredBytes :
      (hdr : ImageHeader) (stack src : List ℕ) (f : OpenFile) (i : ImageItem)
      → find_item hdr src ≡ some i
      → i.offset + i.size < 2 ^ 31
      → str_equal dest parameter_path ≡ false
      → Copied
          (StoredBytes i.size (take i.size (drop i.offset f.content)))
          (write_image target hdr true stack (some f) src dest (pos woffset) d)
  unfolding write_image with_item remain_of
  write_image-StoredBytes hdr stack src f i found small other =
      rw (found, other, low, fits)
        (copy_to-Copied D target (StoredBytes i.size (take i.size (drop i.offset f.content)))
          (open_partition_path target dest d) woffset _
          (starting item_step (read_source true stack) f.content (i.offset + i.size) (omega arith)
            (λ place n f' k e. read_source-ReadsAt stack f.content place n f' (omega arith) e)
            i.size i.offset (seek_to (signed i.offset) f) _ (omega arith)
            (seek_to-content (signed i.offset) f)))
    where
      low : i.size % 2 ^ 32 ≡ i.size
      low = omega arith

      fits : ltb i.size (2 ^ 31) ≡ true
      fits = ground arith
