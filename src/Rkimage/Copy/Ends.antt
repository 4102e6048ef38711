-- ===== src/Rkimage/Copy/Ends.antt =====
-- rkimage.cpp: the copy and the comparison of an item of an image file end, whatever the item and the
-- destination are.
use ota_backup.Base.{
  ℕ, zero, suc, ◌-◌, ◌<◌, ◌≡◌, inl, inr, arith, List, Bool, true, false, Bool-cases, ◌==◌, Option,
  none, some, ℤ, pos, negsuc, is_zero, is_negative, min,
}
use ota_backup.Rkimage.Read.{OpenFile}
use ota_backup.Rkimage.Items.{ImageItem, ImageHeader, find_item, read_source}
use ota_backup.Rkimage.Target.{Target}
use ota_backup.Rkimage.Copy.{if_read, if_written, copy_loop, copy_to, with_item, write_image}
use ota_backup.Rkimage.Copy.Copied.{Copied}

-- There is a result.
abbrev pub Ends : {D : Type 0} → Option (ℤ × D) → Type 0
Ends {D = D} o = Copied {D = D} (λ d. Unit) o

pub some-Ends : {D : Type 0} (p : ℤ × D) → Ends (some p)
some-Ends (pos zero, d) = tt
some-Ends (pos (suc n), d) = tt
some-Ends (negsuc n, d) = tt

module _ (D : Type 0) where
  if_read-Ends :
      (written : Bool) (r : ℤ × List ℕ × OpenFile) (d : D)
      (rest : List ℕ → OpenFile → Option (ℤ × D))
      → ((got : List ℕ) (f : OpenFile) → Ends (rest got f))
      → Ends (if_read written (some r) d rest)
  unfolding if_read
  if_read-Ends written (ret, got, f) d rest h = elim (Bool-cases (is_zero ret)) [
    | inl ok ↦ rw ok (h got f)
    | inr bad ↦ rw bad (some-Ends _)
  ]

  if_written-Ends :
      (p : Bool × D) (rest : D → Option (ℤ × D))
      → ((d : D) → Ends (rest d))
      → Ends (if_written p rest)
  unfolding if_written
  if_written-Ends (true, d) rest h = h d
  if_written-Ends (false, d) rest h = tt

  pub copy_to-Ends :
      (target : Target D) (p : ℤ × D) (woffset : ℤ) (copy : D → Option (ℤ × D))
      → ((d : D) → Ends (copy d))
      → Ends (copy_to target p woffset copy)
  unfolding copy_to
  copy_to-Ends target (fd, d) woffset copy h = elim (Bool-cases (is_negative fd)) [
    | inl bad ↦ rw bad tt
    | inr ok ↦ rw ok (h (target.lseek_target woffset d))
  ]

  pub with_item-Ends :
      (target : Target D) (o : Option ImageItem) (source : Option OpenFile) (d : D)
      (rest : ImageItem → OpenFile → Option (ℤ × D))
      → ((i : ImageItem) (f : OpenFile) → Ends (rest i f))
      → Ends (with_item target o source d rest)
  unfolding with_item
  with_item-Ends target none source d rest h = tt
  with_item-Ends target (some i) none d rest h = tt
  with_item-Ends target (some i) (some f) d rest h = h i _

  module _ (target : Target D) (step : ℕ) (dest_is_file is_parameter : Bool) (stack : List ℕ)
      (some_step : 0 < step) where
    copy_loop-Ends :
        (fuel : ℕ) (written : Bool) (r r' place : ℕ) (f : OpenFile) (d : D)
        → r < fuel
        → Ends (
            copy_loop target step dest_is_file is_parameter
              (read_source true stack)
              fuel
              written
              r
              r'
              place
              f
              d)
    unfolding copy_loop read_source
    copy_loop-Ends zero written r r' place f d h = absurd (omega arith)
    copy_loop-Ends (suc fuel) written zero r' place f d h = tt
    copy_loop-Ends (suc fuel) written (suc r) r' place f d h = elim (Bool-cases (r' == 0)) [
      | inl none_left ↦ rw (not_done, none_left) tt
      | inr left ↦
          rw (not_done, left)
            (if_read-Ends written _ d _ (λ got f'.
              if_written-Ends _ _ (λ d'.
                copy_loop-Ends fuel true (suc r - min step (suc r)) _ _ f' d' (omega arith))))
    ]
      where
        not_done : (suc r == 0) ≡ false
        not_done = ground arith

  pub write_image-Ends :
      (target : Target D) (hdr : ImageHeader) (stack : List ℕ) (source : Option OpenFile)
      (src dest : List ℕ) (woffset : ℤ) (d : D)
      → Ends (write_image target hdr true stack source src dest woffset d)
  unfolding write_image
  write_image-Ends target hdr stack source src dest woffset d =
      with_item-Ends target (find_item hdr src) source d _ (λ i f.
        copy_to-Ends target _ woffset _ (λ d1.
          copy_loop-Ends target _ false _ stack (omega arith) _ false _ _ _ f d1 (omega arith)))
