-- ===== src/Rkimage/Verify/Ends.antt =====
-- rkimage.cpp: image_compare on an image file ends.
use ota_backup.Base.{
  ℕ, zero, suc, ◌-◌, ◌<◌, ◌≡◌, inl, inr, arith, List, Bool, true, false, Bool-cases, ◌==◌, Option,
  some, ℤ, is_zero, min, length,
}
use ota_backup.Rkimage.Read.{OpenFile}
use ota_backup.Rkimage.Compare.{my_memcmp}
use ota_backup.Rkimage.Items.{ImageHeader, find_item, read_source}
use ota_backup.Rkimage.Target.{Target}
use ota_backup.Rkimage.Copy.Ends.{Ends, copy_to-Ends, with_item-Ends}
use ota_backup.Rkimage.Verify.{compare_buffer_size, if_same, if_source, compare_loop, image_compare}

module _ (D : Type 0) (target : Target D) where
  if_source-Ends :
      (r : ℤ × List ℕ × OpenFile) (d : D) (rest : List ℕ → OpenFile → Option (ℤ × D))
      → ((got : List ℕ) (f : OpenFile) → Ends (rest got f))
      → Ends (if_source target (some r) d rest)
  unfolding if_source
  if_source-Ends (ret, got, f) d rest h = elim (Bool-cases (is_zero ret)) [
    | inl ok ↦ rw ok (h got f)
    | inr bad ↦ rw bad tt
  ]

  if_same-Ends :
      (src : List ℕ) (n : ℕ) (p : List ℕ × D) (rest : D → Option (ℤ × D))
      → ((d : D) → Ends (rest d))
      → Ends (if_same target src n p rest)
  unfolding if_same
  if_same-Ends src n (buf, d) rest h = elim (Bool-cases (length buf == compare_buffer_size)) [
    | inr part ↦ rw part tt
    | inl whole ↦ elim (Bool-cases ((my_memcmp src buf n).0 == 0)) [
      | inr differ ↦ rw (whole, differ) tt
      | inl same ↦ rw (whole, same) (h d)
    ]
  ]

  compare_loop-Ends :
      (stack : List ℕ) (fuel r r' place : ℕ) (f : OpenFile) (d : D)
      → r < fuel
      → Ends (compare_loop target (read_source true stack) fuel r r' place f d)
  unfolding compare_loop read_source
  compare_loop-Ends stack zero r r' place f d h = absurd (omega arith)
  compare_loop-Ends stack (suc fuel) zero r' place f d h = tt
  compare_loop-Ends stack (suc fuel) (suc r) r' place f d h = elim (Bool-cases (r' == 0)) [
    | inl none_left ↦ rw (not_done, none_left) tt
    | inr left ↦
        rw (not_done, left)
          (if_source-Ends _ d _ (λ got f'. if_same-Ends got _ _ _ (λ d'.
            compare_loop-Ends stack fuel (suc r - min compare_buffer_size (suc r)) _ _ f' d'
              (omega arith))))
  ]
    where
      not_done : (suc r == 0) ≡ false
      not_done = ground arith

  pub image_compare-Ends :
      (has_memory : Bool) (hdr : ImageHeader) (stack : List ℕ) (source : Option OpenFile)
      (src dest : List ℕ) (woffset : ℤ) (d : D)
      → Ends (image_compare target has_memory hdr true stack source src dest woffset d)
  unfolding image_compare
  image_compare-Ends false hdr stack source src dest woffset d =
      with_item-Ends D target (find_item hdr src) source d _
        (λ i f. copy_to-Ends D target _ woffset _ (λ d1. tt))
  image_compare-Ends true hdr stack source src dest woffset d =
      with_item-Ends D target (find_item hdr src) source d _ (λ i f.
        copy_to-Ends D target _ woffset _
          (λ d1. compare_loop-Ends stack _ _ _ _ _ d1 (omega arith)))
