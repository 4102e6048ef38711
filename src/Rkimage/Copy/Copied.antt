-- ===== src/Rkimage/Copy/Copied.antt =====
-- rkimage.cpp: what a copy from an image file that is called done has left in the partition.
use ota_backup.Base.{
  ℕ, zero, suc, ◌+◌, ◌-◌, ◌≤◌, ◌<◌, ◌≡◌, ◌⊎◌, inl, inr, refl, sym, ap, ap₂, ◌∙◌, subst,
  if◌then◌else◌, arith, List, ◌++◌, Bool, true, false, Bool-cases, ltb, ◌==◌, Option, none, some, ℤ,
  pos, negsuc, min, length, take, drop, memcpy, take_all,
}
use ota_backup.Rkimage.Read.{OpenFile}
use ota_backup.Rkimage.Read.Slice.{take_add, drop-drop}
use ota_backup.Rkimage.Target.{Target, write_all}
use ota_backup.Rkimage.Copy.Pieces.{
  agree_before, agree_behind, buffer, length-buffer, before_written, at_written,
}
use ota_backup.Rkimage.Copy.{Reader, if_read, if_written, write_step, copy_loop}

-- There is a result, and where it is 0, what is left is as said.
abbrev pub Copied : {D : Type 0} → (D → Type 0) → Option (ℤ × D) → Type 0
Copied P none = ⊥
Copied P (some (pos zero, d)) = P d
Copied P (some (pos (suc n), d)) = Unit
Copied P (some (negsuc n, d)) = Unit

pub Copied-map :
    {D : Type 0} (P Q : D → Type 0)
    → ((d : D) → P d → Q d)
    → (o : Option (ℤ × D)) → Copied P o
    → Copied Q o
Copied-map P Q h none c = c
Copied-map P Q h (some (pos zero, d)) c = h d c
Copied-map P Q h (some (pos (suc n), d)) c = tt
Copied-map P Q h (some (negsuc n, d)) c = tt

-- A read of `n` bytes at a place of a source with the bytes `c`: it has a result, and a successful one
-- gave the bytes there.
abbrev pub ReadsAt : List ℕ → ℕ → ℕ → Option (ℤ × List ℕ × OpenFile) → Type 0
ReadsAt c at n none = ⊥
ReadsAt c at n (some (pos zero, got, f)) =
    (got ≡ take n (drop at c)) × (length got ≡ n) × (f.content ≡ c)
ReadsAt c at n (some (pos (suc k), got, f)) = Unit
ReadsAt c at n (some (negsuc k, got, f)) = Unit

-- A partition with the bytes `content` and the place `at` of the next call: a write that is complete was
-- inside it, replaced the bytes there and moved the place on, and a read that is complete gives the bytes
-- there.
pub record IsPartition (D : Type 0) (target : Target D) (content : D → List ℕ) (at : D → ℕ)
    : Type 0 where
  pub written :
      (bytes : List ℕ) (d : D)
      → (write_all target bytes d).0 ≡ true
      → (at d + length bytes ≤ length (content d))
        × (content ((write_all target bytes d).1) ≡ memcpy (content d) (at d) bytes (length bytes))
        × (at ((write_all target bytes d).1) ≡ at d + length bytes)
  pub whole_read :
      (n : ℕ) (d : D)
      → length ((target.read_target n d).0) ≡ n
      → ((target.read_target n d).0 ≡ take n (drop (at d) (content d)))
        × (content ((target.read_target n d).1) ≡ content d)
        × (at ((target.read_target n d).1) ≡ at d + n)
  pub sought_content : (o : ℤ) (d : D) → content (target.lseek_target o d) ≡ content d
  pub sought_at : (o : ℕ) (d : D) → at (target.lseek_target (pos o) d) ≡ o

module _ {D : Type 0} (P : D → Type 0) where
  if_read-Copied :
      (c : List ℕ) (at n : ℕ) (written : Bool) (o : Option (ℤ × List ℕ × OpenFile)) (d : D)
      (rest : List ℕ → OpenFile → Option (ℤ × D))
      → ReadsAt c at n o
      → ((got : List ℕ) (f : OpenFile)
          → got ≡ take n (drop at c)
          → length got ≡ n
          → f.content ≡ c
          → Copied P (rest got f))
      → Copied P (if_read written o d rest)
  unfolding if_read
  if_read-Copied c at n written none d rest reads h = absurd reads
  if_read-Copied c at n written (some (pos zero, got, f)) d rest reads h =
      h got f reads.0 reads.1 reads.2
  if_read-Copied c at n true (some (pos (suc k), got, f)) d rest reads h = tt
  if_read-Copied c at n false (some (pos (suc k), got, f)) d rest reads h = tt
  if_read-Copied c at n true (some (negsuc k, got, f)) d rest reads h = tt
  if_read-Copied c at n false (some (negsuc k, got, f)) d rest reads h = tt

  if_written-Copied :
      (p : Bool × D) (rest : D → Option (ℤ × D))
      → (p.0 ≡ true → Copied P (rest p.1))
      → Copied P (if_written p rest)
  unfolding if_written
  if_written-Copied (true, d) rest h = h refl
  if_written-Copied (false, d) rest h = tt

module _ {D : Type 0} (target : Target D) (content : D → List ℕ) (at : D → ℕ)
    (is : IsPartition D target content at) (step : ℕ) (read_at : Reader) (c : List ℕ) (bound : ℕ)
    (reads : (place n : ℕ) (f : OpenFile)
      → place + n ≤ bound
      → f.content ≡ c
      → ReadsAt c place n (read_at place n f)) where
  -- The `r` bytes from `place` of the source are at `p`, and what stood before is as it was.
  abbrev pub Holds : ℕ → ℕ → ℕ → List ℕ → D → Type 0
  Holds place r p before d =
      (take r (drop p (content d)) ≡ take r (drop place c)) × (take p (content d) ≡ take p before)

  -- One step, and the rest of the copy behind it.
  step-Holds :
      (place n r : ℕ) (got : List ℕ) (d d1 d' : D)
      → got ≡ take n (drop place c)
      → length got ≡ n
      → n ≤ step
      → (n ≡ step) ⊎ (r ≡ 0)
      → at d + step ≤ length (content d)
      → content d1 ≡ memcpy (content d) (at d) (buffer step got) step
      → Holds (place + n) r (at d + step) (content d1) d'
      → Holds place (n + r) (at d) (content d) d'
  step-Holds place n r got d d1 d' e lg fits last room wrote h = (joined, before)
    where
      same :
          take (at d + step) (content d')
          ≡ take (at d + step) (memcpy (content d) (at d) (buffer step got) step)
      same = h.1 ∙ ap (λ l. take (at d + step) l) wrote

      before : take (at d) (content d') ≡ take (at d) (content d)
      before =
          agree_before (at d) step (content d') (memcpy (content d) (at d) (buffer step got) step)
            same
          ∙ before_written (at d) step (content d) got room (omega arith)

      part : take n (drop (at d) (content d')) ≡ take n (drop place c)
      part =
          agree_behind (at d) step (content d') (memcpy (content d) (at d) (buffer step got) step)
            same n fits
          ∙ ap (λ k. take k (drop (at d) (memcpy (content d) (at d) (buffer step got) step)))
              (sym lg)
          ∙ at_written (at d) step (content d) got room (omega arith)
          ∙ e

      rest_same :
          (n ≡ step) ⊎ (r ≡ 0) → take r (drop (at d + n) (content d')) ≡ take r (drop (place + n) c)
      rest_same (inl k) = ap (λ k. take r (drop (at d + k) (content d'))) k ∙ h.0
      rest_same (inr z) =
          ap (λ k. take k (drop (at d + n) (content d'))) z
          ∙ sym (ap (λ k. take k (drop (place + n) c)) z)

      joined : take (n + r) (drop (at d) (content d')) ≡ take (n + r) (drop place c)
      joined =
          take_add n r (drop (at d) (content d'))
          ∙ ap₂ (λ x y. x ++ take r y) part (drop-drop n (at d) (content d'))
          ∙ ap (λ y. take n (drop place c) ++ y) (rest_same last)
          ∙ sym (ap (λ y. take n (drop place c) ++ take r y) (drop-drop n place c))
          ∙ sym (take_add n r (drop place c))

  -- A buffer that was written in full.
  write_all-step :
      (buf : List ℕ) (d : D)
      → length buf ≡ step
      → (write_all target (take step buf) d).0 ≡ true
      → (at d + step ≤ length (content d))
        × (content ((write_all target (take step buf) d).1) ≡ memcpy (content d) (at d) buf step)
        × (at ((write_all target (take step buf) d).1) ≡ at d + step)
  write_all-step buf d e ok =
      let w = is.written (take step buf) d ok in
      (
        omega (arith, w.0, whole),
        w.1 ∙ ap₂ (λ b k. memcpy (content d) (at d) b k) full whole,
        w.2 ∙ ap (λ k. at d + k) whole,
      )
    where
      full : take step buf ≡ buf
      full = take_all step buf (omega (arith, e))

      whole : length (take step buf) ≡ step
      whole = ap length full ∙ e

  pub copy_loop-Copied :
      0 < step
      → (fuel : ℕ) (written : Bool) (r place : ℕ) (f : OpenFile) (d : D) → r < fuel
      → place + r ≤ bound
      → f.content ≡ c
      → Copied
          (Holds place r (at d) (content d))
          (copy_loop target step false false read_at fuel written r r place f d)
  unfolding copy_loop write_step
  copy_loop-Copied some_step zero written r place f d h k e = absurd (omega arith)
  copy_loop-Copied some_step (suc fuel) written zero place f d h k e = (refl, refl)
  copy_loop-Copied some_step (suc fuel) written (suc r) place f d h k e = rw not_done (
      if_read-Copied (Holds place (suc r) (at d) (content d)) c place n written (read_at place n f)
        d _ (reads place n f (omega arith) e)
        (λ got f' eg lg ec.
          if_written-Copied (Holds place (suc r) (at d) (content d))
            (write_all target (take step (buffer step got)) d) _
            (λ ok. after got f' eg lg ec ok (
              copy_loop-Copied some_step fuel true left (place + n) f'
                ((write_all target (take step (buffer step got)) d).1) (omega arith) (omega arith)
                ec))))
    where
      n : ℕ
      n = min step (suc r)

      not_done : (suc r == 0) ≡ false
      not_done = ground arith

      left : ℕ
      left = suc r - n

      counted : suc r - (if left == 0 then suc r else step) ≡ left
      counted = ground arith

      after :
          (got : List ℕ) (f' : OpenFile)
          → got ≡ take n (drop place c)
          → length got ≡ n
          → f'.content ≡ c
          → (write_all target (take step (buffer step got)) d).0 ≡ true
          → Copied
              (Holds
                (place + n)
                left
                (at ((write_all target (take step (buffer step got)) d).1))
                (content ((write_all target (take step (buffer step got)) d).1)))
              (copy_loop target step false false read_at fuel true left left
                (place + n)
                f'
                ((write_all target (take step (buffer step got)) d).1))
          → Copied (Holds place (suc r) (at d) (content d)) (
              copy_loop target step false false read_at fuel true left
                (suc r - (if left == 0 then suc r else step))
                (place + n)
                f'
                ((write_all target (take step (buffer step got)) d).1))
      after got f' eg lg ec ok behind =
          let w = write_all-step (buffer step got) d (length-buffer step got (omega arith)) ok in
          rw counted (
            Copied-map (Holds (place + n) left (at d1) (content d1))
              (Holds place (suc r) (at d) (content d))
              (λ d' hd.
                subst (λ k. Holds place k (at d) (content d) d') all
                  (step-Holds place n left got d d1 d' eg lg (omega arith) last w.0 w.1
                    (subst (λ q. Holds (place + n) left q (content d1) d') w.2 hd)))
              (copy_loop target step false false read_at fuel true left left (place + n) f' d1)
              behind)
        where
          d1 : D
          d1 = (write_all target (take step (buffer step got)) d).1

          all : n + left ≡ suc r
          all = omega arith

          last : (n ≡ step) ⊎ (left ≡ 0)
          last = elim (Bool-cases (ltb step (suc r))) [
            | inl long ↦ inl (ground arith)
            | inr short ↦ inr (ground arith)
          ]
