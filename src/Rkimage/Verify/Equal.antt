-- ===== src/Rkimage/Verify/Equal.antt =====
-- rkimage.cpp: what image_compare has shown when it returns 0.
use ota_backup.Base.{
  ℕ, zero, suc, ◌+◌, ◌-◌, ◌%◌, ◌^◌, ◌≤◌, ◌<◌, ◌≡◌, ◌⊎◌, inl, inr, refl, sym, ap, ap₂, ◌∙◌, arith,
  List, ◌++◌, Bool, true, false, Bool-cases, ltb, ◌==◌, if◌then◌else◌, Option, none, some, ℤ, pos,
  negsuc, min, length, take, drop, take_all, ==→eq, subst,
}
use ota_backup.Image.Path.{str_equal}
use ota_backup.Rkimage.Read.{OpenFile, seek_to}
use ota_backup.Rkimage.Read.Slice.{take_add, drop-drop}
use ota_backup.Rkimage.Check.{remain_of}
use ota_backup.Rkimage.Compare.{my_memcmp}
use ota_backup.Rkimage.Compare.First.{my_memcmp-Compares}
use ota_backup.Rkimage.Items.{ImageItem, ImageHeader, find_item, signed, read_source}
use ota_backup.Rkimage.Target.{Target, open_partition_path}
use ota_backup.Rkimage.Copy.{Reader, with_item, item_step, parameter_path}
use ota_backup.Rkimage.Copy.Copied.{Copied, Copied-map, ReadsAt, IsPartition}
use ota_backup.Rkimage.Copy.Pieces.{taken}
use ota_backup.Rkimage.Copy.Stored.{copy_to-Copied, read_source-ReadsAt, seek_to-content}
use ota_backup.Rkimage.Verify.{compare_buffer_size, if_same, if_source, compare_loop, image_compare}

module _ {D : Type 0} (target : Target D) (P : D → Type 0) where
  if_source-Copied :
      (c : List ℕ) (at n : ℕ) (o : Option (ℤ × List ℕ × OpenFile)) (d : D)
      (rest : List ℕ → OpenFile → Option (ℤ × D))
      → ReadsAt c at n o
      → ((got : List ℕ) (f : OpenFile)
          → got ≡ take n (drop at c)
          → length got ≡ n
          → f.content ≡ c
          → Copied P (rest got f))
      → Copied P (if_source target o d rest)
  unfolding if_source
  if_source-Copied c at n none d rest reads h = absurd reads
  if_source-Copied c at n (some (pos zero, got, f)) d rest reads h = h got f reads.0 reads.1 reads.2
  if_source-Copied c at n (some (pos (suc k), got, f)) d rest reads h = tt
  if_source-Copied c at n (some (negsuc k, got, f)) d rest reads h = tt

  if_same-Copied :
      (src : List ℕ) (n : ℕ) (p : List ℕ × D) (rest : D → Option (ℤ × D))
      → (length (p.0) ≡ compare_buffer_size → (my_memcmp src (p.0) n).0 ≡ 0 → Copied P (rest (p.1)))
      → Copied P (if_same target src n p rest)
  unfolding if_same
  if_same-Copied src n (buf, d) rest h = elim (Bool-cases (length buf == compare_buffer_size)) [
    | inr part ↦ rw part tt
    | inl whole ↦ elim (Bool-cases ((my_memcmp src buf n).0 == 0)) [
      | inr differ ↦ rw (whole, differ) tt
      | inl same ↦
          rw (whole, same)
            (h (==→eq (length buf) compare_buffer_size whole)
              (==→eq ((my_memcmp src buf n).0) 0 same))
    ]
  ]

equal_bytes :
    (a b : List ℕ) (n : ℕ)
    → n ≤ length a
    → n ≤ length b
    → (my_memcmp a b n).0 ≡ 0
    → take n a ≡ take n b
equal_bytes a b n h k e = elim (my_memcmp-Compares a b n h k) [
  | inl (r, q) ↦ q
  | inr (i, lt, r, q, ne) ↦ absurd (omega (arith, sym (ap (λ x. x.0) r) ∙ e))
]

module _ {D : Type 0} (target : Target D) (content : D → List ℕ) (at : D → ℕ)
    (is : IsPartition D target content at) (read_at : Reader) (c : List ℕ) (bound : ℕ)
    (reads : (place n : ℕ) (f : OpenFile)
      → place + n ≤ bound
      → f.content ≡ c
      → ReadsAt c place n (read_at place n f)) where
  -- The `r` bytes at `p` of the partition are those at `place` of the source.
  abbrev Same : ℕ → ℕ → ℕ → List ℕ → Type 0
  Same place r p l = take r (drop p l) ≡ take r (drop place c)

  Same-add :
      (place n r p : ℕ) (l : List ℕ)
      → (n ≡ compare_buffer_size) ⊎ (r ≡ 0)
      → take n (drop p l) ≡ take n (drop place c)
      → Same (place + n) r (p + compare_buffer_size) l
      → Same place (n + r) p l
  Same-add place n r p l last first h =
      take_add n r (drop p l)
      ∙ ap₂ (λ x y. x ++ take r y) first (drop-drop n p l)
      ∙ ap (λ y. take n (drop place c) ++ y) (rest_same last)
      ∙ sym (ap (λ y. take n (drop place c) ++ take r y) (drop-drop n place c))
      ∙ sym (take_add n r (drop place c))
    where
      rest_same :
          (n ≡ compare_buffer_size) ⊎ (r ≡ 0)
          → take r (drop (p + n) l) ≡ take r (drop (place + n) c)
      rest_same (inl k) = ap (λ k. take r (drop (p + k) l)) k ∙ h
      rest_same (inr z) =
          ap (λ k. take k (drop (p + n) l)) z ∙ sym (ap (λ k. take k (drop (place + n) c)) z)

  compare_loop-Copied :
      (fuel r dest_remain place : ℕ) (f : OpenFile) (d : D)
      → r < fuel
      → 0 < dest_remain
      → place + r ≤ bound
      → f.content ≡ c
      → Copied
          (λ d'. Same place r (at d) (content d))
          (compare_loop target read_at fuel r dest_remain place f d)
  unfolding compare_loop
  compare_loop-Copied zero r dest_remain place f d h some_left k e = absurd (omega arith)
  compare_loop-Copied (suc fuel) zero dest_remain place f d h some_left k e = refl
  compare_loop-Copied (suc fuel) (suc r) dest_remain place f d h some_left k e =
      rw (not_done, dest_left)
        (if_source-Copied target (λ d'. Same place (suc r) (at d) (content d)) c place n
          (read_at place n f) d _ (reads place n f (omega arith) e)
          (λ got f' eg lg ec.
            if_same-Copied target (λ d'. Same place (suc r) (at d) (content d)) got n
              (target.read_target compare_buffer_size d) _
              (λ whole same. after got eg lg whole same _ (
                compare_loop-Copied fuel left dest_remain (place + n) f'
                  ((target.read_target compare_buffer_size d).1) (omega arith) some_left
                  (omega arith) ec))))
    where
      n : ℕ
      n = min compare_buffer_size (suc r)

      left : ℕ
      left = suc r - n

      not_done : (suc r == 0) ≡ false
      not_done = ground arith

      dest_left : (dest_remain == 0) ≡ false
      dest_left = ground arith

      after :
          (got : List ℕ)
          → got ≡ take n (drop place c)
          → length got ≡ n
          → length ((target.read_target compare_buffer_size d).0) ≡ compare_buffer_size
          → (my_memcmp got ((target.read_target compare_buffer_size d).0) n).0 ≡ 0
          → (o : Option (ℤ × D))
          → Copied
              (λ d'.
                Same
                  (place + n)
                  left
                  (at ((target.read_target compare_buffer_size d).1))
                  (content ((target.read_target compare_buffer_size d).1)))
              o
          → Copied (λ d'. Same place (suc r) (at d) (content d)) o
      after got eg lg whole same o behind =
          let w = is.whole_read compare_buffer_size d whole in
          Copied-map
            (λ d'.
              Same (place + n) left (at ((target.read_target compare_buffer_size d).1))
                (content ((target.read_target compare_buffer_size d).1)))
            (λ d'. Same place (suc r) (at d) (content d))
            (λ d' hd.
              subst (λ k. Same place k (at d) (content d)) all
                (Same-add place n left (at d) (content d) last (first w.0) (
                  subst (λ q. Same (place + n) left q (content d)) w.2
                    (subst
                      (λ l.
                        Same (place + n) left (at ((target.read_target compare_buffer_size d).1)) l)
                      w.1 hd))))
            o behind
        where
          all : n + left ≡ suc r
          all = omega arith

          last : (n ≡ compare_buffer_size) ⊎ (left ≡ 0)
          last = elim (Bool-cases (ltb compare_buffer_size (suc r))) [
            | inl long ↦ inl (ground arith)
            | inr short ↦ inr (ground arith)
          ]

          first :
              (target.read_target compare_buffer_size d).0
                ≡ take compare_buffer_size (drop (at d) (content d))
              → take n (drop (at d) (content d)) ≡ take n (drop place c)
          first e =
              sym (taken n compare_buffer_size (drop (at d) (content d)) (omega arith))
              ∙ ap (λ l. take n l) (sym e)
              ∙ sym (
                  equal_bytes got ((target.read_target compare_buffer_size d).0) n (omega arith)
                    (omega arith) same)
              ∙ take_all n got (omega arith)
              ∙ eg

-- image_compare on an item of a file, not empty and below 2 GB, has a result, and where it is 0, the
-- partition held the bytes of the item at the offset.
pub image_compare-Same :
    (D : Type 0) (target : Target D) (content : D → List ℕ) (at : D → ℕ)
    → IsPartition D target content at
    → (has_memory : Bool) (hdr : ImageHeader) (stack src dest : List ℕ) (woffset : ℕ) (d : D)
      (f : OpenFile) (i : ImageItem)
    → find_item hdr src ≡ some i
    → i.offset + i.size < 2 ^ 31
    → 0 < i.size
    → Copied
        (λ d'.
          take i.size (drop woffset (content ((open_partition_path target dest d).1)))
          ≡ take i.size (drop i.offset f.content))
        (image_compare target has_memory hdr true stack (some f) src dest (pos woffset) d)
unfolding image_compare with_item remain_of
image_compare-Same D target content at is false hdr stack src dest woffset d f i found small any =
    rw found (copy_to-Copied D target _ (open_partition_path target dest d) woffset _ tt)
image_compare-Same D target content at is true hdr stack src dest woffset d f i found small any =
    rw (found, low, fits)
      (copy_to-Copied D target
        (λ d'. take i.size (drop woffset (content d0)) ≡ take i.size (drop i.offset f.content))
        (open_partition_path target dest d) woffset _
        (subst
          (λ l.
            Copied (λ d'. take i.size (drop woffset l) ≡ take i.size (drop i.offset f.content))
              looped)
          (is.sought_content (pos woffset) d0)
          (subst
            (λ q.
              Copied
                (λ d'. take i.size (drop q (content d1)) ≡ take i.size (drop i.offset f.content))
                looped)
            (is.sought_at woffset d0)
            (compare_loop-Copied target content at is (read_source true stack) f.content
              (i.offset + i.size)
              (λ place n f' k e. read_source-ReadsAt stack f.content place n f' (omega arith) e)
              (i.size + 1) i.size dest_remain i.offset (seek_to (signed i.offset) f) d1
              (omega arith) (some_left (str_equal dest parameter_path)) (omega arith)
              (seek_to-content (signed i.offset) f)))))
  where
    low : i.size % 2 ^ 32 ≡ i.size
    low = omega arith

    fits : ltb i.size (2 ^ 31) ≡ true
    fits = ground arith

    d0 : D
    d0 = (open_partition_path target dest d).1

    d1 : D
    d1 = target.lseek_target (pos woffset) d0

    dest_remain : ℕ
    dest_remain = if str_equal dest parameter_path then item_step else i.size

    looped : Option (ℤ × D)
    looped =
        compare_loop target (read_source true stack) (i.size + 1) i.size dest_remain i.offset
          (seek_to (signed i.offset) f) d1

    some_left : (is_parameter : Bool) → 0 < (if is_parameter then item_step else i.size)
    some_left true = omega arith
    some_left false = any
