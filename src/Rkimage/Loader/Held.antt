-- ===== src/Rkimage/Loader/Held.antt =====
-- rkimage.cpp: a loader that write_loader reports as written was read back from its place.
use ota_backup.Base.{
  ℕ, zero, suc, ◌≡◌, inl, inr, refl, sym, ap, ◌∙◌, arith, List, Bool, true, false, Bool-cases, ◌==◌,
  ltb, Option, none, some, ℤ, pos, negsuc, length, take, drop, ==→eq,
}
use ota_backup.Image.Path.{str_equal}
use ota_backup.Image.Path.Suffix.{str_equal-eq}
use ota_backup.Rkimage.Read.{OpenFile, seek_to, seek, read}
use ota_backup.Rkimage.Items.{ImageItem, ImageHeader, find_item}
use ota_backup.Rkimage.Target.{Target, write_all, open_partition_path}
use ota_backup.Rkimage.Copy.Copied.{IsPartition}
use ota_backup.Rkimage.Copy.Stored.{signed_small}
use ota_backup.Rkimage.Loader.{
  max_loader_len, headinfo_size, half_bytes, word_bytes, new_header, loader_bytes, read_back,
  store_loader, store_read, write_item, write_loader,
}

-- The header fills the bytes in front of the two parts.
length-new_header : (old : List ℕ) (m n : ℕ) → length (new_header old m n) ≡ headinfo_size
unfolding new_header half_bytes word_bytes
length-new_header old m n = refl

-- Where the result is 0, what is left is as said.
abbrev pub Succeeds : {D : Type 0} → (D → Type 0) → ℤ × D → Type 0
Succeeds P (pos zero, d) = P d
Succeeds P (pos (suc n), d) = Unit
Succeeds P (negsuc n, d) = Unit

Succeeds-map :
    {D : Type 0} (P Q : D → Type 0)
    → ((d : D) → P d → Q d)
    → (p : ℤ × D) → Succeeds P p
    → Succeeds Q p
Succeeds-map P Q h (pos zero, d) s = h d s
Succeeds-map P Q h (pos (suc n), d) s = tt
Succeeds-map P Q h (negsuc n, d) s = tt

module _ (D : Type 0) (target : Target D) (content : D → List ℕ) (at : D → ℕ)
    (is : IsPartition D target content at) where
  -- The bytes stand at `woffset`.
  abbrev pub HoldsAt : ℕ → List ℕ → D → Type 0
  HoldsAt woffset bytes d = take (length bytes) (drop woffset (content d)) ≡ bytes

  read_back-HoldsAt :
      (bytes : List ℕ) (woffset : ℕ) (d : D)
      → Succeeds (HoldsAt woffset bytes) (
          read_back target bytes
            (target.read_target (length bytes) (target.lseek_target (pos woffset) d)))
  unfolding read_back
  read_back-HoldsAt bytes woffset d = elim (Bool-cases (length got == length bytes)) [
    | inr part ↦ rw part tt
    | inl whole ↦ elim (Bool-cases (str_equal got bytes)) [
      | inr differ ↦ rw (whole, differ) tt
      | inl same ↦
          rw (whole, same)
            (held (==→eq (length got) (length bytes) whole) (str_equal-eq got bytes same))
    ]
  ]
    where
      d1 : D
      d1 = target.lseek_target (pos woffset) d

      got : List ℕ
      got = (target.read_target (length bytes) d1).0

      held :
          length got ≡ length bytes
          → got ≡ bytes
          → HoldsAt woffset bytes ((target.read_target (length bytes) d1).1)
      held whole same =
          let w = is.whole_read (length bytes) d1 whole in
          ap (λ l. take (length bytes) (drop woffset l)) w.1
          ∙ ap (λ o. take (length bytes) (drop o (content d1))) (sym (is.sought_at woffset d))
          ∙ sym w.0
          ∙ same

  store_loader-HoldsAt :
      (bytes : List ℕ) (woffset : ℕ) (p : ℤ × D)
      → Succeeds (HoldsAt woffset bytes) (store_loader target bytes (pos woffset) p)
  unfolding store_loader
  store_loader-HoldsAt bytes woffset (negsuc n, d) = tt
  store_loader-HoldsAt bytes woffset (pos n, d) =
      elim (Bool-cases ((write_all target bytes (target.lseek_target (pos woffset) d)).0)) [
        | inr refused ↦ rw refused tt
        | inl written ↦ rw written (
            read_back-HoldsAt bytes woffset
              ((write_all target bytes (target.lseek_target (pos woffset) d)).1))
      ]

  -- The destination holds what is made of the item with that name.
  abbrev pub HoldsLoader : ImageHeader → OpenFile → List ℕ → ℕ → D → Type 0
  HoldsLoader hdr f src woffset d =
      (i : ImageItem) × (bytes : List ℕ) × (find_item hdr src ≡ some i)
      × (loader_bytes (take i.size (drop i.offset f.content)) ≡ some bytes)
      × HoldsAt woffset bytes d

  store_read-HoldsLoader :
      (hdr : ImageHeader) (f : OpenFile) (src dest : List ℕ) (woffset : ℕ) (d : D) (i : ImageItem)
      (o : Option (List ℕ)) (is_whole : Bool)
      → find_item hdr src ≡ some i
      → loader_bytes (take i.size (drop i.offset f.content)) ≡ o
      → Succeeds (HoldsLoader hdr f src woffset) (store_read target o is_whole dest (pos woffset) d)
  unfolding store_read
  store_read-HoldsLoader hdr f src dest woffset d i none true found e = tt
  store_read-HoldsLoader hdr f src dest woffset d i none false found e = tt
  store_read-HoldsLoader hdr f src dest woffset d i (some bytes) false found e = tt
  store_read-HoldsLoader hdr f src dest woffset d i (some bytes) true found e =
      Succeeds-map (HoldsAt woffset bytes) (HoldsLoader hdr f src woffset)
        (λ d' h. (i, bytes, found, e, h)) _
        (store_loader-HoldsAt bytes woffset (open_partition_path target dest d))

  write_item-HoldsLoader :
      (hdr : ImageHeader) (f : OpenFile) (src dest : List ℕ) (woffset : ℕ) (d : D)
      (o : Option ImageItem)
      → find_item hdr src ≡ o
      → Succeeds (HoldsLoader hdr f src woffset) (write_item target o (some f) dest (pos woffset) d)
  unfolding write_item read seek_to seek
  write_item-HoldsLoader hdr f src dest woffset d none found = tt
  write_item-HoldsLoader hdr f src dest woffset d (some i) found =
      elim (Bool-cases (ltb max_loader_len i.offset)) [
        | inl large ↦ rw large tt
        | inr small ↦
            rw (small, signed_small i.offset (ground arith))
              (store_read-HoldsLoader hdr f src dest woffset d i _ _ found refl)
      ]

  -- Where write_loader on a source that opens returns 0, there is an item with that name, and the
  -- destination holds at the offset the bytes that are made of it.
  pub write_loader-HoldsLoader :
      (hdr : ImageHeader) (f : OpenFile) (src dest : List ℕ) (woffset : ℕ) (d : D)
      → Succeeds
          (HoldsLoader hdr f src woffset)
          (write_loader target hdr (some f) src dest (pos woffset) d)
  unfolding write_loader
  write_loader-HoldsLoader hdr f src dest woffset d =
      write_item-HoldsLoader hdr f src dest woffset d (find_item hdr src) refl
