-- ===== src/Rkimage/Loader/Place.antt =====
-- rkimage.cpp: a loader that write_loader reports as written went to the partition that was named.
use ota_backup.Base.{
  ℕ, ◌≡◌, ◌∙◌, inl, inr, refl, List, Bool, true, false, Bool-cases, ◌==◌, ltb, Option, none, some,
  ℤ, pos, negsuc, length,
}
use ota_backup.Image.Path.{str_equal}
use ota_backup.Rkimage.Read.{OpenFile}
use ota_backup.Rkimage.Items.{ImageItem, ImageHeader, find_item}
use ota_backup.Rkimage.Target.{Target, write_all, open_partition_path}
use ota_backup.Rkimage.Target.Places.{Place, place_of, HasPlaces, Opens, open_partition_path-Opens}
use ota_backup.Rkimage.Loader.{
  max_loader_len, read_back, store_loader, store_read, write_item, write_loader,
}
use ota_backup.Rkimage.Loader.Held.{Succeeds}

module _ (D : Type 0) (target : Target D) (is_open : D → Place)
    (places : HasPlaces D target is_open) where
  -- This place is open.
  abbrev pub IsOpen : Place → D → Type 0
  IsOpen place d = is_open d ≡ place

  read_back-IsOpen :
      (place : Place) (bytes : List ℕ) (r : List ℕ × D)
      → IsOpen place r.1
      → Succeeds (IsOpen place) (read_back target bytes r)
  unfolding read_back
  read_back-IsOpen place bytes (got, d) h = elim (Bool-cases (length got == length bytes)) [
    | inr part ↦ rw part tt
    | inl whole ↦ elim (Bool-cases (str_equal got bytes)) [
      | inr differ ↦ rw (whole, differ) tt
      | inl same ↦ rw (whole, same) h
    ]
  ]

  store_loader-IsOpen :
      (place : Place) (bytes : List ℕ) (woffset : ℤ) (p : ℤ × D)
      → Opens D target is_open places place p
      → Succeeds (IsOpen place) (store_loader target bytes woffset p)
  unfolding store_loader write_all
  store_loader-IsOpen place bytes woffset (negsuc n, d) h = tt
  store_loader-IsOpen place bytes woffset (pos n, d) h =
      elim (Bool-cases (write_all target bytes d1).0) [
        | inr refused ↦ rw refused tt
        | inl written ↦ rw written (
            read_back-IsOpen place bytes _ (
              places.was_read (length bytes)
                (target.lseek_target woffset (write_all target bytes d1).1)
              ∙ places.sought woffset (write_all target bytes d1).1
              ∙ places.written bytes d1
              ∙ places.sought woffset d
              ∙ h refl))
      ]
    where
      d1 : D
      d1 = target.lseek_target woffset d

  store_read-IsOpen :
      (dest : List ℕ) (woffset : ℤ) (d : D) (o : Option (List ℕ)) (is_whole : Bool)
      → Succeeds (IsOpen (place_of target dest)) (store_read target o is_whole dest woffset d)
  unfolding store_read
  store_read-IsOpen dest woffset d none true = tt
  store_read-IsOpen dest woffset d none false = tt
  store_read-IsOpen dest woffset d (some bytes) false = tt
  store_read-IsOpen dest woffset d (some bytes) true =
      store_loader-IsOpen (place_of target dest) bytes woffset (open_partition_path target dest d)
        (open_partition_path-Opens D target is_open places dest d)

  write_item-IsOpen :
      (f : OpenFile) (dest : List ℕ) (woffset : ℤ) (d : D) (o : Option ImageItem)
      → Succeeds (IsOpen (place_of target dest)) (write_item target o (some f) dest woffset d)
  unfolding write_item
  write_item-IsOpen f dest woffset d none = tt
  write_item-IsOpen f dest woffset d (some i) = elim (Bool-cases (ltb max_loader_len i.offset)) [
    | inl large ↦ rw large tt
    | inr small ↦ rw small (store_read-IsOpen dest woffset d _ _)
  ]

  -- Where write_loader returns 0, the partition that was named is the one that is open.
  pub write_loader-IsOpen :
      (hdr : ImageHeader) (f : OpenFile) (src dest : List ℕ) (woffset : ℤ) (d : D)
      → Succeeds
          (IsOpen (place_of target dest))
          (write_loader target hdr (some f) src dest woffset d)
  unfolding write_loader
  write_loader-IsOpen hdr f src dest woffset d =
      write_item-IsOpen f dest woffset d (find_item hdr src)
