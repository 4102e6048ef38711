-- ===== src/Rkimage/Target/Places.antt =====
-- rkimage.cpp: which device is open behind open_partition_path.
use ota_backup.Base.{
  ℕ, ◌≡◌, inl, inr, List, false, Bool-cases, if◌then◌else◌, Option, none, some, ℤ, is_negative,
  is_zero, [],
}
use ota_backup.Image.Path.{str_equal}
use ota_backup.Rkimage.Target.{Target, mtd_word, mtd_name, opened, open_found, open_partition_path}

-- A device: one with a path, or an MTD partition with an index.
pub data Place : Type 0 where
  at_path : List ℕ → Place
  at_mtd : ℕ → Place

abbrev pub mtd_place : Option ℕ → Place
mtd_place none = at_path []
mtd_place (some index) = at_mtd index

-- Where a partition lies.
abbrev pub place_of : {D : Type 0} → Target D → List ℕ → Place
place_of target part_name =
    let v = target.volume_for_path part_name in
    if str_equal v.fs_type mtd_word
    then mtd_place (target.find_mtd (mtd_name v.blk_device))
    else at_path v.blk_device

-- `open` leaves the device open that it names, and the calls on an open device leave it so.
pub record HasPlaces (D : Type 0) (target : Target D) (is_open : D → Place) : Type 0 where
  pub path_opened :
      (path : List ℕ) (d : D)
      → is_negative (target.open_path path d).0 ≡ false
      → is_open (target.open_path path d).1 ≡ at_path path
  pub mtd_opened :
      (index : ℕ) (d : D)
      → is_negative (target.open_mtd index d).0 ≡ false
      → is_open (target.open_mtd index d).1 ≡ at_mtd index
  pub sought : (o : ℤ) (d : D) → is_open (target.lseek_target o d) ≡ is_open d
  pub written : (bytes : List ℕ) (d : D) → is_open (target.write_target bytes d).1 ≡ is_open d
  pub was_read : (n : ℕ) (d : D) → is_open (target.read_target n d).1 ≡ is_open d

module _ (D : Type 0) (target : Target D) (is_open : D → Place)
    (places : HasPlaces D target is_open) where
  -- An open that succeeds has opened this place.
  abbrev pub Opens : Place → ℤ × D → Type 0
  Opens place p = is_negative p.0 ≡ false → is_open p.1 ≡ place

  opened-Opens : (place : Place) (p : ℤ × D) → Opens place p → Opens place (opened target p)
  unfolding opened
  opened-Opens place (fd, d) h = elim (Bool-cases (is_negative fd)) [
    | inl bad ↦ rw bad (λ e. cc)
    | inr ok ↦ rw ok (λ e. h ok)
  ]

  open_found-Opens : (o : Option ℕ) (d : D) → Opens (mtd_place o) (open_found target o d)
  unfolding open_found
  open_found-Opens none d = λ e. cc
  open_found-Opens (some index) d =
      opened-Opens (at_mtd index) (target.open_mtd index d) (places.mtd_opened index d)

  pub open_partition_path-Opens :
      (part_name : List ℕ) (d : D)
      → Opens (place_of target part_name) (open_partition_path target part_name d)
  unfolding open_partition_path
  open_partition_path-Opens part_name d =
      elim (Bool-cases (is_zero (target.ensure_path_unmounted part_name d).0)) [
        | inr mounted ↦ rw mounted (λ e. cc)
        | inl unmounted ↦
            elim (Bool-cases (str_equal (target.volume_for_path part_name).fs_type mtd_word)) [
              | inl mtd ↦
                  rw (unmounted, mtd)
                    (open_found-Opens
                      (target.find_mtd (mtd_name (target.volume_for_path part_name).blk_device)) _)
              | inr other ↦
                  rw (unmounted, other)
                    (opened-Opens _
                      (target.open_path (target.volume_for_path part_name).blk_device _)
                      (places.path_opened (target.volume_for_path part_name).blk_device _))
            ]
      ]
