-- ===== src/Rkimage/Target.antt =====
-- rkimage.cpp: open_file_path and open_partition_path, and the calls on what is written to.
pub mod Places
use ota_backup.Base.{
  ℕ, List, [], ◌∷◌, Bool, not, if◌then◌else◌, Option, none, some, ℤ, pos, negsuc, minus_one,
  is_zero, is_negative, int_equal, length, take, drop,
}
use ota_backup.Image.Path.{str_equal}

-- `Volume`, as far as it is used.
pub record TargetVolume : Type 0 where
  pub fs_type : List ℕ
  pub blk_device : List ℕ

-- The devices and files that are written to, with the one that is open: the calls of roots.h and mtdutils
-- and the system's. `find_mtd` is the index of the partition with that name; `open_mtd` is `open` on
-- /dev/mtd/mtd with that index behind it.
pub record Target (D : Type 0) : Type 0 where
  pub ensure_path_mounted : List ℕ → D → ℤ × D
  pub ensure_path_unmounted : List ℕ → D → ℤ × D
  pub create_directories : List ℕ → D → D
  pub volume_for_path : List ℕ → TargetVolume
  pub find_mtd : List ℕ → Option ℕ
  pub open_path : List ℕ → D → ℤ × D
  pub open_mtd : ℕ → D → ℤ × D
  pub lseek_target : ℤ → D → D
  pub write_target : List ℕ → D → ℤ × D
  pub read_target : ℕ → D → List ℕ × D

-- "mtd" and "/dev/block/mtd/by-name/"
abbrev pub mtd_word : List ℕ
mtd_word = 109 ∷ 116 ∷ 100 ∷ []

abbrev pub by_name : List ℕ
by_name =
    47 ∷ 100 ∷ 101 ∷ 118 ∷ 47 ∷ 98 ∷ 108 ∷ 111 ∷ 99 ∷ 107 ∷ 47 ∷ 109 ∷ 116 ∷ 100 ∷ 47 ∷ 98 ∷ 121
    ∷ 45 ∷ 110 ∷ 97 ∷ 109 ∷ 101 ∷ 47 ∷ []

-- `strstr(s, "/dev/block/mtd/by-name/")`, and what stands behind it.
pub behind_by_name : List ℕ → Option (List ℕ)
behind_by_name [] = none
behind_by_name (c ∷ s) =
    let rest = behind_by_name s in
    if str_equal (take 23 (c ∷ s)) by_name then some (drop 23 (c ∷ s)) else rest

-- The name of the partition of a device.
pub mtd_name : List ℕ → List ℕ
mtd_name blk_device = elim (behind_by_name blk_device) [ some name ↦ name | none ↦ blk_device ]

module _ {D : Type 0} (target : Target D) where
  -- The descriptor, or -3.
  pub opened : ℤ × D → ℤ × D
  opened (fd, d) = if is_negative fd then (negsuc 2, d) else (fd, d)

  -- `open_file_path`
  pub open_file_path : List ℕ → D → ℤ × D
  open_file_path path d =
      let (mounted, d1) = target.ensure_path_mounted path d in
      if not (is_zero mounted)
      then (minus_one, d1)
      else opened (target.open_path path (target.create_directories path d1))

  -- The partition with an index, where there is one.
  pub open_found : Option ℕ → D → ℤ × D
  open_found none d = (minus_one, d)
  open_found (some index) d = opened (target.open_mtd index d)

  -- `open_partition_path`
  pub open_partition_path : List ℕ → D → ℤ × D
  open_partition_path part_name d =
      let (unmounted, d1) = target.ensure_path_unmounted part_name d in
      let v = target.volume_for_path part_name in
      if not (is_zero unmounted)
      then (minus_one, d1)
      else if str_equal v.fs_type mtd_word
      then open_found (target.find_mtd (mtd_name v.blk_device)) d1
      else opened (target.open_path v.blk_device d1)

  -- `write(fd, buf, n) != n` is false.
  unfoldable pub write_all : List ℕ → D → Bool × D
  write_all bytes d =
      let (r, d') = target.write_target bytes d in (int_equal r (pos (length bytes)), d')
