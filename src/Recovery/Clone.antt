-- ===== src/Recovery/Clone.antt =====
-- recovery.cpp: the copy of the backup of the user's data.
use ota_backup.Base.{
  ℕ, not, if◌then◌else◌, none, some, ℤ, pos, minus_one, is_zero, is_negative, is_positive,
}
use ota_backup.Recovery.Prompt.{Installers, userdata, databk}

module _ {W : Type 0} (installers : Installers W) where
  -- `simg2img` between the block devices of two partitions: -1 when a device does not open, when the
  -- input is no sparse image or when it cannot be written.
  unfoldable pub simg2img : ℕ → ℕ → W → ℤ × W
  simg2img input output w =
      let (opened_out, w1) = installers.open_output output w in
      let (opened_in, w2) = installers.open_input input w1 in
      let (imported, w3) = installers.sparse_file_import input w2 in
      let (ret, w4) = installers.sparse_file_write output w3 in
      if not opened_out
      then (minus_one, w1)
      else if not opened_in
      then (minus_one, w2)
      else if not imported
      then (minus_one, w3)
      else if is_negative ret
      then (minus_one, w4)
      else (pos 0, w4)

  -- `start_to_clone`.
  unfoldable pub start_to_clone : ℕ → ℕ → W → ℤ × W
  unfolding simg2img
  start_to_clone data_device databk_device w =
      let (failed, w') = simg2img databk_device data_device w in
      if is_zero failed then (pos 0, w') else (minus_one, w')

  -- The partitions are numbered by their device index.
  unfoldable pub clone_data_if_exist : W → ℤ × W
  unfolding start_to_clone
  clone_data_if_exist w =
      let (found, w1) = installers.mtd_scan_partitions w in
      let clone : ℤ × W = elim (installers.mtd_find_partition_by_name databk w1) [
        | none ↦ (minus_one, w1)
        | some databk_index ↦ elim (installers.mtd_find_partition_by_name userdata w1) [
          | none ↦ (minus_one, w1)
          | some data_index ↦ start_to_clone data_index databk_index w1
        ]
      ] in
      if is_positive found then clone else (minus_one, w1)
