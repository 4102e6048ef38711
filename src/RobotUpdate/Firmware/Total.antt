-- ===== src/RobotUpdate/Firmware/Total.antt =====
-- When the percentage that robotUpdate.cpp prints divides by 0.
use ota_backup.Base.{
  ℕ, zero, suc, ◌-◌, ◌*◌, ◌%◌, ◌^◌, ◌≡◌, ◌≢◌, inl, inr, ◌↔◌, refl, List, [], ◌∷◌, false, Bool-cases,
  ℤ, minus_one, is_zero, arith, ◌==◌, leb, none, some, drop,
}
use ota_backup.Crc16.{crc16}
use ota_backup.Image.Element.{ImageElement}
use ota_backup.RobotUpdate.Transport.{CanDevice, Protocol}
use ota_backup.RobotUpdate.Request.{data_request, send_data_address, send_data_crc}
use ota_backup.RobotUpdate.Firmware.{
  Progress, Outcome, if_printed, download_progress, data_tries, block_tries, send_firmware_data,
  if_done, block, send_blocks, block_count, send_element_data, send_elements, send_firmware,
}

module _ {W : Type 0} where
  -- The program goes on, and the total is still `t`.
  abbrev Goes : ℕ → Outcome W → Type 0
  Goes t none = ⊥
  Goes t (some (r, g, w)) = g.data_total ≡ t

  if_done-Goes :
      (t : ℕ) (o : Outcome W) (rest : Progress → W → Outcome W)
      → Goes t o
      → ((g : Progress) (w : W) → g.data_total ≡ t → Goes t (rest g w))
      → Goes t (if_done o rest)
  unfolding if_done
  if_done-Goes t none rest h k = h
  if_done-Goes t (some (r, g, w)) rest h k = elim (Bool-cases (is_zero r)) [
    | inl done ↦ rw done (k g w h)
    | inr bad ↦ rw bad h
  ]

module _ {W : Type 0} (can : CanDevice W) (p : Protocol) (m : ℕ) (t : ℕ) (h : t ≢ 0) where
  block_tries-Goes :
      (buf : List ℕ) (len n k : ℕ) (ret : ℤ) (g : Progress) (w : W)
      → g.data_total ≡ t
      → Goes t (block_tries can p m buf len n k ret g w)
  unfolding block_tries if_printed download_progress
  block_tries-Goes buf len zero k ret g w e = e
  block_tries-Goes buf len (suc n) k ret g w e = elim (Bool-cases (is_zero tried.0)) [
    | inr failed ↦ rw failed (block_tries-Goes buf len n tried.1 tried.0 g tried.2 e)
    | inl done ↦ elim (Bool-cases (is_zero told.0)) [
      | inr bad ↦ rw (done, bad) (block_tries-Goes buf len n tried.1 told.0 g told.1 e)
      | inl good ↦ rw (done, good, not_empty) e
    ]
  ]
    where
      tried : ℤ × ℕ × W
      tried = data_tries can p m (data_request p m buf len) k ret w

      told : ℤ × W
      told = send_data_crc p m can (crc16 buf len) tried.2

      not_empty : (g.data_total == 0) ≡ false
      not_empty = ground arith

  send_firmware_data-Goes :
      (buf : List ℕ) (len : ℕ) (g : Progress) (w : W)
      → g.data_total ≡ t
      → Goes t (send_firmware_data can p m buf len g w)
  unfolding send_firmware_data
  send_firmware_data-Goes buf len g w e = block_tries-Goes buf len 2 2 minus_one g w e

  send_blocks-Goes :
      (rounds : ℕ) (bytes : List ℕ) (left : ℕ) (g : Progress) (w : W)
      → g.data_total ≡ t
      → Goes t (send_blocks can p m rounds bytes left g w)
  unfolding send_blocks
  send_blocks-Goes zero bytes left g w e = send_firmware_data-Goes (block bytes left) left g w e
  send_blocks-Goes (suc rounds) bytes left g w e =
      if_done-Goes t (send_firmware_data can p m (block bytes 500) 500 g w)
        (send_blocks can p m rounds (drop 500 bytes) left)
        (send_firmware_data-Goes (block bytes 500) 500 g w e)
        (send_blocks-Goes rounds (drop 500 bytes) left)

  send_element_data-Goes :
      (e : ImageElement) (g : Progress) (w : W)
      → g.data_total ≡ t
      → Goes t (send_element_data can p m e g w)
  unfolding send_element_data
  send_element_data-Goes e g w k = elim (Bool-cases (leb e.length 500)) [
    | inl one ↦ rw one (send_firmware_data-Goes (block e.bytes e.length) e.length g w k)
    | inr more ↦ rw more (
        send_blocks-Goes (block_count e.length - 1) e.bytes
          (e.length - (block_count e.length - 1) * 500) g w k)
  ]

  send_elements-Goes :
      (es : List ImageElement) (g : Progress) (w : W)
      → g.data_total ≡ t
      → Goes t (send_elements can p m es g w)
  unfolding send_elements
  send_elements-Goes [] g w k = k
  send_elements-Goes (e ∷ es) g w k = elim (Bool-cases (is_zero addressed.0)) [
    | inr bad ↦ rw bad k
    | inl done ↦ rw done (
        if_done-Goes t (send_element_data can p m e g addressed.1) (send_elements can p m es)
          (send_element_data-Goes e g addressed.1 k) (send_elements-Goes es))
  ]
    where
      addressed : ℤ × W
      addressed = send_data_address p m can (e.address % 2 ^ 32) w

Goes-not_none : {W : Type 0} (t : ℕ) (o : Outcome W) → Goes t o → o ≢ none
Goes-not_none t none h e = h
Goes-not_none t (some x) h e = cc

-- `sendFirmware` ends the program, by a division by 0, exactly when the data size is 0 as a uint32_t;
-- whatever the board answers, it does not do so later.
pub send_firmware_ends_iff :
    {W : Type 0} (can : CanDevice W) (p : Protocol) (m : ℕ) (es : List ImageElement) (data_size : ℕ)
    (g : Progress) (w : W)
    → send_firmware can p m es data_size g w ≡ none ↔ data_size % 2 ^ 32 ≡ 0
unfolding send_firmware if_printed download_progress
send_firmware_ends_iff can p m es data_size g w = elim (Bool-cases (data_size % 2 ^ 32 == 0)) [
  | inl none_there ↦ (λ e. ground arith, λ e. rw none_there refl)
  | inr some_there ↦ (
    λ e. absurd (
        Goes-not_none (data_size % 2 ^ 32) _
          (send_elements-Goes can p m (data_size % 2 ^ 32) (ground arith) es
            (record { data_total = data_size % 2 ^ 32; data_sended = 0 }) w refl)
          (rw some_there at e)),
    λ e. ground arith,
  )
]
