-- ===== src/RobotUpdate/Session/Willing.antt =====
-- Boards that answer and agree are upgraded.
use ota_backup.Base.{
  ℕ, zero, suc, ◌-◌, ◌*◌, ◌%◌, ◌^◌, ◌≡◌, ◌≢◌, inl, inr, refl, ap, List, [], ◌∷◌, true, false,
  Bool-cases, ◌==◌, leb, ℤ, pos, minus_one, is_zero, is_positive, none, some, arith, zeros, get_or,
  drop,
}
use ota_backup.Crc16.{crc16}
use ota_backup.Image.Element.{ImageElement}
use ota_backup.RobotUpdate.Transport.{CanDevice, Protocol}
use ota_backup.RobotUpdate.Request.{
  Request, attempts, request, start_request, address_request, crc_request, data_request,
  end_request, send_start_flag, send_data_address, send_data_crc, send_end_flag,
}
use ota_backup.RobotUpdate.Firmware.{
  Progress, Outcome, download_progress, if_printed, data_tries, block_tries, send_firmware_data,
  if_done, block, send_blocks, block_count, send_element_data, send_elements, send_firmware,
}
use ota_backup.RobotUpdate.Session.{
  Loaded, Services, addr_bytes, end_upgrade, upgrade_loaded, upgrade,
}

-- Every send works, and every read gives a packet whose third byte says 0.
pub record IsWilling {W : Type 0} (can : CanDevice W) : Type 0 where
  pub sends :
      (s d : ℕ) (bytes : List ℕ) (len : ℕ) (w : W) → is_zero (can.send s d bytes len w).0 ≡ true
  pub answers :
      (s t : ℕ) (buf : List ℕ) (len timeout : ℕ) (w : W)
      → is_positive (can.read s t buf len timeout w).0 ≡ true
  pub agrees :
      (s t : ℕ) (buf : List ℕ) (len timeout : ℕ) (w : W)
      → get_or (can.read s t buf len timeout w).1 2 0 ≡ 0

module _ {W : Type 0} where
  -- Success, with the total of the progress as it was.
  abbrev Done : ℕ → Outcome W → Type 0
  Done t none = ⊥
  Done t (some (r, g, w)) = (r ≡ pos 0) × (g.data_total ≡ t)

  if_done-Done :
      (t : ℕ) (o : Outcome W) (rest : Progress → W → Outcome W)
      → Done t o
      → ((g : Progress) (w : W) → g.data_total ≡ t → Done t (rest g w))
      → Done t (if_done o rest)
  unfolding if_done
  if_done-Done t none rest h k = h
  if_done-Done t (some (r, g, w)) rest h k = rw h.0 (k g w h.1)

  Done-some :
      (t : ℕ) (o : Outcome W) → Done t o → (g : Progress) × (w : W) × (o ≡ some (pos 0, g, w))
  Done-some t none h = absurd h
  Done-some t (some (r, g, w)) h = (g, w, ap (λ (x : ℤ). some (x, g, w)) h.0)

module _ {W : Type 0} (can : CanDevice W) (will : IsWilling can) (p : Protocol) (m : ℕ) where
  -- The world behind a request that is sent and answered at once.
  abbrev asked : Request → W → ℤ × List ℕ × W
  asked q w =
      can.read q.target q.resp (zeros q.resp_len) q.resp_len q.timeout
        (can.send q.source q.target q.message q.len w).1

  request_willing :
      (q : Request) (w : W)
      → request can q w
        ≡ (record { ret = pos 0; answered = true; ret_data = (asked q w).1 }, (asked q w).2)
  unfolding request attempts
  request_willing q w =
      rw
        (
          will.sends q.source q.target q.message q.len w,
          will.answers q.target q.resp (zeros q.resp_len) q.resp_len q.timeout
              (can.send q.source q.target q.message q.len w).1,
        )
        refl

  data_tries_willing :
      (q : Request) (n : ℕ) (ret : ℤ) (w : W)
      → data_tries can p m q (suc n) ret w ≡ (pos 0, n, (asked q w).2)
  unfolding data_tries
  data_tries_willing q n ret w =
      rw
        (
          will.sends q.source q.target q.message q.len w,
          will.answers q.target q.resp (zeros q.resp_len) q.resp_len q.timeout
              (can.send q.source q.target q.message q.len w).1,
        )
        refl

  start_willing : (w : W) → send_start_flag p m can w ≡ (pos 0, (asked (start_request p m) w).2)
  unfolding send_start_flag
  start_willing w = rw (request_willing (start_request p m) w) refl

  address_willing :
      (addr : ℕ) (w : W)
      → send_data_address p m can addr w ≡ (pos 0, (asked (address_request p m addr) w).2)
  unfolding send_data_address
  address_willing addr w = rw (request_willing (address_request p m addr) w) refl

  end_willing : (w : W) → send_end_flag p m can w ≡ (pos 0, (asked (end_request p m) w).2)
  unfolding send_end_flag
  end_willing w = rw (request_willing (end_request p m) w) refl

  crc_willing :
      (crc : ℕ) (w : W) → send_data_crc p m can crc w ≡ (pos 0, (asked (crc_request p m crc) w).2)
  unfolding send_data_crc
  crc_willing crc w =
      let q = crc_request p m crc in
      rw
        (
          request_willing q w,
          will.agrees q.target q.resp (zeros q.resp_len) q.resp_len q.timeout
              (can.send q.source q.target q.message q.len w).1,
        )
        refl

  module _ (t : ℕ) (h : t ≢ 0) where
    send_firmware_data-Done :
        (buf : List ℕ) (len : ℕ) (g : Progress) (w : W)
        → g.data_total ≡ t
        → Done t (send_firmware_data can p m buf len g w)
    unfolding send_firmware_data block_tries if_printed download_progress
    send_firmware_data-Done buf len g w e =
        rw
          (
            data_tries_willing (data_request p m buf len) 1 minus_one w,
            crc_willing (crc16 buf len) (asked (data_request p m buf len) w).2,
            some_there,
          )
          (refl, e)
      where
        some_there : (g.data_total == 0) ≡ false
        some_there = ground arith

    send_blocks-Done :
        (rounds : ℕ) (bytes : List ℕ) (left : ℕ) (g : Progress) (w : W)
        → g.data_total ≡ t
        → Done t (send_blocks can p m rounds bytes left g w)
    unfolding send_blocks
    send_blocks-Done zero bytes left g w e = send_firmware_data-Done (block bytes left) left g w e
    send_blocks-Done (suc rounds) bytes left g w e =
        if_done-Done t (send_firmware_data can p m (block bytes 500) 500 g w)
          (send_blocks can p m rounds (drop 500 bytes) left)
          (send_firmware_data-Done (block bytes 500) 500 g w e)
          (send_blocks-Done rounds (drop 500 bytes) left)

    send_element_data-Done :
        (e : ImageElement) (g : Progress) (w : W)
        → g.data_total ≡ t
        → Done t (send_element_data can p m e g w)
    unfolding send_element_data
    send_element_data-Done e g w k = elim (Bool-cases (leb e.length 500)) [
      | inl one ↦ rw one (send_firmware_data-Done (block e.bytes e.length) e.length g w k)
      | inr more ↦ rw more (
          send_blocks-Done (block_count e.length - 1) e.bytes
            (e.length - (block_count e.length - 1) * 500) g w k)
    ]

    send_elements-Done :
        (es : List ImageElement) (g : Progress) (w : W)
        → g.data_total ≡ t
        → Done t (send_elements can p m es g w)
    unfolding send_elements
    send_elements-Done [] g w k = (refl, k)
    send_elements-Done (e ∷ es) g w k = rw (address_willing (e.address % 2 ^ 32) w) (
        if_done-Done t
          (send_element_data can p m e g (asked (address_request p m (e.address % 2 ^ 32)) w).2)
          (send_elements can p m es)
          (send_element_data-Done e g (asked (address_request p m (e.address % 2 ^ 32)) w).2 k)
          (send_elements-Done es))

  send_firmware-Done :
      (es : List ImageElement) (data_size : ℕ) (g : Progress) (w : W)
      → data_size % 2 ^ 32 ≢ 0
      → Done (data_size % 2 ^ 32) (send_firmware can p m es data_size g w)
  unfolding send_firmware if_printed download_progress
  send_firmware-Done es data_size g w h =
      rw some_there (send_elements-Done (data_size % 2 ^ 32) h es _ w refl)
    where
      some_there : (data_size % 2 ^ 32 == 0) ≡ false
      some_there = ground arith

  end_upgrade-Done :
      (t : ℕ) (g : Progress) (w : W) → g.data_total ≡ t → Done t (end_upgrade p can m g w)
  unfolding end_upgrade
  end_upgrade-Done t g w e = rw (end_willing w) (refl, e)

  upgrade_loaded-Done :
      (image : Loaded) (g : Progress) (w : W)
      → image.data_size % 2 ^ 32 ≢ 0
      → Done (image.data_size % 2 ^ 32) (upgrade_loaded p can m (some image) g w)
  unfolding upgrade_loaded
  upgrade_loaded-Done image g w h = rw (start_willing w) (
      if_done-Done (image.data_size % 2 ^ 32)
        (send_firmware can p m image.elements image.data_size g (asked (start_request p m) w).2)
        (end_upgrade p can m)
        (send_firmware-Done image.elements image.data_size g (asked (start_request p m) w).2 h)
        (end_upgrade-Done (image.data_size % 2 ^ 32)))

  -- In a world where every send works and every read gives a packet whose third byte is 0, `upgrade`
  -- returns 0 for every file that loads with a data size that is not 0 as a uint32_t, the size of its
  -- elements and their addresses being what they will.
  pub upgrade_willing :
      {File : Type 0} (services : Services File W) (file : File) (image : Loaded) (g : Progress)
      (w : W)
      → services.load_hex file (addr_bytes p m) ≡ some image
      → image.data_size % 2 ^ 32 ≢ 0
      → (g' : Progress) × (w' : W) × (upgrade p can services m file g w ≡ some (pos 0, g', w'))
  unfolding upgrade
  upgrade_willing services file image g w e h = rw e (
      Done-some (image.data_size % 2 ^ 32) (upgrade_loaded p can m (some image) g w)
        (upgrade_loaded-Done image g w h))
