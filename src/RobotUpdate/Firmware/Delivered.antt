-- ===== src/RobotUpdate/Firmware/Delivered.antt =====
-- An image whose sending gives 0 arrived whole.
use mathlib.Core.List.{flatten}
use ota_backup.Base.{
  ℕ, zero, suc, ◌+◌, ◌-◌, ◌*◌, ◌%◌, ◌^◌, ◌≤◌, ◌≡◌, inl, inr, ◌∙◌, refl, sym, ap, ap₂, List, [], ◌∷◌,
  ◌++◌, append-nil, true, false, Bool-cases, ℤ, pos, minus_one, is_zero, eq_of_is_zero, zeros,
  arith, ◌==◌, leb, none, some, All, take, drop, length as size, length-take, length-drop, take_all,
  take-append-drop, take-memcpy,
}
use ota_backup.Crc16.{crc16, crc_bytes, initial}
use ota_backup.Image.Element.{ImageElement, IsSized}
use ota_backup.RobotUpdate.Transport.{CanDevice, GivesPackets, Protocol}
use ota_backup.RobotUpdate.Request.{crc_request, address_request, send_data_address}
use ota_backup.RobotUpdate.Request.Acknowledged.{Leads, here}
use ota_backup.RobotUpdate.Request.Completed.{
  data_request-take, Exchange, plain, checked, Completed, none_left, Completed-append,
  send_data_address-Completed,
}
use ota_backup.RobotUpdate.Firmware.{
  Progress, Outcome, if_printed, download_progress, send_firmware_data, if_done, block, send_blocks,
  block_count, send_element_data, send_elements, send_firmware,
}
use ota_backup.RobotUpdate.Firmware.Tries.{block_exchanges, send_firmware_data-Completed}

module _ (p : Protocol) (m : ℕ) where
  -- The exchanges that carry pieces of data, each with its checksum.
  abbrev pub pieces_exchanges : List (List ℕ) → List Exchange
  pieces_exchanges [] = []
  pieces_exchanges (piece ∷ pieces) =
      block_exchanges p m piece (size piece) ++ pieces_exchanges pieces

  -- What a block says depends on the bytes that are sent only.
  block_exchanges_same :
      (a b : List ℕ) (n : ℕ)
      → take n a ≡ take n b
      → block_exchanges p m a n ≡ block_exchanges p m b n
  unfolding crc16
  block_exchanges_same a b n e =
      ap₂ (λ x y. plain x ∷ checked y ∷ []) (data_request-take p m a b n e)
        (ap (λ bytes. crc_request p m (crc_bytes initial bytes)) e)

  block_exchanges-block :
      (bytes : List ℕ) (n : ℕ)
      → n ≤ size bytes
      → block_exchanges p m (block bytes n) n
        ≡ block_exchanges p m (take n bytes) (size (take n bytes))
  unfolding block
  block_exchanges-block bytes n h = rw (taken) (
      block_exchanges_same (block bytes n) (take n bytes) n (
        take-memcpy (zeros 500) bytes n h ∙ sym (take_all n (take n bytes) (omega (arith, taken)))))
    where
      taken : size (take n bytes) ≡ n
      taken = omega (arith, length-take n bytes)

abbrev pub IsPiece : List ℕ → Type 0
IsPiece piece = size piece ≤ 500

module _ {W : Type 0} where
  -- Where the program went on behind a step.
  pub record Continued (o : Outcome W) (rest : Progress → W → Outcome W) (after : Outcome W)
      : Type 0 where
    pub progress : Progress
    pub world : W
    pub stepped : o ≡ some (pos 0, progress, world)
    pub followed : rest progress world ≡ after

  pub if_done-Continued :
      (o : Outcome W) (rest : Progress → W → Outcome W) (r : ℤ) (g' : Progress) (w' : W)
      → if_done o rest ≡ some (r, g', w')
      → is_zero r ≡ true
      → Continued o rest (some (r, g', w'))
  unfolding if_done
  if_done-Continued none rest r g' w' e z = absurd cc
  if_done-Continued (some (ret, g, w)) rest r g' w' e z = elim (Bool-cases (is_zero ret)) [
    | inr bad ↦ absurd (stopped bad (rw bad at e))
    | inl done ↦ record {
      progress = g;
      world = w;
      stepped = ap (λ (x : ℤ). some (x, g, w)) (eq_of_is_zero ret done);
      followed = rw done at e;
    }
  ]
    where
      stopped :
          is_zero ret ≡ false → ◌≡◌ {A = Outcome W} (some (minus_one, g, w)) (some (r, g', w')) → ⊥
      stopped bad e = cc

module _ {W : Type 0} (can : CanDevice W) (gives : GivesPackets can) (p : Protocol) (m : ℕ) where
  -- Bytes that went in pieces of at most 500, one after the other, every piece answered and its
  -- checksum found right.
  pub record Sent (bytes : List ℕ) (w w' : W) : Type 0 where
    pub pieces : List (List ℕ)
    pub whole : flatten pieces ≡ bytes
    pub fits : All IsPiece pieces
    pub completed : Completed can (pieces_exchanges p m pieces) w w'

  -- The elements one after the other, each as its address and its bytes.
  pub data Delivered : List ImageElement → W → W → Type 0 where
    all_sent : {w w' : W} → Leads can w w' → Delivered [] w w'
    element :
        {e : ImageElement} {es : List ImageElement} {w u v w' : W}
        → Completed can (plain (address_request p m (e.address % 2 ^ 32)) ∷ []) w u
        → Sent e.bytes u v
        → Delivered es v w'
        → Delivered (e ∷ es) w w'

  send_block-Completed :
      (bytes : List ℕ) (n : ℕ) (g g' : Progress) (w w' : W) (r : ℤ)
      → n ≤ size bytes
      → send_firmware_data can p m (block bytes n) n g w ≡ some (r, g', w')
      → is_zero r ≡ true
      → Completed can (block_exchanges p m (take n bytes) (size (take n bytes))) w w'
  send_block-Completed bytes n g g' w w' r h e z =
      rw (sym (block_exchanges-block p m bytes n h))
        (send_firmware_data-Completed can gives p m (block bytes n) n g g' w w' r e z)

  Sent-next :
      (piece bytes : List ℕ) (w u w' : W)
      → size piece ≤ 500
      → Completed can (block_exchanges p m piece (size piece)) w u
      → Sent bytes u w'
      → Sent (piece ++ bytes) w w'
  unfolding flatten
  Sent-next piece bytes w u w' h c s = record {
    pieces = piece ∷ s.pieces;
    whole = ap (λ rest. piece ++ rest) s.whole;
    fits = (h, s.fits);
    completed = Completed-append can c s.completed;
  }

  nothing_left : (w : W) → Sent [] w w
  unfolding flatten
  nothing_left w = record { pieces = []; whole = refl; fits = tt; completed = none_left here }

  send_block-Sent :
      (bytes : List ℕ) (n : ℕ) (g g' : Progress) (w w' : W) (r : ℤ)
      → size bytes ≡ n
      → n ≤ 500
      → send_firmware_data can p m (block bytes n) n g w ≡ some (r, g', w')
      → is_zero r ≡ true
      → Sent bytes w w'
  send_block-Sent bytes n g g' w w' r h le e z = rw (sym (append-nil bytes)) (
      Sent-next bytes [] w w' w' (omega arith)
        (rw (sym (take_all n bytes (omega arith)))
          (send_block-Completed bytes n g g' w w' r (omega arith) e z))
        (nothing_left w'))

  send_blocks-Sent :
      (rounds : ℕ) (bytes : List ℕ) (left : ℕ) (g g' : Progress) (w w' : W) (r : ℤ)
      → size bytes ≡ rounds * 500 + left
      → left ≤ 500
      → send_blocks can p m rounds bytes left g w ≡ some (r, g', w')
      → is_zero r ≡ true
      → Sent bytes w w'
  unfolding send_blocks
  send_blocks-Sent zero bytes left g g' w w' r h le e z =
      send_block-Sent bytes left g g' w w' r (omega arith) le e z
  send_blocks-Sent (suc rounds) bytes left g g' w w' r h le e z =
      let c =
        if_done-Continued (send_firmware_data can p m (block bytes 500) 500 g w)
          (send_blocks can p m rounds (drop 500 bytes) left) r g' w' e z in
      rw (sym (take-append-drop 500 bytes)) (
        Sent-next (take 500 bytes) (drop 500 bytes) w c.world w'
          (omega (arith, length-take 500 bytes))
          (send_block-Completed bytes 500 g c.progress w c.world (pos 0) (omega arith) c.stepped
            refl)
          (send_blocks-Sent rounds (drop 500 bytes) left c.progress g' c.world w' r
            (omega (arith, length-drop 500 bytes)) le c.followed z))

  send_element_data-Sent :
      (e : ImageElement) (g g' : Progress) (w w' : W) (r : ℤ)
      → IsSized e
      → send_element_data can p m e g w ≡ some (r, g', w')
      → is_zero r ≡ true
      → Sent e.bytes w w'
  unfolding send_element_data block_count
  send_element_data-Sent e g g' w w' r h s z = elim (Bool-cases (leb e.length 500)) [
    | inl one ↦ send_block-Sent e.bytes e.length g g' w w' r h (ground arith) (rw one at s) z
    | inr more ↦
        send_blocks-Sent (block_count e.length - 1) e.bytes
          (e.length - (block_count e.length - 1) * 500) g g' w w' r (ground arith) (ground arith)
          (rw more at s) z
  ]

  send_elements-Delivered :
      (es : List ImageElement) (g g' : Progress) (w w' : W) (r : ℤ)
      → All IsSized es
      → send_elements can p m es g w ≡ some (r, g', w')
      → is_zero r ≡ true
      → Delivered es w w'
  unfolding send_elements
  send_elements-Delivered [] g g' w w' r h s z = rw (same s) (all_sent here)
    where
      same : ◌≡◌ {A = Outcome W} (some (pos 0, g, w)) (some (r, g', w')) → w' ≡ w
      same s = cc
  send_elements-Delivered (e ∷ es) g g' w w' r h s z = elim (Bool-cases (is_zero addressed.0)) [
    | inr bad ↦ absurd (stopped (rw bad at s))
    | inl done ↦
        (let c =
            if_done-Continued (send_element_data can p m e g addressed.1) (send_elements can p m es)
              r g' w' (rw done at s) z in
          element (send_data_address-Completed can gives p m (e.address % 2 ^ 32) w done)
            (send_element_data-Sent e g c.progress addressed.1 c.world (pos 0) h.0 c.stepped refl)
            (send_elements-Delivered es c.progress g' c.world w' r h.1 c.followed z))
  ]
    where
      addressed : ℤ × W
      addressed = send_data_address p m can (e.address % 2 ^ 32) w

      stopped : ◌≡◌ {A = Outcome W} (some (minus_one, g, addressed.1)) (some (r, g', w')) → ⊥
      stopped s = cc

  -- In a world whose reads give packets: a `sendFirmware` that returns 0 for sized elements has
  -- delivered them in order, each as its address and then its bytes in pieces of at most 500, and
  -- every address, piece and checksum was sent and answered, the checksum found right.
  pub send_firmware-Delivered :
      (es : List ImageElement) (data_size : ℕ) (g g' : Progress) (w w' : W)
      → All IsSized es
      → send_firmware can p m es data_size g w ≡ some (pos 0, g', w')
      → Delivered es w w'
  unfolding send_firmware if_printed download_progress
  send_firmware-Delivered es data_size g g' w w' h s = elim (Bool-cases (data_size % 2 ^ 32 == 0)) [
    | inl none_there ↦ absurd (ended (rw none_there at s))
    | inr some_there ↦ send_elements-Delivered es _ g' w w' (pos 0) h (rw some_there at s) refl
  ]
    where
      ended : ◌≡◌ {A = Outcome W} none (some (pos 0, g', w')) → ⊥
      ended s = cc
