-- ===== src/RobotUpdate/Firmware.antt =====
-- robotUpdate.cpp: an image goes to the board block by block.
pub mod Tries
pub mod Delivered
pub mod Total
use ota_backup.Base.{
  ℕ, zero, suc, ◌+◌, ◌-◌, ◌*◌, ◌/◌, ◌%◌, ◌^◌, List, [], ◌∷◌, ◌++◌, Bool, true, false, ◌==◌, leb,
  not, if◌then◌else◌, Option, none, some, ℤ, pos, minus_one, is_zero, is_positive, zeros, take,
  drop, get_or, memcpy,
}
use ota_backup.Crc16.{crc16}
use ota_backup.Image.Element.{ImageElement}
use ota_backup.RobotUpdate.Transport.{CanDevice, Protocol}
use ota_backup.RobotUpdate.Request.{
  data_packet_length, resend_count, Request, data_request, send_data_address, send_data_crc,
}

-- `g_DataTotal` and `g_DataSended`, both uint32_t.
pub record Progress : Type 0 where
  pub data_total : ℕ
  pub data_sended : ℕ

-- `downloadProgress`: the percentage that is printed; `none` is the division by 0, which ends the
-- program.
unfoldable pub download_progress : ℕ → ℕ → Option ℕ
download_progress cur tol = if tol == 0 then none else some (cur * 100 % 2 ^ 32 / tol)

-- The result, the progress and the world behind it; `none`: the program ended.
abbrev pub Outcome : Type 0 → Type 0
Outcome W = Option (ℤ × Progress × W)

-- What follows `downloadProgress`, unless that ended the program.
unfoldable pub if_printed : {W : Type 0} → Option ℕ → Outcome W → Outcome W
if_printed none rest = none
if_printed (some prog) rest = rest

-- `memset(buf, 0, sizeof(buf)); memcpy(buf, data, n);` on the buffer of 500 bytes.
unfoldable pub block : List ℕ → ℕ → List ℕ
block bytes n = memcpy (zeros data_packet_length) 0 bytes n

-- `if (0 != ret) return -1;` behind a step.
unfoldable pub if_done : {W : Type 0} → Outcome W → (Progress → W → Outcome W) → Outcome W
if_done none rest = none
if_done (some (ret, g, w)) rest =
    let next = rest g w in if is_zero ret then next else some (minus_one, g, w)

unfoldable pub block_count : ℕ → ℕ
block_count length =
    if length % data_packet_length == 0
    then length / data_packet_length
    else length / data_packet_length + 1

module _ {W : Type 0} (can : CanDevice W) (p : Protocol) (cur_module : ℕ) where
  -- The inner loop `while (dataCount-- > 0)` with what is left of `dataCount`.
  unfoldable pub data_tries : Request → ℕ → ℤ → W → ℤ × ℕ × W
  data_tries q zero ret w = (ret, zero, w)
  data_tries q (suc data_count) ret w =
      let (ret', w') = can.send q.source q.target q.message q.len w in
      let (ret'', _, w'') = can.read q.target q.resp (zeros q.resp_len) q.resp_len q.timeout w' in
      let unsent = data_tries q data_count ret' w' in
      let unanswered = data_tries q data_count ret'' w'' in
      if not (is_zero ret')
      then unsent
      else if is_positive ret''
      then (pos 0, data_count, w'')
      else unanswered

  -- The outer loop `while (count-- > 0)` of sendFirmwareData. `dataCount` is not set again.
  unfoldable pub block_tries : List ℕ → ℕ → ℕ → ℕ → ℤ → Progress → W → Outcome W
  block_tries buf len zero data_count ret g w = some (ret, g, w)
  block_tries buf len (suc count) data_count ret g w =
      let (sent, data_count', w') =
        data_tries (data_request p cur_module buf len) data_count ret w in
      let (checked, w'') = send_data_crc p cur_module can (crc16 buf len) w' in
      let g' = record g { data_sended = (g.data_sended + len) % 2 ^ 32 } in
      let not_sent = block_tries buf len count data_count' sent g w' in
      let not_checked = block_tries buf len count data_count' checked g w'' in
      if not (is_zero sent)
      then not_sent
      else if not (is_zero checked)
      then not_checked
      else if_printed (download_progress g'.data_sended g'.data_total) (some (pos 0, g', w''))

  -- `sendFirmwareData`.
  unfoldable pub send_firmware_data : List ℕ → ℕ → Progress → W → Outcome W
  send_firmware_data buf len g w = block_tries buf len resend_count resend_count minus_one g w

  -- The loop over the full blocks of an element, and the block that is left behind it. `bytes` is what
  -- `data + sended` points to.
  unfoldable pub send_blocks : ℕ → List ℕ → ℕ → Progress → W → Outcome W
  unfolding block
  send_blocks zero bytes left g w = send_firmware_data (block bytes left) left g w
  send_blocks (suc rounds) bytes left g w =
      if_done (send_firmware_data (block bytes data_packet_length) data_packet_length g w)
        (send_blocks rounds (drop data_packet_length bytes) left)

  -- The data of one element.
  unfoldable pub send_element_data : ImageElement → Progress → W → Outcome W
  unfolding send_blocks
  send_element_data e g w =
      if leb e.length data_packet_length
      then send_firmware_data (block e.bytes e.length) e.length g w
      else (let num = block_count e.length in
          send_blocks (num - 1) e.bytes (e.length - (num - 1) * data_packet_length) g w)

  -- The loop over the elements.
  unfoldable pub send_elements : List ImageElement → Progress → W → Outcome W
  send_elements [] g w = some (pos 0, g, w)
  send_elements (e ∷ es) g w =
      let (ret, w') = send_data_address p cur_module can (e.address % 2 ^ 32) w in
      let sending = if_done (send_element_data e g w') (send_elements es) in
      if not (is_zero ret) then some (minus_one, g, w') else sending

  -- `sendFirmware`: the elements of the image and its data size.
  unfoldable pub send_firmware : List ImageElement → ℕ → Progress → W → Outcome W
  send_firmware elements data_size g w =
      let g' : Progress = record { data_total = data_size % 2 ^ 32; data_sended = 0 } in
      if_printed (download_progress 0 g'.data_total) (send_elements elements g' w)
