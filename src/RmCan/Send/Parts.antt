-- ===== src/RmCan/Send/Parts.antt =====
-- A long message as the list of its parts, and that the sender sends exactly that list.
use ota_backup.Base.{
  ℕ, zero, suc, ◌+◌, ◌-◌, ◌*◌, ◌/◌, ◌%◌, ◌≤◌, ◌<◌, ◌≡◌, ◌∙◌, refl, ap, ap₂, fun_ext, List, [], ◌∷◌,
  ◌++◌, false, leb, Option-cases, inl, inr, Option, some, ℤ, pos, take, drop, length, length-take,
  length-drop, drop-append, take_all, zeros, memcpy, memcpy_cleared, arith,
}
use ota_backup.Flexcan.Packet.{FlexcanPacket, can_sub_packet_size, u8}
use ota_backup.RmCan.Link.{CanPacket, Link}
use ota_backup.RmCan.Send.{
  common_data, if_sent, part_count, last_len, send_retry, send_last, send_parts, send_to_can,
}

-- Part `i` of a message that is cut into `count` parts, with number `id`.
abbrev pub part : CanPacket → ℕ → ℕ → ℕ → List ℕ → FlexcanPacket
part m id count i chunk = record (common_data m) {
  packet_id = id;
  bytes = chunk ++ zeros (8 - length chunk);
  len = length chunk;
  packet_sn = i;
  sum = count - 1;
}

-- The parts from `i` on: all but the last hold 6 bytes.
abbrev pub parts : CanPacket → ℕ → ℕ → ℕ → ℕ → List ℕ → List FlexcanPacket
parts m id count zero i bytes = part m id count i bytes ∷ []
parts m id count (suc more) i bytes =
    part m id count i (take 6 bytes) ∷ parts m id count more (i + 1) (drop 6 bytes)

-- A long message: more than one frame holds, at most 255 parts, and `len` is the size of its bytes.
pub record IsLong (m : CanPacket) : Type 0 where
  pub long : 8 < m.len
  pub fits : m.len ≤ 1530
  pub sized : length m.bytes ≡ m.len

abbrev pub count_of : CanPacket → ℕ
count_of m = (m.len + 5) / 6

abbrev pub parts_of : CanPacket → ℕ → List FlexcanPacket
parts_of m id = parts m id (count_of m) (count_of m - 1) 0 m.bytes

part_count_value : (len : ℕ) → len ≤ 1530 → part_count len ≡ (len + 5) / 6
unfolding part_count
part_count_value len h = ground arith

last_len_value :
    (len : ℕ) → 0 < len → len ≤ 1530 → last_len len ((len + 5) / 6) + ((len + 5) / 6 - 1) * 6 ≡ len
unfolding last_len
last_len_value len p h = ground arith

module _ {W : Type 0} (link : Link W) (fuel : ℕ) where
  -- Packets sent one after the other, up to the first that is not sent.
  abbrev pub send_list : List FlexcanPacket → ℤ → W → Option (ℤ × W)
  send_list [] ret w = some (ret, w)
  send_list (p ∷ ps) ret w = if_sent (send_retry link fuel p w) (send_list ps)

module _ (m : CanPacket) (id count : ℕ) where
  -- `can_data` at the head of the loop.
  abbrev head_data : ℕ → FlexcanPacket
  head_data sn = record (common_data m) {
    packet_id = id;
    sum = count - 1;
    len = can_sub_packet_size;
    packet_sn = sn;
  }

  inner_part :
      (i sn : ℕ) (bytes : List ℕ)
      → 6 ≤ length bytes
      → record (head_data sn) { packet_sn = i; bytes = memcpy (zeros 8) 0 bytes 6 }
        ≡ part m id count i (take 6 bytes)
  unfolding common_data
  inner_part i sn bytes h = rw full refl
    where
      full : length (take 6 bytes) ≡ 6
      full = omega (arith, length-take 6 bytes)

  last_part :
      (i sn left : ℕ) (bytes : List ℕ)
      → length bytes ≡ left
      → record (head_data sn) { len = left; packet_sn = i; bytes = memcpy (zeros 8) 0 bytes left }
        ≡ part m id count i bytes
  unfolding common_data
  last_part i sn left bytes h =
      rw (memcpy_cleared 8 bytes left, take_all left bytes (omega arith), h) refl

  cleared :
      (i sn : ℕ) (bytes : List ℕ)
      → 6 ≤ length bytes
      → record (part m id count i (take 6 bytes)) {
        bytes = memcpy (part m id count i (take 6 bytes)).bytes 0 (zeros 6) 6;
      }
        ≡ head_data i
  unfolding common_data
  cleared i sn bytes h = rw (full, drop-append 6 (take 6 bytes) (0 ∷ 0 ∷ []) full) refl
    where
      full : length (take 6 bytes) ≡ 6
      full = omega (arith, length-take 6 bytes)

  module _ {W : Type 0} (link : Link W) (fuel : ℕ) where
    -- Nothing follows the last packet.
    send_one :
        (p : FlexcanPacket) (ret : ℤ) (w : W)
        → send_retry link fuel p w ≡ send_list link fuel (p ∷ []) ret w
    unfolding if_sent
    send_one p ret w = elim (Option-cases (send_retry link fuel p w)) [
      | inl e ↦ rw e refl
      | inr (r, e) ↦ rw e (last_of r)
    ]
      where
        last_of : (r : ℤ × W) → some r ≡ if_sent (some r) (send_list link fuel [])
        last_of (ret, w) = ground arith

    send_parts-eq-send_list :
        (rounds i sn : ℕ) (bytes : List ℕ) (left last : ℕ) (ret : ℤ) (w : W)
        → left + rounds * 6 ≡ length bytes
        → last ≡ i + rounds
        → send_parts link fuel rounds i (head_data sn) bytes left last w
          ≡ send_list link fuel (parts m id count rounds i bytes) ret w
    unfolding send_parts send_last common_data
    send_parts-eq-send_list zero i sn bytes left last ret w size at =
        rw (last_part last sn left bytes (omega arith), here)
          (send_one (part m id count i bytes) ret w)
      where
        here : last ≡ i
        here = omega arith
    send_parts-eq-send_list (suc rounds) i sn bytes left last ret w size at =
        ap₂ if_sent (ap (λ p. send_retry link fuel p w) (inner_part i sn bytes (omega arith))) (
          fun_ext λ ret'. fun_ext λ w'.
            ap (λ c. send_parts link fuel rounds (i + 1) c (drop 6 bytes) left last w') rest_data
            ∙ send_parts-eq-send_list rounds (i + 1) i (drop 6 bytes) left last ret' w'
                (omega (arith, length-drop 6 bytes)) (omega arith))
      where
        rest_data :
            record (head_data sn) {
              packet_sn = i;
              bytes = memcpy (memcpy (zeros 8) 0 bytes 6) 0 (zeros 6) 6;
            }
            ≡ head_data i
        rest_data =
            ap (λ (p : FlexcanPacket). record p { bytes = memcpy p.bytes 0 (zeros 6) 6 })
              (inner_part i sn bytes (omega arith))
            ∙ cleared i sn bytes (omega arith)

-- `sendToCan` sends a long message as its parts, in order and up to the first that fails, each under
-- the number that `g_PacketsId` had, which it moves on by one modulo 256.
pub send_to_can-eq-send_list :
    {W : Type 0} (link : Link W) (fuel : ℕ) (m : CanPacket) (id : ℕ) (w : W)
    → IsLong m
    → send_to_can link fuel m id w ≡ (send_list link fuel (parts_of m id) (pos 0) w, (id + 1) % 256)
unfolding send_to_can common_data
send_to_can-eq-send_list link fuel m id w v =
    rw (too_long, part_count_value m.len v.fits, counted)
      (ap (λ r. (r, (id + 1) % 256))
        (send_parts-eq-send_list m id (count_of m) link fuel (count_of m - 1) 0 0 m.bytes
          (last_len m.len (count_of m)) (count_of m - 1) (pos 0) w
          (omega (arith, last_len_value m.len (omega (arith, v.long)) v.fits, v.sized))
          (omega arith)))
  where
    too_long : leb m.len 8 ≡ false
    too_long = ground (arith, v.long)

    counted : u8 (count_of m + 255) ≡ count_of m - 1
    counted = omega (arith, v.long, v.fits)
