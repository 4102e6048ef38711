-- ===== src/RmCan/Send/Valid.antt =====
-- The parts of a message fit the frames, and together hold its bytes.
use ota_backup.Base.{
  ℕ, zero, suc, ◌+◌, ◌-◌, ◌*◌, ◌≤◌, ◌<◌, ◌≡◌, inl, inr, refl, sym, ap, ◌∙◌, subst, List, [], ◌∷◌,
  ◌++◌, take, drop, length, length-take, length-drop, length-append, length-replicate, take-append,
  zeros, memcpy, length-memcpy, take-memcpy, memcpy_cleared, arith, All, Option, none, some, ℤ, pos,
  is_zero, is_negative, Bool-cases, ◌&&◌, leb,
}
use ota_backup.Flexcan.Packet.{FlexcanPacket}
use ota_backup.Flexcan.Frame.RoundTrip.{IsPacket}
use ota_backup.RmCan.Link.{CanPacket, Link}
use ota_backup.RmCan.Send.{common_data, send_retry, if_sent, send_to_can}
use ota_backup.RmCan.Send.Parts.{
  IsLong, part, parts, count_of, parts_of, send_list, send_to_can-eq-send_list,
}

-- The fields of a message fit their bits.
pub record HasFields (m : CanPacket) : Type 0 where
  pub priority_lt : m.priority < 8
  pub src_id_lt : m.src_id < 256
  pub dst_id_lt : m.dst_id < 256

module _ (m : CanPacket) (id count : ℕ) (v : HasFields m) (many : 1 < count)
    (few : count ≤ 255) where
  part-IsPacket :
      (i : ℕ) (chunk : List ℕ)
      → 0 < length chunk
      → length chunk ≤ 6
      → IsPacket (part m id count i chunk)
  unfolding common_data
  part-IsPacket i chunk p h = record {
    priority_lt = v.priority_lt;
    s_id_lt = v.src_id_lt;
    d_id_lt = v.dst_id_lt;
    sum_lt = omega arith;
    len_pos = p;
    len_le = omega arith;
    size = omega (
      arith,
      length-append chunk (zeros (8 - length chunk)),
      length-replicate {A = ℕ} (8 - length chunk) 0,
    );
    padded =
        ap (λ l. l ++ zeros (8 - length chunk))
          (sym (take-append (length chunk) chunk (zeros (8 - length chunk)) refl));
    whole_id = λ e. absurd (omega arith);
    whole_sn = λ e. absurd (omega arith);
    part_len = λ _. h;
  }

  parts-IsPacket :
      (more i left : ℕ) (bytes : List ℕ)
      → left + more * 6 ≡ length bytes
      → 0 < left
      → left ≤ 6
      → All IsPacket (parts m id count more i bytes)
  parts-IsPacket zero i left bytes e p h = (part-IsPacket i bytes (omega arith) (omega arith), tt)
  parts-IsPacket (suc more) i left bytes e p h = (
    part-IsPacket i (take 6 bytes) (omega (arith, length-take 6 bytes))
        (omega (arith, length-take 6 bytes)),
    parts-IsPacket more (i + 1) left (drop 6 bytes) (omega (arith, length-drop 6 bytes)) p h,
  )

-- Every part of a long message is a packet that `flexcan_send` takes and `flexcan_recv` gives back.
pub parts_of-IsPacket :
    (m : CanPacket) (id : ℕ) → IsLong m → HasFields m → All IsPacket (parts_of m id)
parts_of-IsPacket m id long v =
    parts-IsPacket m id (count_of m) v (omega (arith, long.long)) (omega (arith, long.fits))
      (count_of m - 1) 0 (m.len - (count_of m - 1) * 6) m.bytes
      (omega (arith, long.sized, long.long)) (omega (arith, long.long)) (omega arith)

-- A message that one frame holds.
whole-IsPacket :
    (m : CanPacket)
    → HasFields m
    → 0 < m.len
    → m.len ≤ 8
    → length m.bytes ≡ m.len
    → IsPacket (record (common_data m) {
      len = m.len;
      bytes = memcpy (common_data m).bytes 0 m.bytes m.len;
    })
unfolding common_data
whole-IsPacket m v some_bytes short sized = record {
  priority_lt = v.priority_lt;
  s_id_lt = v.src_id_lt;
  d_id_lt = v.dst_id_lt;
  sum_lt = omega arith;
  len_pos = some_bytes;
  len_le = short;
  size = omega (arith, length-memcpy (zeros 8) 0 m.bytes m.len (omega arith) (omega arith));
  padded =
      memcpy_cleared 8 m.bytes m.len
      ∙ ap (λ l. l ++ zeros (8 - m.len)) (sym (take-memcpy (zeros 8) m.bytes m.len (omega arith)));
  whole_id = λ e. refl;
  whole_sn = λ e. refl;
  part_len = λ ne. absurd (ne refl);
}

module _ {W : Type 0} (link : Link W) (Kept : W → Type 0)
    (keeps : (p : FlexcanPacket) (w : W) → IsPacket p → Kept w → Kept (link.send p w).1) where
  -- Where there is a result, its world is one that was kept.
  abbrev pub KeptBehind : Option (ℤ × W) → Type 0
  KeptBehind none = Unit
  KeptBehind (some (ret, w)) = Kept w

  send_retry-KeptBehind :
      (fuel : ℕ) (p : FlexcanPacket) (w : W)
      → IsPacket p
      → Kept w
      → KeptBehind (send_retry link fuel p w)
  unfolding send_retry
  send_retry-KeptBehind zero p w v h = tt
  send_retry-KeptBehind (suc fuel) p w v h =
      elim (Bool-cases (is_negative (link.send p w).0 && link.no_buffers (link.send p w).1)) [
        | inl again ↦ rw again (send_retry-KeptBehind fuel p (link.send p w).1 v (keeps p w v h))
        | inr over ↦ rw over (keeps p w v h)
      ]

  if_sent-KeptBehind :
      (o : Option (ℤ × W)) (rest : ℤ → W → Option (ℤ × W))
      → KeptBehind o
      → ((ret : ℤ) (w : W) → Kept w → KeptBehind (rest ret w))
      → KeptBehind (if_sent o rest)
  unfolding if_sent
  if_sent-KeptBehind none rest h k = tt
  if_sent-KeptBehind (some (ret, w)) rest h k = elim (Bool-cases (is_zero ret)) [
    | inl ok ↦ rw ok (k ret w h)
    | inr bad ↦ rw bad h
  ]

  send_list-KeptBehind :
      (fuel : ℕ) (ps : List FlexcanPacket) (ret : ℤ) (w : W)
      → All IsPacket ps
      → Kept w
      → KeptBehind (send_list link fuel ps ret w)
  send_list-KeptBehind fuel [] ret w v h = h
  send_list-KeptBehind fuel (p ∷ ps) ret w v h =
      if_sent-KeptBehind (send_retry link fuel p w) (send_list link fuel ps)
        (send_retry-KeptBehind fuel p w v.0 h)
        (λ ret' w' h'. send_list-KeptBehind fuel ps ret' w' v.1 h')

  -- `sendToCan` hands on only packets that fit a frame and its fields: whatever every send of such a
  -- packet keeps is kept by a message of 1 to 1530 bytes, in one frame or in parts, and also where a send
  -- fails or is repeated. The fields of the message fit, and `len` is the size of its bytes.
  pub send_to_can-KeptBehind :
      (fuel : ℕ) (m : CanPacket) (id : ℕ) (w : W)
      → HasFields m
      → 0 < m.len
      → m.len ≤ 1530
      → length m.bytes ≡ m.len
      → Kept w
      → KeptBehind (send_to_can link fuel m id w).0
  unfolding send_to_can
  send_to_can-KeptBehind fuel m id w v some_bytes fits sized h = elim (Bool-cases (leb m.len 8)) [
    | inl short ↦
        rw short
          (send_retry-KeptBehind fuel _ w (whole-IsPacket m v some_bytes (ground arith) sized) h)
    | inr long ↦
        (let is_long : IsLong m = record { long = ground arith; fits = fits; sized = sized } in
          subst (λ (r : Option (ℤ × W) × ℕ). KeptBehind r.0)
            (sym (send_to_can-eq-send_list link fuel m id w is_long))
            (send_list-KeptBehind fuel (parts_of m id) (pos 0) w (parts_of-IsPacket m id is_long v)
              h))
  ]
