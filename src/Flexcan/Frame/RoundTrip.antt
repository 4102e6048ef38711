-- ===== src/Flexcan/Frame/RoundTrip.antt =====
-- A packet that is sent and read back over a socket that delivers it.
use ota_backup.Base.{
  ℕ, ◌+◌, ◌-◌, ◌%◌, ◌^◌, ◌<◌, ◌≤◌, ◌≡◌, ◌≢◌, ◌∙◌, sym, ap, List, ◌∷◌, ◌++◌, bit_and, bit_or, arith,
  bit_and_low, and_window, false, pos, is_minus_one, ◌==◌, if◌then◌else◌, Bool-cases, inl, inr,
  memcpy, zeros, take, drop, length, ==→eq, take-append, length-take, memcpy_cleared, or_between,
}
use ota_backup.Flexcan.Socket.{CanFrame, CanHeader, CanSocket, IsLinux}
use ota_backup.Flexcan.Packet.{FlexcanPacket, base_id, data_to_sum, can_sub_packet_offset}
use ota_backup.Flexcan.Packet.Ident.{
  ident, base_id_value, with_sum, ident_lt, id_to_priority_value, id_to_sum_value,
  id_to_s_module_value, id_to_d_module_value,
}
use ota_backup.Flexcan.Frame.{
  zero_frame, is_size, raw_send, raw_recv, flexcan_send, parse_frame, flexcan_recv,
}

-- What the layer above hands over: every field fits its bits, the bytes past `len` are 0, a packet of
-- its own has no number, and a part of a longer one leaves room for two numbers.
pub record IsPacket (p : FlexcanPacket) : Type 0 where
  pub priority_lt : p.priority < 8
  pub s_id_lt : p.s_id < 256
  pub d_id_lt : p.d_id < 256
  pub sum_lt : p.sum < 256
  pub len_pos : 0 < p.len
  pub len_le : p.len ≤ 8
  pub size : length p.bytes ≡ 8
  pub padded : p.bytes ≡ take p.len p.bytes ++ zeros (8 - p.len)
  pub whole_id : p.sum ≡ 0 → p.packet_id ≡ 0
  pub whole_sn : p.sum ≡ 0 → p.packet_sn ≡ 0
  pub part_len : p.sum ≢ 0 → p.len ≤ 6

-- `memset(&can_data, 0, sizeof(struct flexcan_packet))`.
abbrev pub zero_packet : FlexcanPacket
zero_packet = record {
  packet_id = 0;
  priority = 0;
  s_id = 0;
  d_id = 0;
  bytes = zeros 8;
  len = 0;
  packet_sn = 0;
  sum = 0;
}

abbrev whole_frame : FlexcanPacket → CanFrame
whole_frame p = record {
  can_id = base_id p;
  can_dlc = p.len;
  payload = memcpy (zeros 8) 0 p.bytes p.len;
}

abbrev part_frame : FlexcanPacket → CanFrame
part_frame p = record {
  can_id = bit_or (base_id p) (data_to_sum p.sum);
  can_dlc = p.len + can_sub_packet_offset;
  payload = memcpy (p.packet_id ∷ p.packet_sn ∷ zeros 6) can_sub_packet_offset p.bytes p.len;
}

built_frame : FlexcanPacket → CanFrame
built_frame p = if p.sum == 0 then whole_frame p else part_frame p

-- The socket takes every frame from `w` on, and the next read gives that frame whole.
pub record Delivers {W : Type 0} (sock : CanSocket W) (w : W) : Type 0 where
  pub takes : (f : CanFrame) → is_minus_one (sock.write f w).0 ≡ false
  pub after : CanFrame → W
  pub gives :
      (f : CanFrame) → sock.read zero_frame (sock.write f w).1 ≡ (pos sock.frame_size, f, after f)

module _ (h : CanHeader) (linux : IsLinux h) where
  wire_id : (id : ℕ) → id < 2 ^ 29 → bit_or (bit_and id h.eff_mask) h.eff_flag ≡ id + 2 ^ 31
  wire_id id lt =
      rw (linux.eff_mask_value, linux.eff_flag_value, bit_and_low 29 id)
        (or_comm31 (id % 2 ^ 29) (omega arith) ∙ omega arith)
    where
      or_comm31 : (x : ℕ) → x < 2 ^ 31 → bit_or x (2 ^ 31) ≡ x + 2 ^ 31
      or_comm31 x lt = ground (arith, or_between 31 32 0 x 1)

  ext_id : (id : ℕ) → id < 2 ^ 29 → bit_and (id + 2 ^ 31) h.eff_mask ≡ id
  ext_id id lt = rw linux.eff_mask_value (bit_and_low 29 (id + 2 ^ 31) ∙ omega arith)

  no_error : (id : ℕ) → id < 2 ^ 29 → bit_and (id + 2 ^ 31) h.err_flag ≡ 0
  no_error id lt = rw linux.err_flag_value (and_window 29 1 (id + 2 ^ 31) ∙ omega arith)

  is_extended : (id : ℕ) → id < 2 ^ 29 → bit_and (id + 2 ^ 31) h.eff_flag ≡ 2 ^ 31
  is_extended id lt = rw linux.eff_flag_value (and_window 31 1 (id + 2 ^ 31) ∙ omega arith)

module _ (p : FlexcanPacket) (v : IsPacket p) where
  whole_payload : memcpy (zeros 8) 0 p.bytes p.len ≡ p.bytes
  whole_payload = memcpy_cleared 8 p.bytes p.len ∙ sym v.padded

  whole_again : memcpy (zeros 8) 0 (memcpy (zeros 8) 0 p.bytes p.len) p.len ≡ p.bytes
  whole_again = rw whole_payload whole_payload

  abbrev part_payload : List ℕ
  part_payload = memcpy (p.packet_id ∷ p.packet_sn ∷ zeros 6) 2 p.bytes p.len

  part_bytes : memcpy (zeros 8) 0 (drop 2 part_payload) (p.len + 2 - 2) ≡ p.bytes
  part_bytes =
      memcpy_cleared 8 (drop 2 part_payload) (p.len + 2 - 2)
      ∙ rw same (
          ap (λ l. l ++ zeros (8 - p.len))
            (take-append p.len (take p.len p.bytes)
              (drop (2 + p.len) (p.packet_id ∷ p.packet_sn ∷ zeros 6))
              (omega (arith, length-take p.len p.bytes, v.size, v.len_le))))
      ∙ sym v.padded
    where
      same : p.len + 2 - 2 ≡ p.len
      same = omega arith

  abbrev number : ℕ
  number = ident p.priority p.s_id p.d_id p.sum

  built_id : (built_frame p).can_id ≡ number
  unfolding built_frame
  built_id = elim (Bool-cases (p.sum == 0)) [
    | inl e ↦ rw e (base_id_value p v.priority_lt v.s_id_lt v.d_id_lt ∙ unsummed (==→eq _ _ e))
    | inr e ↦ rw e (
        ap (λ x. bit_or x (data_to_sum p.sum)) (base_id_value p v.priority_lt v.s_id_lt v.d_id_lt)
        ∙ with_sum p.priority p.s_id p.d_id p.sum v.s_id_lt v.d_id_lt v.sum_lt)
  ]
    where
      unsummed : p.sum ≡ 0 → ident p.priority p.s_id p.d_id 0 ≡ number
      unsummed z = omega arith

  number_lt : number < 2 ^ 29
  number_lt = ident_lt p.priority p.s_id p.d_id p.sum v.priority_lt v.s_id_lt v.d_id_lt v.sum_lt

  module _ (h : CanHeader) (linux : IsLinux h) where
    abbrev wire_frame : CanFrame
    wire_frame = record (built_frame p) { can_id = number + 2 ^ 31 }

    parsed : parse_frame h wire_frame zero_packet ≡ (pos 0, p)
    unfolding parse_frame built_frame
    parsed =
        rw
          (
            ext_id h linux number number_lt,
            id_to_priority_value p.priority p.s_id p.d_id p.sum v.priority_lt v.s_id_lt v.d_id_lt
                v.sum_lt,
            id_to_s_module_value p.priority p.s_id p.d_id p.sum v.priority_lt v.s_id_lt v.d_id_lt
                v.sum_lt,
            id_to_d_module_value p.priority p.s_id p.d_id p.sum v.priority_lt v.s_id_lt v.d_id_lt
                v.sum_lt,
            id_to_sum_value p.priority p.s_id p.d_id p.sum v.priority_lt v.s_id_lt v.d_id_lt
                v.sum_lt,
          )
          (elim (Bool-cases (p.sum == 0)) [
            | inl e ↦ rw e (
                ground (
                  arith,
                  v.whole_id (==→eq _ _ e),
                  v.whole_sn (==→eq _ _ e),
                  whole_payload,
                  whole_again,
                ))
            | inr e ↦ rw e (ground (arith, part_bytes, v.part_len))
          ])

module _ {W : Type 0} (h : CanHeader) (linux : IsLinux h) (sock : CanSocket W) where
  sent :
      (p : FlexcanPacket) (w : W)
      → IsPacket p
      → flexcan_send h sock p w ≡ raw_send h sock (built_frame p) w
  unfolding flexcan_send built_frame
  sent p w v = ground (arith, v.part_len)

  raw_sent :
      (p : FlexcanPacket) (v : IsPacket p) (w : W)
      → Delivers sock w
      → raw_send h sock (built_frame p) w ≡ (pos 0, (sock.write (wire_frame p v h linux) w).1)
  unfolding raw_send
  raw_sent p v w d =
      rw (built_id p v, wire_id h linux (number p v) (number_lt p v))
        (ground (arith, d.takes (wire_frame p v h linux)))

  raw_received :
      (p : FlexcanPacket) (v : IsPacket p) (w : W) (d : Delivers sock w)
      → let f = wire_frame p v h linux in
        raw_recv h sock zero_frame (sock.write f w).1 ≡ (pos 0, f, d.after f)
  unfolding raw_recv is_size
  raw_received p v w d = rw d.gives (ground (arith, no_error h linux (number p v) (number_lt p v)))

  -- A packet of the layer above is sent with result 0, and over a socket that delivers, the next
  -- `flexcan_recv` into a cleared packet returns 0 and the packet that was sent.
  pub flexcan_recv-flexcan_send :
      (p : FlexcanPacket) (w : W)
      → IsPacket p
      → Delivers sock w
      → let (ret, w') = flexcan_send h sock p w in
        let (ret', p', w'') = flexcan_recv h sock zero_packet w' in
        (ret ≡ pos 0) × (ret' ≡ pos 0) × (p' ≡ p)
  unfolding flexcan_recv
  flexcan_recv-flexcan_send p w v d =
      rw (sent p w v, raw_sent p v w d, raw_received p v w d)
        (ground (arith, is_extended h linux (number p v) (number_lt p v), parsed p v h linux))
