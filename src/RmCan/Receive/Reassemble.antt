-- ===== src/RmCan/Receive/Reassemble.antt =====
-- The parts of a long message, in whatever order they come, give the message back.
use mathlib.Core.List.{Permᴰ}
use ota_backup.Base.{
  ℕ, zero, suc, ◌+◌, ◌-◌, ◌*◌, ◌<◌, ◌≤◌, ◌≡◌, ◌⊎◌, ◌∙◌, refl, sym, ap, ap₂, List, [], ◌∷◌, ◌++◌,
  true, none, some, length, length-append, length-take, length-drop, append_assoc, All, arith, take,
  drop, take-append, take-append-drop, zeros, All-map, get_or-head, get_or-tail, drop-append_zeros,
  memcpy, get_or,
}
use ota_backup.Flexcan.Packet.{FlexcanPacket, can_data_total_size}
use ota_backup.Flexcan.Frame.RoundTrip.{zero_packet}
use ota_backup.RmCan.Link.{CanPacket}
use ota_backup.RmCan.Send.Parts.{IsLong, part, parts, count_of, parts_of}
use ota_backup.RmCan.Send.{common_data}
use ota_backup.RmCan.Receive.{Receiver, RobotIds, Parts, insert, sort, join, get_packet, get_joined}
use ota_backup.RmCan.Receive.Sort.{Numbered, All-perm, sort-perm, length-perm}
use ota_backup.RmCan.Receive.Collect.{deliver, Belongs, kept, collect}

module _ (m : CanPacket) (id count : ℕ) where
  -- Numbers rise along the parts, so sorting leaves them as they are.
  sort-parts :
      (more i : ℕ) (bytes : List ℕ)
      → sort (parts m id count more i bytes) ≡ parts m id count more i bytes
  unfolding sort insert
  sort-parts zero i bytes = refl
  sort-parts (suc zero) i bytes = ground arith
  sort-parts (suc (suc more)) i bytes =
      ap (insert (part m id count i (take 6 bytes))) (sort-parts (suc more) (i + 1) (drop 6 bytes))
      ∙ ground arith

  -- Copying a part behind `pre`.
  copy_chunk :
      (pre chunk : List ℕ) (i k : ℕ)
      → memcpy (pre ++ zeros k) (length pre) (part m id count i chunk).bytes (length chunk)
        ≡ (pre ++ chunk) ++ zeros (k - length chunk)
  copy_chunk pre chunk i k =
      ap₂ (λ x y. x ++ y) (take-append (length pre) pre (zeros k) refl)
        (ap₂ (λ x y. x ++ y) (take-append (length chunk) chunk (zeros (8 - length chunk)) refl)
          (drop-append_zeros pre (length chunk) k))
      ∙ sym (append_assoc pre chunk (zeros (k - length chunk)))

  join-parts :
      (more i left k : ℕ) (bytes pre : List ℕ)
      → left + more * 6 ≡ length bytes
      → length bytes ≤ k
      → join (parts m id count more i bytes) (pre ++ zeros k) (length pre)
        ≡ ((pre ++ bytes) ++ zeros (k - length bytes), length pre + length bytes)
  unfolding join
  join-parts zero i left k bytes pre e h =
      ap (λ b. (b, length pre + length bytes)) (copy_chunk pre bytes i k)
  join-parts (suc more) i left k bytes pre e h =
      ap₂ (λ b n. join (parts m id count more (i + 1) (drop 6 bytes)) b n)
        (copy_chunk pre (take 6 bytes) i k) (sym (length-append pre (take 6 bytes)))
      ∙ join-parts more (i + 1) left (k - length (take 6 bytes)) (drop 6 bytes)
          (pre ++ take 6 bytes) (omega (arith, length-drop 6 bytes))
          (omega (arith, length-drop 6 bytes, length-take 6 bytes))
      ∙ ap₂ (λ b n. (b, n))
          (ap₂ (λ x n. x ++ zeros n)
            (append_assoc pre (take 6 bytes) (drop 6 bytes)
              ∙ ap (λ x. pre ++ x) (take-append-drop 6 bytes))
            free)
          used
    where
      free : k - length (take 6 bytes) - length (drop 6 bytes) ≡ k - length bytes
      free = omega (arith, length-take 6 bytes, length-drop 6 bytes)

      used : length (pre ++ take 6 bytes) + length (drop 6 bytes) ≡ length pre + length bytes
      used =
          omega (arith, length-append pre (take 6 bytes), length-take 6 bytes, length-drop 6 bytes)

  length-parts : (more i : ℕ) (bytes : List ℕ) → length (parts m id count more i bytes) ≡ suc more
  length-parts zero i bytes = refl
  length-parts (suc more) i bytes = ap suc (length-parts more (i + 1) (drop 6 bytes))

  -- A part stands at its number among the parts from `i` on.
  abbrev Placed : ℕ → Parts → FlexcanPacket → Type 0
  Placed i ps p = (i ≤ p.packet_sn) × (p ≡ get_or ps (p.packet_sn - i) zero_packet)

  parts-Placed :
      (more i : ℕ) (bytes : List ℕ)
      → All (Placed i (parts m id count more i bytes)) (parts m id count more i bytes)
  parts-Placed zero i bytes =
      ((omega arith, sym (get_or-head (part m id count i bytes) [] i zero_packet)), tt)
  parts-Placed (suc more) i bytes = (
    (omega arith, sym (get_or-head first rest i zero_packet)),
    All-map (Placed (i + 1) rest) (Placed i (first ∷ rest)) later rest
        (parts-Placed more (i + 1) (drop 6 bytes)),
  )
    where
      first : FlexcanPacket
      first = part m id count i (take 6 bytes)

      rest : Parts
      rest = parts m id count more (i + 1) (drop 6 bytes)

      later : (p : FlexcanPacket) → Placed (i + 1) rest p → Placed i (first ∷ rest) p
      later p h =
          (omega (arith, h.0), h.1 ∙ sym (get_or-tail first rest i p.packet_sn zero_packet h.0))

  abbrev at_number : ℕ → ℕ → List ℕ → ℕ → FlexcanPacket
  at_number more i bytes n = get_or (parts m id count more i bytes) n zero_packet

  parts-Numbered :
      (more : ℕ) (bytes : List ℕ)
      → All (Numbered (at_number more 0 bytes)) (parts m id count more 0 bytes)
  parts-Numbered more bytes =
      All-map (Placed 0 (parts m id count more 0 bytes)) (Numbered (at_number more 0 bytes))
        (λ p h. h.1 ∙ ap (at_number more 0 bytes) (from_zero p.packet_sn))
        (parts m id count more 0 bytes) (parts-Placed more 0 bytes)
    where
      from_zero : (n : ℕ) → n - 0 ≡ n
      from_zero n = omega arith

  -- Every part carries the addresses of the message.
  parts-Belongs :
      (ids : RobotIds) (more i : ℕ) (bytes : List ℕ)
      → 1 < count
      → (m.dst_id ≡ ids.rm_sysctrl_id) ⊎ (m.dst_id ≡ ids.rm_upgrade_id)
      → All (Belongs ids m.src_id id count) (parts m id count more i bytes)
  unfolding common_data
  parts-Belongs ids zero i bytes many ours =
      (record { from = refl; numbered = refl; of = omega arith; ours = ours }, tt)
  parts-Belongs ids (suc more) i bytes many ours = (
    record { from = refl; numbered = refl; of = omega arith; ours = ours },
    parts-Belongs ids more (i + 1) (drop 6 bytes) many ours,
  )

  first-addresses :
      (more : ℕ) (bytes : List ℕ)
      → let first = get_or (parts m id count more 0 bytes) 0 zero_packet in
        (first.priority ≡ m.priority) × (first.s_id ≡ m.src_id) × (first.d_id ≡ m.dst_id)
  unfolding common_data
  first-addresses zero bytes = (refl, refl, refl)
  first-addresses (suc more) bytes = (refl, refl, refl)

module _ (m : CanPacket) (id : ℕ) (v : IsLong m) where
  joined-parts : get_joined true (parts_of m id) ≡ some m
  unfolding get_joined get_packet
  joined-parts =
      rw (sort-parts m id (count_of m) (count_of m - 1) 0 m.bytes, whole)
        (ground (
          arith,
          first-addresses m id (count_of m) (count_of m - 1) m.bytes,
          take-append (length m.bytes) m.bytes (zeros (can_data_total_size - length m.bytes)),
          v.sized,
        ))
    where
      from_zero : (n : ℕ) → 0 + n ≡ n
      from_zero n = omega arith

      whole :
          join (parts_of m id) (zeros can_data_total_size) 0
          ≡ (m.bytes ++ zeros (can_data_total_size - length m.bytes), length m.bytes)
      whole =
          join-parts m id (count_of m) (count_of m - 1) 0 (m.len - (count_of m - 1) * 6)
            can_data_total_size m.bytes [] (omega (arith, v.sized, v.long))
            (omega (arith, v.sized, v.fits))
          ∙ ap (λ n. (m.bytes ++ zeros (can_data_total_size - length m.bytes), n))
              (from_zero (length m.bytes))

  joined-perm :
      (arrivals : Parts) → Permᴰ (parts_of m id) arrivals → get_joined true arrivals ≡ some m
  unfolding get_joined
  joined-perm arrivals perm = rw (← sorted) joined-parts
    where
      sorted : sort (parts_of m id) ≡ sort arrivals
      sorted =
          sort-perm (at_number m id (count_of m) (count_of m - 1) 0 m.bytes) perm
            (parts-Numbered m id (count_of m) (count_of m - 1) m.bytes)

-- The parts of a long message for this side, taken in any order one after the other by a receiver
-- that keeps no part under their source and number, add exactly that message to the end of the
-- receive list, and leave no part of it behind.
pub deliver-parts :
    (ids : RobotIds) (m : CanPacket) (id : ℕ) (arrivals : List FlexcanPacket) (r : Receiver)
    → IsLong m
    → (m.dst_id ≡ ids.rm_sysctrl_id) ⊎ (m.dst_id ≡ ids.rm_upgrade_id)
    → kept r m.src_id id ≡ none
    → Permᴰ (parts_of m id) arrivals
    → ((deliver ids arrivals r).recv_list ≡ r.recv_list ++ (m ∷ []))
      × (kept (deliver ids arrivals r) m.src_id id ≡ none)
deliver-parts ids m id [] r v ours fresh perm =
    absurd
      (omega (arith, length-perm perm, length-parts m id (count_of m) (count_of m - 1) 0 m.bytes))
deliver-parts ids m id (p ∷ rest) r v ours fresh perm = (collected.1, collected.0)
  where
    collected :
        (kept (deliver ids (p ∷ rest) r) m.src_id id ≡ none)
        × ((deliver ids (p ∷ rest) r).recv_list ≡ r.recv_list ++ (m ∷ []))
    collected =
        collect ids m.src_id id (count_of m) m (omega (arith, v.fits)) rest p r
          (All-perm (Belongs ids m.src_id id (count_of m)) perm (
            parts-Belongs m id (count_of m) ids (count_of m - 1) 0 m.bytes (omega (arith, v.long))
              ours))
          (omega (arith, v.long)) fresh
          (omega (
            arith,
            length-perm perm,
            length-parts m id (count_of m) (count_of m - 1) 0 m.bytes,
            v.long,
          ))
          (joined-perm m id v (p ∷ rest) perm)
