-- ===== src/RmCan/Receive/Collect.antt =====
-- How the parts of one message pile up, and what else a packet leaves alone.
use ota_backup.Base.{
  ℕ, suc, ◌+◌, ◌<◌, ◌≤◌, ◌≡◌, ◌≢◌, ◌⊎◌, inl, inr, ◌∙◌, refl, ap, List, [], ◌∷◌, ◌++◌, true, Option,
  none, some, length, length-append, append_assoc, All, arith, Option-cases,
}
use ota_backup.Flexcan.Packet.{FlexcanPacket, u8}
use ota_backup.RmCan.Link.{CanPacket}
use ota_backup.RmCan.Receive.{
  Receiver, RobotIds, Parts, find, erase, add_part, get_joined, push, take_packet, time_out_id,
}
use ota_backup.RmCan.Receive.Maps.{find-update_self, find-erase_self}

-- Packets taken in turn, with memory at hand.
unfoldable pub deliver : RobotIds → List FlexcanPacket → Receiver → Receiver
deliver ids [] r = r
deliver ids (p ∷ ps) r = deliver ids ps (take_packet ids true p r).1

-- A part with number `id` from source `s`, of a message of `count` parts for this side.
pub record Belongs (ids : RobotIds) (s id count : ℕ) (p : FlexcanPacket) : Type 0 where
  pub from : p.s_id ≡ s
  pub numbered : p.packet_id ≡ id
  pub of : p.sum + 1 ≡ count
  pub ours : (p.d_id ≡ ids.rm_sysctrl_id) ⊎ (p.d_id ≡ ids.rm_upgrade_id)

-- The parts that are kept under a source and a number.
abbrev pub kept : Receiver → ℕ → ℕ → Option Parts
kept r s id = elim (find s r.incomplete) [ none ↦ none | some known ↦ find id known ]

module _ (p : FlexcanPacket) (known : List (ℕ × Parts)) where
  add_first :
      find p.packet_id known ≡ none
      → (find p.packet_id (add_part true p known).0 ≡ some (p ∷ []))
        × ((add_part true p known).1 ≡ none)
  unfolding add_part
  add_first e =
      rw (e, add_part)
        (find-update_self p.packet_id (p ∷ []) (erase (u8 (p.packet_id + time_out_id)) known), refl)

  add_more :
      (ps : Parts)
      → find p.packet_id known ≡ some ps
      → length ps + 1 < p.sum + 1
      → p.sum < 255
      → (find p.packet_id (add_part true p known).0 ≡ some (ps ++ (p ∷ [])))
        × ((add_part true p known).1 ≡ none)
  unfolding add_part
  add_more ps e h k =
      rw (e, add_part)
        (ground
          (arith, length-append ps (p ∷ []), find-update_self p.packet_id (ps ++ (p ∷ [])) known))

  add_last :
      (ps : Parts)
      → find p.packet_id known ≡ some ps
      → length ps + 1 ≡ p.sum + 1
      → p.sum < 255
      → (find p.packet_id (add_part true p known).0 ≡ none)
        × ((add_part true p known).1 ≡ get_joined true (ps ++ (p ∷ [])))
  unfolding add_part
  add_last ps e h k =
      rw (e, add_part)
        (ground (arith, length-append ps (p ∷ []), find-erase_self p.packet_id known))

module _ (ids : RobotIds) (p : FlexcanPacket) (r : Receiver) where
  -- A part for this side from a source that is known.
  take_known :
      (known : List (ℕ × Parts))
      → (p.d_id ≡ ids.rm_sysctrl_id) ⊎ (p.d_id ≡ ids.rm_upgrade_id)
      → p.sum ≢ 0
      → find p.s_id r.incomplete ≡ some known
      → let (kept_parts, message) = add_part true p known in
        (find p.s_id (take_packet ids true p r).1.incomplete ≡ some kept_parts)
        × ((take_packet ids true p r).1.recv_list ≡ push message r.recv_list)
  unfolding take_packet
  take_known known d h e =
      ground (arith, find-update_self p.s_id (add_part true p known).0 r.incomplete)

  take_unknown :
      (p.d_id ≡ ids.rm_sysctrl_id) ⊎ (p.d_id ≡ ids.rm_upgrade_id)
      → p.sum ≢ 0
      → find p.s_id r.incomplete ≡ none
      → (find p.s_id (take_packet ids true p r).1.incomplete ≡ some ((p.packet_id, p ∷ []) ∷ []))
        × ((take_packet ids true p r).1.recv_list ≡ r.recv_list)
  unfolding take_packet
  take_unknown d h e =
      ground (arith, find-update_self p.s_id ((p.packet_id, p ∷ []) ∷ []) r.incomplete)

-- A map of one part.
find_only : (p : FlexcanPacket) → find p.packet_id ((p.packet_id, p ∷ []) ∷ []) ≡ some (p ∷ [])
unfolding find
find_only p = ground arith

module _ (ids : RobotIds) (p : FlexcanPacket) (r : Receiver)
    (ours : (p.d_id ≡ ids.rm_sysctrl_id) ⊎ (p.d_id ≡ ids.rm_upgrade_id)) (cut : p.sum ≢ 0) where
  abbrev after : Receiver
  after = (take_packet ids true p r).1

  take_first :
      kept r p.s_id p.packet_id ≡ none
      → (kept after p.s_id p.packet_id ≡ some (p ∷ [])) × (after.recv_list ≡ r.recv_list)
  unfolding push
  take_first e = elim (Option-cases (find p.s_id r.incomplete)) [
    | inl u ↦ ground (arith, take_unknown ids p r ours cut u, find_only p)
    | inr (known, u) ↦ ground (arith, take_known ids p r known ours cut u, add_first p known)
  ]

  take_more :
      (ps : Parts)
      → kept r p.s_id p.packet_id ≡ some ps
      → length ps < p.sum
      → p.sum < 255
      → (kept after p.s_id p.packet_id ≡ some (ps ++ (p ∷ []))) × (after.recv_list ≡ r.recv_list)
  unfolding push
  take_more ps e h k = elim (Option-cases (find p.s_id r.incomplete)) [
    | inl u ↦ ground (arith)
    | inr (known, u) ↦ ground (arith, take_known ids p r known ours cut u, add_more p known ps)
  ]

  take_last :
      (ps : Parts) (m : CanPacket)
      → kept r p.s_id p.packet_id ≡ some ps
      → length ps ≡ p.sum
      → p.sum < 255
      → get_joined true (ps ++ (p ∷ [])) ≡ some m
      → (kept after p.s_id p.packet_id ≡ none) × (after.recv_list ≡ r.recv_list ++ (m ∷ []))
  unfolding push
  take_last ps m e h k j = elim (Option-cases (find p.s_id r.incomplete)) [
    | inl u ↦ ground (arith)
    | inr (known, u) ↦ ground (arith, take_known ids p r known ours cut u, add_last p known ps)
  ]

module _ (ids : RobotIds) (s id count : ℕ) (m : CanPacket) (few : count ≤ 255) where
  next_more :
      (done : Parts) (p : FlexcanPacket) (r : Receiver)
      → Belongs ids s id count p
      → kept r s id ≡ some done
      → 0 < length done
      → length done + 1 < count
      → (kept (take_packet ids true p r).1 s id ≡ some (done ++ (p ∷ [])))
        × ((take_packet ids true p r).1.recv_list ≡ r.recv_list)
  next_more done p r b e z n =
      rw (← b.from, ← b.numbered)
        (take_more ids p r b.ours (omega (arith, b.of)) done (rw (b.from, b.numbered) e)
          (omega (arith, b.of)) (omega (arith, b.of)))

  next_last :
      (done : Parts) (p : FlexcanPacket) (r : Receiver)
      → Belongs ids s id count p
      → kept r s id ≡ some done
      → 0 < length done
      → length done + 1 ≡ count
      → get_joined true (done ++ (p ∷ [])) ≡ some m
      → (kept (take_packet ids true p r).1 s id ≡ none)
        × ((take_packet ids true p r).1.recv_list ≡ r.recv_list ++ (m ∷ []))
  next_last done p r b e z n j =
      rw (← b.from, ← b.numbered)
        (take_last ids p r b.ours (omega (arith, b.of)) done m (rw (b.from, b.numbered) e)
          (omega (arith, b.of)) (omega (arith, b.of)) j)

  -- The parts still to come, behind the parts that are kept.
  collect_rest :
      (todo done : List FlexcanPacket) (p : FlexcanPacket) (r : Receiver)
      → All (Belongs ids s id count) (p ∷ todo)
      → kept r s id ≡ some done
      → 0 < length done
      → length done + suc (length todo) ≡ count
      → get_joined true (done ++ (p ∷ todo)) ≡ some m
      → (kept (deliver ids (p ∷ todo) r) s id ≡ none)
        × ((deliver ids (p ∷ todo) r).recv_list ≡ r.recv_list ++ (m ∷ []))
  unfolding deliver
  collect_rest [] done p r (b, _) e z n j = next_last done p r b e z (omega arith) j
  collect_rest (q ∷ todo) done p r (b, bs) e z n j =
      let (e', l) = next_more done p r b e z (omega arith) in
      let (gone, got) =
        collect_rest todo (done ++ (p ∷ [])) q (take_packet ids true p r).1 bs e'
          (omega (arith, length-append done (p ∷ []))) (omega (arith, length-append done (p ∷ [])))
          (rw (append_assoc done (p ∷ []) (q ∷ todo)) j) in
      (gone, got ∙ ap (λ x. x ++ (m ∷ [])) l)

  -- All parts of a message, one after the other.
  pub collect :
      (todo : List FlexcanPacket) (p : FlexcanPacket) (r : Receiver)
      → All (Belongs ids s id count) (p ∷ todo)
      → 1 < count
      → kept r s id ≡ none
      → suc (length todo) ≡ count
      → get_joined true (p ∷ todo) ≡ some m
      → (kept (deliver ids (p ∷ todo) r) s id ≡ none)
        × ((deliver ids (p ∷ todo) r).recv_list ≡ r.recv_list ++ (m ∷ []))
  unfolding deliver
  collect [] p r bs many e n j = absurd (omega arith)
  collect (q ∷ todo) p r (b, bs) many e n j =
      let (e', l) = first in
      let (gone, got) =
        collect_rest todo (p ∷ []) q (take_packet ids true p r).1 bs e' (omega arith) (omega arith)
          j in
      (gone, got ∙ ap (λ x. x ++ (m ∷ [])) l)
    where
      first :
          (kept (take_packet ids true p r).1 s id ≡ some (p ∷ []))
          × ((take_packet ids true p r).1.recv_list ≡ r.recv_list)
      first =
          rw (← b.from, ← b.numbered)
            (take_first ids p r b.ours (omega (arith, b.of)) (rw (b.from, b.numbered) e))
