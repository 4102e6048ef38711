-- ===== src/RmCan/Receive.antt =====
-- rmCAN.cpp, the receiving side: parts are kept until a message is complete, and complete messages
-- wait in a list.
pub mod Maps
pub mod Sort
pub mod Collect
pub mod Reassemble
use ota_backup.Base.{
  ℕ, suc, ◌+◌, ◌≤◌, List, [], ◌∷◌, ◌++◌, Bool, true, false, ◌&&◌, ◌==◌, ltb, leb, not,
  if◌then◌else◌, Option, none, some, ℤ, pos, minus_one, is_zero, length, take, zeros, memcpy,
  get_or,
}
use ota_backup.Flexcan.Packet.{FlexcanPacket, can_data_total_size, u8}
use ota_backup.Flexcan.Frame.RoundTrip.{zero_packet}
use ota_backup.RmCan.Link.{CanPacket}

-- The identifiers of robot_common_data.h, which is not in the repository.
pub record RobotIds : Type 0 where
  pub rm_sysctrl_id : ℕ
  pub rm_upgrade_id : ℕ

-- `std::map<uint8_t, …>` as a list of pairs: `find`, `insert` of a new key and `erase`.
module _ {ℓ} {V : Type ℓ} where
  unfoldable pub find : ℕ → List (ℕ × V) → Option V
  find k [] = none
  find k ((j, v) ∷ m) = if j == k then some v else find k m

  pub update : ℕ → V → List (ℕ × V) → List (ℕ × V)
  update k v [] = (k, v) ∷ []
  update k v ((j, u) ∷ m) = if j == k then (k, v) ∷ m else (j, u) ∷ update k v m

  pub erase : ℕ → List (ℕ × V) → List (ℕ × V)
  erase k [] = []
  erase k ((j, v) ∷ m) = let rest = erase k m in if j == k then rest else (j, v) ∷ rest

abbrev pub Parts : Type 0
Parts = List FlexcanPacket

-- `InCompletePackets`, by source and then by packet number, and `RecvList`.
pub record Receiver : Type 0 where
  pub incomplete : List (ℕ × List (ℕ × Parts))
  pub recv_list : List CanPacket

abbrev pub time_out_id : ℕ
time_out_id = 127

-- `std::sort` by `PacketCompare`. It may place parts with one number in any order.
pub insert : FlexcanPacket → Parts → Parts
insert p [] = p ∷ []
insert p (q ∷ qs) = if ltb p.packet_sn q.packet_sn then p ∷ q ∷ qs else q ∷ insert p qs

pub sort : Parts → Parts
sort [] = []
sort (p ∷ ps) = insert p (sort ps)

-- The loop that copies the parts one behind the other into `data`, with `len`.
pub join : Parts → List ℕ → ℕ → List ℕ × ℕ
join [] buf len = (buf, len)
join (p ∷ ps) buf len = join ps (memcpy buf len p.bytes p.len) (len + p.len)

-- `_getCanPacket`; `memory` tells whether `malloc` gives the bytes.
pub get_packet : Bool → ℕ → ℕ → ℕ → List ℕ → ℕ → Option CanPacket
get_packet memory priority src_id dst_id buf len =
    if memory
    then some (record {
      priority = priority;
      src_id = src_id;
      dst_id = dst_id;
      bytes = take len buf;
      len = len;
    })
    else none

-- `getCanPacket(const struct flexcan_packet *)`.
pub get_whole : Bool → FlexcanPacket → Option CanPacket
get_whole memory p = get_packet memory p.priority p.s_id p.d_id p.bytes p.len

-- `getCanPacket(UDT_VEC_FLEXCAN)`. The vector is never empty: `packets.at(0)` would throw.
pub get_joined : Bool → Parts → Option CanPacket
get_joined memory ps =
    let sorted = sort ps in
    let (buf, len) = join sorted (zeros can_data_total_size) 0 in
    let first = get_or sorted 0 zero_packet in
    get_packet memory first.priority first.s_id first.d_id buf len

-- `pushToRecvList` at the label `complete`.
pub push : Option CanPacket → List CanPacket → List CanPacket
push none l = l
push (some m) l = l ++ (m ∷ [])

-- The parts of one source when `p` comes: what is kept, and the message that is complete.
pub add_part : Bool → FlexcanPacket → List (ℕ × Parts) → List (ℕ × Parts) × Option CanPacket
add_part memory p ids = elim (find p.packet_id ids) [
  | some ps ↦
      let ps' = ps ++ (p ∷ []) in
      if leb (p.sum + 1) (u8 (length ps'))
      then (erase p.packet_id ids, get_joined memory ps')
      else (update p.packet_id ps' ids, none)
  | none ↦ (update p.packet_id (p ∷ []) (erase (u8 (p.packet_id + time_out_id)) ids), none)
]

-- `recvFromCan` behind the read of `can_data`.
pub take_packet : RobotIds → Bool → FlexcanPacket → Receiver → ℤ × Receiver
take_packet ids memory p r =
    if not (p.d_id == ids.rm_sysctrl_id) && not (p.d_id == ids.rm_upgrade_id)
    then (minus_one, r)
    else if not (p.sum == 0)
    then elim (find p.s_id r.incomplete) [
      | some known ↦
          let (kept, message) = add_part memory p known in
          (
            pos 0,
            record {
              incomplete = update p.s_id kept r.incomplete;
              recv_list = push message r.recv_list;
            },
          )
      | none ↦
          (pos 0, record r { incomplete = update p.s_id ((p.packet_id, p ∷ []) ∷ []) r.incomplete })
    ]
    else (pos 0, record r { recv_list = push (get_whole memory p) r.recv_list })

-- `recvFromCan`: `read` is `flexcan_recv` on a cleared packet.
unfoldable pub recv_from_can :
    {W : Type 0} → RobotIds → (W → ℤ × FlexcanPacket × W) → Bool → Receiver → W → ℤ × Receiver × W
recv_from_can ids read memory r w =
    let (ret, p, w') = read w in
    if not (is_zero ret)
    then (minus_one, r, w')
    else (let (ret', r') = take_packet ids memory p r in (ret', r', w'))
