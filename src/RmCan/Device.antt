-- ===== src/RmCan/Device.antt =====
-- rmCAN.cpp, the two calls that the update protocol makes: sendCANData and readCANData.
pub mod Sending
pub mod Reading
mod Examples
use ota_backup.Base.{
  ℕ, zero, suc, ◌+◌, ◌-◌, ◌≤◌, List, [], ◌∷◌, ◌++◌, Bool, true, false, ◌&&◌, ◌==◌, leb, not,
  if◌then◌else◌, Option, none, some, ℤ, pos, negsuc, minus_one, is_zero, is_positive, is_negative,
  length, take, drop, memcpy, get_or, min,
}
use ota_backup.RmCan.Link.{CanPacket, Link}
use ota_backup.RmCan.Send.{send_to_can}

-- `select` on the socket for writing, with a timeout of 10 ms: its result and `FD_ISSET`.
pub record Selector (W : Type 0) : Type 0 where
  pub select_write : W → ℤ × Bool × W

module _ {W : Type 0} (link : Link W) (selector : Selector W) where
  -- The loop of `sendCANData` over the tries left; `ret` is the result so far.
  pub send_tries : ℕ → ℕ → CanPacket → ℕ → ℤ → W → Option (ℤ × W) × ℕ
  send_tries fuel zero m packets_id ret w = (some (ret, w), packets_id)
  send_tries fuel (suc count) m packets_id ret w =
      let (selected, is_set, w') = selector.select_write w in
      let again = send_tries fuel count m packets_id selected w' in
      if is_zero selected
      then again
      else if is_positive selected && is_set
      then send_to_can link fuel m packets_id w'
      else (some (minus_one, w'), packets_id)

  -- `sendCANData`; `is_open` is `sock_fd != -1`.
  pub send_can_data : ℕ → Bool → ℕ → ℕ → List ℕ → ℕ → ℕ → W → Option (ℤ × W) × ℕ
  send_can_data fuel is_open s_id d_id p_data len packets_id w =
      if is_open
      then send_tries fuel 10
          (record { priority = 3; src_id = s_id; dst_id = d_id; bytes = p_data; len = len })
          packets_id minus_one w
      else (some (minus_one, w), packets_id)

-- One pass of the loop of `readCANData` as the reader meets it: what the receiving thread has put into
-- `RecvList` since the pass before, and the seconds since the start when the pass looks at the clock.
pub record Pass : Type 0 where
  pub arrivals : List CanPacket
  pub elapsed : ℕ

-- `popFromRecvList`.
pub pop : List CanPacket → Option CanPacket × List CanPacket
pop [] = (none, [])
pop (m ∷ l) = (some m, l)

pub wanted : ℕ → ℕ → CanPacket → Bool
wanted s_id msg_type m = m.src_id == s_id && get_or m.bytes 0 0 == msg_type

-- `timeout > 0 && !(timeout >= (int)difftime(end, start))`.
pub is_late : ℕ → ℕ → Bool
is_late timeout elapsed = not (timeout == 0) && not (leb elapsed timeout)

-- The answer of a read: the result, the caller's buffer and the receive list.
pub record Answer : Type 0 where
  pub result : ℤ
  pub buffer : List ℕ
  pub left : List CanPacket

-- A pass of the loop of `readCANData` on what waits, `again` being the passes that follow. A packet that
-- is not wanted is dropped. `p_data` is the caller's buffer, of `len` bytes.
pub read_pass :
    ℕ → ℕ → List ℕ → ℕ → ℕ → ℕ → (List CanPacket → Option Answer) → List CanPacket → Option Answer
read_pass s_id msg_type p_data len timeout elapsed again l =
    let (popped, l') = pop l in
    let go_on = again l' in
    let wait =
      if is_late timeout elapsed
      then some (record { result = minus_one; buffer = p_data; left = l' })
      else go_on in
    elim popped [
      | none ↦ wait
      | some m ↦
          if wanted s_id msg_type m
          then some (record {
            result = pos m.len;
            buffer = memcpy p_data 0 m.bytes (min len m.len);
            left = l';
          })
          else wait
    ]

-- The loop of `readCANData` over the passes; `none`: it still waits when the passes end.
pub read_loop : ℕ → ℕ → List ℕ → ℕ → ℕ → List Pass → List CanPacket → Option Answer
read_loop s_id msg_type p_data len timeout [] l = none
read_loop s_id msg_type p_data len timeout (pass ∷ passes) l =
    read_pass s_id msg_type p_data len timeout pass.elapsed
      (λ l'. read_loop s_id msg_type p_data len timeout passes l') (l ++ pass.arrivals)

-- `readCANData` with `timeout` as the `int` that it is.
pub read_can_data : Bool → ℕ → ℕ → List ℕ → ℕ → ℤ → List Pass → List CanPacket → Option Answer
read_can_data is_open s_id msg_type p_data len (pos timeout) passes l =
    if is_open
    then read_loop s_id msg_type p_data len timeout passes l
    else some (record { result = minus_one; buffer = p_data; left = l })
read_can_data is_open s_id msg_type p_data len (negsuc n) passes l =
    some (record { result = minus_one; buffer = p_data; left = l })
