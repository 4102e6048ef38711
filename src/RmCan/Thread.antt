-- ===== src/RmCan/Thread.antt =====
-- rmCAN.cpp: the device is opened and closed, and the thread that receives between.
pub mod Lifetime
pub mod Feeding
mod Examples
use ota_backup.Base.{
  ℕ, List, [], ◌∷◌, Bool, true, false, ◌&&◌, if◌then◌else◌, not, Option, none, some, ℤ, pos,
  minus_one, is_minus_one, is_positive, is_zero,
}
use ota_backup.Flexcan.Packet.{FlexcanPacket}
use ota_backup.Flexcan.Open.{SocketCalls, flexcan_device_open, flexcan_device_close}
use ota_backup.RmCan.Receive.{RobotIds, Receiver, recv_from_can}

-- `pthread_create` and `pthread_join`.
pub record ThreadCalls (W : Type 0) : Type 0 where
  pub create : W → ℤ × W
  pub join_thread : W → W

-- `sockfd` of flexcan.cpp, and `sock_fd`, `g_flag` and the receiver of rmCAN.cpp.
pub record DeviceState : Type 0 where
  pub sockfd : ℤ
  pub sock_fd : ℤ
  pub running : Bool
  pub receiver : Receiver

-- When the thread that was created makes its first step: before closeCANDevice clears `g_flag`, or behind
-- that.
pub data ThreadStart : Type 0 where
  before_clear : ThreadStart
  behind_clear : ThreadStart

-- The first step of `thread_recv`: `g_flag = true`.
unfoldable pub thread_starts : DeviceState → DeviceState
thread_starts s = record s { running = true }

module _ {W : Type 0} (calls : SocketCalls W) (threads : ThreadCalls W) where
  -- `openCANDevice`, which leaves `g_flag` to the thread that it creates.
  pub open_can_device : DeviceState → W → ℤ × DeviceState × W
  open_can_device s w =
      let (fd, sockfd, w1) = flexcan_device_open calls w in
      let opened = record s { sockfd = sockfd; sock_fd = fd } in
      let (ret, w2) = threads.create w1 in
      if is_minus_one fd
      then (minus_one, opened, w1)
      else if not (is_zero ret)
      then (minus_one, opened, w2)
      else (pos 0, record opened { receiver = record opened.receiver { incomplete = [] } }, w2)

  -- `g_flag = false`, behind which a thread that is late sets it again.
  pub cleared : ThreadStart → DeviceState → DeviceState
  cleared before_clear s = record s { running = false }
  cleared behind_clear s = thread_starts (record s { running = false })

  -- `closeCANDevice`; `none`: `pthread_join` does not return, as `g_flag` is set and nothing clears it.
  pub close_can_device : ThreadStart → DeviceState → W → Option (DeviceState × W)
  close_can_device start s w =
      let (_, sockfd, w') = flexcan_device_close calls s.sockfd w in
      let s' = cleared start (record s { sockfd = sockfd; sock_fd = minus_one }) in
      if s'.running then none else some (s', threads.join_thread w')

-- A turn of the loop of `thread_recv`: `g_flag` at its test, the result of `select`, `FD_ISSET`, and
-- whether `malloc` gives memory for a message.
pub record Turn : Type 0 where
  pub running : Bool
  pub selected : ℤ
  pub is_set : Bool
  pub memory : Bool

pub is_ready : Turn → Bool
is_ready t = is_positive t.selected && t.is_set

-- `thread_recv` over its turns, `read` being `flexcan_recv` on a cleared packet. The result of
-- `recvFromCan` is not looked at.
pub thread_recv :
    {W : Type 0} → RobotIds → (W → ℤ × FlexcanPacket × W) → List Turn → Receiver → W → Receiver × W
thread_recv ids read [] r w = (r, w)
thread_recv ids read (t ∷ ts) r w =
    let (ret, r', w') = recv_from_can ids read t.memory r w in
    let received = thread_recv ids read ts r' w' in
    let idle = thread_recv ids read ts r w in
    if not t.running then (r, w) else if is_ready t then received else idle
