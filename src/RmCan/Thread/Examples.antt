-- ===== src/RmCan/Thread/Examples.antt =====
-- A device that opens, and a thread that reads two packets.
use ota_backup.Base.{
  ℕ, ◌+◌, ◌≡◌, refl, List, [], ◌∷◌, true, false, ℤ, pos, minus_one, All, if◌then◌else◌, ◌==◌,
}
use ota_backup.Flexcan.Packet.{FlexcanPacket}
use ota_backup.Flexcan.Frame.RoundTrip.{zero_packet}
use ota_backup.Flexcan.Open.{SocketCalls}
use ota_backup.RmCan.Receive.{RobotIds, Receiver}
use ota_backup.RmCan.Receive.Collect.{deliver}
use ota_backup.RmCan.Thread.{ThreadCalls, DeviceState, Turn, thread_recv}
use ota_backup.RmCan.Thread.Feeding.{
  ended, timed_out, not_set, read_failed, packet, Runs, thread_recv-eq-deliver,
}

-- The world is a log of numbers: 5 is the socket.
abbrev five : SocketCalls (List ℕ)
five = record {
  socket = λ log. (pos 5, 1 ∷ log);
  ioctl = λ fd log. (pos 0, 7, 2 ∷ log);
  bind = λ fd number log. (pos 0, 3 ∷ log);
  close = λ fd log. 4 ∷ log;
}

abbrev one_thread : ThreadCalls (List ℕ)
one_thread = record { create = λ log. (pos 0, 8 ∷ log); join_thread = λ log. 9 ∷ log }

abbrev no_message : Receiver
no_message = record { incomplete = []; recv_list = [] }

abbrev closed_state : DeviceState
closed_state = record {
  sockfd = minus_one;
  sock_fd = minus_one;
  running = false;
  receiver = no_message;
}

abbrev open_state : DeviceState
open_state = record { sockfd = pos 5; sock_fd = pos 5; running = false; receiver = no_message }

abbrev robot_numbers : RobotIds
robot_numbers = record { rm_sysctrl_id = 16; rm_upgrade_id = 17 }

-- A packet whose length is the number that the world has reached.
abbrev numbered_packet : ℕ → FlexcanPacket
numbered_packet n = record zero_packet { d_id = 17; s_id = 33; len = n }

-- The second read fails.
abbrev counting_read : ℕ → ℤ × FlexcanPacket × ℕ
counting_read n = (if n == 2 then minus_one else pos 0, numbered_packet n, n + 1)

abbrev ready_turn : Turn
ready_turn = record { running = true; selected = pos 1; is_set = true; memory = true }

abbrev idle_turn : Turn
idle_turn = record { running = true; selected = pos 0; is_set = false; memory = true }

abbrev other_turn : Turn
other_turn = record { running = true; selected = pos 1; is_set = false; memory = true }

abbrev five_turns : List Turn
five_turns = ready_turn ∷ idle_turn ∷ ready_turn ∷ other_turn ∷ ready_turn ∷ []

five_turns-Runs : All Runs five_turns
five_turns-Runs = ((refl, refl), ((refl, refl), ((refl, refl), ((refl, refl), ((refl, refl), tt)))))

thread_recv-eq-deliver_example :
    (thread_recv robot_numbers counting_read five_turns no_message 1).0
    ≡ deliver robot_numbers (numbered_packet 1 ∷ numbered_packet 3 ∷ []) no_message
thread_recv-eq-deliver_example =
    thread_recv-eq-deliver robot_numbers counting_read five_turns
      (numbered_packet 1 ∷ numbered_packet 3 ∷ []) no_message 1 five_turns-Runs
      (packet refl refl refl
        (timed_out refl (read_failed refl refl refl (not_set refl (packet refl refl refl ended)))))
