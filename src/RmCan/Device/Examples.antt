-- ===== src/RmCan/Device/Examples.antt =====
-- Reads of a list that fills while they wait, and a socket that is never ready.
use ota_backup.Base.{ℕ, ◌+◌, ◌≡◌, ◌++◌, refl, List, [], ◌∷◌, true, false, some, pos, arith}
use ota_backup.RmCan.Link.{CanPacket, Link}
use ota_backup.RmCan.Device.{
  Selector, Pass, Answer, pop, wanted, is_late, read_pass, read_loop, send_can_data,
}
use ota_backup.RmCan.Device.Sending.{after_selects, send_can_data_idle}
use ota_backup.RmCan.Device.Reading.{Answers, stream, read_loop-Answers, read_loop_ends}

-- A packet of board 7 with type 33, and one of another type.
abbrev wanted_packet : CanPacket
wanted_packet = record { priority = 3; src_id = 7; dst_id = 1; bytes = 33 ∷ 3 ∷ 0 ∷ []; len = 3 }

abbrev other_packet : CanPacket
other_packet = record { priority = 3; src_id = 7; dst_id = 1; bytes = 34 ∷ 2 ∷ []; len = 2 }

abbrev three_passes : List Pass
three_passes =
    record { arrivals = other_packet ∷ []; elapsed = 0 }
    ∷ record { arrivals = []; elapsed = 0 }
    ∷ record { arrivals = wanted_packet ∷ []; elapsed = 1 }
    ∷ []

abbrev buffer : List ℕ
buffer = 0 ∷ 0 ∷ 0 ∷ []

abbrev answer : Answer
answer = record { result = pos 3; buffer = 33 ∷ 3 ∷ 0 ∷ []; left = [] }

reads_wanted : read_loop 7 33 buffer 3 1 three_passes [] ≡ some answer
unfolding read_loop read_pass pop wanted is_late
reads_wanted = refl

read_loop-Answers_example : Answers 7 33 buffer 3 1 (stream [] three_passes) answer
read_loop-Answers_example = read_loop-Answers 7 33 buffer 3 1 three_passes [] answer reads_wanted

abbrev quiet_pass : Pass
quiet_pass = record { arrivals = []; elapsed = 0 }

abbrev late_pass : Pass
late_pass = record { arrivals = other_packet ∷ []; elapsed = 2 }

read_loop_ends_example :
    (a : Answer) × (read_loop 7 33 buffer 3 1
        ((quiet_pass ∷ []) ++ (late_pass ∷ quiet_pass ∷ []))
        []
      ≡ some a)
read_loop_ends_example =
    read_loop_ends 7 33 buffer 3 1 (quiet_pass ∷ []) late_pass (quiet_pass ∷ []) [] (omega arith)
      (omega arith)

-- The world counts the selects.
abbrev never_ready : Selector ℕ
never_ready = record { select_write = λ n. (pos 0, false, n + 1) }

abbrev any_link : Link ℕ
any_link = record { send = λ p n. (pos 0, n + 1000); no_buffers = λ n. false }

send_can_data_idle_example :
    send_can_data any_link never_ready 5 true 1 7 (1 ∷ 2 ∷ []) 2 0 0
    ≡ (some (pos 0, after_selects any_link never_ready 10 0), 0)
send_can_data_idle_example =
    send_can_data_idle any_link never_ready 5 1 7 (1 ∷ 2 ∷ []) 2 0 0 (λ v. refl)
