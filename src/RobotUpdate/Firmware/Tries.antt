-- ===== src/RobotUpdate/Firmware/Tries.antt =====
-- What the result 0 of sending one block means.
use ota_backup.Base.{
  ℕ, zero, suc, ◌+◌, ◌%◌, ◌^◌, ◌≡◌, inl, inr, refl, sym, ap, List, [], ◌∷◌, true, false, Bool-cases,
  ℤ, pos, minus_one, is_zero, is_positive, eq_of_is_zero, eq_of_is_positive, not_zero_of_ne, zeros,
  Option, none, some,
}
use ota_backup.Crc16.{crc16}
use ota_backup.RobotUpdate.Transport.{CanDevice, GivesPackets, Protocol}
use ota_backup.RobotUpdate.Request.{Request, data_request, crc_request, send_data_crc}
use ota_backup.RobotUpdate.Request.Acknowledged.{
  Leads, here, by_send, by_read, Leads-trans, Answered,
}
use ota_backup.RobotUpdate.Request.Completed.{
  Exchange, plain, checked, Completed, next, Completed-leads, send_data_crc-Leads,
  send_data_crc-Completed,
}
use ota_backup.RobotUpdate.Firmware.{
  Progress, if_printed, download_progress, data_tries, block_tries, send_firmware_data,
}

module _ (p : Protocol) (m : ℕ) where
  -- Data that was answered and a checksum that the board found right.
  abbrev pub block_exchanges : List ℕ → ℕ → List Exchange
  block_exchanges buf len =
      plain (data_request p m buf len) ∷ checked (crc_request p m (crc16 buf len)) ∷ []

module _ {W : Type 0} (can : CanDevice W) (gives : GivesPackets can) (p : Protocol) (m : ℕ) where
  -- The data was sent and answered, from a world that sends and reads lead to.
  record DataAnswered (q : Request) (w w' : W) : Type 0 where
    asked : W
    leads : Leads can w asked
    answered : Answered can q asked w'

  earlier : {q : Request} {w u v : W} → Leads can w u → DataAnswered q u v → DataAnswered q w v
  earlier l a = record { asked = a.asked; leads = Leads-trans can l a.leads; answered = a.answered }

  data_tries-Leads :
      (q : Request) (n : ℕ) (ret : ℤ) (w : W) → Leads can w (data_tries can p m q n ret w).2
  unfolding data_tries
  data_tries-Leads q zero ret w = here
  data_tries-Leads q (suc n) ret w = elim (Bool-cases (is_zero sending.0)) [
    | inr failed ↦ rw failed (Leads-trans can sent (data_tries-Leads q n sending.0 sending.1))
    | inl done ↦ elim (Bool-cases (is_positive reading.0)) [
      | inl some_packet ↦ rw (done, some_packet) read
      | inr no_packet ↦
          rw (done, no_packet) (Leads-trans can read (data_tries-Leads q n reading.0 reading.2))
    ]
  ]
    where
      sending : ℤ × W
      sending = can.send q.source q.target q.message q.len w

      reading : ℤ × List ℕ × W
      reading = can.read q.target q.resp (zeros q.resp_len) q.resp_len q.timeout sending.1

      sent : Leads can w sending.1
      sent = by_send q.source q.target q.message q.len here refl

      read : Leads can w reading.2
      read = by_read q.target q.resp (zeros q.resp_len) q.resp_len q.timeout sent refl

  data_tries-DataAnswered :
      (q : Request) (n : ℕ) (ret : ℤ) (w : W)
      → is_zero ret ≡ false
      → is_zero (data_tries can p m q n ret w).0 ≡ true
      → DataAnswered q w (data_tries can p m q n ret w).2
  unfolding data_tries
  data_tries-DataAnswered q zero ret w z e = cc
  data_tries-DataAnswered q (suc n) ret w z e = elim (Bool-cases (is_zero sending.0)) [
    | inr failed ↦
        rw failed
          (earlier sent (data_tries-DataAnswered q n sending.0 sending.1 failed (rw failed at e)))
    | inl done ↦ elim (Bool-cases (is_positive reading.0)) [
      | inl some_packet ↦ rw (done, some_packet) (now done some_packet)
      | inr no_packet ↦
          rw (done, no_packet)
            (earlier (by_read q.target q.resp (zeros q.resp_len) q.resp_len q.timeout sent refl) (
              data_tries-DataAnswered q n reading.0 reading.2
                (not_zero_of_ne reading.0 (
                  gives.not_empty q.target q.resp (zeros q.resp_len) q.resp_len q.timeout
                    sending.1))
                (rw (done, no_packet) at e)))
    ]
  ]
    where
      sending : ℤ × W
      sending = can.send q.source q.target q.message q.len w

      reading : ℤ × List ℕ × W
      reading = can.read q.target q.resp (zeros q.resp_len) q.resp_len q.timeout sending.1

      sent : Leads can w sending.1
      sent = by_send q.source q.target q.message q.len here refl

      now : is_zero sending.0 ≡ true → is_positive reading.0 ≡ true → DataAnswered q w reading.2
      now done some_packet = record {
        asked = w;
        leads = here;
        answered = record {
          between = sending.1;
          answer_len = (eq_of_is_positive reading.0 some_packet).0;
          answer = reading.1;
          sent = ap (λ (r : ℤ). (r, sending.1)) (eq_of_is_zero sending.0 done);
          got =
              ap (λ (r : ℤ). (r, reading.1, reading.2)) (eq_of_is_positive reading.0 some_packet).1;
        };
      }

  block_tries-Completed :
      (buf : List ℕ) (len n k : ℕ) (ret : ℤ) (g g' : Progress) (w w' : W) (r : ℤ)
      → is_zero ret ≡ false
      → block_tries can p m buf len n k ret g w ≡ some (r, g', w')
      → is_zero r ≡ true
      → Completed can (block_exchanges p m buf len) w w'
  unfolding block_tries if_printed
  block_tries-Completed buf len zero k ret g g' w w' r z e o = cc
  block_tries-Completed buf len (suc n) k ret g g' w w' r z e o =
      elim (Bool-cases (is_zero tried.0)) [
        | inr failed ↦ Completed-leads can tried_leads (
            block_tries-Completed buf len n tried.1 tried.0 g g' tried.2 w' r failed
              (rw failed at e) o)
        | inl done ↦ elim (Bool-cases (is_zero told.0)) [
          | inr bad ↦
              Completed-leads can
                (Leads-trans can tried_leads (send_data_crc-Leads can gives p m crc tried.2))
                (block_tries-Completed buf len n tried.1 told.0 g g' told.1 w' r bad
                  (rw (done, bad) at e) o)
          | inl good ↦ acknowledged done good (rw (done, good) at e)
        ]
      ]
    where
      q : Request
      q = data_request p m buf len

      crc : ℕ
      crc = crc16 buf len

      tried : ℤ × ℕ × W
      tried = data_tries can p m q k ret w

      tried_leads : Leads can w tried.2
      tried_leads = data_tries-Leads q k ret w

      told : ℤ × W
      told = send_data_crc p m can crc tried.2

      acknowledged :
          is_zero tried.0 ≡ true
          → is_zero told.0 ≡ true
          → if_printed
              (download_progress ((g.data_sended + len) % 2 ^ 32) g.data_total)
              (some (pos 0, record g { data_sended = (g.data_sended + len) % 2 ^ 32 }, told.1))
            ≡ some (r, g', w')
          → Completed can (block_exchanges p m buf len) w w'
      acknowledged done good e =
          let a = data_tries-DataAnswered q k ret w z done in
          next {x = plain q} a.leads a.answered tt (
            settled (download_progress ((g.data_sended + len) % 2 ^ 32) g.data_total) _ told.1 e
              (send_data_crc-Completed can gives p m crc tried.2 good))
        where
          settled :
              (o : Option ℕ) (h : Progress) (v : W)
              → if_printed o (some (pos 0, h, v)) ≡ some (r, g', w')
              → Completed can (checked (crc_request p m crc) ∷ []) tried.2 v
              → Completed can (checked (crc_request p m crc) ∷ []) tried.2 w'
          settled none h v e c = absurd cc
          settled (some _) h v e c = rw (sym same) c
            where
              same : v ≡ w'
              same = cc

  -- What is sent as one block arrives whole, with its checksum.
  pub send_firmware_data-Completed :
      (buf : List ℕ) (len : ℕ) (g g' : Progress) (w w' : W) (r : ℤ)
      → send_firmware_data can p m buf len g w ≡ some (r, g', w')
      → is_zero r ≡ true
      → Completed can (block_exchanges p m buf len) w w'
  unfolding send_firmware_data
  send_firmware_data-Completed buf len g g' w w' r e o =
      block_tries-Completed buf len 2 2 minus_one g g' w w' r refl e o
