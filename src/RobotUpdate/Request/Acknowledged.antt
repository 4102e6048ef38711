-- ===== src/RobotUpdate/Request/Acknowledged.antt =====
-- What the result 0 of a request means, in any world.
use ota_backup.Base.{
  ℕ, zero, suc, ◌≡◌, inl, inr, refl, ap, List, true, false, Bool-cases, ℤ, pos, is_zero,
  is_positive, eq_of_is_zero, eq_of_is_positive, not_zero_of_ne, zeros, arith,
}
use ota_backup.RobotUpdate.Transport.{CanDevice, GivesPackets}
use ota_backup.RobotUpdate.Request.{Request, Reply, attempts, request}

module _ {W : Type 0} (can : CanDevice W) where
  -- The worlds that sends and reads of any kind lead to.
  pub data Leads (w : W) : W → Type 0 where
    here : Leads w w
    by_send :
        {u v : W} (s d : ℕ) (bytes : List ℕ) (len : ℕ)
        → Leads w u
        → (can.send s d bytes len u).1 ≡ v
        → Leads w v
    by_read :
        {u v : W} (s t : ℕ) (buf : List ℕ) (len timeout : ℕ)
        → Leads w u
        → (can.read s t buf len timeout u).2 ≡ v
        → Leads w v

  pub Leads-trans : {u v w : W} → Leads u v → Leads v w → Leads u w
  Leads-trans r here = r
  Leads-trans r (by_send s d bytes len t e) = by_send s d bytes len (Leads-trans r t) e
  Leads-trans r (by_read s t' buf len timeout t e) =
      by_read s t' buf len timeout (Leads-trans r t) e

  -- The request was sent in `w` and answered, the answer read by the time of `w'`.
  pub record Answered (q : Request) (w w' : W) : Type 0 where
    pub between : W
    pub answer_len : ℕ
    pub answer : List ℕ
    pub sent : can.send q.source q.target q.message q.len w ≡ (pos 0, between)
    pub got :
        can.read q.target q.resp (zeros q.resp_len) q.resp_len q.timeout between
        ≡ (pos (suc answer_len), answer, w')

  -- A reply with result 0 is an answer to the last of the attempts.
  pub record Acknowledged (q : Request) (w w' : W) (reply : Reply) : Type 0 where
    pub asked : W
    pub leads : Leads w asked
    pub answered : Answered q asked w'
    pub is_answered : reply.answered ≡ true
    pub data_given : reply.ret_data ≡ answered.answer

  pub attempts-Leads :
      (q : Request) (n : ℕ) (reply : Reply) (w : W) → Leads w (attempts can q n reply w).1
  unfolding attempts
  attempts-Leads q zero reply w = here
  attempts-Leads q (suc n) reply w = elim (Bool-cases (is_zero sending.0)) [
    | inr failed ↦ rw failed (Leads-trans sent (attempts-Leads q n _ sending.1))
    | inl done ↦ elim (Bool-cases (is_positive reading.0)) [
      | inl some_packet ↦ rw (done, some_packet) read
      | inr no_packet ↦ rw (done, no_packet) (Leads-trans read (attempts-Leads q n _ reading.2))
    ]
  ]
    where
      sending : ℤ × W
      sending = can.send q.source q.target q.message q.len w

      reading : ℤ × List ℕ × W
      reading = can.read q.target q.resp (zeros q.resp_len) q.resp_len q.timeout sending.1

      sent : Leads w sending.1
      sent = by_send q.source q.target q.message q.len here refl

      read : Leads w reading.2
      read = by_read q.target q.resp (zeros q.resp_len) q.resp_len q.timeout sent refl

  pub request-Leads : (q : Request) (w : W) → Leads w (request can q w).1
  unfolding request
  request-Leads q w = attempts-Leads q 2 _ w

  -- Only an answer ends the loop early, and then the result is 0.
  attempts_answered :
      (q : Request) (n : ℕ) (reply : Reply) (w : W)
      → reply.answered ≡ false
      → (attempts can q n reply w).0.answered ≡ true
      → is_zero (attempts can q n reply w).0.ret ≡ true
  unfolding attempts
  attempts_answered q zero reply w z e = cc
  attempts_answered q (suc n) reply w z e =
      let (ret, w') = can.send q.source q.target q.message q.len w in
      let (ret', ret_data, w'') =
        can.read q.target q.resp (zeros q.resp_len) q.resp_len q.timeout w' in
      ground (
        arith,
        attempts_answered q n (record reply { ret = ret }) w',
        attempts_answered q n (record { ret = ret'; answered = false; ret_data = ret_data }) w'',
      )

  pub request_answered :
      (q : Request) (w : W)
      → (request can q w).0.answered ≡ true
      → is_zero (request can q w).0.ret ≡ true
  unfolding request
  request_answered q w e = attempts_answered q 2 _ w refl e

  module _ (gives : GivesPackets can) where
    attempts-Acknowledged :
        (q : Request) (n : ℕ) (reply : Reply) (w : W)
        → is_zero reply.ret ≡ false
        → is_zero (attempts can q n reply w).0.ret ≡ true
        → Acknowledged q w (attempts can q n reply w).1 (attempts can q n reply w).0
    unfolding attempts
    attempts-Acknowledged q zero reply w z e = cc
    attempts-Acknowledged q (suc n) reply w z e = elim (Bool-cases (is_zero sending.0)) [
      | inr failed ↦ rw failed (
          earlier (by_send q.source q.target q.message q.len here refl) (
            attempts-Acknowledged q n (record reply { ret = sending.0 }) sending.1 failed
              (rw failed at e)))
      | inl done ↦ elim (Bool-cases (is_positive reading.0)) [
        | inl some_packet ↦ rw (done, some_packet) (now done some_packet)
        | inr no_packet ↦
            rw (done, no_packet)
              (earlier
                (by_read q.target q.resp (zeros q.resp_len) q.resp_len q.timeout
                  (by_send q.source q.target q.message q.len here refl) refl)
                (attempts-Acknowledged q n
                  (record { ret = reading.0; answered = false; ret_data = reading.1 }) reading.2
                  (not_zero_of_ne reading.0 (
                    gives.not_empty q.target q.resp (zeros q.resp_len) q.resp_len q.timeout
                      sending.1))
                  (rw (done, no_packet) at e)))
      ]
    ]
      where
        sending : ℤ × W
        sending = can.send q.source q.target q.message q.len w

        reading : ℤ × List ℕ × W
        reading = can.read q.target q.resp (zeros q.resp_len) q.resp_len q.timeout sending.1

        earlier : {u v : W} {r : Reply} → Leads w u → Acknowledged q u v r → Acknowledged q w v r
        earlier l a = record {
          asked = a.asked;
          leads = Leads-trans l a.leads;
          answered = a.answered;
          is_answered = a.is_answered;
          data_given = a.data_given;
        }

        now :
            is_zero sending.0 ≡ true
            → is_positive reading.0 ≡ true
            → Acknowledged q w reading.2
                (record { ret = pos 0; answered = true; ret_data = reading.1 })
        now done some_packet = record {
          asked = w;
          leads = here;
          answered = record {
            between = sending.1;
            answer_len = (eq_of_is_positive reading.0 some_packet).0;
            answer = reading.1;
            sent = ap (λ (r : ℤ). (r, sending.1)) (eq_of_is_zero sending.0 done);
            got =
                ap (λ (r : ℤ). (r, reading.1, reading.2))
                  (eq_of_is_positive reading.0 some_packet).1;
          };
          is_answered = refl;
          data_given = refl;
        }

    pub request-Acknowledged :
        (q : Request) (w : W)
        → is_zero (request can q w).0.ret ≡ true
        → Acknowledged q w (request can q w).1 (request can q w).0
    unfolding request
    request-Acknowledged q w e = attempts-Acknowledged q 2 _ w refl e
