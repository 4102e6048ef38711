-- ===== src/RobotUpdate/Request/Completed.antt =====
-- Exchanges that were completed, one after the other.
use ota_backup.Base.{
  ℕ, ◌≡◌, inl, inr, ◌∙◌, refl, sym, ap, List, [], ◌∷◌, ◌++◌, true, false, Bool-cases, pos,
  minus_one, is_zero, get_or, take, arith, ◌==◌, if◌then◌else◌,
}
use ota_backup.RobotUpdate.Transport.{CanDevice, GivesPackets, Protocol}
use ota_backup.RobotUpdate.Request.{
  Request, Reply, data_request, request, start_request, address_request, crc_request, end_request,
  send_start_flag, send_data_address, send_data_crc, send_end_flag,
}
use ota_backup.RobotUpdate.Request.Acknowledged.{
  Leads, here, Leads-trans, Answered, Acknowledged, request_answered, request-Leads,
  request-Acknowledged,
}

-- One step of a transfer: a request that any answer settles, or one whose answer must say 0 in its
-- third byte.
pub data Exchange : Type 0 where
  plain : Request → Exchange
  checked : Request → Exchange

abbrev pub asks : Exchange → Request
asks (plain q) = q
asks (checked q) = q

abbrev pub Accepts : Exchange → List ℕ → Type 0
Accepts (plain q) answer = Unit
Accepts (checked q) answer = get_or answer 2 0 ≡ 0

-- What a data request says depends on the bytes that are sent only.
pub data_request-take :
    (p : Protocol) (m : ℕ) (a b : List ℕ) (n : ℕ)
    → take n a ≡ take n b
    → data_request p m a n ≡ data_request p m b n
unfolding data_request
data_request-take p m a b n e = rw e refl

module _ {W : Type 0} (can : CanDevice W) where
  -- The exchanges were answered one after the other, among sends and reads of any kind.
  pub data Completed : List Exchange → W → W → Type 0 where
    none_left : {w w' : W} → Leads can w w' → Completed [] w w'
    next :
        {x : Exchange} {xs : List Exchange} {w u v w' : W}
        → Leads can w u
        → (a : Answered can (asks x) u v) → Accepts x a.answer
        → Completed xs v w'
        → Completed (x ∷ xs) w w'

  pub Completed-leads :
      {xs : List Exchange} {w u w' : W} → Leads can w u → Completed xs u w' → Completed xs w w'
  Completed-leads l (none_left r) = none_left (Leads-trans can l r)
  Completed-leads l (next r a ok c) = next (Leads-trans can l r) a ok c

  pub Completed-append :
      {xs ys : List Exchange} {u v w : W}
      → Completed xs u v
      → Completed ys v w
      → Completed (xs ++ ys) u w
  Completed-append (none_left l) d = Completed-leads l d
  Completed-append (next l a ok c) d = next l a ok (Completed-append c d)

  pub completed_plain :
      {q : Request} {w w' : W} {reply : Reply}
      → Acknowledged can q w w' reply
      → Completed (plain q ∷ []) w w'
  completed_plain a = next {x = plain _} a.leads a.answered tt (none_left here)

  module _ (gives : GivesPackets can) (p : Protocol) (m : ℕ) where
    pub send_start_flag-Completed :
        (w : W)
        → is_zero (send_start_flag p m can w).0 ≡ true
        → Completed (plain (start_request p m) ∷ []) w (send_start_flag p m can w).1
    unfolding send_start_flag
    send_start_flag-Completed w e =
        completed_plain (request-Acknowledged can gives (start_request p m) w e)

    pub send_end_flag-Completed :
        (w : W)
        → is_zero (send_end_flag p m can w).0 ≡ true
        → Completed (plain (end_request p m) ∷ []) w (send_end_flag p m can w).1
    unfolding send_end_flag
    send_end_flag-Completed w e =
        completed_plain (request-Acknowledged can gives (end_request p m) w e)

    pub send_data_address-Completed :
        (addr : ℕ) (w : W)
        → is_zero (send_data_address p m can addr w).0 ≡ true
        → Completed (plain (address_request p m addr) ∷ []) w (send_data_address p m can addr w).1
    unfolding send_data_address
    send_data_address-Completed addr w e =
        completed_plain (request-Acknowledged can gives (address_request p m addr) w e)

    pub send_data_crc-Leads : (crc : ℕ) (w : W) → Leads can w (send_data_crc p m can crc w).1
    unfolding send_data_crc
    send_data_crc-Leads crc w = elim (Bool-cases (request can (crc_request p m crc) w).0.answered) [
      | inl a ↦ rw a reached
      | inr n ↦ rw n reached
    ]
      where
        reached : Leads can w (request can (crc_request p m crc) w).1
        reached = request-Leads can (crc_request p m crc) w

    pub send_data_crc-Completed :
        (crc : ℕ) (w : W)
        → is_zero (send_data_crc p m can crc w).0 ≡ true
        → Completed (checked (crc_request p m crc) ∷ []) w (send_data_crc p m can crc w).1
    unfolding send_data_crc
    send_data_crc-Completed crc w e =
        elim (Bool-cases (request can (crc_request p m crc) w).0.answered) [
          | inl a ↦ rw a (agreed a (rw a at e))
          | inr n ↦ absurd (unanswered n (rw n at e))
        ]
      where
        q : Request
        q = crc_request p m crc

        reply : Reply
        reply = (request can q w).0

        agreed :
            reply.answered ≡ true
            → is_zero (if get_or reply.ret_data 2 0 == 0 then pos 0 else minus_one) ≡ true
            → Completed (checked q ∷ []) w (request can q w).1
        agreed a e =
            let k = request-Acknowledged can gives q w (request_answered can q w a) in
            next {x = checked q} k.leads k.answered
              (ap (λ d. get_or d 2 0) (sym k.data_given) ∙ settled (get_or reply.ret_data 2 0) e)
              (none_left here)
          where
            settled : (n : ℕ) → is_zero (if n == 0 then pos 0 else minus_one) ≡ true → n ≡ 0
            settled n e = ground arith

        unanswered : reply.answered ≡ false → is_zero reply.ret ≡ true → ⊥
        unanswered n e = cc (request-Acknowledged can gives q w e).is_answered
