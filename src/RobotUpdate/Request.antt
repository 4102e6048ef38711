-- ===== src/RobotUpdate/Request.antt =====
-- robotUpdate.cpp: the requests to a board. Each is sent twice at most and waits for its answer.
pub mod Acknowledged
pub mod Completed
use ota_backup.Base.{
  ℕ, zero, suc, ◌+◌, ◌-◌, ◌*◌, ◌/◌, ◌%◌, ◌^◌, List, [], ◌∷◌, ◌++◌, Bool, true, false, ◌==◌, not,
  if◌then◌else◌, ℤ, pos, minus_one, is_zero, is_positive, zeros, take, get_or,
}
use ota_backup.RobotUpdate.Transport.{CanDevice, Protocol}

abbrev pub data_packet_length : ℕ
data_packet_length = 500

abbrev pub cmd_timeout : ℕ
cmd_timeout = 1

abbrev pub data_timeout : ℕ
data_timeout = 30

abbrev pub resend_count : ℕ
resend_count = 2

-- One request: who asks whom, the message with the length that is sent, the type and the buffer size
-- of the answer, and the seconds to wait.
pub record Request : Type 0 where
  pub source : ℕ
  pub target : ℕ
  pub message : List ℕ
  pub len : ℕ
  pub resp : ℕ
  pub resp_len : ℕ
  pub timeout : ℕ

-- What the loop leaves: `ret`, whether it was left by `break`, and `ret_data`.
pub record Reply : Type 0 where
  pub ret : ℤ
  pub answered : Bool
  pub ret_data : List ℕ

module _ {W : Type 0} (can : CanDevice W) where
  -- The loop `while (count-- > 0)` that all requests share: send, and if that works, read the answer
  -- into cleared `ret_data`; a positive result of the read ends it.
  unfoldable pub attempts : Request → ℕ → Reply → W → Reply × W
  attempts q zero reply w = (reply, w)
  attempts q (suc count) reply w =
      let (ret, w') = can.send q.source q.target q.message q.len w in
      let (ret', ret_data, w'') =
        can.read q.target q.resp (zeros q.resp_len) q.resp_len q.timeout w' in
      let unsent = attempts q count (record reply { ret = ret }) w' in
      let unanswered =
        attempts q count (record { ret = ret'; answered = false; ret_data = ret_data }) w'' in
      if not (is_zero ret)
      then unsent
      else if is_positive ret'
      then (record { ret = pos 0; answered = true; ret_data = ret_data }, w'')
      else unanswered

  unfoldable pub request : Request → W → Reply × W
  request q w =
      attempts q resend_count
        (record { ret = minus_one; answered = false; ret_data = zeros q.resp_len }) w

module _ (p : Protocol) (cur_module : ℕ) where
  unfoldable pub start_request : Request
  start_request = record {
    source = p.rm_upgrade_id;
    target = cur_module;
    message = p.start_cmd ∷ 2 ∷ [];
    len = 2;
    resp = p.start_resp;
    resp_len = 3;
    timeout = cmd_timeout;
  }

  unfoldable pub address_request : ℕ → Request
  address_request addr = record {
    source = p.rm_upgrade_id;
    target = cur_module;
    message =
        p.addr_cmd
        ∷ 6
        ∷ (addr / 2 ^ 24 % 256)
        ∷ (addr / 2 ^ 16 % 256)
        ∷ (addr / 2 ^ 8 % 256)
        ∷ (addr % 256)
        ∷ [];
    len = 6;
    resp = p.addr_resp;
    resp_len = 3;
    timeout = cmd_timeout;
  }

  unfoldable pub crc_request : ℕ → Request
  crc_request crc = record {
    source = p.rm_upgrade_id;
    target = cur_module;
    message = p.crc_cmd ∷ 4 ∷ (crc / 2 ^ 8 % 256) ∷ (crc % 256) ∷ [];
    len = 4;
    resp = p.crc_resp;
    resp_len = 3;
    timeout = data_timeout;
  }

  -- `data`, an array of DATA_PACKET_LENGTH + 3 bytes, and `length = len + 3`.
  unfoldable pub data_request : List ℕ → ℕ → Request
  data_request buf len = record {
    source = p.rm_upgrade_id;
    target = cur_module;
    message =
        p.data_cmd
        ∷ ((len + 3) / 2 ^ 8 % 256)
        ∷ ((len + 3) % 256)
        ∷ (take len buf ++ zeros (data_packet_length - len));
    len = len + 3;
    resp = p.data_resp;
    resp_len = 3;
    timeout = data_timeout;
  }

  unfoldable pub end_request : Request
  end_request = record {
    source = p.rm_upgrade_id;
    target = cur_module;
    message = p.end_cmd ∷ 2 ∷ [];
    len = 2;
    resp = p.end_resp;
    resp_len = 3;
    timeout = cmd_timeout;
  }

  module _ {W : Type 0} (can : CanDevice W) where
    unfoldable pub send_start_flag : W → ℤ × W
    unfolding request start_request
    send_start_flag w = let (reply, w') = request can start_request w in (reply.ret, w')

    unfoldable pub send_data_address : ℕ → W → ℤ × W
    unfolding request address_request
    send_data_address addr w =
        let (reply, w') = request can (address_request addr) w in (reply.ret, w')

    -- The third byte of the answer tells whether the board agrees.
    unfoldable pub send_data_crc : ℕ → W → ℤ × W
    unfolding request crc_request
    send_data_crc crc w =
        let (reply, w') = request can (crc_request crc) w in
        if reply.answered
        then (if get_or reply.ret_data 2 0 == 0 then pos 0 else minus_one, w')
        else (reply.ret, w')

    unfoldable pub send_end_flag : W → ℤ × W
    unfolding request end_request
    send_end_flag w = let (reply, w') = request can end_request w in (reply.ret, w')
