-- ===== src/Units/Fakes.antt =====
-- units/core/fake_group_sender and units/core/fake_message_sender: the senders that acknowledge every send
-- with the next number. The state is `next` of the Sender, which the clients share; it is an int64 and
-- taken not to wrap.
use wkbench.Base.{
  ℕ, suc, ◌==◌, ℤ, pos, Bool, true, false, ◌||◌, List, [], Result, ok, err, Text, text_eq,
  if◌then◌else◌,
}
use wkbench.Units.Ports.{SendAck}

pub record GroupSendRequest : Type 0 where
  pub channel_id : Text
  pub sender_uid : Text
  pub client_msg_no : Text
  pub payload : List ℕ
  pub timeout : ℤ

pub record SendRequest : Type 0 where
  pub channel_id : Text
  pub channel_type : ℕ  -- uint8
  pub sender_uid : Text
  pub client_msg_no : Text
  pub payload : List ℕ
  pub timeout : ℤ

pub data FakeError : Type 0 where
  group_fields_required message_fields_required : FakeError

-- Client and MessageClient: whether there is a client for that user
unfoldable pub fake_client : Text → Bool
fake_client uid = if text_eq uid [] then false else true

abbrev pub ack_of : ℕ → SendAck
ack_of id = record { message_id = pos id; message_seq = id; wire_latency = pos 0 }

-- SendGroupAndWaitAck: the result, and `next` after it
unfoldable pub send_group_fake : GroupSendRequest → ℕ → Result FakeError SendAck × ℕ
send_group_fake req next =
    if text_eq req.channel_id [] || text_eq req.sender_uid [] || text_eq req.client_msg_no []
    then (err group_fields_required, next)
    else (ok (ack_of (suc next)), suc next)

-- SendAndWaitAck
unfoldable pub send_message_fake : SendRequest → ℕ → Result FakeError SendAck × ℕ
send_message_fake req next =
    if text_eq req.channel_id []
      || req.channel_type == 0
      || text_eq req.sender_uid []
      || text_eq req.client_msg_no []
    then (err message_fields_required, next)
    else (ok (ack_of (suc next)), suc next)
