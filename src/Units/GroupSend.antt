-- ===== src/Units/GroupSend.antt =====
-- units/traffic/group_send: the loop of Run that sends one message after the other. `W` is what lies
-- outside, the sender's clients among it.
pub mod Counting
pub mod Rotation
use wkbench.Base.{
  ℕ, ℤ, pos, zero, suc, ◌+◌, ◌*◌, ◌%◌, ◌<◌, ◌==◌, Bool, true, false, Option, none, some, List, [],
  ◌∷◌, Result, ok, err, Text, text, text_eq, length, get_elem?, if◌then◌else◌, ◌≡◌, refl, sym, ap,
  ◌∙◌, arith, Bool-cases, inl, inr,
}
use native.Mathlib.Nat.{mod-eq_of_lt}
use wkbench.Units.Ports.{GroupChannel, SendAck, Summary}

pub data SendError (E : Type 0) : Type 0 where
  no_online_members : Text → SendError E
  missing_client : Text → SendError E
  not_acked : E → SendError E
  -- the panic of an index out of range
  no_item_panics : SendError E

pub record Counters : Type 0 where
  pub attempts : ℕ
  pub successes : ℕ
  pub failures : ℕ

abbrev pub zero_summary : Summary
zero_summary = record {
  sendack_ok = 0;
  sendack_errors = 0;
  elapsed_ms = pos 0;
  last_message_id = pos 0;
}

-- pickSender
unfoldable pub pick_member : GroupChannel → Text → ℕ → Option Text
pick_member channel mode msg_index =
    if text_eq mode (text "round_robin")
    then get_elem? channel.members (msg_index % length channel.members)
    else get_elem? channel.members 0

member_of : Text → ℕ → Option GroupChannel → Option Text
unfolding pick_member
member_of mode msg_index none = none
member_of mode msg_index (some channel) = pick_member channel mode msg_index

-- The sender of sendOne for a message
unfoldable pub sender_of : List GroupChannel → Text → ℕ → Option Text
unfolding member_of
sender_of channels mode msg_index =
    member_of mode msg_index (get_elem? channels (msg_index % length channels))

module _ {E W : Type 0} (send : Text → Text → W → Option (Result E SendAck) × W) where
  on_sent : Text → Option (Result E SendAck) × W → Result (SendError E) SendAck × W
  on_sent uid (none, w) = (err (missing_client uid), w)
  on_sent uid (some (ok ack), w) = (ok ack, w)
  on_sent uid (some (err e), w) = (err (not_acked e), w)

  send_from : GroupChannel → Option Text → W → Result (SendError E) SendAck × W
  unfolding on_sent
  send_from channel none w = (err no_item_panics, w)
  send_from channel (some uid) w = on_sent uid (send channel.channel_id uid w)

  send_to : Text → ℕ → Option GroupChannel → W → Result (SendError E) SendAck × W
  unfolding send_from pick_member
  send_to mode msg_index none w = (err no_item_panics, w)
  send_to mode msg_index (some channel) w =
      if length channel.members == 0
      then (err (no_online_members channel.channel_id), w)
      else send_from channel (pick_member channel mode msg_index) w

  -- sendOne; `send` is SendGroupAndWaitAck of the client for the user, `none` if there is no client
  unfoldable pub send_one : List GroupChannel → Text → ℕ → W → Result (SendError E) SendAck × W
  unfolding send_to
  send_one channels mode msg_index w =
      send_to mode msg_index (get_elem? channels (msg_index % length channels)) w

  -- The end of a round of the loop
  count : Result (SendError E) SendAck → Summary × Counters → Summary × Counters
  count (err e) (s, c) = (
    record s { sendack_errors = (s.sendack_errors + 1) % 18_446_744_073_709_551_616 },
    record c { attempts = c.attempts + 1; failures = c.failures + 1 },
  )
  count (ok ack) (s, c) = (
    record s {
      sendack_ok = (s.sendack_ok + 1) % 18_446_744_073_709_551_616;
      last_message_id = ack.message_id;
    },
    record c { attempts = c.attempts + 1; successes = c.successes + 1 },
  )

  -- The loop from a message index on, with `n` messages left
  unfoldable pub send_all :
      List GroupChannel → Text → ℕ → ℕ → Summary × Counters → W → (Summary × Counters) × W
  unfolding send_one count
  send_all channels mode idx zero sc w = (sc, w)
  send_all channels mode idx (suc n) sc w =
      let (r, w') = send_one channels mode idx w in
      send_all channels mode (suc idx) n (count r sc) w'
