-- ===== src/Units/GroupSend/Counting.antt =====
-- The counts of the loop of group_send against the answers it got.
use wkbench.Base.{ℕ, ℤ, pos, suc, ◌+◌, List, [], ◌∷◌, Result, ok, err, Text, Option, length, ◌≡◌}
use wkbench.Units.Ports.{GroupChannel, SendAck, Summary}
use wkbench.Units.GroupSend.{SendError, Counters, send_one}

-- The acks among some answers, in their order
abbrev pub acks : {E : Type 0} → List (Result (SendError E) SendAck) → List SendAck
acks [] = []
acks (ok ack ∷ rs) = ack ∷ acks rs
acks (err e ∷ rs) = acks rs

-- The message id of the last ack, `id` if there is none
abbrev pub last_id : ℤ → List SendAck → ℤ
last_id id [] = id
last_id id (ack ∷ rest) = last_id ack.message_id rest

module _ {E W : Type 0} (send : Text → Text → W → Option (Result E SendAck) × W) where
  -- The summary agrees with the counters, and both with the number of messages so far.
  record IsCounted (n : ℕ) (sc : Summary × Counters) : Type 0 where
    pub attempts : sc.1.attempts ≡ n
    pub successes : sc.0.sendack_ok ≡ sc.1.successes
    pub failures : sc.0.sendack_errors ≡ sc.1.failures
    pub total : sc.0.sendack_ok + sc.0.sendack_errors ≡ n

  -- The answers to the messages from one index on, each sent once, in order.
  pub data Answers (channels : List GroupChannel) (mode : Text)
      : ℕ → List (Result (SendError E) SendAck) → W → W → Type 0 where
    none_left : (i : ℕ) (w : W) → Answers channels mode i [] w w
    answered :
        (i : ℕ) (r : Result (SendError E) SendAck) (rs : List (Result (SendError E) SendAck))
        (w mid w' : W)
        → send_one send channels mode i w ≡ (r, mid)
        → Answers channels mode (suc i) rs mid w'
        → Answers channels mode i (r ∷ rs) w w'

  -- What the loop makes of `n` messages: of the answers to the messages 0 to n - 1, it counts the acks
  -- as successes and the others as errors, in the summary and in the counters, and keeps the message
  -- id of the last ack.
  pub record IsTally (channels : List GroupChannel) (mode : Text) (n : ℕ) (w w' : W)
      (sc : Summary × Counters) : Type 0 where
    pub results : List (Result (SendError E) SendAck)
    pub sent : Answers channels mode 0 results w w'
    pub size : length results ≡ n
    pub attempts : sc.1.attempts ≡ n
    pub successes :
        (sc.0.sendack_ok ≡ length (acks results)) × (sc.1.successes ≡ length (acks results))
    pub failures :
        (sc.0.sendack_errors + length (acks results) ≡ n)
        × (sc.1.failures + length (acks results) ≡ n)
    pub last : sc.0.last_message_id ≡ last_id (pos 0) (acks results)
