-- ===== src/Units/Send.antt =====
-- units/traffic/send: the loop of Run that sends messages at a rate, with a bound on how many wait
-- for their acknowledgement. The clock, the timers, the context and the goroutines are outside: each
-- pass of the loop takes an event that says which case of its waits has come about.
pub mod Loop
pub mod Deliveries
pub mod Ends
pub mod Picking
pub mod Validation
use wkbench.Base.{
  ℕ, ℤ, pos, negsuc, is_nonpositive, zero, suc, ◌+◌, ◌-◌, ◌*◌, ◌/◌, ◌%◌, ◌^◌, ltb, ◌==◌, Bool, true,
  false, ◌&&◌, Option, none, some, List, [], ◌∷◌, ◌++◌, Result, ok, err, ◌>>=◌, Text, text, text_eq,
  length, get_elem?, if◌then◌else◌,
}
use wkbench.Units.Ports.{SendTarget, SendAck, Summary}

-- totalMessages; `total` is the rounded product of rate and duration
abbrev pub total_messages : ℤ → ℕ
total_messages (pos n) = if ltb n 1 then 1 else n
total_messages (negsuc n) = 1

-- `if maxInFlight <= 0 { maxInFlight = 1 }`
abbrev pub in_flight_bound : ℤ → ℕ
in_flight_bound (pos n) = if n == 0 then 1 else n
in_flight_bound (negsuc n) = 1

-- sendResult, without the latency
pub data SendResult (E : Type 0) : Type 0 where
  acked : SendAck → SendResult E
  failed : E → SendResult E

-- What a pass of the loop waits for: the time is due, the timer of waitForSchedule or of time.After
-- fires, the result of one of the goroutines arrives (with the context's error, if it is cancelled
-- and the result's error is that one), or the context is done.
pub data Event (E : Type 0) : Type 0 where
  due : Event E
  slept : Event E
  timer : Event E
  received : (place : ℕ) → SendResult E → Option E → Event E
  cancelled : E → Event E

-- The variables of Run; `pending` holds the message indices of the goroutines whose results have not
-- been received, and the counters are those emitted to the environment.
pub record State : Type 0 where
  pub launched : ℕ
  pub completed : ℕ
  pub in_flight : ℕ
  pub summary : Summary
  pub pending : List ℕ
  pub attempts : ℕ
  pub successes : ℕ
  pub failures : ℕ

abbrev pub start : State
start = record {
  launched = 0;
  completed = 0;
  in_flight = 0;
  summary = record {
    sendack_ok = 0;
    sendack_errors = 0;
    elapsed_ms = pos 0;
    last_message_id = pos 0;
  };
  pending = [];
  attempts = 0;
  successes = 0;
  failures = 0;
}

-- The list without the item at a place
abbrev pub remove_at : ℕ → List ℕ → Option (List ℕ)
remove_at n [] = none
remove_at zero (x ∷ xs) = some xs
remove_at (suc n) (x ∷ xs) = elim (remove_at n xs) [ none ↦ none | some ys ↦ some (x ∷ ys) ]

-- pickSender; `none` is the panic of an index out of range
unfoldable pub pick_sender : SendTarget → Text → ℕ → Option Text
pick_sender target mode msg_index =
    if text_eq mode (text "round_robin")
    then get_elem? target.sender_uids (msg_index % length target.sender_uids)
    else get_elem? target.sender_uids 0

pub data Picked : Type 0 where
  no_target : Picked
  no_online_senders : Text → Picked
  send_over : SendTarget → Text → Picked

picked : SendTarget → Option Text → Picked
picked target none = no_target
picked target (some uid) = send_over target uid

pick_over : Text → ℕ → Option SendTarget → Picked
unfolding picked pick_sender
pick_over mode send_index none = no_target
pick_over mode send_index (some target) =
    if length target.sender_uids == 0
    then no_online_senders target.channel_id
    else picked target (pick_sender target mode send_index)

-- The start of sendOne: over which target, and from whom. The targets are not empty.
unfoldable pub pick : List SendTarget → Text → ℕ → Picked
unfolding pick_over
pick targets mode msg_index =
    pick_over mode (msg_index / length targets) (get_elem? targets (msg_index % length targets))

-- The message of index `launched` is given to a new goroutine.
unfoldable pub launch : State → State
launch s = record s {
  launched = s.launched + 1;
  in_flight = s.in_flight + 1;
  attempts = s.attempts + 1;
  pending = s.launched ∷ s.pending;
}

module _ {E : Type 0} where
  -- applyResult
  unfoldable pub apply_result : SendResult E → State → State
  apply_result (failed e) s =
      let summary = s.summary in
      record s {
        failures = s.failures + 1;
        summary = record summary {
          sendack_errors = (summary.sendack_errors + 1) % 18_446_744_073_709_551_616;
        };
      }
  apply_result (acked ack) s =
      let summary = s.summary in
      record s {
        successes = s.successes + 1;
        summary = record summary {
          sendack_ok = (summary.sendack_ok + 1) % 18_446_744_073_709_551_616;
          last_message_id = ack.message_id;
        };
      }

  -- `applyResult(…); completed++; inFlight--`
  unfoldable pub settle : SendResult E → List ℕ → State → State
  unfolding apply_result
  settle r pending s =
      let s' = apply_result r s in
      record s' { completed = s'.completed + 1; in_flight = s'.in_flight - 1; pending = pending }

  -- A result is received; `none` where no goroutine is waiting at that place.
  unfoldable pub receive :
      SendResult E → Option E → Option (List ℕ) → State → Option (Result E State)
  unfolding settle
  receive r stop none s = none
  receive r (some e) (some pending) s = some (err e)
  receive r none (some pending) s = some (ok (settle r pending s))

  -- A pass with a message left and room for it
  unfoldable pub on_room : Event E → State → Option (Result E State)
  unfolding launch receive
  on_room due s = some (ok (launch s))
  on_room slept s = if s.in_flight == 0 then some (ok s) else none
  on_room timer s = if s.in_flight == 0 then none else some (ok (launch s))
  on_room (received place r stop) s =
      if s.in_flight == 0 then none else receive r stop (remove_at place s.pending) s
  on_room (cancelled e) s = some (err e)

  -- A pass that can only wait
  unfoldable pub on_full : Event E → State → Option (Result E State)
  unfolding receive
  on_full (received place r stop) s = receive r stop (remove_at place s.pending) s
  on_full (cancelled e) s = some (err e)
  on_full _ s = none

  -- What follows a pass, with the events that are left
  pub resume :
      (State → Option (Result E State))
      → List (Event E)
      → Option (Result E State)
      → Option (Result E State)
  resume rest events none = none
  resume rest [] (some (err e)) = some (err e)
  resume rest (_ ∷ _) (some (err e)) = none
  resume rest events (some (ok s)) = rest s

  -- A pass of the loop; `none` where its waits do not have that case
  unfoldable pub turn :
      (message_count max_in_flight : ℕ) → Event E → State → Option (Result E State)
  unfolding on_room on_full
  turn message_count max_in_flight event s =
      if ltb s.launched message_count && ltb s.in_flight max_in_flight
      then on_room event s
      else on_full event s

  -- The loop on the events that come about: `some` if the last of them ends it.
  unfoldable pub loop :
      (message_count max_in_flight : ℕ) → List (Event E) → State → Option (Result E State)
  unfolding turn resume
  loop message_count max_in_flight [] s =
      if ltb s.completed message_count then none else some (ok s)
  loop message_count max_in_flight (event ∷ events) s =
      let rest : State → Option (Result E State) =
        λ s'. loop message_count max_in_flight events s' in
      if ltb s.completed message_count
      then resume rest events (turn message_count max_in_flight event s)
      else none
