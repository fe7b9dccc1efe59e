-- ===== src/Tests/Traffic.antt =====
-- The units and the codecs on small inputs.
use wkbench.Base.{
  ◌↔◌, true, sym, ◌∙◌, ◌≢◌, zero, suc, ◌<◌, ℕ, zero, suc, ◌/◌, ◌%◌, pos, true, none, some, List, [],
  ◌∷◌, ◌++◌, Result, ok, Text, text, text_eq, trim_space, length, get_elem?, ◌≡◌, refl, arith,
}
use wkbench.Dsl.{Scenario, Value, scalar, str, Fields, end, field, parse}
use wkbench.Dsl.Expansion.{is_ok}
use wkbench.Dsl.References.{AllNamed, spec_texts, parse-is_ok}
use wkbench.Frame.{write_frame, read_frame, append, write_frame-read_frame}
use wkbench.Units.Ports.{Identity, SendTarget, SendAck, GroupChannel}
use wkbench.Units.Pool
use wkbench.Units.Pairs
use wkbench.Units.Pairs.Ring
use wkbench.Units.Groups
use wkbench.Units.Send.{Event, due, received, acked, State, start, loop, turn, pick, send_over}
use wkbench.Units.Send.Loop.{Turns, turn-Turns}
use wkbench.Units.Send.Ends.{IsDone, weights, loop-IsDone, loop-ends, start-IsSending}
use wkbench.Units.Send.Deliveries.{deliveries}
use wkbench.Units.Send.Picking.{sender_place, pick-send_over}

abbrev ack : SendAck
ack = record { message_id = pos 7; message_seq = 7; wire_latency = pos 0 }

-- Two messages, one in flight at a time
abbrev events : List (Event Text)
events = due ∷ received 0 (acked ack) none ∷ due ∷ received 0 (acked ack) none ∷ []

abbrev last : State
last = record {
  launched = 2;
  completed = 2;
  in_flight = 0;
  summary = record {
    sendack_ok = 2;
    sendack_errors = 0;
    elapsed_ms = pos 0;
    last_message_id = pos 7;
  };
  pending = [];
  attempts = 2;
  successes = 2;
  failures = 0;
}

sent : loop 2 1 events start ≡ some (ok last)
unfolding loop
sent = refl

loop-IsDone_example : IsDone 2 (weights events) (deliveries 2 1 events start) last
loop-IsDone_example = loop-IsDone 2 1 events last (omega arith) sent

loop-ends_example :
    (events : List (Event Text)) × (t : State) × (loop 2 1 events start ≡ some (ok t))
loop-ends_example = loop-ends 2 1 start (omega arith) (omega arith) (start-IsSending 2 1)

turn-Turns_example : Turns {E = Text} 2 1 due start (turn 2 1 due start)
turn-Turns_example = turn-Turns 2 1 due start (omega arith) (start-IsSending 2 1)

abbrev target : SendTarget
target = record { channel_id = text "g"; channel_type = 1; sender_uids = text "u" ∷ text "v" ∷ [] }

pick-send_over_example :
    (t : SendTarget) × (uid : Text) × (pick (target ∷ []) (text "round_robin") 3 ≡ send_over t uid)
    × (get_elem? (target ∷ []) (3 % length (target ∷ [])) ≡ some t)
    × (get_elem? t.sender_uids
          (sender_place (text "round_robin") (3 / length (target ∷ [])) (length t.sender_uids))
        ≡ some uid)
pick-send_over_example =
    pick-send_over (target ∷ []) (text "round_robin") 3 (omega arith) (omega arith, tt)

-- A message library whose frames are their own bytes
abbrev encode : List ℕ → Result Text (List ℕ)
encode bytes = ok bytes

write_frame-read_frame_example :
    (bytes : List ℕ) × (write_frame encode encode append (1 ∷ 2 ∷ []) (9 ∷ [])
      ≡ ok ((9 ∷ []) ++ bytes))
    × (read_frame encode encode (pos 16) (bytes ++ 8 ∷ []) ≡ ok (1 ∷ 2 ∷ [], 8 ∷ []))
write_frame-read_frame_example =
    write_frame-read_frame encode encode (1 ∷ 2 ∷ []) (1 ∷ 2 ∷ []) (9 ∷ []) (8 ∷ []) 16 refl refl
      (omega arith) (omega arith)

abbrev scenario : Scenario (Value ℕ) (Fields ℕ)
scenario = record {
  version = text "wkbench/v2";
  run = record { id = text "r"; duration = pos 0; seed = pos 0; report_dir = [] };
  vars = (text "n", scalar 5) ∷ [];
  units =
      (
        text "a",
        record {
          use_kind = text "k";
          inputs = [];
          after = [];
          spec = some (field (text "count") (str (text "${n}")) end);
        },
      )
      ∷ [];
}

parse-is_ok_example :
    (is_ok (parse scenario) ≡ true) ↔ AllNamed scenario.vars (spec_texts scenario.units)
parse-is_ok_example = parse-is_ok scenario

abbrev pool_spec : Pool.Spec
pool_spec = record {
  total = pos 2;
  uid_prefix = text "u";
  device_prefix = text " ";
  token_prefix = text "t";
}

pool_decoded : Pool.decode_spec {E = Text} (λ spec. ok pool_spec) ≡ ok (Pool.normalize pool_spec)
unfolding Pool.decode_spec
pool_decoded = refl

pool_valid : Pool.validate {E = Text} (λ spec. ok pool_spec) ≡ ok tt
unfolding Pool.validate
pool_valid = refl

run-IsPool_example :
    (items : List Identity) × (Pool.run {E = Text} (λ spec. ok pool_spec) 100 ≡ ok items)
    × Pool.IsPool (Pool.normalize pool_spec) items
run-IsPool_example =
    Pool.run-IsPool {E = Text} (λ spec. ok pool_spec) 100 (Pool.normalize pool_spec) pool_decoded
      pool_valid (omega arith)

abbrev group_spec : Groups.Spec
group_spec = record {
  count = pos 2;
  members_per_channel = pos 3;
  channel_prefix = text "g";
  uid_prefix = text "u";
}

groups_valid : Groups.validate {E = Text} (λ spec. ok group_spec) ≡ ok tt
unfolding Groups.validate
groups_valid = refl

run-IsGroupSet_example :
    (spec : Groups.Spec) × (groups : List GroupChannel) × (Groups.decode_spec {E = Text}
        (λ spec. ok group_spec)
      ≡ ok spec)
    × (Groups.run {E = Text} (λ spec. ok group_spec) ≡ ok groups)
    × Groups.IsGroupSet spec groups
run-IsGroupSet_example = Groups.run-IsGroupSet {E = Text} (λ spec. ok group_spec) groups_valid

abbrev pair_spec : Pairs.Spec
pair_spec = record { count = pos 3; mode = text "ring"; bidirectional = true }

abbrev pool : List Identity
pool =
    record { uid = text "u"; device_id = text "d"; token = [] }
    ∷ record { uid = text "uv"; device_id = text "e"; token = [] }
    ∷ []

-- What is found in the pool under a user id
uid_at : ℕ → Text
uid_at zero = text "u"
uid_at (suc i) = text "uv"

u≢v : text "u" ≢ text "uv"
u≢v = λ e. absurd (cc)

pool-uid : (i : ℕ) (x : Identity) → get_elem? pool i ≡ some x → (x.uid ≡ uid_at i) × (i < 2)
unfolding uid_at
pool-uid zero x p = (cc, omega arith)
pool-uid (suc zero) x p = (cc, omega arith)
pool-uid (suc (suc i)) x p = absurd (cc)

uid_at-injective : (i j : ℕ) → i < 2 → j < 2 → uid_at i ≡ uid_at j → i ≡ j
unfolding uid_at
uid_at-injective zero zero l k e = refl
uid_at-injective zero (suc j) l k e = absurd (u≢v e)
uid_at-injective (suc i) zero l k e = absurd (u≢v (sym e))
uid_at-injective (suc i) (suc j) l k e = omega arith

pool-IsDistinct : Ring.IsDistinct pool
unfolding Ring.IsDistinct
pool-IsDistinct i j x y p q e =
    let (xs, l) = pool-uid i x p in
    let (ys, k) = pool-uid j y q in uid_at-injective i j l k (sym xs ∙ e ∙ ys)

pairs_decoded : Pairs.decode_spec {E = Text} (λ spec. ok pair_spec) ≡ ok pair_spec
unfolding Pairs.decode_spec text_eq trim_space
pairs_decoded = refl

pairs_valid : Pairs.validate {E = Text} (λ spec. ok pair_spec) ≡ ok tt
unfolding Pairs.validate text_eq trim_space
pairs_valid = refl

run-IsPairing_example :
    (targets : List SendTarget) × (Pairs.run {E = Text} (λ spec. ok pair_spec) 100 pool
      ≡ ok targets)
    × Ring.IsPairing pair_spec pool targets
run-IsPairing_example =
    Ring.run-IsPairing {E = Text} (λ spec. ok pair_spec) 100 pool pair_spec (omega arith)
      pool-IsDistinct pairs_decoded pairs_valid (omega arith) (omega arith)
