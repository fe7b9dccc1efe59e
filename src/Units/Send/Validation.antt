-- ===== src/Units/Send/Validation.antt =====
-- The spec of traffic.send: decodeSpec, Validate, and the defaults of Run. `R` is the type of rates,
-- which are floats.
use wkbench.Base.{
  ℤ, pos, is_nonpositive, is_negative, Bool, ◌||◌, not, [], Result, ok, err, ◌>>=◌, Text, text,
  text_eq, trim_space, if◌then◌else◌,
}

pub record Spec (R : Type 0) : Type 0 where
  pub rate : R
  pub payload_size : ℤ
  pub sender_pick : Text
  pub max_in_flight : ℤ
  pub ack_timeout : ℤ  -- nanoseconds

pub data SpecError (E : Type 0) : Type 0 where
  not_decoded : E → SpecError E
  rate_not_positive payload_size_negative max_in_flight_negative : SpecError E
  unsupported_sender_pick : Text → SpecError E

-- `if ackTimeout <= 0 { ackTimeout = defaultAckTimeout }`
unfoldable pub ack_timeout_of : {R : Type 0} → Spec R → ℤ
ack_timeout_of spec =
    if is_nonpositive spec.ack_timeout then pos 5_000_000_000 else spec.ack_timeout

-- The cases of the switch that are accepted
abbrev is_sender_pick : Text → Bool
is_sender_pick s = text_eq s [] || text_eq s (text "first_online") || text_eq s (text "round_robin")

module _ {E R : Type 0} (is_positive : R → Bool) (decoded : Result E (Spec R)) where
  -- decodeSpec; `decoded` is what env.DecodeSpec makes of the zero Spec
  unfoldable pub decode_spec : Result (SpecError E) (Spec R)
  decode_spec = elim decoded [
    | ok spec ↦ ok (record spec { sender_pick = trim_space spec.sender_pick })
    | err e ↦ err (not_decoded e)
  ]

  check_spec : Spec R → Result {0, 0} (SpecError E) Unit
  check_spec spec =
      if not (is_positive spec.rate)
      then err rate_not_positive
      else if is_negative spec.payload_size
      then err payload_size_negative
      else if is_negative spec.max_in_flight
      then err max_in_flight_negative
      else if is_sender_pick spec.sender_pick
      then ok tt
      else err (unsupported_sender_pick spec.sender_pick)

  -- Validate
  unfoldable pub validate : Result {0, 0} (SpecError E) Unit
  unfolding decode_spec check_spec
  validate = decode_spec >>= check_spec
