-- ===== src/Units/Ports.antt =====
-- benchkit/ports: the data that units exchange, and what reading it gives; and the errors that the
-- units share.
use wkbench.Base.{
  leb, pos, negsuc, ℕ, ℤ, Bool, false, not, List, [], ◌∷◌, Text, text_eq, if◌then◌else◌,
}

pub record Identity : Type 0 where
  pub uid : Text
  pub device_id : Text
  pub token : Text

pub record SendTarget : Type 0 where
  pub channel_id : Text
  pub channel_type : ℕ  -- uint8
  pub sender_uids : List Text

pub record GroupChannel : Type 0 where
  pub channel_id : Text
  pub members : List Text

pub record SendAck : Type 0 where
  pub message_id : ℤ  -- int64
  pub message_seq : ℕ  -- uint64
  pub wire_latency : ℤ  -- nanoseconds

pub record Summary : Type 0 where
  pub sendack_ok : ℕ  -- uint64
  pub sendack_errors : ℕ  -- uint64
  pub elapsed_ms : ℤ
  pub last_message_id : ℤ

-- PoolData.TokenFor, on the items
unfoldable pub token_for : List Identity → Text → Text × Bool
token_for [] uid = ([], false)
token_for (item ∷ items) uid =
    if text_eq item.uid uid then (item.token, not (text_eq item.token [])) else token_for items uid

-- `if s == "" { s = otherwise }`
abbrev pub or_default : Text → Text → Text
or_default s otherwise = if text_eq s [] then otherwise else s

-- The errors of a unit's Validate and Run; `E` are those of DecodeSpec. `makeslice_panics` is the
-- panic of `make` with a capacity out of range, `no_item_panics` the one of an index out of range.
pub data UnitError (E : Type 0) : Type 0 where
  decode_failed : E → UnitError E
  not_positive : Text → UnitError E
  mode_is_not_ring : UnitError E
  too_few_identities : UnitError E
  makeslice_panics : UnitError E
  no_item_panics : UnitError E

-- Whether make takes a capacity; `max_cap` is the largest that the runtime allows.
unfoldable pub can_make : ℕ → ℤ → Bool
can_make max_cap (pos n) = leb n max_cap
can_make max_cap (negsuc n) = false
