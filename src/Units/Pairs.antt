-- ===== src/Units/Pairs.antt =====
-- units/identity/person_pairs: person-channel send targets, paired in a ring over an identity pool.
pub mod Ring
use wkbench.Base.{
  ℕ, ℤ, pos, negsuc, is_nonpositive, ◌≤◌, not, ◌||◌, ◌&&◌, ◌-◌, ◌^◌, natural, zero, suc, ◌+◌, ◌*◌,
  ◌%◌, ◌<◌, ltb, Bool, true, false, Option, none, some, List, [], ◌∷◌, Result, ok, err, ◌>>=◌, Text,
  text, text_eq, trim_space, length, get_elem?, if◌then◌else◌, ◌≡◌, ◌≢◌, refl, ap, sym, ◌∙◌, All,
  length-append, arith, Bool-cases, inl, inr, ◌++◌,
}
use native.Mathlib.Nat.{mod-lt, mod-eq_of_lt, mod_self, suc-mod}
use wkbench.Units.Ports.{
  Identity, SendTarget, or_default, UnitError, decode_failed, not_positive, mode_is_not_ring,
  too_few_identities, makeslice_panics, can_make, no_item_panics,
}

pub record Spec : Type 0 where
  pub count : ℤ
  pub mode : Text
  pub bidirectional : Bool

abbrev pub mode_ring : Text
mode_ring = text "ring"

abbrev pub person_channel_type : ℕ
person_channel_type = 1

unfoldable pub person_target : Text → Text → SendTarget
person_target sender_uid recipient_uid = record {
  channel_id = recipient_uid;
  channel_type = person_channel_type;
  sender_uids = sender_uid ∷ [];
}

-- The targets of one round of the loop of Run
unfoldable pub pair : Bool → Identity → Identity → List SendTarget
unfolding person_target
pair true sender recipient =
    person_target sender.uid recipient.uid ∷ person_target recipient.uid sender.uid ∷ []
pair false sender recipient = person_target sender.uid recipient.uid ∷ []

-- PoolData.At on both identities of a round
both : Option Identity → Option Identity → Option (Identity × Identity)
both (some sender) (some recipient) = some (sender, recipient)
both _ _ = none

round : List Identity → ℕ → Option (Identity × Identity)
unfolding both
round pool i = both (get_elem? pool (i % length pool)) (get_elem? pool ((i + 1) % length pool))

extend : Bool → Option (Identity × Identity) → Option (List SendTarget) → Option (List SendTarget)
unfolding pair
extend bidirectional (some (sender, recipient)) (some targets) =
    some (pair bidirectional sender recipient ++ targets)
extend bidirectional _ _ = none

-- The loop of Run from index `i` on, with `n` rounds left; an index out of range ends it
unfoldable pub targets_from : List Identity → Bool → ℕ → ℕ → Option (List SendTarget)
unfolding extend round
targets_from pool bidirectional i zero = some []
targets_from pool bidirectional i (suc n) =
    extend bidirectional (round pool i) (targets_from pool bidirectional (suc i) n)

-- spec.Count*2 on 64-bit integers
doubled : ℤ → ℤ
doubled (negsuc n) = negsuc (n * 2 + 1)
doubled (pos n) =
    let bits = n * 2 % 2 ^ 64 in if ltb bits (2 ^ 63) then pos bits else negsuc (2 ^ 64 - bits - 1)

module _ {E : Type 0} (decode : Spec → Result E Spec) where
  -- decodeSpec; `decode` is env.DecodeSpec
  unfoldable pub decode_spec : Result (UnitError E) Spec
  decode_spec = elim (decode (record { count = pos 0; mode = []; bidirectional = false })) [
    | ok spec ↦ ok (record spec { mode = or_default (trim_space spec.mode) mode_ring })
    | err e ↦ err (decode_failed e)
  ]

  check_spec : Spec → Result {0, 0} (UnitError E) Unit
  check_spec spec =
      if is_nonpositive spec.count
      then err (not_positive (text "count"))
      else if text_eq spec.mode mode_ring
      then ok tt
      else err mode_is_not_ring

  -- Validate
  unfoldable pub validate : Result {0, 0} (UnitError E) Unit
  unfolding decode_spec check_spec
  validate = decode_spec >>= check_spec

  output : Option (List SendTarget) → Result (UnitError E) (List SendTarget)
  output none = err no_item_panics
  output (some targets) = ok targets

  -- The two calls of make; `max_cap` is the largest capacity that the runtime's make allows for the
  -- element type.
  makes : ℕ → Spec → Bool
  unfolding can_make doubled
  makes max_cap spec =
      can_make max_cap spec.count
      && (not spec.bidirectional || can_make max_cap (doubled spec.count))

  make_targets : ℕ → List Identity → Spec → Result (UnitError E) (List SendTarget)
  unfolding targets_from output makes
  make_targets max_cap pool spec =
      if ltb (length pool) 2
      then err too_few_identities
      else if makes max_cap spec
      then output (targets_from pool spec.bidirectional 0 (natural spec.count))
      else err makeslice_panics

  -- Run on the input `identities`, with the value of the output `targets`
  unfoldable pub run : ℕ → List Identity → Result (UnitError E) (List SendTarget)
  unfolding decode_spec make_targets
  run max_cap pool = decode_spec >>= make_targets max_cap pool
