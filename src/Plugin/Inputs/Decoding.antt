-- ===== src/Plugin/Inputs/Decoding.antt =====
-- The inputs that a plugin decodes are those the host encoded.
use wkbench.Base.{ℕ, ◌==◌, false, Option, some, List, [], ◌∷◌, Result, ok, length, Dict, ◌≡◌, refl}
use wkbench.Contract.{PortDef}
use wkbench.Kernel.Outputs.{ports_by_name}
use wkbench.Plugin.Messages.{PortValue}
use wkbench.Plugin.Inputs.{encode_inputs, decoded, decode_value, decode_inputs}
use wkbench.Plugin.Inputs.Crossing.{AllCrossed, none_left, one_more, encode_inputs-AllCrossed}

-- The map as the frame carries it: a pointer to each value.
abbrev pub sent : Dict PortValue → Dict (Option PortValue)
sent [] = []
sent ((name, v) ∷ values) = (name, some v) ∷ sent values

module _ {Any E : Type 0} (nil : Any) (encode : Any → Result E (List ℕ))
    (decode : List ℕ → Result E Any) (canonical : Any → Any)
    (decode-encode : (value : Any) (bytes : List ℕ)
      → encode value ≡ ok bytes
      → ((length bytes == 0) ≡ false) × (decode bytes ≡ ok (canonical value))) where
  abbrev pub read_again : Dict Any → Dict Any
  read_again [] = []
  read_again ((name, value) ∷ inputs) = (name, canonical value) ∷ read_again inputs

  decode-AllCrossed :
      (defs sources : Dict PortDef) (inputs : Dict Any) (values : Dict PortValue)
      → AllCrossed encode defs sources inputs values
      → decode_inputs nil decode (sent values) ≡ ok (read_again inputs)
  unfolding decode_inputs decode_value decoded
  decode-AllCrossed defs sources [] [] none_left = refl
  decode-AllCrossed defs sources [] (v ∷ values) crossed = elim crossed [ ]
  decode-AllCrossed defs sources (i ∷ inputs) [] crossed = elim crossed [ ]
  decode-AllCrossed defs sources ((name, value) ∷ inputs) ((k, v) ∷ values)
        (one_more found crossed enc rest) =
      let (full, back) = decode-encode value v.payload enc in
      rw (full, back, decode-AllCrossed defs sources inputs values rest) refl

  -- If decoding a JSON text that a value was encoded as gives the value in its JSON form, then
  -- what decodeInputValues makes of the inputs that encodeInputPortValues accepted is the same
  -- names, each with its value in its JSON form.
  pub decode_inputs-encode_inputs :
      (defs : List PortDef) (sources : Dict PortDef) (inputs : Dict Any) (values : Dict PortValue)
      → encode_inputs encode defs sources inputs ≡ ok values
      → decode_inputs nil decode (sent values) ≡ ok (read_again inputs)
  decode_inputs-encode_inputs defs sources inputs values e =
      decode-AllCrossed (ports_by_name defs []) sources inputs values
        (encode_inputs-AllCrossed encode defs sources inputs values e)
