-- ===== src/Plugin/Inputs.antt =====
-- The inputs of a remote unit: collectInputs of remote_unit.go,
-- encodeInputPortValues of stdio_client.go, and decodeInputValues of server.go. `Any` is the type of the
-- values; `encode` and `decode` are json.Marshal and json.Unmarshal. Go goes over the inputs in no fixed
-- order, so it may return the error of any of them; here it is the first one's.
pub mod Crossing
pub mod Decoding
use wkbench.Base.{
  ℕ, ℤ, pos, exceeds, ltb, ◌==◌, Bool, true, false, not, ◌&&◌, ◌||◌, Option, none, some, List, [],
  ◌∷◌, Result, ok, err, ◌>>=◌, Text, text, text_eq, contains, length, Dict, lookup, insert,
  if◌then◌else◌,
}
use wkbench.Contract.{PortMeta, PortDef, metadata, port_boundary_data, port_transport_inline}
use wkbench.Kernel.Outputs.{ports_by_name}
use wkbench.Plugin.Messages.{PortValue}

pub data EncodeError (E : Type 0) : Type 0 where
  no_definition : Text → EncodeError E
  boundary_cannot_cross transport_not_supported port_is_sensitive no_json_encoding :
      Text → EncodeError E
  not_encoded not_decoded : Text → E → EncodeError E
  payload_too_large : Text → EncodeError E
  type_mismatch : Text → EncodeError E

abbrev pub json : Text
json = text "json"

-- validatePhase1InputPort, without the role
unfoldable pub check_port : {E : Type 0} → Text → PortMeta → Result {0, 0} (EncodeError E) Unit
check_port name meta =
    if not (text_eq meta.boundary port_boundary_data)
    then err (boundary_cannot_cross name)
    else if not (text_eq meta.transport port_transport_inline)
    then err (transport_not_supported name)
    else if meta.sensitive
    then err (port_is_sensitive name)
    else if not (length meta.encodings == 0) && not (contains json meta.encodings)
    then err (no_json_encoding name)
    else ok tt

check_size : {E : Type 0} → Text → ℕ → PortMeta → Result {0, 0} (EncodeError E) Unit
check_size name size meta =
    if exceeds size meta.max_payload_bytes then err (payload_too_large name) else ok tt

-- The checks against the definition of the output that feeds the input, if it is known
check_source :
    {E : Type 0} → Text → PortDef → ℕ → Option PortDef → Result {0, 0} (EncodeError E) Unit
unfolding check_port check_size metadata
check_source name def size none = ok tt
check_source name def size (some source) =
    if not (text_eq source.type def.type)
    then err (type_mismatch name)
    else check_port source.name (metadata source) >>= λ _. check_size name size (metadata source)

encoded : {E : Type 0} → Text → Result E (List ℕ) → Result (EncodeError E) (List ℕ)
encoded name (err e) = err (not_encoded name e)
encoded name (ok bytes) = ok bytes

module _ {Any E : Type 0} (encode : Any → Result E (List ℕ)) where
  encode_defined : Option PortDef → Option PortDef → Text → Any → Result (EncodeError E) PortValue
  unfolding check_source encoded
  encode_defined none source name value = err (no_definition name)
  encode_defined (some def) source name value = check_port def.name (metadata def) >>= λ _.
      encoded name (encode value) >>= λ payload.
      check_size name (length payload) (metadata def) >>= λ _.
      check_source name def (length payload) source >>= λ _. ok (record {
        type = def.type;
        encoding = json;
        transport = (metadata def).transport;
        sensitive = (metadata def).sensitive;
        reportable = false;
        payload = payload;
        report_payload = [];
      })

  encode_each : Dict PortDef → Dict PortDef → Dict Any → Result (EncodeError E) (Dict PortValue)
  unfolding encode_defined
  encode_each defs sources [] = ok []
  encode_each defs sources ((name, value) ∷ inputs) =
      encode_defined (lookup name defs) (lookup name sources) name value >>= λ v.
      encode_each defs sources inputs >>= λ vs. ok ((name, v) ∷ vs)

  -- encodeInputPortValues
  unfoldable pub encode_inputs :
      List PortDef → Dict PortDef → Dict Any → Result (EncodeError E) (Dict PortValue)
  unfolding encode_each
  encode_inputs defs sources inputs = encode_each (ports_by_name defs []) sources inputs

module _ {Any E : Type 0} (nil : Any) (decode : List ℕ → Result E Any) where
  decoded : Text → Result E Any → Result (EncodeError E) Any
  decoded name (err e) = err (not_decoded name e)
  decoded name (ok value) = ok value

  decode_value : Text → Option PortValue → Result (EncodeError E) Any
  unfolding decoded
  decode_value name none = ok nil
  decode_value name (some v) =
      if length v.payload == 0 then ok nil else decoded name (decode v.payload)

  -- decodeInputValues
  unfoldable pub decode_inputs : Dict (Option PortValue) → Result (EncodeError E) (Dict Any)
  unfolding decode_value
  decode_inputs [] = ok []
  decode_inputs ((name, v) ∷ values) = decode_value name v >>= λ value.
      decode_inputs values >>= λ inputs. ok ((name, value) ∷ inputs)

module _ {Any E : Type 0} (input : Text → Result E Any) where
  collected : Bool → Text → Result E Any → Result E (Dict Any) → Result E (Dict Any)
  collected optional name (ok value) rest = rest >>= λ inputs. ok (insert name value inputs)
  collected true name (err e) rest = rest
  collected false name (err e) rest = err e

  -- collectInputs, with the inputs that come last in the definitions first in the map; `input` is
  -- env.Input, which reads only
  unfoldable pub collect_inputs : List PortDef → Result E (Dict Any)
  unfolding collected
  collect_inputs [] = ok []
  collect_inputs (def ∷ defs) =
      collected def.optional def.name (input def.name) (collect_inputs defs)
