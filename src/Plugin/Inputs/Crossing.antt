-- ===== src/Plugin/Inputs/Crossing.antt =====
-- What crosses to a plugin as an input, and what the plugin reads of it.
use wkbench.Base.{
  ◌⊎◌, contains, ◌||◌, ◌==◌, ℕ, exceeds, true, false, Option, none, some, List, [], ◌∷◌, Result, ok,
  err, >>=-eq-ok, Text, text_eq, text_eq_iff, length, Dict, lookup, ◌≡◌, refl, subst, arith,
  Bool-cases, Option-cases, inl, inr, ok-injective, err≢ok,
}
use wkbench.Contract.{PortMeta, PortDef, metadata, port_boundary_data, port_transport_inline}
use wkbench.Kernel.Outputs.{ports_by_name}
use wkbench.Plugin.Messages.{PortValue}
use wkbench.Plugin.Inputs.{
  json, check_port, check_size, check_source, encoded, encode_defined, encode_each, encode_inputs,
}

-- A port whose values may cross, in that many bytes.
pub record IsOpen (meta : PortMeta) (size : ℕ) : Type 0 where
  pub boundary : meta.boundary ≡ port_boundary_data
  pub transport : meta.transport ≡ port_transport_inline
  pub not_sensitive : meta.sensitive ≡ false
  pub json_allowed : (length meta.encodings ≡ 0) ⊎ (contains json meta.encodings ≡ true)
  pub fits : exceeds size meta.max_payload_bytes ≡ false

IsOpen-port :
    {E : Type 0} (name other : Text) (meta : PortMeta) (size : ℕ) (u v : Unit)
    → check_port {E = E} name meta ≡ ok u
    → check_size {E = E} other size meta ≡ ok v
    → IsOpen meta size
unfolding check_port check_size
IsOpen-port name other meta size u v e f =
    let parts : (text_eq meta.boundary port_boundary_data ≡ true)
        × (text_eq meta.transport port_transport_inline ≡ true)
        × (meta.sensitive ≡ false)
        × ((length meta.encodings == 0 || contains json meta.encodings) ≡ true)
        × (exceeds size meta.max_payload_bytes ≡ false) =
      ground (arith, e, f) in
    record {
      boundary = (text_eq_iff meta.boundary port_boundary_data).0 parts.0;
      transport = (text_eq_iff meta.transport port_transport_inline).0 parts.1;
      not_sensitive = parts.2;
      json_allowed = elim (Bool-cases (length meta.encodings == 0)) [
        | inl empty ↦ inl (ground (arith, empty))
        | inr full ↦ inr (ground (arith, full, parts.3))
      ];
      fits = parts.4;
    }

-- What is known of an input that has crossed.
pub record HasCrossed (def : PortDef) (source : Option PortDef) (v : PortValue) : Type 0 where
  pub consumer : IsOpen (metadata def) (length v.payload)
  pub producer :
      (d : PortDef) → source ≡ some d → (d.type ≡ def.type) × IsOpen (metadata d) (length v.payload)
  pub of_type : v.type ≡ def.type
  pub as_json : v.encoding ≡ json
  pub not_marked : v.sensitive ≡ false

producer-IsOpen :
    {E : Type 0} (name : Text) (def : PortDef) (size : ℕ) (source : Option PortDef) (u : Unit)
    → check_source {E = E} name def size source ≡ ok u
    → (d : PortDef) → source ≡ some d
    → (d.type ≡ def.type) × IsOpen (metadata d) size
unfolding check_source
producer-IsOpen name def size none u e d same = absurd (cc)
producer-IsOpen {E} name def size (some source) u e d same =
    elim (Bool-cases (text_eq source.type def.type)) [
      | inr n ↦ absurd (err≢ok (rw n at e))
      | inl y ↦
          let (v, fit, small) =
            >>=-eq-ok (check_port source.name (metadata source))
              (λ _. check_size name size (metadata source)) (rw y at e) in
          let same' : source ≡ d = cc in
          subst (λ w. (w.type ≡ def.type) × IsOpen (metadata w) size) same'
            (
              (text_eq_iff source.type def.type).0 y,
              IsOpen-port source.name name (metadata source) size v u fit small,
            )
    ]

encoded_ok :
    {E : Type 0} (name : Text) (r : Result E (List ℕ)) (bytes : List ℕ)
    → encoded name r ≡ ok bytes
    → r ≡ ok bytes
unfolding encoded
encoded_ok name (ok b) bytes h = cc
encoded_ok name (err e) bytes h = absurd (cc)

module _ {Any E : Type 0} (encode : Any → Result E (List ℕ)) where
  defined_crossed :
      (def : PortDef) (source : Option PortDef) (name : Text) (value : Any) (v : PortValue)
      → encode_defined encode (some def) source name value ≡ ok v
      → HasCrossed def source v × (encode value ≡ ok v.payload)
  unfolding encode_defined
  defined_crossed def source name value v e =
      let (u, port, e1) = >>=-eq-ok (check_port def.name (metadata def)) _ e in
      let (payload, enc, e2) = >>=-eq-ok (encoded name (encode value)) _ e1 in
      let (w, small, e3) = >>=-eq-ok (check_size name (length payload) (metadata def)) _ e2 in
      let (x, src, e4) = >>=-eq-ok (check_source name def (length payload) source) _ e3 in
      let consumer = IsOpen-port def.name name (metadata def) (length payload) u w port small in
      let enc' : encode value ≡ ok payload = encoded_ok name (encode value) payload enc in
      subst (λ z. HasCrossed def source z × (encode value ≡ ok z.payload)) (ok-injective e4)
        (
          record {
            consumer = consumer;
            producer = producer-IsOpen name def (length payload) source x src;
            of_type = refl;
            as_json = refl;
            not_marked = consumer.not_sensitive;
          },
          enc',
        )

  -- Entry by entry: the same names, each with its definition, and each value crossed.
  pub data AllCrossed (defs sources : Dict PortDef) : Dict Any → Dict PortValue → Type 0 where
    none_left : AllCrossed defs sources [] []
    one_more :
        {name : Text} {value : Any} {v : PortValue} {def : PortDef} {inputs : Dict Any}
        {values : Dict PortValue}
        → lookup name defs ≡ some def
        → HasCrossed def (lookup name sources) v
        → encode value ≡ ok v.payload
        → AllCrossed defs sources inputs values
        → AllCrossed defs sources ((name, value) ∷ inputs) ((name, v) ∷ values)

  each_crossed :
      (defs sources : Dict PortDef) (inputs : Dict Any) (values : Dict PortValue)
      → encode_each encode defs sources inputs ≡ ok values
      → AllCrossed defs sources inputs values
  unfolding encode_each encode_defined
  each_crossed defs sources [] values e =
      subst (AllCrossed defs sources []) (ok-injective e) none_left
  each_crossed defs sources ((name, value) ∷ inputs) values e =
      let (v, one, e1) =
        >>=-eq-ok (encode_defined encode (lookup name defs) (lookup name sources) name value) _ e in
      let (vs, rest, e2) = >>=-eq-ok (encode_each encode defs sources inputs) _ e1 in
      elim (Option-cases (lookup name defs)) [
        | inl n ↦ absurd (err≢ok (rw n at one))
        | inr (def, found) ↦
            let (crossed, enc) =
              defined_crossed def (lookup name sources) name value v (rw found at one) in
            subst (AllCrossed defs sources ((name, value) ∷ inputs)) (ok-injective e2)
              (one_more found crossed enc (each_crossed defs sources inputs vs rest))
      ]

  -- If encodeInputPortValues accepts the inputs, every one of them has a definition, whose port is
  -- open: of boundary data, of transport inline, not sensitive, without a list of encodings or with
  -- JSON in it, and with a maximum that the payload is within. The payload is the JSON of the value
  -- and of the port's type. Where the definition of the output that feeds the input is known, that
  -- port is open in the same way, to the same payload, and of the same type.
  pub encode_inputs-AllCrossed :
      (defs : List PortDef) (sources : Dict PortDef) (inputs : Dict Any) (values : Dict PortValue)
      → encode_inputs encode defs sources inputs ≡ ok values
      → AllCrossed (ports_by_name defs []) sources inputs values
  unfolding encode_inputs
  encode_inputs-AllCrossed defs sources inputs values e =
      each_crossed (ports_by_name defs []) sources inputs values e
