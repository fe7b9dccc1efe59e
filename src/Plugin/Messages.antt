-- ===== src/Plugin/Messages.antt =====
-- benchkit/protocol/wkbench_plugin.proto: the messages, as far as the two sides read them. A message
-- field is a pointer, `none` where it is nil, and reading a field of nil gives the zero value.
use wkbench.Base.{ℕ, ℤ, pos, Bool, false, Option, none, some, List, [], Text}

pub record PortMetaMessage : Type 0 where
  pub boundary : Text
  pub transport : Text
  pub schema : Text
  pub encodings : List Text
  pub max_payload_bytes : ℤ  -- int64
  pub sensitive : Bool
  pub reportable : Bool
  pub operations : List Text

pub record PortDefMessage : Type 0 where
  pub name : Text
  pub type : Text
  pub optional : Bool
  pub meta : Option PortMetaMessage

pub record MetricDefMessage : Type 0 where
  pub name : Text
  pub type : Text

pub record ArtifactDefMessage : Type 0 where
  pub name : Text
  pub content_type : Text

pub record UnitMessage : Type 0 where
  pub kind : Text
  pub title : Text
  pub description : Text
  pub inputs : List (Option PortDefMessage)
  pub outputs : List (Option PortDefMessage)
  pub metrics : List (Option MetricDefMessage)
  pub artifacts : List (Option ArtifactDefMessage)
  pub background : Bool

pub record ManifestMessage : Type 0 where
  pub name : Text
  pub version : Text
  pub protocol : Text
  pub source : Text
  pub checksum : Text
  pub units : List (Option UnitMessage)

-- Payloads are bytes.
pub record PortValue : Type 0 where
  pub type : Text
  pub encoding : Text
  pub transport : Text
  pub sensitive : Bool
  pub reportable : Bool
  pub payload : List ℕ
  pub report_payload : List ℕ

pub record ErrorMessage : Type 0 where
  pub code : Text
  pub message : Text

abbrev pub zero_meta : PortMetaMessage
zero_meta = record {
  boundary = [];
  transport = [];
  schema = [];
  encodings = [];
  max_payload_bytes = pos 0;
  sensitive = false;
  reportable = false;
  operations = [];
}

-- The getters of a nil PortMeta
abbrev pub meta_or_zero : Option PortMetaMessage → PortMetaMessage
meta_or_zero none = zero_meta
meta_or_zero (some meta) = meta
