-- ===== src/Contract.antt =====
-- benchkit/contract/types.go: the static contract of a unit, its ports, metrics and artifacts.
pub mod TestEnv
use wkbench.Base.{ℤ, pos, is_zero, Bool, List, Text, text, text_eq, if◌then◌else◌}

pub record PortMeta : Type 0 where
  pub boundary : Text  -- PortBoundary, a string
  pub transport : Text  -- PortTransport, a string
  pub schema : Text
  pub encodings : List Text
  pub max_payload_bytes : ℤ  -- int64
  pub sensitive : Bool
  pub reportable : Bool
  pub operations : List Text

abbrev pub port_boundary_data : Text
port_boundary_data = text "data"

abbrev pub port_transport_inline : Text
port_transport_inline = text "inline"

abbrev pub default_inline_port_max_payload_bytes : ℤ
default_inline_port_max_payload_bytes = pos 1_048_576

pub record PortDef : Type 0 where
  pub name : Text
  pub type : Text  -- PortType, a string
  pub optional : Bool
  pub meta : PortMeta

-- PortDef.Metadata
unfoldable pub metadata : PortDef → PortMeta
metadata p =
    let meta = p.meta in
    record meta {
      boundary = if text_eq meta.boundary (text "") then port_boundary_data else meta.boundary;
      transport =
          if text_eq meta.transport (text "") then port_transport_inline else meta.transport;
      max_payload_bytes =
          if is_zero meta.max_payload_bytes
          then default_inline_port_max_payload_bytes
          else meta.max_payload_bytes;
    }

pub record MetricDef : Type 0 where
  pub name : Text
  pub type : Text

pub record ArtifactDef : Type 0 where
  pub name : Text
  pub content_type : Text

pub record Definition : Type 0 where
  pub kind : Text
  pub title : Text
  pub description : Text
  pub inputs : List PortDef
  pub outputs : List PortDef
  pub metrics : List MetricDef
  pub artifacts : List ArtifactDef
