-- ===== src/Plugin/Manifest.antt =====
-- pluginhost/manifest.go, and the manifest on its way from the plugin (ManifestFromUnits and
-- manifestToProto of server.go) to the host (pluginFromProto of stdio_client.go). Cloning a slice is
-- the identity here.
pub mod Handshake
use wkbench.Base.{
  Bool, Option, none, some, List, [], ◌∷◌, map, Text, text, pos, false, ◌≡◌, refl, ap, sym, ◌∙◌,
}
use wkbench.Contract.{PortMeta, PortDef, MetricDef, ArtifactDef, Definition}
use wkbench.Plugin.Messages.{
  PortMetaMessage, PortDefMessage, MetricDefMessage, ArtifactDefMessage, UnitMessage,
  ManifestMessage, meta_or_zero,
}

-- Unit of manifest.go
pub record PluginUnit : Type 0 where
  pub plugin_name : Text
  pub kind : Text
  pub title : Text
  pub description : Text
  pub inputs : List PortDef
  pub outputs : List PortDef
  pub metrics : List MetricDef
  pub artifacts : List ArtifactDef
  pub background : Bool

-- Plugin of manifest.go
pub record PluginManifest : Type 0 where
  pub name : Text
  pub version : Text
  pub protocol : Text
  pub source : Text
  pub checksum : Text
  pub units : List PluginUnit

-- Unit.Definition
unfoldable pub unit_definition : PluginUnit → Definition
unit_definition u = record {
  kind = u.kind;
  title = u.title;
  description = u.description;
  inputs = u.inputs;
  outputs = u.outputs;
  metrics = u.metrics;
  artifacts = u.artifacts;
}

abbrev pub protocol_version : Text
protocol_version = text "wkbench.plugin/v1"

-- One round of the loop of ManifestFromUnits
unfoldable pub unit_of : Definition → Bool → PluginUnit
unit_of def background = record {
  plugin_name = [];
  kind = def.kind;
  title = def.title;
  description = def.description;
  inputs = def.inputs;
  outputs = def.outputs;
  metrics = def.metrics;
  artifacts = def.artifacts;
  background = background;
}

-- ManifestFromUnits; `is_background` is the type test for BackgroundUnit
unfoldable pub manifest_from_units :
    {U : Type 0} → (U → Definition) → (U → Bool) → Text → Text → List U → PluginManifest
unfolding unit_of
manifest_from_units definition is_background name version units = record {
  name = name;
  version = version;
  protocol = protocol_version;
  source = [];
  checksum = [];
  units = map (λ unit. unit_of (definition unit) (is_background unit)) units;
}

unfoldable pub port_to_proto : PortDef → Option PortDefMessage
port_to_proto port =
    let meta = port.meta in
    some (record {
      name = port.name;
      type = port.type;
      optional = port.optional;
      meta = some (record {
        boundary = meta.boundary;
        transport = meta.transport;
        schema = meta.schema;
        encodings = meta.encodings;
        max_payload_bytes = meta.max_payload_bytes;
        sensitive = meta.sensitive;
        reportable = meta.reportable;
        operations = meta.operations;
      });
    })

unfoldable pub metric_to_proto : MetricDef → Option MetricDefMessage
metric_to_proto metric = some (record { name = metric.name; type = metric.type })

unfoldable pub artifact_to_proto : ArtifactDef → Option ArtifactDefMessage
artifact_to_proto artifact =
    some (record { name = artifact.name; content_type = artifact.content_type })

unfoldable pub unit_to_proto : PluginUnit → Option UnitMessage
unfolding port_to_proto metric_to_proto artifact_to_proto
unit_to_proto unit = some (record {
  kind = unit.kind;
  title = unit.title;
  description = unit.description;
  inputs = map port_to_proto unit.inputs;
  outputs = map port_to_proto unit.outputs;
  metrics = map metric_to_proto unit.metrics;
  artifacts = map artifact_to_proto unit.artifacts;
  background = unit.background;
})

unfoldable pub manifest_to_proto : PluginManifest → ManifestMessage
unfolding unit_to_proto
manifest_to_proto manifest = record {
  name = manifest.name;
  version = manifest.version;
  protocol = manifest.protocol;
  source = manifest.source;
  checksum = manifest.checksum;
  units = map unit_to_proto manifest.units;
}

meta_from_proto : PortMetaMessage → PortMeta
meta_from_proto meta = record {
  boundary = meta.boundary;
  transport = meta.transport;
  schema = meta.schema;
  encodings = meta.encodings;
  max_payload_bytes = meta.max_payload_bytes;
  sensitive = meta.sensitive;
  reportable = meta.reportable;
  operations = meta.operations;
}

unfoldable pub port_from_proto : Option PortDefMessage → PortDef
unfolding meta_from_proto
port_from_proto none = record {
  name = [];
  type = [];
  optional = false;
  meta = meta_from_proto (meta_or_zero none);
}
port_from_proto (some port) = record {
  name = port.name;
  type = port.type;
  optional = port.optional;
  meta = meta_from_proto (meta_or_zero port.meta);
}

unfoldable pub metric_from_proto : Option MetricDefMessage → MetricDef
metric_from_proto none = record { name = []; type = [] }
metric_from_proto (some metric) = record { name = metric.name; type = metric.type }

unfoldable pub artifact_from_proto : Option ArtifactDefMessage → ArtifactDef
artifact_from_proto none = record { name = []; content_type = [] }
artifact_from_proto (some artifact) = record {
  name = artifact.name;
  content_type = artifact.content_type;
}

unfoldable pub unit_from_proto : Text → Option UnitMessage → PluginUnit
unfolding port_from_proto metric_from_proto artifact_from_proto
unit_from_proto plugin_name none = record {
  plugin_name = plugin_name;
  kind = [];
  title = [];
  description = [];
  inputs = [];
  outputs = [];
  metrics = [];
  artifacts = [];
  background = false;
}
unit_from_proto plugin_name (some unit) = record {
  plugin_name = plugin_name;
  kind = unit.kind;
  title = unit.title;
  description = unit.description;
  inputs = map port_from_proto unit.inputs;
  outputs = map port_from_proto unit.outputs;
  metrics = map metric_from_proto unit.metrics;
  artifacts = map artifact_from_proto unit.artifacts;
  background = unit.background;
}

unfoldable pub plugin_from_proto : Option ManifestMessage → PluginManifest
unfolding unit_from_proto
plugin_from_proto none = record {
  name = [];
  version = [];
  protocol = [];
  source = [];
  checksum = [];
  units = [];
}
plugin_from_proto (some manifest) = record {
  name = manifest.name;
  version = manifest.version;
  protocol = manifest.protocol;
  source = manifest.source;
  checksum = manifest.checksum;
  units = map (unit_from_proto manifest.name) manifest.units;
}
