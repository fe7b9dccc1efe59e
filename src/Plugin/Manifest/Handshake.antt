-- ===== src/Plugin/Manifest/Handshake.antt =====
-- What the host gets to know of a plugin by the handshake.
use wkbench.Base.{
  ◌++◌, text, text_eq, false, Bool, some, List, [], ◌∷◌, map, Text, ◌≡◌, refl, ap, ◌∙◌,
}
use wkbench.Contract.{PortDef, MetricDef, ArtifactDef, Definition}
use wkbench.Plugin.Requests.{RemoteUnit, remote_definition}
use wkbench.Plugin.Manifest.{
  PluginUnit, PluginManifest, unit_definition, unit_of, manifest_from_units, port_to_proto,
  metric_to_proto, artifact_to_proto, unit_to_proto, manifest_to_proto, meta_from_proto,
  port_from_proto, metric_from_proto, artifact_from_proto, unit_from_proto, plugin_from_proto,
}

-- Mapping a function and then one that undoes it
map-inverse :
    {A B : Type 0} (f : A → B) (g : B → A)
    → ((a : A) → g (f a) ≡ a)
    → (xs : List A) → map g (map f xs) ≡ xs
map-inverse f g h [] = refl
map-inverse f g h (x ∷ xs) = cc (h x, map-inverse f g h xs)

map-map :
    {A B C : Type 0} (f : A → B) (g : B → C) (k : A → C)
    → ((a : A) → g (f a) ≡ k a)
    → (xs : List A) → map g (map f xs) ≡ map k xs
map-map f g k h [] = refl
map-map f g k h (x ∷ xs) = cc (h x, map-map f g k h xs)

port-inverse : (p : PortDef) → port_from_proto (port_to_proto p) ≡ p
unfolding port_from_proto port_to_proto meta_from_proto
port-inverse p = refl

metric-inverse : (m : MetricDef) → metric_from_proto (metric_to_proto m) ≡ m
unfolding metric_from_proto metric_to_proto
metric-inverse m = refl

artifact-inverse : (a : ArtifactDef) → artifact_from_proto (artifact_to_proto a) ≡ a
unfolding artifact_from_proto artifact_to_proto
artifact-inverse a = refl

-- A unit of the manifest, as the host keeps it
unfoldable pub named_by : Text → PluginUnit → PluginUnit
named_by name u = record u { plugin_name = name }

unit-inverse :
    (name : Text) (u : PluginUnit) → unit_from_proto name (unit_to_proto u) ≡ named_by name u
unfolding unit_from_proto unit_to_proto named_by
unit-inverse name u = cc (
  map-inverse port_to_proto port_from_proto port-inverse u.inputs,
  map-inverse port_to_proto port_from_proto port-inverse u.outputs,
  map-inverse metric_to_proto metric_from_proto metric-inverse u.metrics,
  map-inverse artifact_to_proto artifact_from_proto artifact-inverse u.artifacts,
)

-- The host reads the manifest that the plugin has sent, and names each of its units by the plugin.
pub manifest_to_proto-plugin_from_proto :
    (m : PluginManifest)
    → plugin_from_proto (some (manifest_to_proto m))
      ≡ record m { units = map (named_by m.name) m.units }
unfolding plugin_from_proto manifest_to_proto
manifest_to_proto-plugin_from_proto m =
    ap (λ units. record m { units = units })
      (map-map unit_to_proto (unit_from_proto m.name) (named_by m.name) (unit-inverse m.name)
        m.units)

-- RemoteUnits of a plugin's units, under their own kinds and under the kinds that the host qualifies
-- with the plugin's name
abbrev pub bare : PluginUnit → RemoteUnit
bare u = record { unit = u; alias_kind = [] }

unfoldable pub qualified : Text → PluginUnit → RemoteUnit
qualified name u = record { unit = u; alias_kind = name ++ text ":" ++ u.kind }

-- The units of a plugin as the host has read them
abbrev pub host_units :
    {U : Type 0} → (U → Definition) → (U → Bool) → Text → Text → List U → List PluginUnit
host_units definition is_background name version units =
    (plugin_from_proto (
      some (
        manifest_to_proto (manifest_from_units definition is_background name version units)))).units

host_units-named :
    {U : Type 0} (definition : U → Definition) (is_background : U → Bool) (name version : Text)
    (units : List U)
    → host_units definition is_background name version units
      ≡ map (λ unit. named_by name (unit_of (definition unit) (is_background unit))) units
unfolding manifest_from_units
host_units-named definition is_background name version units =
    let m = manifest_from_units definition is_background name version units in
    ap (λ (p : PluginManifest). p.units) (manifest_to_proto-plugin_from_proto m)
    ∙ map-map (λ unit. unit_of (definition unit) (is_background unit)) (named_by name)
        (λ unit. named_by name (unit_of (definition unit) (is_background unit))) (λ u. refl) units

qualified-some : (name kind : Text) → text_eq (name ++ text ":" ++ kind) [] ≡ false
unfolding text_eq
qualified-some [] kind = refl
qualified-some (c ∷ name) kind = refl

-- For the units of a plugin as the host reads them from its manifest, in their order: a remote unit
-- without an alias has the definition of the plugin's own unit, and one with the kind that the host
-- qualifies with the plugin's name has that definition under the qualified kind.
pub definitions-handshake :
    {U : Type 0} (definition : U → Definition) (is_background : U → Bool) (name version : Text)
    (units : List U)
    → (map
          (λ u. remote_definition (bare u))
          (host_units definition is_background name version units)
        ≡ map definition units)
      × (map
            (λ u. remote_definition (qualified name u))
            (host_units definition is_background name version units)
          ≡ map
              (λ u. record (definition u) { kind = name ++ text ":" ++ (definition u).kind })
              units)
unfolding unit_definition named_by unit_of remote_definition qualified text_eq
definitions-handshake definition is_background name version units =
    rw (host_units-named definition is_background name version units) (
      map-map (λ unit. named_by name (unit_of (definition unit) (is_background unit)))
          (λ u. remote_definition (bare u)) definition (λ u. refl) units,
      map-map (λ unit. named_by name (unit_of (definition unit) (is_background unit)))
          (λ u. remote_definition (qualified name u))
          (λ u. record (definition u) { kind = name ++ text ":" ++ (definition u).kind })
          (λ u. rw (qualified-some name (definition u).kind) refl) units,
    )
