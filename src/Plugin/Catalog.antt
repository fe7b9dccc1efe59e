-- ===== src/Plugin/Catalog.antt =====
-- benchkit/pluginhost/catalog.go: the units that the plugins offer, by their kinds. sort.Slice may leave
-- units of one plugin name in any order; here they stay in the order of the plugins.
pub mod Resolving
use wkbench.Base.{
  ℕ, ◌==◌, Bool, true, false, Option, none, some, List, [], ◌∷◌, ◌++◌, map, Result, ok, err, Text,
  text_eq, text_leb, trim_space, Dict, lookup, insert, filter, if◌then◌else◌,
}
use wkbench.Plugin.Manifest.{PluginUnit, PluginManifest}

pub record Catalog : Type 0 where
  pub units_by_kind : Dict (List PluginUnit)

pub data CatalogError : Type 0 where
  kind_is_required plugin_is_required : CatalogError
  kind_not_registered : Text → CatalogError
  not_offered offered_twice : Text → Text → CatalogError
  ambiguous_kind : Text → List Text → CatalogError

abbrev pub units_or_none : Option (List PluginUnit) → List PluginUnit
units_or_none none = []
units_or_none (some us) = us

-- The body of the inner loop of NewCatalog
unfoldable pub add_unit : PluginUnit → Dict (List PluginUnit) → Dict (List PluginUnit)
add_unit u m = insert u.kind (units_or_none (lookup u.kind m) ++ u ∷ []) m

unfoldable pub add_units : Text → List PluginUnit → Dict (List PluginUnit) → Dict (List PluginUnit)
unfolding add_unit
add_units plugin [] m = m
add_units plugin (u ∷ us) m = add_units plugin us (add_unit (record u { plugin_name = plugin }) m)

unfoldable pub add_plugins : List PluginManifest → Dict (List PluginUnit) → Dict (List PluginUnit)
unfolding add_units
add_plugins [] m = m
add_plugins (p ∷ ps) m = add_plugins ps (add_units p.name p.units m)

unfoldable pub insert_unit : PluginUnit → List PluginUnit → List PluginUnit
insert_unit u [] = u ∷ []
insert_unit u (v ∷ vs) =
    if text_leb u.plugin_name v.plugin_name then u ∷ v ∷ vs else v ∷ insert_unit u vs

-- sort.Slice by the plugin names
unfoldable pub sort_units : List PluginUnit → List PluginUnit
unfolding insert_unit
sort_units [] = []
sort_units (u ∷ us) = insert_unit u (sort_units us)

unfoldable pub sort_kinds : Dict (List PluginUnit) → Dict (List PluginUnit)
unfolding sort_units
sort_kinds [] = []
sort_kinds ((kind, us) ∷ m) = (kind, sort_units us) ∷ sort_kinds m

-- NewCatalog
unfoldable pub new_catalog : List PluginManifest → Catalog
unfolding add_plugins sort_kinds
new_catalog plugins = record { units_by_kind = sort_kinds (add_plugins plugins []) }

prepend : ℕ → Option (Text × Text) → Option (Text × Text)
prepend c none = none
prepend c (some (before, after)) = some (c ∷ before, after)

-- strings.Cut(s, ":")
unfoldable pub cut_colon : Text → Option (Text × Text)
unfolding prepend
cut_colon [] = none
cut_colon (c ∷ cs) = if c == 58 then some ([], cs) else prepend c (cut_colon cs)

unfoldable pub only_of : Text → Text → List PluginUnit → Result CatalogError PluginUnit
only_of plugin kind [] = err (not_offered kind plugin)
only_of plugin kind (u ∷ []) = ok u
only_of plugin kind (u ∷ v ∷ us) = err (offered_twice kind plugin)

unfoldable pub only_kind : Text → List PluginUnit → Result CatalogError PluginUnit
only_kind kind [] = err (kind_not_registered kind)
only_kind kind (u ∷ []) = ok u
only_kind kind (u ∷ v ∷ us) = err (ambiguous_kind kind (map (λ w. w.plugin_name) (u ∷ v ∷ us)))

unfoldable pub units_of_kind : Text → Catalog → List PluginUnit
units_of_kind kind c = units_or_none (lookup kind c.units_by_kind)

-- The plugin of a unit is that one.
abbrev pub is_of : Text → PluginUnit → Bool
is_of plugin u = text_eq u.plugin_name plugin

unfoldable pub resolve_of : Text → Text → Catalog → Result CatalogError PluginUnit
unfolding only_of units_of_kind
resolve_of plugin kind c =
    if text_eq plugin []
    then err plugin_is_required
    else if text_eq kind []
    then err kind_is_required
    else only_of plugin kind (filter (is_of plugin) (units_of_kind kind c))

unfoldable pub resolve_parts :
    Text → Option (Text × Text) → Catalog → Result CatalogError PluginUnit
unfolding resolve_of only_kind units_of_kind
resolve_parts used (some (plugin, kind)) c = resolve_of (trim_space plugin) (trim_space kind) c
resolve_parts used none c = only_kind used (units_of_kind used c)

unfoldable pub resolve_trimmed : Text → Catalog → Result CatalogError PluginUnit
unfolding resolve_parts cut_colon
resolve_trimmed used c =
    if text_eq used [] then err kind_is_required else resolve_parts used (cut_colon used) c

-- Resolve
unfoldable pub resolve_unit : Text → Catalog → Result CatalogError PluginUnit
unfolding resolve_trimmed
resolve_unit used c = resolve_trimmed (trim_space used) c
