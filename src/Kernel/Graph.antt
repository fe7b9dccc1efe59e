-- ===== src/Kernel/Graph.antt =====
-- buildGraph of kernel.go, with graphWiring and explainPorts: from a scenario to the graph of its
-- resolved, wired and ordered units.
pub mod Wiring
pub mod Built
pub mod Waits
pub mod Ready
use wkbench.Base.{
  ℕ, zero, suc, ◌==◌, Bool, true, false, not, ◌&&◌, ◌||◌, Option, none, some, List, [], ◌∷◌, ◌++◌,
  map, Result, ok, err, ◌>>=◌, Text, text, text_eq, trim_space, length, Dict, lookup, insert, keys,
  if◌then◌else◌,
}
use wkbench.Base.Sort.{sort}
use wkbench.Contract.{PortDef, Definition}
use wkbench.Registry.{Registry, RegistryError, resolve}
use wkbench.Dsl.{UnitNode, Scenario}
use wkbench.Kernel.Refs.{ResourceRef, Provider, WireError, resolve_input}
use wkbench.Kernel.Topo.{GraphNode, TopoError, topo_sort}

pub data GraphError : Type 0 where
  unsupported_version : GraphError
  units_required : GraphError
  unit_unresolved : Text → RegistryError → GraphError
  not_wired : WireError → GraphError
  not_ordered : TopoError → GraphError

-- An error of a callee, wrapped.
abbrev pub wrap {ℓ} : {E F : Type 0} {A : Type ℓ} → (E → F) → Result E A → Result F A
wrap f (ok a) = ok a
wrap f (err e) = err (f e)

pub record Graph (U Spec : Type 0) : Type 0 where
  pub nodes : Dict (GraphNode U Spec)
  pub order : List Text

module _ {Spec : Type 0} where
  -- sortedUnitNames
  unfoldable pub sorted_unit_names : Dict (UnitNode Spec) → List Text
  sorted_unit_names units = sort (keys units)

  -- units[name], the zero value if it is missing
  unfoldable pub unit_node : Text → Dict (UnitNode Spec) → UnitNode Spec
  unit_node name units = elim (lookup name units) [
    | some node ↦ node
    | none ↦ record { use_kind = []; inputs = []; after = []; spec = none }
  ]

unfoldable pub node_providers : Text → List PortDef → List Provider
node_providers name [] = []
node_providers name (out ∷ outs) =
    record { ref = record { unit = name; port = out.name }; port = out } ∷ node_providers name outs

module _ {U Spec : Type 0} where
  new_node : Text → UnitNode Spec → U × Definition → GraphNode U Spec
  new_node name spec (unit, def) = record {
    name = name;
    dsl = spec;
    unit = unit;
    def = def;
    bindings = [];
    after = [];
  }

  -- The loop that resolves the kind of each unit.
  unfoldable pub resolve_nodes :
      (U → Definition)
      → Registry U
      → Dict (UnitNode Spec)
      → List Text
      → Dict (GraphNode U Spec)
      → Result GraphError (Dict (GraphNode U Spec))
  unfolding new_node unit_node
  resolve_nodes definition reg units [] nodes = ok nodes
  resolve_nodes definition reg units (name ∷ names) nodes =
      let spec = unit_node name units in
      wrap (unit_unresolved name) (resolve definition reg spec.use_kind) >>= λ found.
      resolve_nodes definition reg units names (insert name (new_node name spec found) nodes)

  outputs_of : Option (GraphNode U Spec) → List PortDef
  outputs_of none = []
  outputs_of (some node) = node.def.outputs

  -- The loop that collects the outputs of all units.
  unfoldable pub collect_providers : List Text → Dict (GraphNode U Spec) → List Provider
  unfolding node_providers outputs_of
  collect_providers [] nodes = []
  collect_providers (name ∷ names) nodes =
      node_providers name (outputs_of (lookup name nodes)) ++ collect_providers names nodes

-- The loop over the inputs of one unit.
unfoldable pub bind_inputs :
    Text
    → Dict Text
    → List Provider
    → List PortDef
    → Dict ResourceRef
    → Result GraphError (Dict ResourceRef)
bind_inputs name explicit providers [] bindings = ok bindings
bind_inputs name explicit providers (input ∷ inputs) bindings =
    wrap not_wired (resolve_input name input explicit providers) >>= λ ref.
    bind_inputs name explicit providers inputs
      (if text_eq ref.unit (text "") then bindings else insert input.name ref bindings)

module _ {U Spec : Type 0} where
  -- One round of the loop that wires the units. The node is shared by pointer: its new bindings
  -- are in the map of the nodes.
  wire_node :
      List Provider
      → Text
      → Option (GraphNode U Spec)
      → Dict (GraphNode U Spec)
      → Result GraphError (Dict (GraphNode U Spec))
  unfolding bind_inputs
  wire_node providers name none nodes = ok nodes
  wire_node providers name (some node) nodes =
      bind_inputs name node.dsl.inputs providers node.def.inputs node.bindings >>= λ bindings. ok (
        insert name (record node { bindings = bindings; after = node.after ++ node.dsl.after })
          nodes)

  unfoldable pub wire_nodes :
      List Provider
      → List Text
      → Dict (GraphNode U Spec)
      → Result GraphError (Dict (GraphNode U Spec))
  unfolding wire_node
  wire_nodes providers [] nodes = ok nodes
  wire_nodes providers (name ∷ names) nodes =
      wire_node providers name (lookup name nodes) nodes >>= λ nodes'.
      wire_nodes providers names nodes'

  -- The loops of buildGraph, behind its two guards.
  unfoldable pub wired_graph :
      (U → Definition)
      → Registry U
      → Dict (UnitNode Spec)
      → List Text
      → Result GraphError (Graph U Spec)
  unfolding resolve_nodes collect_providers wire_nodes topo_sort
  wired_graph definition reg units names = resolve_nodes definition reg units names [] >>= λ nodes.
      wire_nodes (collect_providers names nodes) names nodes >>= λ wired.
      wrap not_ordered (topo_sort wired) >>= λ order. ok (record { nodes = wired; order = order })

  -- buildGraph
  unfoldable pub build_graph :
      {V : Type 0}
      → (U → Definition)
      → Registry U
      → Scenario V Spec
      → Result GraphError (Graph U Spec)
  unfolding wired_graph sorted_unit_names
  build_graph definition reg scenario =
      if not (text_eq (trim_space scenario.version) (text "wkbench/v2"))
      then err unsupported_version
      else if length scenario.units == 0
      then err units_required
      else wired_graph definition reg scenario.units (sorted_unit_names scenario.units)
