-- ===== src/Kernel/Topo.antt =====
-- topoSort of kernel.go: the depth-first search that orders the units of a graph.
pub mod Sound
pub mod Total
pub mod Ranging
pub mod Acyclic
pub mod Failing
use wkbench.Base.{
  ℕ, zero, suc, Bool, true, false, Option, none, some, List, [], ◌∷◌, ◌++◌, map, Result, ok, err,
  ◌>>=◌, Text, text_eq, length, Dict, lookup, keys, if◌then◌else◌,
}
use wkbench.Base.Sort.{sort}
use wkbench.Dsl.{UnitNode}
use wkbench.Contract.{Definition}
use wkbench.Kernel.Refs.{ResourceRef}

-- graphNode. `U` is the type of the units, `Spec` that of their undecoded specs.
pub record GraphNode (U Spec : Type 0) : Type 0 where
  pub name : Text
  pub dsl : UnitNode Spec
  pub unit : U
  pub def : Definition
  pub bindings : Dict ResourceRef
  pub after : List Text

pub data TopoError : Type 0 where
  does_not_exist : Text → TopoError
  cycle_at : Text → TopoError
  -- the model's own: the recursion went deeper than its fuel
  out_of_fuel : TopoError

-- the maps and the slice that `visit` captures
pub record Marks : Type 0 where
  pub permanent : Text → Bool
  pub temporary : Text → Bool
  pub order : List Text

abbrev pub mark : (Text → Bool) → Text → Bool → Text → Bool
mark f name b x = if text_eq x name then b else f x

unfoldable pub binding_units : Dict ResourceRef → List Text
binding_units [] = []
binding_units ((input, ref) ∷ bindings) = ref.unit ∷ binding_units bindings

-- `for _, dep := range deps { if err := visit(dep) ... }`
unfoldable pub visit_all :
    (Text → Marks → Result TopoError Marks) → List Text → Marks → Result TopoError Marks
visit_all visit [] m = ok m
visit_all visit (d ∷ ds) m = visit d m >>= λ m'. visit_all visit ds m'

abbrev pub enter : Marks → Text → Marks
enter m name = record m { temporary = mark m.temporary name true }

abbrev pub leave : Text → Marks → Marks
leave name m = record m {
  permanent = mark m.permanent name true;
  temporary = mark m.temporary name false;
  order = m.order ++ name ∷ [];
}

abbrev pub start : Marks
start = record { permanent = λ _. false; temporary = λ _. false; order = [] }

module _ {U Spec : Type 0} where
  -- the names that a node waits for, sorted
  unfoldable pub deps : GraphNode U Spec → List Text
  unfolding binding_units
  deps node = sort (binding_units node.bindings ++ node.after)

  -- the body of `visit`, with the recursive call as an argument
  unfoldable pub visit_node :
      (Text → Marks → Result TopoError Marks)
      → Text
      → Option (GraphNode U Spec)
      → Marks
      → Result TopoError Marks
  visit_node visit name none m = err (does_not_exist name)
  visit_node visit name (some node) m =
      if m.permanent name
      then ok m
      else if m.temporary name
      then err (cycle_at name)
      else visit_all visit (deps node) (enter m name) >>= λ m'. ok (leave name m')

  unfoldable pub visit : ℕ → Dict (GraphNode U Spec) → Text → Marks → Result TopoError Marks
  unfolding visit_node visit_all
  visit zero nodes name m = err out_of_fuel
  visit (suc fuel) nodes name m = visit_node (visit fuel nodes) name (lookup name nodes) m

  -- Each nested call has marked one more node, so a depth of one more than the nodes is enough.
  unfoldable pub topo_sort : Dict (GraphNode U Spec) → Result TopoError (List Text)
  unfolding visit keys
  topo_sort nodes =
      visit_all (visit (suc (length nodes)) nodes) (sort (keys nodes)) start >>= λ m. ok m.order
