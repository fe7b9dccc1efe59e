-- ===== src/Kernel/Topo/Ranging.antt =====
-- Go ranges over a map in no fixed order: the order of the units does not depend on it.
use wkbench.Base.{
  ℕ, zero, suc, Option, none, some, [], ◌∷◌, Result, ◌≡◌, refl, ap, fun_ext, arith, Text, Dict,
  lookup, keys, Perm, map, length, length-keys,
}
use mathlib.Core.List.Perm
use wkbench.Base.Sort.{sort-perm, length-perm}
use wkbench.Kernel.Refs.{ResourceRef}
use wkbench.Kernel.Topo.{
  GraphNode, Marks, TopoError, binding_units, deps, visit_node, visit, topo_sort,
}

binding_units-map : (b : Dict ResourceRef) → binding_units b ≡ map (λ e. e.1.unit) b
unfolding binding_units
binding_units-map [] = refl
binding_units-map ((i, r) ∷ b) = ap (λ l. r.unit ∷ l) (binding_units-map b)

module _ {U Spec : Type 0} where
  abbrev pub SameNode : Option (GraphNode U Spec) → Option (GraphNode U Spec) → Type 0
  SameNode none none = Unit
  SameNode (some n) (some n') = Perm n.bindings n'.bindings × (n.after ≡ n'.after)
  SameNode _ _ = ⊥

  -- The same graph, with its maps ranged over in other orders.
  pub record SameGraph (nodes nodes' : Dict (GraphNode U Spec)) : Type 0 where
    pub names : Perm (keys nodes) (keys nodes')
    pub at : (x : Text) → SameNode (lookup x nodes) (lookup x nodes')

  deps-SameNode :
      (n n' : GraphNode U Spec)
      → Perm n.bindings n'.bindings
      → n.after ≡ n'.after
      → deps n ≡ deps n'
  unfolding deps
  deps-SameNode n n' p e =
      rw (binding_units-map, binding_units-map, e)
        (sort-perm (Perm.append_right n'.after (Perm.map (λ e. e.1.unit) p)))

  visit_node-SameNode :
      (visit : Text → Marks → Result TopoError Marks) (name : Text)
      (found found' : Option (GraphNode U Spec)) (m : Marks)
      → SameNode found found'
      → visit_node visit name found m ≡ visit_node visit name found' m
  unfolding visit_node
  visit_node-SameNode visit name none none m s = refl
  visit_node-SameNode visit name none (some n') m s = absurd s
  visit_node-SameNode visit name (some n) none m s = absurd s
  visit_node-SameNode visit name (some n) (some n') m s = rw (deps-SameNode n n' s.0 s.1)

  visit-SameGraph :
      (fuel : ℕ) (nodes nodes' : Dict (GraphNode U Spec))
      → SameGraph nodes nodes'
      → visit fuel nodes ≡ visit fuel nodes'
  unfolding visit
  visit-SameGraph zero nodes nodes' s = refl
  visit-SameGraph (suc fuel) nodes nodes' s = fun_ext λ name. fun_ext λ m.
      rw (visit-SameGraph fuel nodes nodes' s) (
        visit_node-SameNode (visit fuel nodes') name (lookup name nodes) (lookup name nodes') m
          (s.at name))

  -- In whatever order the maps are ranged over, the search gives the same order of units, or the
  -- same error at the same unit.
  pub topo_sort-SameGraph :
      (nodes nodes' : Dict (GraphNode U Spec))
      → SameGraph nodes nodes'
      → topo_sort nodes ≡ topo_sort nodes'
  unfolding topo_sort
  topo_sort-SameGraph nodes nodes' s =
      let same_length : length nodes ≡ length nodes' =
        omega (arith, length-perm s.names, length-keys nodes, length-keys nodes') in
      rw (same_length, visit-SameGraph (suc (length nodes')) nodes nodes' s, sort-perm s.names)
