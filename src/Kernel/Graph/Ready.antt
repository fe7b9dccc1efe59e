-- ===== src/Kernel/Graph/Ready.antt =====
-- A built graph is ready to run: whenever a unit's turn comes, what feeds it has had its turn.
use wkbench.Base.{
  true, false, ◌||◌, some, List, [], ◌∷◌, ◌++◌, ok, ◌>>=◌, ◌≡◌, refl, sym, ◌∙◌, subst, arith, Text,
  text_eq_refl, contains, contains-append, Dict, lookup, lookup-contains, keys, ap, >>=-eq-ok,
  ok-injective,
}
use wkbench.Base.Sort.{contains-sort}
use mathlib.Core.List.{Memᴰ}
use wkbench.Contract.{PortDef, Definition}
use wkbench.Registry.{Registry}
use wkbench.Dsl.{UnitNode, Scenario}
use wkbench.Kernel.Refs.{ResourceRef}
use wkbench.Kernel.Topo.{GraphNode, deps, binding_units, topo_sort}
use wkbench.Kernel.Topo.Acyclic.{topo_sort-IsTopological}
use wkbench.Kernel.Graph.{
  Graph, not_ordered, wrap, resolve_nodes, wire_nodes, collect_providers, sorted_unit_names,
  unit_node, wired_graph, build_graph,
}
use wkbench.Kernel.Graph.Wiring.{wrap-eq-ok, IsSource, collect_providers-mem}
use wkbench.Kernel.Graph.Waits.{resolve_nodes-AreNamed, wire_nodes-DoneWait}
use wkbench.Kernel.Graph.Built.{
  resolve_nodes-Unbound, Wired, wire_nodes-Wired, resolve_nodes-keys, wire_nodes-keys,
}

binding_units-contains :
    (i : Text) (bs : Dict ResourceRef) (ref : ResourceRef)
    → lookup i bs ≡ some ref
    → contains ref.unit (binding_units bs) ≡ true
unfolding lookup contains binding_units
binding_units-contains i [] ref e = cc
binding_units-contains i ((j, r) ∷ bs) ref e =
    ground (arith, binding_units-contains i bs ref, text_eq_refl ref.unit)

module _ {U Spec : Type 0} where
  -- A unit whose turn comes in a graph: it is there with the scenario's entry, each of its wired
  -- inputs is fed by an output of the same type, of a unit whose turn came before, and so did the
  -- turns of the units that the scenario's entry names under `after`.
  pub record IsReady (units : Dict (UnitNode Spec)) (nodes : Dict (GraphNode U Spec))
      (before : List Text) (name : Text) : Type 0 where
    pub node : GraphNode U Spec
    pub known : lookup name nodes ≡ some node
    pub fed :
        (input_name : Text) (ref : ResourceRef)
        → lookup input_name node.bindings ≡ some ref
        → IsSource nodes node.def.inputs input_name ref × (contains ref.unit before ≡ true)
    pub entry : node.dsl ≡ unit_node name units
    pub after :
        (d : Text) → contains d (unit_node name units).after ≡ true → contains d before ≡ true

  contains-deps :
      (d : Text) (n : GraphNode U Spec)
      → contains d (deps n) ≡ (contains d (binding_units n.bindings) || contains d n.after)
  unfolding deps
  contains-deps d n = contains-sort d _ ∙ contains-append d (binding_units n.bindings) n.after

  -- The stages of a build that succeeds.
  record Stages (definition : U → Definition) (reg : Registry U) (units : Dict (UnitNode Spec))
      (names : List Text) (g : Graph U Spec) : Type 0 where
    nodes : Dict (GraphNode U Spec)
    resolved : resolve_nodes definition reg units names [] ≡ ok nodes
    wired : wire_nodes (collect_providers names nodes) names nodes ≡ ok g.nodes
    ordered : topo_sort g.nodes ≡ ok g.order

  module _ (definition : U → Definition) (reg : Registry U) (units : Dict (UnitNode Spec))
      (names : List Text) (g : Graph U Spec) where
    -- A source among the nodes as they were resolved is one among the wired nodes.
    IsSource-Wired :
        (nodes wired : Dict (GraphNode U Spec)) (inputs : List PortDef) (i : Text) (r : ResourceRef)
        → Wired nodes wired
        → IsSource nodes inputs i r
        → IsSource wired inputs i r
    IsSource-Wired nodes wired inputs i r w s =
        let (producer, known, def) = w.there r.unit s.producer s.known in
        record {
          input = s.input;
          declared = s.declared;
          named = s.named;
          producer = producer;
          known = known;
          output = s.output;
          produced = subst (λ (d : Definition). Memᴰ s.output d.outputs) (sym def) s.produced;
          port = s.port;
          same_type = s.same_type;
        }

    wired_graph-Stages :
        wired_graph definition reg units names ≡ ok g → Stages definition reg units names g
    unfolding wired_graph
    wired_graph-Stages e =
        let (nodes, resolved, e₁) =
          >>=-eq-ok (resolve_nodes definition reg units names [])
            (λ nodes. wire_nodes (collect_providers names nodes) names nodes >>= λ wired.
              wrap not_ordered (topo_sort wired) >>= λ order.
              ok (record { nodes = wired; order = order }))
            e in
        let (wired, wire, e₂) =
          >>=-eq-ok (wire_nodes (collect_providers names nodes) names nodes)
            (λ wired. wrap not_ordered (topo_sort wired) >>= λ order.
              ok (record { nodes = wired; order = order }))
            e₁ in
        let (order, sorted, e₃) =
          >>=-eq-ok (wrap not_ordered (topo_sort wired))
            (λ order. ok (record { nodes = wired; order = order })) e₂ in
        subst (λ (g : Graph U Spec). Stages definition reg units names g) (ok-injective e₃)
          (record {
            nodes = nodes;
            resolved = resolved;
            wired = wire;
            ordered = wrap-eq-ok not_ordered (topo_sort wired) sorted;
          })

    Stages-Wired : (s : Stages definition reg units names g) → Wired s.nodes g.nodes
    unfolding lookup
    Stages-Wired s =
        let unbound =
          resolve_nodes-Unbound definition reg units names [] s.nodes (λ x n h. cc) s.resolved in
        wire_nodes-Wired s.nodes (collect_providers names s.nodes)
          (λ p m. collect_providers-mem names s.nodes p m) names s.nodes g.nodes
          (record {
            there = λ x n h. (n, h, refl);
            fed = λ x n h i r k.
                let k' : lookup i [] ≡ some r =
                  subst (λ b. lookup i b ≡ some r) (unbound x n h) k in
                absurd (cc);
          })
          s.wired

    Stages-keys :
        (s : Stages definition reg units names g) (x : Text)
        → contains x (keys g.nodes) ≡ contains x names
    unfolding keys contains
    Stages-keys s x = ground (
      arith,
      wire_nodes-keys (collect_providers names s.nodes) x names s.nodes g.nodes s.wired,
      resolve_nodes-keys definition reg units x names [] s.nodes s.resolved,
    )

    Stages-waits :
        (s : Stages definition reg units names g) (x : Text) (n : GraphNode U Spec)
        → lookup x g.nodes ≡ some n
        → (n.dsl ≡ unit_node x units)
          × ((d : Text) → contains d n.dsl.after ≡ true → contains d n.after ≡ true)
    unfolding lookup contains
    Stages-waits s x n h =
        let named =
          resolve_nodes-AreNamed units definition reg names [] s.nodes (λ x n h. absurd (cc))
            s.resolved in
        let (entry, waits) =
          wire_nodes-DoneWait units (collect_providers names s.nodes) names [] s.nodes g.nodes
            (λ x n h. (named x n h, λ c. absurd (cc))) s.wired x n h in
        (entry, waits (ground (arith, Stages-keys s x, lookup-contains x g.nodes n h)))

    Stages-IsReady :
        Stages definition reg units names g
        → (before after : List Text) (name : Text) → g.order ≡ before ++ name ∷ after
        → IsReady units g.nodes before name
    Stages-IsReady s before after name split =
        let (topological, _, _) = topo_sort-IsTopological g.nodes g.order s.ordered in
        let (node, known, earlier) = topological.at before after name split in
        let (entry, waits) = Stages-waits s name node known in
        record {
          node = node;
          known = known;
          fed = λ i r h. (
            IsSource-Wired s.nodes g.nodes node.def.inputs i r (Stages-Wired s)
                ((Stages-Wired s).fed name node known i r h),
            earlier r.unit (
                ground
                  (arith, contains-deps r.unit node, binding_units-contains i node.bindings r h)),
          );
          entry = entry;
          after = λ d h.
              let listed : contains d node.after ≡ true =
                waits d (rw (ap (λ (e : UnitNode Spec). contains d e.after) entry) h) in
              earlier d (ground (arith, contains-deps d node, listed));
        }

  -- In a graph that was built, whenever a unit's turn comes, every unit that feeds one of its
  -- inputs, and every unit that its entry in the scenario names under `after`, has had its turn, and
  -- each input that is wired is fed by an output of its own type. The units of the scenario, and no others, have exactly one turn each.
  pub build_graph-IsReady :
      {V : Type 0} (definition : U → Definition) (reg : Registry U) (scenario : Scenario V Spec)
      (g : Graph U Spec)
      → build_graph definition reg scenario ≡ ok g
      → ((before after : List Text) (name : Text)
          → g.order ≡ before ++ name ∷ after
          → IsReady scenario.units g.nodes before name × (contains name before ≡ false))
        × ((x : Text) → contains x g.order ≡ contains x (keys scenario.units))
  unfolding build_graph
  build_graph-IsReady definition reg scenario g e =
      let names = sorted_unit_names scenario.units in
      let s = wired_graph-Stages definition reg scenario.units names g (ground arith) in
      let (_, distinct, members) = topo_sort-IsTopological g.nodes g.order s.ordered in
      (
        λ before after name split. (
          Stages-IsReady definition reg scenario.units names g s before after name split,
          distinct.at before after name split,
        ),
        λ x.
            members x
            ∙ Stages-keys definition reg scenario.units names g s x
            ∙ contains-sort x (keys scenario.units),
      )
