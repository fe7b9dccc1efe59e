-- ===== src/Kernel/Checks.antt =====
-- Engine.Validate and Engine.Explain of kernel.go, which run no unit, with graphWiring and
-- explainPorts.
use wkbench.Base.{
  Bool, Option, none, some, ◌>>=◌, ◌∙◌, List, [], ◌∷◌, ◌++◌, Result, ok, err, Text, Dict, lookup,
  insert, ◌≡◌, refl,
}
use mathlib.Core.List.{map}
use wkbench.Contract.{PortDef, Definition}
use wkbench.Dsl.{Scenario}
use wkbench.Registry.{Registry}
use wkbench.Kernel.Refs.{ResourceRef}
use wkbench.Kernel.Topo.{GraphNode}
use wkbench.Kernel.Graph.{Graph, GraphError, build_graph}
use wkbench.Kernel.Host.{Host}
use wkbench.Kernel.Run.{RunError, not_built, raw, validate_failed}

pub record ExplainPort : Type 0 where
  pub name : Text
  pub type : Text
  pub optional : Bool

pub record ExplainUnit : Type 0 where
  pub kind : Text
  pub inputs : List ExplainPort
  pub outputs : List ExplainPort
  pub after : List Text

pub record ExplainBinding : Type 0 where
  pub unit : Text
  pub input : Text
  pub source_unit : Text
  pub source_output : Text
  pub type : Text

pub record Explanation : Type 0 where
  pub run_id : Text
  pub order : List Text
  pub units : Dict ExplainUnit
  pub wiring : List ExplainBinding

-- explainPorts; the nil slice is the empty list
unfoldable pub explain_ports : List PortDef → List ExplainPort
explain_ports defs =
    map (λ (def : PortDef). record { name = def.name; type = def.type; optional = def.optional })
      defs

-- The part of graphWiring for one input of a unit
binding : Text → PortDef → Option ResourceRef → List ExplainBinding
binding name input none = []
binding name input (some ref) =
    record {
      unit = name;
      input = input.name;
      source_unit = ref.unit;
      source_output = ref.port;
      type = input.type;
    }
    ∷ []

bindings_of : Text → List PortDef → Dict ResourceRef → List ExplainBinding
unfolding binding
bindings_of name [] bound = []
bindings_of name (input ∷ inputs) bound =
    binding name input (lookup input.name bound) ++ bindings_of name inputs bound

module _ {U Spec : Type 0} where
  node_wiring : Text → Option (GraphNode U Spec) → List ExplainBinding
  unfolding bindings_of
  node_wiring name none = []
  node_wiring name (some node) = bindings_of name node.def.inputs node.bindings

  wiring_of : Dict (GraphNode U Spec) → List Text → List ExplainBinding
  unfolding node_wiring
  wiring_of nodes [] = []
  wiring_of nodes (name ∷ names) = node_wiring name (lookup name nodes) ++ wiring_of nodes names

  -- graphWiring
  unfoldable pub graph_wiring : Graph U Spec → List ExplainBinding
  unfolding wiring_of
  graph_wiring g = wiring_of g.nodes g.order

module _ {U Spec : Type 0} (h : Host U Spec) where
  open h use {W, E}

  -- What a loop over the order returns early, and the world then.
  abbrev pub Checked : Type 0 → Type 0
  Checked A = Result (RunError E × W) A

  on_check : Text → Option E × W → Checked W
  on_check name (none, w) = ok w
  on_check name (some e, w) = err (validate_failed name (raw e), w)

  -- Unit.Validate of one unit of the order; a name that is no node, on which Go would panic, is
  -- passed over, and a graph that was built has no such name.
  check_unit : Text → Option (GraphNode U Spec) → W → Checked W
  unfolding on_check
  check_unit name none w = ok w
  check_unit name (some node) w = on_check name (h.validate node.unit name node.dsl.spec w)

  -- The loop of Engine.Validate
  check_units : Dict (GraphNode U Spec) → List Text → W → Checked W
  unfolding check_unit
  check_units nodes [] w = ok w
  check_units nodes (name ∷ names) w =
      check_unit name (lookup name nodes) w >>= λ w'. check_units nodes names w'

  explain_unit : Text → Option (GraphNode U Spec) → Dict ExplainUnit → Dict ExplainUnit
  unfolding explain_ports
  explain_unit name none units = units
  explain_unit name (some node) units =
      insert name
        (record {
          kind = node.def.kind;
          inputs = explain_ports node.def.inputs;
          outputs = explain_ports node.def.outputs;
          after = node.after;
        })
        units

  -- The loop of Engine.Explain
  explain_units :
      Dict (GraphNode U Spec) → List Text → Dict ExplainUnit → W → Checked (Dict ExplainUnit × W)
  unfolding check_unit explain_unit
  explain_units nodes [] units w = ok (units, w)
  explain_units nodes (name ∷ names) units w = check_unit name (lookup name nodes) w >>= λ w'.
      explain_units nodes names (explain_unit name (lookup name nodes) units) w'

  validate_built : Result GraphError (Graph U Spec) → W → Checked W
  unfolding check_units
  validate_built (err e) w = err (not_built e, w)
  validate_built (ok g) w = check_units g.nodes g.order w

  explain_built : Text → Result GraphError (Graph U Spec) → W → Checked (Explanation × W)
  unfolding explain_units graph_wiring
  explain_built run_id (err e) w = err (not_built e, w)
  explain_built run_id (ok g) w = explain_units g.nodes g.order [] w >>= λ (units, w').
      ok (record { run_id = run_id; order = g.order; units = units; wiring = graph_wiring g }, w')

  module _ {V : Type 0} (definition : U → Definition) (reg : Registry U) where
    -- Engine.Validate
    unfoldable pub engine_validate : Scenario V Spec → W → Checked W
    unfolding validate_built build_graph
    engine_validate scenario w = validate_built (build_graph definition reg scenario) w

    -- Engine.Explain
    unfoldable pub engine_explain : Scenario V Spec → W → Checked (Explanation × W)
    unfolding explain_built build_graph
    engine_explain scenario w =
        explain_built scenario.run.id (build_graph definition reg scenario) w

  abbrev pub forget : {A : Type 0} → Checked (A × W) → Checked W
  forget (err e) = err e
  forget (ok (a, w)) = ok w

  explain_units-forget :
      (nodes : Dict (GraphNode U Spec)) (names : List Text) (units : Dict ExplainUnit) (w : W)
      → forget (explain_units nodes names units w) ≡ check_units nodes names w
  unfolding explain_units check_units
  explain_units-forget nodes [] units w = refl
  explain_units-forget nodes (name ∷ names) units w =
      go (check_unit name (lookup name nodes) w)
        (λ w'. explain_units-forget nodes names (explain_unit name (lookup name nodes) units) w')
    where
      go :
          (r : Checked W)
          → ((w' : W)
              → forget (explain_units nodes names (explain_unit name (lookup name nodes) units) w')
                ≡ check_units nodes names w')
          → forget (
              r >>= λ w'.
              explain_units nodes names (explain_unit name (lookup name nodes) units) w')
            ≡ (r >>= λ w'. check_units nodes names w')
      go (err e) ih = refl
      go (ok w') ih = ih w'

  forget-bind :
      {A B : Type 0} (r : Checked (A × W)) (f : A → W → B)
      → forget (r >>= λ (a, w). ok (f a w, w)) ≡ forget r
  forget-bind (err e) f = refl
  forget-bind (ok (a, w)) f = refl

  explain_built-forget :
      (run_id : Text) (g : Result GraphError (Graph U Spec)) (w : W)
      → forget (explain_built run_id g w) ≡ validate_built g w
  unfolding explain_built validate_built
  explain_built-forget run_id (err e) w = refl
  explain_built-forget run_id (ok g) w =
      forget-bind (explain_units g.nodes g.order [] w) (λ units w'. record {
        run_id = run_id;
        order = g.order;
        units = units;
        wiring = graph_wiring g;
      })
      ∙ explain_units-forget g.nodes g.order [] w

  -- Explain accepts the scenarios that Validate accepts, calls Validate of the same units in the same
  -- order, leaves the same world, and fails with the same error.
  pub engine_explain-forget :
      {V : Type 0} (definition : U → Definition) (reg : Registry U) (scenario : Scenario V Spec)
      (w : W)
      → forget (engine_explain definition reg scenario w)
        ≡ engine_validate definition reg scenario w
  unfolding engine_explain engine_validate
  engine_explain-forget definition reg scenario w =
      explain_built-forget scenario.run.id (build_graph definition reg scenario) w
