-- ===== src/Tests/Graphs.antt =====
-- The kernel on a scenario of two units, one of them in the background.
use wkbench.Base.{
  map, List, keys, Option, Result, ℕ, ◌+◌, pos, Bool, true, false, none, some, [], ◌∷◌, ◌++◌, ok,
  err, Text, text, text_eq, text_leb, trim_space, filter, Dict, lookup, insert, contains, ◌≡◌, ◌≢◌,
  ◌↔◌, refl,
}
use wkbench.Base.Sort.{sort}
use wkbench.Contract.{Definition, PortMeta, PortDef}
use wkbench.Dsl.{UnitNode, Scenario}
use wkbench.Registry.{definitions, Registry, register, resolve}
use wkbench.Registry.Laws.{definitions-ok, register-resolve}
use wkbench.Kernel.Refs.{ResourceRef, Provider, parse_ref, ref_string, resolve_input}
use wkbench.Kernel.Refs.Laws.{IsChoice, resolve_input-ok_iff}
use wkbench.Kernel.Refs.Parsing.{is_free_of, parse_ref_iff}
use wkbench.Kernel.Topo.{GraphNode, out_of_fuel, deps, topo_sort}
use wkbench.Kernel.Topo.Sound.{IsTopological, IsDistinct}
use wkbench.Kernel.Topo.Acyclic.{IsRanked, topo_sort-ok_iff, topo_sort-IsTopological}
use wkbench.Kernel.Topo.Total.{topo_sort-ne-out_of_fuel}
use wkbench.Kernel.Graph.{Graph, build_graph}
use wkbench.Kernel.Graph.Ready.{IsReady, build_graph-IsReady}
use wkbench.Kernel.Host.{Host}
use wkbench.Kernel.Run.{completed, stop_backgrounds}
use wkbench.Kernel.Engine.{engine_run}
use wkbench.Kernel.Engine.Outcome.{HasCompleted, engine_run-status_iff, engine_run-HasCompleted}
use wkbench.Kernel.Planning.{engine_plan, engine_plan-status_iff}
use wkbench.Kernel.Checks.{forget, engine_validate, engine_explain, engine_explain-forget}

abbrev meta : PortMeta
meta = record {
  boundary = [];
  transport = [];
  schema = [];
  encodings = [];
  max_payload_bytes = pos 0;
  sensitive = false;
  reportable = false;
  operations = [];
}

abbrev port : Text → PortDef
port name = record { name = name; type = text "t/v1"; optional = false; meta = meta }

-- Two kinds of units: `true` feeds `false`.
abbrev definition : Bool → Definition
definition true = record {
  kind = text "source/v1";
  title = [];
  description = [];
  inputs = [];
  outputs = port (text "out") ∷ [];
  metrics = [];
  artifacts = [];
}
definition false = record {
  kind = text "sink/v1";
  title = [];
  description = [];
  inputs = port (text "in") ∷ [];
  outputs = [];
  metrics = [];
  artifacts = [];
}

abbrev kinds : Registry Bool
kinds = record { units = (text "source/v1", true) ∷ (text "sink/v1", false) ∷ [] }

abbrev unit_of : Text → UnitNode Bool
unit_of kind = record { use_kind = kind; inputs = []; after = []; spec = none }

abbrev scenario : Scenario Bool Bool
scenario = record {
  version = text "wkbench/v2";
  run = record { id = text "r"; duration = pos 0; seed = pos 0; report_dir = [] };
  vars = [];
  units = (text "a", unit_of (text "sink/v1")) ∷ (text "b", unit_of (text "source/v1")) ∷ [];
}

abbrev node_a : GraphNode Bool Bool
node_a = record {
  name = text "a";
  dsl = unit_of (text "sink/v1");
  unit = false;
  def = definition false;
  bindings = (text "in", record { unit = text "b"; port = text "out" }) ∷ [];
  after = [];
}

abbrev node_b : GraphNode Bool Bool
node_b = record {
  name = text "b";
  dsl = unit_of (text "source/v1");
  unit = true;
  def = definition true;
  bindings = [];
  after = [];
}

abbrev nodes : Dict (GraphNode Bool Bool)
nodes = (text "a", node_a) ∷ (text "b", node_b) ∷ []

abbrev graph : Graph Bool Bool
graph = record { nodes = nodes; order = text "b" ∷ text "a" ∷ [] }

-- A world with a clock; sources run in the background, and nothing fails.
abbrev quiet : Host Bool Bool
quiet = record {
  W = ℕ;
  E = Text;
  Task = Text;
  Any = Text;
  Report = Text;
  Metrics = Bool;
  Artifacts = Bool;
  validate = λ u name spec w. (none, w);
  plan = λ u name spec w. (none, w);
  open_env = λ name def w. w;
  run = λ u name w. (none, w);
  is_background = λ u. u;
  start = λ u name w. (ok (some name), w);
  monitor = λ name task w. w;
  stop = λ name task w. (none, w);
  wait_monitor = λ name task w. (none, w);
  receive = λ w. ([], w);
  cancel = λ w. w;
  context_err = λ w. none;
  now = λ w. (w, w + 1);
  outputs = λ w. record { values = (text "b", (text "out", text "v") ∷ []) ∷ [] };
  report = λ value. none;
  is_closeable = λ value. true;
  close = λ unit port value w. (none, w);
  metrics = λ name w. true;
  artifacts = λ name w. true;
}

topo_sort-ok_iff_example :
    ((rank : Text → ℕ) × IsRanked nodes rank) ↔ ((order : List Text) × (topo_sort nodes ≡ ok order))
topo_sort-ok_iff_example = topo_sort-ok_iff nodes

nodes-order : topo_sort nodes ≡ ok (text "b" ∷ text "a" ∷ [])
unfolding topo_sort sort lookup text_leb text_eq deps
nodes-order = refl

topo_sort-IsTopological_example :
    IsTopological nodes (text "b" ∷ text "a" ∷ [])
    × IsDistinct nodes (text "b" ∷ text "a" ∷ [])
    × ((x : Text) → contains x (text "b" ∷ text "a" ∷ []) ≡ contains x (keys nodes))
topo_sort-IsTopological_example =
    topo_sort-IsTopological nodes (text "b" ∷ text "a" ∷ []) nodes-order

topo_sort-ne-out_of_fuel_example : topo_sort nodes ≢ err out_of_fuel
topo_sort-ne-out_of_fuel_example = topo_sort-ne-out_of_fuel nodes

built : build_graph definition kinds scenario ≡ ok graph
unfolding build_graph sort lookup insert text_eq trim_space text_leb resolve resolve_input filter
    deps
built = refl

build_graph-IsReady_example :
    ((before after : List Text) (name : Text)
      → graph.order ≡ before ++ name ∷ after
      → IsReady scenario.units graph.nodes before name × (contains name before ≡ false))
    × ((x : Text) → contains x graph.order ≡ contains x (keys scenario.units))
build_graph-IsReady_example = build_graph-IsReady definition kinds scenario graph built

engine_run-status_iff_example :
    ((engine_run quiet definition kinds scenario 0).0.status ≡ completed)
    ↔ ((engine_run quiet definition kinds scenario 0).1 ≡ none)
engine_run-status_iff_example = engine_run-status_iff quiet definition kinds scenario 0

ran : (engine_run quiet definition kinds scenario 0).1 ≡ none
unfolding engine_run sort lookup insert text_eq trim_space text_leb resolve resolve_input filter
    deps stop_backgrounds
ran = refl

a-there : contains (text "a") (keys scenario.units) ≡ true
unfolding contains keys text_eq
a-there = refl

engine_run-HasCompleted_example :
    HasCompleted quiet (text "a") (engine_run quiet definition kinds scenario 0).0
engine_run-HasCompleted_example =
    engine_run-HasCompleted quiet definition kinds scenario 0 (text "a") ran a-there

engine_explain-forget_example :
    forget quiet (engine_explain quiet definition kinds scenario 0)
    ≡ engine_validate quiet definition kinds scenario 0
engine_explain-forget_example = engine_explain-forget quiet definition kinds scenario 0

abbrev source : ResourceRef
source = record { unit = text "b"; port = text "out" }

abbrev providers : List Provider
providers = record { ref = source; port = port (text "out") } ∷ []

resolve_input-ok_iff_example :
    (resolve_input (text "a") (port (text "in")) [] providers ≡ ok source)
    ↔ IsChoice (text "a") (port (text "in")) [] providers source
resolve_input-ok_iff_example =
    resolve_input-ok_iff (text "a") (port (text "in")) [] providers source

parse_ref_iff_example : (parse_ref (text " b.out") ≡ some source) ↔ (
    (trim_space (text " b.out") ≡ ref_string source)
    × (source.unit ≢ [])
    × (source.port ≢ [])
    × (is_free_of b'.' source.unit ≡ true)
    × (is_free_of b'.' source.port ≡ true))
parse_ref_iff_example = parse_ref_iff (text " b.out") source

abbrev sinks : Registry Bool
sinks = record { units = (text "sink/v1", false) ∷ [] }

abbrev both_kinds : Registry Bool
both_kinds = record { units = (text "sink/v1", false) ∷ (text "source/v1", true) ∷ [] }

registered : register definition sinks (some true) ≡ ok both_kinds
unfolding register insert lookup text_eq trim_space
registered = refl

register-resolve_example :
    ((raw : Text)
      → trim_space raw ≡ trim_space (definition true).kind
      → resolve definition both_kinds raw ≡ ok (true, definition true))
    × ((raw : Text) (other : Bool)
        → lookup (trim_space raw) sinks.units ≡ some other
        → resolve definition sinks raw ≡ ok (other, definition other)
        → resolve definition both_kinds raw ≡ ok (other, definition other))
register-resolve_example = register-resolve definition sinks both_kinds true registered

abbrev plan_of : Bool → Text → Option Bool → ℕ → Result Text ℕ × ℕ
plan_of u name spec w = (ok w, w)

engine_plan-status_iff_example :
    ((engine_plan quiet plan_of definition kinds scenario 0).0.status ≡ completed)
    ↔ ((engine_plan quiet plan_of definition kinds scenario 0).1 ≡ none)
engine_plan-status_iff_example = engine_plan-status_iff quiet plan_of definition kinds scenario 0

definitions-ok_example :
    (units : List Bool) × (map (λ kind. lookup kind kinds.units) (sort (keys kinds.units))
      ≡ map some units)
    × (definitions definition kinds ≡ ok (map definition units))
definitions-ok_example = definitions-ok definition kinds
