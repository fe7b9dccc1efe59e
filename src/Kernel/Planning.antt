-- ===== src/Kernel/Planning.antt =====
-- Engine.Plan of kernel.go: the plans of all units, with none of them run.
use wkbench.Base.{
  Option, none, some, List, [], ◌∷◌, Result, ok, err, Text, Dict, lookup, insert, ◌≡◌, ◌↔◌, refl,
}
use wkbench.Contract.{Definition}
use wkbench.Dsl.{Scenario}
use wkbench.Registry.{Registry}
use wkbench.Kernel.Topo.{GraphNode}
use wkbench.Kernel.Graph.{Graph, GraphError, build_graph}
use wkbench.Kernel.Host.{Host}
use wkbench.Kernel.Run.{
  Status, completed, config_failed, plan_failed, RunError, not_built, raw, validate_failed,
  plan_failed_at,
}
use wkbench.Kernel.Checks.{ExplainBinding, graph_wiring}

-- UnitPlanResult; `P` is the type of the units' plans
pub record UnitPlanResult (E P : Type 0) : Type 0 where
  pub kind : Text
  pub status : Status
  pub error : Option E
  pub plan : Option P

pub record PlanResult (E P : Type 0) : Type 0 where
  pub run_id : Text
  pub status : Status
  pub order : List Text
  pub wiring : List ExplainBinding
  pub units : Dict (UnitPlanResult E P)

module _ {U Spec : Type 0} (h : Host U Spec) {P : Type 0}
    (make_plan : U → Text → Option Spec → h.W → Result h.E P × h.W) where
  open h use {W, E}

  -- What Plan returns, with its error and the world then
  abbrev pub Planned : Type 0
  Planned = PlanResult E P × Option (RunError E) × W

  on_planned :
      Text
      → GraphNode U Spec
      → (PlanResult E P → W → Planned)
      → PlanResult E P
      → Result E P × W
      → Planned
  on_planned name node rest result (err e, w) = (
    record result {
      status = plan_failed;
      units =
          insert name
            (record { kind = node.def.kind; status = plan_failed; error = some e; plan = none })
            result.units;
    },
    some (plan_failed_at name (raw e)),
    w,
  )
  on_planned name node rest result (ok plan, w) =
      rest
        (record result {
          units =
              insert name
                (record {
                  kind = node.def.kind;
                  status = completed;
                  error = none;
                  plan = some plan;
                })
                result.units;
        })
        w

  on_validated :
      Text
      → GraphNode U Spec
      → (PlanResult E P → W → Planned)
      → PlanResult E P
      → Option E × W
      → Planned
  unfolding on_planned
  on_validated name node rest result (some e, w) = (
    record result {
      status = config_failed;
      units =
          insert name
            (record { kind = node.def.kind; status = config_failed; error = some e; plan = none })
            result.units;
    },
    some (validate_failed name (raw e)),
    w,
  )
  on_validated name node rest result (none, w) =
      on_planned name node rest result (make_plan node.unit name node.dsl.spec w)

  -- One round of the loop of Plan, and what follows it; a name that is no node is passed over
  plan_unit :
      Text
      → Option (GraphNode U Spec)
      → (PlanResult E P → W → Planned)
      → PlanResult E P
      → W
      → Planned
  unfolding on_validated
  plan_unit name none rest result w = rest result w
  plan_unit name (some node) rest result w =
      on_validated name node rest result (h.validate node.unit name node.dsl.spec w)

  plan_units : Dict (GraphNode U Spec) → List Text → PlanResult E P → W → Planned
  unfolding plan_unit
  plan_units nodes [] result w = (result, none, w)
  plan_units nodes (name ∷ names) result w =
      plan_unit name (lookup name nodes) (λ result' w'. plan_units nodes names result' w') result w

  plan_built : Text → Result GraphError (Graph U Spec) → W → Planned
  unfolding plan_units graph_wiring
  plan_built run_id (err e) w = (
    record { run_id = run_id; status = config_failed; order = []; wiring = []; units = [] },
    some (not_built e),
    w,
  )
  plan_built run_id (ok g) w =
      plan_units g.nodes g.order
        (record {
          run_id = run_id;
          status = completed;
          order = g.order;
          wiring = graph_wiring g;
          units = [];
        })
        w

  -- Engine.Plan
  unfoldable pub engine_plan :
      {V : Type 0} → (U → Definition) → Registry U → Scenario V Spec → W → Planned
  unfolding plan_built build_graph
  engine_plan definition reg scenario w =
      plan_built scenario.run.id (build_graph definition reg scenario) w

  abbrev Agrees : Planned → Type 0
  Agrees (result, e, w) = (result.status ≡ completed) ↔ (e ≡ none)

  plan_unit-Agrees :
      (name : Text) (found : Option (GraphNode U Spec)) (rest : PlanResult E P → W → Planned)
      (result : PlanResult E P) (w : W)
      → result.status ≡ completed
      → ((result' : PlanResult E P) (w' : W)
          → result'.status ≡ completed
          → Agrees (rest result' w'))
      → Agrees (plan_unit name found rest result w)
  unfolding plan_unit
  plan_unit-Agrees name none rest result w s then = then result w s
  plan_unit-Agrees name (some node) rest result w s then =
      validated (h.validate node.unit name node.dsl.spec w)
    where
      planned : (r : Result E P × W) → Agrees (on_planned name node rest result r)
      planned (err e, w') = (λ c. absurd (cc), λ n. absurd (cc))
      planned (ok plan, w') = then _ w' s

      validated : (r : Option E × W) → Agrees (on_validated name node rest result r)
      validated (some e, w') = (λ c. absurd (cc), λ n. absurd (cc))
      validated (none, w') = planned (make_plan node.unit name node.dsl.spec w')

  plan_units-Agrees :
      (nodes : Dict (GraphNode U Spec)) (names : List Text) (result : PlanResult E P) (w : W)
      → result.status ≡ completed
      → Agrees (plan_units nodes names result w)
  unfolding plan_units
  plan_units-Agrees nodes [] result w s = (λ _. refl, λ _. s)
  plan_units-Agrees nodes (name ∷ names) result w s =
      plan_unit-Agrees name (lookup name nodes) (λ r' w'. plan_units nodes names r' w') result w s
        (λ r' w' s'. plan_units-Agrees nodes names r' w' s')

  plan_built-Agrees :
      (run_id : Text) (g : Result GraphError (Graph U Spec)) (w : W)
      → Agrees (plan_built run_id g w)
  unfolding plan_built
  plan_built-Agrees run_id (err e) w = (λ c. absurd (cc), λ n. absurd (cc))
  plan_built-Agrees run_id (ok g) w = plan_units-Agrees g.nodes g.order _ w refl

  -- Engine.Plan returns the status "completed" exactly if it returns no error.
  pub engine_plan-status_iff :
      {V : Type 0} (definition : U → Definition) (reg : Registry U) (scenario : Scenario V Spec)
      (w : W)
      → ((engine_plan definition reg scenario w).0.status ≡ completed)
        ↔ ((engine_plan definition reg scenario w).1 ≡ none)
  unfolding engine_plan
  engine_plan-status_iff definition reg scenario w =
      plan_built-Agrees scenario.run.id (build_graph definition reg scenario) w
