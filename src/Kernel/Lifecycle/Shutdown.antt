-- ===== src/Kernel/Lifecycle/Shutdown.antt =====
-- Every background unit that was started is stopped, whatever the run meets.
use wkbench.Base.{
  true, Option, none, some, List, [], ◌∷◌, Result, ok, err, ◌≡◌, ap, inl, inr, Text, Dict, lookup,
  Bool-cases, ℕ,
}
use wkbench.Kernel.Topo.{GraphNode}
use wkbench.Kernel.Host.{Host}
use wkbench.Kernel.Run.{Timeline, Progress, Failures, check_background_errors}
use wkbench.Kernel.Steps.{
  guard, on_validate, on_plan, on_start, start_background, on_run, run_foreground, launch, run_unit,
}
use wkbench.Kernel.Steps.Rules.{Ends, Ends-bind, guard-Ends}
use wkbench.Kernel.Steps.Going.{active_names}
use wkbench.Kernel.Engine.{run_named, run_units}
use wkbench.Kernel.Lifecycle.{log_start, logged, starts, is_before_shutdown}

module _ {U Spec : Type 0} (h : Host U Spec) where
  abbrev L : Host U Spec
  L = logged h

  -- The tasks that Run holds are those that were started, and none of them has been stopped.
  pub record IsLive (p : Progress L) : Type 0 where
    pub held : active_names L p.active ≡ starts p.w.1
    pub before : is_before_shutdown p.w.1 ≡ true

  pub guard-IsLive : (p : Progress L) → IsLive p → Ends IsLive IsLive (guard L p)
  guard-IsLive p l =
      guard-Ends L IsLive IsLive p (record { held = l.held; before = l.before })
        (λ fatal. record { held = l.held; before = l.before })

  on_validate-IsLive :
      (name : Text) (node : GraphNode U Spec) (e : Option h.E) (w : h.W) (p : Progress L)
      → IsLive p
      → Ends IsLive IsLive (on_validate L name node (e, (w, p.w.1)) p)
  unfolding on_validate
  on_validate-IsLive name node none w p l = record { held = l.held; before = l.before }
  on_validate-IsLive name node (some e) w p l =
      Ends-bind IsLive IsLive IsLive (guard L (record p { w = (w, p.w.1) })) _
        (guard-IsLive (record p { w = (w, p.w.1) }) (record { held = l.held; before = l.before }))
        (λ q k. record { held = k.held; before = k.before })

  on_plan-IsLive :
      (name : Text) (node : GraphNode U Spec) (e : Option h.E) (w : h.W) (p : Progress L)
      → IsLive p
      → Ends IsLive IsLive (on_plan L name node (e, (w, p.w.1)) p)
  unfolding on_plan
  on_plan-IsLive name node none w p l = record { held = l.held; before = l.before }
  on_plan-IsLive name node (some e) w p l =
      Ends-bind IsLive IsLive IsLive (guard L (record p { w = (w, p.w.1) })) _
        (guard-IsLive (record p { w = (w, p.w.1) }) (record { held = l.held; before = l.before }))
        (λ q k. record { held = k.held; before = k.before })

  on_start-IsLive :
      (name : Text) (node : GraphNode U Spec) (start end : ℕ) (r : Result h.E (Option h.Task))
      (w : h.W) (p : Progress L)
      → IsLive p
      → Ends IsLive IsLive
          (on_start L name node start end r (record p { w = (w, log_start name r p.w.1) }))
  unfolding on_start
  on_start-IsLive name node start end (err e) w p l = record { held = l.held; before = l.before }
  on_start-IsLive name node start end (ok none) w p l = record { held = l.held; before = l.before }
  on_start-IsLive name node start end (ok (some task)) w p l = record {
    held = ap (λ ns. name ∷ ns) l.held;
    before = l.before;
  }

  on_run-IsLive :
      (name : Text) (node : GraphNode U Spec) (t : Timeline) (e : Option h.E)
      (f : Option (Failures L)) (p : Progress L)
      → IsLive p
      → Ends IsLive IsLive (on_run L name node t e f p)
  unfolding on_run
  on_run-IsLive name node t none none p l = record { held = l.held; before = l.before }
  on_run-IsLive name node t (some e) none p l = record { held = l.held; before = l.before }
  on_run-IsLive name node t (some e) (some f) p l = record { held = l.held; before = l.before }
  on_run-IsLive name node t none (some f) p l = record { held = l.held; before = l.before }

  launch-IsLive :
      (name : Text) (node : GraphNode U Spec) (p : Progress L)
      → IsLive p
      → Ends IsLive IsLive (launch L name node p)
  unfolding launch start_background run_foreground check_background_errors
  launch-IsLive name node p l = elim (Bool-cases (h.is_background node.unit)) [
    | inl bg ↦
        let (s, w₁) = h.now p.w.0 in
        let (r, w₂) = h.start node.unit name w₁ in
        let (t, w₃) = h.now w₂ in rw bg (on_start-IsLive name node s t r w₃ p l)
    | inr fg ↦ rw fg (
        Ends-bind IsLive IsLive IsLive (guard L p) _ (guard-IsLive p l)
          λ q k. on_run-IsLive name node _ _ _ _ (record { held = k.held; before = k.before }))
  ]

  run_unit-IsLive :
      (name : Text) (node : GraphNode U Spec) (p : Progress L)
      → IsLive p
      → Ends IsLive IsLive (run_unit L name node p)
  unfolding run_unit
  run_unit-IsLive name node p l =
      Ends-bind IsLive IsLive IsLive (guard L p) _ (guard-IsLive p l) λ p₁ l₁.
        Ends-bind IsLive IsLive IsLive
          (on_validate L name node (L.validate node.unit name node.dsl.spec p₁.w) p₁) _
          (on_validate-IsLive name node _ _ p₁ l₁)
          λ p₂ l₂.
            Ends-bind IsLive IsLive IsLive
              (on_plan L name node (L.plan node.unit name node.dsl.spec p₂.w) p₂) _
              (on_plan-IsLive name node _ _ p₂ l₂)
              λ p₃ l₃.
                launch-IsLive name node (record p₃ { w = L.open_env name node.def p₃.w })
                  (record { held = l₃.held; before = l₃.before })

  run_named-IsLive :
      (name : Text) (found : Option (GraphNode U Spec)) (p : Progress L)
      → IsLive p
      → Ends IsLive IsLive (run_named L name found p)
  unfolding run_named
  run_named-IsLive name none p l = l
  run_named-IsLive name (some node) p l = run_unit-IsLive name node p l

  pub run_units-IsLive :
      (nodes : Dict (GraphNode U Spec)) (names : List Text) (p : Progress L)
      → IsLive p
      → Ends IsLive IsLive (run_units L nodes names p)
  unfolding run_units
  run_units-IsLive nodes [] p l = l
  run_units-IsLive nodes (name ∷ names) p l =
      Ends-bind IsLive IsLive IsLive (run_named L name (lookup name nodes) p) _
        (run_named-IsLive name (lookup name nodes) p l) (λ q k. run_units-IsLive nodes names q k)
