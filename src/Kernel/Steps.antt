-- ===== src/Kernel/Steps.antt =====
-- The body of the loop of Engine.Run of kernel.go: what happens to one unit, and the early failures.
pub mod Rules
pub mod Going
use wkbench.Base.{
  ℕ, Bool, true, false, Option, none, some, List, [], ◌∷◌, ◌++◌, Result, ok, err, ◌>>=◌, Text, Dict,
  lookup, insert, if◌then◌else◌,
}
use wkbench.Kernel.Outputs.{results_for_unit}
use wkbench.Kernel.Topo.{GraphNode}
use wkbench.Kernel.Host.{Host}
use wkbench.Kernel.Run.{
  Status, completed, config_failed, plan_failed, worker_failed, RunError, raw, task_is_nil,
  validate_failed, plan_failed_at, start_failed, run_failed, join, Timeline, timeline_fields,
  UnitResult, Progress, Failures, check_background_errors,
}

module _ {U Spec : Type 0} (h : Host U Spec) where
  open h use {W, E, Task, Any, Report}

  -- An early failure: what Run has reached, its status set, and the primary error.
  abbrev pub Step : Type 0
  Step = Result (Progress h × RunError E) (Progress h)

  -- `if failures := checkBackgroundErrors(); failures.err != nil { … }`
  fail_on : Option (Failures h) × Progress h → Step
  fail_on (none, p) = ok p
  fail_on (some f, p) = err (record p { status = worker_failed }, f.error)

  unfoldable pub guard : Progress h → Step
  unfolding fail_on check_background_errors
  guard p = fail_on (check_background_errors h p)

  -- The result of a unit that fails before it has an environment.
  early_result : Status → GraphNode U Spec → E → UnitResult h
  early_result status node e = record {
    kind = node.def.kind;
    status = status;
    error = some (raw e);
    outputs = [];
    metrics = none;
    artifacts = none;
    timeline = none;
    cleanup = [];
  }

  unfoldable pub on_validate : Text → GraphNode U Spec → Option E × W → Progress h → Step
  unfolding guard early_result
  on_validate name node (none, w) p = ok (record p { w = w })
  on_validate name node (some e, w) p = guard (record p { w = w }) >>= λ q. err (
    record q {
      status = config_failed;
      units = insert name (early_result config_failed node e) q.units;
    },
    validate_failed name (raw e),
  )

  unfoldable pub on_plan : Text → GraphNode U Spec → Option E × W → Progress h → Step
  unfolding guard early_result
  on_plan name node (none, w) p = ok (record p { w = w })
  on_plan name node (some e, w) p = guard (record p { w = w }) >>= λ q. err (
    record q {
      status = plan_failed;
      units = insert name (early_result plan_failed node e) q.units;
    },
    plan_failed_at name (raw e),
  )

  -- The result of a unit that was started or run, with its outputs only if it completed.
  unit_result : Text → GraphNode U Spec → Status → Option (RunError E) → Timeline → W → UnitResult h
  unit_result name node status error timeline w = record {
    kind = node.def.kind;
    status = status;
    error = error;
    outputs = elim status [
      | completed ↦ results_for_unit h.report (h.outputs w) name node.def.outputs
      | _ ↦ []
    ];
    metrics = some (h.metrics name w);
    artifacts = some (h.artifacts name w);
    timeline = some timeline;
    cleanup = [];
  }

  fail_unit :
      Text
      → GraphNode U Spec
      → RunError E
      → RunError E
      → Timeline
      → Progress h
      → Progress h × RunError E
  unfolding unit_result
  fail_unit name node e primary timeline p = (
    record p {
      status = worker_failed;
      units = insert name (unit_result name node worker_failed (some e) timeline p.w) p.units;
    },
    primary,
  )

  -- The branch of a BackgroundUnit, once Start has returned.
  unfoldable pub on_start :
      Text → GraphNode U Spec → ℕ → ℕ → Result E (Option Task) → Progress h → Step
  unfolding fail_unit
  on_start name node start end (err e) p =
      err (fail_unit name node (raw e) (start_failed name (raw e)) (timeline_fields start end) p)
  on_start name node start end (ok none) p = err (
      fail_unit name node task_is_nil (start_failed name task_is_nil) (timeline_fields start end) p)
  on_start name node start end (ok (some task)) p = ok (record p {
    active = record { name = name; node = node; task = task; started_at = start } ∷ p.active;
    w = h.monitor name task p.w;
  })

  unfoldable pub start_background : Text → GraphNode U Spec → Progress h → Step
  unfolding on_start
  start_background name node p =
      let (start, w₁) = h.now p.w in
      let (r, w₂) = h.start node.unit name w₁ in
      let (end, w₃) = h.now w₂ in on_start name node start end r (record p { w = w₃ })

  -- The error of a unit that background tasks have failed: the context's, if it is cancelled.
  abbrev pub interrupted : Option E → Failures h → E
  interrupted none f = f.first
  interrupted (some c) f = c

  -- What follows Run, with its error and the failures of background tasks since.
  unfoldable pub on_run :
      Text → GraphNode U Spec → Timeline → Option E → Option (Failures h) → Progress h → Step
  unfolding fail_unit
  on_run name node timeline none none p =
      ok (record p {
        units = insert name (unit_result name node completed none timeline p.w) p.units;
      })
  on_run name node timeline (some e) none p =
      let (q, primary) = fail_unit name node (raw e) (run_failed name (raw e)) timeline p in
      err (record q { w = h.cancel q.w }, primary)
  on_run name node timeline (some e) (some f) p =
      let (q, primary) =
        fail_unit name node (raw e) (join (run_failed name (raw e)) f.error) timeline p in
      err (record q { w = h.cancel q.w }, primary)
  on_run name node timeline none (some f) p =
      let e = interrupted (h.context_err p.w) f in
      let (q, primary) =
        fail_unit name node (raw e) (join (run_failed name (raw e)) f.error) timeline p in
      err (record q { w = h.cancel q.w }, primary)

  unfoldable pub run_foreground : Text → GraphNode U Spec → Progress h → Step
  unfolding on_run check_background_errors
  run_foreground name node p =
      let (start, w₁) = h.now p.w in
      let (e, w₂) = h.run node.unit name w₁ in
      let (end, w₃) = h.now w₂ in
      let (f, q) = check_background_errors h (record p { w = w₃ }) in
      on_run name node (timeline_fields start end) e f q

  unfoldable pub launch : Text → GraphNode U Spec → Progress h → Step
  unfolding start_background run_foreground
  launch name node p =
      if h.is_background node.unit
      then start_background name node p
      else (guard p >>= λ q. run_foreground name node q)

  -- One round of the loop of Run
  unfoldable pub run_unit : Text → GraphNode U Spec → Progress h → Step
  unfolding on_validate on_plan launch
  run_unit name node p = do
    p₁ ← guard p
    p₂ ← on_validate name node (h.validate node.unit name node.dsl.spec p₁.w) p₁
    p₃ ← on_plan name node (h.plan node.unit name node.dsl.spec p₂.w) p₂
    launch name node (record p₃ { w = h.open_env name node.def p₃.w })
