-- ===== src/Kernel/Run.antt =====
-- Engine.Run of kernel.go, with stopBackgrounds, stopBackgroundsAfterEarlyFailure,
-- recordBackgroundError, backgroundFailureError, timelineFields and outputStore.cleanup.
-- An error holds what it wraps; errors.Join of a nil and an error is that error.
pub mod Stopping
use wkbench.Base.{
  ℕ, ◌==◌, ltb, ◌-◌, ◌/◌, Bool, true, false, not, ◌&&◌, Option, none, some, List, [], ◌∷◌, ◌++◌,
  Result, ok, err, ◌>>=◌, Text, Dict, lookup, insert, if◌then◌else◌,
}
use mathlib.Core.List.{reverse}
use wkbench.Contract.{Definition}
use wkbench.Dsl.{Scenario}
use wkbench.Registry.{Registry}
use wkbench.Kernel.Outputs.{
  OutputStore, OutputResult, CleanupTarget, results_for_unit, cleanup_targets,
}
use wkbench.Kernel.Topo.{GraphNode}
use wkbench.Kernel.Graph.{Graph, GraphError, build_graph}
use wkbench.Kernel.Host.{Host}

pub data Status : Type 0 where
  -- the zero value, an empty string
  unset : Status
  completed config_failed plan_failed worker_failed : Status

pub data RunError (E : Type 0) : Type 0 where
  not_built : GraphError → RunError E
  raw : E → RunError E
  task_is_nil : RunError E
  validate_failed plan_failed_at start_failed run_failed stop_failed background_failed :
      Text → RunError E → RunError E
  join : RunError E → RunError E → RunError E

-- errors.Join
abbrev pub join_errors :
    {E : Type 0} → Option (RunError E) → Option (RunError E) → Option (RunError E)
join_errors none e = e
join_errors (some d) none = some d
join_errors (some d) (some e) = some (join d e)

-- timelineFields, the times themselves in place of their text. The clock is monotonic, so `end` is
-- not before `start`.
pub record Timeline : Type 0 where
  pub started_at : ℕ
  pub ended_at : ℕ
  pub elapsed_ms : ℕ

unfoldable pub timeline_fields : ℕ → ℕ → Timeline
timeline_fields start end =
    let elapsed = (end - start) / 1_000_000 in
    record {
      started_at = start;
      ended_at = end;
      elapsed_ms = if ltb elapsed 1 && ltb start end then 1 else elapsed;
    }

module _ {U Spec : Type 0} (h : Host U Spec) where
  open h use {W, E, Task, Any, Report, Metrics, Artifacts}

  pub record CleanupResult : Type 0 where
    pub output : Text
    pub error : E

  pub record UnitResult : Type 0 where
    pub kind : Text
    pub status : Status
    pub error : Option (RunError E)
    pub outputs : Dict (OutputResult Report)
    pub metrics : Option Metrics
    pub artifacts : Option Artifacts
    pub timeline : Option Timeline
    pub cleanup : List CleanupResult

  pub record ActiveBackground : Type 0 where
    pub name : Text
    pub node : GraphNode U Spec
    pub task : Task
    pub started_at : ℕ

  -- The variables of Run: the result's status and units, the background tasks that failed, the
  -- background tasks that were started, the last one first, and what lies outside.
  pub record Progress : Type 0 where
    pub status : Status
    pub units : Dict UnitResult
    pub fatal : Dict E
    pub active : List ActiveBackground
    pub w : W

  -- backgroundFailures, where `err` is not nil; `none` is its zero value
  pub record Failures : Type 0 where
    pub first : E
    pub error : RunError E

  -- recordBackgroundError: the first error of a unit stays.
  abbrev pub record_background_error : Dict E → Text → E → Dict E
  record_background_error fatal unit e = elim (lookup unit fatal) [
    | none ↦ insert unit e fatal
    | some _ ↦ fatal
  ]

  pub add_failure : Option Failures → Text → E → Failures
  add_failure none unit e = record { first = e; error = background_failed unit (raw e) }
  add_failure (some f) unit e = record {
    first = f.first;
    error = join f.error (background_failed unit (raw e));
  }

  abbrev pub failures_error : Option Failures → Option (RunError E)
  failures_error none = none
  failures_error (some f) = some f.error

  -- checkBackgroundErrors, on what the channel holds
  unfoldable pub take_failures :
      List (Text × Option E) → Option Failures → Dict E → Option Failures × Dict E
  unfolding add_failure
  take_failures [] f fatal = (f, fatal)
  take_failures ((unit, none) ∷ received) f fatal = take_failures received f fatal
  take_failures ((unit, some e) ∷ received) f fatal =
      take_failures received (some (add_failure f unit e)) (record_background_error fatal unit e)

  unfoldable pub check_background_errors : Progress → Option Failures × Progress
  unfolding take_failures
  check_background_errors p =
      let (received, w) = h.receive p.w in
      let (f, fatal) = take_failures received none p.fatal in (f, record p { fatal = fatal; w = w })

  -- `drain` of stopBackgrounds, with the shutdown error collected so far
  unfoldable pub drain : Option (RunError E) × Progress → Option (RunError E) × Progress
  unfolding check_background_errors
  drain (shutdown, p) =
      let (f, p') = check_background_errors p in (join_errors shutdown (failures_error f), p')

  -- `rememberBackgroundErr`
  unfoldable pub remember :
      Text → Option E → Option (RunError E) × Progress → Option (RunError E) × Progress
  remember unit none s = s
  remember unit (some e) (shutdown, p) = (
    join_errors shutdown (some (background_failed unit (raw e))),
    record p { fatal = record_background_error p.fatal unit e },
  )

  stop_status : Option E → Option E → Status
  stop_status none none = completed
  stop_status _ _ = worker_failed

  raw? : Option E → Option (RunError E)
  raw? none = none
  raw? (some e) = some (raw e)

  stop_error : Text → Option E → Option (RunError E)
  stop_error name none = none
  stop_error name (some e) = some (stop_failed name (raw e))

  -- The result of a background unit, once it is stopped: `e` is what Stop returned.
  unfoldable pub finish_background :
      ActiveBackground → Option E → Option (RunError E) × Progress → Option (RunError E) × Progress
  unfolding stop_status raw? stop_error
  finish_background bg e (shutdown, p) =
      let (end, w) = h.now p.w in
      let fatal = lookup bg.name p.fatal in
      (
        join_errors shutdown (stop_error bg.name e),
        record p {
          units =
              insert bg.name
                (record {
                  kind = bg.node.def.kind;
                  status = stop_status fatal e;
                  error = join_errors (raw? fatal) (raw? e);
                  outputs = results_for_unit h.report (h.outputs w) bg.name bg.node.def.outputs;
                  metrics = some (h.metrics bg.name w);
                  artifacts = some (h.artifacts bg.name w);
                  timeline = some (timeline_fields bg.started_at end);
                  cleanup = [];
                })
                p.units;
          w = w;
        },
      )

  -- One round of the loop of stopBackgrounds
  unfoldable pub stop_one :
      ActiveBackground → Option (RunError E) × Progress → Option (RunError E) × Progress
  unfolding drain remember finish_background
  stop_one bg s =
      let (shutdown, p) = drain s in
      let (e, w) = h.stop bg.name bg.task p.w in
      let (waited, w') = h.wait_monitor bg.name bg.task w in
      finish_background bg e (drain (remember bg.name waited (shutdown, record p { w = w' })))

  unfoldable pub stop_each :
      List ActiveBackground → Option (RunError E) × Progress → Option (RunError E) × Progress
  unfolding stop_one
  stop_each [] s = s
  stop_each (bg ∷ bgs) s = stop_each bgs (stop_one bg s)

  -- stopBackgrounds: from the last that was started to the first
  unfoldable pub stop_backgrounds : Progress → Option (RunError E) × Progress
  unfolding stop_each
  stop_backgrounds p = drain (stop_each p.active (drain (none, p)))
