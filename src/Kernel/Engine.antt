-- ===== src/Kernel/Engine.antt =====
-- Engine.Run of kernel.go: the loop over the ordered units, the shutdown of the background tasks and
-- the cleanup of the outputs.
pub mod Outcome
use wkbench.Base.{
  Option, none, some, Result, List, [], ◌∷◌, ◌++◌, ok, err, ◌>>=◌, Text, Dict, lookup, insert,
}
use wkbench.Contract.{Definition}
use wkbench.Dsl.{Scenario}
use wkbench.Registry.{Registry}
use wkbench.Kernel.Outputs.{CleanupTarget, cleanup_targets}
use wkbench.Kernel.Topo.{GraphNode}
use wkbench.Kernel.Graph.{Graph, GraphError, build_graph}
use wkbench.Kernel.Host.{Host}
use wkbench.Kernel.Run.{
  Status, unset, completed, config_failed, worker_failed, RunError, not_built, join, CleanupResult,
  UnitResult, Progress, stop_backgrounds,
}
use wkbench.Kernel.Steps.{Step, guard, run_unit}

module _ {U Spec : Type 0} (h : Host U Spec) where
  open h use {W, E, Any}

  -- A name of the order that is no node, on which Go would panic, is passed over. A graph that was
  -- built has no such name.
  unfoldable pub run_named : Text → Option (GraphNode U Spec) → Progress h → Step h
  unfolding run_unit
  run_named name none p = ok p
  run_named name (some node) p = run_unit h name node p

  unfoldable pub run_units : Dict (GraphNode U Spec) → List Text → Progress h → Step h
  unfolding run_named
  run_units nodes [] p = ok p
  run_units nodes (name ∷ names) p =
      run_named name (lookup name nodes) p >>= λ q. run_units nodes names q

  -- A cleanup error is added to the result of its unit, or to a zero result if there is none.
  add_cleanup : Text → E → Option (UnitResult h) → UnitResult h
  add_cleanup port e none = record {
    kind = [];
    status = unset;
    error = none;
    outputs = [];
    metrics = none;
    artifacts = none;
    timeline = none;
    cleanup = record { output = port; error = e } ∷ [];
  }
  add_cleanup port e (some u) = record u {
    cleanup = u.cleanup ++ (record { output = port; error = e } ∷ []);
  }

  unfoldable pub on_close : CleanupTarget Any → Option E × W → Progress h → Progress h
  unfolding add_cleanup
  on_close t (none, w) p = record p { w = w }
  on_close t (some e, w) p = record p {
    units = insert t.unit (add_cleanup t.port e (lookup t.unit p.units)) p.units;
    w = w;
  }

  unfoldable pub close_targets : List (CleanupTarget Any) → Progress h → Progress h
  unfolding on_close
  close_targets [] p = p
  close_targets (t ∷ ts) p = close_targets ts (on_close t (h.close t.unit t.port t.closeable p.w) p)

  -- outputStore.cleanup
  unfoldable pub cleanup : List Text → Progress h → Progress h
  unfolding close_targets
  cleanup order p = close_targets (cleanup_targets h.is_closeable (h.outputs p.w) order) p

  unfoldable pub join_shutdown :
      RunError E → Option (RunError E) × Progress h → Progress h × RunError E
  join_shutdown primary (none, p) = (p, primary)
  join_shutdown primary (some e, p) = (record p { status = worker_failed }, join primary e)

  -- stopBackgroundsAfterEarlyFailure
  unfoldable pub stop_after_failure : Progress h × RunError E → Progress h × RunError E
  unfolding join_shutdown
  stop_after_failure (p, primary) = join_shutdown primary (stop_backgrounds h p)

  -- What every early failure of Run ends with.
  unfoldable pub fail_early : List Text → Progress h × RunError E → Progress h × Option (RunError E)
  unfolding stop_after_failure cleanup
  fail_early order failure = let (p, e) = stop_after_failure failure in (cleanup order p, some e)

  -- The end of a run with no early failure.
  unfoldable pub shut_down :
      List Text → Option (RunError E) × Progress h → Progress h × Option (RunError E)
  unfolding cleanup
  shut_down order (none, p) = (cleanup order p, none)
  shut_down order (some e, p) = (cleanup order (record p { status = worker_failed }), some e)

  unfoldable pub finish : List Text → Step h → Progress h × Option (RunError E)
  unfolding fail_early shut_down
  finish order (err failure) = fail_early order failure
  finish order (ok p) = shut_down order (stop_backgrounds h p)

  abbrev pub begin : W → Progress h
  begin w = record { status = completed; units = []; fatal = []; active = []; w = w }

  -- Run on a graph that was built.
  unfoldable pub run_graph : Graph U Spec → W → Progress h × Option (RunError E)
  unfolding run_units guard finish
  run_graph g w = finish g.order (run_units g.nodes g.order (begin w) >>= λ p. guard h p)

  -- Run, once the graph is built or found wrong.
  unfoldable pub run_built : Result GraphError (Graph U Spec) → W → Progress h × Option (RunError E)
  unfolding run_graph
  run_built (ok g) w = run_graph g w
  run_built (err e) w = (record (begin w) { status = config_failed }, some (not_built e))

  -- Engine.Run
  unfoldable pub engine_run :
      {V : Type 0}
      → (U → Definition)
      → Registry U
      → Scenario V Spec
      → W
      → Progress h × Option (RunError E)
  unfolding run_built build_graph
  engine_run definition reg scenario w = run_built (build_graph definition reg scenario) w
