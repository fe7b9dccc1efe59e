-- ===== src/Kernel/Lifecycle/Order.antt =====
-- The order of the shutdown: the background units are stopped from the last that was started to the
-- first, each once, and then the outputs are closed.
use wkbench.Base.{true, Option, List, [], ok, err, ◌≡◌, Text, ◌>>=◌}
use wkbench.Kernel.Outputs.{cleanup_targets}
use wkbench.Kernel.Graph.{Graph}
use wkbench.Kernel.Host.{Host}
use wkbench.Kernel.Run.{RunError, Progress, stop_backgrounds}
use wkbench.Kernel.Steps.{Step, guard}
use wkbench.Kernel.Engine.{run_units, begin}
use wkbench.Kernel.Lifecycle.{
  Event, stopped, logged, starts, is_before_shutdown, stop_events, close_events,
}

module _ {U Spec : Type 0} (h : Host U Spec) where
  abbrev L : Host U Spec
  L = logged h

  abbrev State : Type 0
  State = Option (RunError h.E) × Progress L

  -- How the log of a run on the order ends, where `last` is what the run has come to before it is shut
  -- down: what happens before the shutdown, the background units started by then stopped, and the
  -- outputs closed that the world holds once they are stopped.
  pub record IsShutDown (order : List Text) (last : Progress L) (log : List Event) : Type 0 where
    pub unstopped : is_before_shutdown last.w.1 ≡ true
    pub stopped :
        log
        ≡ close_events
            (cleanup_targets h.is_closeable (h.outputs (stop_backgrounds L last).1.w.0) order)
            (stop_events (starts last.w.1) last.w.1)

  -- What a run has come to when its steps are over, with an error or without
  abbrev pub come_to : Step L → Progress L
  come_to (ok p) = p
  come_to (err (p, primary)) = p

  -- The steps of a run of a graph: its units, and the check for failures in the background after them
  abbrev pub run_steps : Graph U Spec → h.W → Step L
  run_steps g w = run_units L g.nodes g.order (begin L (w, [])) >>= λ p. guard L p
