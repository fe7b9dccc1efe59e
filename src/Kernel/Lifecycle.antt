-- ===== src/Kernel/Lifecycle.antt =====
-- A record of the calls that a run of the kernel makes: the host of a run, with a log of its calls,
-- the last one first.
pub mod Shutdown
pub mod Order
use wkbench.Base.{
  Bool, true, false, ◌&&◌, Option, none, some, List, [], ◌∷◌, ◌++◌, Result, ok, err, Text,
}
use wkbench.Kernel.Host.{Host}
use wkbench.Kernel.Outputs.{CleanupTarget}

pub data Event : Type 0 where
  -- Run or Start of a unit was called
  called : Text → Event
  -- Start returned a task
  started : Text → Event
  -- Stop of a background task was called
  stopped : Text → Event
  -- Close of an output was called
  closed : (unit port : Text) → Event

abbrev pub log_start : {E T : Type 0} → Text → Result E (Option T) → List Event → List Event
log_start name (ok (some t)) log = started name ∷ called name ∷ log
log_start name (ok none) log = called name ∷ log
log_start name (err e) log = called name ∷ log

abbrev pub logged : {U Spec : Type 0} → Host U Spec → Host U Spec
logged h = record {
  W = h.W × List Event;
  E = h.E;
  Task = h.Task;
  Any = h.Any;
  Report = h.Report;
  Metrics = h.Metrics;
  Artifacts = h.Artifacts;
  validate = λ u name spec (w, log). let (e, w') = h.validate u name spec w in (e, (w', log));
  plan = λ u name spec (w, log). let (e, w') = h.plan u name spec w in (e, (w', log));
  open_env = λ name def (w, log). (h.open_env name def w, log);
  run = λ u name (w, log). let (e, w') = h.run u name w in (e, (w', called name ∷ log));
  is_background = h.is_background;
  start = λ u name (w, log). let (r, w') = h.start u name w in (r, (w', log_start name r log));
  monitor = λ name task (w, log). (h.monitor name task w, log);
  stop = λ name task (w, log). let (e, w') = h.stop name task w in (e, (w', stopped name ∷ log));
  wait_monitor = λ name task (w, log). let (e, w') = h.wait_monitor name task w in (e, (w', log));
  receive = λ (w, log). let (fs, w') = h.receive w in (fs, (w', log));
  cancel = λ (w, log). (h.cancel w, log);
  context_err = λ (w, log). h.context_err w;
  now = λ (w, log). let (t, w') = h.now w in (t, (w', log));
  outputs = λ (w, log). h.outputs w;
  report = h.report;
  is_closeable = h.is_closeable;
  close = λ unit port value (w, log).
      let (e, w') = h.close unit port value w in (e, (w', closed unit port ∷ log));
  metrics = λ name (w, log). h.metrics name w;
  artifacts = λ name (w, log). h.artifacts name w;
}

-- The background units that a log has started, the last one first.
abbrev pub starts : List Event → List Text
starts [] = []
starts (started name ∷ log) = name ∷ starts log
starts (_ ∷ log) = starts log

-- No task has been stopped and no output closed.
abbrev pub is_before_shutdown : List Event → Bool
is_before_shutdown [] = true
is_before_shutdown (called _ ∷ log) = is_before_shutdown log
is_before_shutdown (started _ ∷ log) = is_before_shutdown log
is_before_shutdown (_ ∷ log) = false

-- The events of stopping the units one after the other, on top of a log.
abbrev pub stop_events : List Text → List Event → List Event
stop_events [] log = log
stop_events (name ∷ names) log = stop_events names (stopped name ∷ log)

-- The events of closing the outputs one after the other, on top of a log.
abbrev pub close_events : {A : Type 0} → List (CleanupTarget A) → List Event → List Event
close_events [] log = log
close_events (t ∷ ts) log = close_events ts (closed t.unit t.port ∷ log)
