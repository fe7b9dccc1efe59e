-- ===== src/Kernel/Host.antt =====
-- What a run of the kernel meets outside of it: the units, their background tasks, the clock, the
-- context, and the goroutines that report the end of a background task. `W` is the state of all
-- that, which every call may change; the outputs that the units publish are read from it.
use wkbench.Base.{ℕ, Bool, Option, List, Text, Result}
use wkbench.Contract.{Definition}
use wkbench.Kernel.Outputs.{OutputStore}

pub record Host (U Spec : Type 0) : Type 1 where
  pub W : Type 0
  -- errors of units, of contexts and of background tasks
  pub E : Type 0
  pub Task : Type 0
  -- output values, and what they report
  pub Any : Type 0
  pub Report : Type 0
  pub Metrics : Type 0
  pub Artifacts : Type 0
  -- Unit.Validate and Unit.Plan, of the unit with that name and spec; nil is `none`
  pub validate : U → Text → Option Spec → W → Option E × W
  pub plan : U → Text → Option Spec → W → Option E × W
  -- the run environment of a unit: empty metrics and artifacts, the declared artifacts
  pub open_env : Text → Definition → W → W
  -- Unit.Run
  pub run : U → Text → W → Option E × W
  -- the type test for BackgroundUnit, and BackgroundUnit.Start; a nil task is `none`
  pub is_background : U → Bool
  pub start : U → Text → W → Result E (Option Task) × W
  -- the goroutine that waits for Done and sends its error to the channel of background errors
  pub monitor : Text → Task → W → W
  -- BackgroundTask.Stop and waitBackgroundMonitor
  pub stop : Text → Task → W → Option E × W
  pub wait_monitor : Text → Task → W → Option E × W
  -- what the channel of background errors holds, received until it is empty
  pub receive : W → List (Text × Option E) × W
  -- cancel and Err of the run's context
  pub cancel : W → W
  pub context_err : W → Option E
  -- time.Now, in nanoseconds of the monotonic clock
  pub now : W → ℕ × W
  pub outputs : W → OutputStore Any
  -- the type tests for ReportableOutput (with its value) and CloseableOutput, and Close
  pub report : Any → Option Report
  pub is_closeable : Any → Bool
  pub close : Text → Text → Any → W → Option E × W
  -- metricStore.results and runEnv.artifactResults of a unit
  pub metrics : Text → W → Metrics
  pub artifacts : Text → W → Artifacts
