-- ===== src/Plugin/Lifecycle.antt =====
-- The frames that a remote unit sends while it runs, on the host: handleRunLifecycleFrame and
-- writeRunArtifactError of benchkit/pluginhost/stdio_client.go, and the loop of StdioClient.Run.
pub mod Counting
pub mod Closing
use wkbench.Base.{ℕ, Bool, true, false, Option, none, some, List, [], ◌∷◌, Result, ok, err, Text}
use wkbench.Plugin.Messages.{ManifestMessage, ErrorMessage}
use wkbench.Plugin.Outputs.{OutputFrame, Stored, OutputError, set_output_from_frame}
use wkbench.Plugin.Metrics.{MetricSnapshot, MetricEnv, apply_metric_flush}
use wkbench.Plugin.Artifacts.{ArtifactChunk}
use wkbench.Plugin.Artifacts.Host.{
  RunArtifacts, ArtifactError, ArtifactOpened, ArtifactClosed, After, Environment, no_artifacts,
  open_host, write_host, close_host, close_all,
}
use wkbench.Plugin.Client.{ClientError, ReadResult, frame_read, read_error}
use wkbench.Plugin.Client.Calls.{plugin_rpc_error}

-- The bodies that the host reads
pub data HostBody (F : Type 0) : Type 0 where
  set_output_body : Option OutputFrame → HostBody F
  metric_flush_body : List (Option (MetricSnapshot F)) → HostBody F
  artifact_open_body artifact_close_body : Option Text → HostBody F
  artifact_chunk_body : Option ArtifactChunk → HostBody F
  terminal_status_body : Bool → Option ErrorMessage → HostBody F
  error_body : Option ErrorMessage → HostBody F
  handshake_body : Option ManifestMessage → Text → HostBody F
  plan_body : List ℕ → HostBody F
  start_body : Text → HostBody F
  validate_body stop_body other_body : HostBody F

-- The bodies that the host answers with
pub data Answer (E : Type 0) : Type 0 where
  artifact_opened : ArtifactOpened → Answer E
  artifact_closed : ArtifactClosed → Answer E
  artifact_error : ArtifactError E → Answer E

pub data LifecycleError (E : Type 0) : Type 0 where
  output_failed : OutputError E → LifecycleError E
  artifact_failed : ArtifactError E → LifecycleError E
  artifact_and_write_failed : ArtifactError E → E → LifecycleError E
  answer_not_written : E → LifecycleError E

-- The environment of a run on the host, and writeFrame with the ids of the run
pub record RunHost (Any E F Writer S : Type 0) : Type 0 where
  pub nil_value : Any
  pub decode : List ℕ → Result E Any
  pub set_output : Text → Stored Any → S → Option E × S
  pub div : F → ℕ → F
  pub metrics : MetricEnv F S
  pub artifact_env : Environment E Writer S
  pub write_answer : Answer E → S → Option E × S

-- Whether the frame was handled, with which error, and what is after it
pub record Handling (E Writer S : Type 0) : Type 0 where
  pub handled : Bool
  pub error : Option (LifecycleError E)
  pub artifacts : RunArtifacts Writer
  pub state : S

module _ {Any E F Writer S : Type 0} (host : RunHost Any E F Writer S) where
  unfoldable pub joined : ArtifactError E → RunArtifacts Writer → Option E × S → Handling E Writer S
  joined e a (none, s) = record {
    handled = true;
    error = some (artifact_failed e);
    artifacts = a;
    state = s;
  }
  joined e a (some d, s) = record {
    handled = true;
    error = some (artifact_and_write_failed e d);
    artifacts = a;
    state = s;
  }

  -- writeRunArtifactError
  unfoldable pub write_run_artifact_error :
      ArtifactError E → RunArtifacts Writer → S → Handling E Writer S
  unfolding joined
  write_run_artifact_error e a s = joined e a (host.write_answer (artifact_error e) s)

  unfoldable pub answered : RunArtifacts Writer → Option E × S → Handling E Writer S
  answered a (none, s) = record { handled = true; error = none; artifacts = a; state = s }
  answered a (some e, s) = record {
    handled = true;
    error = some (answer_not_written e);
    artifacts = a;
    state = s;
  }

  unfoldable pub after_open :
      Result (ArtifactError E) ArtifactOpened → RunArtifacts Writer → S → Handling E Writer S
  unfolding answered write_run_artifact_error
  after_open (err e) a s = write_run_artifact_error e a s
  after_open (ok o) a s = answered a (host.write_answer (artifact_opened o) s)

  unfoldable pub after_write :
      Result {0, 0} (ArtifactError E) Unit → RunArtifacts Writer → S → Handling E Writer S
  unfolding write_run_artifact_error
  after_write (err e) a s = write_run_artifact_error e a s
  after_write (ok done) a s = record { handled = true; error = none; artifacts = a; state = s }

  unfoldable pub after_close :
      Result (ArtifactError E) ArtifactClosed → RunArtifacts Writer → S → Handling E Writer S
  unfolding answered write_run_artifact_error
  after_close (err e) a s = write_run_artifact_error e a s
  after_close (ok c) a s = answered a (host.write_answer (artifact_closed c) s)

  unfoldable pub output_error : Option (OutputError E) → Option (LifecycleError E)
  output_error none = none
  output_error (some e) = some (output_failed e)

  -- handleRunLifecycleFrame
  unfoldable pub handle_run_lifecycle_frame :
      HostBody F → RunArtifacts Writer → S → Handling E Writer S
  unfolding output_error after_open after_write after_close
  handle_run_lifecycle_frame (set_output_body output) a s =
      let r = set_output_from_frame host.nil_value host.decode host.set_output output s in
      record { handled = true; error = output_error r.0; artifacts = a; state = r.1 }
  handle_run_lifecycle_frame (metric_flush_body metrics) a s = record {
    handled = true;
    error = none;
    artifacts = a;
    state = apply_metric_flush host.div host.metrics metrics s;
  }
  handle_run_lifecycle_frame (artifact_open_body name) a s =
      let r = open_host host.artifact_env name a s in after_open r.result r.artifacts r.state
  handle_run_lifecycle_frame (artifact_chunk_body chunk) a s =
      let r = write_host host.artifact_env chunk a s in after_write r.result r.artifacts r.state
  handle_run_lifecycle_frame (artifact_close_body handle) a s =
      let r = close_host host.artifact_env handle a s in after_close r.result r.artifacts r.state
  handle_run_lifecycle_frame _ a s = record {
    handled = false;
    error = none;
    artifacts = a;
    state = s;
  }

pub data RunFailure (E : Type 0) : Type 0 where
  run_read_failed plugin_failed : ClientError E → RunFailure E
  lifecycle_error : LifecycleError E → RunFailure E
  run_failed unexpected_response : RunFailure E

-- Where Run stands after the results that came: it returned, with an error or none, or it waits
pub data RunOutcome (E : Type 0) : Type 0 where
  run_waits : RunOutcome E
  run_returned : Option (RunFailure E) → RunOutcome E

pub record RunEnd (E Writer S : Type 0) : Type 0 where
  pub outcome : RunOutcome E
  pub artifacts : RunArtifacts Writer
  pub state : S

module _ {Any E F Writer S : Type 0} (host : RunHost Any E F Writer S) where
  -- The frames that end Run
  unfoldable pub final_outcome : HostBody F → Option (RunFailure E)
  final_outcome (terminal_status_body true e) = none
  final_outcome (terminal_status_body false none) = some run_failed
  final_outcome (terminal_status_body false (some e)) =
      some (plugin_failed (plugin_rpc_error (some e)))
  final_outcome (error_body e) = some (plugin_failed (plugin_rpc_error e))
  final_outcome _ = some unexpected_response

  unfoldable pub ended_with : Option (RunFailure E) → RunArtifacts Writer → S → RunEnd E Writer S
  ended_with e a s = record { outcome = run_returned e; artifacts = a; state = s }

  unfoldable pub next_round :
      HostBody F
      → Bool
      → Option (LifecycleError E)
      → RunArtifacts Writer
      → S
      → RunEnd E Writer S
      → RunEnd E Writer S
  unfolding ended_with final_outcome
  next_round body true (some e) a s rest = ended_with (some (lifecycle_error e)) a s
  next_round body true none a s rest = rest
  next_round body false e a s rest = ended_with (final_outcome body) a s

  -- The loop of Run over the results of its waiter, which all have its request id
  unfoldable pub run_loop :
      List (ReadResult E (HostBody F)) → RunArtifacts Writer → S → RunEnd E Writer S
  unfolding next_round handle_run_lifecycle_frame ended_with
  run_loop [] a s = record { outcome = run_waits; artifacts = a; state = s }
  run_loop (read_error e ∷ rs) a s = ended_with (some (run_read_failed e)) a s
  run_loop (frame_read body ∷ rs) a s =
      let h = handle_run_lifecycle_frame host body a s in
      let rest = run_loop rs h.artifacts h.state in
      next_round body h.handled h.error h.artifacts h.state rest

  -- Run after its request was written, with closeAll as it returns
  unfoldable pub run_remote : List (ReadResult E (HostBody F)) → S → RunEnd E Writer S
  unfolding run_loop
  run_remote rs s =
      let r = run_loop rs no_artifacts s in
      let c = close_all host.artifact_env r.artifacts r.state in
      record { outcome = r.outcome; artifacts = c.0; state = c.1 }
