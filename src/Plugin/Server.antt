-- ===== src/Plugin/Server.antt =====
-- The serving loop of a plugin: sdk/go/wkbench/plugin/server.go. Here are the frames, the state, and
-- the replies; Handlers has the handlers and the dispatch.
pub mod Handlers
pub mod Running
pub mod Replies
use wkbench.Base.{
  ℕ, ℤ, Bool, true, false, Option, none, some, List, [], ◌∷◌, Text, text, Dict, Result, ok, err,
}
use wkbench.Contract.{Definition}
use wkbench.Plugin.Messages.{ManifestMessage, UnitMessage, PortValue}
use wkbench.Plugin.Manifest.{PluginManifest}
use wkbench.Plugin.Inputs.{EncodeError}
use wkbench.Plugin.Outputs.{OutputFrame}
use wkbench.Plugin.Metrics.{MetricSnapshot}
use wkbench.Plugin.Tasks.{Tasks, BackgroundEvent, new_tasks}

-- The fields of a ValidateRequest, a PlanRequest, a RunRequest or a StartRequest
pub record UnitCall : Type 0 where
  pub unit_name : Text
  pub kind : Text
  pub run_id : Text
  pub run_duration_millis : ℤ
  pub worker_count : ℤ
  pub spec_json : List ℕ
  pub inputs : Dict (Option PortValue)

pub data Request : Type 0 where
  handshake_request list_units_request : Request
  validate_request plan_request run_request start_request : UnitCall → Request
  stop_request : Text → Request
  other_request : Request

-- The errors of the handlers; `unit_failed` is one that the unit returned.
pub data ServeError (E : Type 0) : Type 0 where
  unit_not_registered not_background task_not_active : Text → ServeError E
  nil_task unsupported_frame : ServeError E
  spec_not_decoded unit_failed plan_not_encoded reply_failed : E → ServeError E
  inputs_not_decoded : EncodeError E → ServeError E

-- The bodies of the frames that a plugin sends; those of artifacts are in Plugin.Artifacts.
pub data Body (E F : Type 0) : Type 0 where
  handshake_response : ManifestMessage → Text → Body E F
  list_units_response : List (Option UnitMessage) → Body E F
  validate_response : Body E F
  plan_response : List ℕ → Body E F
  terminal_ok : Body E F
  start_response : Text → Body E F
  stop_response : Body E F
  error_response : Text → ServeError E → Body E F
  set_output : OutputFrame → Body E F
  metric_flush : List (MetricSnapshot F) → Body E F
  background_event : BackgroundEvent E → Body E F

pub record Reply (E F : Type 0) : Type 0 where
  pub request_id : Text
  pub body : Body E F

-- `Task` is a contract.BackgroundTask, `S` what the units change, their environments included.
pub record Server (U Task E F S : Type 0) : Type 0 where
  pub manifest : PluginManifest
  pub units_by_kind : Dict U
  pub tasks : Tasks (U × Task) E
  pub sent : List (Reply E F)  -- the frames that were written or tried, the last one first
  pub state : S
