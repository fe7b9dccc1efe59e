-- ===== src/Plugin/Requests.antt =====
-- The requests of the host to a plugin: remote_unit.go, and what Handshake, Validate, Plan, Start and Stop of
-- benchkit/pluginhost/stdio_client.go make of the reply.
use wkbench.Base.{
  ℕ, ℤ, ◌==◌, Option, none, some, List, [], ◌∷◌, Result, ok, err, ◌>>=◌, Text, text_eq, Dict,
  length, if◌then◌else◌,
}
use wkbench.Contract.{PortDef, Definition}
use wkbench.Plugin.Manifest.{PluginUnit, PluginManifest, unit_definition, plugin_from_proto}
use wkbench.Plugin.Inputs.{collect_inputs}
use wkbench.Plugin.Client.{ClientError}
use wkbench.Plugin.Client.Calls.{plugin_rpc_error}
use wkbench.Plugin.Lifecycle.{
  HostBody, handshake_body, validate_body, plan_body, start_body, stop_body, error_body,
}

-- RemoteUnit without its client
pub record RemoteUnit : Type 0 where
  pub unit : PluginUnit
  pub alias_kind : Text

-- RemoteUnit.Definition
unfoldable pub remote_definition : RemoteUnit → Definition
remote_definition u =
    let def = unit_definition u.unit in
    if text_eq u.alias_kind [] then def else record def { kind = u.alias_kind }

-- UnitRequest, and RunRequest with it
pub record UnitRequest : Type 0 where
  pub plugin_name : Text
  pub unit_name : Text
  pub kind : Text
  pub run_id : Text
  pub run_duration_millis : ℤ
  pub worker_count : ℤ
  pub spec_json : List ℕ

pub record RunRequest (Any : Type 0) : Type 0 where
  pub request : UnitRequest
  pub input_defs : List PortDef
  pub input_source_defs : Dict PortDef
  pub inputs : Dict Any

-- The environment of a unit, as the remote unit reads it; `source_port` is InputSourcePort, where the
-- environment has it, and `encoded_spec` is encodeSpec
pub record UnitEnv (Any E : Type 0) : Type 0 where
  pub unit_name : Text
  pub run_id : Text
  pub run_duration_millis : ℤ
  pub worker_count : ℤ
  pub input : Text → Result E Any
  pub source_port : Option (Text → Option PortDef)
  pub encoded_spec : Result E (List ℕ)

pub data RemoteError (E : Type 0) : Type 0 where
  environment_failed : E → RemoteError E
  source_not_found : Text → RemoteError E

from_env : {E A : Type 0} → Result E A → Result (RemoteError E) A
from_env (ok a) = ok a
from_env (err e) = err (environment_failed e)

source_of : {E : Type 0} → Text → Option PortDef → Result (RemoteError E) PortDef
source_of name none = err (source_not_found name)
source_of name (some def) = ok def

module _ {Any E : Type 0} where
  collect_each : (Text → Option PortDef) → Dict Any → Result (RemoteError E) (Dict PortDef)
  unfolding source_of
  collect_each source_port [] = ok []
  collect_each source_port ((name, value) ∷ inputs) = source_of name (source_port name) >>= λ def.
      collect_each source_port inputs >>= λ defs. ok ((name, def) ∷ defs)

  -- collectInputSourceDefs
  unfoldable pub collect_input_source_defs :
      Option (Text → Option PortDef) → Dict Any → Result (RemoteError E) (Dict PortDef)
  unfolding collect_each
  collect_input_source_defs none inputs = ok []
  collect_input_source_defs (some source_port) inputs = collect_each source_port inputs

  unfoldable pub unit_request : RemoteUnit → UnitEnv Any E → List ℕ → UnitRequest
  unit_request u env spec = record {
    plugin_name = u.unit.plugin_name;
    unit_name = env.unit_name;
    kind = u.unit.kind;
    run_id = env.run_id;
    run_duration_millis = env.run_duration_millis;
    worker_count = env.worker_count;
    spec_json = spec;
  }

  -- RemoteUnit.Plan, up to the call of the client
  unfoldable pub plan_remote : RemoteUnit → UnitEnv Any E → Result (RemoteError E) UnitRequest
  unfolding from_env unit_request
  plan_remote u env = from_env env.encoded_spec >>= λ spec. ok (unit_request u env spec)

  -- RemoteUnit.Run and remoteBackgroundUnit.Start, up to the call of the client
  unfoldable pub request_run : RemoteUnit → UnitEnv Any E → Result (RemoteError E) (RunRequest Any)
  unfolding from_env collect_input_source_defs unit_request
  request_run u env = from_env env.encoded_spec >>= λ spec.
      from_env (collect_inputs env.input (unit_definition u.unit).inputs) >>= λ inputs.
      collect_input_source_defs env.source_port inputs >>= λ sources. ok (record {
        request = unit_request u env spec;
        input_defs = (unit_definition u.unit).inputs;
        input_source_defs = sources;
        inputs = inputs;
      })

pub data ReplyError (E : Type 0) : Type 0 where
  reply_error : ClientError E → ReplyError E
  unexpected_reply missing_task_id : ReplyError E
  plan_not_decoded : E → ReplyError E

selected : Text → PluginManifest → PluginManifest
selected protocol m = if text_eq protocol [] then m else record m { protocol = protocol }

plan_of : {E P : Type 0} → Result E P → Result (ReplyError E) P
plan_of (ok p) = ok p
plan_of (err e) = err (plan_not_decoded e)

module _ {E F : Type 0} where
  -- Validate
  unfoldable pub validate_reply : HostBody F → Result {0, 0} (ReplyError E) Unit
  validate_reply (error_body (some e)) = err (reply_error (plugin_rpc_error (some e)))
  validate_reply validate_body = ok tt
  validate_reply _ = err unexpected_reply

  -- Start, once it is not a lifecycle frame
  unfoldable pub start_reply : HostBody F → Result (ReplyError E) Text
  start_reply (error_body (some e)) = err (reply_error (plugin_rpc_error (some e)))
  start_reply (start_body id) = if text_eq id [] then err missing_task_id else ok id
  start_reply _ = err unexpected_reply

  -- Stop
  unfoldable pub stop_reply : HostBody F → Result {0, 0} (ReplyError E) Unit
  stop_reply (error_body (some e)) = err (reply_error (plugin_rpc_error (some e)))
  stop_reply stop_body = ok tt
  stop_reply _ = err unexpected_reply

  -- Handshake
  unfoldable pub handshake_reply : HostBody F → Result (ReplyError E) PluginManifest
  unfolding selected
  handshake_reply (error_body (some e)) = err (reply_error (plugin_rpc_error (some e)))
  handshake_reply (handshake_body m protocol) = ok (selected protocol (plugin_from_proto m))
  handshake_reply _ = err unexpected_reply

  module _ {P : Type 0} (zero_plan : P) (decode_plan : List ℕ → Result E P) where
    -- StdioClient.Plan
    unfoldable pub plan_reply : HostBody F → Result (ReplyError E) P
    unfolding plan_of
    plan_reply (error_body (some e)) = err (reply_error (plugin_rpc_error (some e)))
    plan_reply (plan_body bytes) =
        if length bytes == 0 then ok zero_plan else plan_of (decode_plan bytes)
    plan_reply _ = err unexpected_reply
