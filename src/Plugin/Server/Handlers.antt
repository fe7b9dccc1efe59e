-- ===== src/Plugin/Server/Handlers.antt =====
-- newServer, Serve and the handlers of sdk/go/wkbench/plugin/server.go. A request is handled up to the
-- end before the next is read; the monitor that handleStart starts is in Plugin.Tasks.Steps. The record
-- `Host` is what the handlers call: the units, JSON, and WriteFrame, whose frames are listed as `sent`.
use wkbench.Base.{
  ℕ, ℤ, pos, is_nonpositive, Bool, Option, none, some, List, [], ◌∷◌, Text, text, Dict, lookup,
  insert, Result, ok, err, length, ◌==◌, if◌then◌else◌,
}
use wkbench.Contract.{Definition}
use wkbench.Plugin.Manifest.{manifest_from_units}
use wkbench.Plugin.Inputs.{decode_inputs}
use wkbench.Plugin.Metrics.{MetricSnapshot}
use wkbench.Plugin.Tasks.{new_tasks}
use wkbench.Plugin.Server.{
  UnitCall, ServeError, unit_not_registered, spec_not_decoded, unit_failed, plan_not_encoded,
  inputs_not_decoded, Body, validate_response, plan_response, error_response, Reply, Server,
}

-- What newRemoteRunEnv and configureRunEnv make of a request
pub record RunSettings (Any Spec : Type 0) : Type 0 where
  pub request_id : Text
  pub run_id : Text
  pub unit_name : Text
  pub run_duration_millis : ℤ
  pub worker_count : ℤ
  pub spec : Spec
  pub inputs : Dict Any

pub record Host (U Task Any Spec P E F S : Type 0) : Type 0 where
  pub definition : U → Definition
  pub is_background : U → Bool
  pub validate : U → Text → Spec → S → Option E × S
  pub plan : U → RunSettings Any Spec → S → Result E P × S
  pub run : U → RunSettings Any Spec → S → Option E × S
  pub start : U → RunSettings Any Spec → S → Result E (Option Task) × S
  pub stop : Task → S → Option E × S
  -- the receive from Done that does not wait
  pub poll_done : Task → S → Option (Option E) × S
  -- Output and MetricSnapshots of the environment of that request
  pub output : Text → S → Text → Option Any
  pub snapshots : Text → S → List (MetricSnapshot F)
  pub nil_value : Any
  pub nil_spec : Spec
  pub encode : Any → Result E (List ℕ)
  pub decode : List ℕ → Result E Any
  pub report_output : Any → Option Any
  pub encode_plan : P → Result E (List ℕ)
  pub decode_spec : List ℕ → Result E Spec
  pub write_fails : Reply E F → S → Option E

abbrev pub config_error : Text
config_error = text "CONFIG_ERROR"

abbrev pub plan_error : Text
plan_error = text "PLAN_ERROR"

abbrev pub run_error : Text
run_error = text "RUN_ERROR"

abbrev pub unsupported : Text
unsupported = text "UNSUPPORTED"

-- The error with which a handler makes Serve return, and the server after it.
pub record Handled (U Task E F S : Type 0) : Type 0 where
  pub error : Option E
  pub server : Server U Task E F S

-- An error that the unit or a write returned
unfoldable pub failed_with :
    {E : Type 0} → Option E → (E → ServeError E) → Result {0, 0} (ServeError E) Unit
failed_with none wrap = ok tt
failed_with (some e) wrap = err (wrap e)

unfoldable pub wrapped : {D E A : Type 0} → (D → E) → Result D A → Result E A
wrapped wrap (ok a) = ok a
wrapped wrap (err e) = err (wrap e)

module _ {U Task E F S : Type 0} (write_fails : Reply E F → S → Option E) where
  -- writeFrame
  unfoldable pub write_reply : Text → Body E F → Server U Task E F S → Handled U Task E F S
  write_reply id body s =
      let reply : Reply E F = record { request_id = id; body = body } in
      record { error = write_fails reply s.state; server = record s { sent = reply ∷ s.sent } }

  -- `if err != nil { return s.writeProtocolError(...) }`, and the rest of the handler
  unfoldable pub or_reply :
      {A : Type 0}
      → Text
      → Text
      → Server U Task E F S
      → Result (ServeError E) A
      → (A → Handled U Task E F S)
      → Handled U Task E F S
  unfolding write_reply
  or_reply id code s (err e) next = write_reply id (error_response code e) s
  or_reply id code s (ok a) next = next a

-- `if err != nil { return err }`, and the rest
unfoldable pub or_return :
    {U Task E F S : Type 0}
    → Handled U Task E F S
    → (Server U Task E F S → Handled U Task E F S)
    → Handled U Task E F S
or_return h next = elim h.error [ none ↦ next h.server | some e ↦ h ]

module _ {U Task Any Spec P E F S : Type 0} (host : Host U Task Any Spec P E F S) where
  units_added : Dict U → List U → Dict U
  units_added m [] = m
  units_added m (u ∷ us) = units_added (insert (host.definition u).kind u m) us

  -- newServer
  unfoldable pub new_server : Text → Text → List U → S → Server U Task E F S
  unfolding units_added
  new_server name version units state = record {
    manifest = manifest_from_units host.definition host.is_background name version units;
    units_by_kind = units_added [] units;
    tasks = new_tasks;
    sent = [];
    state = state;
  }

  or_not_registered : Text → Option U → Result (ServeError E) U
  or_not_registered kind none = err (unit_not_registered kind)
  or_not_registered kind (some u) = ok u

  -- server.unit
  unfoldable pub unit_by_kind : Text → Server U Task E F S → Result (ServeError E) U
  unfolding or_not_registered
  unit_by_kind kind s = or_not_registered kind (lookup kind s.units_by_kind)

  -- decodeSpecMap
  unfoldable pub decode_spec_map : List ℕ → Result (ServeError E) Spec
  unfolding wrapped
  decode_spec_map bytes =
      if length bytes == 0
      then ok host.nil_spec
      else wrapped spec_not_decoded (host.decode_spec bytes)

  unfoldable pub decoded_inputs : UnitCall → Result (ServeError E) (Dict Any)
  unfolding wrapped
  decoded_inputs call =
      wrapped inputs_not_decoded (decode_inputs host.nil_value host.decode call.inputs)

  -- newRemoteRunEnv and configureRunEnv; a TestRunEnv has one worker by default
  unfoldable pub settings : Text → UnitCall → Spec → Dict Any → RunSettings Any Spec
  settings id call spec inputs = record {
    request_id = id;
    run_id = call.run_id;
    unit_name = call.unit_name;
    run_duration_millis = call.run_duration_millis;
    worker_count = if is_nonpositive call.worker_count then pos 1 else call.worker_count;
    spec = spec;
    inputs = inputs;
  }

  -- handleValidate
  unfoldable pub handle_validate : Text → UnitCall → Server U Task E F S → Handled U Task E F S
  unfolding unit_by_kind decode_spec_map
  handle_validate id call s =
      or_reply host.write_fails id config_error s (unit_by_kind call.kind s) (λ unit.
        or_reply host.write_fails id config_error s (decode_spec_map call.spec_json) (λ spec.
          let r = host.validate unit call.unit_name spec s.state in
          let s' = record s { state = r.1 } in
          or_reply host.write_fails id config_error s' (failed_with r.0 unit_failed)
            (λ done. write_reply host.write_fails id validate_response s')))

  -- handlePlan
  unfoldable pub handle_plan : Text → UnitCall → Server U Task E F S → Handled U Task E F S
  unfolding unit_by_kind decode_spec_map settings
  handle_plan id call s =
      or_reply host.write_fails id plan_error s (unit_by_kind call.kind s) (λ unit.
        or_reply host.write_fails id plan_error s (decode_spec_map call.spec_json) (λ spec.
          let r = host.plan unit (settings id call spec []) s.state in
          let s' = record s { state = r.1 } in
          or_reply host.write_fails id plan_error s' (wrapped unit_failed r.0) (λ plan.
            or_reply host.write_fails id plan_error s'
              (wrapped plan_not_encoded (host.encode_plan plan))
              (λ payload. write_reply host.write_fails id (plan_response payload) s'))))
