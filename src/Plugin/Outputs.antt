-- ===== src/Plugin/Outputs.antt =====
-- The outputs of a remote unit: writeOutputs of sdk/go/wkbench/plugin/server.go on the plugin's side, and
-- setOutputFromFrame with remoteReportableOutput of benchkit/pluginhost/stdio_client.go on the host's.
-- `Any` is the type of the values; `encode` and `decode` are json.Marshal and json.Unmarshal, and
-- `report_output` is the ReportOutput of the values that have it.
pub mod Publishing
pub mod Secrets
use wkbench.Base.{
  ℕ, ◌==◌, Bool, true, false, not, ◌&&◌, Option, none, some, List, [], ◌∷◌, Result, ok, err, Text,
  length, if◌then◌else◌,
}
use wkbench.Contract.{PortDef}
use wkbench.Plugin.Messages.{PortValue}
use wkbench.Plugin.Inputs.{json}

-- SetOutput
pub record OutputFrame : Type 0 where
  pub name : Text
  pub value : Option PortValue

-- What the host's environment is given: the value, or a remoteReportableOutput
pub data Stored (Any : Type 0) : Type 0 where
  plain : Any → Stored Any
  reportable_output : Any → Any → Stored Any

-- reportValue of writeOutputs
unfoldable pub report_value : {Any : Type 0} → Any → Option Any → Any
report_value value none = value
report_value value (some report) = report

unfoldable pub is_reported : PortDef → Bool
is_reported def = def.meta.reportable && not def.meta.sensitive

unfoldable pub output_frame : PortDef → List ℕ → List ℕ → OutputFrame
output_frame def payload report = record {
  name = def.name;
  value = some (record {
    type = def.type;
    encoding = json;
    transport = def.meta.transport;
    sensitive = def.meta.sensitive;
    reportable = def.meta.reportable;
    payload = payload;
    report_payload = report;
  });
}

unfoldable pub unless_failed : {E S : Type 0} → Option E → S → Option E × S → Option E × S
unless_failed (some e) s rest = (some e, s)
unless_failed none s rest = rest

module _ {Any E : Type 0} (encode : Any → Result E (List ℕ))
    (report_output : Any → Option Any) where
  -- reportPayload of writeOutputs
  unfoldable pub report_payload_of : PortDef → Any → Result E (List ℕ)
  unfolding report_value is_reported
  report_payload_of def value =
      if is_reported def then encode (report_value value (report_output value)) else ok []

module _ {E S : Type 0} (write_frame : OutputFrame → S → Option E × S) where
  -- One round of the loop: the error with which writeOutputs returns, and the state after it
  unfoldable pub write_payloads : PortDef → Result E (List ℕ) → Result E (List ℕ) → S → Option E × S
  unfolding output_frame
  write_payloads def (err e) report s = (some e, s)
  write_payloads def (ok payload) (err e) s = (some e, s)
  write_payloads def (ok payload) (ok report) s = write_frame (output_frame def payload report) s

module _ {Any E S : Type 0} (encode : Any → Result E (List ℕ)) (report_output : Any → Option Any)
    (write_frame : OutputFrame → S → Option E × S) where
  unfoldable pub write_output : PortDef → Option Any → S → Option E × S
  unfolding report_payload_of write_payloads
  write_output def none s = (none, s)
  write_output def (some value) s =
      write_payloads write_frame def (encode value)
        (report_payload_of encode report_output def value) s

  -- writeOutputs; `output` is env.Output
  unfoldable pub write_outputs : (Text → Option Any) → List PortDef → S → Option E × S
  unfolding write_output unless_failed
  write_outputs output [] s = (none, s)
  write_outputs output (def ∷ defs) s =
      let r = write_output def (output def.name) s in
      let rest = write_outputs output defs r.1 in unless_failed r.0 r.1 rest

pub data OutputError (E : Type 0) : Type 0 where
  missing_output : OutputError E
  output_not_decoded report_not_decoded output_not_set : Text → E → OutputError E

module _ {Any E S : Type 0} (nil : Any) (decode : List ℕ → Result E Any)
    (set_output : Text → Stored Any → S → Option E × S) where
  unfoldable pub decoded_or : Any → List ℕ → Result E Any
  decoded_or value bytes = if length bytes == 0 then ok value else decode bytes

  -- What is stored, of a value that may be nil
  unfoldable pub stored_report : Text → Any → Result E Any → Result (OutputError E) (Stored Any)
  stored_report name value (err e) = err (report_not_decoded name e)
  stored_report name value (ok report) = ok (reportable_output value report)

  unfoldable pub stored_value :
      Text → PortValue → Result E Any → Result (OutputError E) (Stored Any)
  unfolding stored_report decoded_or
  stored_value name v (err e) = err (output_not_decoded name e)
  stored_value name v (ok value) =
      if v.reportable && not v.sensitive
      then stored_report name value (decoded_or value v.report_payload)
      else ok (plain value)

  unfoldable pub stored_of : Text → Option PortValue → Result (OutputError E) (Stored Any)
  unfolding stored_value decoded_or
  stored_of name none = ok (plain nil)
  stored_of name (some v) = stored_value name v (decoded_or nil v.payload)

  named_error : Text → Option E → Option (OutputError E)
  named_error name none = none
  named_error name (some e) = some (output_not_set name e)

  unfoldable pub set_stored :
      Text → Result (OutputError E) (Stored Any) → S → Option (OutputError E) × S
  unfolding named_error
  set_stored name (err e) s = (some e, s)
  set_stored name (ok stored) s = let r = set_output name stored s in (named_error name r.0, r.1)

  -- setOutputFromFrame
  unfoldable pub set_output_from_frame : Option OutputFrame → S → Option (OutputError E) × S
  unfolding stored_of set_stored
  set_output_from_frame none s = (some missing_output, s)
  set_output_from_frame (some output) s =
      set_stored output.name (stored_of output.name output.value) s
