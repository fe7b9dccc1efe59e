-- ===== src/Plugin/Outputs/Publishing.antt =====
-- What the outputs of a remote unit come to on the host.
use wkbench.Base.{
  ℕ, ◌==◌, Bool, true, false, Option, none, some, List, [], ◌∷◌, Result, ok, err, Text, length, ◌≡◌,
  refl, Bool-cases, inl, inr,
}
use wkbench.Contract.{PortDef}
use wkbench.Plugin.Outputs.{
  OutputError, output_not_set, named_error, OutputFrame, Stored, plain, reportable_output,
  report_value, is_reported, report_payload_of, output_frame, write_payloads, write_output,
  unless_failed, write_outputs, decoded_or, stored_report, stored_value, stored_of, set_stored,
  set_output_from_frame,
}

module _ {Any E : Type 0} (encode : Any → Result E (List ℕ)) (report_output : Any → Option Any)
    (output : Text → Option Any) where
  module _ {S : Type 0} (nil : Any) (decode : List ℕ → Result E Any) (canonical : Any → Any)
      (set_output : Text → Stored Any → S → Option E × S)
      (decode-encode : (value : Any) (bytes : List ℕ)
        → encode value ≡ ok bytes
        → ((length bytes == 0) ≡ false) × (decode bytes ≡ ok (canonical value))) where
    -- What a run of the host has come to: the error that has ended it, and its environment
    abbrev pub HostRun : Type 0
    HostRun = Option (OutputError E) × S

    -- A frame that is written comes to the host's setOutputFromFrame, whose error ends the host's
    -- run; the host sets nothing after that.
    deliver_to : OutputFrame → HostRun → HostRun
    deliver_to frame (some e, s) = (some e, s)
    deliver_to frame (none, s) = set_output_from_frame nil decode set_output (some frame) s

    unfoldable pub deliver_output : OutputFrame → HostRun → Option E × HostRun
    unfolding deliver_to
    deliver_output frame run = (none, deliver_to frame run)

    report_or : Any → Option Any → Any
    report_or value none = value
    report_or value (some report) = report

    -- What is reported of a value: what its ReportOutput gives, or the value where it has none
    report_of : Any → Any
    unfolding report_or
    report_of value = report_or value (report_output value)

    direct_at : (reportable sensitive : Bool) → Any → Stored Any
    unfolding report_of
    direct_at false sensitive value = plain (canonical value)
    direct_at true true value = plain (canonical value)
    direct_at true false value = reportable_output (canonical value) (canonical (report_of value))

    -- An output as the host's environment is to hold it, in its JSON form: with its report where
    -- the port is reportable and not sensitive
    direct : PortDef → Any → Stored Any
    unfolding direct_at
    direct def value = direct_at def.meta.reportable def.meta.sensitive value

    host_error : Text → Option E → Option (OutputError E)
    host_error name none = none
    host_error name (some e) = some (output_not_set name e)

    set_directly : PortDef → Any → HostRun → HostRun
    unfolding direct host_error
    set_directly def value (some e, s) = (some e, s)
    set_directly def value (none, s) =
        let r = set_output def.name (direct def value) s in (host_error def.name r.0, r.1)

    encoding_error : Result E (List ℕ) → Option E → Option E
    encoding_error (err e) next = some e
    encoding_error (ok bytes) next = next

    report_error : (reportable sensitive : Bool) → Result E (List ℕ) → Option E
    unfolding encoding_error
    report_error false sensitive r = none
    report_error true true r = none
    report_error true false r = encoding_error r none

    -- The error of an output that has no JSON form, or whose report is wanted and has none
    failure : PortDef → Any → Option E
    unfolding encoding_error report_error report_of
    failure def value =
        encoding_error (encode value)
          (report_error def.meta.reportable def.meta.sensitive (encode (report_of value)))

    after_failure : Option E → HostRun → HostRun → Option E × HostRun
    after_failure (some e) run set = (some e, run)
    after_failure none run set = (none, set)

    publish_one : PortDef → Option Any → HostRun → Option E × HostRun
    unfolding set_directly failure after_failure
    publish_one def none run = (none, run)
    publish_one def (some value) run =
        after_failure (failure def value) run (set_directly def value run)

    continue : Option E × HostRun → Option E × HostRun → Option E × HostRun
    continue (some e, run) rest = (some e, run)
    continue (none, run) rest = rest

    -- The outputs that are set, each set in the host's environment at once, up to the first that has
    -- no JSON form, where the plugin stops, or whose setting fails, where the host does.
    unfoldable pub publish : List PortDef → HostRun → Option E × HostRun
    unfolding publish_one continue
    publish [] run = (none, run)
    publish (def ∷ defs) run =
        let r = publish_one def (output def.name) run in
        let rest = publish defs r.1 in continue r rest

    report_value-report_of :
        (value : Any) → report_value value (report_output value) ≡ report_of value
    unfolding report_value report_of report_or
    report_value-report_of value = go (report_output value)
      where
        go : (o : Option Any) → report_value value o ≡ report_or value o
        go none = refl
        go (some report) = refl

    -- What the two encodings say of an output: whether it fails, and what the host makes of them.
    record IsEncoded (def : PortDef) (value : Any) (payload report : List ℕ) : Type 0 where
      no_failure : failure def value ≡ none
      stored :
          stored_of nil decode set_output def.name (output_frame def payload report).value
          ≡ ok (direct def value)

    IsEncoded-both :
        (def : PortDef) (value : Any) (payload report : List ℕ)
        → encode value ≡ ok payload
        → report_payload_of encode report_output def value ≡ ok report
        → IsEncoded def value payload report
    unfolding output_frame stored_of stored_value stored_report decoded_or direct direct_at failure
        encoding_error report_error report_payload_of is_reported
    IsEncoded-both def value payload report e f =
        let (full, back) = decode-encode value payload e in
        elim (Bool-cases def.meta.reportable) [
          | inr unreported ↦ record {
            no_failure = rw (e, unreported) refl;
            stored = rw (full, back, unreported) refl;
          }
          | inl reportable ↦ elim (Bool-cases def.meta.sensitive) [
            | inl secret ↦ record {
              no_failure = rw (e, reportable, secret) refl;
              stored = rw (full, back, reportable, secret) refl;
            }
            | inr shown ↦
                let sent : encode (report_of value) ≡ ok report =
                  rw (← report_value-report_of value) (rw (reportable, shown) at f) in
                let (full', back') = decode-encode (report_of value) report sent in
                record {
                  no_failure = rw (e, reportable, shown, sent) refl;
                  stored = rw (full, back, reportable, shown, full', back') refl;
                }
          ]
        ]

    failed_report :
        (def : PortDef) (value : Any) (payload : List ℕ) (error : E)
        → encode value ≡ ok payload
        → report_payload_of encode report_output def value ≡ err error
        → failure def value ≡ some error
    unfolding failure encoding_error report_error report_payload_of is_reported
    failed_report def value payload error e f = elim (Bool-cases def.meta.reportable) [
      | inr unreported ↦ let k : ok [] ≡ err error = rw unreported at f in absurd (cc)
      | inl reportable ↦ elim (Bool-cases def.meta.sensitive) [
        | inl secret ↦ let k : ok [] ≡ err error = rw (reportable, secret) at f in absurd (cc)
        | inr shown ↦
            let sent : encode (report_of value) ≡ err error =
              rw (← report_value-report_of value) (rw (reportable, shown) at f) in
            rw (e, reportable, shown, sent) refl
      ]
    ]

    delivered :
        (def : PortDef) (value : Any) (payload report : List ℕ) (run : HostRun)
        → stored_of nil decode set_output def.name (output_frame def payload report).value
          ≡ ok (direct def value)
        → deliver_to (output_frame def payload report) run ≡ set_directly def value run
    unfolding output_frame set_output_from_frame set_stored named_error host_error set_directly
        deliver_to
    delivered def value payload report (some e, s) h = refl
    delivered def value payload report (none, s) h =
        rw h (go (set_output def.name (direct def value) s))
      where
        go :
            (r : Option E × S)
            → ◌≡◌ {A = HostRun}
                (named_error nil decode set_output def.name r.0, r.1)
                (host_error def.name r.0, r.1)
        go (none, s') = refl
        go (some e, s') = refl

    payloads_published :
        (def : PortDef) (value : Any) (run : HostRun) (payload report : Result E (List ℕ))
        → encode value ≡ payload
        → report_payload_of encode report_output def value ≡ report
        → write_payloads deliver_output def payload report run
          ≡ after_failure (failure def value) run (set_directly def value run)
    unfolding write_payloads after_failure deliver_output failure encoding_error
    payloads_published def value run (err e) report p r = rw p refl
    payloads_published def value run (ok payload) (err e) p r =
        rw (failed_report def value payload e p r) refl
    payloads_published def value run (ok payload) (ok report) p r =
        let both = IsEncoded-both def value payload report p r in
        rw (both.no_failure, delivered def value payload report run both.stored) refl

    output_published :
        (def : PortDef) (value : Option Any) (run : HostRun)
        → write_output encode report_output deliver_output def value run ≡ publish_one def value run
    unfolding write_output publish_one
    output_published def none run = refl
    output_published def (some value) run =
        payloads_published def value run (encode value)
          (report_payload_of encode report_output def value) refl refl

    unless_failed-continue :
        (r rest : Option E × HostRun) → unless_failed r.0 r.1 rest ≡ continue r rest
    unfolding unless_failed continue
    unless_failed-continue (none, run) rest = refl
    unless_failed-continue (some e, run) rest = refl

    -- If decoding a JSON text that a value was encoded as gives the value in its JSON form, then
    -- what the outputs that a remote unit writes come to on the host is as if they were set in its
    -- environment at once, in order and in their JSON form: with the report, which is what the
    -- value's ReportOutput gives or else the value, exactly where the port is reportable and not
    -- sensitive. writeOutputs fails at the first output that has no JSON encoding, and the host sets
    -- no output after one whose setting fails, and keeps that error.
    pub write_outputs-publish :
        (defs : List PortDef) (run : HostRun)
        → write_outputs encode report_output deliver_output output defs run ≡ publish defs run
    unfolding write_outputs publish
    write_outputs-publish [] run = refl
    write_outputs-publish (def ∷ defs) run =
        rw
          (
            output_published def (output def.name) run,
            write_outputs-publish defs (publish_one def (output def.name) run).1,
          )
          (unless_failed-continue (publish_one def (output def.name) run)
            (publish defs (publish_one def (output def.name) run).1))
