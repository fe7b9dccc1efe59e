-- ===== src/Plugin/Outputs/Secrets.antt =====
-- The reports of sensitive outputs: what writeOutputs sends of them.
use mathlib.Core.List.{Memᴰ}
use wkbench.Base.{
  ℕ, Bool, true, false, ◌&&◌, Option, none, some, List, [], ◌∷◌, All, Result, ok, err, Text, ◌≡◌,
  refl, arith, sym, ok-injective,
}
use wkbench.Contract.{PortDef}
use wkbench.Plugin.Messages.{PortValue}
use wkbench.Plugin.Outputs.{
  OutputFrame, is_reported, report_payload_of, output_frame, write_payloads, write_output,
  unless_failed, write_outputs,
}

&&-false : (b : Bool) → (b && false) ≡ false
&&-false b = ground arith

-- A frame of one of the declared outputs, marked as sensitive if that is; and a sensitive one comes
-- without a report.
pub record KeepsSecret (defs : List PortDef) (frame : OutputFrame) : Type 0 where
  pub def : PortDef
  pub declared : Memᴰ def defs
  pub name : frame.name ≡ def.name
  pub value : PortValue
  pub carried : frame.value ≡ some value
  pub marked : value.sensitive ≡ def.meta.sensitive
  pub no_report : def.meta.sensitive ≡ true → value.report_payload ≡ []

module _ {Any E : Type 0} (encode : Any → Result E (List ℕ)) (report_output : Any → Option Any)
    (output : Text → Option Any) where
  secret_report :
      (def : PortDef) (value : Any) (bytes : List ℕ)
      → report_payload_of encode report_output def value ≡ ok bytes
      → def.meta.sensitive ≡ true
      → bytes ≡ []
  unfolding report_payload_of is_reported
  secret_report def value bytes e secret =
      let none_sent : ok [] ≡ ok bytes = rw (secret, &&-false def.meta.reportable) at e in
      sym (ok-injective none_sent)

  module _ (fails : OutputFrame → Option E) where
    -- Each frame is tried once, and may fail.
    abbrev pub try_output : OutputFrame → List OutputFrame → Option E × List OutputFrame
    try_output frame sent = (fails frame, frame ∷ sent)

    payloads_secret :
        (all : List PortDef) (def : PortDef) (payload report : Result E (List ℕ))
        (sent : List OutputFrame)
        → Memᴰ def all
        → ((bytes : List ℕ) → report ≡ ok bytes → def.meta.sensitive ≡ true → bytes ≡ [])
        → All (KeepsSecret all) sent
        → All (KeepsSecret all) (write_payloads try_output def payload report sent).1
    unfolding write_payloads output_frame
    payloads_secret all def (err e) report sent m empty kept = kept
    payloads_secret all def (ok payload) (err e) sent m empty kept = kept
    payloads_secret all def (ok payload) (ok report) sent m empty kept = (
      record {
        def = def;
        declared = m;
        name = refl;
        value = _;
        carried = refl;
        marked = refl;
        no_report = λ secret. empty report refl secret;
      },
      kept,
    )

    output_secret :
        (all : List PortDef) (def : PortDef) (value : Option Any) (sent : List OutputFrame)
        → Memᴰ def all
        → All (KeepsSecret all) sent
        → All (KeepsSecret all) (write_output encode report_output try_output def value sent).1
    unfolding write_output
    output_secret all def none sent m kept = kept
    output_secret all def (some value) sent m kept =
        payloads_secret all def (encode value) (report_payload_of encode report_output def value)
          sent m (λ bytes e secret. secret_report def value bytes e secret) kept

    outputs_secret :
        (all defs : List PortDef) (sent : List OutputFrame)
        → ((def : PortDef) → Memᴰ def defs → Memᴰ def all)
        → All (KeepsSecret all) sent
        → All (KeepsSecret all) (write_outputs encode report_output try_output output defs sent).1
    unfolding write_outputs unless_failed
    outputs_secret all [] sent within kept = kept
    outputs_secret all (def ∷ defs) sent within kept =
        let r = write_output encode report_output try_output def (output def.name) sent in
        let one = output_secret all def (output def.name) sent (within def (Memᴰ.head refl)) kept in
        go r.0 r.1 _ one (outputs_secret all defs r.1 (λ d m. within d (Memᴰ.tail m)) one)
      where
        go :
            (failed : Option E) (now : List OutputFrame) (rest : Option E × List OutputFrame)
            → All (KeepsSecret all) now
            → All (KeepsSecret all) rest.1
            → All (KeepsSecret all) (unless_failed failed now rest).1
        go none now rest a b = b
        go (some e) now rest a b = a

    -- Whether or not a frame fails, each frame that writeOutputs sends is of one of the declared
    -- outputs and marked as sensitive exactly if the definition of that output is, and then it
    -- carries no report.
    pub write_outputs-KeepsSecret :
        (defs : List PortDef)
        → All (KeepsSecret defs) (write_outputs encode report_output try_output output defs []).1
    write_outputs-KeepsSecret defs = outputs_secret defs defs [] (λ d m. m) tt
