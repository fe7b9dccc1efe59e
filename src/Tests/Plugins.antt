-- ===== src/Tests/Plugins.antt =====
-- What crosses between the host and a plugin, on small inputs. A value is a number, its JSON a byte.
use wkbench.Base.{
  ℕ, ◌+◌, ◌==◌, ◌↔◌, pos, true, false, Option, none, some, List, [], ◌∷◌, ◌++◌, map, All, Result,
  ok, err, Text, text, Dict, lookup, insert, text_eq, length, ◌≡◌, refl, arith,
}
use wkbench.Contract.{PortMeta, PortDef, Definition}
use wkbench.Kernel.Outputs.{ports_by_name}
use wkbench.Plugin.Messages.{PortValue}
use wkbench.Plugin.Manifest.{
  PluginUnit, PluginManifest, manifest_to_proto, plugin_from_proto, protocol_version, unit_of,
}
use wkbench.Plugin.Manifest.Handshake.{
  named_by, manifest_to_proto-plugin_from_proto, definitions-handshake, bare, qualified, host_units,
}
use wkbench.Plugin.Requests.{remote_definition}
use wkbench.Plugin.Inputs.{encode_inputs, decode_inputs, json}
use wkbench.Plugin.Inputs.Crossing.{AllCrossed, encode_inputs-AllCrossed}
use wkbench.Plugin.Inputs.Decoding.{sent, decode_inputs-encode_inputs}
use wkbench.Plugin.Outputs.{Stored, write_outputs}
use wkbench.Plugin.Outputs.Publishing.{deliver_output, publish, write_outputs-publish}
use wkbench.Plugin.Outputs.Secrets.{KeepsSecret, try_output, write_outputs-KeepsSecret}
use wkbench.Plugin.Artifacts.Host.{Environment}
use wkbench.Plugin.Artifacts.Remote.{RemoteWriter, write_remote}
use wkbench.Plugin.Artifacts.Delivery.{HostState, Holds, IsWritten, deliver, write_remote-delivered}
use wkbench.Plugin.Artifacts.Chunks.{AreChunks, no_chunk, try_frame, write_remote-AreChunks}
use wkbench.Plugin.Catalog.{new_catalog, resolve_unit}
use wkbench.Plugin.Catalog.Resolving.{offered, IsChosen, resolve_unit-ok_iff}

abbrev to_json : ℕ → Result Text (List ℕ)
to_json n = ok (n ∷ [])

abbrev of_json : List ℕ → Result Text ℕ
of_json [] = err []
of_json (n ∷ ns) = ok n

json_back :
    (n : ℕ) (bytes : List ℕ)
    → to_json n ≡ ok bytes
    → ((length bytes == 0) ≡ false) × (of_json bytes ≡ ok n)
json_back n [] e = absurd (cc)
json_back n (b ∷ bs) e = (ground arith, cc)

abbrev meta : PortMeta
meta = record {
  boundary = [];
  transport = [];
  schema = [];
  encodings = [];
  max_payload_bytes = pos 0;
  sensitive = false;
  reportable = true;
  operations = [];
}

abbrev port : PortDef
port = record { name = text "users"; type = text "n"; optional = false; meta = meta }

abbrev made : Dict PortDef
made = (text "users", port) ∷ []

abbrev seven : Dict ℕ
seven = (text "users", 7) ∷ []

abbrev crossed : Dict PortValue
crossed =
    (
      text "users",
      record {
        type = text "n";
        encoding = json;
        transport = text "inline";
        sensitive = false;
        reportable = false;
        payload = 7 ∷ [];
        report_payload = [];
      },
    )
    ∷ []

seven_crosses : encode_inputs to_json (port ∷ []) made seven ≡ ok crossed
unfolding encode_inputs lookup ports_by_name insert text_eq
seven_crosses = refl

encode_inputs-AllCrossed_example :
    AllCrossed to_json (ports_by_name (port ∷ []) []) made seven crossed
encode_inputs-AllCrossed_example =
    encode_inputs-AllCrossed to_json (port ∷ []) made seven crossed seven_crosses

decode_inputs-encode_inputs_example : decode_inputs {E = Text} 0 of_json (sent crossed) ≡ ok seven
decode_inputs-encode_inputs_example =
    decode_inputs-encode_inputs 0 to_json of_json (λ n. n) json_back (port ∷ []) made seven crossed
      seven_crosses

abbrev secret : PortDef
secret = record port { name = text "token"; meta = record meta { sensitive = true } }

abbrev set_values : Text → Option ℕ
set_values name = some 5

write_outputs-KeepsSecret_example :
    All
      (KeepsSecret (port ∷ secret ∷ []))
      (write_outputs to_json
        (λ n. some (n + 1))
        (try_output to_json (λ n. some (n + 1)) set_values (λ f. none))
        set_values
        (port ∷ secret ∷ [])
        []).1
write_outputs-KeepsSecret_example =
    write_outputs-KeepsSecret to_json (λ n. some (n + 1)) set_values (λ f. none)
      (port ∷ secret ∷ [])

abbrev keep : Text → Stored ℕ → List (Text × Stored ℕ) → Option Text × List (Text × Stored ℕ)
keep name v kept = (none, (name, v) ∷ kept)

write_outputs-publish_example :
    write_outputs to_json
      (λ n. some (n + 1))
      (deliver_output to_json (λ n. some (n + 1)) set_values 0 of_json (λ n. n) keep json_back)
      set_values
      (port ∷ secret ∷ [])
      (none, [])
    ≡ publish to_json
        (λ n. some (n + 1))
        set_values
        0
        of_json
        (λ n. n)
        keep
        json_back
        (port ∷ secret ∷ [])
        (none, [])
write_outputs-publish_example =
    write_outputs-publish to_json (λ n. some (n + 1)) set_values 0 of_json (λ n. n) keep json_back
      (port ∷ secret ∷ []) (none, [])

-- One file, which takes every byte.
abbrev disk : Environment Text Unit (List ℕ)
disk = record {
  open_artifact = λ name file. (ok tt, file);
  write_to = λ w bytes file. (length bytes, none, file ++ bytes);
  close_writer = λ w file. (none, file);
}

abbrev on_disk : Unit {0} → List ℕ → List ℕ
on_disk w file = file

disk_accepts :
    (w : Unit {0}) (bytes file : List ℕ)
    → let r = disk.write_to w bytes file in
      (r.0 ≡ length bytes) × (r.1 ≡ none) × (on_disk w r.2 ≡ on_disk w file ++ bytes)
disk_accepts w bytes file = (refl, refl, refl)

abbrev writer : RemoteWriter
writer = record { name = text "raw"; handle = text "artifact-1"; sequence = 0; closed = false }

abbrev host_now : HostState Unit (List ℕ)
host_now = record {
  artifacts = record {
    next = 1;
    writers = (text "artifact-1", record { name = text "raw"; writer = tt; size = 2 }) ∷ [];
  };
  state = 8 ∷ 9 ∷ [];
}

host-Holds : Holds disk on_disk disk_accepts (text "artifact-1") tt 2 (8 ∷ 9 ∷ []) host_now
unfolding lookup text_eq
host-Holds = record {
  entry = record { name = text "raw"; writer = tt; size = 2 };
  there = refl;
  same_writer = refl;
  counted = refl;
  held = refl;
}

write_remote-delivered_example :
    IsWritten disk on_disk disk_accepts tt 5
      (8 ∷ 9 ∷ 1 ∷ 2 ∷ 3 ∷ [])
      3
      (text "artifact-1")
      (write_remote (deliver disk on_disk disk_accepts) writer (1 ∷ 2 ∷ 3 ∷ []) host_now)
write_remote-delivered_example =
    write_remote-delivered disk on_disk disk_accepts writer (1 ∷ 2 ∷ 3 ∷ []) tt 2 (8 ∷ 9 ∷ [])
      host_now refl host-Holds

write_remote-AreChunks_example :
    let r = write_remote (try_frame {E = Text} (λ chunk. none)) writer (1 ∷ 2 ∷ 3 ∷ []) [] in
    AreChunks (text "artifact-1") r.writer.sequence r.state
write_remote-AreChunks_example =
    write_remote-AreChunks {E = Text} (λ chunk. none) writer (1 ∷ 2 ∷ 3 ∷ []) [] no_chunk

abbrev echo : Definition
echo = record {
  kind = text "demo.echo/v1";
  title = text "Echo";
  description = [];
  inputs = port ∷ [];
  outputs = secret ∷ [];
  metrics = [];
  artifacts = [];
}

abbrev manifest : PluginManifest
manifest = record {
  name = text "demo";
  version = text "dev";
  protocol = protocol_version;
  source = [];
  checksum = [];
  units = unit_of echo true ∷ [];
}

manifest_to_proto-plugin_from_proto_example :
    plugin_from_proto (some (manifest_to_proto manifest))
    ≡ record manifest { units = map (named_by (text "demo")) manifest.units }
manifest_to_proto-plugin_from_proto_example = manifest_to_proto-plugin_from_proto manifest

definitions-handshake_example :
    (map
        (λ u. remote_definition (bare u))
        (host_units (λ u. echo) (λ u. true) (text "demo") (text "dev") (tt ∷ []))
      ≡ echo ∷ [])
    × (map
          (λ u. remote_definition (qualified (text "demo") u))
          (host_units (λ u. echo) (λ u. true) (text "demo") (text "dev") (tt ∷ []))
        ≡ record echo { kind = text "demo" ++ text ":" ++ echo.kind } ∷ [])
definitions-handshake_example =
    definitions-handshake (λ u. echo) (λ u. true) (text "demo") (text "dev") (tt ∷ [])

abbrev echo_unit : PluginUnit
echo_unit = record (unit_of echo true) { plugin_name = text "demo" }

resolve_unit-ok_iff_example :
    (resolve_unit (text "demo:demo.echo/v1") (new_catalog (manifest ∷ [])) ≡ ok echo_unit)
    ↔ IsChosen (text "demo:demo.echo/v1") (offered (manifest ∷ [])) echo_unit
resolve_unit-ok_iff_example =
    resolve_unit-ok_iff (text "demo:demo.echo/v1") (manifest ∷ []) echo_unit
