-- ===== src/Kernel/Env.antt =====
-- runEnv of kernel.go: what a running unit is given. The file of an artifact and its directory are
-- outside: `create` is os.MkdirAll and os.Create, with their error.
use wkbench.Base.{
  ℕ, ℤ, natural, zero, suc, ◌+◌, ◌%◌, ◌==◌, Bool, false, ◌||◌, ◌&&◌, Option, none, some, List, [],
  ◌∷◌, Result, ok, err, ◌>>=◌, Text, text, text_eq, trim_space, is_space, Dict, lookup,
  if◌then◌else◌, ◌≡◌, ◌≢◌, refl, arith, ◌⊎◌, ◌↔◌,
}
use wkbench.Contract.{PortDef, ArtifactDef}
use wkbench.Units.Decimal.{name_at, name_at-injective}
use wkbench.Kernel.Refs.{ResourceRef}
use wkbench.Kernel.Topo.{GraphNode}
use wkbench.Kernel.Outputs.{OutputStore, OutputError, set, get}
use wkbench.Kernel.Outputs.Laws.{set-get, set-get_ne}

pub data InputError : Type 0 where
  not_wired : Text → InputError
  not_there : OutputError → InputError

read_value : {A : Type 0} → (A → A) → Result OutputError A → Result InputError A
read_value unwrap (err e) = err (not_there e)
read_value unwrap (ok value) = ok (unwrap value)

read_bound :
    {A : Type 0} → (A → A) → OutputStore A → Text → Option ResourceRef → Result InputError A
unfolding read_value
read_bound unwrap outputs name none = err (not_wired name)
read_bound unwrap outputs name (some ref) = read_value unwrap (get outputs ref.unit ref.port)

-- runEnv.Input; `unwrap` is the type test for OutputWrapper with the call of OutputValue, which leaves
-- any other value as it is
unfoldable pub input :
    {A U Spec : Type 0} → (A → A) → OutputStore A → GraphNode U Spec → Text → Result InputError A
unfolding read_bound
input unwrap outputs node name = read_bound unwrap outputs name (lookup name node.bindings)

-- The loop of InputSourcePort
port_named : Text → List PortDef → Option PortDef
port_named name [] = none
port_named name (p ∷ ps) = if text_eq p.name name then some p else port_named name ps

source_port : {U Spec : Type 0} → Text → Option (GraphNode U Spec) → Option PortDef
unfolding port_named
source_port port none = none
source_port port (some node) = port_named port node.def.outputs

bound_port : {U Spec : Type 0} → Dict (GraphNode U Spec) → Option ResourceRef → Option PortDef
unfolding source_port
bound_port nodes none = none
bound_port nodes (some ref) = source_port ref.port (lookup ref.unit nodes)

-- runEnv.InputSourcePort, of the unit of that name; its node is in the graph
unfoldable pub input_source_port :
    {U Spec : Type 0} → Dict (GraphNode U Spec) → GraphNode U Spec → Text → Option PortDef
unfolding bound_port
input_source_port nodes node name = bound_port nodes (lookup name node.bindings)

-- runEnv.NextID, with the counter after it; the counter is below 2^63 - 1
unfoldable pub next_id : Text → ℕ → Text × ℕ
next_id prefix next =
    (name_at (if text_eq prefix [] then text "id" else prefix) (next + 1), next + 1)

payload_from : ℕ → ℕ → List ℕ
payload_from i zero = []
payload_from i (suc n) = (97 + i % 26) ∷ payload_from (suc i) n

-- runEnv.Payload; the nil slice is the empty list
unfoldable pub payload : ℤ → List ℕ
unfolding payload_from
payload size = payload_from 0 (natural size)

-- containsWhitespace
unfoldable pub contains_whitespace : Text → Bool
contains_whitespace [] = false
contains_whitespace (c ∷ s) = is_space c || contains_whitespace s

-- strings.Contains(name, "..")
unfoldable pub has_dots : Text → Bool
has_dots [] = false
has_dots (c ∷ []) = false
has_dots (c ∷ d ∷ s) = (c == 46 && d == 46) || has_dots (d ∷ s)

-- strings.ContainsAny(name, `/\`)
unfoldable pub has_separator : Text → Bool
has_separator [] = false
has_separator (c ∷ s) = c == 47 || c == 92 || has_separator s

pub data ArtifactError (E : Type 0) : Type 0 where
  not_declared name_required not_simple unit_required unit_not_simple report_dir_required :
      ArtifactError E
  create_failed : E → ArtifactError E

-- The condition of validateArtifactName and of validateArtifactUnitName
unfoldable pub is_no_segment : Text → Bool
unfolding contains_whitespace has_dots has_separator
is_no_segment name =
    let trimmed = trim_space name in
    text_eq trimmed []
    || text_eq trimmed (text ".")
    || contains_whitespace name
    || has_dots name
    || has_separator name

-- validateArtifactName and validateArtifactUnitName, which differ in the two errors
unfoldable pub validate_segment :
    {E : Type 0} → ArtifactError E → ArtifactError E → Text → Result {0, 0} (ArtifactError E) Unit
unfolding is_no_segment
validate_segment required no_segment name =
    if text_eq name [] then err required else if is_no_segment name then err no_segment else ok tt

opened : {E W File : Type 0} → Result E File × W → Result (ArtifactError E) (File × W)
opened (err e, w) = err (create_failed e)
opened (ok file, w) = ok (file, w)

open_in :
    {E W File : Type 0}
    → (Text → Text → Text → W → Result E File × W)
    → Text
    → Text
    → Text
    → W
    → Result (ArtifactError E) (File × W)
unfolding opened
open_in create report_dir unit name w =
    if text_eq (trim_space report_dir) []
    then err report_dir_required
    else opened (create (trim_space report_dir) unit name w)

open_declared :
    {E W File : Type 0}
    → (Text → Text → Text → W → Result E File × W)
    → Text
    → Text
    → Text
    → W
    → Option ArtifactDef
    → Result (ArtifactError E) (File × W)
unfolding validate_segment open_in
open_declared create report_dir unit name w none = err not_declared
open_declared create report_dir unit name w (some def) =
    validate_segment name_required not_simple name >>= λ _.
    validate_segment unit_required unit_not_simple unit >>= λ _.
    open_in create report_dir unit name w

-- runEnv.OpenArtifact; `defs` are the declared artifacts, and `create` is given the report directory,
-- the unit and the file name
unfoldable pub open_artifact :
    {E W File : Type 0}
    → (Text → Text → Text → W → Result E File × W)
    → Dict ArtifactDef
    → Text
    → Text
    → Text
    → W
    → Result (ArtifactError E) (File × W)
unfolding open_declared
open_artifact create defs report_dir unit name w =
    open_declared create report_dir unit name w (lookup name defs)

read_value_iff :
    {A : Type 0} (unwrap : A → A) (r s : Result OutputError A) (read : A)
    → ((v : A) → (r ≡ ok v) ↔ (s ≡ ok v))
    → (read_value unwrap r ≡ ok read) ↔ (read_value unwrap s ≡ ok read)
unfolding read_value
read_value_iff unwrap (ok v) s read same = let e = (same v).0 refl in rw e (λ h. h, λ h. h)
read_value_iff unwrap (err x) (ok v) read same = let e = (same v).1 refl in absurd (cc)
read_value_iff unwrap (err x) (err y) read same = (λ h. absurd (cc), λ h. absurd (cc))

-- After a port puts out a value, an input bound to the port reads that value, whatever was there
-- before, and an input of any unit that is bound to another port reads a value exactly if it read
-- that value before.
pub set-input :
    {A U Spec : Type 0} (unwrap : A → A) (outputs : OutputStore A) (node : GraphNode U Spec)
    (name : Text) (ref : ResourceRef) (value : A) (reader : GraphNode U Spec) (other : Text)
    (from : ResourceRef) (read : A)
    → lookup name node.bindings ≡ some ref
    → lookup other reader.bindings ≡ some from
    → (from.unit ≢ ref.unit) ⊎ (from.port ≢ ref.port)
    → (input unwrap (set outputs ref.unit ref.port value) node name ≡ ok (unwrap value))
      × ((input unwrap (set outputs ref.unit ref.port value) reader other ≡ ok read)
          ↔ (input unwrap outputs reader other ≡ ok read))
unfolding input read_bound
set-input unwrap outputs node name ref value reader other from read bound bound' ne = (
  (rw (bound, set-get outputs ref.unit ref.port value) refl),
  rw bound' (
      read_value_iff unwrap (get (set outputs ref.unit ref.port value) from.unit from.port)
        (get outputs from.unit from.port) read
        (λ v. set-get_ne outputs ref.unit ref.port value from.unit from.port v ne)),
)

-- Two ids that a unit is given with one prefix differ, as its counter goes up with each.
pub next_id-ne : (prefix : Text) (m n : ℕ) → m ≢ n → (next_id prefix m).0 ≢ (next_id prefix n).0
unfolding next_id
next_id-ne prefix m n ne = λ e.
    let same =
      name_at-injective (if text_eq prefix [] then text "id" else prefix) (m + 1) (n + 1) e in
    ne (omega (arith, same))

-- A text that is one segment of a path: neither empty nor the current or the parent directory
pub record IsSegment (name : Text) : Type 0 where
  pub some_text : trim_space name ≢ []
  pub not_current : trim_space name ≢ text "."
  pub no_separator : has_separator name ≡ false
  pub no_dots : has_dots name ≡ false
  pub no_whitespace : contains_whitespace name ≡ false
