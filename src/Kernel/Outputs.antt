-- ===== src/Kernel/Outputs.antt =====
-- outputStore of kernel.go: what the units have published, and which of it has to be closed.
pub mod Laws
use wkbench.Base.{
  Bool, Option, none, some, List, [], ◌∷◌, ◌++◌, Result, ok, err, Text, Dict, lookup, insert, keys,
  if◌then◌else◌,
}
use mathlib.Core.List.{reverse}
use wkbench.Base.Sort.{sort}
use wkbench.Contract.{PortDef}

-- `A` is the type of the values, Go's `any`.
pub record OutputStore (A : Type 0) : Type 0 where
  pub values : Dict (Dict A)

pub data OutputError : Type 0 where
  not_produced : Text → OutputError
  not_found : Text → Text → OutputError

-- A nil map is read as an empty one.
abbrev pub or_empty {ℓ} : {A : Type ℓ} → Option (Dict A) → Dict A
or_empty none = []
or_empty (some m) = m

unfoldable pub new_output_store : {A : Type 0} → OutputStore A
new_output_store = record { values = [] }

pub record OutputResult (R : Type 0) : Type 0 where
  pub type : Text
  pub value : Option R

pub record CleanupTarget (A : Type 0) : Type 0 where
  pub unit : Text
  pub port : Text
  pub closeable : A

-- `byName[def.Name] = def` for each definition: a later one replaces an earlier one.
unfoldable pub ports_by_name : List PortDef → Dict PortDef → Dict PortDef
ports_by_name [] m = m
ports_by_name (d ∷ ds) m = ports_by_name ds (insert d.name d m)

module _ {A : Type 0} where
  -- outputStore.set
  unfoldable pub set : OutputStore A → Text → Text → A → OutputStore A
  set s unit port value = record {
    values = insert unit (insert port value (or_empty (lookup unit s.values))) s.values;
  }

  get_port : Text → Text → Option A → Result OutputError A
  get_port unit port none = err (not_found unit port)
  get_port unit port (some value) = ok value

  get_unit : Text → Text → Option (Dict A) → Result OutputError A
  unfolding get_port
  get_unit unit port none = err (not_produced unit)
  get_unit unit port (some ports) = get_port unit port (lookup port ports)

  -- outputStore.get
  unfoldable pub get : OutputStore A → Text → Text → Result OutputError A
  unfolding get_unit
  get s unit port = get_unit unit port (lookup unit s.values)

  -- The loop of resultsForUnit: an output that is not declared is left out.
  declared_results : {R : Type 0} → (A → Option R) → Dict PortDef → Dict A → Dict (OutputResult R)
  declared_results report defs [] = []
  declared_results report defs ((name, value) ∷ ports) =
      let rest = declared_results report defs ports in
      elim (lookup name defs) [
        | none ↦ rest
        | some def ↦ (name, record { type = def.type; value = report value }) ∷ rest
      ]

  -- outputStore.resultsForUnit. `report` is the type test for ReportableOutput with the call of
  -- ReportOutput. The nil result of the source is the empty one.
  unfoldable pub results_for_unit :
      {R : Type 0} → (A → Option R) → OutputStore A → Text → List PortDef → Dict (OutputResult R)
  unfolding ports_by_name declared_results
  results_for_unit report s unit defs =
      declared_results report (ports_by_name defs []) (or_empty (lookup unit s.values))

  -- The loop over the port names of one unit. `closeable` is the type test for CloseableOutput.
  unit_targets : (A → Bool) → Text → Dict A → List Text → List (CleanupTarget A)
  unit_targets closeable unit ports [] = []
  unit_targets closeable unit ports (port ∷ names) =
      let rest = unit_targets closeable unit ports names in
      elim (lookup port ports) [
        | none ↦ rest
        | some value ↦
            if closeable value
            then record { unit = unit; port = port; closeable = value } ∷ rest
            else rest
      ]

  targets_of : (A → Bool) → OutputStore A → List Text → List (CleanupTarget A)
  unfolding unit_targets
  targets_of closeable s [] = []
  targets_of closeable s (unit ∷ units) =
      let ports = or_empty (lookup unit s.values) in
      unit_targets closeable unit ports (reverse (sort (keys ports)))
      ++ targets_of closeable s units

  -- outputStore.cleanupTargets: the units from the last to the first, and of each unit the ports
  -- in descending order.
  unfoldable pub cleanup_targets : (A → Bool) → OutputStore A → List Text → List (CleanupTarget A)
  unfolding targets_of
  cleanup_targets closeable s order = targets_of closeable s (reverse order)
