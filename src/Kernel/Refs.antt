-- ===== src/Kernel/Refs.antt =====
-- parseRef and resolveInput of kernel.go: which output feeds an input.
pub mod Picked
pub mod Laws
pub mod Parsing
use wkbench.Base.{
  Bool, true, false, not, ◌&&◌, ◌||◌, Option, none, some, List, [], ◌∷◌, ◌++◌, map, Result, ok, err,
  ◌>>=◌, Text, text, text_eq, trim_space, split, filter, Dict, lookup, insert, if◌then◌else◌,
}
use wkbench.Base.Sort.{sort}
use wkbench.Contract.{PortDef}

pub record ResourceRef : Type 0 where
  pub unit : Text
  pub port : Text

pub record Provider : Type 0 where
  pub ref : ResourceRef
  pub port : PortDef

pub data WireError : Type 0 where
  bad_reference : (unit input : Text) → WireError
  wrong_type :
      (unit input : Text) (expected : Text) (ref : ResourceRef) (provided : Text) → WireError
  unknown_output : (unit input raw : Text) → WireError
  no_provider : (unit input type : Text) → WireError
  ambiguous : (unit input type : Text) (refs : List Text) → WireError

-- resourceRef.String
unfoldable pub ref_string : ResourceRef → Text
ref_string r = r.unit ++ b'.' ∷ r.port

two_parts : List Text → Option ResourceRef
two_parts (unit ∷ port ∷ []) =
    if text_eq unit (text "") || text_eq port (text "")
    then none
    else some (record { unit = unit; port = port })
two_parts _ = none

unfoldable pub parse_ref : Text → Option ResourceRef
unfolding two_parts
parse_ref raw = two_parts (split b'.' (trim_space raw))

-- the comparison `p.ref == ref` of structs
abbrev pub ref_eq : ResourceRef → ResourceRef → Bool
ref_eq r s = text_eq r.unit s.unit && text_eq r.port s.port

unfoldable pub find_provider : ResourceRef → List Provider → Option Provider
find_provider ref [] = none
find_provider ref (p ∷ ps) = if ref_eq p.ref ref then some p else find_provider ref ps

abbrev pub zero_ref : ResourceRef
zero_ref = record { unit = []; port = [] }

module _ (unit_name : Text) (input : PortDef) where
  check_type : Text → ResourceRef → Option Provider → Result WireError ResourceRef
  check_type raw ref none = err (unknown_output unit_name input.name raw)
  check_type raw ref (some p) =
      if text_eq p.port.type input.type
      then ok ref
      else err (wrong_type unit_name input.name input.type ref p.port.type)

  explicit_input : List Provider → Text → Option ResourceRef → Result WireError ResourceRef
  unfolding check_type
  explicit_input providers raw none = err (bad_reference unit_name input.name)
  explicit_input providers raw (some ref) = check_type raw ref (find_provider ref providers)

  -- An output of another unit that has the type of the input.
  abbrev pub is_candidate : Provider → Bool
  is_candidate p = not (text_eq p.ref.unit unit_name) && text_eq p.port.type input.type

  auto_input : List Provider → Result WireError ResourceRef
  auto_input [] =
      if input.optional then ok zero_ref else err (no_provider unit_name input.name input.type)
  auto_input (c ∷ []) = ok c.ref
  auto_input (c ∷ d ∷ cs) =
      err (
        ambiguous unit_name input.name input.type (sort (map (λ p. ref_string p.ref) (c ∷ d ∷ cs))))

  choose_input : List Provider → Option Text → Result WireError ResourceRef
  unfolding explicit_input auto_input
  choose_input providers (some raw) = explicit_input providers raw (parse_ref raw)
  choose_input providers none = auto_input (filter is_candidate providers)

  -- resolveInput
  unfoldable pub resolve_input : Dict Text → List Provider → Result WireError ResourceRef
  unfolding choose_input
  resolve_input explicit providers = choose_input providers (lookup input.name explicit)
