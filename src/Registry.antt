-- ===== src/Registry.antt =====
-- benchkit/registry/registry.go. A unit is a value of a type `U` that the registry knows only by
-- the definition that it returns.
pub mod Laws
use wkbench.Base.{
  Bool, Option, none, some, List, [], ◌∷◌, ◌++◌, Result, ok, err, ◌>>=◌, Text, text, text_eq,
  trim_space, has_prefix, filter, Dict, lookup, insert, keys, if◌then◌else◌,
}
use wkbench.Base.Sort.{sort}
use wkbench.Contract.{Definition}

pub data RegistryError : Type 0 where
  unit_is_nil : RegistryError
  kind_required : RegistryError
  already_registered : Text → RegistryError
  not_registered : Text → RegistryError
  ambiguous_kind : Text → List Text → RegistryError
  -- a method call on a nil unit, which panics in Go
  nil_dereference : RegistryError

pub record Registry (U : Type 0) : Type 0 where
  pub units : Dict U

unfoldable pub new : {U : Type 0} → Registry U
new = record { units = [] }

module _ {U : Type 0} (definition : U → Definition) where
  -- The end of Register, with what the registry holds for the kind
  abbrev pub added_unless : Registry U → Text → U → Option U → Result RegistryError (Registry U)
  added_unless r kind unit (some _) = err (already_registered kind)
  added_unless r kind unit none = ok (record { units = insert kind unit r.units })

  -- Register; `none` is the nil interface
  unfoldable pub register : Registry U → Option U → Result RegistryError (Registry U)
  register r none = err unit_is_nil
  register r (some unit) =
      let kind = trim_space (definition unit).kind in
      if text_eq kind (text "")
      then err kind_required
      else added_unless r kind unit (lookup kind r.units)

  found : Option U → Result RegistryError (U × Definition)
  found none = err nil_dereference
  found (some unit) = ok (unit, definition unit)

  -- the `switch` on the sorted matches of an unversioned kind
  unversioned : Registry U → Text → List Text → Result RegistryError (U × Definition)
  unfolding found
  unversioned r kind [] = err (not_registered kind)
  unversioned r kind (m ∷ []) = found (lookup m r.units)
  unversioned r kind (m ∷ n ∷ ms) = err (ambiguous_kind kind (m ∷ n ∷ ms))

  exact : Registry U → Text → Option U → Result RegistryError (U × Definition)
  unfolding unversioned
  exact r kind (some unit) = ok (unit, definition unit)
  exact r kind none =
      unversioned r kind
        (sort (filter (λ registered. has_prefix registered (kind ++ text "/")) (keys r.units)))

  -- Resolve
  unfoldable pub resolve : Registry U → Text → Result RegistryError (U × Definition)
  unfolding exact
  resolve r raw =
      let kind = trim_space raw in
      if text_eq kind (text "") then err kind_required else exact r kind (lookup kind r.units)

  definitions_of : Registry U → List Text → Result RegistryError (List Definition)
  unfolding found
  definitions_of r [] = ok []
  definitions_of r (kind ∷ kinds) = found (lookup kind r.units) >>= λ (unit, def).
      definitions_of r kinds >>= λ defs. ok (def ∷ defs)

  -- Definitions: sorted by kind
  unfoldable pub definitions : Registry U → Result RegistryError (List Definition)
  unfolding definitions_of
  definitions r = definitions_of r (sort (keys r.units))
