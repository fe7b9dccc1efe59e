-- ===== src/Registry/Laws.antt =====
-- Register and Resolve of a registry.
use wkbench.Base.{
  List, ◌∷◌, true, keys, contains, contains-lookup, arith, sym, ◌∙◌, false, Option, none, some, [],
  ok, err, Text, text_eq, text_eq_iff, text_eq_refl, trim_space, lookup, insert, lookup-insert, ◌≡◌,
  refl, Bool-cases, inl, inr,
}
use mathlib.Core.List.{map}
use wkbench.Base.Sort.{sort, contains-sort}
use wkbench.Contract.{Definition}
use wkbench.Registry.{
  definitions_of, definitions, kind_required, Registry, register, added_unless, found, exact,
  resolve,
}

module _ {U : Type 0} (definition : U → Definition) where
  -- What Register adds, if it succeeds.
  record IsRegistered (r r' : Registry U) (unit : U) : Type 0 where
    pub added : r'.units ≡ insert (trim_space (definition unit).kind) unit r.units
    pub fresh : lookup (trim_space (definition unit).kind) r.units ≡ none
    pub named : text_eq (trim_space (definition unit).kind) [] ≡ false

  not_the_kind :
      (r : Registry U) (name kind : Text) (other : U)
      → lookup kind r.units ≡ none
      → lookup name r.units ≡ some other
      → text_eq name kind ≡ false
  not_the_kind r name kind other fresh l = elim (Bool-cases (text_eq name kind)) [
    | inr differs ↦ differs
    | inl e ↦ let same = (text_eq_iff name kind).0 e in absurd (cc)
  ]

  register-IsRegistered :
      (r r' : Registry U) (unit : U)
      → register definition r (some unit) ≡ ok r'
      → IsRegistered r r' unit
  unfolding register
  register-IsRegistered r r' unit e =
      elim (Bool-cases (text_eq (trim_space (definition unit).kind) [])) [
        | inl empty ↦ absurd (let k : err kind_required ≡ ok r' = rw empty at e in cc)
        | inr named ↦
            go named (lookup (trim_space (definition unit).kind) r.units) refl (rw named at e)
      ]
    where
      go :
          text_eq (trim_space (definition unit).kind) [] ≡ false
          → (old : Option U) → lookup (trim_space (definition unit).kind) r.units ≡ old
          → added_unless definition r (trim_space (definition unit).kind) unit old ≡ ok r'
          → IsRegistered r r' unit
      go named (some u) l k = absurd (cc)
      go named none l k = record { added = cc; fresh = l; named = named }

  resolve-exact :
      (r : Registry U) (raw : Text) (unit : U)
      → text_eq (trim_space raw) [] ≡ false
      → lookup (trim_space raw) r.units ≡ some unit
      → resolve definition r raw ≡ ok (unit, definition unit)
  unfolding resolve exact
  resolve-exact r raw unit named l = rw (named, l) refl

  resolve-named :
      (r : Registry U) (raw : Text) (found : U × Definition)
      → resolve definition r raw ≡ ok found
      → text_eq (trim_space raw) [] ≡ false
  unfolding resolve
  resolve-named r raw found e = elim (Bool-cases (text_eq (trim_space raw) [])) [
    | inl empty ↦ absurd (let k : err kind_required ≡ ok found = rw empty at e in cc)
    | inr named ↦ named
  ]

  -- After a unit is registered, every spelling of its kind resolves to it, and every other kind that
  -- was found in the registry as it is written still resolves to the unit it did.
  pub register-resolve :
      (r r' : Registry U) (unit : U)
      → register definition r (some unit) ≡ ok r'
      → ((raw : Text)
          → trim_space raw ≡ trim_space (definition unit).kind
          → resolve definition r' raw ≡ ok (unit, definition unit))
        × ((raw : Text) (other : U)
            → lookup (trim_space raw) r.units ≡ some other
            → resolve definition r raw ≡ ok (other, definition other)
            → resolve definition r' raw ≡ ok (other, definition other))
  register-resolve r r' unit e =
      let i = register-IsRegistered r r' unit e in
      let kind = trim_space (definition unit).kind in
      (
        (λ raw same.
            resolve-exact r' raw unit (rw same i.named)
              (rw (same, i.added, lookup-insert, text_eq_refl kind) refl)),
        (λ raw other l old.
            let differs : text_eq (trim_space raw) kind ≡ false =
              not_the_kind r (trim_space raw) kind other i.fresh l in
            resolve-exact r' raw other (resolve-named r raw (other, definition other) old)
              (rw (i.added, lookup-insert, differs) l)),
      )

  definitions_of-ok :
      (r : Registry U) (kinds : List Text)
      → ((kind : Text) → contains kind kinds ≡ true → contains kind (keys r.units) ≡ true)
      → (units : List U) × (map (λ kind. lookup kind r.units) kinds ≡ map some units)
        × (definitions_of definition r kinds ≡ ok (map definition units))
  unfolding definitions_of found contains
  definitions_of-ok r [] known = ([], refl, refl)
  definitions_of-ok r (kind ∷ kinds) known =
      let here : contains kind (keys r.units) ≡ true = known kind (rw text_eq_refl refl) in
      let (unit, there) = contains-lookup kind r.units here in
      let (units, all, rest) = definitions_of-ok r kinds (λ x m. known x (ground (arith, m))) in
      (unit ∷ units, rw (there, all) refl, rw (there, rest) refl)

  -- Definitions never fails: each kind in the sorted list of the registered kinds has a unit, and
  -- the definitions are those of these units, one for each kind, in the order of that list.
  pub definitions-ok :
      (r : Registry U)
      → (units : List U) × (map (λ kind. lookup kind r.units) (sort (keys r.units))
          ≡ map some units)
        × (definitions definition r ≡ ok (map definition units))
  unfolding definitions
  definitions-ok r =
      definitions_of-ok r (sort (keys r.units))
        (λ kind m. sym (contains-sort kind (keys r.units)) ∙ m)
