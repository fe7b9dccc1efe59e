-- ===== src/Plugin/Catalog/Resolving.antt =====
-- What Resolve finds, without the map and the order of the catalog.
use wkbench.Base.{
  Bool, true, false, ◌&&◌, Option, none, some, List, [], ◌∷◌, ◌++◌, append_assoc, append-nil,
  Result, ok, err, Text, text_eq, text_eq_iff, trim_space, Dict, lookup, lookup-insert, filter, ◌≡◌,
  ◌↔◌, refl, sym, ap, ◌∙◌, arith, Bool-cases, inl, inr, ok-injective, err≢ok, fun_ext,
  if◌then◌else◌,
}
use wkbench.Plugin.Manifest.{PluginUnit, PluginManifest}
use wkbench.Plugin.Catalog.{
  kind_is_required, units_or_none, add_unit, add_units, add_plugins, insert_unit, sort_units,
  sort_kinds, new_catalog, cut_colon, only_of, only_kind, units_of_kind, is_of, resolve_of,
  resolve_parts, resolve_trimmed, resolve_unit,
}

offered_by : Text → List PluginUnit → List PluginUnit
offered_by plugin [] = []
offered_by plugin (u ∷ us) = record u { plugin_name = plugin } ∷ offered_by plugin us

-- All units of all plugins, with the names of their plugins.
unfoldable pub offered : List PluginManifest → List PluginUnit
unfolding offered_by
offered [] = []
offered (p ∷ ps) = offered_by p.name p.units ++ offered ps

-- None, one, or more.
data Found : Type 0 where
  nothing : Found
  one : PluginUnit → Found
  many : Found

one_more : PluginUnit → Found → Found
one_more u nothing = one u
one_more u (one v) = many
one_more u many = many

one_more_comm :
    (u v : PluginUnit) (f : Found) → one_more u (one_more v f) ≡ one_more v (one_more u f)
unfolding one_more
one_more_comm u v nothing = refl
one_more_comm u v (one w) = refl
one_more_comm u v many = refl

found : (PluginUnit → Bool) → List PluginUnit → Found
unfolding one_more
found p [] = nothing
found p (u ∷ us) = let f = found p us in if p u then one_more u f else f

found-insert_unit :
    (p : PluginUnit → Bool) (u : PluginUnit) (us : List PluginUnit)
    → found p (insert_unit u us) ≡ found p (u ∷ us)
unfolding found insert_unit
found-insert_unit p u [] = refl
found-insert_unit p u (v ∷ vs) =
    ground (arith, found-insert_unit p u vs, one_more_comm u v (found p vs))

found-sort_units :
    (p : PluginUnit → Bool) (us : List PluginUnit) → found p (sort_units us) ≡ found p us
unfolding found sort_units
found-sort_units p [] = refl
found-sort_units p (u ∷ us) =
    found-insert_unit p u (sort_units us)
    ∙ ap (λ f. if p u then one_more u f else f) (found-sort_units p us)

found-filter :
    (p q : PluginUnit → Bool) (us : List PluginUnit)
    → found p (filter q us) ≡ found (λ u. q u && p u) us
unfolding found filter
found-filter p q [] = refl
found-filter p q (u ∷ us) = elim (Bool-cases (q u)) [
  | inl keeps ↦ rw keeps (ap (λ f. if p u then one_more u f else f) (found-filter p q us))
  | inr drops ↦ rw drops (found-filter p q us)
]

abbrev has_kind : Text → PluginUnit → Bool
has_kind kind u = text_eq kind u.kind

filter-append :
    (p : PluginUnit → Bool) (us vs : List PluginUnit)
    → filter p (us ++ vs) ≡ filter p us ++ filter p vs
unfolding filter
filter-append p [] vs = refl
filter-append p (u ∷ us) vs = elim (Bool-cases (p u)) [
  | inl keeps ↦ rw keeps (ap (λ l. u ∷ l) (filter-append p us vs))
  | inr drops ↦ rw drops (filter-append p us vs)
]

lookup-sort_kinds :
    (kind : Text) (m : Dict (List PluginUnit))
    → units_or_none (lookup kind (sort_kinds m)) ≡ sort_units (units_or_none (lookup kind m))
unfolding lookup sort_kinds sort_units
lookup-sort_kinds kind [] = refl
lookup-sort_kinds kind ((j, us) ∷ m) = elim (Bool-cases (text_eq kind j)) [
  | inl same ↦ rw same refl
  | inr other ↦ rw other (lookup-sort_kinds kind m)
]

lookup-add_unit :
    (kind : Text) (u : PluginUnit) (m : Dict (List PluginUnit))
    → units_or_none (lookup kind (add_unit u m))
      ≡ units_or_none (lookup kind m) ++ filter (has_kind kind) (u ∷ [])
unfolding add_unit filter
lookup-add_unit kind u m = elim (Bool-cases (text_eq kind u.kind)) [
  | inl same ↦
      rw (lookup-insert, same)
        (ap (λ k. units_or_none (lookup k m) ++ u ∷ []) (sym ((text_eq_iff kind u.kind).0 same)))
  | inr other ↦ rw (lookup-insert, other, append-nil) refl
]

lookup-add_units :
    (kind plugin : Text) (us : List PluginUnit) (m : Dict (List PluginUnit))
    → units_or_none (lookup kind (add_units plugin us m))
      ≡ units_or_none (lookup kind m) ++ filter (has_kind kind) (offered_by plugin us)
unfolding add_units offered_by filter
lookup-add_units kind plugin [] m = sym (append-nil _)
lookup-add_units kind plugin (u ∷ us) m =
    let v : PluginUnit = record u { plugin_name = plugin } in
    let rest = offered_by plugin us in
    let there = units_or_none (lookup kind m) in
    lookup-add_units kind plugin us (add_unit v m)
    ∙ ap (λ l. l ++ filter (has_kind kind) rest) (lookup-add_unit kind v m)
    ∙ append_assoc there (filter (has_kind kind) (v ∷ [])) (filter (has_kind kind) rest)
    ∙ ap (λ l. there ++ l) (sym (filter-append (has_kind kind) (v ∷ []) rest))

lookup-add_plugins :
    (kind : Text) (ps : List PluginManifest) (m : Dict (List PluginUnit))
    → units_or_none (lookup kind (add_plugins ps m))
      ≡ units_or_none (lookup kind m) ++ filter (has_kind kind) (offered ps)
unfolding add_plugins offered filter
lookup-add_plugins kind [] m = sym (append-nil _)
lookup-add_plugins kind (p ∷ ps) m =
    let these = offered_by p.name p.units in
    let there = units_or_none (lookup kind m) in
    lookup-add_plugins kind ps (add_units p.name p.units m)
    ∙ ap (λ l. l ++ filter (has_kind kind) (offered ps)) (lookup-add_units kind p.name p.units m)
    ∙ append_assoc there (filter (has_kind kind) these) (filter (has_kind kind) (offered ps))
    ∙ ap (λ l. there ++ l) (sym (filter-append (has_kind kind) these (offered ps)))

units_of_kind-new_catalog :
    (kind : Text) (ps : List PluginManifest)
    → units_of_kind kind (new_catalog ps) ≡ sort_units (filter (has_kind kind) (offered ps))
unfolding units_of_kind new_catalog lookup
units_of_kind-new_catalog kind ps =
    lookup-sort_kinds kind (add_plugins ps []) ∙ ap sort_units (lookup-add_plugins kind ps [])

abbrev any_unit : PluginUnit → Bool
any_unit u = true

only_of-ok_iff :
    (plugin kind : Text) (us : List PluginUnit) (u : PluginUnit)
    → (only_of plugin kind us ≡ ok u) ↔ (us ≡ u ∷ [])
unfolding only_of
only_of-ok_iff plugin kind [] u = (λ e. absurd (err≢ok e), λ e. absurd (cc))
only_of-ok_iff plugin kind (v ∷ []) u =
    (λ e. ap (λ w. w ∷ []) (ok-injective e), λ e. ap (only_of plugin kind) e)
only_of-ok_iff plugin kind (v ∷ w ∷ us) u = (λ e. absurd (err≢ok e), λ e. absurd (cc))

only_kind-ok_iff :
    (kind : Text) (us : List PluginUnit) (u : PluginUnit)
    → (only_kind kind us ≡ ok u) ↔ (us ≡ u ∷ [])
unfolding only_kind
only_kind-ok_iff kind [] u = (λ e. absurd (err≢ok e), λ e. absurd (cc))
only_kind-ok_iff kind (v ∷ []) u =
    (λ e. ap (λ w. w ∷ []) (ok-injective e), λ e. ap (only_kind kind) e)
only_kind-ok_iff kind (v ∷ w ∷ us) u = (λ e. absurd (err≢ok e), λ e. absurd (cc))

two≢one : (v w u : PluginUnit) (f : Found) → one_more v (one_more w f) ≡ one u → ⊥
unfolding one_more
two≢one v w u nothing e = cc
two≢one v w u (one x) e = cc
two≢one v w u many e = cc

single_iff : (us : List PluginUnit) (u : PluginUnit) → (us ≡ u ∷ []) ↔ (found any_unit us ≡ one u)
unfolding found one_more
single_iff [] u = (λ e. absurd (cc), λ e. absurd (cc))
single_iff (v ∷ []) u = (λ e. ap (found any_unit) e, λ e. cc)
single_iff (v ∷ w ∷ us) u = (λ e. absurd (cc), λ e. absurd (two≢one v w u (found any_unit us) e))

same_single :
    (us vs : List PluginUnit) (u : PluginUnit)
    → found any_unit us ≡ found any_unit vs
    → (us ≡ u ∷ []) ↔ (vs ≡ u ∷ [])
same_single us vs u same = (
  λ e. (single_iff vs u).1 (sym same ∙ (single_iff us u).0 e),
  λ e. (single_iff us u).1 (same ∙ (single_iff vs u).0 e),
)

-- The units that a text without a colon, or a plugin and a kind, stand for: exactly one.
abbrev pub ChosenParts : Text → Option (Text × Text) → List PluginUnit → PluginUnit → Type 0
ChosenParts used none us u = filter (has_kind used) us ≡ u ∷ []
ChosenParts used (some (plugin, kind)) us u =
    (text_eq (trim_space plugin) [] ≡ false)
    × (text_eq (trim_space kind) [] ≡ false)
    × (filter (λ v. has_kind (trim_space kind) v && is_of (trim_space plugin) v) us ≡ u ∷ [])

abbrev pub IsChosen : Text → List PluginUnit → PluginUnit → Type 0
IsChosen used us u =
    (text_eq (trim_space used) [] ≡ false)
    × ChosenParts (trim_space used) (cut_colon (trim_space used)) us u

of_found :
    (plugin kind : Text) (us : List PluginUnit)
    → found any_unit (filter (is_of plugin) (sort_units (filter (has_kind kind) us)))
      ≡ found any_unit (filter (λ v. has_kind kind v && is_of plugin v) us)
of_found plugin kind us =
    found-filter any_unit (is_of plugin) (sort_units (filter (has_kind kind) us))
    ∙ found-sort_units (λ v. is_of plugin v && true) (filter (has_kind kind) us)
    ∙ found-filter (λ v. is_of plugin v && true) (has_kind kind) us
    ∙ ap (λ p. found p us) (fun_ext (λ v. regroup (has_kind kind v) (is_of plugin v)))
    ∙ sym (found-filter any_unit (λ v. has_kind kind v && is_of plugin v) us)
  where
    regroup : (a b : Bool) → (a && (b && true)) ≡ ((a && b) && true)
    regroup a b = ground arith

unless_err_iff :
    {A E : Type 0} (b : Bool) (e : E) (r : Result E A) (a : A)
    → ((if b then err e else r) ≡ ok a) ↔ (b ≡ false) × (r ≡ ok a)
unless_err_iff true e r a = (λ h. absurd (err≢ok h), λ (h, k). absurd (cc))
unless_err_iff false e r a = (λ h. (refl, h), λ (h, k). k)

resolve_of-ok_iff :
    (plugin kind : Text) (ps : List PluginManifest) (u : PluginUnit)
    → (resolve_of plugin kind (new_catalog ps) ≡ ok u)
      ↔ (text_eq plugin [] ≡ false)
        × (text_eq kind [] ≡ false)
        × (filter (λ v. has_kind kind v && is_of plugin v) (offered ps) ≡ u ∷ [])
unfolding resolve_of
resolve_of-ok_iff plugin kind ps u =
    let us = filter (is_of plugin) (units_of_kind kind (new_catalog ps)) in
    let vs = filter (λ v. has_kind kind v && is_of plugin v) (offered ps) in
    let same = same_single us vs u (
      ap (λ l. found any_unit (filter (is_of plugin) l)) (units_of_kind-new_catalog kind ps)
      ∙ of_found plugin kind (offered ps)) in
    (
      λ e.
          let (p, e1) = (unless_err_iff _ _ _ u).0 e in
          let (k, e2) = (unless_err_iff _ _ _ u).0 e1 in
          (p, k, same.0 ((only_of-ok_iff plugin kind us u).0 e2)),
      λ (p, k, only).
          (unless_err_iff _ _ _ u).1
            (p, (unless_err_iff _ _ _ u).1 (k, (only_of-ok_iff plugin kind us u).1 (same.1 only))),
    )

resolve_kind-ok_iff :
    (kind : Text) (ps : List PluginManifest) (u : PluginUnit)
    → (only_kind kind (units_of_kind kind (new_catalog ps)) ≡ ok u)
      ↔ (filter (has_kind kind) (offered ps) ≡ u ∷ [])
resolve_kind-ok_iff kind ps u =
    let us = units_of_kind kind (new_catalog ps) in
    let vs = filter (has_kind kind) (offered ps) in
    let same =
      same_single us vs u
        (ap (found any_unit) (units_of_kind-new_catalog kind ps) ∙ found-sort_units any_unit vs) in
    (λ e. same.0 ((only_kind-ok_iff kind us u).0 e), λ e. (only_kind-ok_iff kind us u).1 (same.1 e))

parts_iff :
    (used : Text) (parts : Option (Text × Text)) (ps : List PluginManifest) (u : PluginUnit)
    → (resolve_parts used parts (new_catalog ps) ≡ ok u) ↔ ChosenParts used parts (offered ps) u
unfolding resolve_parts
parts_iff used none ps u = resolve_kind-ok_iff used ps u
parts_iff used (some (plugin, kind)) ps u =
    resolve_of-ok_iff (trim_space plugin) (trim_space kind) ps u

-- Resolve on the catalog of some plugins returns a unit exactly if it is the only unit of all these
-- plugins, named by its plugin, that the text stands for: the units of that kind where the text,
-- trimmed, has no colon, and those of that kind and plugin where it has one; no part may be empty.
pub resolve_unit-ok_iff :
    (used : Text) (ps : List PluginManifest) (u : PluginUnit)
    → (resolve_unit used (new_catalog ps) ≡ ok u) ↔ IsChosen used (offered ps) u
unfolding resolve_unit resolve_trimmed
resolve_unit-ok_iff used ps u =
    let name = trim_space used in
    let parts = parts_iff name (cut_colon name) ps u in
    let guard =
      unless_err_iff (text_eq name []) kind_is_required
        (resolve_parts name (cut_colon name) (new_catalog ps)) u in
    (
      λ e. let (named, e1) = guard.0 e in (named, parts.0 e1),
      λ (named, chosen). guard.1 (named, parts.1 chosen),
    )
