-- ===== src/Dsl/Expansion.antt =====
-- When the expansion of a scenario succeeds.
use wkbench.Base.{
  Bool, true, false, ◌&&◌, Option, none, some, [], ◌∷◌, Result, ok, err, ◌>>=◌, Text, Dict, lookup,
  keys, contains, ◌≡◌, refl, sym, ◌∙◌, lookup-contains, contains-lookup, inl, inr, Bool-cases,
}
use wkbench.Dsl.{
  Value, scalar, str, object, array, Fields, end, field, Items, nil, cons, UnitNode, Scenario,
  DslError, reference, or_unknown, expand_text, expand_value, expand_fields, expand_items,
  spec_fields, expanded_spec, expand_units, parse,
}

abbrev pub is_ok : {E A : Type 0} → Result E A → Bool
is_ok (ok a) = true
is_ok (err e) = false

is_ok-both :
    {E A B C : Type 0} (r : Result E A) (s : Result E B) (f : A → B → C)
    → is_ok (r >>= λ a. s >>= λ b. ok (f a b)) ≡ (is_ok r && is_ok s)
is_ok-both (err e) s f = refl
is_ok-both (ok a) (err e) f = refl
is_ok-both (ok a) (ok b) f = refl

is_ok-map : {E A B : Type 0} (r : Result E A) (f : A → B) → is_ok (r >>= λ a. ok (f a)) ≡ is_ok r
is_ok-map (err e) f = refl
is_ok-map (ok a) f = refl

module _ {S : Type 0} (vars : Dict (Value S)) where
  -- A text that is no reference, or one to a variable
  abbrev pub is_known : Option Text → Bool
  is_known none = true
  is_known (some key) = contains key (keys vars)

  -- Every reference in a value is to a variable.
  unfoldable mutual
    pub all_known : Value S → Bool
    all_known (scalar x) = true
    all_known (str s) = is_known (reference s)
    all_known (object fs) = fields_known fs
    all_known (array xs) = items_known xs

    pub fields_known : Fields S → Bool
    fields_known end = true
    fields_known (field name v fs) = all_known v && fields_known fs

    pub items_known : Items S → Bool
    items_known nil = true
    items_known (cons v xs) = all_known v && items_known xs

  expand_text-is_ok : (s : Text) (r : Option Text) → is_ok (expand_text vars s r) ≡ is_known r
  unfolding expand_text or_unknown
  expand_text-is_ok s none = refl
  expand_text-is_ok s (some key) = go (lookup key vars) refl
    where
      go :
          (o : Option (Value S))
          → lookup key vars ≡ o
          → is_ok (or_unknown key o) ≡ contains key (keys vars)
      go none e = elim (Bool-cases (contains key (keys vars))) [
        | inr absent ↦ sym absent
        | inl there ↦ let (v, found) = contains-lookup key vars there in absurd (cc)
      ]
      go (some v) e = sym (lookup-contains key vars v e)

  mutual
    unfolding all_known expand_value

    expand_value-is_ok : (v : Value S) → is_ok (expand_value vars v) ≡ all_known v
    expand_value-is_ok (scalar x) = refl
    expand_value-is_ok (str s) = expand_text-is_ok s (reference s)
    expand_value-is_ok (object fs) =
        is_ok-map (expand_fields vars fs) object ∙ expand_fields-is_ok fs
    expand_value-is_ok (array xs) = is_ok-map (expand_items vars xs) array ∙ expand_items-is_ok xs

    expand_fields-is_ok : (fs : Fields S) → is_ok (expand_fields vars fs) ≡ fields_known fs
    expand_fields-is_ok end = refl
    expand_fields-is_ok (field name v fs) =
        is_ok-both (expand_value vars v) (expand_fields vars fs) (λ a b. field name a b)
        ∙ cc (expand_value-is_ok v, expand_fields-is_ok fs)

    expand_items-is_ok : (xs : Items S) → is_ok (expand_items vars xs) ≡ items_known xs
    expand_items-is_ok nil = refl
    expand_items-is_ok (cons v xs) =
        is_ok-both (expand_value vars v) (expand_items vars xs) (λ a b. cons a b)
        ∙ cc (expand_value-is_ok v, expand_items-is_ok xs)

  -- Every reference in the specs of the units is to a variable.
  unfoldable pub units_known : Dict (UnitNode (Fields S)) → Bool
  unfolding all_known
  units_known [] = true
  units_known ((name, node) ∷ units) = fields_known (spec_fields node.spec) && units_known units

  expanded_spec-is_ok :
      (name : Text) (node : UnitNode (Fields S)) (r : Result DslError (Fields S))
      → is_ok (expanded_spec name node (r >>= λ gs. ok (object gs))) ≡ is_ok r
  unfolding expanded_spec
  expanded_spec-is_ok name node (err e) = refl
  expanded_spec-is_ok name node (ok fs) = refl

  expand_units-is_ok :
      (units : Dict (UnitNode (Fields S))) → is_ok (expand_units vars units) ≡ units_known units
  unfolding expand_units units_known expand_value
  expand_units-is_ok [] = refl
  expand_units-is_ok ((name, node) ∷ units) =
      is_ok-both (expanded_spec name node (expand_value vars (object (spec_fields node.spec))))
        (expand_units vars units) (λ a b. (name, a) ∷ b)
      ∙ cc (
        expanded_spec-is_ok name node (expand_fields vars (spec_fields node.spec)),
        expand_fields-is_ok (spec_fields node.spec),
        expand_units-is_ok units,
      )

pub parse-units_known :
    {S : Type 0} (scenario : Scenario (Value S) (Fields S))
    → is_ok (parse scenario) ≡ units_known scenario.vars scenario.units
unfolding parse
parse-units_known scenario =
    is_ok-map (expand_units scenario.vars scenario.units)
      (λ units. record scenario { units = units })
    ∙ expand_units-is_ok scenario.vars scenario.units
