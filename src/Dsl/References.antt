-- ===== src/Dsl/References.antt =====
-- Which texts of a scenario are references to variables, and when a scenario is accepted.
use wkbench.Base.{
  Bool, true, ◌&&◌, ◌==◌, Option, none, some, List, [], ◌∷◌, ◌++◌, Text, text, Dict, keys, contains,
  ◌≡◌, ◌≢◌, ◌↔◌, refl, sym, ap, ◌∙◌, arith, inl, inr, Bool-cases, Option-cases, Memᴰ-nil, Memᴰ-cons,
}
use mathlib.Core.List.{Memᴰ}
use wkbench.Dsl.{
  Value, scalar, str, object, array, Fields, end, field, Items, nil, cons, UnitNode, Scenario,
  without_brace, non_empty, reference, spec_fields, parse,
}
use wkbench.Dsl.Expansion.{
  is_ok, is_known, all_known, fields_known, items_known, units_known, parse-units_known,
}

-- The texts in a value, in its fields and in its items
unfoldable mutual
  pub texts_in : {S : Type 0} → Value S → List Text
  texts_in (scalar x) = []
  texts_in (str s) = s ∷ []
  texts_in (object fs) = field_texts fs
  texts_in (array xs) = item_texts xs

  pub field_texts : {S : Type 0} → Fields S → List Text
  field_texts end = []
  field_texts (field name v fs) = texts_in v ++ field_texts fs

  pub item_texts : {S : Type 0} → Items S → List Text
  item_texts nil = []
  item_texts (cons v xs) = texts_in v ++ item_texts xs

-- The texts in the specs of the units
unfoldable pub spec_texts : {S : Type 0} → Dict (UnitNode (Fields S)) → List Text
unfolding texts_in
spec_texts [] = []
spec_texts ((name, node) ∷ units) = field_texts (spec_fields node.spec) ++ spec_texts units

without_brace-some : (s t : Text) → without_brace s ≡ some t → s ≡ t ++ text "}"
unfolding without_brace
without_brace-some [] t e = absurd (cc)
without_brace-some (c ∷ []) t e = elim (Bool-cases (c == 125)) [
  | inr other ↦ let k : none ≡ some t = rw other at e in absurd (cc)
  | inl same ↦
      let k : some [] ≡ some t = rw same at e in
      let empty : [] ≡ t = cc in
      let brace : c ≡ 125 = ground (arith, same) in rw (← empty) (ap (λ x. x ∷ []) brace)
]
without_brace-some (c ∷ d ∷ s) t e = elim (Option-cases (without_brace (d ∷ s))) [
  | inl n ↦ let k : none ≡ some t = rw n at e in absurd (cc)
  | inr (u, found) ↦
      let k : some (c ∷ u) ≡ some t = rw found at e in
      let same : c ∷ u ≡ t = cc in
      rw (← same) (ap (λ x. c ∷ x) (without_brace-some (d ∷ s) u found))
]

some-without_brace : (t : Text) → without_brace (t ++ text "}") ≡ some t
unfolding without_brace
some-without_brace [] = refl
some-without_brace (c ∷ []) = refl
some-without_brace (c ∷ d ∷ t) = rw (some-without_brace (d ∷ t)) refl

-- A reference is a text that starts with a dollar sign and an opening brace and ends with a closing
-- one, with its key between them, which is not empty.
pub reference_iff :
    (s key : Text) → (reference s ≡ some key) ↔ (s ≡ text "${" ++ key ++ text "}") × (key ≢ [])
unfolding reference non_empty
reference_iff s key = (λ e. to s e, λ (e, some_key). rw e (from key some_key))
  where
    inside : (o : Option Text) → non_empty o ≡ some key → (o ≡ some key) × (key ≢ [])
    inside none e = absurd (cc)
    inside (some []) e = absurd (cc)
    inside (some (c ∷ u)) e = (e, λ n. let k : c ∷ u ≡ [] = cc in absurd (cc))

    to : (s : Text) → reference s ≡ some key → (s ≡ text "${" ++ key ++ text "}") × (key ≢ [])
    to [] e = absurd (cc)
    to (c ∷ []) e = absurd (cc)
    to (c ∷ d ∷ s) e = elim (Bool-cases (c == 36 && d == 123)) [
      | inr other ↦ let k : none ≡ some key = rw other at e in absurd (cc)
      | inl starts ↦
          let (found, some_key) = inside (without_brace s) (rw starts at e) in
          let rest = without_brace-some s key found in
          let dollar : c ≡ 36 = ground (arith, starts) in
          let brace : d ≡ 123 = ground (arith, starts) in (rw (dollar, brace, rest) refl, some_key)
    ]

    kept : (key : Text) → key ≢ [] → non_empty (some key) ≡ some key
    kept [] n = absurd (n refl)
    kept (c ∷ u) n = refl

    from : (key : Text) → key ≢ [] → reference (text "${" ++ key ++ text "}") ≡ some key
    from key n = rw (some-without_brace key) (kept key n)

module _ {S : Type 0} (vars : Dict (Value S)) where
  all_are : List Text → Bool
  all_are [] = true
  all_are (s ∷ ss) = is_known vars (reference s) && all_are ss

  all_are-append : (xs ys : List Text) → all_are (xs ++ ys) ≡ (all_are xs && all_are ys)
  unfolding all_are
  all_are-append [] ys = refl
  all_are-append (x ∷ xs) ys = ground (arith, all_are-append xs ys)

  mutual
    unfolding all_known texts_in all_are

    all_known-texts : (v : Value S) → all_known vars v ≡ all_are (texts_in v)
    all_known-texts (scalar x) = refl
    all_known-texts (str s) = ground arith
    all_known-texts (object fs) = fields_known-texts fs
    all_known-texts (array xs) = items_known-texts xs

    fields_known-texts : (fs : Fields S) → fields_known vars fs ≡ all_are (field_texts fs)
    fields_known-texts end = refl
    fields_known-texts (field name v fs) =
        cc (all_known-texts v, fields_known-texts fs)
        ∙ sym (all_are-append (texts_in v) (field_texts fs))

    items_known-texts : (xs : Items S) → items_known vars xs ≡ all_are (item_texts xs)
    items_known-texts nil = refl
    items_known-texts (cons v xs) =
        cc (all_known-texts v, items_known-texts xs)
        ∙ sym (all_are-append (texts_in v) (item_texts xs))

  units_known-texts :
      (units : Dict (UnitNode (Fields S))) → units_known vars units ≡ all_are (spec_texts units)
  unfolding units_known spec_texts all_are
  units_known-texts [] = refl
  units_known-texts ((name, node) ∷ units) =
      cc (fields_known-texts (spec_fields node.spec), units_known-texts units)
      ∙ sym (all_are-append (field_texts (spec_fields node.spec)) (spec_texts units))

  -- Every text in a list that has the form of a reference names a variable.
  abbrev pub AllNamed : List Text → Type 0
  AllNamed ss =
      (s key : Text)
      → Memᴰ s ss
      → s ≡ text "${" ++ key ++ text "}"
      → key ≢ []
      → contains key (keys vars) ≡ true

  known_iff :
      (s : Text)
      → (is_known vars (reference s) ≡ true) ↔ (
          (key : Text)
          → s ≡ text "${" ++ key ++ text "}"
          → key ≢ []
          → contains key (keys vars) ≡ true)
  known_iff s = (
    λ e key form some_key. rw ((reference_iff s key).1 (form, some_key)) at e,
    λ h. go (reference s) refl h,
  )
    where
      go :
          (o : Option Text)
          → reference s ≡ o
          → ((key : Text)
              → s ≡ text "${" ++ key ++ text "}"
              → key ≢ []
              → contains key (keys vars) ≡ true)
          → is_known vars o ≡ true
      go none e h = refl
      go (some key) e h = let (form, some_key) = (reference_iff s key).0 e in h key form some_key

  all_are_iff : (ss : List Text) → (all_are ss ≡ true) ↔ AllNamed ss
  unfolding all_are
  all_are_iff [] = (λ _ s key m. absurd (Memᴰ-nil m), λ _. refl)
  all_are_iff (s ∷ ss) = (
    λ e s' key m form some_key. elim (Memᴰ-cons m) [
      | inl here ↦ (known_iff s).0 (ground (arith, e)) key (sym here ∙ form) some_key
      | inr there ↦ (all_are_iff ss).0 (ground (arith, e)) s' key there form some_key
    ],
    λ h.
        let here = (known_iff s).1 (λ key form n. h s key (Memᴰ.head refl) form n) in
        let rest = (all_are_iff ss).1 (λ s' key m form n. h s' key (Memᴰ.tail m) form n) in
        rw (here, rest) refl,
  )

-- A decoded scenario is accepted exactly if each text in the specs of its units that is a key between
-- a dollar sign with an opening brace and a closing brace, the key not being empty, has the name of
-- one of the variables as its key; in particular no spec expands to what is no object.
pub parse-is_ok :
    {S : Type 0} (scenario : Scenario (Value S) (Fields S))
    → (is_ok (parse scenario) ≡ true) ↔ AllNamed scenario.vars (spec_texts scenario.units)
parse-is_ok scenario =
    rw (parse-units_known scenario, units_known-texts scenario.vars scenario.units)
      (all_are_iff scenario.vars (spec_texts scenario.units))
