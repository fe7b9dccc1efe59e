-- ===== src/Dsl.antt =====
-- benchkit/dsl/dsl.go: the scenario document. The YAML decoder is not part of the repository: what
-- it decodes is the input of `parse`. `S` is the type of the scalars of a decoded value other than
-- strings (numbers, booleans, null, times), which the expansion passes on as they are.
pub mod Expansion
pub mod References
use wkbench.Base.{
  ℕ, ℤ, ◌==◌, ◌-◌, Bool, true, false, ◌&&◌, Option, none, some, List, [], ◌∷◌, Result, ok, err,
  ◌>>=◌, Text, text, has_prefix, length, Dict, lookup, if◌then◌else◌, ltb,
}
use mathlib.Core.List.{reverse}

mutual
  pub data Value (S : Type 0) : Type 0 where
    scalar : S → Value S
    str : Text → Value S
    object : Fields S → Value S
    array : Items S → Value S

  pub data Fields (S : Type 0) : Type 0 where
    end : Fields S
    field : Text → Value S → Fields S → Fields S

  pub data Items (S : Type 0) : Type 0 where
    nil : Items S
    cons : Value S → Items S → Items S

pub record RunConfig : Type 0 where
  pub id : Text
  pub duration : ℤ  -- nanoseconds
  pub seed : ℤ
  pub report_dir : Text

-- `spec` is of a type of its own: only the selected unit reads it.
pub record UnitNode (Spec : Type 0) : Type 0 where
  pub use_kind : Text
  pub inputs : Dict Text
  pub after : List Text
  pub spec : Option Spec  -- `none` is the nil map

pub record Scenario (V Spec : Type 0) : Type 0 where
  pub version : Text
  pub run : RunConfig
  pub vars : Dict V
  pub units : Dict (UnitNode Spec)

pub data DslError : Type 0 where
  unknown_variable : Text → DslError
  -- an error inside of the spec of a unit
  in_unit : Text → DslError → DslError
  spec_is_no_object : Text → DslError

-- The text before a final "}", if that is how the text ends
without_brace : Text → Option Text
without_brace [] = none
without_brace (c ∷ []) = if c == 125 then some [] else none
without_brace (c ∷ d ∷ s) = elim (without_brace (d ∷ s)) [ none ↦ none | some t ↦ some (c ∷ t) ]

non_empty : Option Text → Option Text
non_empty (some (c ∷ s)) = some (c ∷ s)
non_empty _ = none

-- strings.HasPrefix(typed, "${") && strings.HasSuffix(typed, "}") && len(typed) > 3, and then the
-- text between the two: a text that starts and ends in that way is longer than three bytes exactly if
-- there is a text between the two.
unfoldable pub reference : Text → Option Text
unfolding without_brace non_empty
reference (c ∷ d ∷ s) = if c == 36 && d == 123 then non_empty (without_brace s) else none
reference _ = none

module _ {S : Type 0} where
  or_unknown : Text → Option (Value S) → Result DslError (Value S)
  or_unknown key none = err (unknown_variable key)
  or_unknown key (some v) = ok v

  -- The case of a string in expandValue
  expand_text : Dict (Value S) → Text → Option Text → Result DslError (Value S)
  unfolding or_unknown
  expand_text vars s none = ok (str s)
  expand_text vars s (some key) = or_unknown key (lookup key vars)

  -- expandValue. Go goes over the fields of an object in no fixed order, so it may return the error
  -- of any of its fields; here it is the first one's.
  unfoldable mutual
    unfolding expand_text reference

    pub expand_value : Dict (Value S) → Value S → Result DslError (Value S)
    expand_value vars (scalar x) = ok (scalar x)
    expand_value vars (str s) = expand_text vars s (reference s)
    expand_value vars (object fs) = expand_fields vars fs >>= λ gs. ok (object gs)
    expand_value vars (array xs) = expand_items vars xs >>= λ ys. ok (array ys)

    pub expand_fields : Dict (Value S) → Fields S → Result DslError (Fields S)
    expand_fields vars end = ok end
    expand_fields vars (field name v fs) =
        expand_value vars v >>= λ v'. expand_fields vars fs >>= λ fs'. ok (field name v' fs')

    pub expand_items : Dict (Value S) → Items S → Result DslError (Items S)
    expand_items vars nil = ok nil
    expand_items vars (cons v xs) =
        expand_value vars v >>= λ v'. expand_items vars xs >>= λ xs'. ok (cons v' xs')

  -- The nil map is an empty object to expandValue, and the spec is never nil after it.
  unfoldable pub spec_fields : Option (Fields S) → Fields S
  spec_fields none = end
  spec_fields (some fs) = fs

  expanded_spec :
      Text → UnitNode (Fields S) → Result DslError (Value S) → Result DslError (UnitNode (Fields S))
  expanded_spec name node (err e) = err (in_unit name e)
  expanded_spec name node (ok (object fs)) = ok (record node { spec = some fs })
  expanded_spec name node (ok _) = err (spec_is_no_object name)

  expand_units :
      Dict (Value S) → Dict (UnitNode (Fields S)) → Result DslError (Dict (UnitNode (Fields S)))
  unfolding expanded_spec spec_fields expand_value
  expand_units vars [] = ok []
  expand_units vars ((name, node) ∷ units) =
      expanded_spec name node (expand_value vars (object (spec_fields node.spec))) >>= λ node'.
      expand_units vars units >>= λ units'. ok ((name, node') ∷ units')

  -- Parse, on the document that the YAML decoder has read. Go goes over the units in no fixed order.
  unfoldable pub parse :
      Scenario (Value S) (Fields S) → Result DslError (Scenario (Value S) (Fields S))
  unfolding expand_units
  parse scenario =
      expand_units scenario.vars scenario.units >>= λ units. ok (record scenario { units = units })
