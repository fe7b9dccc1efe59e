-- ===== src/Kernel/Refs/Laws.antt =====
-- What resolveInput chooses, told without the search of the code.
use wkbench.Base.{
  Memᴰ-nil, Memᴰ-cons, Memᴰ-middle, text_eq, ◌++◌, ◌∙◌, true, none, some, List, [], ◌∷◌, ok, ◌≡◌,
  ◌≢◌, ◌↔◌, refl, sym, subst, inl, inr, arith, Text, text_eq_iff, filter, ap, Dict, lookup,
  Bool-cases,
}
use mathlib.Core.List.{Memᴰ}
use wkbench.Contract.{PortDef}
use wkbench.Kernel.Refs.{
  ResourceRef, Provider, find_provider, is_candidate, ref_eq, zero_ref, parse_ref, resolve_input,
}
use wkbench.Kernel.Refs.Picked.{
  ref_eq_iff, IsPicked, is_candidate-facts, resolve_input-IsPicked_iff,
}

-- An output that can feed an input without being named: of another unit, and of the input's type.
abbrev pub Fits : Text → PortDef → Provider → Type 0
Fits unit_name input p = (p.ref.unit ≢ unit_name) × (p.port.type ≡ input.type)

-- No output in the list fits.
abbrev pub NoneFits : Text → PortDef → List Provider → Type 0
NoneFits unit_name input ps = (q : Provider) → Memᴰ q ps → ¬ Fits unit_name input q

-- What a chosen reference is: if the scenario names one, that reference, where the first output
-- under it has the type of the input; else the one output of that type of another unit; or nothing,
-- for an optional input where there is no such output.
pub data IsChoice (unit_name : Text) (input : PortDef) (explicit : Dict Text)
    (providers : List Provider) (ref : ResourceRef) : Type 0 where
  by_name :
      (raw : Text) (before after : List Provider) (p : Provider)
      → lookup input.name explicit ≡ some raw
      → parse_ref raw ≡ some ref
      → providers ≡ before ++ p ∷ after
      → ((q : Provider) → Memᴰ q before → q.ref ≢ ref)
      → (p.ref ≡ ref) × (p.port.type ≡ input.type)
      → IsChoice unit_name input explicit providers ref
  by_type :
      (before after : List Provider) (p : Provider)
      → lookup input.name explicit ≡ none
      → providers ≡ before ++ p ∷ after
      → NoneFits unit_name input before × NoneFits unit_name input after
      → Fits unit_name input p × (p.ref ≡ ref)
      → IsChoice unit_name input explicit providers ref
  omitted :
      lookup input.name explicit ≡ none
      → NoneFits unit_name input providers
      → (input.optional ≡ true) × (ref ≡ zero_ref)
      → IsChoice unit_name input explicit providers ref

find_provider-first :
    (ref : ResourceRef) (ps : List Provider) (p : Provider)
    → find_provider ref ps ≡ some p
    → (before : List Provider) × (after : List Provider) × (ps ≡ before ++ p ∷ after)
      × ((q : Provider) → Memᴰ q before → q.ref ≢ ref)
unfolding find_provider
find_provider-first ref [] p e = absurd (cc)
find_provider-first ref (q ∷ ps) p e = elim (Bool-cases (ref_eq q.ref ref)) [
  | inl same ↦ ([], ps, ap (λ x. x ∷ ps) (ground arith), λ _ m. absurd (Memᴰ-nil m))
  | inr other ↦
      let (before, after, split, rest) = find_provider-first ref ps p (rw other at e) in
      (
        q ∷ before,
        after,
        ap (λ xs. q ∷ xs) split,
        λ x m. elim (Memᴰ-cons m) [
          | inl here ↦ λ s.
              let t = (ref_eq_iff q.ref ref).1 (ap (λ (y : Provider). y.ref) (sym here) ∙ s) in
              absurd (cc)
          | inr there ↦ rest x there
        ],
      )
]

first-find_provider :
    (ref : ResourceRef) (before after : List Provider) (p : Provider)
    → ((q : Provider) → Memᴰ q before → q.ref ≢ ref)
    → p.ref ≡ ref
    → find_provider ref (before ++ p ∷ after) ≡ some p
unfolding find_provider
first-find_provider ref [] after p none_before e = rw ((ref_eq_iff p.ref ref).1 e) refl
first-find_provider ref (q ∷ before) after p none_before e = elim (Bool-cases (ref_eq q.ref ref)) [
  | inl same ↦ absurd (none_before q (Memᴰ.head refl) ((ref_eq_iff q.ref ref).0 same))
  | inr other ↦
      rw other (first-find_provider ref before after p (λ x m. none_before x (Memᴰ.tail m)) e)
]

module _ (unit_name : Text) (input : PortDef) where
  Fits-is_candidate :
      (p : Provider) → Fits unit_name input p → is_candidate unit_name input p ≡ true
  Fits-is_candidate p (other, same) = elim (Bool-cases (text_eq p.ref.unit unit_name)) [
    | inl e ↦ absurd (other ((text_eq_iff _ _).0 e))
    | inr e ↦ rw (e, (text_eq_iff p.port.type input.type).1 same) refl
  ]

  filter-NoneFits :
      (ps : List Provider)
      → filter (is_candidate unit_name input) ps ≡ []
      → NoneFits unit_name input ps
  unfolding filter
  filter-NoneFits [] e q m f = absurd (Memᴰ-nil m)
  filter-NoneFits (p ∷ ps) e q m f = elim (Bool-cases (is_candidate unit_name input p)) [
    | inl fits ↦
        let k : p ∷ filter (is_candidate unit_name input) ps ≡ [] = rw fits at e in absurd (cc)
    | inr misfit ↦ elim (Memᴰ-cons m) [
      | inl here ↦ let t = Fits-is_candidate p (subst (Fits unit_name input) here f) in absurd (cc)
      | inr there ↦ filter-NoneFits ps (rw misfit at e) q there f
    ]
  ]

  NoneFits-filter :
      (ps : List Provider)
      → NoneFits unit_name input ps
      → filter (is_candidate unit_name input) ps ≡ []
  unfolding filter
  NoneFits-filter [] h = refl
  NoneFits-filter (p ∷ ps) h = elim (Bool-cases (is_candidate unit_name input p)) [
    | inl fits ↦
        absurd (h p (Memᴰ.head refl) (is_candidate-facts unit_name input [] [] zero_ref p fits))
    | inr misfit ↦ rw misfit (NoneFits-filter ps (λ q m. h q (Memᴰ.tail m)))
  ]

  filter-only :
      (ps : List Provider) (p : Provider)
      → filter (is_candidate unit_name input) ps ≡ p ∷ []
      → (before : List Provider) × (after : List Provider) × (ps ≡ before ++ p ∷ after)
        × NoneFits unit_name input before
        × NoneFits unit_name input after
  unfolding filter
  filter-only [] p e = absurd (cc)
  filter-only (q ∷ ps) p e = elim (Bool-cases (is_candidate unit_name input q)) [
    | inl fits ↦
        let k : q ∷ filter (is_candidate unit_name input) ps ≡ p ∷ [] = rw fits at e in
        ([], ps, ap (λ x. x ∷ ps) (cc), (λ _ m. absurd (Memᴰ-nil m)), filter-NoneFits ps (cc))
    | inr misfit ↦
        let (before, after, split, b, a) = filter-only ps p (rw misfit at e) in
        (
          q ∷ before,
          after,
          ap (λ xs. q ∷ xs) split,
          (λ x m f. elim (Memᴰ-cons m) [
            | inl here ↦
                let t = Fits-is_candidate q (subst (Fits unit_name input) here f) in absurd (cc)
            | inr there ↦ b x there f
          ]),
          a,
        )
  ]

  only-filter :
      (before after : List Provider) (p : Provider)
      → NoneFits unit_name input before
      → NoneFits unit_name input after
      → Fits unit_name input p
      → filter (is_candidate unit_name input) (before ++ p ∷ after) ≡ p ∷ []
  unfolding filter
  only-filter [] after p b a f = rw (Fits-is_candidate p f, NoneFits-filter after a) refl
  only-filter (q ∷ before) after p b a f = elim (Bool-cases (is_candidate unit_name input q)) [
    | inl fits ↦
        absurd (b q (Memᴰ.head refl) (is_candidate-facts unit_name input [] [] zero_ref q fits))
    | inr misfit ↦ rw misfit (only-filter before after p (λ x m. b x (Memᴰ.tail m)) a f)
  ]

module _ (unit_name : Text) (input : PortDef) (explicit : Dict Text) (providers : List Provider)
    (ref : ResourceRef) where
  IsPicked-IsChoice :
      IsPicked unit_name input explicit providers ref
      → IsChoice unit_name input explicit providers ref
  IsPicked-IsChoice (IsPicked.by_name raw p named parse found facts) =
      let (before, after, split, first) = find_provider-first ref providers p found in
      IsChoice.by_name raw before after p named parse split first (facts.1, facts.2)
  IsPicked-IsChoice (IsPicked.by_type p unnamed f facts) =
      let (before, after, split, b, a) = filter-only unit_name input providers p f in
      IsChoice.by_type before after p unnamed split (b, a) ((facts.2, facts.3), facts.1)
  IsPicked-IsChoice (IsPicked.omitted unnamed f facts) =
      IsChoice.omitted unnamed (filter-NoneFits unit_name input providers f) facts

  IsChoice-IsPicked :
      IsChoice unit_name input explicit providers ref
      → IsPicked unit_name input explicit providers ref
  IsChoice-IsPicked (IsChoice.by_name raw before after p named parse split first facts) =
      IsPicked.by_name raw p named parse
        (rw split (first-find_provider ref before after p first facts.0))
        (rw split (Memᴰ-middle before p after), facts.0, facts.1)
  IsChoice-IsPicked (IsChoice.by_type before after p unnamed split others facts) =
      IsPicked.by_type p unnamed
        (rw split (only-filter unit_name input before after p others.0 others.1 facts.0))
        (rw split (Memᴰ-middle before p after), facts.1, facts.0.0, facts.0.1)
  IsChoice-IsPicked (IsChoice.omitted unnamed misfits facts) =
      IsPicked.omitted unnamed (NoneFits-filter unit_name input providers misfits) facts

  -- resolveInput returns a reference exactly if it is the choice for the input: where the scenario
  -- names one for the input, it parses to that reference, and the first output under it has the
  -- input's type; otherwise it is that of the one output of the type that another unit has, or the
  -- zero reference if the input is optional and there is no such output. In every other case it
  -- returns an error.
  pub resolve_input-ok_iff :
      (resolve_input unit_name input explicit providers ≡ ok ref)
      ↔ IsChoice unit_name input explicit providers ref
  resolve_input-ok_iff =
      let picked = resolve_input-IsPicked_iff unit_name input explicit providers ref in
      (λ e. IsPicked-IsChoice (picked.0 e), λ c. picked.1 (IsChoice-IsPicked c))
