-- ===== src/Kernel/Refs/Picked.antt =====
-- How resolveInput comes to a reference: by its own search for a provider or for candidates.
use wkbench.Base.{
  true, Option, none, some, List, [], ◌∷◌, ok, ◌≡◌, ◌≢◌, ◌↔◌, refl, sym, subst, inl, inr, arith,
  Text, text_eq_iff, filter, filter-mem, ok-injective, ap, Dict, lookup, Bool-cases, Option-cases,
}
use mathlib.Core.List.{Memᴰ}
use wkbench.Contract.{PortDef}
use wkbench.Kernel.Refs.{
  ResourceRef, Provider, find_provider, is_candidate, ref_eq, zero_ref, parse_ref, explicit_input,
  auto_input, resolve_input,
}

pub ref_eq_iff : (r s : ResourceRef) → (ref_eq r s ≡ true) ↔ (r ≡ s)
ref_eq_iff r s = (
  λ h. ground (arith, text_eq_iff r.unit s.unit, text_eq_iff r.port s.port),
  λ h. ground (arith, text_eq_iff r.unit s.unit, text_eq_iff r.port s.port),
)

find_provider-mem :
    (ref : ResourceRef) (ps : List Provider) (p : Provider)
    → find_provider ref ps ≡ some p
    → Memᴰ p ps × (p.ref ≡ ref)
unfolding find_provider
find_provider-mem ref [] p e = absurd (cc)
find_provider-mem ref (q ∷ ps) p e = elim (Bool-cases (ref_eq q.ref ref)) [
  | inl same ↦ (Memᴰ.head (ground arith), ground (arith, ref_eq_iff q.ref ref))
  | inr other ↦ let (m, same) = find_provider-mem ref ps p (rw other at e) in (Memᴰ.tail m, same)
]

-- How the code comes to a reference.
pub data IsPicked (unit_name : Text) (input : PortDef) (explicit : Dict Text)
    (providers : List Provider) (ref : ResourceRef) : Type 0 where
  by_name :
      (raw : Text) (p : Provider)
      → lookup input.name explicit ≡ some raw
      → parse_ref raw ≡ some ref
      → find_provider ref providers ≡ some p
      → Memᴰ p providers × (p.ref ≡ ref) × (p.port.type ≡ input.type)
      → IsPicked unit_name input explicit providers ref
  by_type :
      (p : Provider)
      → lookup input.name explicit ≡ none
      → filter (is_candidate unit_name input) providers ≡ p ∷ []
      → Memᴰ p providers × (p.ref ≡ ref) × (p.ref.unit ≢ unit_name) × (p.port.type ≡ input.type)
      → IsPicked unit_name input explicit providers ref
  omitted :
      lookup input.name explicit ≡ none
      → filter (is_candidate unit_name input) providers ≡ []
      → (input.optional ≡ true) × (ref ≡ zero_ref)
      → IsPicked unit_name input explicit providers ref

module _ (unit_name : Text) (input : PortDef) (explicit : Dict Text) (providers : List Provider)
    (ref : ResourceRef) where
  explicit_input-IsPicked :
      (raw : Text) (parsed : Option ResourceRef)
      → lookup input.name explicit ≡ some raw
      → parse_ref raw ≡ parsed
      → explicit_input unit_name input providers raw parsed ≡ ok ref
      → IsPicked unit_name input explicit providers ref
  unfolding explicit_input
  explicit_input-IsPicked raw none named parse e = absurd (cc)
  explicit_input-IsPicked raw (some r) named parse e =
      elim (Option-cases (find_provider r providers)) [
        | inl absent ↦ absurd (ground arith)
        | inr (p, found) ↦
            let (m, same) = find_provider-mem r providers p found in
            by_name raw p named (ground arith) (ground arith)
              (m, ground arith, ground (arith, text_eq_iff p.port.type input.type))
      ]

  pub is_candidate-facts :
      (p : Provider)
      → is_candidate unit_name input p ≡ true
      → (p.ref.unit ≢ unit_name) × (p.port.type ≡ input.type)
  is_candidate-facts p h = (
    λ same. ground (arith, text_eq_iff p.ref.unit unit_name),
    ground (arith, text_eq_iff p.port.type input.type),
  )

  auto_input-IsPicked :
      (candidates : List Provider)
      → lookup input.name explicit ≡ none
      → filter (is_candidate unit_name input) providers ≡ candidates
      → auto_input unit_name input candidates ≡ ok ref
      → IsPicked unit_name input explicit providers ref
  unfolding auto_input
  auto_input-IsPicked [] unnamed f e = omitted unnamed f (ground arith, ground arith)
  auto_input-IsPicked (c ∷ []) unnamed f e =
      let (m, t) =
        filter-mem (is_candidate unit_name input) providers
          (subst (Memᴰ c) (sym f) (Memᴰ.head refl)) in
      let (other, same) = is_candidate-facts c t in
      by_type c unnamed f (m, ok-injective e, other, same)
  auto_input-IsPicked (c ∷ d ∷ cs) unnamed f e = absurd (cc)

  pub resolve_input-IsPicked_iff :
      (resolve_input unit_name input explicit providers ≡ ok ref)
      ↔ IsPicked unit_name input explicit providers ref
  unfolding resolve_input
  resolve_input-IsPicked_iff = (
    λ e. elim (Option-cases (lookup input.name explicit)) [
      | inl unnamed ↦ auto_input-IsPicked _ unnamed refl (rw unnamed at e)
      | inr (raw, named) ↦ explicit_input-IsPicked raw _ named refl (rw named at e)
    ],
    λ c. elim c [
      | by_name raw p named parse found facts ↦
          rw (named, parse, found, (text_eq_iff p.port.type input.type).1 facts.2) refl
      | by_type p unnamed f facts ↦ rw (unnamed, f) (ap ok facts.1)
      | omitted unnamed f facts ↦ rw (unnamed, f, facts.0, facts.1) refl
    ],
  )
