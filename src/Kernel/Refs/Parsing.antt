-- ===== src/Kernel/Refs/Parsing.antt =====
-- The references that parseRef accepts, and what it reads from them.
use wkbench.Base.{
  inl, inr, subst, ℕ, ◌==◌, ==_iff, Bool, true, not, ◌&&◌, ◌||◌, some, List, [], ◌∷◌, ◌++◌, ◌≡◌,
  ◌≢◌, ◌↔◌, refl, ap, arith, Text, text_eq, text_eq_iff, trim_space, split, Bool-cases,
}
use wkbench.Kernel.Refs.{ResourceRef, two_parts, ref_string, parse_ref}

-- No code point of the text is the separator.
unfoldable pub is_free_of : ℕ → Text → Bool
is_free_of sep [] = true
is_free_of sep (c ∷ s) = not (c == sep) && is_free_of sep s

-- Splitting finds one part exactly if the separator is not there.
split_one : (sep : ℕ) (s : Text) → is_free_of sep s ≡ true → split sep s ≡ s ∷ []
unfolding split is_free_of
split_one sep [] h = refl
split_one sep (c ∷ s) h = ground (arith, split_one sep s)

split-cons : (sep : ℕ) (s : Text) → (p : Text) × (ps : List Text) × (split sep s ≡ p ∷ ps)
unfolding split
split-cons sep [] = ([], [], refl)
split-cons sep (c ∷ s) =
    let (p, ps, e) = split-cons sep s in
    elim (Bool-cases (c == sep)) [
      | inl here ↦ ([], split sep s, rw here)
      | inr other ↦ (c ∷ p, ps, rw (other, e))
    ]

one_split : (sep : ℕ) (s a : Text) → split sep s ≡ a ∷ [] → (s ≡ a) × (is_free_of sep s ≡ true)
unfolding split is_free_of
one_split sep [] a e = (cc, refl)
one_split sep (c ∷ s) a e =
    let (p, ps, f) = split-cons sep s in
    elim (Bool-cases (c == sep)) [
      | inl here ↦ absurd (ground arith)
      | inr other ↦
          let e' : (c ∷ p) ∷ ps ≡ a ∷ [] = rw (other, f) at e in
          let (same, free) = one_split sep s p (cc) in (cc, ground arith)
    ]

two_split :
    (sep : ℕ) (s a b : Text)
    → split sep s ≡ a ∷ b ∷ []
    → (s ≡ a ++ sep ∷ b) × (is_free_of sep a ≡ true) × (is_free_of sep b ≡ true)
unfolding split is_free_of
two_split sep [] a b e = absurd (cc)
two_split sep (c ∷ s) a b e =
    let (p, ps, f) = split-cons sep s in
    elim (Bool-cases (c == sep)) [
      | inl here ↦
          let e' : [] ∷ split sep s ≡ a ∷ b ∷ [] = rw here at e in
          let (same, free) = one_split sep s b (cc) in
          let nil_a : [] ≡ a = cc in
          let c_sep = (==_iff c sep).0 here in
          (
            subst (λ x. c ∷ s ≡ x ++ sep ∷ b) nil_a (cc),
            subst (λ x. is_free_of sep x ≡ true) nil_a refl,
            cc,
          )
      | inr other ↦
          let e' : (c ∷ p) ∷ ps ≡ a ∷ b ∷ [] = rw (other, f) at e in
          let (same, free, free_b) = two_split sep s p b (cc) in
          let front : c ∷ p ≡ a = cc in
          (
            subst (λ x. c ∷ s ≡ x ++ sep ∷ b) front (ap (λ l. c ∷ l) same),
            subst (λ x. is_free_of sep x ≡ true) front (ground arith),
            free_b,
          )
    ]

split_two :
    (sep : ℕ) (a b : Text)
    → is_free_of sep a ≡ true
    → is_free_of sep b ≡ true
    → split sep (a ++ sep ∷ b) ≡ a ∷ b ∷ []
unfolding split is_free_of
split_two sep [] b h k = ground (arith, split_one sep b, ==_iff sep sep)
split_two sep (c ∷ a) b h k = ground (arith, split_two sep a b)

two_parts-eq :
    (raw : Text) (r : ResourceRef) (parts : List Text)
    → split b'.' raw ≡ parts
    → two_parts parts ≡ some r
    → (raw ≡ r.unit ++ b'.' ∷ r.port)
      × (r.unit ≢ [])
      × (r.port ≢ [])
      × (is_free_of b'.' r.unit ≡ true)
      × (is_free_of b'.' r.port ≡ true)
unfolding two_parts
two_parts-eq raw r [] f e = absurd (cc)
two_parts-eq raw r (a ∷ []) f e = absurd (cc)
two_parts-eq raw r (a ∷ b ∷ []) f e =
    let (same, free_a, free_b) = two_split b'.' raw a b f in
    elim (Bool-cases (text_eq a [] || text_eq b [])) [
      | inl empty ↦ absurd (ground arith)
      | inr full ↦
          let e' : some (record { unit = a; port = b }) ≡ some r = rw full at e in
          let unit : a ≡ r.unit = ground arith in
          let port : b ≡ r.port = ground arith in
          (cc, λ h. ground (arith, text_eq_iff a []), λ h. ground (arith, text_eq_iff b []), cc, cc)
    ]
two_parts-eq raw r (a ∷ b ∷ c ∷ ps) f e = absurd (cc)

-- A reference is read exactly from the text `unit.port`, blanks around it aside, where neither part
-- is empty or has a dot of its own; so whatever is read prints as it was written.
pub parse_ref_iff :
    (raw : Text) (r : ResourceRef)
    → (parse_ref raw ≡ some r) ↔ (
        (trim_space raw ≡ ref_string r)
        × (r.unit ≢ [])
        × (r.port ≢ [])
        × (is_free_of b'.' r.unit ≡ true)
        × (is_free_of b'.' r.port ≡ true))
unfolding parse_ref ref_string two_parts
parse_ref_iff raw r = (
  λ e. two_parts-eq (trim_space raw) r (split b'.' (trim_space raw)) refl e,
  λ (same, unit, port, free_unit, free_port).
      let same' : trim_space raw ≡ r.unit ++ b'.' ∷ r.port = same in
      rw (same', split_two b'.' r.unit r.port free_unit free_port)
        (ground (arith, text_eq_iff r.unit [], text_eq_iff r.port [])),
)
