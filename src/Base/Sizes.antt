-- ===== src/Base/Sizes.antt =====
-- The number of the entries of a map, whose keys are distinct.
use Prim.Native.Nat.{ℕ, suc, ◌+◌}
use mathlib.Core.Path.{◌≡◌, refl, ap, sym, ◌∙◌}
use mathlib.Core.Logic.{inl, inr}
use mathlib.Core.Option.{none, some}
use mathlib.Core.List.{List, [], ◌∷◌}
use native.Mathlib.Omega.{arith}
use wkbench.Base.Tests.{Bool-cases, ltb, ◌==◌}
use mathlib.Core.Bool.{Bool, true, false}
use wkbench.Base.Lists.{length}
use wkbench.Base.Texts.{Text, text_eq, text_eq_iff}
use wkbench.Base.Dicts.{Dict, lookup, insert, remove, lookup-insert, lookup-remove}

module _ {ℓ} {V : Type ℓ} where
  -- No key comes twice.
  unfoldable pub HasDistinctKeys : Dict V → Type ℓ
  HasDistinctKeys [] = Unit
  HasDistinctKeys ((k, v) ∷ m) = (lookup k m ≡ none) × HasDistinctKeys m

  pub length-insert_new :
      (k : Text) (v : V) (m : Dict V) → lookup k m ≡ none → length (insert k v m) ≡ suc (length m)
  unfolding lookup insert
  length-insert_new k v [] h = refl
  length-insert_new k v ((j, w) ∷ m) h = elim (Bool-cases (text_eq k j)) [
    | inl same ↦ let bad : some w ≡ none = rw same at h in absurd (cc)
    | inr other ↦ rw other (ap suc (length-insert_new k v m (rw other at h)))
  ]

  pub length-insert_old :
      (k : Text) (v w : V) (m : Dict V) → lookup k m ≡ some w → length (insert k v m) ≡ length m
  unfolding lookup insert
  length-insert_old k v w [] h = absurd (cc)
  length-insert_old k v w ((j, x) ∷ m) h = elim (Bool-cases (text_eq k j)) [
    | inl same ↦ rw same refl
    | inr other ↦ rw other (ap suc (length-insert_old k v w m (rw other at h)))
  ]

  length-remove_absent :
      (k : Text) (m : Dict V) → lookup k m ≡ none → length (remove k m) ≡ length m
  unfolding lookup remove
  length-remove_absent k [] h = refl
  length-remove_absent k ((j, x) ∷ m) h = elim (Bool-cases (text_eq k j)) [
    | inl same ↦ let bad : some x ≡ none = rw same at h in absurd (cc)
    | inr other ↦ rw other (ap suc (length-remove_absent k m (rw other at h)))
  ]

  pub length-remove_present :
      (k : Text) (w : V) (m : Dict V)
      → HasDistinctKeys m
      → lookup k m ≡ some w
      → suc (length (remove k m)) ≡ length m
  unfolding lookup remove HasDistinctKeys
  length-remove_present k w [] d h = absurd (cc)
  length-remove_present k w ((j, x) ∷ m) (new, d) h = elim (Bool-cases (text_eq k j)) [
    | inl same ↦
        let here : lookup k m ≡ none = rw ((text_eq_iff k j).0 same) new in
        rw same (ap suc (length-remove_absent k m here))
    | inr other ↦ rw other (ap suc (length-remove_present k w m d (rw other at h)))
  ]

  pub insert-HasDistinctKeys :
      (k : Text) (v : V) (m : Dict V) → HasDistinctKeys m → HasDistinctKeys (insert k v m)
  unfolding insert HasDistinctKeys lookup
  insert-HasDistinctKeys k v [] d = (refl, tt)
  insert-HasDistinctKeys k v ((j, x) ∷ m) (new, d) = elim (Bool-cases (text_eq k j)) [
    | inl same ↦ rw same (rw ((text_eq_iff k j).0 same) new, d)
    | inr other ↦ rw other (
      lookup-insert k j v m ∙ ground (arith, text_eq_iff k j, text_eq_iff j k, other, new),
      insert-HasDistinctKeys k v m d,
    )
  ]

  pub remove-HasDistinctKeys :
      (k : Text) (m : Dict V) → HasDistinctKeys m → HasDistinctKeys (remove k m)
  unfolding remove HasDistinctKeys
  remove-HasDistinctKeys k [] d = tt
  remove-HasDistinctKeys k ((j, x) ∷ m) (new, d) = elim (Bool-cases (text_eq k j)) [
    | inl same ↦ rw same (remove-HasDistinctKeys k m d)
    | inr other ↦ rw other (lookup-remove k j m ∙ ground (arith, new), remove-HasDistinctKeys k m d)
  ]

  -- The sum of a measure of the values
  abbrev pub total : (V → ℕ) → Dict V → ℕ
  total f [] = 0
  total f ((k, v) ∷ m) = f v + total f m

  pub total-insert_new :
      (f : V → ℕ) (k : Text) (v : V) (m : Dict V)
      → lookup k m ≡ none
      → total f (insert k v m) ≡ f v + total f m
  unfolding lookup insert
  total-insert_new f k v [] h = refl
  total-insert_new f k v ((j, w) ∷ m) h = elim (Bool-cases (text_eq k j)) [
    | inl same ↦ let bad : some w ≡ none = rw same at h in absurd (cc)
    | inr other ↦ let ih = total-insert_new f k v m (rw other at h) in rw other (omega (arith, ih))
  ]

  pub total-insert_old :
      (f : V → ℕ) (k : Text) (v w : V) (m : Dict V)
      → lookup k m ≡ some w
      → f v ≡ f w
      → total f (insert k v m) ≡ total f m
  unfolding lookup insert
  total-insert_old f k v w [] h e = absurd (cc)
  total-insert_old f k v w ((j, x) ∷ m) h e = elim (Bool-cases (text_eq k j)) [
    | inl same ↦
        let there : some x ≡ some w = rw same at h in
        let is_w : x ≡ w = cc in rw same (ap (λ n. n + total f m) (e ∙ ap f (sym is_w)))
    | inr other ↦
        let ih = total-insert_old f k v w m (rw other at h) e in rw other (omega (arith, ih))
  ]

  total-remove_absent :
      (f : V → ℕ) (k : Text) (m : Dict V) → lookup k m ≡ none → total f (remove k m) ≡ total f m
  unfolding lookup remove
  total-remove_absent f k [] h = refl
  total-remove_absent f k ((j, x) ∷ m) h = elim (Bool-cases (text_eq k j)) [
    | inl same ↦ let bad : some x ≡ none = rw same at h in absurd (cc)
    | inr other ↦ let ih = total-remove_absent f k m (rw other at h) in rw other (omega (arith, ih))
  ]

  pub total-remove_present :
      (f : V → ℕ) (k : Text) (w : V) (m : Dict V)
      → HasDistinctKeys m
      → lookup k m ≡ some w
      → f w + total f (remove k m) ≡ total f m
  unfolding lookup remove HasDistinctKeys
  total-remove_present f k w [] d h = absurd (cc)
  total-remove_present f k w ((j, x) ∷ m) (new, d) h = elim (Bool-cases (text_eq k j)) [
    | inl same ↦
        let here : lookup k m ≡ none = rw ((text_eq_iff k j).0 same) new in
        let there : some x ≡ some w = rw same at h in
        let is_w : f x ≡ f w = ap f (cc) in
        let ih = total-remove_absent f k m here in rw same (omega (arith, ih, is_w))
    | inr other ↦
        let ih = total-remove_present f k w m d (rw other at h) in rw other (omega (arith, ih))
  ]

abbrev pub one_if : Bool → ℕ
one_if true = 1
one_if false = 0

-- How often a number is in a list
abbrev pub occurrences : ℕ → List ℕ → ℕ
occurrences k [] = 0
occurrences k (x ∷ xs) = one_if (k == x) + occurrences k xs

pub below-suc : (k n : ℕ) → one_if (ltb k (n + 1)) ≡ one_if (k == n) + one_if (ltb k n)
below-suc k n = ground arith
