-- ===== src/Base/Dicts.antt =====
-- A Go map with string keys, as the list of its entries in the order in which the map happens to
-- be ranged over. Each key stands once where the map is built by `insert`.
use Prim.Native.Nat.{suc}
use mathlib.Core.Path.{◌≡◌, refl, ap}
use wkbench.Base.Lists.{length}
use mathlib.Core.Logic.{◌⊎◌, inl, inr}
use mathlib.Core.Bool.{true, false, ◌||◌}
use mathlib.Core.Option.{Option, none, some}
use mathlib.Core.List.{List, [], ◌∷◌}
use native.Mathlib.Omega.{arith}
use wkbench.Base.Tests.{if◌then◌else◌, Bool-cases}
use wkbench.Base.Texts.{Text, text_eq, text_eq_iff, contains}

abbrev pub Dict {ℓ} : Type ℓ → Type ℓ
Dict V = List (Text × V)

module _ {ℓ} {V : Type ℓ} where
  -- m[k], with `none` for a missing key
  unfoldable pub lookup : Text → Dict V → Option V
  lookup k [] = none
  lookup k ((j, v) ∷ m) = if text_eq k j then some v else lookup k m

  -- m[k] = v
  unfoldable pub insert : Text → V → Dict V → Dict V
  insert k v [] = (k, v) ∷ []
  insert k v ((j, w) ∷ m) = if text_eq k j then (k, v) ∷ m else (j, w) ∷ insert k v m

  -- the keys, as `for key := range m` meets them
  unfoldable pub keys : Dict V → List Text
  keys [] = []
  keys ((k, v) ∷ m) = k ∷ keys m

  pub lookup-insert :
      (k j : Text) (v : V) (m : Dict V)
      → lookup j (insert k v m) ≡ (if text_eq j k then some v else lookup j m)
  unfolding lookup insert
  lookup-insert k j v [] = refl
  lookup-insert k j v ((i, w) ∷ m) =
      ground (arith, text_eq_iff j k, text_eq_iff k i, text_eq_iff j i, lookup-insert k j v m)

  -- A key that is looked up with success is one of the keys, and the other way round.
  pub lookup-contains :
      (k : Text) (m : Dict V) (v : V) → lookup k m ≡ some v → contains k (keys m) ≡ true
  unfolding lookup contains keys
  lookup-contains k [] v h = cc
  lookup-contains k ((j, w) ∷ m) v h = ground (arith, lookup-contains k m v)

  pub contains-lookup :
      (k : Text) (m : Dict V) → contains k (keys m) ≡ true → (v : V) × (lookup k m ≡ some v)
  unfolding lookup contains keys
  contains-lookup k [] h = absurd (cc)
  contains-lookup k ((j, w) ∷ m) h = elim (Bool-cases (text_eq k j)) [
    | inl e ↦ (w, rw e)
    | inr e ↦ rw e (contains-lookup k m (rw e at h))
  ]

  pub length-keys : (m : Dict V) → length (keys m) ≡ length m
  unfolding keys
  length-keys [] = refl
  length-keys ((k, v) ∷ m) = ap suc (length-keys m)

  -- What is found after a write is what was written at that key, or what was there at another.
  pub lookup-insert_cases :
      (k j : Text) (v w : V) (m : Dict V)
      → lookup j (insert k v m) ≡ some w
      → (j ≡ k) × (v ≡ w) ⊎ (text_eq j k ≡ false) × (lookup j m ≡ some w)
  lookup-insert_cases k j v w m h = elim (Bool-cases (text_eq j k)) [
    | inl same ↦
        let h' : some v ≡ some w = rw (lookup-insert, same) at h in
        inl ((text_eq_iff j k).0 same, cc)
    | inr other ↦ inr (other, rw (lookup-insert, other) at h)
  ]

  pub keys-insert :
      (x k : Text) (v : V) (m : Dict V)
      → contains x (keys (insert k v m)) ≡ (text_eq x k || contains x (keys m))
  unfolding keys insert contains
  keys-insert x k v [] = refl
  keys-insert x k v ((j, w) ∷ m) =
      ground (arith, text_eq_iff x k, text_eq_iff k j, text_eq_iff x j, keys-insert x k v m)

  -- delete(m, k)
  unfoldable pub remove : Text → Dict V → Dict V
  remove k [] = []
  remove k ((j, w) ∷ m) = if text_eq k j then remove k m else (j, w) ∷ remove k m

  pub lookup-remove :
      (k j : Text) (m : Dict V) → lookup j (remove k m) ≡ (if text_eq j k then none else lookup j m)
  unfolding lookup remove
  lookup-remove k j [] = ground arith
  lookup-remove k j ((i, w) ∷ m) =
      ground (arith, text_eq_iff j k, text_eq_iff k i, text_eq_iff j i, lookup-remove k j m)

  pub lookup-remove-some :
      (k j : Text) (w : V) (m : Dict V) → lookup j (remove k m) ≡ some w → lookup j m ≡ some w
  lookup-remove-some k j w m h = elim (Bool-cases (text_eq j k)) [
    | inl same ↦ let gone : none ≡ some w = rw (lookup-remove, same) at h in absurd (cc)
    | inr other ↦ rw (lookup-remove, other) at h
  ]
