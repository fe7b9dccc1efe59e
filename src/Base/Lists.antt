-- ===== src/Base/Lists.antt =====
-- Lists measured and indexed by native numbers, under the library's names.
use Prim.Native.Nat.{ℕ, zero, suc, ◌+◌, ◌≤◌}
use mathlib.Core.Path.{◌≡◌, refl, ap}
use mathlib.Core.Logic.{◌⊎◌, inl, inr}
use mathlib.Core.List.{Memᴰ, List, [], ◌∷◌, ◌++◌}
use mathlib.Core.Option.{Option, none, some}
use mathlib.Core.Bool.{Bool, true}
use wkbench.Base.Tests.{if◌then◌else◌, Bool-cases}
use native.Mathlib.Omega.{arith}

module _ {ℓ} {A : Type ℓ} where
  abbrev pub length : List A → ℕ
  length [] = 0
  length (x ∷ xs) = suc (length xs)

  abbrev pub get_elem? : List A → ℕ → Option A
  get_elem? [] i = none
  get_elem? (x ∷ xs) zero = some x
  get_elem? (x ∷ xs) (suc i) = get_elem? xs i

  pub length-append : (xs ys : List A) → length (xs ++ ys) ≡ length xs + length ys
  length-append [] ys = omega arith
  length-append (x ∷ xs) ys = omega (arith, length-append xs ys)

  abbrev pub All {κ} : (A → Type κ) → List A → Type κ
  All P [] = Unit
  All P (x ∷ xs) = P x × All P xs

  -- A list that ends in `y`, split at `x`: either `x` is that last item, or the split is one of
  -- the list before it.
  pub snoc_split :
      (xs before : List A) (x y : A) (after : List A)
      → xs ++ y ∷ [] ≡ before ++ x ∷ after
      → (xs ≡ before) × (x ≡ y) ⊎ ((mid : List A) × (xs ≡ before ++ x ∷ mid))
  snoc_split [] [] x y after e = inl (refl, cc)
  snoc_split [] (b ∷ []) x y after e = absurd (cc)
  snoc_split [] (b ∷ c ∷ before) x y after e = absurd (cc)
  snoc_split (z ∷ xs) [] x y after e = inr (xs, cc)
  snoc_split (z ∷ xs) (b ∷ before) x y after e = elim (snoc_split xs before x y after (cc)) [
    | inl (p, q) ↦ inl (cc, q)
    | inr (mid, p) ↦ inr (mid, cc)
  ]

  -- The items that pass the test, in order.
  unfoldable pub filter : (A → Bool) → List A → List A
  filter p [] = []
  filter p (x ∷ xs) = if p x then x ∷ filter p xs else filter p xs

  pub nil≢append : (before : List A) (x : A) (after : List A) → [] ≡ before ++ x ∷ after → ⊥
  nil≢append [] x after e = cc
  nil≢append (b ∷ before) x after e = cc

  filter-mem_kept :
      (p : A → Bool) (y : A) (ys : List A) {x : A} {l : List A}
      → p y ≡ true
      → (Memᴰ x l → Memᴰ x ys × (p x ≡ true))
      → Memᴰ x (y ∷ l)
      → Memᴰ x (y ∷ ys) × (p x ≡ true)
  filter-mem_kept p y ys keeps ih (Memᴰ.head e) = (Memᴰ.head e, cc)
  filter-mem_kept p y ys keeps ih (Memᴰ.tail m) = let (k, t) = ih m in (Memᴰ.tail k, t)

  -- What a filter keeps was there, and passes the test.
  pub filter-mem :
      (p : A → Bool) (xs : List A) {x : A} → Memᴰ x (filter p xs) → Memᴰ x xs × (p x ≡ true)
  unfolding filter
  filter-mem p [] m = elim m [ ]
  filter-mem p (y ∷ ys) {x} m = elim (Bool-cases (p y)) [
    | inr drops ↦ let (k, t) = filter-mem p ys (rw drops at m) in (Memᴰ.tail k, t)
    | inl keeps ↦ filter-mem_kept p y ys keeps (filter-mem p ys) (rw keeps at m)
  ]

  pub Memᴰ-nil : {x : A} → Memᴰ x [] → ⊥
  Memᴰ-nil m = elim m [ ]

  pub Memᴰ-cons : {x y : A} {ys : List A} → Memᴰ x (y ∷ ys) → (x ≡ y) ⊎ Memᴰ x ys
  Memᴰ-cons (Memᴰ.head e) = inl e
  Memᴰ-cons (Memᴰ.tail m) = inr m

  pub Memᴰ-middle : (before : List A) (x : A) (after : List A) → Memᴰ x (before ++ x ∷ after)
  Memᴰ-middle [] x after = Memᴰ.head refl
  Memᴰ-middle (b ∷ before) x after = Memᴰ.tail (Memᴰ-middle before x after)

  pub Memᴰ-append : (xs ys : List A) {x : A} → Memᴰ x (xs ++ ys) → Memᴰ x xs ⊎ Memᴰ x ys
  Memᴰ-append [] ys m = inr m
  Memᴰ-append (z ∷ xs) ys (Memᴰ.head e) = inl (Memᴰ.head e)
  Memᴰ-append (z ∷ xs) ys (Memᴰ.tail m) = elim (Memᴰ-append xs ys m) [
    | inl k ↦ inl (Memᴰ.tail k)
    | inr k ↦ inr k
  ]

  unfoldable pub take : ℕ → List A → List A
  take zero xs = []
  take (suc n) [] = []
  take (suc n) (x ∷ xs) = x ∷ take n xs

  unfoldable pub drop : ℕ → List A → List A
  drop zero xs = xs
  drop (suc n) [] = []
  drop (suc n) (x ∷ xs) = drop n xs

  pub take-drop : (n : ℕ) (xs : List A) → take n xs ++ drop n xs ≡ xs
  unfolding take drop
  take-drop zero xs = refl
  take-drop (suc n) [] = refl
  take-drop (suc n) (x ∷ xs) = ap (λ l. x ∷ l) (take-drop n xs)

  pub length-take_le : (n : ℕ) (xs : List A) → length (take n xs) ≤ n
  unfolding take
  length-take_le zero xs = omega arith
  length-take_le (suc n) [] = omega arith
  length-take_le (suc n) (x ∷ xs) = omega (arith, length-take_le n xs)

  pub length-drop_add : (n : ℕ) (xs : List A) → length (take n xs) + length (drop n xs) ≡ length xs
  unfolding take drop
  length-drop_add zero xs = omega arith
  length-drop_add (suc n) [] = omega arith
  length-drop_add (suc n) (x ∷ xs) = omega (arith, length-drop_add n xs)

  pub length-drop_less :
      (n : ℕ) (x : A) (xs : List A) → 1 ≤ n → length (drop n (x ∷ xs)) ≤ length xs
  unfolding drop
  length-drop_less zero x xs positive = absurd (omega (arith, positive))
  length-drop_less (suc n) x xs positive = omega (arith, length-drop_add n xs)

  pub length-take_positive : (n : ℕ) (x : A) (xs : List A) → 1 ≤ n → 1 ≤ length (take n (x ∷ xs))
  unfolding take
  length-take_positive zero x xs positive = absurd (omega (arith, positive))
  length-take_positive (suc n) x xs positive = omega arith
