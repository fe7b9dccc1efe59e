-- ===== src/Kernel/Topo/Total.antt =====
-- The search always ends by itself: its fuel is never used up.
use wkbench.Base.{
  ℕ, zero, suc, ◌≤◌, ◌<◌, Bool, true, false, some, List, [], ◌∷◌, ok, err, ◌≡◌, ◌≢◌, refl, inl, inr,
  arith, Text, text_eq_iff, contains, Dict, lookup, keys, length, length-keys, >>=-eq-err,
  lookup-contains, if◌then◌else◌,
}
use wkbench.Base.Sort.{sort}
use wkbench.Kernel.Topo.{
  GraphNode, Marks, TopoError, out_of_fuel, mark, enter, start, visit_all, visit, topo_sort,
}
use wkbench.Kernel.Topo.Sound.{Inv, Grows, visit-Visits, start-Inv}
use wkbench.Kernel.Topo.Failing.{visit_all-err, visit_node-err}

-- How many of the names are not on the path of the search.
pub count_free : (Text → Bool) → List Text → ℕ
count_free t [] = 0
count_free t (x ∷ xs) = if t x then count_free t xs else suc (count_free t xs)

count_free-le : (t : Text → Bool) (xs : List Text) → count_free t xs ≤ length xs
unfolding count_free
count_free-le t [] = omega arith
count_free-le t (x ∷ xs) = ground (arith, count_free-le t xs)

count_free-ext :
    (t u : Text → Bool) (xs : List Text)
    → ((x : Text) → t x ≡ u x)
    → count_free t xs ≡ count_free u xs
unfolding count_free
count_free-ext t u [] h = refl
count_free-ext t u (x ∷ xs) h = ground (arith, h x, count_free-ext t u xs h)

count_free-mark-le :
    (t : Text → Bool) (name : Text) (xs : List Text)
    → count_free (mark t name true) xs ≤ count_free t xs
unfolding count_free
count_free-mark-le t name [] = omega arith
count_free-mark-le t name (x ∷ xs) = ground (arith, count_free-mark-le t name xs)

-- Marking a name that was free leaves fewer free.
count_free-mark :
    (t : Text → Bool) (name : Text) (xs : List Text)
    → t name ≡ false
    → contains name xs ≡ true
    → count_free (mark t name true) xs < count_free t xs
unfolding count_free contains
count_free-mark t name [] h k = absurd (cc)
count_free-mark t name (x ∷ xs) h k = ground (
  arith,
  count_free-mark t name xs,
  count_free-mark-le t name xs,
  text_eq_iff name x,
  text_eq_iff x name,
)

module _ {U Spec : Type 0} (nodes : Dict (GraphNode U Spec)) where
  abbrev pub HasFuel : ℕ → Marks → Type 0
  HasFuel fuel m = count_free m.temporary (keys nodes) < fuel

  pub HasFuel-stable :
      (fuel : ℕ) (m m' : Marks) → Grows nodes m m' → HasFuel fuel m → HasFuel fuel m'
  HasFuel-stable fuel m m' g h =
      omega (arith, count_free-ext m'.temporary m.temporary (keys nodes) g.path)

  pub HasFuel-enter :
      (fuel : ℕ) (name : Text) (node : GraphNode U Spec) (m : Marks)
      → lookup name nodes ≡ some node
      → m.temporary name ≡ false
      → HasFuel (suc fuel) m
      → HasFuel fuel (enter m name)
  HasFuel-enter fuel name node m found free h = omega (
    arith,
    count_free-mark m.temporary name (keys nodes) free (lookup-contains name nodes node found),
  )

  pub HasFuel-start : HasFuel (suc (length nodes)) start
  HasFuel-start = omega (arith, count_free-le (λ _. false) (keys nodes), length-keys nodes)

  visit-ne-out_of_fuel :
      (fuel : ℕ) (name : Text) (m : Marks) (e : TopoError)
      → Inv nodes m
      → HasFuel fuel m
      → visit fuel nodes name m ≡ err e
      → e ≢ out_of_fuel
  unfolding visit
  visit-ne-out_of_fuel zero name m e inv h r = absurd (omega arith)
  visit-ne-out_of_fuel (suc fuel) name m e inv h r =
      visit_node-err nodes (visit fuel nodes) (visit-Visits nodes fuel) (λ _. HasFuel fuel)
        (λ e. e ≢ out_of_fuel) (λ _ m m'. HasFuel-stable fuel m m')
        (λ d m e. visit-ne-out_of_fuel fuel d m e) name (lookup name nodes) m e inv (λ _ p. cc)
        (λ _ p. cc) (λ node d found free _. HasFuel-enter fuel name node m found free h) r

  -- Whatever the graph, cyclic and dangling ones included, the search ends with an order or with
  -- one of the two errors of the source: the fuel of the model is never used up.
  pub topo_sort-ne-out_of_fuel : topo_sort nodes ≢ err out_of_fuel
  unfolding topo_sort
  topo_sort-ne-out_of_fuel r =
      let fuel = suc (length nodes) in
      elim (>>=-eq-err (visit_all (visit fuel nodes) (sort (keys nodes)) start) (λ m. ok m.order)
        r) [
          | inl inside ↦
              visit_all-err nodes (visit fuel nodes) (visit-Visits nodes fuel) (λ _. HasFuel fuel)
                (λ e. e ≢ out_of_fuel) (λ _ m m'. HasFuel-stable fuel m m')
                (λ d m e. visit-ne-out_of_fuel fuel d m e) (sort (keys nodes)) start out_of_fuel
                (start-Inv nodes) (λ d _. HasFuel-start) inside refl
          | inr (m, _, last) ↦ cc
        ]
