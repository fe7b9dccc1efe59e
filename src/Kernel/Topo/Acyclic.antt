-- ===== src/Kernel/Topo/Acyclic.antt =====
-- The search succeeds exactly on the graphs that have an order.
use wkbench.Base.{
  ℕ, zero, suc, ◌<◌, true, some, List, [], ◌∷◌, ◌++◌, ok, err, ◌≡◌, ◌↔◌, sym, ◌∙◌, inl, inr, arith,
  Text, text_eq, text_eq_iff, contains, Dict, lookup, keys, length, Bool-cases, Bool-eq,
  Result-cases, subst, contains-append, lookup-contains, contains-lookup, if◌then◌else◌,
}
use wkbench.Base.Sort.{sort, contains-sort}
use wkbench.Kernel.Topo.{GraphNode, Marks, TopoError, start, deps, visit_all, visit, topo_sort}
use wkbench.Kernel.Topo.Sound.{
  Inv, Grows, visit-Visits, start-Inv, topo_sort-Inv, IsTopological, IsDistinct,
}
use wkbench.Kernel.Topo.Total.{HasFuel, HasFuel-stable, HasFuel-enter, HasFuel-start}
use wkbench.Kernel.Topo.Failing.{visit_all-err, visit_node-err}

module _ {U Spec : Type 0} (nodes : Dict (GraphNode U Spec)) where
  -- `rank` puts all that a unit waits for below it, and every unit that is waited for is there.
  pub record IsRanked (rank : Text → ℕ) : Type 0 where
    pub at :
        (name d : Text) (node : GraphNode U Spec)
        → lookup name nodes ≡ some node
        → contains d (deps node) ≡ true
        → (contains d (keys nodes) ≡ true) × (rank d < rank name)

  module _ (rank : Text → ℕ) (ranked : IsRanked rank) where
    -- A unit that the search may visit: it is there, and lies below the path of the search.
    record CanVisit (fuel : ℕ) (name : Text) (m : Marks) : Type 0 where
      known : contains name (keys nodes) ≡ true
      below : (x : Text) → m.temporary x ≡ true → rank name < rank x
      fuelled : HasFuel nodes fuel m

    CanVisit-stable :
        (fuel : ℕ) (name : Text) (m m' : Marks)
        → Grows nodes m m'
        → CanVisit fuel name m
        → CanVisit fuel name m'
    CanVisit-stable fuel name m m' g c = record {
      known = c.known;
      below = λ x h. c.below x (sym (g.path x) ∙ h);
      fuelled = HasFuel-stable nodes fuel m m' g c.fuelled;
    }

    visit-CanVisit :
        (fuel : ℕ) (name : Text) (m : Marks) (e : TopoError)
        → Inv nodes m
        → CanVisit fuel name m
        → visit fuel nodes name m ≡ err e
        → ⊥
    unfolding visit
    visit-CanVisit zero name m e inv c r = absurd (omega (arith, c.fuelled))
    visit-CanVisit (suc fuel) name m e inv c r =
        visit_node-err nodes (visit fuel nodes) (visit-Visits nodes fuel) (CanVisit fuel) (λ _. ⊥)
          (CanVisit-stable fuel) (λ d m e. visit-CanVisit fuel d m e) name (lookup name nodes) m e
          inv (λ absent. let (v, found) = contains-lookup name nodes c.known in cc)
          (λ looped. omega (arith, c.below name looped))
          (λ node d found free h.
            let (known, lower) = ranked.at name d node found h in
            record {
              known = known;
              below = λ x t. ground (arith, c.below x, text_eq_iff x name);
              fuelled = HasFuel-enter nodes fuel name node m found free c.fuelled;
            })
          r

    ranked-order : (order : List Text) × (topo_sort nodes ≡ ok order)
    unfolding topo_sort
    ranked-order =
        let fuel = suc (length nodes) in
        elim (Result-cases (visit_all (visit fuel nodes) (sort (keys nodes)) start)) [
          | inl (m, run) ↦ (m.order, rw run)
          | inr (e, run) ↦ absurd (
              visit_all-err nodes (visit fuel nodes) (visit-Visits nodes fuel) (CanVisit fuel)
                (λ _. ⊥) (CanVisit-stable fuel) (λ d m e. visit-CanVisit fuel d m e)
                (sort (keys nodes)) start e (start-Inv nodes)
                (λ d h. record {
                  known = sym (contains-sort d (keys nodes)) ∙ h;
                  below = λ x t. cc;
                  fuelled = HasFuel-start nodes;
                })
                run)
        ]

-- The place of a name in a list, from 0.
pub index_of : Text → List Text → ℕ
index_of x [] = 0
index_of x (y ∷ ys) = if text_eq x y then 0 else suc (index_of x ys)

index_of-lt :
    (x : Text) (xs ys : List Text) → contains x xs ≡ true → index_of x (xs ++ ys) < length xs
unfolding index_of contains
index_of-lt x [] ys h = absurd (cc)
index_of-lt x (y ∷ xs) ys h = ground (arith, index_of-lt x xs ys)

-- A list that contains a name, split where the name first stands.
pub first_split :
    (x : Text) (xs : List Text)
    → contains x xs ≡ true
    → (before after : List Text) × (xs ≡ before ++ x ∷ after) × (index_of x xs ≡ length before)
unfolding index_of contains
first_split x [] h = absurd (cc)
first_split x (y ∷ ys) h = elim (Bool-cases (text_eq x y)) [
  | inl same ↦ ([], ys, ground (arith, text_eq_iff x y), rw same)
  | inr other ↦
      let (before, after, e, i) = first_split x ys (rw other at h) in
      (y ∷ before, after, cc, rw other (omega arith))
]

module _ {U Spec : Type 0} (nodes : Dict (GraphNode U Spec)) where
  order-keys :
      (order : List Text)
      → IsTopological nodes order
      → (x : Text) → contains x order ≡ true
      → contains x (keys nodes) ≡ true
  order-keys order topological x h =
      let (before, after, split, _) = first_split x order h in
      let (node, found, _) = topological.at before after x split in
      lookup-contains x nodes node found

  order-IsRanked :
      (order : List Text) → topo_sort nodes ≡ ok order → IsRanked nodes (λ x. index_of x order)
  order-IsRanked order e =
      let (topological, _, listed) = topo_sort-Inv nodes order e in
      record {
        at = λ name d node found waits.
            let (before, after, split, place) =
              first_split name order (listed name (lookup-contains name nodes node found)) in
            let (node', found', first) = topological.at before after name split in
            let same : node ≡ node' = cc (found, found') in
            let earlier = first d (subst (λ n. contains d (deps n) ≡ true) same waits) in
            let within =
              subst (λ o. contains d o ≡ true) (sym split)
                (ground (arith, contains-append d before (name ∷ after))) in
            (
              order-keys order topological d within,
              subst (λ o. index_of d o < index_of name order) (sym split)
                  (omega (arith, place, index_of-lt d before (name ∷ after) earlier)),
            );
      }

  -- A graph has an order exactly if every unit that is waited for is there and no unit waits for
  -- itself through others, that is, if the units can be ranked so that each one waits only for
  -- units of a lower rank.
  pub topo_sort-ok_iff :
      ((rank : Text → ℕ) × IsRanked nodes rank)
      ↔ ((order : List Text) × (topo_sort nodes ≡ ok order))
  topo_sort-ok_iff = (
    λ (rank, ranked). ranked-order nodes rank ranked,
    λ (order, e). ((λ x. index_of x order), order-IsRanked order e),
  )

  -- A successful order holds each unit of the graph exactly once and nothing else, and every unit
  -- stands behind all the units that it waits for, which are units of the graph.
  pub topo_sort-IsTopological :
      (order : List Text)
      → topo_sort nodes ≡ ok order
      → IsTopological nodes order
        × IsDistinct nodes order
        × ((x : Text) → contains x order ≡ contains x (keys nodes))
  topo_sort-IsTopological order e =
      let (topological, distinct, listed) = topo_sort-Inv nodes order e in
      (
        topological,
        distinct,
        λ x.
            Bool-eq (contains x order) (contains x (keys nodes)) (order-keys order topological x)
              (listed x),
      )
