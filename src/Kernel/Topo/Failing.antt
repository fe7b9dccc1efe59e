-- ===== src/Kernel/Topo/Failing.antt =====
-- A rule for the errors of the search: what holds of every call that the search makes.
use wkbench.Base.{
  true, false, Option, none, some, List, [], ◌∷◌, Result, ok, err, ◌≡◌, refl, inl, inr, arith, Text,
  text_eq_refl, contains, Dict, Bool-cases, >>=-eq-err, err-injective, subst,
}
use wkbench.Kernel.Topo.{
  GraphNode, Marks, TopoError, does_not_exist, cycle_at, enter, leave, deps, visit_all, visit_node,
}
use wkbench.Kernel.Topo.Sound.{Inv, Grows, Visits, enter-Inv}

module _ {U Spec : Type 0} (nodes : Dict (GraphNode U Spec))
    (visit : Text → Marks → Result TopoError Marks) (vs : Visits nodes visit)
    (P : Text → Marks → Type 0) (Q : TopoError → Type 0)
    (stable : (d : Text) (m m' : Marks) → Grows nodes m m' → P d m → P d m')
    (fails : (d : Text) (m : Marks) (e : TopoError)
      → Inv nodes m
      → P d m
      → visit d m ≡ err e
      → Q e) where
  -- An error of the loop over the dependencies is an error of a call at one of them.
  pub visit_all-err :
      (ds : List Text) (m : Marks) (e : TopoError)
      → Inv nodes m
      → ((d : Text) → contains d ds ≡ true → P d m)
      → visit_all visit ds m ≡ err e
      → Q e
  unfolding visit_all contains
  visit_all-err [] m e inv h r = absurd (cc)
  visit_all-err (d ∷ ds) m e inv h r = elim (>>=-eq-err (visit d m) (visit_all visit ds) r) [
    | inl here ↦ fails d m e inv (h d (ground (arith, text_eq_refl d))) here
    | inr (mid, done, later) ↦
        let (inv', g, _) = vs.at d m mid inv done in
        visit_all-err ds mid e inv' (λ x k. stable x m mid g (h x (ground arith))) later
  ]

  -- The errors of one visit: a missing unit, a loop, or an error of a call at a dependency.
  pub visit_node-err :
      (name : Text) (found : Option (GraphNode U Spec)) (m : Marks) (e : TopoError)
      → Inv nodes m
      → (found ≡ none → Q (does_not_exist name))
      → (m.temporary name ≡ true → Q (cycle_at name))
      → ((node : GraphNode U Spec) (d : Text)
          → found ≡ some node
          → m.temporary name ≡ false
          → contains d (deps node) ≡ true
          → P d (enter m name))
      → visit_node visit name found m ≡ err e
      → Q e
  unfolding visit_node
  visit_node-err name none m e inv missing looped below r = subst Q (err-injective r) (missing refl)
  visit_node-err name (some node) m e inv missing looped below r =
      elim (Bool-cases (m.permanent name)) [
        | inl done ↦ absurd (ground arith)
        | inr fresh ↦ elim (Bool-cases (m.temporary name)) [
          | inl loop ↦ subst Q (err-injective (rw (fresh, loop) at r)) (looped loop)
          | inr open_path ↦
              elim (>>=-eq-err (visit_all visit (deps node) (enter m name)) (λ k. ok (leave name k))
                (rw (fresh, open_path) at r)) [
                  | inl inside ↦
                      visit_all-err (deps node) (enter m name) e (enter-Inv nodes name m inv)
                        (λ d h. below node d refl open_path h) inside
                  | inr (k, _, last) ↦ absurd (cc)
                ]
        ]
      ]
