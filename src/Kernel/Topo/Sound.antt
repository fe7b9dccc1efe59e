-- ===== src/Kernel/Topo/Sound.antt =====
-- What a successful search has ordered: every unit once, each behind the units it waits for.
use wkbench.Base.{
  ℕ, zero, suc, true, false, Option, none, some, List, [], ◌∷◌, ◌++◌, Result, ok, ◌≡◌, refl, sym,
  ◌∙◌, inl, inr, arith, Text, text_eq_iff, text_eq_refl, contains, contains-append, Dict, lookup,
  keys, Bool-cases, >>=-eq-ok, ok-injective, subst, snoc_split, nil≢append, length,
}
use wkbench.Base.Sort.{sort, contains-sort}
use wkbench.Kernel.Topo.{
  GraphNode, Marks, TopoError, enter, leave, start, deps, visit_all, visit_node, visit, topo_sort,
}

module _ {U Spec : Type 0} (nodes : Dict (GraphNode U Spec)) where
  -- Wherever a name stands in the list, it names a node, and all that the node waits for stands
  -- before it.
  pub record IsTopological (order : List Text) : Type 0 where
    pub at :
        (before after : List Text) (name : Text)
        → order ≡ before ++ name ∷ after
        → (node : GraphNode U Spec) × (lookup name nodes ≡ some node)
          × ((d : Text) → contains d (deps node) ≡ true → contains d before ≡ true)

  -- No name stands behind itself.
  pub record IsDistinct (order : List Text) : Type 0 where
    pub at :
        (before after : List Text) (name : Text)
        → order ≡ before ++ name ∷ after
        → contains name before ≡ false

  pub record Inv (m : Marks) : Type 0 where
    pub listed : (x : Text) → m.permanent x ≡ contains x m.order
    pub topological : IsTopological m.order
    pub distinct : IsDistinct m.order

  -- What a visit does to the marks, whichever branch it takes.
  pub record Grows (m m' : Marks) : Type 0 where
    pub path : (x : Text) → m'.temporary x ≡ m.temporary x
    pub kept : (x : Text) → contains x m.order ≡ true → contains x m'.order ≡ true
    pub barred : (x : Text) → m.temporary x ≡ true → contains x m'.order ≡ contains x m.order

  Grows-refl : (m : Marks) → Grows m m
  Grows-refl m = record { path = λ x. refl; kept = λ x h. h; barred = λ x h. refl }

  Grows-trans : (m m' m'' : Marks) → Grows m m' → Grows m' m'' → Grows m m''
  Grows-trans m m' m'' g h = record {
    path = λ x. h.path x ∙ g.path x;
    kept = λ x k. h.kept x (g.kept x k);
    barred = λ x k. h.barred x (g.path x ∙ k) ∙ g.barred x k;
  }

  pub record Visits (visit : Text → Marks → Result TopoError Marks) : Type 0 where
    pub at :
        (name : Text) (m m' : Marks)
        → Inv m
        → visit name m ≡ ok m'
        → Inv m' × Grows m m' × (contains name m'.order ≡ true)

  module _ (name : Text) (node : GraphNode U Spec) (m : Marks) where
    leave-Inv :
        lookup name nodes ≡ some node
        → ((d : Text) → contains d (deps node) ≡ true → contains d m.order ≡ true)
        → contains name m.order ≡ false
        → Inv m
        → Inv (leave name m)
    unfolding contains
    leave-Inv found before fresh inv = record {
      listed = λ x. ground (arith, contains-append x m.order (name ∷ []), inv.listed x);
      topological = record {
        at = λ b a n e. elim (snoc_split m.order b n name a e) [
          | inl (p, q) ↦ (node, cc, λ d h. ground (arith, before d))
          | inr (mid, p) ↦ inv.topological.at b mid n p
        ];
      };
      distinct = record {
        at = λ b a n e. elim (snoc_split m.order b n name a e) [
          | inl (p, q) ↦ ground (arith)
          | inr (mid, p) ↦ inv.distinct.at b mid n p
        ];
      };
    }

  pub visit_all-Inv :
      (visit : Text → Marks → Result TopoError Marks)
      → Visits visit
      → (ds : List Text) (m m' : Marks) → Inv m
      → visit_all visit ds m ≡ ok m'
      → Inv m' × Grows m m' × ((d : Text) → contains d ds ≡ true → contains d m'.order ≡ true)
  unfolding visit_all contains
  visit_all-Inv visit vs [] m m' inv e =
      subst (λ k. Inv k × Grows m k × ((d : Text) → false ≡ true → contains d k.order ≡ true))
        (ok-injective e) (inv, Grows-refl m, λ d h. cc)
  visit_all-Inv visit vs (d ∷ ds) m m' inv e =
      let (mid, first, others) = >>=-eq-ok (visit d m) (visit_all visit ds) e in
      let (inv₁, g₁, there) = vs.at d m mid inv first in
      let (inv₂, g₂, rest) = visit_all-Inv visit vs ds mid m' inv₁ others in
      (
        inv₂,
        Grows-trans m mid m' g₁ g₂,
        λ x h. ground (arith, text_eq_iff x d, g₂.kept d there, rest x),
      )

  pub enter-Inv : (name : Text) (m : Marks) → Inv m → Inv (enter m name)
  enter-Inv name m inv = record {
    listed = inv.listed;
    topological = inv.topological;
    distinct = inv.distinct;
  }

  -- The two ends of a visit that goes through the dependencies.
  visited :
      (name : Text) (node : GraphNode U Spec) (m k : Marks)
      → lookup name nodes ≡ some node
      → m.permanent name ≡ false
      → m.temporary name ≡ false
      → Inv m
      → Inv k
        × Grows (enter m name) k
        × ((d : Text) → contains d (deps node) ≡ true → contains d k.order ≡ true)
      → Inv (leave name k) × Grows m (leave name k) × (contains name (leave name k).order ≡ true)
  unfolding contains
  visited name node m k found fresh open_path inv (inv', g, before) = (
    leave-Inv name node k found before
        (ground (arith, g.barred name, inv.listed name, text_eq_refl name)) inv',
    record {
      path = λ x. ground (arith, g.path x, text_eq_iff x name);
      kept = λ x h. ground (arith, g.kept x, contains-append x k.order (name ∷ []));
      barred = λ x h.
          ground (arith, g.barred x, contains-append x k.order (name ∷ []), text_eq_iff x name);
    },
    ground (arith, contains-append name k.order (name ∷ []), text_eq_refl name),
  )

  visit_node-Inv :
      (visit : Text → Marks → Result TopoError Marks)
      → Visits visit
      → (name : Text) (found : Option (GraphNode U Spec)) (m m' : Marks) → lookup name nodes ≡ found
      → Inv m
      → visit_node visit name found m ≡ ok m'
      → Inv m' × Grows m m' × (contains name m'.order ≡ true)
  unfolding visit_node
  visit_node-Inv visit vs name none m m' f inv e = cc
  visit_node-Inv visit vs name (some node) m m' f inv e = elim (Bool-cases (m.permanent name)) [
    | inl done ↦
        let p = ok-injective (rw done at e) in
        subst (λ k. Inv k × Grows m k × (contains name k.order ≡ true)) p
          (inv, Grows-refl m, sym (inv.listed name) ∙ done)
    | inr fresh ↦ elim (Bool-cases (m.temporary name)) [
      | inl looped ↦ absurd (ground arith)
      | inr open_path ↦
          let (k, deps_done, last) =
            >>=-eq-ok (visit_all visit (deps node) (enter m name)) (λ k. ok (leave name k))
              (rw (fresh, open_path) at e) in
          subst (λ l. Inv l × Grows m l × (contains name l.order ≡ true)) (ok-injective last)
            (visited name node m k f fresh open_path inv (
              visit_all-Inv visit vs (deps node) (enter m name) k (enter-Inv name m inv) deps_done))
    ]
  ]

  pub visit-Visits : (fuel : ℕ) → Visits (visit fuel nodes)
  unfolding visit
  visit-Visits zero = record { at = λ name m m' inv e. absurd (ground arith) }
  visit-Visits (suc fuel) = record {
    at = λ name m m' inv e.
        visit_node-Inv (visit fuel nodes) (visit-Visits fuel) name (lookup name nodes) m m' refl inv
          e;
  }

  pub start-Inv : Inv start
  unfolding contains
  start-Inv = record {
    listed = λ x. refl;
    topological = record { at = λ b a n e. absurd (nil≢append b n a e) };
    distinct = record { at = λ b a n e. absurd (nil≢append b n a e) };
  }

  pub topo_sort-Inv :
      (order : List Text)
      → topo_sort nodes ≡ ok order
      → IsTopological order
        × IsDistinct order
        × ((x : Text) → contains x (keys nodes) ≡ true → contains x order ≡ true)
  unfolding topo_sort
  topo_sort-Inv order e =
      let (m, run, last) =
        >>=-eq-ok (visit_all (visit (suc (length nodes)) nodes) (sort (keys nodes)) start)
          (λ m. ok m.order) e in
      let (inv, _, all) =
        visit_all-Inv (visit (suc (length nodes)) nodes) (visit-Visits (suc (length nodes)))
          (sort (keys nodes)) start m start-Inv run in
      subst
        (λ o.
          IsTopological o
          × IsDistinct o
          × ((x : Text) → contains x (keys nodes) ≡ true → contains x o ≡ true))
        (ok-injective last)
        (inv.topological, inv.distinct, λ x h. all x (contains-sort x (keys nodes) ∙ h))
