-- ===== src/Kernel/Graph/Waits.antt =====
-- What buildGraph makes of the scenario's entry of each unit: its node keeps the entry, and waits for
-- the units the entry names.
use wkbench.Base.{
  true, ◌||◌, Option, none, some, List, [], ◌∷◌, ◌++◌, ok, ◌≡◌, refl, sym, ◌∙◌, ap, subst, inl, inr,
  arith, Text, text_eq, text_eq_iff, contains, contains-append, Dict, lookup, insert,
  lookup-insert_cases, Bool-cases, >>=-eq-ok, ok-injective,
}
use wkbench.Contract.{Definition}
use wkbench.Registry.{Registry, resolve}
use wkbench.Dsl.{UnitNode}
use wkbench.Kernel.Refs.{Provider}
use wkbench.Kernel.Topo.{GraphNode}
use wkbench.Kernel.Graph.{
  unit_unresolved, wrap, new_node, unit_node, resolve_nodes, wire_node, wire_nodes, bind_inputs,
}

module _ {U Spec : Type 0} (units : Dict (UnitNode Spec)) where
  -- The nodes keep the scenario's entries.
  abbrev pub AreNamed : Dict (GraphNode U Spec) → Type 0
  AreNamed nodes =
      (x : Text) (n : GraphNode U Spec) → lookup x nodes ≡ some n → n.dsl ≡ unit_node x units

  pub resolve_nodes-AreNamed :
      (definition : U → Definition) (reg : Registry U) (names : List Text)
      (nodes nodes' : Dict (GraphNode U Spec))
      → AreNamed nodes
      → resolve_nodes definition reg units names nodes ≡ ok nodes'
      → AreNamed nodes'
  unfolding resolve_nodes new_node
  resolve_nodes-AreNamed definition reg [] nodes nodes' u e = subst AreNamed (ok-injective e) u
  resolve_nodes-AreNamed definition reg (name ∷ names) nodes nodes' u e =
      let spec = unit_node name units in
      let (found, _, rest) =
        >>=-eq-ok (wrap (unit_unresolved name) (resolve definition reg spec.use_kind))
          (λ found.
            resolve_nodes definition reg units names (insert name (new_node name spec found) nodes))
          e in
      resolve_nodes-AreNamed definition reg names (insert name (new_node name spec found) nodes)
        nodes'
        (λ x n h. elim (lookup-insert_cases name x (new_node name spec found) n nodes h) [
          | inl (at, same) ↦
              subst (λ (l : GraphNode U Spec). l.dsl ≡ unit_node x units) same
                (ap (λ k. unit_node k units) (sym at))
          | inr (_, old) ↦ u x n old
        ])
        rest

  -- The nodes keep the entries, and those of the names that are done wait for what theirs name.
  abbrev pub DoneWait : List Text → Dict (GraphNode U Spec) → Type 0
  DoneWait done nodes =
      (x : Text) (n : GraphNode U Spec)
      → lookup x nodes ≡ some n
      → (n.dsl ≡ unit_node x units)
        × (contains x done ≡ true
            → (d : Text) → contains d n.dsl.after ≡ true
            → contains d n.after ≡ true)

  wire_node-DoneWait :
      (providers : List Provider) (name : Text) (done : List Text)
      (found : Option (GraphNode U Spec)) (nodes nodes' : Dict (GraphNode U Spec))
      → lookup name nodes ≡ found
      → DoneWait done nodes
      → wire_node providers name found nodes ≡ ok nodes'
      → DoneWait (name ∷ done) nodes'
  unfolding wire_node contains
  wire_node-DoneWait providers name done none nodes nodes' f w e =
      subst (DoneWait (name ∷ done)) (ok-injective e) (λ x n h. (
        (w x n h).0,
        λ c. elim (Bool-cases (text_eq x name)) [
          | inl same ↦ let at = (text_eq_iff x name).0 same in absurd (cc)
          | inr other ↦ (w x n h).1 (ground (arith, c, other))
        ],
      ))
  wire_node-DoneWait providers name done (some node) nodes nodes' f w e =
      let (bindings, _, last) =
        >>=-eq-ok (bind_inputs name node.dsl.inputs providers node.def.inputs node.bindings)
          (λ bindings. ok (
            insert name (record node { bindings = bindings; after = node.after ++ node.dsl.after })
              nodes))
          e in
      let node' = record node { bindings = bindings; after = node.after ++ node.dsl.after } in
      subst (DoneWait (name ∷ done)) (ok-injective last) (λ x n h.
        elim (lookup-insert_cases name x node' n nodes h) [
          | inl (at, same) ↦
              subst
                (λ (l : GraphNode U Spec).
                  (l.dsl ≡ unit_node x units)
                  × (contains x (name ∷ done) ≡ true
                      → (d : Text) → contains d l.dsl.after ≡ true
                      → contains d l.after ≡ true))
                same
                (
                  (w name node f).0 ∙ ap (λ k. unit_node k units) (sym at),
                  λ _ d c. ground (arith, c, contains-append d node.after node.dsl.after),
                )
          | inr (at, old) ↦ ((w x n old).0, λ c. (w x n old).1 (ground (arith, at, c)))
        ])

  pub wire_nodes-DoneWait :
      (providers : List Provider) (names done : List Text) (nodes nodes' : Dict (GraphNode U Spec))
      → DoneWait done nodes
      → wire_nodes providers names nodes ≡ ok nodes'
      → (x : Text) (n : GraphNode U Spec) → lookup x nodes' ≡ some n
      → (n.dsl ≡ unit_node x units)
        × ((contains x names || contains x done) ≡ true
            → (d : Text) → contains d n.dsl.after ≡ true
            → contains d n.after ≡ true)
  unfolding wire_nodes contains
  wire_nodes-DoneWait providers [] done nodes nodes' w e x n h =
      (subst (DoneWait done) (ok-injective e) w) x n h
  wire_nodes-DoneWait providers (name ∷ names) done nodes nodes' w e x n h =
      let (mid, first, rest) =
        >>=-eq-ok (wire_node providers name (lookup name nodes) nodes)
          (λ mid. wire_nodes providers names mid) e in
      let later =
        wire_nodes-DoneWait providers names (name ∷ done) mid nodes'
          (wire_node-DoneWait providers name done (lookup name nodes) nodes mid refl w first) rest x
          n h in
      (later.0, λ c d k. later.1 (ground (arith, c)) d k)
