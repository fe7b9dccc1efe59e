-- ===== src/Kernel/Graph/Built.antt =====
-- What a successfully built graph looks like: wired by type, and ordered by its wires.
use wkbench.Base.{
  ◌||◌, Option, none, some, List, [], ◌∷◌, ◌++◌, ok, ◌≡◌, refl, sym, ◌∙◌, ap, subst, inl, inr,
  arith, Text, text_eq, text_eq_iff, contains, Dict, lookup, insert, keys, lookup-insert,
  lookup-insert_cases, keys-insert, lookup-contains, Bool-cases, >>=-eq-ok, ok-injective,
}
use mathlib.Core.List.{Memᴰ}
use wkbench.Contract.{Definition}
use wkbench.Registry.{Registry, resolve}
use wkbench.Dsl.{UnitNode}
use wkbench.Kernel.Refs.{Provider}
use wkbench.Kernel.Topo.{GraphNode}
use wkbench.Kernel.Graph.{
  unit_unresolved, wrap, new_node, unit_node, resolve_nodes, wire_node, wire_nodes, bind_inputs,
}
use wkbench.Kernel.Graph.Wiring.{IsProvided, AllFed, bind_inputs-AllFed}

module _ {U Spec : Type 0} where
  -- Nothing is bound yet.
  abbrev pub Unbound : Dict (GraphNode U Spec) → Type 0
  Unbound nodes = (x : Text) (n : GraphNode U Spec) → lookup x nodes ≡ some n → n.bindings ≡ []

  pub resolve_nodes-Unbound :
      (definition : U → Definition) (reg : Registry U) (units : Dict (UnitNode Spec))
      (names : List Text) (nodes nodes' : Dict (GraphNode U Spec))
      → Unbound nodes
      → resolve_nodes definition reg units names nodes ≡ ok nodes'
      → Unbound nodes'
  unfolding resolve_nodes
  resolve_nodes-Unbound definition reg units [] nodes nodes' u e = subst Unbound (ok-injective e) u
  resolve_nodes-Unbound definition reg units (name ∷ names) nodes nodes' u e =
      let spec = unit_node name units in
      let (found, _, rest) =
        >>=-eq-ok (wrap (unit_unresolved name) (resolve definition reg spec.use_kind))
          (λ found.
            resolve_nodes definition reg units names (insert name (new_node name spec found) nodes))
          e in
      resolve_nodes-Unbound definition reg units names
        (insert name (new_node name spec found) nodes) nodes'
        (λ x n h. insert-Unbound name (new_node name spec found) nodes u refl x n h) rest
    where
      insert-Unbound :
          (name : Text) (node : GraphNode U Spec) (nodes : Dict (GraphNode U Spec))
          → Unbound nodes
          → node.bindings ≡ []
          → Unbound (insert name node nodes)
      insert-Unbound name node nodes u b x n h = elim (lookup-insert_cases name x node n nodes h) [
        | inl (_, same) ↦ subst (λ (l : GraphNode U Spec). l.bindings ≡ []) same b
        | inr (_, old) ↦ u x n old
      ]

  -- The loop that wires the units changes no definition, and feeds each binding that it makes.
  pub record Wired (nodes wired : Dict (GraphNode U Spec)) : Type 0 where
    pub there :
        (x : Text) (n : GraphNode U Spec)
        → lookup x nodes ≡ some n
        → (n' : GraphNode U Spec) × (lookup x wired ≡ some n') × (n'.def ≡ n.def)
    pub fed :
        (x : Text) (n : GraphNode U Spec)
        → lookup x wired ≡ some n
        → AllFed nodes n.def.inputs n.bindings

  module _ (nodes : Dict (GraphNode U Spec)) (providers : List Provider)
      (provided : (p : Provider) → Memᴰ p providers → IsProvided nodes p) where
    wire_node-Wired :
        (name : Text) (found : Option (GraphNode U Spec)) (wired wired' : Dict (GraphNode U Spec))
        → lookup name wired ≡ found
        → Wired nodes wired
        → wire_node providers name found wired ≡ ok wired'
        → Wired nodes wired'
    unfolding wire_node
    wire_node-Wired name none wired wired' f w e = subst (Wired nodes) (ok-injective e) w
    wire_node-Wired name (some node) wired wired' f w e =
        let (bindings, bound, last) =
          >>=-eq-ok (bind_inputs name node.dsl.inputs providers node.def.inputs node.bindings)
            (λ bindings. ok (
              insert name
                (record node { bindings = bindings; after = node.after ++ node.dsl.after }) wired))
            e in
        let node' = record node { bindings = bindings; after = node.after ++ node.dsl.after } in
        subst (Wired nodes) (ok-injective last) (record {
          there = λ x n h.
              let (n', found, def) = w.there x n h in
              elim (Bool-cases (text_eq x name)) [
                | inl same ↦
                    let old : node ≡ n' = cc (f, found, (text_eq_iff x name).0 same) in
                    (node', rw (lookup-insert, same), cc (def, old))
                | inr other ↦ (n', rw (lookup-insert, other) found, def)
              ];
          fed = λ x n h. elim (lookup-insert_cases name x node' n wired h) [
            | inl (_, same) ↦
                subst (λ (l : GraphNode U Spec). AllFed nodes l.def.inputs l.bindings) same
                  (bind_inputs-AllFed nodes providers provided name node.dsl.inputs node.def.inputs
                    node.def.inputs node.bindings bindings (λ i k. k) (w.fed name node f) bound)
            | inr (_, old) ↦ w.fed x n old
          ];
        })

    pub wire_nodes-Wired :
        (names : List Text) (wired wired' : Dict (GraphNode U Spec))
        → Wired nodes wired
        → wire_nodes providers names wired ≡ ok wired'
        → Wired nodes wired'
    unfolding wire_nodes
    wire_nodes-Wired [] wired wired' w e = subst (Wired nodes) (ok-injective e) w
    wire_nodes-Wired (name ∷ names) wired wired' w e =
        let (mid, first, rest) =
          >>=-eq-ok (wire_node providers name (lookup name wired) wired)
            (λ mid. wire_nodes providers names mid) e in
        wire_nodes-Wired names mid wired'
          (wire_node-Wired name (lookup name wired) wired mid refl w first) rest

module _ {U Spec : Type 0} where
  pub resolve_nodes-keys :
      (definition : U → Definition) (reg : Registry U) (units : Dict (UnitNode Spec)) (x : Text)
      (names : List Text) (nodes nodes' : Dict (GraphNode U Spec))
      → resolve_nodes definition reg units names nodes ≡ ok nodes'
      → contains x (keys nodes') ≡ (contains x names || contains x (keys nodes))
  unfolding resolve_nodes contains
  resolve_nodes-keys definition reg units x [] nodes nodes' e =
      ap (λ (m : Dict (GraphNode U Spec)). contains x (keys m)) (sym (ok-injective e))
  resolve_nodes-keys definition reg units x (name ∷ names) nodes nodes' e =
      let (found, _, rest) =
        >>=-eq-ok
          (wrap (unit_unresolved name) (resolve definition reg (unit_node name units).use_kind))
          (λ found.
            resolve_nodes definition reg units names
              (insert name (new_node name (unit_node name units) found) nodes))
          e in
      ground (
        arith,
        resolve_nodes-keys definition reg units x names
            (insert name (new_node name (unit_node name units) found) nodes) nodes' rest,
        keys-insert x name (new_node name (unit_node name units) found) nodes,
      )

  wire_node-keys :
      (providers : List Provider) (x name : Text) (found : Option (GraphNode U Spec))
      (nodes nodes' : Dict (GraphNode U Spec))
      → lookup name nodes ≡ found
      → wire_node providers name found nodes ≡ ok nodes'
      → contains x (keys nodes') ≡ contains x (keys nodes)
  unfolding wire_node
  wire_node-keys providers x name none nodes nodes' f e =
      ap (λ (m : Dict (GraphNode U Spec)). contains x (keys m)) (sym (ok-injective e))
  wire_node-keys providers x name (some node) nodes nodes' f e =
      let (bindings, _, last) =
        >>=-eq-ok (bind_inputs name node.dsl.inputs providers node.def.inputs node.bindings)
          (λ bindings. ok (
            insert name (record node { bindings = bindings; after = node.after ++ node.dsl.after })
              nodes))
          e in
      subst (λ (m : Dict (GraphNode U Spec)). contains x (keys m) ≡ contains x (keys nodes))
        (ok-injective last)
        (ground (
          arith,
          text_eq_iff x name,
          lookup-contains name nodes node f,
          keys-insert x name
              (record node { bindings = bindings; after = node.after ++ node.dsl.after }) nodes,
        ))

  pub wire_nodes-keys :
      (providers : List Provider) (x : Text) (names : List Text)
      (nodes nodes' : Dict (GraphNode U Spec))
      → wire_nodes providers names nodes ≡ ok nodes'
      → contains x (keys nodes') ≡ contains x (keys nodes)
  unfolding wire_nodes
  wire_nodes-keys providers x [] nodes nodes' e =
      ap (λ (m : Dict (GraphNode U Spec)). contains x (keys m)) (sym (ok-injective e))
  wire_nodes-keys providers x (name ∷ names) nodes nodes' e =
      let (mid, first, rest) =
        >>=-eq-ok (wire_node providers name (lookup name nodes) nodes)
          (λ mid. wire_nodes providers names mid) e in
      wire_nodes-keys providers x names mid nodes' rest
      ∙ wire_node-keys providers x name (lookup name nodes) nodes mid refl first
