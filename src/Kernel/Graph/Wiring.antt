-- ===== src/Kernel/Graph/Wiring.antt =====
-- Each input that is wired is fed by an output of its type: the loops of buildGraph.
use wkbench.Base.{
  Option, none, some, List, [], ◌∷◌, Result, ok, err, ◌≡◌, ◌≢◌, refl, sym, ◌∙◌, ap, subst, inl, inr,
  arith, Text, text, text_eq, text_eq_iff, Dict, lookup, insert, lookup-insert, if◌then◌else◌,
  Bool-cases, >>=-eq-ok, ok-injective, Memᴰ-append,
}
use mathlib.Core.List.{Memᴰ}
use wkbench.Contract.{PortDef}
use wkbench.Kernel.Refs.{ResourceRef, Provider, resolve_input}
use wkbench.Kernel.Refs.Picked.{IsPicked, resolve_input-IsPicked_iff}
use wkbench.Kernel.Topo.{GraphNode}
use wkbench.Kernel.Graph.{
  not_wired, wrap, bind_inputs, node_providers, outputs_of, collect_providers,
}

pub wrap-eq-ok : {E F A : Type 0} (f : E → F) (r : Result E A) {a : A} → wrap f r ≡ ok a → r ≡ ok a
wrap-eq-ok f (ok b) e = cc
wrap-eq-ok f (err d) e = cc

node_providers-mem :
    (name : Text) (outs : List PortDef) (p : Provider)
    → Memᴰ p (node_providers name outs)
    → (p.ref.unit ≡ name) × Memᴰ p.port outs × (p.port.name ≡ p.ref.port)
unfolding node_providers
node_providers-mem name [] p m = elim m [ ]
node_providers-mem name (o ∷ outs) p (Memᴰ.head e) = (
  ap (λ (q : Provider). q.ref.unit) e,
  Memᴰ.head (ap (λ (q : Provider). q.port) e),
  ap (λ (q : Provider). q.port.name) e ∙ sym (ap (λ (q : Provider). q.ref.port) e),
)
node_providers-mem name (o ∷ outs) p (Memᴰ.tail m) =
    let (u, k, n) = node_providers-mem name outs p m in (u, Memᴰ.tail k, n)

module _ {U Spec : Type 0} where
  -- The unit `ref.unit` of the graph has the output `ref.port`, of the type of one of the inputs,
  -- which has the name `input_name`.
  pub record IsSource (nodes : Dict (GraphNode U Spec)) (inputs : List PortDef) (input_name : Text)
      (ref : ResourceRef) : Type 0 where
    pub input : PortDef
    pub declared : Memᴰ input inputs
    pub named : input.name ≡ input_name
    pub producer : GraphNode U Spec
    pub known : lookup ref.unit nodes ≡ some producer
    pub output : PortDef
    pub produced : Memᴰ output producer.def.outputs
    pub port : output.name ≡ ref.port
    pub same_type : output.type ≡ input.type

  pub record IsProvided (nodes : Dict (GraphNode U Spec)) (p : Provider) : Type 0 where
    pub producer : GraphNode U Spec
    pub known : lookup p.ref.unit nodes ≡ some producer
    pub produced : Memᴰ p.port producer.def.outputs
    pub port : p.port.name ≡ p.ref.port

  outputs_of-IsProvided :
      (name : Text) (nodes : Dict (GraphNode U Spec)) (p : Provider)
      (found : Option (GraphNode U Spec))
      → lookup name nodes ≡ found
      → Memᴰ p (node_providers name (outputs_of found))
      → IsProvided nodes p
  unfolding outputs_of node_providers
  outputs_of-IsProvided name nodes p none f m = elim m [ ]
  outputs_of-IsProvided name nodes p (some node) f m =
      let (u, k, n) = node_providers-mem name node.def.outputs p m in
      record { producer = node; known = ap (λ x. lookup x nodes) u ∙ f; produced = k; port = n }

  pub collect_providers-mem :
      (names : List Text) (nodes : Dict (GraphNode U Spec)) (p : Provider)
      → Memᴰ p (collect_providers names nodes)
      → IsProvided nodes p
  unfolding collect_providers
  collect_providers-mem [] nodes p m = elim m [ ]
  collect_providers-mem (name ∷ names) nodes p m =
      elim (Memᴰ-append (node_providers name (outputs_of (lookup name nodes))) _ m) [
        | inl here ↦ outputs_of-IsProvided name nodes p (lookup name nodes) refl here
        | inr later ↦ collect_providers-mem names nodes p later
      ]

  -- What `bind_inputs` keeps of the bindings of a unit.
  abbrev pub AllFed : Dict (GraphNode U Spec) → List PortDef → Dict ResourceRef → Type 0
  AllFed nodes inputs bindings =
      (i : Text) (ref : ResourceRef) → lookup i bindings ≡ some ref → IsSource nodes inputs i ref

  module _ (nodes : Dict (GraphNode U Spec)) (providers : List Provider)
      (provided : (p : Provider) → Memᴰ p providers → IsProvided nodes p) where
    provider-IsSource :
        (inputs : List PortDef) (input : PortDef) (ref : ResourceRef) (p : Provider)
        → Memᴰ input inputs
        → Memᴰ p providers
        → p.ref ≡ ref
        → p.port.type ≡ input.type
        → IsSource nodes inputs input.name ref
    provider-IsSource inputs input ref p m k same type =
        let q = provided p k in
        record {
          input = input;
          declared = m;
          named = refl;
          producer = q.producer;
          known = ap (λ (r : ResourceRef). lookup r.unit nodes) (sym same) ∙ q.known;
          output = p.port;
          produced = q.produced;
          port = q.port ∙ ap (λ (r : ResourceRef). r.port) same;
          same_type = type;
        }

    choice-IsSource :
        (name : Text) (inputs : List PortDef) (input : PortDef) (explicit : Dict Text)
        (ref : ResourceRef)
        → Memᴰ input inputs
        → ref.unit ≢ []
        → IsPicked name input explicit providers ref
        → IsSource nodes inputs input.name ref
    choice-IsSource name inputs input explicit ref m full c = elim c [
      | IsPicked.by_name raw p _ _ _ facts ↦
          provider-IsSource inputs input ref p m facts.0 facts.1 facts.2
      | IsPicked.by_type p _ _ facts ↦
          provider-IsSource inputs input ref p m facts.0 facts.1 facts.3
      | IsPicked.omitted _ _ facts ↦ absurd (full (ap (λ (r : ResourceRef). r.unit) facts.1))
    ]

    insert-AllFed :
        (inputs : List PortDef) (name : Text) (ref : ResourceRef) (bs : Dict ResourceRef)
        → AllFed nodes inputs bs
        → IsSource nodes inputs name ref
        → AllFed nodes inputs (insert name ref bs)
    insert-AllFed inputs name ref bs fed source i r h = elim (Bool-cases (text_eq i name)) [
      | inl same ↦
          let h' : some ref ≡ some r = rw (lookup-insert, same) at h in
          subst (λ x. IsSource nodes inputs x r) (sym ((text_eq_iff i name).0 same))
            (subst (IsSource nodes inputs name) (cc) source)
      | inr other ↦ fed i r (rw (lookup-insert, other) at h)
    ]

    pub bind_inputs-AllFed :
        (name : Text) (explicit : Dict Text) (all inputs : List PortDef) (bs bs' : Dict ResourceRef)
        → ((i : PortDef) → Memᴰ i inputs → Memᴰ i all)
        → AllFed nodes all bs
        → bind_inputs name explicit providers inputs bs ≡ ok bs'
        → AllFed nodes all bs'
    unfolding bind_inputs
    bind_inputs-AllFed name explicit all [] bs bs' sub fed e =
        subst (AllFed nodes all) (ok-injective e) fed
    bind_inputs-AllFed name explicit all (input ∷ inputs) bs bs' sub fed e =
        let (ref, found, rest) =
          >>=-eq-ok (wrap not_wired (resolve_input name input explicit providers))
            (λ ref.
              bind_inputs name explicit providers inputs
                (if text_eq ref.unit (text "") then bs else insert input.name ref bs))
            e in
        let choice =
          (resolve_input-IsPicked_iff name input explicit providers ref).0
            (wrap-eq-ok not_wired _ found) in
        bind_inputs-AllFed name explicit all inputs
          (if text_eq ref.unit (text "") then bs else insert input.name ref bs) bs'
          (λ i k. sub i (Memᴰ.tail k))
          (elim (Bool-cases (text_eq ref.unit [])) [
            | inl none_found ↦ rw none_found fed
            | inr full ↦ rw full (
                insert-AllFed all input.name ref bs fed (
                  choice-IsSource name all input explicit ref (sub input (Memᴰ.head refl))
                    (λ z. ground (arith, text_eq_iff ref.unit [])) choice))
          ])
          rest
