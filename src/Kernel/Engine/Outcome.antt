-- ===== src/Kernel/Engine/Outcome.antt =====
-- What a run of a scenario returns.
use wkbench.Base.{
  true, false, ◌||◌, ◌&&◌, Option, none, some, List, [], ◌∷◌, Result, ok, err, ◌>>=◌, ◌≡◌, ◌↔◌,
  refl, sym, subst, ◌∙◌, arith, inl, inr, Text, text_eq, text_eq_iff, contains, Dict, lookup,
  lookup-insert, keys, contains-lookup, lookup-contains, Bool-cases,
}
use wkbench.Contract.{Definition}
use wkbench.Dsl.{Scenario}
use wkbench.Registry.{Registry}
use wkbench.Kernel.Outputs.{CleanupTarget, cleanup_targets}
use wkbench.Kernel.Topo.Acyclic.{first_split}
use wkbench.Kernel.Topo.{GraphNode}
use wkbench.Kernel.Graph.{Graph, GraphError, build_graph}
use wkbench.Kernel.Graph.Ready.{build_graph-IsReady}
use wkbench.Kernel.Host.{Host}
use wkbench.Kernel.Run.{completed, worker_failed, RunError, UnitResult, Progress, stop_backgrounds}
use wkbench.Kernel.Run.Stopping.{stop_backgrounds-status, stop_backgrounds-IsGoing}
use wkbench.Kernel.Steps.{Step, guard, run_unit}
use wkbench.Kernel.Steps.Rules.{Ends, Ends-map, Ends-bind, guard-Ends}
use wkbench.Kernel.Steps.Going.{IsGoing, HasFailed, is_covered, Advances, run_unit-Advances}
use wkbench.Kernel.Engine.{
  run_named, run_units, add_cleanup, on_close, close_targets, cleanup, join_shutdown,
  stop_after_failure, fail_early, shut_down, finish, begin, run_graph, run_built, engine_run,
}

module _ {U Spec : Type 0} (h : Host U Spec) where
  open h use {W, E, Any}

  -- The unit has the result of a unit that completed.
  pub record HasCompleted (x : Text) (p : Progress h) : Type 0 where
    pub result : UnitResult h
    pub found : lookup x p.units ≡ some result
    pub status : result.status ≡ completed
    pub error : result.error ≡ none

  -- Closing the outputs keeps the status of the run and the completed units.
  on_close-status :
      (t : CleanupTarget Any) (answer : Option E × W) (p : Progress h)
      → (on_close h t answer p).status ≡ p.status
  unfolding on_close
  on_close-status t (none, w) p = refl
  on_close-status t (some e, w) p = refl

  on_close-HasCompleted :
      (x : Text) (t : CleanupTarget Any) (answer : Option E × W) (p : Progress h)
      → HasCompleted x p
      → HasCompleted x (on_close h t answer p)
  unfolding on_close add_cleanup
  on_close-HasCompleted x t (none, w) p c = record {
    result = c.result;
    found = c.found;
    status = c.status;
    error = c.error;
  }
  on_close-HasCompleted x t (some e, w) p c = elim (Bool-cases (text_eq x t.unit)) [
    | inr other ↦ record {
      result = c.result;
      found = rw (lookup-insert, other) c.found;
      status = c.status;
      error = c.error;
    }
    | inl same ↦
        let here : lookup t.unit p.units ≡ some c.result =
          subst (λ y. lookup y p.units ≡ some c.result) ((text_eq_iff x t.unit).0 same) c.found in
        record {
          result = add_cleanup h t.port e (some c.result);
          found = rw (lookup-insert, same, here) refl;
          status = c.status;
          error = c.error;
        }
  ]

  close_targets-status :
      (ts : List (CleanupTarget Any)) (p : Progress h) → (close_targets h ts p).status ≡ p.status
  unfolding close_targets
  close_targets-status [] p = refl
  close_targets-status (t ∷ ts) p =
      close_targets-status ts _ ∙ on_close-status t (h.close t.unit t.port t.closeable p.w) p

  close_targets-HasCompleted :
      (x : Text) (ts : List (CleanupTarget Any)) (p : Progress h)
      → HasCompleted x p
      → HasCompleted x (close_targets h ts p)
  unfolding close_targets
  close_targets-HasCompleted x [] p c = c
  close_targets-HasCompleted x (t ∷ ts) p c =
      close_targets-HasCompleted x ts _ (on_close-HasCompleted x t _ p c)

  -- A run of the loop that does not fail gives every unit of the order a turn.
  keys_of_none :
      (nodes : Dict (GraphNode U Spec)) (name : Text)
      → lookup name nodes ≡ none
      → contains name (keys nodes) ≡ false
  keys_of_none nodes name f = elim (Bool-cases (contains name (keys nodes))) [
    | inr absent ↦ absent
    | inl there ↦ let (n, found) = contains-lookup name nodes there in absurd (cc)
  ]

  record Covers (nodes : Dict (GraphNode U Spec)) (names : List Text) (p q : Progress h)
      : Type 0 where
    going : IsGoing h q
    covers :
        (x : Text)
        → (contains x names && contains x (keys nodes) || is_covered h x p) ≡ true
        → is_covered h x q ≡ true

  run_named-Covers :
      (nodes : Dict (GraphNode U Spec)) (name : Text) (found : Option (GraphNode U Spec))
      (p : Progress h)
      → lookup name nodes ≡ found
      → IsGoing h p
      → Ends (Covers nodes (name ∷ []) p) (HasFailed h) (run_named h name found p)
  unfolding run_named contains
  run_named-Covers nodes name none p f g = record {
    going = g;
    covers = λ x k. ground (arith, text_eq_iff x name, keys_of_none nodes name f);
  }
  run_named-Covers nodes name (some node) p f g =
      Ends-map (Advances h name p) (Covers nodes (name ∷ []) p) (HasFailed h)
        (run_unit h name node p)
        (λ q a. record { going = a.going; covers = λ x k. a.covers x (ground arith) })
        (run_unit-Advances h name node p g)

  run_units-Covers :
      (nodes : Dict (GraphNode U Spec)) (names : List Text) (p : Progress h)
      → IsGoing h p
      → Ends (Covers nodes names p) (HasFailed h) (run_units h nodes names p)
  unfolding run_units contains
  run_units-Covers nodes [] p g = record { going = g; covers = λ x k. k }
  run_units-Covers nodes (name ∷ names) p g =
      Ends-bind (Covers nodes (name ∷ []) p) (Covers nodes (name ∷ names) p) (HasFailed h)
        (run_named h name (lookup name nodes) p) _
        (run_named-Covers nodes name (lookup name nodes) p refl g)
        λ q a.
          Ends-map (Covers nodes names q) (Covers nodes (name ∷ names) p) (HasFailed h)
            (run_units h nodes names q)
            (λ r b. record {
              going = b.going;
              covers = λ x k. b.covers x (ground (arith, a.covers x));
            })
            (run_units-Covers nodes names q a.going)

  -- The last check for background failures, too.
  loop-Covers :
      (nodes : Dict (GraphNode U Spec)) (names : List Text) (p : Progress h)
      → IsGoing h p
      → Ends (Covers nodes names p) (HasFailed h) (run_units h nodes names p >>= λ q. guard h q)
  loop-Covers nodes names p g =
      Ends-bind (Covers nodes names p) (Covers nodes names p) (HasFailed h)
        (run_units h nodes names p) _ (run_units-Covers nodes names p g)
        λ q a.
          guard-Ends h (Covers nodes names p) (HasFailed h) q
            (record {
              going = record {
                status = a.going.status;
                clean = a.going.clean;
                unharmed = a.going.unharmed;
              };
              covers = a.covers;
            })
            (λ fatal c. cc)

  -- What holds of the pair that Run returns.
  record IsOutcome (nodes : Dict (GraphNode U Spec)) (order : List Text)
      (r : Progress h × Option (RunError E)) : Type 0 where
    agrees : (r.0.status ≡ completed) ↔ (r.1 ≡ none)
    complete :
        (x : Text)
        → r.1 ≡ none
        → contains x order ≡ true
        → contains x (keys nodes) ≡ true
        → HasCompleted x r.0

  join_shutdown-HasFailed :
      (e : RunError E) (s : Option (RunError E) × Progress h)
      → HasFailed h s.1
      → HasFailed h (join_shutdown h e s).0
  unfolding join_shutdown
  join_shutdown-HasFailed e (none, p) bad = bad
  join_shutdown-HasFailed e (some d, p) bad = λ c. cc

  stop_after_failure-HasFailed :
      (p : Progress h) (e : RunError E)
      → HasFailed h p
      → HasFailed h (stop_after_failure h (p, e)).0
  unfolding stop_after_failure
  stop_after_failure-HasFailed p e bad =
      join_shutdown-HasFailed e (stop_backgrounds h p)
        (λ c. bad (sym (stop_backgrounds-status h p) ∙ c))

  cleanup-status : (order : List Text) (p : Progress h) → (cleanup h order p).status ≡ p.status
  unfolding cleanup
  cleanup-status order p =
      close_targets-status (cleanup_targets h.is_closeable (h.outputs p.w) order) p

  fail_early-IsOutcome :
      (nodes : Dict (GraphNode U Spec)) (order : List Text) (p : Progress h) (e : RunError E)
      → HasFailed h p
      → IsOutcome nodes order (fail_early h order (p, e))
  unfolding fail_early
  fail_early-IsOutcome nodes order p e bad =
      let q = (stop_after_failure h (p, e)).0 in
      record {
        agrees = (
          λ c. absurd (stop_after_failure-HasFailed p e bad (sym (cleanup-status order q) ∙ c)),
          λ n. absurd (cc),
        );
        complete = λ x n. absurd (cc);
      }

  shut_down-IsOutcome :
      (nodes : Dict (GraphNode U Spec)) (order : List Text) (s : Option (RunError E) × Progress h)
      → (s.0 ≡ none
          → IsGoing h s.1
            × ((x : Text)
                → (contains x order && contains x (keys nodes)) ≡ true
                → contains x (keys s.1.units) ≡ true))
      → IsOutcome nodes order (shut_down h order s)
  unfolding shut_down cleanup
  shut_down-IsOutcome nodes order (none, p) good =
      let (going, all) = good refl in
      record {
        agrees = (λ c. refl, λ n. cleanup-status order p ∙ going.status);
        complete = λ x n there known.
            let (u, found) = contains-lookup x p.units (all x (ground arith)) in
            let (status, error) = going.clean.at x u found in
            close_targets-HasCompleted x (cleanup_targets h.is_closeable (h.outputs p.w) order) p
              (record { result = u; found = found; status = status; error = error });
      }
  shut_down-IsOutcome nodes order (some e, p) good = record {
    agrees = (
      λ c.
          let c' : worker_failed ≡ completed =
            sym (cleanup-status order (record p { status = worker_failed })) ∙ c in
          absurd (cc),
      λ n. absurd (cc),
    );
    complete = λ x n. absurd (cc);
  }

  finish-IsOutcome :
      (nodes : Dict (GraphNode U Spec)) (order : List Text) (p : Progress h) (m : Step h)
      → Ends (Covers nodes order p) (HasFailed h) m
      → IsOutcome nodes order (finish h order m)
  unfolding finish
  finish-IsOutcome nodes order p (err (q, e)) bad = fail_early-IsOutcome nodes order q e bad
  finish-IsOutcome nodes order p (ok q) c =
      shut_down-IsOutcome nodes order (stop_backgrounds h q) λ n.
        let (going, results) = stop_backgrounds-IsGoing h q c.going n in
        (going, λ x k. results x (c.covers x (ground arith)))

  begin-IsGoing : (w : W) → IsGoing h (begin h w)
  unfolding lookup
  begin-IsGoing w = record {
    status = refl;
    clean = record { at = λ x u f. absurd (cc) };
    unharmed = refl;
  }

  run_graph-IsOutcome : (g : Graph U Spec) (w : W) → IsOutcome g.nodes g.order (run_graph h g w)
  unfolding run_graph
  run_graph-IsOutcome g w =
      finish-IsOutcome g.nodes g.order (begin h w) _
        (loop-Covers g.nodes g.order (begin h w) (begin-IsGoing w))

  run_built-status_iff :
      (r : Result GraphError (Graph U Spec)) (w : W)
      → ((run_built h r w).0.status ≡ completed) ↔ ((run_built h r w).1 ≡ none)
  unfolding run_built
  run_built-status_iff (ok g) w = (run_graph-IsOutcome g w).agrees
  run_built-status_iff (err e) w = (λ c. absurd (cc), λ n. absurd (cc))

  -- A run returns the status "completed" exactly if it returns no error.
  pub engine_run-status_iff :
      {V : Type 0} (definition : U → Definition) (reg : Registry U) (scenario : Scenario V Spec)
      (w : W)
      → ((engine_run h definition reg scenario w).0.status ≡ completed)
        ↔ ((engine_run h definition reg scenario w).1 ≡ none)
  unfolding engine_run
  engine_run-status_iff definition reg scenario w =
      run_built-status_iff (build_graph definition reg scenario) w

  run_built-HasCompleted :
      (r : Result GraphError (Graph U Spec)) (w : W) (x : Text)
      → ((g : Graph U Spec)
          → r ≡ ok g
          → (contains x g.order ≡ true) × (contains x (keys g.nodes) ≡ true))
      → (run_built h r w).1 ≡ none
      → HasCompleted x (run_built h r w).0
  unfolding run_built
  run_built-HasCompleted (ok g) w x listed n =
      (run_graph-IsOutcome g w).complete x n (listed g refl).0 (listed g refl).1
  run_built-HasCompleted (err e) w x listed n = absurd (cc)

  -- A run that returns no error has a result for every unit of the scenario, and it is that of a
  -- completed unit with no error, whatever happened when the outputs were closed.
  pub engine_run-HasCompleted :
      {V : Type 0} (definition : U → Definition) (reg : Registry U) (scenario : Scenario V Spec)
      (w : W) (x : Text)
      → (engine_run h definition reg scenario w).1 ≡ none
      → contains x (keys scenario.units) ≡ true
      → HasCompleted x (engine_run h definition reg scenario w).0
  unfolding engine_run
  engine_run-HasCompleted definition reg scenario w x n there =
      run_built-HasCompleted (build_graph definition reg scenario) w x
        (λ g built.
          let (ready, members) = build_graph-IsReady definition reg scenario g built in
          let listed = members x ∙ there in
          let (before, after, split, _) = first_split x g.order listed in
          let r = (ready before after x split).0 in
          (listed, lookup-contains x g.nodes r.node r.known))
        n
