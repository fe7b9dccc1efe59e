-- ===== src/Kernel/Steps/Going.antt =====
-- The state of a run in its steps: as long as no step fails, the status is completed, no background
-- error is recorded, and all results are those of completed units; after a failure the status is
-- another.
use wkbench.Base.{
  Bool, true, Option, none, some, List, [], ◌∷◌, Result, ok, err, ◌≡◌, ◌≢◌, refl, ◌∙◌, inl, inr,
  arith, Text, Dict, lookup, insert, keys, keys-insert, lookup-insert_cases, contains, text_eq,
  ◌||◌, Bool-cases, ℕ,
}
use wkbench.Kernel.Topo.{GraphNode}
use wkbench.Kernel.Host.{Host}
use wkbench.Kernel.Run.{
  completed, Timeline, UnitResult, ActiveBackground, Progress, Failures, check_background_errors,
}
use wkbench.Kernel.Steps.{
  guard, on_validate, on_plan, on_start, start_background, on_run, run_foreground, launch, run_unit,
}
use wkbench.Kernel.Steps.Rules.{Ends, Ends-bind, guard-Ends, take_failures-none}

module _ {U Spec : Type 0} (h : Host U Spec) where
  open h use {W, E, Task}

  pub record IsClean (units : Dict (UnitResult h)) : Type 0 where
    pub at :
        (x : Text) (u : UnitResult h)
        → lookup x units ≡ some u
        → (u.status ≡ completed) × (u.error ≡ none)

  pub record IsGoing (p : Progress h) : Type 0 where
    pub status : p.status ≡ completed
    pub clean : IsClean p.units
    pub unharmed : p.fatal ≡ []

  abbrev pub HasFailed : Progress h → Type 0
  HasFailed p = p.status ≢ completed

  pub IsClean-insert :
      (name : Text) (u : UnitResult h) (units : Dict (UnitResult h))
      → u.status ≡ completed
      → u.error ≡ none
      → IsClean units
      → IsClean (insert name u units)
  IsClean-insert name u units s e c = record {
    at = λ x v f. elim (lookup-insert_cases name x u v units f) [
      | inl (_, same) ↦ (cc, cc)
      | inr (_, old) ↦ c.at x v old
    ];
  }

  -- A unit has had its turn: it has a result, or it runs in the background.
  abbrev pub active_names : List (ActiveBackground h) → List Text
  active_names [] = []
  active_names (bg ∷ bgs) = bg.name ∷ active_names bgs

  abbrev pub is_covered : Text → Progress h → Bool
  is_covered x p = contains x (keys p.units) || contains x (active_names p.active)

  -- `p` has turned into `q` by a turn of `name` that did not fail.
  pub record Advances (name : Text) (p q : Progress h) : Type 0 where
    pub going : IsGoing q
    pub covers : (x : Text) → (text_eq x name || is_covered x p) ≡ true → is_covered x q ≡ true

  -- The same before the unit has been started or run.
  record Waits (p q : Progress h) : Type 0 where
    going : IsGoing q
    units : q.units ≡ p.units
    active : q.active ≡ p.active

  Waits-w : (p q : Progress h) (w : W) → Waits p q → Waits p (record q { w = w })
  Waits-w p q w a = record {
    going = record { status = a.going.status; clean = a.going.clean; unharmed = a.going.unharmed };
    units = a.units;
    active = a.active;
  }

  guard-Waits : (p q : Progress h) → Waits p q → Ends (Waits p) HasFailed (guard h q)
  guard-Waits p q a =
      guard-Ends h (Waits p) HasFailed q (Waits-w p q (h.receive q.w).1 a) (λ fatal c. cc)

  on_validate-Waits :
      (name : Text) (node : GraphNode U Spec) (answer : Option E × W) (p q : Progress h)
      → Waits p q
      → Ends (Waits p) HasFailed (on_validate h name node answer q)
  unfolding on_validate
  on_validate-Waits name node (none, w) p q a = Waits-w p q w a
  on_validate-Waits name node (some e, w) p q a =
      Ends-bind (Waits p) (Waits p) HasFailed (guard h (record q { w = w })) _
        (guard-Waits p (record q { w = w }) (Waits-w p q w a)) (λ r _ c. cc)

  on_plan-Waits :
      (name : Text) (node : GraphNode U Spec) (answer : Option E × W) (p q : Progress h)
      → Waits p q
      → Ends (Waits p) HasFailed (on_plan h name node answer q)
  unfolding on_plan
  on_plan-Waits name node (none, w) p q a = Waits-w p q w a
  on_plan-Waits name node (some e, w) p q a =
      Ends-bind (Waits p) (Waits p) HasFailed (guard h (record q { w = w })) _
        (guard-Waits p (record q { w = w }) (Waits-w p q w a)) (λ r _ c. cc)

  on_start-Advances :
      (name : Text) (node : GraphNode U Spec) (start end : ℕ) (r : Result E (Option Task))
      (p q : Progress h)
      → Waits p q
      → Ends (Advances name p) HasFailed (on_start h name node start end r q)
  unfolding on_start contains
  on_start-Advances name node start end (err e) p q a = λ c. cc
  on_start-Advances name node start end (ok none) p q a = λ c. cc
  on_start-Advances name node start end (ok (some task)) p q a = record {
    going = record { status = a.going.status; clean = a.going.clean; unharmed = a.going.unharmed };
    covers = λ x k. rw (a.units, a.active) (ground arith);
  }

  on_run-Advances :
      (name : Text) (node : GraphNode U Spec) (t : Timeline) (e : Option E)
      (f : Option (Failures h)) (p q : Progress h)
      → (f ≡ none → Waits p q)
      → Ends (Advances name p) HasFailed (on_run h name node t e f q)
  unfolding on_run
  on_run-Advances name node t none none p q waits =
      let a = waits refl in
      record {
        going = record {
          status = a.going.status;
          clean = IsClean-insert name _ q.units refl refl a.going.clean;
          unharmed = a.going.unharmed;
        };
        covers = λ x k. rw (keys-insert, a.units, a.active) (ground arith);
      }
  on_run-Advances name node t (some e) none p q a = λ c. cc
  on_run-Advances name node t (some e) (some f) p q a = λ c. cc
  on_run-Advances name node t none (some f) p q a = λ c. cc

  launch-Advances :
      (name : Text) (node : GraphNode U Spec) (p q : Progress h)
      → Waits p q
      → Ends (Advances name p) HasFailed (launch h name node q)
  unfolding launch start_background run_foreground check_background_errors
  launch-Advances name node p q a = elim (Bool-cases (h.is_background node.unit)) [
    | inl bg ↦ rw bg (on_start-Advances name node _ _ _ p _ (Waits-w p q _ a))
    | inr fg ↦ rw fg (
        Ends-bind (Waits p) (Advances name p) HasFailed (guard h q) _ (guard-Waits p q a) λ r b.
          on_run-Advances name node _ _ _ p _ λ none_found. record {
            going = record {
              status = b.going.status;
              clean = b.going.clean;
              unharmed =
                  take_failures-none h
                    (h.receive (h.now (h.run node.unit name (h.now r.w).1).1).1).0 r.fatal
                    none_found
                  ∙ b.going.unharmed;
            };
            units = b.units;
            active = b.active;
          })
  ]

  -- A round of the loop that does not fail gives its unit a turn, and takes none back.
  pub run_unit-Advances :
      (name : Text) (node : GraphNode U Spec) (p : Progress h)
      → IsGoing p
      → Ends (Advances name p) HasFailed (run_unit h name node p)
  unfolding run_unit
  run_unit-Advances name node p g =
      Ends-bind (Waits p) (Advances name p) HasFailed (guard h p) _
        (guard-Waits p p (record { going = g; units = refl; active = refl }))
        λ p₁ a₁.
          Ends-bind (Waits p) (Advances name p) HasFailed
            (on_validate h name node (h.validate node.unit name node.dsl.spec p₁.w) p₁) _
            (on_validate-Waits name node _ p p₁ a₁)
            λ p₂ a₂.
              Ends-bind (Waits p) (Advances name p) HasFailed
                (on_plan h name node (h.plan node.unit name node.dsl.spec p₂.w) p₂) _
                (on_plan-Waits name node _ p p₂ a₂)
                λ p₃ a₃.
                  launch-Advances name node p (record p₃ { w = h.open_env name node.def p₃.w })
                    (Waits-w p p₃ _ a₃)
