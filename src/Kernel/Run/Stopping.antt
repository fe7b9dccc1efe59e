-- ===== src/Kernel/Run/Stopping.antt =====
-- stopBackgrounds: if it returns no error, every background unit has a result of a completed unit.
use wkbench.Base.{
  true, Option, none, some, List, [], ◌∷◌, ◌≡◌, refl, ap, ◌∙◌, arith, Text, text_eq_iff,
  text_eq_refl, contains, lookup, keys, keys-insert,
}
use wkbench.Kernel.Host.{Host}
use wkbench.Kernel.Run.{
  RunError, ActiveBackground, Progress, Failures, join_errors, check_background_errors,
  take_failures, failures_error, drain, remember, finish_background, stop_one, stop_each,
  stop_backgrounds,
}
use wkbench.Kernel.Steps.Going.{IsGoing, IsClean-insert, active_names, is_covered}
use wkbench.Kernel.Steps.Rules.{take_failures-none}

join_errors-none :
    {E : Type 0} (d e : Option (RunError E)) → join_errors d e ≡ none → (d ≡ none) × (e ≡ none)
join_errors-none d e n = ground arith

module _ {U Spec : Type 0} (h : Host U Spec) where
  open h use {W, E}

  failures_error-none : (f : Option (Failures h)) → failures_error h f ≡ none → f ≡ none
  failures_error-none none n = refl
  failures_error-none (some f) n = absurd (cc)

  abbrev State : Type 0
  State = Option (RunError E) × Progress h

  -- `s` has turned into `t` by a part of the shutdown.
  record Stops (s t : State) : Type 0 where
    status : t.1.status ≡ s.1.status
    kept : (x : Text) → contains x (keys s.1.units) ≡ true → contains x (keys t.1.units) ≡ true
    going : (s.0 ≡ none → IsGoing h s.1) → t.0 ≡ none → IsGoing h t.1

  Stops-trans : (s t u : State) → Stops s t → Stops t u → Stops s u
  Stops-trans s t u a b = record {
    status = b.status ∙ a.status;
    kept = λ x k. b.kept x (a.kept x k);
    going = λ g. b.going (a.going g);
  }

  drain-Stops : (s : State) → Stops s (drain h s)
  unfolding drain check_background_errors
  drain-Stops (shutdown, p) = record {
    status = refl;
    kept = λ x k. k;
    going = λ g e.
        let received = (h.receive p.w).0 in
        let (before, found) = join_errors-none shutdown _ e in
        let f = failures_error-none (take_failures h received none p.fatal).0 found in
        record {
          status = (g before).status;
          clean = (g before).clean;
          unharmed = take_failures-none h received p.fatal f ∙ (g before).unharmed;
        };
  }

  remember-Stops : (name : Text) (e : Option E) (s : State) → Stops s (remember h name e s)
  unfolding remember
  remember-Stops name none s = record { status = refl; kept = λ x k. k; going = λ g. g }
  remember-Stops name (some e) (shutdown, p) = record {
    status = refl;
    kept = λ x k. k;
    going = λ g n. absurd (ground arith);
  }

  finish_background-Stops :
      (bg : ActiveBackground h) (e : Option E) (s : State) → Stops s (finish_background h bg e s)
  unfolding finish_background lookup
  finish_background-Stops bg (some e) (shutdown, p) = record {
    status = refl;
    kept = λ x k. rw keys-insert (ground arith);
    going = λ g n. absurd (ground arith);
  }
  finish_background-Stops bg none (shutdown, p) = record {
    status = refl;
    kept = λ x k. rw keys-insert (ground arith);
    going = λ g n.
        let before = (join_errors-none shutdown none n).0 in
        let unharmed : lookup bg.name p.fatal ≡ none = ap (lookup bg.name) (g before).unharmed in
        record {
          status = (g before).status;
          clean =
              IsClean-insert h bg.name _ p.units (rw unharmed refl) (rw unharmed refl)
                (g before).clean;
          unharmed = (g before).unharmed;
        };
  }

  finish_background-covers :
      (bg : ActiveBackground h) (e : Option E) (s : State)
      → contains bg.name (keys (finish_background h bg e s).1.units) ≡ true
  unfolding finish_background
  finish_background-covers bg e (shutdown, p) =
      rw keys-insert (ground (arith, text_eq_refl bg.name))

  -- One background unit is stopped, and has a result.
  stop_one-Stops :
      (bg : ActiveBackground h) (s : State)
      → Stops s (stop_one h bg s) × (contains bg.name (keys (stop_one h bg s).1.units) ≡ true)
  unfolding stop_one
  stop_one-Stops bg s =
      let (shutdown, p) = drain h s in
      let (e, w) = h.stop bg.name bg.task p.w in
      let (waited, w') = h.wait_monitor bg.name bg.task w in
      let a = drain-Stops s in
      let s₁ : State = (shutdown, record p { w = w' }) in
      let b : Stops (drain h s) s₁ = record {
        status = refl;
        kept = λ x k. k;
        going =
            λ g n. record { status = (g n).status; clean = (g n).clean; unharmed = (g n).unharmed };
      } in
      let c = remember-Stops bg.name waited s₁ in
      let s₂ = remember h bg.name waited s₁ in
      let d = drain-Stops s₂ in
      let s₃ = drain h s₂ in
      let f = finish_background-Stops bg e s₃ in
      (
        Stops-trans s _ _ a (Stops-trans _ _ _ b (Stops-trans _ _ _ c (Stops-trans _ _ _ d f))),
        finish_background-covers bg e s₃,
      )

  stop_each-Stops :
      (bgs : List (ActiveBackground h)) (s : State)
      → Stops s (stop_each h bgs s)
        × ((x : Text)
            → contains x (active_names h bgs) ≡ true
            → contains x (keys (stop_each h bgs s).1.units) ≡ true)
  unfolding stop_each contains
  stop_each-Stops [] s = (record { status = refl; kept = λ x k. k; going = λ g. g }, λ x k. cc)
  stop_each-Stops (bg ∷ bgs) s =
      let (a, here) = stop_one-Stops bg s in
      let (b, later) = stop_each-Stops bgs (stop_one h bg s) in
      (
        Stops-trans s _ _ a b,
        λ x k. ground (arith, text_eq_iff x bg.name, b.kept bg.name here, later x),
      )

  module _ (p : Progress h) where
    stop_backgrounds-Stops :
        Stops (none, p) (stop_backgrounds h p)
        × ((x : Text)
            → is_covered h x p ≡ true
            → contains x (keys (stop_backgrounds h p).1.units) ≡ true)
    unfolding stop_backgrounds
    stop_backgrounds-Stops =
        let s₁ = drain h (none, p) in
        let a = drain-Stops (none, p) in
        let (b, named) = stop_each-Stops p.active s₁ in
        let c = drain-Stops (stop_each h p.active s₁) in
        (
          Stops-trans _ _ _ a (Stops-trans _ _ _ b c),
          λ x k. c.kept x (
              ground
                (arith, named x, λ (z : contains x (keys p.units) ≡ true). b.kept x (a.kept x z))),
        )

    -- The shutdown leaves the status of the run to its caller.
    pub stop_backgrounds-status : (stop_backgrounds h p).1.status ≡ p.status
    stop_backgrounds-status = stop_backgrounds-Stops.0.status

    -- A shutdown with no error leaves each unit that has had its turn with the result of a
    -- completed unit.
    pub stop_backgrounds-IsGoing :
        IsGoing h p
        → (stop_backgrounds h p).0 ≡ none
        → IsGoing h (stop_backgrounds h p).1
          × ((x : Text)
              → is_covered h x p ≡ true
              → contains x (keys (stop_backgrounds h p).1.units) ≡ true)
    stop_backgrounds-IsGoing g n =
        (stop_backgrounds-Stops.0.going (λ _. g) n, stop_backgrounds-Stops.1)
