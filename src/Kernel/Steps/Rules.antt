-- ===== src/Kernel/Steps/Rules.antt =====
-- How a step ends: a condition on the progress after a step that succeeds, and one on the progress
-- that an early failure leaves.
use wkbench.Base.{
  Option, none, some, List, [], ◌∷◌, ok, err, ◌>>=◌, ◌≡◌, ◌≢◌, refl, subst, sym, ap, ◌∙◌, Text,
  Dict,
}
use wkbench.Kernel.Host.{Host}
use wkbench.Kernel.Run.{
  Progress, Failures, worker_failed, add_failure, record_background_error, take_failures,
  check_background_errors,
}
use wkbench.Kernel.Steps.{Step, fail_on, guard}

module _ {U Spec : Type 0} {h : Host U Spec} where
  abbrev pub Ends : (Progress h → Type 0) → (Progress h → Type 0) → Step h → Type 0
  Ends P Q (ok p) = P p
  Ends P Q (err (p, e)) = Q p

  pub Ends-bind :
      (P P' Q : Progress h → Type 0) (m : Step h) (f : Progress h → Step h)
      → Ends P Q m
      → ((p : Progress h) → P p → Ends P' Q (f p))
      → Ends P' Q (m >>= f)
  Ends-bind P P' Q (ok p) f here then = then p here
  Ends-bind P P' Q (err (p, e)) f here then = here

  pub Ends-map :
      (P P' Q : Progress h → Type 0) (m : Step h)
      → ((p : Progress h) → P p → P' p)
      → Ends P Q m
      → Ends P' Q m
  Ends-map P P' Q (ok p) f here = f p here
  Ends-map P P' Q (err (p, e)) f here = here

module _ {U Spec : Type 0} (h : Host U Spec) where
  open h use {W, E}

  -- A failure that was found stays.
  take_failures-some :
      (received : List (Text × Option E)) (f : Failures h) (fatal : Dict E)
      → (take_failures h received (some f) fatal).0 ≢ none
  unfolding take_failures
  take_failures-some [] f fatal = λ e. cc
  take_failures-some ((unit, none) ∷ received) f fatal = take_failures-some received f fatal
  take_failures-some ((unit, some e) ∷ received) f fatal =
      take_failures-some received (add_failure h (some f) unit e)
        (record_background_error h fatal unit e)

  -- Where no failure is found, none is recorded.
  pub take_failures-none :
      (received : List (Text × Option E)) (fatal : Dict E)
      → (take_failures h received none fatal).0 ≡ none
      → (take_failures h received none fatal).1 ≡ fatal
  unfolding take_failures
  take_failures-none [] fatal e = refl
  take_failures-none ((unit, none) ∷ received) fatal e = take_failures-none received fatal e
  take_failures-none ((unit, some d) ∷ received) fatal e = absurd (
      take_failures-some received (add_failure h none unit d)
        (record_background_error h fatal unit d) e)

  -- The check for background failures changes nothing but the world, unless it finds one.
  pub guard-Ends :
      (P Q : Progress h → Type 0) (p : Progress h)
      → P (record p { w = (h.receive p.w).1 })
      → ((fatal : Dict E)
          → Q (record p { status = worker_failed; fatal = fatal; w = (h.receive p.w).1 }))
      → Ends P Q (guard h p)
  unfolding guard fail_on check_background_errors
  guard-Ends P Q p good bad = go (take_failures h (h.receive p.w).0 none p.fatal) refl
    where
      go :
          (r : Option (Failures h) × Dict E)
          → take_failures h (h.receive p.w).0 none p.fatal ≡ r
          → Ends P Q (fail_on h (r.0, record p { fatal = r.1; w = (h.receive p.w).1 }))
      go (none, fatal) e =
          let none_found = ap (λ (r : Option (Failures h) × Dict E). r.0) e in
          let kept = take_failures-none (h.receive p.w).0 p.fatal none_found in
          let same : p.fatal ≡ fatal =
            sym kept ∙ ap (λ (r : Option (Failures h) × Dict E). r.1) e in
          subst (λ f. P (record p { fatal = f; w = (h.receive p.w).1 })) same good
      go (some f, fatal) e = bad fatal
