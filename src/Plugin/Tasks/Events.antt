-- ===== src/Plugin/Tasks/Events.antt =====
-- How many events of a background task reach the host, whatever the interleaving.
use wkbench.Base.{
  ℕ, suc, ◌≤◌, true, false, not, ◌&&◌, Option, some, List, [], ◌∷◌, Text, text, text_eq,
  text_eq_iff, lookup, insert, lookup-insert_cases, lookup-remove-some, ◌≡◌, refl, sym, ap, ◌∙◌,
  arith, Bool-cases, Option-cases, inl, inr, if◌then◌else◌, ◌⊎◌,
}
use wkbench.Units.Decimal.{name_at-injective}
use wkbench.Plugin.Tasks.{
  TaskRecord, Tasks, BackgroundEvent, task_id_of, store_background_task, changed, change,
  begin_background_task_stop, abort_background_task_stop, stop_monitor, remove_task, observed,
  observe_background_done, should_emit, emitted, emit_observed_background_event,
}
use wkbench.Plugin.Tasks.Steps.{
  World, Step, store, launch, send, close, monitor_receives, monitor_observes, monitor_emits,
  monitor_stops, stop_begins, stop_fails, flush_receives, flush_finds_nothing, flush_observes,
  flush_emits, monitor_is_stopped, task_is_removed, Reachable, at_start, after, emit, logged,
}

module _ {E : Type 0} where
  -- The number of the events of that task.
  unfoldable pub events_of : Text → List (BackgroundEvent E) → ℕ
  events_of id [] = 0
  events_of id (event ∷ events) =
      if text_eq id event.task_id then suc (events_of id events) else events_of id events

module _ {A E : Type 0} where
  record IsSound (s : Tasks A E) (events : List (BackgroundEvent E)) : Type 0 where
    once : (id : Text) → events_of id events ≤ 1
    unsent :
        (id : Text) (r : TaskRecord A E)
        → lookup id s.tasks ≡ some r
        → r.event_sent ≡ false
        → events_of id events ≡ 0
    known :
        (id : Text) (r : TaskRecord A E)
        → lookup id s.tasks ≡ some r
        → (k : ℕ) × (k ≤ s.next_task) × (id ≡ task_id_of k)
    unused : (n : ℕ) → s.next_task ≤ n → events_of (task_id_of (suc n)) events ≡ 0

  -- The records of `s'` are records of `s`, and no event was sent in between.
  record Continues (s s' : Tasks A E) : Type 0 where
    same_next : s'.next_task ≡ s.next_task
    kept :
        (id : Text) (r' : TaskRecord A E)
        → lookup id s'.tasks ≡ some r'
        → (r : TaskRecord A E) × (lookup id s.tasks ≡ some r) × (r'.event_sent ≡ r.event_sent)

  Continues-IsSound :
      (s s' : Tasks A E) (events : List (BackgroundEvent E))
      → Continues s s'
      → IsSound s events
      → IsSound s' events
  Continues-IsSound s s' events c i = record {
    once = i.once;
    unsent = λ id r' found e. let (r, there, same) = c.kept id r' found in i.unsent id r there (cc);
    known = λ id r' found.
        let (r, there, same) = c.kept id r' found in
        let (k, le, named) = i.known id r there in (k, omega (arith, le, c.same_next), named);
    unused = λ n le. i.unused n (omega (arith, c.same_next));
  }

  lookup-change :
      (id j : Text) (f : TaskRecord A E → TaskRecord A E) (s : Tasks A E) (r' : TaskRecord A E)
      → lookup j (change id f s).tasks ≡ some r'
      → ((r : TaskRecord A E) × (j ≡ id) × (lookup id s.tasks ≡ some r) × (f r ≡ r'))
        ⊎ (lookup j s.tasks ≡ some r')
  unfolding change changed
  lookup-change id j f s r' h = elim (Option-cases (lookup id s.tasks)) [
    | inl gone ↦ inr (rw gone at h)
    | inr (r, found) ↦ elim (lookup-insert_cases id j (f r) r' s.tasks (rw found at h)) [
      | inl (same, e) ↦ inl (r, same, found, e)
      | inr (other, there) ↦ inr there
    ]
  ]

  next_task-change :
      (id : Text) (f : TaskRecord A E → TaskRecord A E) (s : Tasks A E)
      → (change id f s).next_task ≡ s.next_task
  unfolding change changed
  next_task-change id f s = elim (Option-cases (lookup id s.tasks)) [
    | inl gone ↦ rw gone refl
    | inr (r, found) ↦ rw found refl
  ]

  change-Continues :
      (id : Text) (f : TaskRecord A E → TaskRecord A E) (s : Tasks A E)
      → ((r : TaskRecord A E) → (f r).event_sent ≡ r.event_sent)
      → Continues s (change id f s)
  change-Continues id f s keeps = record {
    same_next = next_task-change id f s;
    kept = λ j r' h. elim (lookup-change id j f s r' h) [
      | inl (r, same, found, e) ↦ (r, cc, ap (λ q. q.event_sent) (sym e) ∙ keeps r)
      | inr there ↦ (r', there, refl)
    ];
  }

  observe-Continues :
      (id : Text) (e : Option E) (s : Tasks A E) → Continues s (observe_background_done id e s)
  unfolding observe_background_done observed
  observe-Continues id e s = change-Continues id (observed e) s (λ r. ground arith)

  remove-Continues : (id : Text) (s : Tasks A E) → Continues s (remove_task id s)
  unfolding remove_task
  remove-Continues id s = record {
    same_next = refl;
    kept = λ j r' h. (r', lookup-remove-some id j r' s.tasks h, refl);
  }

  store-IsSound :
      (request run unit : Text) (attached : A) (s : Tasks A E) (events : List (BackgroundEvent E))
      → IsSound s events
      → IsSound (store_background_task request run unit attached s).1 events
  unfolding store_background_task
  store-IsSound request run unit attached s events i = record {
    once = i.once;
    unsent = λ id r found e.
        elim (lookup-insert_cases (task_id_of (suc s.next_task)) id _ r s.tasks found) [
          | inl (same, new) ↦ ap (λ j. events_of j events) same ∙ i.unused s.next_task (omega arith)
          | inr (other, there) ↦ i.unsent id r there e
        ];
    known = λ id r found.
        elim (lookup-insert_cases (task_id_of (suc s.next_task)) id _ r s.tasks found) [
          | inl (same, new) ↦ (suc s.next_task, omega arith, same)
          | inr (other, there) ↦
              let (k, le, named) = i.known id r there in (k, omega (arith, le), named)
        ];
    unused = λ n le. i.unused n (omega (arith, le));
  }

  change-found :
      (id : Text) (f : TaskRecord A E → TaskRecord A E) (s : Tasks A E) (r : TaskRecord A E)
      → lookup id s.tasks ≡ some r
      → change id f s ≡ record s { tasks = insert id (f r) s.tasks }
  unfolding change changed
  change-found id f s r found = rw found refl

  -- One more event, of a task that is stored and had none, and is marked.
  one_event :
      (id : Text) (r r' : TaskRecord A E) (s : Tasks A E) (events : List (BackgroundEvent E))
      (e : Option E)
      → lookup id s.tasks ≡ some r
      → r.event_sent ≡ false
      → r'.event_sent ≡ true
      → IsSound s events
      → IsSound
          (record s { tasks = insert id r' s.tasks })
          (record { task_id = id; error = e } ∷ events)
  unfolding events_of
  one_event id r r' s events e found fresh marked i =
      let none_yet = i.unsent id r found fresh in
      let (k, le, named) = i.known id r found in
      record {
        once = λ j. elim (Bool-cases (text_eq j id)) [
          | inl same ↦
              let at_id = ap (λ t. events_of t events) ((text_eq_iff j id).0 same) in
              rw same (omega (arith, none_yet, at_id))
          | inr other ↦ rw other (i.once j)
        ];
        unsent = λ j q there unmarked. elim (lookup-insert_cases id j r' q s.tasks there) [
          | inl (same, new) ↦ absurd (marked_twice r' q new marked unmarked)
          | inr (other, old) ↦ rw other (i.unsent j q old unmarked)
        ];
        known = λ j q there. elim (lookup-insert_cases id j r' q s.tasks there) [
          | inl (same, new) ↦ (k, le, same ∙ named)
          | inr (other, old) ↦ i.known j q old
        ];
        unused = λ n above. elim (Bool-cases (text_eq (task_id_of (suc n)) id)) [
          | inl same ↦
              let clash =
                name_at-injective (text "bg") (suc n) k
                  ((text_eq_iff (task_id_of (suc n)) id).0 same ∙ named) in
              absurd (omega (arith, clash, le, above))
          | inr other ↦ rw other (i.unused n above)
        ];
      }
    where
      marked_twice : (p q : TaskRecord A E) → p ≡ q → p.event_sent ≡ true → q.event_sent ≡ false → ⊥
      marked_twice p q same h k = cc

  emit-IsSound :
      (id : Text) (s : Tasks A E) (events : List (BackgroundEvent E))
      → IsSound s events
      → IsSound
          (emit_observed_background_event id s).1
          (logged (emit_observed_background_event id s).0 events)
  unfolding emit_observed_background_event emitted should_emit logged
  emit-IsSound id s events i = elim (Option-cases (lookup id s.tasks)) [
    | inl gone ↦ rw gone i
    | inr (r, found) ↦ elim (Bool-cases (r.done_observed && not r.event_sent)) [
      | inr quiet ↦ rw (found, quiet) i
      | inl due ↦
          let mark : TaskRecord A E → TaskRecord A E = λ q. record q { event_sent = true } in
          rw (found, due, change-found id mark s r found)
            (one_event id r (mark r) s events r.done_err found (ground (arith, due)) refl i)
    ]
  ]

  step-IsSound :
      (w v : World A E) → Step w v → IsSound w.server w.events → IsSound v.server v.events
  unfolding emit abort_background_task_stop stop_monitor begin_background_task_stop
  step-IsSound _ _ (store request run unit attached w at) i =
      store-IsSound request run unit attached w.server w.events i
  step-IsSound _ _ (launch id w at) i = i
  step-IsSound _ _ (send id e w at) i = i
  step-IsSound _ _ (close id w at) i = i
  step-IsSound _ _ (monitor_receives id e c w at got) i = i
  step-IsSound _ _ (monitor_observes id e w at) i =
      Continues-IsSound w.server _ w.events (observe-Continues id e w.server) i
  step-IsSound _ _ (monitor_emits id w at) i = emit-IsSound id w.server w.events i
  step-IsSound _ _ (monitor_stops id r w at there stopped) i = i
  step-IsSound _ _ (stop_begins id r w at there) i =
      Continues-IsSound w.server _ w.events
        (change-Continues id (λ q. record q { stopping = true }) w.server (λ q. refl)) i
  step-IsSound _ _ (stop_fails id w at) i =
      Continues-IsSound w.server _ w.events
        (change-Continues id (λ q. record q { stopping = false }) w.server (λ q. refl)) i
  step-IsSound _ _ (flush_receives id e c w at got) i = i
  step-IsSound _ _ (flush_finds_nothing id w at nothing) i = i
  step-IsSound _ _ (flush_observes id e w at) i =
      Continues-IsSound w.server _ w.events (observe-Continues id e w.server) i
  step-IsSound _ _ (flush_emits id w at) i = emit-IsSound id w.server w.events i
  step-IsSound _ _ (monitor_is_stopped id w at) i =
      Continues-IsSound w.server _ w.events
        (change-Continues id (λ q. record q { monitor_stopped = true }) w.server (λ q. refl)) i
  step-IsSound _ _ (task_is_removed id w at end) i =
      Continues-IsSound w.server _ w.events (remove-Continues id w.server) i

  reachable-IsSound : (w : World A E) → Reachable w → IsSound w.server w.events
  unfolding lookup events_of
  reachable-IsSound _ at_start = record {
    once = λ id. omega arith;
    unsent = λ id r there e. absurd (cc);
    known = λ id r there. absurd (cc);
    unused = λ n le. refl;
  }
  reachable-IsSound v (after {w} before step) = step-IsSound w v step (reachable-IsSound w before)

  -- Whatever the interleaving of the serving loop, the monitors and the workers, the host is sent
  -- at most one background event for a task.
  pub events_of-Reachable : (w : World A E) → Reachable w → (id : Text) → events_of id w.events ≤ 1
  events_of-Reachable w reached id = (reachable-IsSound w reached).once id
