-- ===== src/Plugin/Tasks.antt =====
-- The background tasks of a plugin: sdk/go/wkbench/plugin/server.go, from storeBackgroundTask to
-- emitObservedBackgroundEvent. A record is known by its id, under which alone it is stored. Each function
-- is one section under taskMu. An error of type `Option E` is Go's: `none` is nil.
pub mod Steps
pub mod Events
use wkbench.Base.{
  ℕ, suc, ◌+◌, Bool, true, false, not, ◌&&◌, Option, none, some, [], Text, text, Dict, lookup,
  insert, remove, if◌then◌else◌,
}
use wkbench.Units.Decimal.{name_at}

pub record TaskRecord (A E : Type 0) : Type 0 where
  pub request_id : Text
  pub run_id : Text
  pub unit_name : Text
  pub done_observed : Bool
  pub done_err : Option E
  pub event_sent : Bool
  pub monitor_stopped : Bool
  pub stopping : Bool
  pub attached : A  -- its unit, environment and task, which are passed on only

pub record Tasks (A E : Type 0) : Type 0 where
  pub next_task : ℕ
  pub tasks : Dict (TaskRecord A E)

-- A BackgroundEvent frame: "completed", or "fatal_error" with the error.
pub record BackgroundEvent (E : Type 0) : Type 0 where
  pub task_id : Text
  pub error : Option E

-- fmt.Sprintf("bg-%d", n)
abbrev pub task_id_of : ℕ → Text
task_id_of n = name_at (text "bg") n

module _ {A E : Type 0} where
  abbrev pub new_tasks : Tasks A E
  new_tasks = record { next_task = 0; tasks = [] }

  abbrev pub new_record : Text → Text → Text → A → TaskRecord A E
  new_record request run unit attached = record {
    request_id = request;
    run_id = run;
    unit_name = unit;
    done_observed = false;
    done_err = none;
    event_sent = false;
    monitor_stopped = false;
    stopping = false;
    attached = attached;
  }

  -- storeBackgroundTask: the id of the new record, and the server after it
  unfoldable pub store_background_task : Text → Text → Text → A → Tasks A E → Text × Tasks A E
  store_background_task request run unit attached s =
      let n = suc s.next_task in
      (
        task_id_of n,
        record {
          next_task = n;
          tasks = insert (task_id_of n) (new_record request run unit attached) s.tasks;
        },
      )

  -- A change of the record, if it is still stored
  changed :
      Text → (TaskRecord A E → TaskRecord A E) → Tasks A E → Option (TaskRecord A E) → Tasks A E
  changed id f s none = s
  changed id f s (some r) = record s { tasks = insert id (f r) s.tasks }

  unfoldable pub change : Text → (TaskRecord A E → TaskRecord A E) → Tasks A E → Tasks A E
  unfolding changed
  change id f s = changed id f s (lookup id s.tasks)

  -- beginBackgroundTaskStop: the record, if the task is active, and the server after it
  unfoldable pub begin_background_task_stop : Text → Tasks A E → Option (TaskRecord A E) × Tasks A E
  unfolding change
  begin_background_task_stop id s =
      (lookup id s.tasks, change id (λ r. record r { stopping = true }) s)

  -- abortBackgroundTaskStop
  unfoldable pub abort_background_task_stop : Text → Tasks A E → Tasks A E
  unfolding change
  abort_background_task_stop id s = change id (λ r. record r { stopping = false }) s

  -- completeBackgroundTaskStop up to the wait for the monitor, which stopMonitor now ends
  unfoldable pub stop_monitor : Text → Tasks A E → Tasks A E
  unfolding change
  stop_monitor id s = change id (λ r. record r { monitor_stopped = true }) s

  -- completeBackgroundTaskStop after the wait
  unfoldable pub remove_task : Text → Tasks A E → Tasks A E
  remove_task id s = record s { tasks = remove id s.tasks }

  observed : Option E → TaskRecord A E → TaskRecord A E
  observed e r = if r.done_observed then r else record r { done_observed = true; done_err = e }

  -- observeBackgroundDone
  unfoldable pub observe_background_done : Text → Option E → Tasks A E → Tasks A E
  unfolding change observed
  observe_background_done id e s = change id (observed e) s

  should_emit : TaskRecord A E → Bool
  should_emit r = r.done_observed && not r.event_sent

  emitted : Text → Tasks A E → Option (TaskRecord A E) → Option (BackgroundEvent E) × Tasks A E
  unfolding should_emit change
  emitted id s none = (none, s)
  emitted id s (some r) =
      if should_emit r
      then (
        some (record { task_id = id; error = r.done_err }),
        change id (λ q. record q { event_sent = true }) s,
      )
      else (none, s)

  -- emitObservedBackgroundEvent: the event that is written, if any, and the server after it
  unfoldable pub emit_observed_background_event :
      Text → Tasks A E → Option (BackgroundEvent E) × Tasks A E
  unfolding emitted
  emit_observed_background_event id s = emitted id s (lookup id s.tasks)
