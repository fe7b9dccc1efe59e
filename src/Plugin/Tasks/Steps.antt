-- ===== src/Plugin/Tasks/Steps.antt =====
-- The interleavings of the goroutines that touch a background task: the serving loop of Serve, which
-- handles one request at a time, a monitor for each task, and the unit's own worker, which sends on the
-- task's Done channel and closes it.
use wkbench.Base.{
  Bool, true, false, Option, none, some, List, [], ◌∷◌, ◌++◌, Text, text_eq, lookup, ◌≡◌,
  if◌then◌else◌,
}
use wkbench.Plugin.Tasks.{
  TaskRecord, Tasks, BackgroundEvent, new_tasks, store_background_task, begin_background_task_stop,
  abort_background_task_stop, stop_monitor, remove_task, observe_background_done,
  emit_observed_background_event,
}

-- A Go channel of errors: what was sent and not yet received, and whether it is closed.
pub record Channel (E : Type 0) : Type 0 where
  pub pending : List (Option E)
  pub closed : Bool

-- monitorBackgroundTask: `received` is after the select, `noted` after observeBackgroundDone, `ended`
-- after monitorDone is closed
pub data Monitor (E : Type 0) : Type 0 where
  not_started : Monitor E
  waiting : Monitor E
  received : Option E → Monitor E
  noted : Monitor E
  ended : Monitor E

-- Where the serving loop is
pub data Serving (E : Type 0) : Type 0 where
  reading : Serving E  -- between two requests
  starting : Text → Serving E  -- in handleStart, after storeBackgroundTask
  stopping_task : Text → Serving E  -- in handleStop, after beginBackgroundTaskStop
  flushing : Text → Option E → Serving E  -- in flushReadyBackgroundEvent, with what it received
  emitting : Text → Serving E  -- at its emitObservedBackgroundEvent
  completing : Text → Serving E  -- at completeBackgroundTaskStop
  joining : Text → Serving E  -- in it, at the wait for the monitor

pub record World (A E : Type 0) : Type 0 where
  pub server : Tasks A E
  pub channels : Text → Channel E
  pub monitors : Text → Monitor E
  pub serving : Serving E
  pub events : List (BackgroundEvent E)  -- written to the host, the last one first

-- f with another value at id
abbrev pub set_at : {A : Type 0} → Text → A → (Text → A) → Text → A
set_at id a f j = if text_eq j id then a else f j

module _ {E : Type 0} where
  abbrev pub new_channel : Channel E
  new_channel = record { pending = []; closed = false }

  taken : List (Option E) → Bool → Option (Option E × Channel E)
  taken (x ∷ xs) closed = some (x, record { pending = xs; closed = closed })
  taken [] true = some (none, record { pending = []; closed = true })
  taken [] false = none

  -- A receive that does not wait: nothing is ready, or a value; nil from a closed channel
  unfoldable pub receive : Channel E → Option (Option E × Channel E)
  unfolding taken
  receive c = taken c.pending c.closed

  unfoldable pub logged :
      Option (BackgroundEvent E) → List (BackgroundEvent E) → List (BackgroundEvent E)
  logged none events = events
  logged (some event) events = event ∷ events

module _ {A E : Type 0} where
  abbrev pub start_world : World A E
  start_world = record {
    server = new_tasks;
    channels = λ id. new_channel;
    monitors = λ id. not_started;
    serving = reading;
    events = [];
  }

  -- emitObservedBackgroundEvent in a world
  unfoldable pub emit : Text → World A E → World A E
  unfolding logged
  emit id w =
      let r = emit_observed_background_event id w.server in
      record w { server = r.1; events = logged r.0 w.events }

  pub data Step : World A E → World A E → Type 0 where
    -- handleStart
    store :
        (request run unit : Text) (attached : A) (w : World A E)
        → w.serving ≡ reading
        → Step w (
            let r = store_background_task request run unit attached w.server in
            record w {
              server = r.1;
              channels = set_at r.0 new_channel w.channels;
              monitors = set_at r.0 not_started w.monitors;
              serving = starting r.0;
            })
    launch :
        (id : Text) (w : World A E)
        → w.serving ≡ starting id
        → Step w (record w { monitors = set_at id waiting w.monitors; serving = reading })
    -- the unit's worker
    send :
        (id : Text) (e : Option E) (w : World A E)
        → (w.channels id).closed ≡ false
        → Step w (record w {
          channels =
              set_at id
                (record { pending = (w.channels id).pending ++ e ∷ []; closed = false })
                w.channels;
        })
    close :
        (id : Text) (w : World A E)
        → (w.channels id).closed ≡ false
        → Step w (record w {
          channels =
              set_at id (record { pending = (w.channels id).pending; closed = true }) w.channels;
        })
    -- monitorBackgroundTask
    monitor_receives :
        (id : Text) (e : Option E) (c : Channel E) (w : World A E)
        → w.monitors id ≡ waiting
        → receive (w.channels id) ≡ some (e, c)
        → Step w (record w {
          channels = set_at id c w.channels;
          monitors = set_at id (received e) w.monitors;
        })
    monitor_observes :
        (id : Text) (e : Option E) (w : World A E)
        → w.monitors id ≡ received e
        → Step w (record w {
          server = observe_background_done id e w.server;
          monitors = set_at id noted w.monitors;
        })
    monitor_emits :
        (id : Text) (w : World A E)
        → w.monitors id ≡ noted
        → Step w (emit id (record w { monitors = set_at id ended w.monitors }))
    monitor_stops :
        (id : Text) (r : TaskRecord A E) (w : World A E)
        → w.monitors id ≡ waiting
        → lookup id w.server.tasks ≡ some r
        → r.monitor_stopped ≡ true
        → Step w (record w { monitors = set_at id ended w.monitors })
    -- handleStop
    stop_begins :
        (id : Text) (r : TaskRecord A E) (w : World A E)
        → w.serving ≡ reading
        → (begin_background_task_stop id w.server).0 ≡ some r
        → Step w (record w {
          server = (begin_background_task_stop id w.server).1;
          serving = stopping_task id;
        })
    stop_fails :
        (id : Text) (w : World A E)
        → w.serving ≡ stopping_task id
        → Step w (record w { server = abort_background_task_stop id w.server; serving = reading })
    -- flushReadyBackgroundEvent, after the StopResponse
    flush_receives :
        (id : Text) (e : Option E) (c : Channel E) (w : World A E)
        → w.serving ≡ stopping_task id
        → receive (w.channels id) ≡ some (e, c)
        → Step w (record w { channels = set_at id c w.channels; serving = flushing id e })
    flush_finds_nothing :
        (id : Text) (w : World A E)
        → w.serving ≡ stopping_task id
        → receive (w.channels id) ≡ none
        → Step w (record w { serving = emitting id })
    flush_observes :
        (id : Text) (e : Option E) (w : World A E)
        → w.serving ≡ flushing id e
        → Step w
            (record w { server = observe_background_done id e w.server; serving = emitting id })
    flush_emits :
        (id : Text) (w : World A E)
        → w.serving ≡ emitting id
        → Step w (emit id (record w { serving = completing id }))
    -- completeBackgroundTaskStop
    monitor_is_stopped :
        (id : Text) (w : World A E)
        → w.serving ≡ completing id
        → Step w (record w { server = stop_monitor id w.server; serving = joining id })
    task_is_removed :
        (id : Text) (w : World A E)
        → w.serving ≡ joining id
        → w.monitors id ≡ ended
        → Step w (record w { server = remove_task id w.server; serving = reading })

  -- What can come of the start.
  pub data Reachable : World A E → Type 0 where
    at_start : Reachable start_world
    after : {w v : World A E} → Reachable w → Step w v → Reachable v
