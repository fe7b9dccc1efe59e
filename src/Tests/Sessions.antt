-- ===== src/Tests/Sessions.antt =====
-- The background tasks, the serving loop and the client on small inputs. An error is a number.
use wkbench.Base.{
  ltb, one_if, occurrences, ℕ, suc, length, ◌≤◌, pos, true, false, none, some, List, [], ◌∷◌, ok,
  Text, text, lookup, insert, remove, text_eq, ◌≡◌, refl,
}
use wkbench.Contract.{Definition}
use wkbench.Units.Decimal.{name_at, decimal, digits}
use wkbench.Plugin.Tasks.{
  task_id_of, store_background_task, begin_background_task_stop, stop_monitor, remove_task,
  observe_background_done, emit_observed_background_event,
}
use wkbench.Plugin.Tasks.Steps.{
  World, store, launch, send, close, monitor_receives, monitor_observes, monitor_emits, stop_begins,
  flush_receives, flush_observes, flush_emits, monitor_is_stopped, task_is_removed, Reachable,
  at_start, after, start_world, receive, emit, logged, ended, reading,
}
use wkbench.Plugin.Tasks.Events.{events_of, events_of-Reachable}
use wkbench.Plugin.Inputs.{decode_inputs}
use wkbench.Plugin.Server.{Server, UnitCall, start_request}
use wkbench.Plugin.Server.Handlers.{
  Host, new_server, unit_by_kind, or_reply, write_reply, wrapped, decode_spec_map, decoded_inputs,
}
use wkbench.Plugin.Server.Running.{serve, handle_start, started, or_nil_task, or_not_background}
use wkbench.Plugin.Server.Replies.{terminals, serve-RepliesOnce}
use wkbench.Plugin.Client.{
  unregister_waiter, register_waiter, next_request_id, register_background_task, shutdown,
  fail_all_waiters, finish, complete_done, unregister_background_task, Client, unexpected_frame,
  ReadResult, frame_read, new_client,
}
use wkbench.Plugin.Lifecycle.{
  HostBody, artifact_open_body, artifact_close_body, terminal_status_body, RunHost, run_remote,
}
use wkbench.Plugin.Lifecycle.Counting.{counting}
use wkbench.Plugin.Lifecycle.Closing.{run_remote-closes}
use wkbench.Plugin.Client.Calls.{
  frame_arrives, Incoming, Call, begin_request, end_request, begin_start, arrival, failure,
  run_calls, reading_failed,
}
use wkbench.Plugin.Client.Bounds.{IsBounded}
use wkbench.Plugin.Client.Channels.{run_calls-IsBounded}
use wkbench.Plugin.Client.Failing.{IsReleased, reading_failed-IsReleased}

abbrev task : Text
task = task_id_of 1

-- The worker has sent 9 and closed the channel, and the monitor has received 9, when the serving loop
-- polls the channel for a stop: it finds the channel closed, and the task is told as completed.
lost_error :
    (w : World Unit ℕ) × Reachable w
    × (w.serving ≡ reading)
    × (w.monitors task ≡ ended)
    × (w.events ≡ record { task_id = task; error = none } ∷ [])
unfolding store_background_task receive begin_background_task_stop emit
    emit_observed_background_event observe_background_done logged stop_monitor remove_task lookup
    insert remove text_eq name_at decimal digits
lost_error =
    let s1 = after at_start (store (text "start-1") (text "run") (text "bg") tt start_world refl) in
    let s2 = after s1 (launch task _ refl) in
    let s3 = after s2 (send task (some 9) _ refl) in
    let s4 = after s3 (close task _ refl) in
    let s5 = after s4 (monitor_receives task (some 9) _ _ refl refl) in
    let s6 = after s5 (stop_begins task _ _ refl refl) in
    let s7 = after s6 (flush_receives task none _ _ refl refl) in
    let s8 = after s7 (flush_observes task none _ refl) in
    let s9 = after s8 (flush_emits task _ refl) in
    let s10 = after s9 (monitor_is_stopped task _ refl) in
    let s11 = after s10 (monitor_observes task (some 9) _ refl) in
    let s12 = after s11 (monitor_emits task _ refl) in
    (_, after s12 (task_is_removed task _ refl refl), refl, refl, refl)

events_of-Reachable_example : events_of task lost_error.0.events ≤ 1
events_of-Reachable_example = events_of-Reachable lost_error.0 lost_error.1 task

abbrev quiet : Definition
quiet = record {
  kind = text "quiet";
  title = [];
  description = [];
  inputs = [];
  outputs = [];
  metrics = [];
  artifacts = [];
}

-- A plugin with one background unit whose state counts its calls.
abbrev plugin : Host Unit Unit ℕ Unit Unit ℕ Unit ℕ
plugin = record {
  definition = λ u. quiet;
  is_background = λ u. true;
  validate = λ u name spec s. (none, suc s);
  plan = λ u settings s. (ok tt, suc s);
  run = λ u settings s. (none, suc s);
  start = λ u settings s. (ok (some tt), suc s);
  stop = λ t s. (none, suc s);
  poll_done = λ t s. (none, s);
  output = λ id s name. none;
  snapshots = λ id s. [];
  nil_value = 0;
  nil_spec = tt;
  encode = λ n. ok (n ∷ []);
  decode = λ bytes. ok 0;
  report_output = λ n. none;
  encode_plan = λ p. ok [];
  decode_spec = λ bytes. ok tt;
  write_fails = λ reply s. none;
}

abbrev fresh : Server Unit Unit ℕ Unit ℕ
fresh = new_server plugin (text "demo") (text "dev") (tt ∷ []) 0

abbrev call : UnitCall
call = record {
  unit_name = text "bg";
  kind = text "quiet";
  run_id = text "run";
  run_duration_millis = pos 1000;
  worker_count = pos 0;
  spec_json = [];
  inputs = [];
}

starts_well : (serve plugin (text "start-1") (start_request call) fresh).error ≡ none
unfolding serve handle_start started unit_by_kind or_reply write_reply wrapped decode_spec_map
    decoded_inputs or_nil_task or_not_background decode_inputs lookup insert text_eq new_server
starts_well = refl

serve-RepliesOnce_example :
    terminals
      (text "start-1")
      (serve plugin (text "start-1") (start_request call) fresh).server.sent
    ≡ suc (terminals (text "start-1") fresh.sent)
serve-RepliesOnce_example =
    serve-RepliesOnce plugin (text "start-1") (start_request call) fresh starts_well

abbrev event : Incoming Unit
event = record {
  request_id = text "start-1";
  event = some (record { task_id = []; event = text "completed"; error = none });
  body = tt;
}

abbrev calls : List (Call ℕ Unit)
calls =
    begin_request (text "start")
    ∷ begin_start (text "start-1")
    ∷ arrival event true none
    ∷ failure 9
    ∷ []

run_calls-IsBounded_example : IsBounded (run_calls calls new_client)
run_calls-IsBounded_example = run_calls-IsBounded calls

abbrev one_waits : Client ℕ (Incoming Unit)
one_waits = record new_client { waiters = (text "run-1", 0) ∷ []; bg_starts = (text "s", 1) ∷ [] }

reading_failed-IsReleased_example : IsReleased one_waits (reading_failed 9 one_waits)
reading_failed-IsReleased_example = reading_failed-IsReleased 9 one_waits

-- An environment with one recorder, whose artifacts open and close.
abbrev run_host : RunHost ℕ Text ℕ Unit ℕ
run_host = record {
  nil_value = 0;
  decode = λ bytes. ok 0;
  set_output = λ name v s. (none, s);
  div = λ x n. x;
  metrics = record { recorder = none; emit_counter = λ name delta labels s. suc s };
  artifact_env = record {
    open_artifact = λ name s. (ok tt, s);
    write_to = λ w bytes s. (length bytes, none, s);
    close_writer = λ w s. (none, s);
  };
  write_answer = λ answer s. (none, s);
}

-- Two artifacts are opened, one of them is closed, and the run ends.
abbrev run_frames : List (ReadResult Text (HostBody ℕ))
run_frames =
    frame_read (artifact_open_body (some (text "a")))
    ∷ frame_read (artifact_open_body (some (text "b")))
    ∷ frame_read (artifact_close_body (some (text "artifact-1")))
    ∷ frame_read (terminal_status_body true none)
    ∷ []

run_remote-closes_example :
    let r =
      run_remote (counting run_host) run_frames (record { opens = 0; closed = []; inner = 7 }) in
    ((k : ℕ) → occurrences k r.state.closed ≡ one_if (ltb k r.state.opens))
    × (r.artifacts.writers ≡ [])
run_remote-closes_example = run_remote-closes run_host run_frames 7

-- A background task runs, and the request run-2 has returned early, as Run does after an artifact
-- error; then the plugin's reply to it comes.
abbrev late_reply : List (Call ℕ Unit)
late_reply =
    begin_request (text "start")
    ∷ begin_start (text "start-1")
    ∷ end_request (text "start-1")
    ∷ begin_request (text "run")
    ∷ end_request (text "run-2")
    ∷ arrival (record { request_id = text "run-2"; event = none; body = tt }) false none
    ∷ []

-- The client is closed, its process killed, and the task done with an error.
late_reply_kills :
    let c = run_calls late_reply new_client in
    (c.killed ≡ true) × ((c.task_at 1).done ≡ some (unexpected_frame (text "run-2")) ∷ [])
unfolding run_calls frame_arrives lookup unregister_waiter register_waiter insert next_request_id
    register_background_task text_eq name_at remove shutdown fail_all_waiters finish complete_done
    unregister_background_task
late_reply_kills = (refl, refl)
