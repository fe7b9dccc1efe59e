-- ===== src/Plugin/Server/Running.antt =====
-- handleRun, handleStart and handleStop of sdk/go/wkbench/plugin/server.go, and the dispatch of Serve. In
-- handleStop nothing of the task's monitor is between the steps; Plugin.Tasks.Steps has the interleavings.
use wkbench.Base.{
  Bool, Option, none, some, List, [], ◌∷◌, map, Text, Result, ok, err, if◌then◌else◌,
}
use wkbench.Plugin.Manifest.{manifest_to_proto, unit_to_proto, protocol_version}
use wkbench.Plugin.Outputs.{OutputFrame, write_outputs}
use wkbench.Plugin.Metrics.{MetricSnapshot}
use wkbench.Plugin.Tasks.{
  Tasks, TaskRecord, BackgroundEvent, store_background_task, begin_background_task_stop,
  abort_background_task_stop, stop_monitor, remove_task, observe_background_done,
  emit_observed_background_event,
}
use wkbench.Plugin.Server.{
  UnitCall, Request, handshake_request, list_units_request, validate_request, plan_request,
  run_request, start_request, stop_request, other_request, ServeError, not_background,
  task_not_active, nil_task, unsupported_frame, unit_failed, reply_failed, handshake_response,
  list_units_response, terminal_ok, start_response, stop_response, error_response, set_output,
  metric_flush, background_event, Server,
}
use wkbench.Plugin.Server.Handlers.{
  Host, Handled, write_reply, or_reply, or_return, failed_with, wrapped, config_error, run_error,
  unsupported, unit_by_kind, decode_spec_map, decoded_inputs, settings, handle_validate,
  handle_plan,
}

module _ {U Task Any Spec P E F S : Type 0} (host : Host U Task Any Spec P E F S) where
  unfoldable pub flushed :
      Text → List (MetricSnapshot F) → Server U Task E F S → Handled U Task E F S
  flushed id [] s = record { error = none; server = s }
  flushed id (m ∷ ms) s = write_reply host.write_fails id (metric_flush (m ∷ ms)) s

  -- writeMetricFlush
  unfoldable pub write_metric_flush : Text → Server U Task E F S → Handled U Task E F S
  unfolding flushed
  write_metric_flush id s = flushed id (host.snapshots id s.state) s

  unfoldable pub set_output_frame :
      Text → OutputFrame → Server U Task E F S → Option E × Server U Task E F S
  set_output_frame id frame s =
      let h = write_reply host.write_fails id (set_output frame) s in (h.error, h.server)

  -- writeOutputs
  unfoldable pub write_unit_outputs : Text → U → Server U Task E F S → Handled U Task E F S
  unfolding set_output_frame
  write_unit_outputs id unit s =
      let r =
        write_outputs host.encode host.report_output (set_output_frame id) (host.output id s.state)
          (host.definition unit).outputs s in
      record { error = r.0; server = r.1 }

  -- The end of handleRun
  unfoldable pub finished : Text → Server U Task E F S → Handled U Task E F S
  unfolding or_return
  finished id s = or_return (write_metric_flush id s) (write_reply host.write_fails id terminal_ok)

  -- handleRun
  unfoldable pub handle_run : Text → UnitCall → Server U Task E F S → Handled U Task E F S
  unfolding finished
  handle_run id call s =
      or_reply host.write_fails id run_error s (unit_by_kind host call.kind s) (λ unit.
        or_reply host.write_fails id run_error s (decode_spec_map host call.spec_json) (λ spec.
          or_reply host.write_fails id run_error s (decoded_inputs host call) (λ inputs.
            let r = host.run unit (settings host id call spec inputs) s.state in
            let s' = record s { state = r.1 } in
            or_reply host.write_fails id run_error s' (failed_with r.0 unit_failed) (λ ran.
              let w = write_unit_outputs id unit s' in
              or_reply host.write_fails id run_error w.server (failed_with w.error reply_failed)
                (λ written. finished id w.server)))))

  unfoldable pub or_not_background : Text → Bool → Result {0, 0} (ServeError E) Unit
  or_not_background kind b = if b then ok tt else err (not_background kind)

  unfoldable pub or_nil_task : Option Task → Result (ServeError E) Task
  or_nil_task none = err nil_task
  or_nil_task (some task) = ok task

  -- What follows background.Start in handleStart, up to the start of the monitor
  unfoldable pub started : Text → UnitCall → U → Server U Task E F S → Task → Handled U Task E F S
  started id call unit s task =
      let r = store_background_task id call.run_id call.unit_name (unit, task) s.tasks in
      write_reply host.write_fails id (start_response r.0) (record s { tasks = r.1 })

  -- handleStart
  unfoldable pub handle_start : Text → UnitCall → Server U Task E F S → Handled U Task E F S
  unfolding or_not_background or_nil_task started
  handle_start id call s =
      or_reply host.write_fails id config_error s (unit_by_kind host call.kind s) (λ unit.
        or_reply host.write_fails id config_error s
          (or_not_background call.kind (host.is_background unit))
          (λ background.
            or_reply host.write_fails id config_error s (decode_spec_map host call.spec_json)
              (λ spec.
                or_reply host.write_fails id run_error s (decoded_inputs host call) (λ inputs.
                  let r = host.start unit (settings host id call spec inputs) s.state in
                  let s' = record s { state = r.1 } in
                  or_reply host.write_fails id run_error s' (wrapped unit_failed r.0) (λ task.
                    or_reply host.write_fails id run_error s' (or_nil_task task)
                      (started id call unit s'))))))

  unfoldable pub or_not_active :
      Text → Option (TaskRecord (U × Task) E) → Result (ServeError E) (TaskRecord (U × Task) E)
  or_not_active id none = err (task_not_active id)
  or_not_active id (some r) = ok r

  unfoldable pub aborted : Text → Server U Task E F S → Server U Task E F S
  aborted id s = record s { tasks = abort_background_task_stop id s.tasks }

  unfoldable pub written_event :
      Text → Option (BackgroundEvent E) → Server U Task E F S → Server U Task E F S
  written_event request none s = s
  written_event request (some event) s =
      (write_reply host.write_fails request (background_event event) s).server

  unfoldable pub polled : Text → Option (Option E) → Tasks (U × Task) E → Tasks (U × Task) E
  polled id none tasks = tasks
  polled id (some e) tasks = observe_background_done id e tasks

  -- flushReadyBackgroundEvent
  unfoldable pub flush_ready_background_event :
      Text → Text → Task → Server U Task E F S → Server U Task E F S
  unfolding written_event polled
  flush_ready_background_event id request task s =
      let p = host.poll_done task s.state in
      let r = emit_observed_background_event id (polled id p.0 s.tasks) in
      written_event request r.0 (record s { tasks = r.1; state = p.1 })

  unfoldable pub stopped :
      Text → TaskRecord (U × Task) E → Handled U Task E F S → Handled U Task E F S
  unfolding flush_ready_background_event aborted
  stopped id r h = elim h.error [
    | some e ↦ record { error = some e; server = aborted id h.server }
    | none ↦
        let s = flush_ready_background_event id r.request_id r.attached.1 h.server in
        record {
          error = none;
          server = record s { tasks = remove_task id (stop_monitor id s.tasks) };
        }
  ]

  -- handleStop
  unfoldable pub handle_stop : Text → Text → Server U Task E F S → Handled U Task E F S
  unfolding or_not_active aborted stopped
  handle_stop id task_id s =
      let b = begin_background_task_stop task_id s.tasks in
      let s1 = record s { tasks = b.1 } in
      or_reply host.write_fails id config_error s1 (or_not_active task_id b.0) (λ found.
        let r = host.stop found.attached.1 s1.state in
        let s2 = record s1 { state = r.1 } in
        or_reply host.write_fails id run_error (aborted task_id s2) (failed_with r.0 unit_failed)
          (λ done.
            let w = write_unit_outputs found.request_id found.attached.0 s2 in
            or_reply host.write_fails id run_error (aborted task_id w.server)
              (failed_with w.error reply_failed)
              (λ written.
                let m = write_metric_flush found.request_id w.server in
                or_reply host.write_fails id run_error (aborted task_id m.server)
                  (failed_with m.error reply_failed)
                  (λ measured.
                    stopped task_id found
                      (write_reply host.write_fails id stop_response m.server)))))

  -- The body of the loop of Serve, for one frame
  unfoldable pub serve : Text → Request → Server U Task E F S → Handled U Task E F S
  unfolding handle_validate handle_plan handle_run handle_start handle_stop
  serve id handshake_request s =
      write_reply host.write_fails id
        (handshake_response (manifest_to_proto s.manifest) protocol_version) s
  serve id list_units_request s =
      write_reply host.write_fails id (list_units_response (map unit_to_proto s.manifest.units)) s
  serve id (validate_request call) s = handle_validate host id call s
  serve id (plan_request call) s = handle_plan host id call s
  serve id (run_request call) s = handle_run id call s
  serve id (start_request call) s = handle_start id call s
  serve id (stop_request task) s = handle_stop id task s
  serve id other_request s =
      write_reply host.write_fails id (error_response unsupported unsupported_frame) s
