-- ===== src/Plugin/Server/Replies.antt =====
-- How many replies a request gets.
use wkbench.Base.{
  ℕ, suc, Bool, true, false, ◌&&◌, Option, none, some, List, [], ◌∷◌, Text, text_eq, text_eq_refl,
  Result, ok, err, ◌≡◌, refl, ap, ◌∙◌, arith, Option-cases, inl, inr, if◌then◌else◌,
}
use wkbench.Contract.{PortDef}
use wkbench.Plugin.Outputs.{
  OutputFrame, write_outputs, write_output, write_payloads, unless_failed, report_payload_of,
}
use wkbench.Plugin.Metrics.{MetricSnapshot}
use wkbench.Plugin.Tasks.{TaskRecord, BackgroundEvent}
use wkbench.Plugin.Server.{
  UnitCall, Request, handshake_request, list_units_request, validate_request, plan_request,
  run_request, start_request, stop_request, other_request, ServeError, Body, terminal_ok,
  stop_response, set_output, metric_flush, background_event, Reply, Server,
}
use wkbench.Plugin.Server.Handlers.{
  Host, Handled, write_reply, or_reply, or_return, handle_validate, handle_plan,
}
use wkbench.Plugin.Server.Running.{
  flushed, write_metric_flush, set_output_frame, write_unit_outputs, finished, aborted, handle_run,
  started, handle_start, written_event, flush_ready_background_event, stopped, handle_stop, serve,
}

-- The frames that end a request; the others are sent along the way.
unfoldable pub is_terminal : {E F : Type 0} → Body E F → Bool
is_terminal (set_output frame) = false
is_terminal (metric_flush metrics) = false
is_terminal (background_event event) = false
is_terminal _ = true

unfoldable pub terminals : {E F : Type 0} → Text → List (Reply E F) → ℕ
unfolding is_terminal
terminals id [] = 0
terminals id (reply ∷ sent) =
    let n = terminals id sent in
    if text_eq id reply.request_id && is_terminal reply.body then suc n else n

module _ {Any E S : Type 0} (encode : Any → Result E (List ℕ)) (report_output : Any → Option Any)
    (write_frame : OutputFrame → S → Option E × S) (P : S → Type 0)
    (keeps : (frame : OutputFrame) (s : S) → P s → P (write_frame frame s).1) where
  payloads_keep :
      (def : PortDef) (payload report : Result E (List ℕ)) (s : S)
      → P s
      → P (write_payloads write_frame def payload report s).1
  unfolding write_payloads
  payloads_keep def (err e) report s p = p
  payloads_keep def (ok payload) (err e) s p = p
  payloads_keep def (ok payload) (ok report) s p = keeps _ s p

  output_keeps :
      (def : PortDef) (value : Option Any) (s : S)
      → P s
      → P (write_output encode report_output write_frame def value s).1
  unfolding write_output
  output_keeps def none s p = p
  output_keeps def (some value) s p =
      payloads_keep def (encode value) (report_payload_of encode report_output def value) s p

  -- What each frame keeps, writeOutputs keeps.
  write_outputs_keeps :
      (output : Text → Option Any) (defs : List PortDef) (s : S)
      → P s
      → P (write_outputs encode report_output write_frame output defs s).1
  unfolding write_outputs unless_failed
  write_outputs_keeps output [] s p = p
  write_outputs_keeps output (def ∷ defs) s p =
      let r = write_output encode report_output write_frame def (output def.name) s in
      let one = output_keeps def (output def.name) s p in
      go r.0 r.1 _ one (write_outputs_keeps output defs r.1 one)
    where
      go :
          (failed : Option E) (now : S) (rest : Option E × S)
          → P now
          → P rest.1
          → P (unless_failed failed now rest).1
      go none now rest a b = b
      go (some e) now rest a b = a

module _ {U Task Any Spec P E F S : Type 0} (host : Host U Task Any Spec P E F S) (id : Text) where
  abbrev count : Server U Task E F S → ℕ
  count s = terminals id s.sent

  -- From a server with n replies to one with one more, unless the handler makes Serve return.
  abbrev RepliesOnce : ℕ → Handled U Task E F S → Type 0
  RepliesOnce n h = h.error ≡ none → count h.server ≡ suc n

  write_once :
      (body : Body E F) (s : Server U Task E F S)
      → is_terminal body ≡ true
      → count (write_reply host.write_fails id body s).server ≡ suc (count s)
  unfolding write_reply terminals
  write_once body s ends = rw (text_eq_refl id, ends) refl

  write_none :
      (other : Text) (body : Body E F) (s : Server U Task E F S)
      → is_terminal body ≡ false
      → count (write_reply host.write_fails other body s).server ≡ count s
  unfolding write_reply terminals
  write_none other body s along = ground (arith, along)

  or_reply_once :
      {A : Type 0} (n : ℕ) (code : Text) (s : Server U Task E F S) (m : Result (ServeError E) A)
      (next : A → Handled U Task E F S)
      → count s ≡ n
      → ((a : A) → RepliesOnce n (next a))
      → RepliesOnce n (or_reply host.write_fails id code s m next)
  unfolding or_reply is_terminal
  or_reply_once n code s (err e) next same go fine = write_once _ s refl ∙ ap suc same
  or_reply_once n code s (ok a) next same go fine = go a fine

  or_return_once :
      (n : ℕ) (h : Handled U Task E F S) (next : Server U Task E F S → Handled U Task E F S)
      → RepliesOnce n (next h.server)
      → RepliesOnce n (or_return h next)
  unfolding or_return
  or_return_once n h next after = elim (Option-cases h.error) [
    | inl fine ↦ rw fine after
    | inr (e, failed) ↦ rw failed (λ bad. absurd (cc))
  ]

  flush_none :
      (other : Text) (s : Server U Task E F S)
      → count (write_metric_flush host other s).server ≡ count s
  unfolding write_metric_flush flushed is_terminal
  flush_none other s = go (host.snapshots other s.state)
    where
      go : (ms : List (MetricSnapshot F)) → count (flushed host other ms s).server ≡ count s
      go [] = refl
      go (m ∷ ms) = write_none other (metric_flush (m ∷ ms)) s refl

  outputs_none :
      (other : Text) (unit : U) (s : Server U Task E F S)
      → count (write_unit_outputs host other unit s).server ≡ count s
  unfolding write_unit_outputs set_output_frame is_terminal
  outputs_none other unit s =
      write_outputs_keeps host.encode host.report_output (set_output_frame host other)
        (λ s'. count s' ≡ count s)
        (λ frame s' same. write_none other (set_output frame) s' refl ∙ same)
        (host.output other s.state) (host.definition unit).outputs s refl

  validate_once :
      (call : UnitCall) (s : Server U Task E F S)
      → RepliesOnce (count s) (handle_validate host id call s)
  unfolding handle_validate is_terminal
  validate_once call s = or_reply_once (count s) _ s _ _ refl (λ unit.
      or_reply_once (count s) _ s _ _ refl
        (λ spec. or_reply_once (count s) _ _ _ _ refl (λ done fine. write_once _ _ refl)))

  plan_once :
      (call : UnitCall) (s : Server U Task E F S)
      → RepliesOnce (count s) (handle_plan host id call s)
  unfolding handle_plan is_terminal
  plan_once call s = or_reply_once (count s) _ s _ _ refl (λ unit.
      or_reply_once (count s) _ s _ _ refl (λ spec.
        or_reply_once (count s) _ _ _ _ refl
          (λ plan. or_reply_once (count s) _ _ _ _ refl (λ payload fine. write_once _ _ refl))))

  finished_once :
      (n : ℕ) (s : Server U Task E F S) → count s ≡ n → RepliesOnce n (finished host id s)
  unfolding finished is_terminal
  finished_once n s same =
      or_return_once n (write_metric_flush host id s) (write_reply host.write_fails id terminal_ok)
        (λ fine.
          write_once terminal_ok (write_metric_flush host id s).server refl
          ∙ ap suc (flush_none id s ∙ same))

  run_once :
      (call : UnitCall) (s : Server U Task E F S)
      → RepliesOnce (count s) (handle_run host id call s)
  unfolding handle_run is_terminal
  run_once call s = or_reply_once (count s) _ s _ _ refl (λ unit.
      or_reply_once (count s) _ s _ _ refl (λ spec. or_reply_once (count s) _ s _ _ refl (λ inputs.
        or_reply_once (count s) _ _ _ _ refl (λ ran.
          or_reply_once (count s) _ _ _ _ (outputs_none id unit _)
            (λ written. finished_once (count s) _ (outputs_none id unit _))))))

  start_once :
      (call : UnitCall) (s : Server U Task E F S)
      → RepliesOnce (count s) (handle_start host id call s)
  unfolding handle_start started is_terminal
  start_once call s = or_reply_once (count s) _ s _ _ refl (λ unit.
      or_reply_once (count s) _ s _ _ refl (λ background.
        or_reply_once (count s) _ s _ _ refl (λ spec.
          or_reply_once (count s) _ s _ _ refl (λ inputs.
            or_reply_once (count s) _ _ _ _ refl
              (λ task. or_reply_once (count s) _ _ _ _ refl (λ t fine. write_once _ _ refl))))))

  flushed_none :
      (task_id request : Text) (task : Task) (s : Server U Task E F S)
      → count (flush_ready_background_event host task_id request task s) ≡ count s
  unfolding flush_ready_background_event written_event is_terminal
  flushed_none task_id request task s = go _ _
    where
      go :
          (event : Option (BackgroundEvent E)) (s' : Server U Task E F S)
          → count (written_event host request event s') ≡ count s'
      go none s' = refl
      go (some event) s' = write_none request (background_event event) s' refl

  stopped_once :
      (n : ℕ) (task_id : Text) (r : TaskRecord (U × Task) E) (h : Handled U Task E F S)
      → count h.server ≡ suc n
      → RepliesOnce n (stopped host task_id r h)
  unfolding stopped
  stopped_once n task_id r h one = elim (Option-cases h.error) [
    | inl fine ↦ rw fine (λ good. flushed_none task_id r.request_id r.attached.1 h.server ∙ one)
    | inr (e, failed) ↦ rw failed (λ bad. absurd (cc))
  ]

  stop_once :
      (task_id : Text) (s : Server U Task E F S)
      → RepliesOnce (count s) (handle_stop host id task_id s)
  unfolding handle_stop aborted is_terminal
  stop_once task_id s = or_reply_once (count s) _ _ _ _ refl (λ found.
      or_reply_once (count s) _ _ _ _ refl (λ done.
        or_reply_once (count s) _ _ _ _ (outputs_none found.request_id found.attached.0 _)
          (λ written.
            or_reply_once (count s) _ _ _ _
              (flush_none found.request_id _ ∙ outputs_none found.request_id found.attached.0 _)
              (λ measured. stopped_once (count s) task_id found _ (
                write_once stop_response _ refl
                ∙ ap suc (
                    flush_none found.request_id _
                    ∙ outputs_none found.request_id found.attached.0 _))))))

  -- Every frame that the serving loop handles without returning is answered by exactly one frame
  -- that ends the request, a response or an error: outputs, metrics and background events aside,
  -- the number of the frames with its request id goes up by one.
  pub serve-RepliesOnce :
      (request : Request) (s : Server U Task E F S)
      → (serve host id request s).error ≡ none
      → terminals id (serve host id request s).server.sent ≡ suc (terminals id s.sent)
  unfolding serve is_terminal
  serve-RepliesOnce handshake_request s fine = write_once _ s refl
  serve-RepliesOnce list_units_request s fine = write_once _ s refl
  serve-RepliesOnce (validate_request call) s fine = validate_once call s fine
  serve-RepliesOnce (plan_request call) s fine = plan_once call s fine
  serve-RepliesOnce (run_request call) s fine = run_once call s fine
  serve-RepliesOnce (start_request call) s fine = start_once call s fine
  serve-RepliesOnce (stop_request task) s fine = stop_once task s fine
  serve-RepliesOnce other_request s fine = write_once _ s refl
