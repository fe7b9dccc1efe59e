-- ===== src/Plugin/Client/Calls.antt =====
-- The reader of StdioClient (readLoop), the wait for a frame, and any sequence of what the goroutines
-- do: benchkit/pluginhost/stdio_client.go. Where two cases of a select are ready, Go takes either; here a
-- closed waiter gets no further frame.
use wkbench.Base.{
  ℕ, ltb, ◌==◌, Bool, true, false, ◌||◌, Option, none, some, List, [], ◌∷◌, ◌++◌, Text, text,
  text_eq, Dict, lookup, length, if◌then◌else◌,
}
use wkbench.Plugin.Messages.{ErrorMessage}
use wkbench.Plugin.Client.{
  ClientError, client_closed, plugin_error, plugin_error_missing, queue_full, unexpected_frame,
  unknown_event, read_failed, lifecycle_failed, ReadResult, frame_read, read_error, Waiter, Client,
  waiter_capacity, put_at, next_request_id, shutdown, register_waiter, unregister_waiter,
  fail_all_waiters, set_stopping, complete_done, finish, register_background_task,
  register_background_task_id,
}

-- BackgroundEvent, as it is read
pub record EventFrame : Type 0 where
  pub task_id : Text
  pub event : Text
  pub error : Option ErrorMessage

-- A frame from the plugin; `Body` is any body but a background event.
pub record Incoming (Body : Type 0) : Type 0 where
  pub request_id : Text
  pub event : Option EventFrame
  pub body : Body

module _ {E : Type 0} where
  -- pluginRPCError
  unfoldable pub plugin_rpc_error : Option ErrorMessage → ClientError E
  plugin_rpc_error none = plugin_error_missing
  plugin_rpc_error (some m) = plugin_error m.code m.message

  -- The error of an event, in dispatchBackgroundEvent
  unfoldable pub event_error : EventFrame → Option (ClientError E)
  unfolding plugin_rpc_error
  event_error e =
      if text_eq e.event [] || text_eq e.event (text "completed")
      then none
      else if text_eq e.event (text "fatal_error")
      then some (plugin_rpc_error e.error)
      else some (unknown_event e.event)

unfoldable pub is_listed : ℕ → List ℕ → Bool
is_listed n [] = false
is_listed n (m ∷ ms) = n == m || is_listed n ms

-- The tasks of a map that are not listed yet
unfoldable pub add_unseen : Dict ℕ → List ℕ → List ℕ
unfolding is_listed
add_unseen [] seen = seen
add_unseen ((id, t) ∷ m) seen = add_unseen m (if is_listed t seen then seen else t ∷ seen)

first_found : Option ℕ → Option ℕ → Option ℕ
first_found none other = other
first_found (some t) other = some t

module _ {E Body : Type 0} where
  unfoldable pub finish_each :
      Option (ClientError E) → List ℕ → Client E (Incoming Body) → Client E (Incoming Body)
  finish_each e [] c = c
  finish_each e (t ∷ ts) c = finish_each e ts (finish t e c)

  -- failAllBackgroundTasks
  unfoldable pub fail_all_background_tasks :
      ClientError E → Client E (Incoming Body) → Client E (Incoming Body)
  unfolding finish_each add_unseen
  fail_all_background_tasks e c =
      finish_each (some e) (add_unseen c.bg_tasks (add_unseen c.bg_starts [])) c

  unfoldable pub fail_all : ClientError E → Client E (Incoming Body) → Client E (Incoming Body)
  unfolding fail_all_background_tasks
  fail_all e c = fail_all_background_tasks e (fail_all_waiters e c)

  -- The read error of readLoop
  unfoldable pub reading_failed : E → Client E (Incoming Body) → Client E (Incoming Body)
  unfolding fail_all
  reading_failed e c = fail_all (read_failed e) c

  unfoldable pub delivered :
      Text
      → ℕ
      → Incoming Body
      → Waiter E (Incoming Body)
      → Client E (Incoming Body)
      → Client E (Incoming Body)
  unfolding fail_all
  delivered id n frame w c =
      if w.closed
      then c
      else if ltb (length w.results) waiter_capacity
      then record c {
        waiter_at =
            put_at n (record w { results = w.results ++ frame_read frame ∷ [] }) c.waiter_at;
      }
      else shutdown true (fail_all (queue_full id) c)

  -- deliverWaiterResult with a frame
  unfoldable pub deliver_waiter_result :
      Text → ℕ → Incoming Body → Client E (Incoming Body) → Client E (Incoming Body)
  unfolding delivered
  deliver_waiter_result id n frame c = delivered id n frame (c.waiter_at n) c

  -- backgroundTaskForEvent
  unfoldable pub background_task_for_event : Text → EventFrame → Client E (Incoming Body) → Option ℕ
  unfolding first_found
  background_task_for_event request e c =
      first_found (if text_eq e.task_id [] then none else lookup e.task_id c.bg_tasks)
        (if text_eq request [] then none else lookup request c.bg_starts)

  unfoldable pub event_for :
      EventFrame → Option ℕ → Client E (Incoming Body) → Client E (Incoming Body)
  unfolding event_error
  event_for e none c = c
  event_for e (some t) c = complete_done t (event_error e) c

  -- dispatchBackgroundEvent
  unfoldable pub dispatch_background_event :
      Text → EventFrame → Client E (Incoming Body) → Client E (Incoming Body)
  unfolding event_for background_task_for_event
  dispatch_background_event request e c = event_for e (background_task_for_event request e c) c

  unfoldable pub unexpected : Text → Client E (Incoming Body) → Client E (Incoming Body)
  unfolding fail_all
  unexpected id c = shutdown true (fail_all (unexpected_frame id) c)

  unfoldable pub finish_failed : ℕ → Option E → Client E (Incoming Body) → Client E (Incoming Body)
  finish_failed t none c = c
  finish_failed t (some e) c = finish t (some (lifecycle_failed e)) c

  unfoldable pub for_start :
      Text → Option ℕ → Bool → Option E → Client E (Incoming Body) → Client E (Incoming Body)
  unfolding unexpected finish_failed
  for_start id none handled e c = unexpected id c
  for_start id (some t) true e c = finish_failed t e c
  for_start id (some t) false e c = unexpected id (finish_failed t e c)

  unfoldable pub for_waiter :
      Incoming Body
      → Bool
      → Option E
      → Option ℕ
      → Client E (Incoming Body)
      → Client E (Incoming Body)
  unfolding for_start deliver_waiter_result
  for_waiter frame handled e (some n) c = deliver_waiter_result frame.request_id n frame c
  for_waiter frame handled e none c =
      for_start frame.request_id (lookup frame.request_id c.bg_starts) handled e c

  unfoldable pub by_event :
      Incoming Body
      → Bool
      → Option E
      → Option EventFrame
      → Client E (Incoming Body)
      → Client E (Incoming Body)
  unfolding for_waiter dispatch_background_event
  by_event frame handled e (some event) c = dispatch_background_event frame.request_id event c
  by_event frame handled e none c = for_waiter frame handled e (lookup frame.request_id c.waiters) c

  -- A round of readLoop with a frame; `handled` and `e` are what handleRunLifecycleFrame makes of it,
  -- where it is called
  unfoldable pub frame_arrives :
      Incoming Body → Bool → Option E → Client E (Incoming Body) → Client E (Incoming Body)
  unfolding by_event
  frame_arrives frame handled e c = by_event frame handled e frame.event c

  unfoldable pub waited :
      ℕ
      → Waiter E (Incoming Body)
      → List (ReadResult E (Incoming Body))
      → Client E (Incoming Body)
      → Option (ReadResult E (Incoming Body)) × Client E (Incoming Body)
  waited n w (r ∷ rs) c =
      (some r, record c { waiter_at = put_at n (record w { results = rs }) c.waiter_at })
  waited n w [] c = if w.closed then (some (read_error client_closed), c) else (none, c)

  -- waitForRequestFrame before the context is cancelled: the next frame or error, or none while there
  -- is nothing
  unfoldable pub wait_for_request_frame :
      ℕ
      → Client E (Incoming Body)
      → Option (ReadResult E (Incoming Body)) × Client E (Incoming Body)
  unfolding waited
  wait_for_request_frame n c = waited n (c.waiter_at n) (c.waiter_at n).results c

-- What the goroutines call, one section at a time.
pub data Call (E Body : Type 0) : Type 0 where
  begin_request end_request begin_start : Text → Call E Body
  take_frame : ℕ → Call E Body
  name_task : ℕ → Text → Call E Body
  finish_task : ℕ → Option (ClientError E) → Call E Body
  mark : Bool → ℕ → Call E Body
  shut_down : Bool → Call E Body
  arrival : Incoming Body → Bool → Option E → Call E Body
  failure : E → Call E Body

module _ {E Body : Type 0} where
  unfoldable pub run_call : Call E Body → Client E (Incoming Body) → Client E (Incoming Body)
  run_call (begin_request prefix) c =
      let r = next_request_id prefix c in (register_waiter r.0 r.1).1
  run_call (end_request id) c = unregister_waiter id c
  run_call (begin_start id) c = (register_background_task id c).1
  run_call (take_frame n) c = (wait_for_request_frame n c).1
  run_call (name_task t id) c = register_background_task_id t id c
  run_call (finish_task t e) c = finish t e c
  run_call (mark b t) c = set_stopping b t c
  run_call (shut_down kill) c = shutdown kill c
  run_call (arrival frame handled e) c = frame_arrives frame handled e c
  run_call (failure e) c = reading_failed e c

  unfoldable pub run_calls :
      List (Call E Body) → Client E (Incoming Body) → Client E (Incoming Body)
  unfolding run_call
  run_calls [] c = c
  run_calls (call ∷ calls) c = run_calls calls (run_call call c)
