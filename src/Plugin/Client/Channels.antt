-- ===== src/Plugin/Client/Channels.antt =====
-- The channels of StdioClient after any sequence of calls.
use wkbench.Base.{
  ℕ, Bool, true, false, Option, none, some, List, [], ◌∷◌, Text, lookup, insert, refl, arith,
  if◌then◌else◌,
}
use wkbench.Plugin.Client.{
  read_failed, Client, new_task, new_waiter, new_client, next_request_id, register_waiter,
  close_waiter, unregistered, unregister_waiter, change_task, set_stopping,
  register_background_task, register_background_task_id,
}
use wkbench.Plugin.Client.Calls.{
  Incoming, reading_failed, wait_for_request_frame, Call, begin_request, end_request, begin_start,
  take_frame, name_task, finish_task, mark, shut_down, arrival, failure, run_call, run_calls,
}
use wkbench.Plugin.Client.Bounds.{
  IsOnce, IsBounded, put_at-all, put_waiter, change-IsBounded, finish-IsBounded, fail_all-IsBounded,
  shutdown-IsBounded,
}
use wkbench.Plugin.Client.Arrivals.{frame-IsBounded, taken_fits}

new-IsOnce : {E : Type 0} (id : Text) → IsOnce (new_task {E = E} id)
new-IsOnce id = record { before = λ e. refl; after = λ bad. absurd (cc) }

module _ {E Body : Type 0} where
  unregister-IsBounded :
      (id : Text) (n : Option ℕ) (c : Client E (Incoming Body))
      → IsBounded c
      → IsBounded (unregistered id c n)
  unfolding unregistered close_waiter
  unregister-IsBounded id none c b = b
  unregister-IsBounded id (some n) c b = record {
    fit = put_waiter n (record (c.waiter_at n) { closed = true }) c.waiter_at (b.fit n) b.fit;
    once = b.once;
  }

  name-IsBounded :
      (t : ℕ) (id : Text) (c : Client E (Incoming Body))
      → IsBounded c
      → IsBounded (register_background_task_id t id c)
  unfolding register_background_task_id
  name-IsBounded t id c b = go (c.task_at t).completed
    where
      named : IsBounded (change_task t (λ r. record r { task_id = id }) c)
      named =
          change-IsBounded t (λ r. record r { task_id = id }) c
            (λ r o. record { before = o.before; after = o.after }) b

      go :
          (completed : Bool)
          → IsBounded (
              if completed then c else record (change_task t (λ r. record r { task_id = id }) c) {
                bg_tasks = insert id t c.bg_tasks;
              })
      go true = b
      go false = record { fit = named.fit; once = named.once }

  call-IsBounded :
      (call : Call E Body) (c : Client E (Incoming Body))
      → IsBounded c
      → IsBounded (run_call call c)
  unfolding run_call register_waiter next_request_id unregister_waiter register_background_task
      wait_for_request_frame set_stopping reading_failed
  call-IsBounded (begin_request prefix) c b = record {
    fit = put_waiter c.next_pointer new_waiter c.waiter_at (omega arith) b.fit;
    once = b.once;
  }
  call-IsBounded (end_request id) c b = unregister-IsBounded id (lookup id c.waiters) c b
  call-IsBounded (begin_start id) c b = record {
    fit = b.fit;
    once = put_at-all IsOnce c.next_pointer (new_task id) c.task_at (new-IsOnce id) b.once;
  }
  call-IsBounded (take_frame n) c b =
      taken_fits n (c.waiter_at n) (c.waiter_at n).results c (b.fit n) b
  call-IsBounded (name_task t id) c b = name-IsBounded t id c b
  call-IsBounded (finish_task t e) c b = finish-IsBounded t e c b
  call-IsBounded (mark stopping t) c b =
      change-IsBounded t (λ r. record r { stopping = stopping }) c
        (λ r o. record { before = o.before; after = o.after }) b
  call-IsBounded (shut_down kill) c b = shutdown-IsBounded kill c b
  call-IsBounded (arrival frame handled e) c b = frame-IsBounded frame handled e c b
  call-IsBounded (failure e) c b = fail_all-IsBounded (read_failed e) c b

  calls-IsBounded :
      (calls : List (Call E Body)) (c : Client E (Incoming Body))
      → IsBounded c
      → IsBounded (run_calls calls c)
  unfolding run_calls
  calls-IsBounded [] c b = b
  calls-IsBounded (call ∷ calls) c b =
      calls-IsBounded calls (run_call call c) (call-IsBounded call c b)

  -- Whatever the goroutines call, in any order: no waiter ever holds more than 64 results, and the
  -- Done channel of a task has got exactly one value when the task is completed, and none before.
  pub run_calls-IsBounded : (calls : List (Call E Body)) → IsBounded (run_calls calls new_client)
  run_calls-IsBounded calls =
      calls-IsBounded calls new_client
        (record { fit = λ n. omega arith; once = λ t. new-IsOnce [] })
