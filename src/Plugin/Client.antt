-- ===== src/Plugin/Client.antt =====
-- StdioClient of benchkit/pluginhost/stdio_client.go: the requests that wait for a frame and the
-- background tasks, which the request goroutines and the reader share. A pointer to a waiter or a task
-- is a number. Each function is what the source does under reqMu or stateMu, or one call of it.
pub mod Calls
pub mod Bounds
pub mod Arrivals
pub mod Channels
pub mod Failing
use wkbench.Base.{
  ℕ, suc, ◌+◌, ltb, ◌==◌, Bool, true, false, not, ◌&&◌, Option, none, some, List, [], ◌∷◌, ◌++◌,
  Text, text, text_eq, Dict, lookup, insert, remove, length, if◌then◌else◌,
}
use wkbench.Units.Decimal.{name_at}

-- `E` is the type of the errors of the pipe and of the environment.
pub data ClientError (E : Type 0) : Type 0 where
  client_closed plugin_error_missing : ClientError E
  plugin_error : Text → Text → ClientError E
  queue_full unexpected_frame unknown_event : Text → ClientError E
  read_failed lifecycle_failed : E → ClientError E

-- readResult: a frame or an error
pub data ReadResult (E Frame : Type 0) : Type 0 where
  frame_read : Frame → ReadResult E Frame
  read_error : ClientError E → ReadResult E Frame

-- requestWaiter: the buffer of its channel, and whether `done` is closed
pub record Waiter (E Frame : Type 0) : Type 0 where
  pub results : List (ReadResult E Frame)
  pub closed : Bool

-- remoteBackgroundTask; `cleaned` and `done_completed` are what its two sync.Once have done, `done` is
-- what was sent on the channel Done.
pub record RemoteTask (E : Type 0) : Type 0 where
  pub start_request_id : Text
  pub task_id : Text
  pub completed : Bool
  pub cleaned : Bool
  pub done_completed : Bool
  pub stopping : Bool
  pub done : List (Option (ClientError E))

pub record Client (E Frame : Type 0) : Type 0 where
  pub next_seq : ℕ
  pub closed : Bool
  pub killed : Bool
  pub waiters : Dict ℕ
  pub bg_tasks : Dict ℕ
  pub bg_starts : Dict ℕ
  pub waiter_at : ℕ → Waiter E Frame
  pub task_at : ℕ → RemoteTask E
  pub next_pointer : ℕ

-- f with another value at n
abbrev pub put_at : {A : Type 0} → ℕ → A → (ℕ → A) → ℕ → A
put_at n a f m = if m == n then a else f m

-- The buffer of the channel of registerWaiter
abbrev pub waiter_capacity : ℕ
waiter_capacity = 64

abbrev pub is_pointer : Option ℕ → ℕ → Bool
is_pointer none n = false
is_pointer (some m) n = m == n

module _ {E : Type 0} where
  abbrev pub new_task : Text → RemoteTask E
  new_task start_id = record {
    start_request_id = start_id;
    task_id = [];
    completed = false;
    cleaned = false;
    done_completed = false;
    stopping = false;
    done = [];
  }

  unfoldable pub done_with : Option (ClientError E) → RemoteTask E → RemoteTask E
  done_with e r =
      if r.done_completed then r else record r { done_completed = true; done = r.done ++ e ∷ [] }

module _ {E Frame : Type 0} where
  abbrev pub new_waiter : Waiter E Frame
  new_waiter = record { results = []; closed = false }

  abbrev pub new_client : Client E Frame
  new_client = record {
    next_seq = 0;
    closed = false;
    killed = false;
    waiters = [];
    bg_tasks = [];
    bg_starts = [];
    waiter_at = λ n. new_waiter;
    task_at = λ n. new_task [];
    next_pointer = 0;
  }

  -- nextRequestID
  unfoldable pub next_request_id : Text → Client E Frame → Text × Client E Frame
  next_request_id prefix c =
      (name_at prefix (suc c.next_seq), record c { next_seq = suc c.next_seq })

  -- shutdown; the process has been started, and killing it succeeds
  unfoldable pub shutdown : Bool → Client E Frame → Client E Frame
  shutdown kill c = record c { killed = if kill then true else c.killed; closed = true }

  -- registerWaiter
  unfoldable pub register_waiter : Text → Client E Frame → ℕ × Client E Frame
  register_waiter id c =
      let n = c.next_pointer in
      (
        n,
        record c {
          next_pointer = suc n;
          waiters = insert id n c.waiters;
          waiter_at = put_at n new_waiter c.waiter_at;
        },
      )

  unfoldable pub close_waiter : ℕ → Client E Frame → Client E Frame
  close_waiter n c = record c {
    waiter_at = put_at n (record (c.waiter_at n) { closed = true }) c.waiter_at;
  }

  unfoldable pub unregistered : Text → Client E Frame → Option ℕ → Client E Frame
  unfolding close_waiter
  unregistered id c none = c
  unregistered id c (some n) = close_waiter n (record c { waiters = remove id c.waiters })

  -- unregisterWaiter
  unfoldable pub unregister_waiter : Text → Client E Frame → Client E Frame
  unfolding unregistered
  unregister_waiter id c = unregistered id c (lookup id c.waiters)

  -- The select of failAllWaiters: the error is left out where the waiter is closed or full. (Go may
  -- also put it into the buffer of a closed one.)
  unfoldable pub failed_waiter : ClientError E → Waiter E Frame → Waiter E Frame
  failed_waiter e w =
      if not w.closed && ltb (length w.results) waiter_capacity
      then record { results = w.results ++ read_error e ∷ []; closed = true }
      else record w { closed = true }

  unfoldable pub fail_waiters : ClientError E → Dict ℕ → (ℕ → Waiter E Frame) → ℕ → Waiter E Frame
  unfolding failed_waiter
  fail_waiters e [] f = f
  fail_waiters e ((id, n) ∷ ws) f = fail_waiters e ws (put_at n (failed_waiter e (f n)) f)

  -- failAllWaiters
  unfoldable pub fail_all_waiters : ClientError E → Client E Frame → Client E Frame
  fail_all_waiters e c = record c { waiters = []; waiter_at = fail_waiters e c.waiters c.waiter_at }

  unfoldable pub change_task : ℕ → (RemoteTask E → RemoteTask E) → Client E Frame → Client E Frame
  change_task t f c = record c { task_at = put_at t (f (c.task_at t)) c.task_at }

  -- markStopping and markNotStopping
  unfoldable pub set_stopping : Bool → ℕ → Client E Frame → Client E Frame
  unfolding change_task
  set_stopping b t c = change_task t (λ r. record r { stopping = b }) c

  -- completeDone
  unfoldable pub complete_done : ℕ → Option (ClientError E) → Client E Frame → Client E Frame
  unfolding change_task done_with
  complete_done t e c = change_task t (done_with e) c

  -- unregisterBackgroundTask
  unfoldable pub unregister_background_task : ℕ → Client E Frame → Client E Frame
  unfolding change_task
  unregister_background_task t c =
      let r = c.task_at t in
      let c' = change_task t (λ q. record q { completed = true }) c in
      record c' {
        bg_tasks =
            if not (text_eq r.task_id []) && is_pointer (lookup r.task_id c.bg_tasks) t
            then remove r.task_id c.bg_tasks
            else c.bg_tasks;
        bg_starts =
            if is_pointer (lookup r.start_request_id c.bg_starts) t
            then remove r.start_request_id c.bg_starts
            else c.bg_starts;
      }

  unfoldable pub cleanup : ℕ → Client E Frame → Client E Frame
  unfolding change_task
  cleanup t c =
      let c' = unregister_background_task t c in
      if (c.task_at t).cleaned then c else change_task t (λ r. record r { cleaned = true }) c'

  -- finish; closing the artifacts of the task is close_all of Plugin.Artifacts.Host
  unfoldable pub finish : ℕ → Option (ClientError E) → Client E Frame → Client E Frame
  unfolding cleanup
  finish t e c = complete_done t e (cleanup t c)

  -- registerBackgroundTask with the task that Start makes; its task id is empty
  unfoldable pub register_background_task : Text → Client E Frame → ℕ × Client E Frame
  register_background_task start_id c =
      let t = c.next_pointer in
      (
        t,
        record c {
          next_pointer = suc t;
          bg_starts = insert start_id t c.bg_starts;
          task_at = put_at t (new_task start_id) c.task_at;
        },
      )

  -- registerBackgroundTaskID
  unfoldable pub register_background_task_id : ℕ → Text → Client E Frame → Client E Frame
  unfolding change_task
  register_background_task_id t id c =
      if (c.task_at t).completed
      then c
      else record (change_task t (λ r. record r { task_id = id }) c) {
        bg_tasks = insert id t c.bg_tasks;
      }
