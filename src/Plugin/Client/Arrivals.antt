-- ===== src/Plugin/Client/Arrivals.antt =====
-- A frame that arrives at StdioClient keeps the bounds of the channels.
use wkbench.Base.{
  ℕ, ◌≤◌, ltb, Bool, true, false, Option, none, some, List, [], ◌∷◌, ◌++◌, length-append, Text,
  lookup, length, ◌≡◌, refl, arith, if◌then◌else◌,
}
use wkbench.Plugin.Client.{
  queue_full, unexpected_frame, lifecycle_failed, ReadResult, frame_read, Waiter, Client,
  waiter_capacity, put_at, shutdown, complete_done,
}
use wkbench.Plugin.Client.Calls.{
  EventFrame, Incoming, fail_all, delivered, deliver_waiter_result, background_task_for_event,
  event_for, event_error, dispatch_background_event, unexpected, finish_failed, for_start,
  for_waiter, by_event, frame_arrives, waited,
}
use wkbench.Plugin.Client.Bounds.{
  IsBounded, put_waiter, done-IsOnce, change-IsBounded, finish-IsBounded, fail_all-IsBounded,
  shutdown-IsBounded,
}

module _ {E Body : Type 0} where
  pub event-IsBounded :
      (event : EventFrame) (t : Option ℕ) (c : Client E (Incoming Body))
      → IsBounded c
      → IsBounded (event_for event t c)
  unfolding event_for complete_done
  event-IsBounded event none c b = b
  event-IsBounded event (some t) c b = change-IsBounded t _ c (done-IsOnce (event_error event)) b

  delivered-IsBounded :
      (id : Text) (n : ℕ) (frame : Incoming Body) (c : Client E (Incoming Body))
      → IsBounded c
      → IsBounded (deliver_waiter_result id n frame c)
  unfolding deliver_waiter_result delivered
  delivered-IsBounded id n frame c b = go w.closed (ltb (length w.results) waiter_capacity) refl
    where
      w : Waiter E (Incoming Body)
      w = c.waiter_at n

      longer : List (ReadResult E (Incoming Body))
      longer = w.results ++ frame_read frame ∷ []

      go :
          (closed room : Bool)
          → ltb (length w.results) waiter_capacity ≡ room
          → IsBounded (
              if closed
              then c
              else if room
              then record c { waiter_at = put_at n (record w { results = longer }) c.waiter_at }
              else shutdown true (fail_all (queue_full id) c))
      go true room less = b
      go false true less = record {
        fit =
            put_waiter n (record w { results = longer }) c.waiter_at
              (ground (arith, less, length-append w.results (frame_read frame ∷ []))) b.fit;
        once = b.once;
      }
      go false false less =
          shutdown-IsBounded true (fail_all (queue_full id) c)
            (fail_all-IsBounded (queue_full id) c b)

  unexpected-IsBounded :
      (id : Text) (c : Client E (Incoming Body)) → IsBounded c → IsBounded (unexpected id c)
  unfolding unexpected
  unexpected-IsBounded id c b =
      shutdown-IsBounded true (fail_all (unexpected_frame id) c)
        (fail_all-IsBounded (unexpected_frame id) c b)

  finish_failed-IsBounded :
      (t : ℕ) (e : Option E) (c : Client E (Incoming Body))
      → IsBounded c
      → IsBounded (finish_failed t e c)
  unfolding finish_failed
  finish_failed-IsBounded t none c b = b
  finish_failed-IsBounded t (some e) c b = finish-IsBounded t (some (lifecycle_failed e)) c b

  start-IsBounded :
      (id : Text) (t : Option ℕ) (handled : Bool) (e : Option E) (c : Client E (Incoming Body))
      → IsBounded c
      → IsBounded (for_start id t handled e c)
  unfolding for_start
  start-IsBounded id none handled e c b = unexpected-IsBounded id c b
  start-IsBounded id (some t) true e c b = finish_failed-IsBounded t e c b
  start-IsBounded id (some t) false e c b =
      unexpected-IsBounded id (finish_failed t e c) (finish_failed-IsBounded t e c b)

  pub frame-IsBounded :
      (frame : Incoming Body) (handled : Bool) (e : Option E) (c : Client E (Incoming Body))
      → IsBounded c
      → IsBounded (frame_arrives frame handled e c)
  unfolding frame_arrives by_event for_waiter dispatch_background_event
  frame-IsBounded frame handled e c b = go frame.event
    where
      waiting : (n : Option ℕ) → IsBounded (for_waiter frame handled e n c)
      waiting (some n) = delivered-IsBounded frame.request_id n frame c b
      waiting none =
          start-IsBounded frame.request_id (lookup frame.request_id c.bg_starts) handled e c b

      go : (event : Option EventFrame) → IsBounded (by_event frame handled e event c)
      go none = waiting (lookup frame.request_id c.waiters)
      go (some event) =
          event-IsBounded event (background_task_for_event frame.request_id event c) c b

  pub taken_fits :
      (n : ℕ) (w : Waiter E (Incoming Body)) (rs : List (ReadResult E (Incoming Body)))
      (c : Client E (Incoming Body))
      → length rs ≤ 64
      → IsBounded c
      → IsBounded (waited n w rs c).1
  unfolding waited
  taken_fits n w [] c le b = ground arith
  taken_fits n w (r ∷ rs) c le b = record {
    fit = put_waiter n (record w { results = rs }) c.waiter_at (omega (arith, le)) b.fit;
    once = b.once;
  }
