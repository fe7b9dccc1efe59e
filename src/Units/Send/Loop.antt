-- ===== src/Units/Send/Loop.antt =====
-- The loop of traffic.send: the bound on the messages in flight, and what the summary counts.
use wkbench.Base.{
  ℕ, zero, suc, ◌+◌, ◌≤◌, ◌<◌, ltb, ◌==◌, ◌&&◌, Option, none, some, List, [], ◌∷◌, Result, ok, err,
  length, ◌≡◌, refl, arith, Bool-cases, Option-cases, inl, inr,
}
use native.Mathlib.Nat.{mod-eq_of_lt}
use wkbench.Units.Send.{
  SendResult, acked, failed, Event, due, slept, timer, received, cancelled, State, remove_at,
  apply_result, launch, settle, receive, on_room, on_full, turn,
}

-- What holds between the passes of the loop.
pub record IsSending (count bound : ℕ) (s : State) : Type 0 where
  pub sent : s.launched ≡ s.completed + s.in_flight
  pub waiting : s.in_flight ≡ length s.pending
  pub bounded : s.in_flight ≤ bound
  pub wanted : s.launched ≤ count
  pub attempted : s.attempts ≡ s.launched
  pub counted : s.successes + s.failures ≡ s.completed
  pub succeeded : s.summary.sendack_ok ≡ s.successes
  pub missed : s.summary.sendack_errors ≡ s.failures

length-remove_at :
    (place : ℕ) (xs ys : List ℕ) → remove_at place xs ≡ some ys → length xs ≡ suc (length ys)
length-remove_at place [] ys e = absurd (cc)
length-remove_at zero (x ∷ xs) ys e = ground arith
length-remove_at (suc place) (x ∷ xs) ys e = elim (Option-cases (remove_at place xs)) [
  | inl n ↦ absurd (cc)
  | inr (zs, m) ↦ ground (arith, length-remove_at place xs zs m)
]

-- A place before the first waiting goroutine's is one.
pub remove_at-first : (xs : List ℕ) → 0 < length xs → (ys : List ℕ) × (remove_at 0 xs ≡ some ys)
remove_at-first [] l = absurd (omega arith)
remove_at-first (x ∷ xs) l = (xs, refl)

-- The events that take the loop on: all but a sleep until a message is due.
abbrev pub weight : {E : Type 0} → Event E → ℕ
weight slept = 0
weight _ = 1

-- How far the loop is
abbrev pub progress : State → ℕ
progress s = s.launched + s.completed

launch-IsSending :
    (count bound : ℕ) (s : State)
    → IsSending count bound s
    → s.launched < count
    → s.in_flight < bound
    → IsSending count bound (launch s) × (progress (launch s) ≡ 1 + progress s)
unfolding launch
launch-IsSending count bound s i l b = (
  record {
    sent = omega (arith, i.sent);
    waiting = omega (arith, i.waiting);
    bounded = omega arith;
    wanted = omega arith;
    attempted = omega (arith, i.attempted);
    counted = i.counted;
    succeeded = i.succeeded;
    missed = i.missed;
  },
  omega arith,
)

abbrev pub int64_size : ℕ
int64_size = 9_223_372_036_854_775_808

module _ {E : Type 0} (count bound : ℕ) where
  -- One result more is counted.
  settle-IsSending :
      (r : SendResult E) (s : State) (pending : List ℕ)
      → count < int64_size
      → IsSending count bound s
      → length s.pending ≡ suc (length pending)
      → IsSending count bound (settle r pending s)
        × (progress (settle r pending s) ≡ 1 + progress s)
  unfolding settle apply_result
  settle-IsSending (failed e) s pending small i gone =
      let k =
        mod-eq_of_lt {n = s.summary.sendack_errors + 1} {m = 18_446_744_073_709_551_616}
          (omega (arith, i.missed, i.counted, i.sent, i.wanted)) in
      (
        record {
          sent = omega (arith, i.sent, i.waiting, gone);
          waiting = omega (arith, i.waiting, gone);
          bounded = omega (arith, i.bounded);
          wanted = i.wanted;
          attempted = i.attempted;
          counted = omega (arith, i.counted);
          succeeded = i.succeeded;
          missed = omega (arith, k, i.missed);
        },
        omega arith,
      )
  settle-IsSending (acked ack) s pending small i gone =
      let k =
        mod-eq_of_lt {n = s.summary.sendack_ok + 1} {m = 18_446_744_073_709_551_616}
          (omega (arith, i.succeeded, i.counted, i.sent, i.wanted)) in
      (
        record {
          sent = omega (arith, i.sent, i.waiting, gone);
          waiting = omega (arith, i.waiting, gone);
          bounded = omega (arith, i.bounded);
          wanted = i.wanted;
          attempted = i.attempted;
          counted = omega (arith, i.counted);
          succeeded = omega (arith, k, i.succeeded);
          missed = i.missed;
        },
        omega arith,
      )

  -- What a pass does, if it happens and does not end the loop.
  abbrev pub Turns : Event E → State → Option (Result E State) → Type 0
  Turns event s none = Unit
  Turns event s (some (err e)) = Unit
  Turns event s (some (ok s')) =
      IsSending count bound s' × (progress s' ≡ weight event + progress s)

  receive-Turns :
      (event : Event E) (r : SendResult E) (stop : Option E) (place : ℕ) (s : State)
      → weight event ≡ 1
      → count < int64_size
      → IsSending count bound s
      → Turns event s (receive r stop (remove_at place s.pending) s)
  unfolding receive
  receive-Turns event r stop place s w small i = elim (Option-cases (remove_at place s.pending)) [
    | inl n ↦ rw n tt
    | inr (pending, e) ↦ rw e (go pending e stop)
  ]
    where
      go :
          (pending : List ℕ)
          → remove_at place s.pending ≡ some pending
          → (stop : Option E) → Turns event s (receive r stop (some pending) s)
      go pending e none =
          let (j, p) =
            settle-IsSending r s pending small i (length-remove_at place s.pending pending e) in
          (j, omega (arith, p, w))
      go pending e (some x) = tt

  on_room-Turns :
      (event : Event E) (s : State)
      → count < int64_size
      → IsSending count bound s
      → s.launched < count
      → s.in_flight < bound
      → Turns event s (on_room event s)
  unfolding on_room
  on_room-Turns due s small i l b = launch-IsSending count bound s i l b
  on_room-Turns slept s small i l b = elim (Bool-cases (s.in_flight == 0)) [
    | inl z ↦ rw z (i, omega arith)
    | inr z ↦ rw z tt
  ]
  on_room-Turns timer s small i l b = elim (Bool-cases (s.in_flight == 0)) [
    | inl z ↦ rw z tt
    | inr z ↦ rw z (launch-IsSending count bound s i l b)
  ]
  on_room-Turns (received place r stop) s small i l b = elim (Bool-cases (s.in_flight == 0)) [
    | inl z ↦ rw z tt
    | inr z ↦ rw z (receive-Turns (received place r stop) r stop place s refl small i)
  ]
  on_room-Turns (cancelled e) s small i l b = tt

  on_full-Turns :
      (event : Event E) (s : State)
      → count < int64_size
      → IsSending count bound s
      → Turns event s (on_full event s)
  unfolding on_full
  on_full-Turns due s small i = tt
  on_full-Turns slept s small i = tt
  on_full-Turns timer s small i = tt
  on_full-Turns (received place r stop) s small i =
      receive-Turns (received place r stop) r stop place s refl small i
  on_full-Turns (cancelled e) s small i = tt

  -- Every pass of the loop keeps the bounds and the counts, and takes it one launch or one result on,
  -- unless it only sleeps.
  pub turn-Turns :
      (event : Event E) (s : State)
      → count < int64_size
      → IsSending count bound s
      → Turns event s (turn count bound event s)
  unfolding turn
  turn-Turns event s small i = elim (Bool-cases (ltb s.launched count && ltb s.in_flight bound)) [
    | inl room ↦ rw room (on_room-Turns event s small i (ground arith) (ground arith))
    | inr full ↦ rw full (on_full-Turns event s small i)
  ]
