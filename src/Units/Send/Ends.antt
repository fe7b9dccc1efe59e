-- ===== src/Units/Send/Ends.antt =====
-- The end of the loop of traffic.send: it can always be reached, and what it leaves.
use wkbench.Base.{
  one_if, occurrences, length, ℕ, zero, suc, ◌+◌, ◌*◌, ◌≤◌, ◌<◌, ltb, false, ◌&&◌, Option, none,
  some, List, [], ◌∷◌, Result, ok, err, ◌≡◌, refl, ap, sym, ◌∙◌, arith, Bool-cases, inl, inr, pos,
}
use wkbench.Units.Ports.{SendAck}
use wkbench.Units.Send.{
  SendResult, acked, Event, due, received, State, start, launch, settle, receive, on_room, on_full,
  turn, resume, loop,
}
use wkbench.Units.Send.Deliveries.{
  results_of, acks_of, resume-err, resume-none, resume-ok, deliveries, loop-Delivers,
}
use wkbench.Units.Send.Loop.{
  IsSending, weight, progress, int64_size, Turns, turn-Turns, remove_at-first,
}

abbrev pub weights : {E : Type 0} → List (Event E) → ℕ
weights [] = 0
weights (event ∷ events) = weight event + weights events

-- What the loop leaves at its end.
pub record IsDone {E : Type 0} (count steps : ℕ) (results : List (ℕ × SendResult E)) (s : State)
    : Type 0 where
  pub each_once : (k : ℕ) → k < count → results_of k results ≡ 1
  pub no_others : (k : ℕ) → count ≤ k → results_of k results ≡ 0
  pub acked : s.summary.sendack_ok ≡ acks_of results
  pub completed : s.completed ≡ count
  pub in_flight : s.in_flight ≡ 0
  pub summary : s.summary.sendack_ok + s.summary.sendack_errors ≡ count
  pub attempts : s.attempts ≡ count
  pub events : steps ≡ 2 * count

ended :
    (count bound : ℕ) (s : State)
    → IsSending count bound s
    → ltb s.completed count ≡ false
    → (s.completed ≡ count) × (s.in_flight ≡ 0) × (s.launched ≡ count)
ended count bound s i e = (
  ground (arith, i.sent, i.wanted),
  ground (arith, i.sent, i.wanted),
  ground (arith, i.sent, i.wanted),
)

pub start-IsSending : (count bound : ℕ) → IsSending count bound start
start-IsSending count bound = record {
  sent = refl;
  waiting = refl;
  bounded = omega arith;
  wanted = omega arith;
  attempted = refl;
  counted = refl;
  succeeded = refl;
  missed = refl;
}

-- A pass that takes the loop on, and the state after it.
record Advance (E : Type 0) (count bound : ℕ) (s : State) : Type 0 where
  event : Event E
  next : State
  turned : turn count bound event s ≡ some (ok next)
  weighed : weight event ≡ 1

-- An acknowledgement
abbrev an_ack : SendAck
an_ack = record { message_id = pos 1; message_seq = 1; wire_latency = pos 0 }

none_below : (k : ℕ) → one_if (ltb k 0) ≡ 0
none_below k = ground arith

no_pending : (k : ℕ) (xs : List ℕ) → 0 ≡ length xs → occurrences k xs ≡ 0
no_pending k [] e = refl
no_pending k (x ∷ xs) e = absurd (omega arith)

module _ {E : Type 0} (count bound : ℕ) where
  loop-progress :
      (events : List (Event E)) (s t : State)
      → count < int64_size
      → IsSending count bound s
      → loop count bound events s ≡ some (ok t)
      → IsSending count bound t
        × (ltb t.completed count ≡ false)
        × (progress t ≡ weights events + progress s)
  unfolding loop
  loop-progress [] s t small i h = elim (Bool-cases (ltb s.completed count)) [
    | inl more ↦ absurd (cc)
    | inr done ↦
        let k : some (ok s) ≡ some (ok t) = rw done at h in
        let same : s ≡ t = cc in
        let far : progress s ≡ 0 + progress s = omega arith in
        (rw same at i, rw same at done, sym (ap progress same) ∙ far)
  ]
  loop-progress (event ∷ events) s t small i h = elim (Bool-cases (ltb s.completed count)) [
    | inr done ↦ absurd (cc)
    | inl more ↦
        go (λ s' j k. loop-progress events s' t small j k) (turn count bound event s)
          (turn-Turns count bound event s small i) (rw more at h)
  ]
    where
      go :
          ((s' : State)
            → IsSending count bound s'
            → loop count bound events s' ≡ some (ok t)
            → IsSending count bound t
              × (ltb t.completed count ≡ false)
              × (progress t ≡ weights events + progress s'))
          → (o : Option (Result E State)) → Turns count bound event s o
          → resume (λ s'. loop count bound events s') events o ≡ some (ok t)
          → IsSending count bound t
            × (ltb t.completed count ≡ false)
            × (progress t ≡ weight event + weights events + progress s)
      go again none _ k = absurd (resume-none (λ x. loop count bound events x) events t k)
      go again (some (err e)) _ k =
          absurd (resume-err (λ x. loop count bound events x) events e t k)
      go again (some (ok s')) (j, p) k =
          let (i', d, q) =
            again s' j (sym (resume-ok (λ x. loop count bound events x) events s') ∙ k) in
          (i', d, omega (arith, p, q))

  -- If the loop ends without an error, for fewer than 2^63 messages, it has received one result of
  -- each of the messages 0 to count - 1 and no other; no goroutine is left; the summary counts as
  -- successes the acks among these results and as errors the others; and the loop has made two
  -- passes for each message, besides those that only slept.
  pub loop-IsDone :
      (events : List (Event E)) (s : State)
      → count < int64_size
      → loop count bound events start ≡ some (ok s)
      → IsDone count (weights events) (deliveries count bound events start) s
  loop-IsDone events s small h =
      let (i, done, far) = loop-progress events start s small (start-IsSending count bound) h in
      let (c, f, l) = ended count bound s i done in
      let moved = loop-Delivers count bound events start s h in
      let empty : 0 ≡ length s.pending = omega (arith, f, i.waiting) in
      record {
        each_once = λ k less.
            let all : one_if (ltb k s.launched) ≡ 1 = ground (arith, l, less) in
            omega (arith, moved.index k, no_pending k s.pending empty, all, none_below k);
        no_others = λ k more.
            let none_of : one_if (ltb k s.launched) ≡ 0 = ground (arith, l, more) in
            omega (arith, moved.index k, no_pending k s.pending empty, none_of, none_below k);
        acked = omega (arith, moved.acks, i.succeeded);
        completed = c;
        in_flight = f;
        summary = omega (arith, i.succeeded, i.missed, i.counted, c);
        attempts = i.attempted ∙ l;
        events = omega (arith, far, c, l);
      }

  -- The loop never waits for a result that no goroutine will send.
  advance :
      (s : State)
      → 0 < bound
      → IsSending count bound s
      → s.completed < count
      → Advance E count bound s
  unfolding turn on_room on_full receive
  advance s b i more = elim (Bool-cases (ltb s.launched count && ltb s.in_flight bound)) [
    | inl room ↦ record { event = due; next = launch s; turned = rw room refl; weighed = refl }
    | inr full ↦
        let (pending, first) = remove_at-first s.pending (ground (arith, i.sent, i.waiting)) in
        record {
          event = received 0 (acked an_ack) none;
          next = settle {E = E} (acked an_ack) pending s;
          turned = rw (full, first) refl;
          weighed = refl;
        }
  ]

  finish_from :
      (fuel : ℕ) (s : State)
      → 0 < bound
      → count < int64_size
      → IsSending count bound s
      → 2 * count ≤ progress s + fuel
      → (events : List (Event E)) × (t : State) × (loop count bound events s ≡ some (ok t))
  unfolding loop
  finish_from zero s b small i enough =
      let done : ltb s.completed count ≡ false = ground (arith, i.sent, i.wanted) in
      ([], s, rw done refl)
  finish_from (suc fuel) s b small i enough = elim (Bool-cases (ltb s.completed count)) [
    | inr done ↦ ([], s, rw done refl)
    | inl more ↦
        let a = advance s b i (ground arith) in
        let turns : Turns count bound a.event s (some (ok a.next)) =
          rw a.turned at (turn-Turns count bound a.event s small i) in
        let (events, u, l) =
          finish_from fuel a.next b small turns.0 (omega (arith, turns.1, a.weighed)) in
        (
          a.event ∷ events,
          u,
          rw (more, a.turned) (resume-ok (λ x. loop count bound events x) events a.next ∙ l),
        )
  ]

  -- From every state that the loop can be in, with fewer than 2^63 messages and room for one in
  -- flight, there are events that bring it to its end without an error: it never waits for a result
  -- that no goroutine will send.
  pub loop-ends :
      (s : State)
      → 0 < bound
      → count < int64_size
      → IsSending count bound s
      → (events : List (Event E)) × (t : State) × (loop count bound events s ≡ some (ok t))
  loop-ends s b small i = finish_from (2 * count) s b small i (omega arith)
