-- ===== src/Units/Send/Deliveries.antt =====
-- Which message each result that the loop of traffic.send receives belongs to.
use wkbench.Base.{
  below-suc, one_if, occurrences, ℕ, zero, suc, ◌+◌, ltb, ◌==◌, Bool, true, false, ◌&&◌, Option,
  none, some, List, [], ◌∷◌, ◌++◌, Result, ok, err, get_elem?, ◌≡◌, ◌≢◌, refl, ap, sym, ◌∙◌, arith,
  Bool-cases, Option-cases, inl, inr,
}
use wkbench.Units.Send.{
  SendResult, acked, failed, Event, due, slept, timer, received, cancelled, State, remove_at,
  apply_result, launch, settle, receive, on_room, on_full, turn, resume, loop,
}

module _ {E : Type 0} where
  -- How many of some results are those of the message of an index, and how many are acks
  abbrev pub results_of : ℕ → List (ℕ × SendResult E) → ℕ
  results_of k [] = 0
  results_of k (d ∷ ds) = one_if (k == d.0) + results_of k ds

  abbrev pub is_ack : SendResult E → Bool
  is_ack (acked ack) = true
  is_ack (failed e) = false

  abbrev pub acks_of : List (ℕ × SendResult E) → ℕ
  acks_of [] = 0
  acks_of (d ∷ ds) = one_if (is_ack d.1) + acks_of ds

  results_of-append :
      (k : ℕ) (xs ys : List (ℕ × SendResult E))
      → results_of k (xs ++ ys) ≡ results_of k xs + results_of k ys
  results_of-append k [] ys = omega arith
  results_of-append k (x ∷ xs) ys = omega (arith, results_of-append k xs ys)

  acks_of-append : (xs ys : List (ℕ × SendResult E)) → acks_of (xs ++ ys) ≡ acks_of xs + acks_of ys
  acks_of-append [] ys = omega arith
  acks_of-append (x ∷ xs) ys = omega (arith, acks_of-append xs ys)

  -- The result that an event brings, with the index of the message whose goroutine sent it
  abbrev pub delivery_at : SendResult E → Option ℕ → List (ℕ × SendResult E)
  delivery_at r none = []
  delivery_at r (some index) = (index, r) ∷ []

  abbrev pub delivery : Event E → State → List (ℕ × SendResult E)
  delivery (received place r stop) s = delivery_at r (get_elem? s.pending place)
  delivery _ s = []

  pub following :
      (State → List (ℕ × SendResult E)) → Option (Result E State) → List (ℕ × SendResult E)
  following rest (some (ok s)) = rest s
  following rest _ = []

  -- All results that the loop receives on some events, in their order
  unfoldable pub deliveries : (count bound : ℕ) → List (Event E) → State → List (ℕ × SendResult E)
  unfolding following
  deliveries count bound [] s = []
  deliveries count bound (event ∷ events) s =
      let rest : State → List (ℕ × SendResult E) = λ s'. deliveries count bound events s' in
      delivery event s ++ following rest (turn count bound event s)

occurrences-remove_at :
    (place : ℕ) (xs ys : List ℕ)
    → remove_at place xs ≡ some ys
    → (x : ℕ) × (get_elem? xs place ≡ some x)
      × ((k : ℕ) → occurrences k xs ≡ one_if (k == x) + occurrences k ys)
occurrences-remove_at place [] ys e = absurd (cc)
occurrences-remove_at zero (x ∷ xs) ys e =
    let same : xs ≡ ys = cc in (x, refl, λ k. ap (λ l. one_if (k == x) + occurrences k l) same)
occurrences-remove_at (suc place) (x ∷ xs) ys e = elim (Option-cases (remove_at place xs)) [
  | inl n ↦ absurd (cc)
  | inr (zs, m) ↦
      let (y, at, all) = occurrences-remove_at place xs zs m in
      let gone : some (x ∷ zs) ≡ some ys = rw m at e in
      let same : x ∷ zs ≡ ys = cc in (y, at, λ k. rw (← same) (omega (arith, all k)))
]

module _ {E : Type 0} where
  pub resume-err :
      (rest : State → Option (Result E State)) (events : List (Event E)) (e : E) (t : State)
      → resume rest events (some (err e)) ≢ some (ok t)
  unfolding resume
  resume-err rest [] e t = λ h. cc
  resume-err rest (_ ∷ _) e t = λ h. cc

  pub resume-none :
      (rest : State → Option (Result E State)) (events : List (Event E)) (t : State)
      → resume rest events none ≢ some (ok t)
  unfolding resume
  resume-none rest [] t = λ h. cc
  resume-none rest (_ ∷ _) t = λ h. cc

  pub resume-ok :
      (rest : State → Option (Result E State)) (events : List (Event E)) (s : State)
      → resume rest events (some (ok s)) ≡ rest s
  unfolding resume
  resume-ok rest [] s = refl
  resume-ok rest (_ ∷ _) s = refl

module _ {E : Type 0} where
  -- A pass moves indices only from those not launched to the waiting ones, and from these to the
  -- results; each ack is counted.
  record Moves (event : Event E) (s s' : State) : Type 0 where
    index :
        (k : ℕ)
        → occurrences k s'.pending + results_of k (delivery event s) + one_if (ltb k s.launched)
          ≡ occurrences k s.pending + one_if (ltb k s'.launched)
    acks : s'.successes ≡ s.successes + acks_of (delivery event s)

  launch-Moves : (event : Event E) (s : State) → delivery event s ≡ [] → Moves event s (launch s)
  unfolding launch
  launch-Moves event s e = record {
    index = λ k. rw e (omega (arith, below-suc k s.launched));
    acks = rw e (omega arith);
  }

  settle-Moves :
      (place : ℕ) (r : SendResult E) (stop : Option E) (pending : List ℕ) (s : State)
      → remove_at place s.pending ≡ some pending
      → Moves (received place r stop) s (settle r pending s)
  unfolding settle apply_result
  settle-Moves place (acked ack) stop pending s e =
      let (x, at, all) = occurrences-remove_at place s.pending pending e in
      record { index = λ k. rw at (omega (arith, all k)); acks = rw at (omega arith) }
  settle-Moves place (failed f) stop pending s e =
      let (x, at, all) = occurrences-remove_at place s.pending pending e in
      record { index = λ k. rw at (omega (arith, all k)); acks = rw at (omega arith) }

  receive-Moves :
      (place : ℕ) (r : SendResult E) (stop : Option E) (o : Option (List ℕ)) (s s' : State)
      → remove_at place s.pending ≡ o
      → receive r stop o s ≡ some (ok s')
      → Moves (received place r stop) s s'
  unfolding receive
  receive-Moves place r stop none s s' e h = absurd (cc)
  receive-Moves place r (some f) (some pending) s s' e h = absurd (cc)
  receive-Moves place r none (some pending) s s' e h =
      let same : settle r pending s ≡ s' = cc in rw (← same) (settle-Moves place r none pending s e)

  on_room-Moves :
      (event : Event E) (s s' : State) → on_room event s ≡ some (ok s') → Moves event s s'
  unfolding on_room
  on_room-Moves due s s' h = let same : launch s ≡ s' = cc in rw (← same) (launch-Moves due s refl)
  on_room-Moves slept s s' h = elim (Bool-cases (s.in_flight == 0)) [
    | inl z ↦
        let k : some (ok s) ≡ some (ok s') = rw z at h in
        let same : s ≡ s' = cc in
        rw (← same) (record { index = λ k. omega arith; acks = omega arith })
    | inr z ↦ let k : none ≡ some (ok s') = rw z at h in absurd (cc)
  ]
  on_room-Moves timer s s' h = elim (Bool-cases (s.in_flight == 0)) [
    | inl z ↦ let k : none ≡ some (ok s') = rw z at h in absurd (cc)
    | inr z ↦
        let k : some (ok (launch s)) ≡ some (ok s') = rw z at h in
        let same : launch s ≡ s' = cc in rw (← same) (launch-Moves timer s refl)
  ]
  on_room-Moves (received place r stop) s s' h = elim (Bool-cases (s.in_flight == 0)) [
    | inl z ↦ let k : none ≡ some (ok s') = rw z at h in absurd (cc)
    | inr z ↦ receive-Moves place r stop (remove_at place s.pending) s s' refl (rw z at h)
  ]
  on_room-Moves (cancelled e) s s' h = absurd (cc)

  on_full-Moves :
      (event : Event E) (s s' : State) → on_full event s ≡ some (ok s') → Moves event s s'
  unfolding on_full
  on_full-Moves due s s' h = absurd (cc)
  on_full-Moves slept s s' h = absurd (cc)
  on_full-Moves timer s s' h = absurd (cc)
  on_full-Moves (received place r stop) s s' h =
      receive-Moves place r stop (remove_at place s.pending) s s' refl h
  on_full-Moves (cancelled e) s s' h = absurd (cc)

  turn-Moves :
      (count bound : ℕ) (event : Event E) (s s' : State)
      → turn count bound event s ≡ some (ok s')
      → Moves event s s'
  unfolding turn
  turn-Moves count bound event s s' h =
      elim (Bool-cases (ltb s.launched count && ltb s.in_flight bound)) [
        | inl room ↦ on_room-Moves event s s' (rw room at h)
        | inr full ↦ on_full-Moves event s s' (rw full at h)
      ]

  -- What a run of the loop that ends without an error does to the indices and the counter of acks.
  pub record Delivers (s t : State) (ds : List (ℕ × SendResult E)) : Type 0 where
    pub index :
        (k : ℕ)
        → occurrences k t.pending + results_of k ds + one_if (ltb k s.launched)
          ≡ occurrences k s.pending + one_if (ltb k t.launched)
    pub acks : t.successes ≡ s.successes + acks_of ds

  pub loop-Delivers :
      (count bound : ℕ) (events : List (Event E)) (s t : State)
      → loop count bound events s ≡ some (ok t)
      → Delivers s t (deliveries count bound events s)
  unfolding loop deliveries
  loop-Delivers count bound [] s t h = elim (Bool-cases (ltb s.completed count)) [
    | inl more ↦ absurd (cc)
    | inr done ↦
        let k : some (ok s) ≡ some (ok t) = rw done at h in
        let same : s ≡ t = cc in
        rw (← same) (record { index = λ k. omega arith; acks = omega arith })
  ]
  loop-Delivers count bound (event ∷ events) s t h = elim (Bool-cases (ltb s.completed count)) [
    | inr done ↦ absurd (cc)
    | inl more ↦
        go (turn count bound event s) refl (λ s' k. loop-Delivers count bound events s' t k)
          (rw more at h)
  ]
    where
      go :
          (o : Option (Result E State))
          → turn count bound event s ≡ o
          → ((s' : State)
              → loop count bound events s' ≡ some (ok t)
              → Delivers s' t (deliveries count bound events s'))
          → resume (λ s'. loop count bound events s') events o ≡ some (ok t)
          → Delivers s t (delivery event s ++ following (λ s'. deliveries count bound events s') o)
      go none e again h = absurd (resume-none (λ s'. loop count bound events s') events t h)
      go (some (err x)) e again h =
          absurd (resume-err (λ s'. loop count bound events s') events x t h)
      go (some (ok s')) e again h =
          let rest : loop count bound events s' ≡ some (ok t) =
            sym (resume-ok (λ x. loop count bound events x) events s') ∙ h in
          let later = again s' rest in
          let here = turn-Moves count bound event s s' e in
          record {
            index = λ k. omega (
              arith,
              later.index k,
              here.index k,
              results_of-append k (delivery event s) (deliveries count bound events s'),
            );
            acks = omega (
              arith,
              later.acks,
              here.acks,
              acks_of-append (delivery event s) (deliveries count bound events s'),
            );
          }
