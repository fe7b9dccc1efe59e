-- ===== src/Plugin/Client/Failing.antt =====
-- What a broken pipe leaves waiting in StdioClient: nothing.
use wkbench.Base.{
  ℕ, ◌==◌, ==_iff, Bool, true, false, Option, some, List, [], ◌∷◌, Text, text_eq, Dict, lookup, ◌≡◌,
  refl, sym, ap, subst, ◌∙◌, ◌⊎◌, arith, Bool-cases, inl, inr, if◌then◌else◌,
}
use wkbench.Plugin.Client.{
  ClientError, read_failed, Waiter, RemoteTask, Client, put_at, failed_waiter, fail_waiters,
  fail_all_waiters, change_task, done_with, complete_done, unregister_background_task, cleanup,
  finish,
}
use wkbench.Plugin.Client.Calls.{
  Incoming, is_listed, add_unseen, finish_each, fail_all_background_tasks, fail_all, reading_failed,
}

put_at-true :
    {A : Type 0} (flag : A → Bool) (n m : ℕ) (a : A) (f : ℕ → A)
    → flag a ≡ true
    → ((n ≡ m) ⊎ (flag (f m) ≡ true))
    → flag (put_at n a f m) ≡ true
put_at-true flag n m a f here before = elim (Bool-cases (m == n)) [
  | inl same ↦ rw same here
  | inr other ↦ rw other (elim before [ inl e ↦ absurd (ground (arith, e, other)) | inr old ↦ old ])
]

listed_before :
    (t : ℕ) (m : Dict ℕ) (seen : List ℕ)
    → is_listed t seen ≡ true
    → is_listed t (add_unseen m seen) ≡ true
unfolding add_unseen is_listed
listed_before t [] seen h = h
listed_before t ((id, u) ∷ m) seen h = elim (Bool-cases (is_listed u seen)) [
  | inl old ↦ rw old (listed_before t m seen h)
  | inr new ↦ rw new (listed_before t m (u ∷ seen) (ground (arith, h)))
]

listed_value :
    (t : ℕ) (id : Text) (m : Dict ℕ) (seen : List ℕ)
    → lookup id m ≡ some t
    → is_listed t (add_unseen m seen) ≡ true
unfolding add_unseen is_listed lookup
listed_value t id [] seen h = absurd (cc)
listed_value t id ((j, u) ∷ m) seen h = elim (Bool-cases (text_eq id j)) [
  | inr other ↦ listed_value t id m (if is_listed u seen then seen else u ∷ seen) (rw other at h)
  | inl same ↦
      let here : some u ≡ some t = rw same at h in
      let is : u ≡ t = cc in
      elim (Bool-cases (is_listed u seen)) [
        | inl old ↦ rw old (listed_before t m seen (subst (λ n. is_listed n seen ≡ true) is old))
        | inr new ↦ rw new (listed_before t m (u ∷ seen) (ground (arith, is)))
      ]
]

put_at-same :
    {A B : Type 0} (view : A → B) (n m : ℕ) (a : A) (f : ℕ → A)
    → view a ≡ view (f n)
    → view (put_at n a f m) ≡ view (f m)
put_at-same view n m a f here = elim (Bool-cases (m == n)) [
  | inl same ↦ rw same (here ∙ ap (λ k. view (f k)) (sym ((==_iff m n).0 same)))
  | inr other ↦ rw other refl
]

done_after :
    {E : Type 0} (e : Option (ClientError E)) (r : RemoteTask E)
    → (done_with e r).done_completed ≡ true
unfolding done_with
done_after e r = ground arith

module _ {E Body : Type 0} where
  abbrev pub is_done : ℕ → Client E (Incoming Body) → Bool
  is_done t c = (c.task_at t).done_completed

  cleanup_done : (t u : ℕ) (c : Client E (Incoming Body)) → is_done u (cleanup t c) ≡ is_done u c
  unfolding cleanup unregister_background_task change_task
  cleanup_done t u c = go (c.task_at t).cleaned
    where
      unlisted : is_done u (unregister_background_task t c) ≡ is_done u c
      unlisted = put_at-same (λ r. r.done_completed) t u _ c.task_at refl

      go :
          (cleaned : Bool)
          → is_done u (
              if cleaned
              then c
              else change_task t
                  (λ r. record r { cleaned = true })
                  (unregister_background_task t c))
            ≡ is_done u c
      go true = refl
      go false =
          put_at-same (λ r. r.done_completed) t u _ (unregister_background_task t c).task_at refl
          ∙ unlisted

  cleanup_waiters :
      (t : ℕ) (c : Client E (Incoming Body))
      → ((cleanup t c).waiters ≡ c.waiters) × ((cleanup t c).waiter_at ≡ c.waiter_at)
  unfolding cleanup unregister_background_task change_task
  cleanup_waiters t c = go (c.task_at t).cleaned
    where
      go :
          (cleaned : Bool)
          → let c' =
              (if cleaned
                then c
                else change_task t
                    (λ r. record r { cleaned = true })
                    (unregister_background_task t c)) in
            (c'.waiters ≡ c.waiters) × (c'.waiter_at ≡ c.waiter_at)
      go true = (refl, refl)
      go false = (refl, refl)

  finish_done :
      (t u : ℕ) (e : Option (ClientError E)) (c : Client E (Incoming Body))
      → ((t ≡ u) ⊎ (is_done u c ≡ true))
      → is_done u (finish t e c) ≡ true
  unfolding finish complete_done change_task
  finish_done t u e c before =
      put_at-true (λ r. r.done_completed) t u (done_with e ((cleanup t c).task_at t))
        (cleanup t c).task_at (done_after e ((cleanup t c).task_at t))
        (elim before [ inl same ↦ inl same | inr old ↦ inr (cleanup_done t u c ∙ old) ])

  each_done :
      (e : Option (ClientError E)) (ts : List ℕ) (u : ℕ) (c : Client E (Incoming Body))
      → ((is_listed u ts ≡ true) ⊎ (is_done u c ≡ true))
      → is_done u (finish_each e ts c) ≡ true
  unfolding finish_each is_listed
  each_done e [] u c (inl listed) = absurd (cc)
  each_done e [] u c (inr old) = old
  each_done e (t ∷ ts) u c (inr old) =
      each_done e ts u (finish t e c) (inr (finish_done t u e c (inr old)))
  each_done e (t ∷ ts) u c (inl listed) = elim (Bool-cases (u == t)) [
    | inl same ↦
        each_done e ts u (finish t e c)
          (inr (finish_done t u e c (inl (sym ((==_iff u t).0 same)))))
    | inr other ↦ each_done e ts u (finish t e c) (inl (rw other at listed))
  ]

  each_waiters :
      (e : Option (ClientError E)) (ts : List ℕ) (c : Client E (Incoming Body))
      → ((finish_each e ts c).waiters ≡ c.waiters) × ((finish_each e ts c).waiter_at ≡ c.waiter_at)
  unfolding finish_each finish complete_done change_task
  each_waiters e [] c = (refl, refl)
  each_waiters e (t ∷ ts) c =
      let (same, there) = each_waiters e ts (finish t e c) in
      let (same', there') = cleanup_waiters t c in (same ∙ same', there ∙ there')

  fail_waiters_closed :
      (e : ClientError E) (ws : Dict ℕ) (f : ℕ → Waiter E (Incoming Body)) (n : ℕ)
      → ((id : Text) × (lookup id ws ≡ some n)) ⊎ ((f n).closed ≡ true)
      → (fail_waiters e ws f n).closed ≡ true
  unfolding fail_waiters lookup failed_waiter
  fail_waiters_closed e [] f n (inl (id, there)) = absurd (cc)
  fail_waiters_closed e [] f n (inr old) = old
  fail_waiters_closed e ((j, m) ∷ ws) f n before =
      let closing : (failed_waiter e (f m)).closed ≡ true = ground arith in
      let one : ((m ≡ n) ⊎ ((f n).closed ≡ true))
          → (put_at m (failed_waiter e (f m)) f n).closed ≡ true =
        λ h. put_at-true (λ w. w.closed) m n (failed_waiter e (f m)) f closing h in
      elim before [
        | inr old ↦ fail_waiters_closed e ws _ n (inr (one (inr old)))
        | inl (id, there) ↦ elim (Bool-cases (text_eq id j)) [
          | inr other ↦ fail_waiters_closed e ws _ n (inl (id, rw other at there))
          | inl same ↦
              let here : some m ≡ some n = rw same at there in
              fail_waiters_closed e ws _ n (inr (one (inl (cc))))
        ]
      ]

  -- What was waiting is told: each registered request's waiter is closed, and each background task
  -- that is known by a start request or by a task id is done.
  pub record IsReleased (c c' : Client E (Incoming Body)) : Type 0 where
    pub no_waiter : c'.waiters ≡ []
    pub closed_waiter :
        (id : Text) (n : ℕ) → lookup id c.waiters ≡ some n → (c'.waiter_at n).closed ≡ true
    pub started : (id : Text) (t : ℕ) → lookup id c.bg_starts ≡ some t → is_done t c' ≡ true
    pub named : (id : Text) (t : ℕ) → lookup id c.bg_tasks ≡ some t → is_done t c' ≡ true

  -- When reading from the plugin fails, no request is left registered and no request or background
  -- task that was registered is left waiting: the waiters are closed, and the tasks are done.
  pub reading_failed-IsReleased :
      (e : E) (c : Client E (Incoming Body)) → IsReleased c (reading_failed e c)
  unfolding reading_failed fail_all fail_all_background_tasks fail_all_waiters
  reading_failed-IsReleased e c =
      let failure = read_failed e in
      let c' = fail_all_waiters failure c in
      let starts = add_unseen c.bg_starts [] in
      let ts = add_unseen c.bg_tasks starts in
      let (same, there) = each_waiters (some failure) ts c' in
      record {
        no_waiter = same;
        closed_waiter = λ id n found.
            ap (λ f. (f n).closed) there
            ∙ fail_waiters_closed failure c.waiters c.waiter_at n (inl (id, found));
        started = λ id t found.
            each_done (some failure) ts t c'
              (inl (listed_before t c.bg_tasks starts (listed_value t id c.bg_starts [] found)));
        named = λ id t found.
            each_done (some failure) ts t c' (inl (listed_value t id c.bg_tasks starts found));
      }
