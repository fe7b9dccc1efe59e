-- ===== src/Plugin/Client/Bounds.antt =====
-- The channels of StdioClient: how many results a waiter holds, and how often a task is done.
use wkbench.Base.{
  ℕ, ◌≤◌, ltb, ◌==◌, Bool, true, false, not, ◌&&◌, Option, some, List, [], ◌∷◌, ◌++◌, length-append,
  Dict, length, ◌≡◌, refl, arith, Bool-cases, inl, inr, if◌then◌else◌,
}
use wkbench.Plugin.Client.{
  ClientError, read_error, Waiter, RemoteTask, Client, waiter_capacity, put_at, shutdown,
  failed_waiter, fail_waiters, fail_all_waiters, change_task, done_with, complete_done,
  unregister_background_task, cleanup, finish,
}
use wkbench.Plugin.Client.Calls.{
  Incoming, add_unseen, finish_each, fail_all_background_tasks, fail_all,
}

pub put_at-all :
    {A : Type 0} (P : A → Type 0) (n : ℕ) (a : A) (f : ℕ → A)
    → P a
    → ((m : ℕ) → P (f m))
    → (m : ℕ) → P (put_at n a f m)
put_at-all P n a f here all m = elim (Bool-cases (m == n)) [
  | inl same ↦ rw same here
  | inr other ↦ rw other (all m)
]

-- A task is done once: nothing was sent before, one value after.
pub record IsOnce {E : Type 0} (r : RemoteTask E) : Type 0 where
  pub before : r.done_completed ≡ false → length r.done ≡ 0
  pub after : r.done_completed ≡ true → length r.done ≡ 1

pub done-IsOnce :
    {E : Type 0} (e : Option (ClientError E)) (r : RemoteTask E) → IsOnce r → IsOnce (done_with e r)
unfolding done_with
done-IsOnce {E} e r o = go r.done_completed refl
  where
    go :
        (b : Bool)
        → r.done_completed ≡ b
        → IsOnce (if b then r else record r { done_completed = true; done = r.done ++ e ∷ [] })
    go true already = o
    go false not_yet = record {
      before = λ bad. absurd (cc);
      after = λ good. omega (arith, length-append r.done (e ∷ []), o.before not_yet);
    }

module _ {E Body : Type 0} where
  abbrev pub Fits : Waiter E (Incoming Body) → Type 0
  Fits w = length w.results ≤ 64

  -- Every waiter fits its buffer, and every task is done once.
  pub record IsBounded (c : Client E (Incoming Body)) : Type 0 where
    pub fit : (n : ℕ) → Fits (c.waiter_at n)
    pub once : (t : ℕ) → IsOnce (c.task_at t)

  pub put_waiter :
      (n : ℕ) (w : Waiter E (Incoming Body)) (f : ℕ → Waiter E (Incoming Body))
      → Fits w
      → ((m : ℕ) → Fits (f m))
      → (m : ℕ) → Fits (put_at n w f m)
  put_waiter n w f = put_at-all Fits n w f

  failed-Fits :
      (e : ClientError E) (w : Waiter E (Incoming Body)) → Fits w → Fits (failed_waiter e w)
  unfolding failed_waiter
  failed-Fits e w fits =
      elim (Bool-cases (not w.closed && ltb (length w.results) waiter_capacity)) [
        | inr skip ↦ rw skip fits
        | inl room ↦
            let less : ltb (length w.results) 64 ≡ true = ground (arith, room) in
            rw room (ground (arith, less, length-append w.results (read_error e ∷ [])))
      ]

  fail_waiters_fit :
      (e : ClientError E) (ws : Dict ℕ) (f : ℕ → Waiter E (Incoming Body))
      → ((n : ℕ) → Fits (f n))
      → (n : ℕ) → Fits (fail_waiters e ws f n)
  unfolding fail_waiters
  fail_waiters_fit e [] f fits = fits
  fail_waiters_fit e ((id, n) ∷ ws) f fits =
      fail_waiters_fit e ws (put_at n (failed_waiter e (f n)) f)
        (put_waiter n (failed_waiter e (f n)) f (failed-Fits e (f n) (fits n)) fits)

  pub change-IsBounded :
      (t : ℕ) (f : RemoteTask E → RemoteTask E) (c : Client E (Incoming Body))
      → ((r : RemoteTask E) → IsOnce r → IsOnce (f r))
      → IsBounded c
      → IsBounded (change_task t f c)
  unfolding change_task
  change-IsBounded t f c keeps b = record {
    fit = b.fit;
    once = put_at-all IsOnce t (f (c.task_at t)) c.task_at (keeps _ (b.once t)) b.once;
  }

  pub finish-IsBounded :
      (t : ℕ) (e : Option (ClientError E)) (c : Client E (Incoming Body))
      → IsBounded c
      → IsBounded (finish t e c)
  unfolding finish complete_done cleanup unregister_background_task
  finish-IsBounded t e c b =
      change-IsBounded t (done_with e) _ (done-IsOnce e) (go (c.task_at t).cleaned)
    where
      marked : IsBounded (change_task t (λ q. record q { completed = true }) c)
      marked =
          change-IsBounded t (λ q. record q { completed = true }) c
            (λ r o. record { before = o.before; after = o.after }) b

      unlisted : IsBounded (unregister_background_task t c)
      unlisted = record { fit = marked.fit; once = marked.once }

      go :
          (cleaned : Bool)
          → IsBounded (
              if cleaned
              then c
              else change_task t
                  (λ r. record r { cleaned = true })
                  (unregister_background_task t c))
      go true = b
      go false =
          change-IsBounded t (λ r. record r { cleaned = true }) (unregister_background_task t c)
            (λ r o. record { before = o.before; after = o.after }) unlisted

  finish_each-IsBounded :
      (e : Option (ClientError E)) (ts : List ℕ) (c : Client E (Incoming Body))
      → IsBounded c
      → IsBounded (finish_each e ts c)
  unfolding finish_each
  finish_each-IsBounded e [] c b = b
  finish_each-IsBounded e (t ∷ ts) c b =
      finish_each-IsBounded e ts (finish t e c) (finish-IsBounded t e c b)

  pub fail_all-IsBounded :
      (e : ClientError E) (c : Client E (Incoming Body)) → IsBounded c → IsBounded (fail_all e c)
  unfolding fail_all fail_all_background_tasks fail_all_waiters
  fail_all-IsBounded e c b =
      let c' = fail_all_waiters e c in
      finish_each-IsBounded (some e) (add_unseen c'.bg_tasks (add_unseen c'.bg_starts [])) c'
        (record { fit = fail_waiters_fit e c.waiters c.waiter_at b.fit; once = b.once })

  pub shutdown-IsBounded :
      (kill : Bool) (c : Client E (Incoming Body)) → IsBounded c → IsBounded (shutdown kill c)
  unfolding shutdown
  shutdown-IsBounded kill c b = record { fit = b.fit; once = b.once }
