-- ===== src/Units/Send/Picking.antt =====
-- The sender that traffic.send picks is one of the target's senders.
use wkbench.Base.{
  ℕ, zero, suc, ◌/◌, ◌%◌, ◌<◌, ◌==◌, false, some, List, [], ◌∷◌, Text, text, text_eq, length,
  get_elem?, if◌then◌else◌, ◌≡◌, refl, arith, Bool-cases, inl, inr, All,
}
use native.Mathlib.Nat.{mod-lt}
use wkbench.Units.Ports.{SendTarget}
use wkbench.Units.Send.{pick_sender, send_over, picked, pick_over, pick}

get_elem?-some :
    {A : Type 0} (xs : List A) (i : ℕ) → i < length xs → (x : A) × (get_elem? xs i ≡ some x)
get_elem?-some [] i l = absurd (omega arith)
get_elem?-some (x ∷ xs) zero l = (x, refl)
get_elem?-some (x ∷ xs) (suc i) l = get_elem?-some xs i (omega arith)

All-get_elem? :
    {A : Type 0} (P : A → Type 0) (xs : List A) (i : ℕ) (x : A)
    → All P xs
    → get_elem? xs i ≡ some x
    → P x
All-get_elem? P [] i x a e = absurd (cc)
All-get_elem? P (y ∷ ys) zero x (p, a) e = let same : y ≡ x = cc in rw same at p
All-get_elem? P (y ∷ ys) (suc i) x (p, a) e = All-get_elem? P ys i x a e

-- Which of the senders of a target sends its `send_index`-th message
unfoldable pub sender_place : Text → ℕ → ℕ → ℕ
sender_place mode send_index senders =
    if text_eq mode (text "round_robin") then send_index % senders else 0

pick_sender-some :
    (target : SendTarget) (mode : Text) (send_index : ℕ)
    → 0 < length target.sender_uids
    → (uid : Text) × (get_elem? target.sender_uids
          (sender_place mode send_index (length target.sender_uids))
        ≡ some uid)
      × (pick_sender target mode send_index ≡ some uid)
unfolding pick_sender sender_place
pick_sender-some target mode send_index l = elim (Bool-cases (text_eq mode (text "round_robin"))) [
  | inl round ↦
      let (uid, e) =
        get_elem?-some target.sender_uids (send_index % length target.sender_uids)
          (mod-lt send_index l) in
      (uid, rw round e, rw round e)
  | inr first ↦
      let (uid, e) = get_elem?-some target.sender_uids 0 l in (uid, rw first e, rw first e)
]

-- Where every target has a sender, and there is a target, each message goes over the target whose
-- place is its index modulo the number of targets; its sender is the first of that target, or with
-- `round_robin` the one whose place is how many messages the target has had before, modulo the number
-- of its senders.
pub pick-send_over :
    (targets : List SendTarget) (mode : Text) (msg_index : ℕ)
    → 0 < length targets
    → All (λ target. 0 < length target.sender_uids) targets
    → (target : SendTarget) × (uid : Text) × (pick targets mode msg_index ≡ send_over target uid)
      × (get_elem? targets (msg_index % length targets) ≡ some target)
      × (get_elem? target.sender_uids
            (sender_place mode (msg_index / length targets) (length target.sender_uids))
          ≡ some uid)
unfolding pick pick_over picked
pick-send_over targets mode msg_index l a =
    let (target, e) = get_elem?-some targets (msg_index % length targets) (mod-lt msg_index l) in
    let some_sender =
      All-get_elem? (λ target. 0 < length target.sender_uids) targets _ target a e in
    let (uid, place, p) = pick_sender-some target mode (msg_index / length targets) some_sender in
    let nonempty : (length target.sender_uids == 0) ≡ false = ground arith in
    (target, uid, rw (e, nonempty, p) refl, e, place)
