-- ===== src/Units/GroupSend/Rotation.antt =====
-- Who sends to a channel under `round_robin`.
use wkbench.Base.{
  ℕ, ◌*◌, ◌%◌, some, List, Text, text, length, get_elem?, if◌then◌else◌, ◌≡◌, sym, ap, ◌∙◌, text_eq,
}
use native.Mathlib.Nat.{mod-mod_of_dvd, dvd-mul_right}
use wkbench.Units.Ports.{GroupChannel}
use wkbench.Units.GroupSend.{pick_member, sender_of}

same-mod : (k q i j : ℕ) → i % (k * q) ≡ j % (k * q) → i % k ≡ j % k
same-mod k q i j e =
    let d = dvd-mul_right k q in
    sym (mod-mod_of_dvd _ i d) ∙ ap (λ r. r % k) e ∙ mod-mod_of_dvd _ j d

pick_member-same :
    (channel : GroupChannel) (mode : Text) (i j : ℕ)
    → i % length channel.members ≡ j % length channel.members
    → pick_member channel mode i ≡ pick_member channel mode j
unfolding pick_member
pick_member-same channel mode i j e =
    ap
      (λ place.
        if text_eq mode (text "round_robin")
        then get_elem? channel.members place
        else get_elem? channel.members 0)
      e

-- Where the number of channels is a multiple of the number of members of a channel, every message to
-- that channel has the same sender, whatever the mode: `round_robin` does not rotate.
pub sender_of-same :
    (channels : List GroupChannel) (mode : Text) (channel : GroupChannel) (q i j : ℕ)
    → length channels ≡ length channel.members * q
    → get_elem? channels (i % length channels) ≡ some channel
    → i % length channels ≡ j % length channels
    → sender_of channels mode i ≡ sender_of channels mode j
unfolding sender_of
sender_of-same channels mode channel q i j multiple at_i same =
    let at_j : get_elem? channels (j % length channels) ≡ some channel =
      ap (λ place. get_elem? channels place) (sym same) ∙ at_i in
    let places : i % length channel.members ≡ j % length channel.members =
      same-mod (length channel.members) q i j (rw multiple at same) in
    rw (at_i, at_j) (pick_member-same channel mode i j places)
