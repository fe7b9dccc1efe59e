-- ===== src/Kernel/Outputs/Laws.antt =====
-- What is read from the outputs after a write.
use wkbench.Base.{
  ok, Text, text_eq, text_eq_iff, text_eq_refl, Option, none, some, Dict, lookup, lookup-insert,
  Bool-cases, false, inl, inr, ◌⊎◌, ◌↔◌, ◌≡◌, ◌≢◌, refl,
}
use wkbench.Kernel.Outputs.{OutputStore, or_empty, set, get_port, get_unit, get}

pub set-get :
    {A : Type 0} (s : OutputStore A) (unit port : Text) (value : A)
    → get (set s unit port value) unit port ≡ ok value
unfolding get get_unit get_port set
set-get s unit port value =
    rw (lookup-insert, text_eq_refl unit, lookup-insert, text_eq_refl port) refl

no_port :
    {A : Type 0} (unit port : Text) (v : A)
    → get_port unit port (lookup port (or_empty {A = A} none)) ≢ ok v
unfolding get_port lookup
no_port unit port v = λ e. absurd (cc)

-- Another port has the value it had; only the error of a unit that had put out nothing changes.
pub set-get_ne :
    {A : Type 0} (s : OutputStore A) (unit port : Text) (value : A) (unit' port' : Text) (v : A)
    → (unit' ≢ unit) ⊎ (port' ≢ port)
    → (get (set s unit port value) unit' port' ≡ ok v) ↔ (get s unit' port' ≡ ok v)
unfolding get get_unit get_port set
set-get_ne {A} s unit port value unit' port' v ne = elim (Bool-cases (text_eq unit' unit)) [
  | inr differs ↦ rw (lookup-insert, differs) (λ h. h, λ h. h)
  | inl same ↦
      let e = (text_eq_iff unit' unit).0 same in
      rw (lookup-insert, same, e, lookup-insert, other_port ne e) (old_port (lookup unit s.values))
]
  where
    other_port : (unit' ≢ unit) ⊎ (port' ≢ port) → unit' ≡ unit → text_eq port' port ≡ false
    other_port (inl n) e = absurd (n e)
    other_port (inr n) e = elim (Bool-cases (text_eq port' port)) [
      | inl t ↦ absurd (n ((text_eq_iff port' port).0 t))
      | inr f ↦ f
    ]

    old_port :
        (o : Option (Dict A))
        → (get_port unit port' (lookup port' (or_empty o)) ≡ ok v) ↔ (get_unit unit port' o ≡ ok v)
    old_port none = (λ h. absurd (no_port unit port' v h), λ h. absurd (cc))
    old_port (some ports) = (λ h. h, λ h. h)
