-- ===== src/Units/Decimal.antt =====
-- The `%d` of fmt.Sprintf, and the `<prefix>-<index>` names that the units make with it.
use wkbench.Base.{
  ℕ, ◌+◌, ◌*◌, ◌/◌, ◌%◌, ◌-◌, ◌<◌, zero, suc, ltb, [], ◌∷◌, ◌++◌, Text, ◌≡◌, refl, ap, sym, ◌∙◌,
  arith, if◌then◌else◌, Bool-cases, inl, inr,
}

-- A decimal digit
abbrev digit : ℕ → ℕ
digit n = 48 + n

-- On fuel above the number, every digit is written.
unfoldable pub digits : ℕ → ℕ → Text
digits zero n = []
digits (suc fuel) n =
    let rest = digits fuel (n / 10) in
    if ltb n 10 then digit n ∷ [] else rest ++ (digit (n % 10) ∷ [])

unfoldable pub decimal : ℕ → Text
unfolding digits
decimal n = digits (suc n) n

unfoldable value : ℕ → Text → ℕ
value n [] = n
value n (d ∷ ds) = value (n * 10 + (d - 48)) ds

value-snoc : (n : ℕ) (ds : Text) (d : ℕ) → value n (ds ++ (d ∷ [])) ≡ value n ds * 10 + (d - 48)
unfolding value
value-snoc n [] d = refl
value-snoc n (c ∷ ds) d = value-snoc (n * 10 + (c - 48)) ds d

value-digits : (fuel n : ℕ) → n < fuel → value 0 (digits fuel n) ≡ n
unfolding digits value
value-digits zero n l = ground arith
value-digits (suc fuel) n l = elim (Bool-cases (ltb n 10)) [
  | inl e ↦ rw e (omega arith)
  | inr e ↦ rw e (
      value-snoc 0 (digits fuel (n / 10)) (48 + n % 10)
      ∙ ap (λ v. v * 10 + (48 + n % 10 - 48)) (value-digits fuel (n / 10) (ground arith))
      ∙ ground arith)
]

pub decimal-injective : (m n : ℕ) → decimal m ≡ decimal n → m ≡ n
unfolding decimal
decimal-injective m n e =
    sym (value-digits (suc m) m (omega arith))
    ∙ ap (value 0) e
    ∙ value-digits (suc n) n (omega arith)

-- fmt.Sprintf("%s-%d", prefix, index)
unfoldable pub name_at : Text → ℕ → Text
unfolding decimal
name_at prefix index = prefix ++ (45 ∷ decimal index)

tail-eq : {x y : ℕ} {xs ys : Text} → x ∷ xs ≡ y ∷ ys → xs ≡ ys
tail-eq e = cc

append-cancel : (xs ys zs : Text) → xs ++ ys ≡ xs ++ zs → ys ≡ zs
append-cancel [] ys zs e = e
append-cancel (x ∷ xs) ys zs e = append-cancel xs ys zs (tail-eq e)

pub name_at-injective : (prefix : Text) (m n : ℕ) → name_at prefix m ≡ name_at prefix n → m ≡ n
unfolding name_at
name_at-injective prefix m n e =
    decimal-injective m n (tail-eq (append-cancel prefix (45 ∷ decimal m) (45 ∷ decimal n) e))
