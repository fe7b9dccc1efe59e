-- ===== src/Units/Pool.antt =====
-- units/identity/pool: identities with numbered names.
use wkbench.Base.{
  ℕ, ℤ, pos, negsuc, is_nonpositive, leb, true, ◌≤◌, ◌≢◌, natural, zero, suc, ◌+◌, ◌<◌, not, some,
  List, [], ◌∷◌, Result, ok, err, ◌>>=◌, Text, text, text_eq, text_eq_iff, trim_space, length,
  get_elem?, if◌then◌else◌, ◌≡◌, refl, ap, ◌∙◌, arith, Bool-cases, inl, inr,
}
use wkbench.Units.Decimal.{name_at, name_at-injective}
use wkbench.Units.Ports.{
  Identity, token_for, or_default, UnitError, decode_failed, not_positive, makeslice_panics,
  can_make,
}

pub record Spec : Type 0 where
  pub total : ℤ
  pub uid_prefix : Text
  pub device_prefix : Text
  pub token_prefix : Text

abbrev pub default_spec : Spec
default_spec = record {
  total = pos 0;
  uid_prefix = text "user";
  device_prefix = text "device";
  token_prefix = [];
}

-- One round of the loop of Run
unfoldable pub identity_at : Spec → ℕ → Identity
identity_at spec i = record {
  uid = name_at spec.uid_prefix i;
  device_id = name_at spec.device_prefix i;
  token = if text_eq spec.token_prefix [] then [] else name_at spec.token_prefix i;
}

-- The loop of Run from index `i` on, with `n` rounds left
unfoldable pub identities_from : Spec → ℕ → ℕ → List Identity
identities_from spec i zero = []
identities_from spec i (suc n) = identity_at spec i ∷ identities_from spec (suc i) n

abbrev pub normalize : Spec → Spec
normalize spec = record {
  total = spec.total;
  uid_prefix = or_default (trim_space spec.uid_prefix) (text "user");
  device_prefix = or_default (trim_space spec.device_prefix) (text "device");
  token_prefix = trim_space spec.token_prefix;
}

module _ {E : Type 0} (decode : Spec → Result E Spec) where
  -- decodeSpec; `decode` is env.DecodeSpec, on the struct with the defaults
  unfoldable pub decode_spec : Result (UnitError E) Spec
  decode_spec = elim (decode default_spec) [
    | ok spec ↦ ok (normalize spec)
    | err e ↦ err (decode_failed e)
  ]

  check_spec : Spec → Result {0, 0} (UnitError E) Unit
  check_spec spec = if is_nonpositive spec.total then err (not_positive (text "total")) else ok tt

  -- Validate
  unfoldable pub validate : Result {0, 0} (UnitError E) Unit
  unfolding decode_spec check_spec
  validate = decode_spec >>= check_spec

  -- `max_cap` is the largest capacity that the runtime's make allows for the element type.
  make_pool : ℕ → Spec → Result (UnitError E) (List Identity)
  unfolding identities_from can_make
  make_pool max_cap spec =
      if can_make max_cap spec.total
      then ok (identities_from spec 0 (natural spec.total))
      else err makeslice_panics

  -- Run, with the value of the output `pool`
  unfoldable pub run : ℕ → Result (UnitError E) (List Identity)
  unfolding decode_spec make_pool
  run max_cap = decode_spec >>= make_pool max_cap

pub length-identities_from : (spec : Spec) (i n : ℕ) → length (identities_from spec i n) ≡ n
unfolding identities_from
length-identities_from spec i zero = refl
length-identities_from spec i (suc n) = ap suc (length-identities_from spec (suc i) n)

pub get_elem?-identities_from :
    (spec : Spec) (i n k : ℕ)
    → k < n
    → get_elem? (identities_from spec i n) k ≡ some (identity_at spec (i + k))
unfolding identities_from
get_elem?-identities_from spec i zero k l = absurd (omega arith)
get_elem?-identities_from spec i (suc n) zero l = ap (λ j. some (identity_at spec j)) (omega arith)
get_elem?-identities_from spec i (suc n) (suc k) l =
    get_elem?-identities_from spec (suc i) n k (omega arith)
    ∙ ap (λ j. some (identity_at spec j)) (omega arith)

token_for-identities_from :
    (spec : Spec) (i n k : ℕ)
    → k < n
    → token_for (identities_from spec i n) (name_at spec.uid_prefix (i + k))
      ≡ ((identity_at spec (i + k)).token, not (text_eq (identity_at spec (i + k)).token []))
unfolding identities_from token_for identity_at
token_for-identities_from spec i zero k l = absurd (omega arith)
token_for-identities_from spec i (suc n) zero l =
    let e : i + 0 ≡ i = omega arith in
    rw (e, (text_eq_iff (name_at spec.uid_prefix i) (name_at spec.uid_prefix i)).1 refl) refl
token_for-identities_from spec i (suc n) (suc k) l =
    elim (Bool-cases (text_eq (name_at spec.uid_prefix i) (name_at spec.uid_prefix (i + suc k)))) [
      | inl same ↦
          let e = name_at-injective spec.uid_prefix i (i + suc k) ((text_eq_iff _ _).0 same) in
          absurd (omega arith)
      | inr other ↦
          let e : i + suc k ≡ suc i + k = omega arith in
          rw other (rw e (token_for-identities_from spec (suc i) n k (omega arith)))
    ]

-- The pool of a spec: its size: its size, the text of each identity, and its token as it is looked up.
pub record IsIdentity (spec : Spec) (items : List Identity) (k : ℕ) : Type 0 where
  pub item : Identity
  pub at : get_elem? items k ≡ some item
  pub uid : item.uid ≡ name_at spec.uid_prefix k
  pub device_id : item.device_id ≡ name_at spec.device_prefix k
  pub token : spec.token_prefix ≢ [] → item.token ≡ name_at spec.token_prefix k
  pub no_token : spec.token_prefix ≡ [] → item.token ≡ []
  pub looked_up :
      token_for items (name_at spec.uid_prefix k) ≡ (item.token, not (text_eq item.token []))

pub record IsPool (spec : Spec) (items : List Identity) : Type 0 where
  pub size : pos (length items) ≡ spec.total
  pub identity : (k : ℕ) → k < length items → IsIdentity spec items k

identities_from-IsIdentity :
    (spec : Spec) (n k : ℕ) → k < n → IsIdentity spec (identities_from spec 0 n) k
unfolding identity_at
identities_from-IsIdentity spec n k l =
    let z : 0 + k ≡ k = omega arith in
    record {
      item = identity_at spec k;
      at = rw z at (get_elem?-identities_from spec 0 n k l);
      uid = refl;
      device_id = refl;
      token = λ ne. elim (Bool-cases (text_eq spec.token_prefix [])) [
        | inl e ↦ absurd (ne ((text_eq_iff _ _).0 e))
        | inr f ↦ rw f refl
      ];
      no_token = λ e. rw ((text_eq_iff spec.token_prefix []).1 e) refl;
      looked_up = rw z at (token_for-identities_from spec 0 n k l);
    }

identities_from-IsPool :
    (spec : Spec) (n : ℕ) → pos n ≡ spec.total → IsPool spec (identities_from spec 0 n)
identities_from-IsPool spec n e =
    let same = length-identities_from spec 0 n in
    record {
      size = ap pos same ∙ e;
      identity = λ k l. identities_from-IsIdentity spec n k (omega (arith, same));
    }

make_pool-IsPool :
    {E : Type 0} (decode : Spec → Result E Spec) (max_cap : ℕ) (spec : Spec) (total : ℤ)
    → natural total ≤ max_cap
    → check_spec decode (record spec { total = total }) ≡ ok tt
    → (items : List Identity) × (make_pool decode max_cap (record spec { total = total })
        ≡ ok items)
      × IsPool (record spec { total = total }) items
unfolding make_pool check_spec can_make
make_pool-IsPool decode max_cap spec (pos n) fits c =
    let room : leb n max_cap ≡ true = ground (arith, fits) in
    (
      identities_from (record spec { total = pos n }) 0 n,
      rw room refl,
      identities_from-IsPool (record spec { total = pos n }) n refl,
    )
make_pool-IsPool decode max_cap spec (negsuc n) fits c = absurd (cc)

-- If Validate accepts the decoded and normalized spec, and its total is a capacity that make takes,
-- Run produces a pool of that many identities. The k-th has the k-th name of the uid prefix, the k-th
-- name of the device prefix and, if the token prefix is not empty, the k-th name of the token
-- prefix, else no token; and looking up its uid gives its token, found if it is not empty.
pub run-IsPool :
    {E : Type 0} (decode : Spec → Result E Spec) (max_cap : ℕ) (spec : Spec)
    → decode_spec decode ≡ ok spec
    → validate decode ≡ ok tt
    → natural spec.total ≤ max_cap
    → (items : List Identity) × (run decode max_cap ≡ ok items) × IsPool spec items
unfolding validate run
run-IsPool decode max_cap spec e v fits =
    let checked : check_spec decode spec ≡ ok tt = rw e at v in
    let (items, made, good) = make_pool-IsPool decode max_cap spec spec.total fits checked in
    (items, rw e made, good)
