-- ===== src/Units/Pairs/Ring.antt =====
-- What a run of units/identity/person_pairs produces: targets between neighbours on the ring of the
-- pool.
use wkbench.Base.{
  ℕ, ℤ, pos, negsuc, ◌≤◌, ◌^◌, natural, zero, suc, ◌+◌, ◌*◌, ◌%◌, ◌<◌, ltb, Bool, true, false, some,
  List, [], ◌∷◌, Result, ok, Text, length, get_elem?, ◌≡◌, ◌≢◌, refl, ap, sym, ◌∙◌, All,
  length-append, arith, Bool-cases, inl, inr, ◌++◌,
}
use native.Mathlib.Nat.{mod-lt, mod-eq_of_lt, mod_self, suc-mod}
use wkbench.Units.Ports.{Identity, SendTarget, can_make}
use wkbench.Units.Pairs.{
  Spec, person_channel_type, person_target, pair, both, round, extend, targets_from, doubled,
  decode_spec, check_spec, validate, output, makes, make_targets, run,
}

-- The user ids of a pool differ.
unfoldable pub IsDistinct : List Identity → Type 0
IsDistinct pool =
    (i j : ℕ) (x y : Identity)
    → get_elem? pool i ≡ some x
    → get_elem? pool j ≡ some y
    → x.uid ≡ y.uid
    → i ≡ j

-- A message that is sent over the target goes from its one sender to another user.
pub record IsToOther (t : SendTarget) : Type 0 where
  pub sender : Text
  pub only : t.sender_uids ≡ sender ∷ []
  pub other : t.channel_id ≢ sender
  pub person : t.channel_type ≡ person_channel_type

get_elem?-some :
    (pool : List Identity) (i : ℕ) → i < length pool → (x : Identity) × (get_elem? pool i ≡ some x)
get_elem?-some [] i l = absurd (omega arith)
get_elem?-some (x ∷ pool) zero l = (x, refl)
get_elem?-some (x ∷ pool) (suc i) l = get_elem?-some pool i (omega arith)

-- Neighbours on a ring of two places or more differ.
mod-suc_ne : (i n : ℕ) → 1 < n → i % n ≢ (i + 1) % n
mod-suc_ne i n l = λ e.
    let r = mod-lt i {m = n} (omega arith) in
    let s : (i + 1) % n ≡ suc (i % n) % n = ap (λ k. k % n) (omega arith) ∙ suc-mod i n in
    elim (Bool-cases (ltb (suc (i % n)) n)) [
      | inl inside ↦
          let k = mod-eq_of_lt {n = suc (i % n)} {m = n} (ground arith) in
          absurd (omega (arith, e, s, k))
      | inr last ↦
          let full : suc (i % n) ≡ n = ground arith in
          let k : suc (i % n) % n ≡ 0 = ap (λ k. k % n) full ∙ mod_self n in
          absurd (omega (arith, e, s, k, full))
    ]

-- What the loop produces, if no message goes to its sender: as many targets as rounds, or twice as
-- many, all to others.
round-IsToOther :
    (pool : List Identity) (bidirectional : Bool) (x y : Identity)
    → x.uid ≢ y.uid
    → All IsToOther (pair bidirectional x y)
unfolding pair person_target
round-IsToOther pool true x y ne = (
  record { sender = x.uid; only = refl; other = λ e. ne (sym e); person = refl },
  (record { sender = y.uid; only = refl; other = ne; person = refl }, tt),
)
round-IsToOther pool false x y ne =
    (record { sender = x.uid; only = refl; other = λ e. ne (sym e); person = refl }, tt)

All-append : {A : Type 0} (P : A → Type 0) (xs ys : List A) → All P xs → All P ys → All P (xs ++ ys)
All-append P [] ys a b = b
All-append P (x ∷ xs) ys (p, a) b = (p, All-append P xs ys a b)

-- The number of targets of a round
abbrev pub width : Bool → ℕ
width true = 2
width false = 1

length-pair : (b : Bool) (x y : Identity) → length (pair b x y) ≡ width b
unfolding pair
length-pair true x y = refl
length-pair false x y = refl

pair-first :
    (b : Bool) (x y : Identity) (targets : List SendTarget)
    → (get_elem? (pair b x y ++ targets) (0 * width b)
        ≡ some (record { channel_id = y.uid; channel_type = 1; sender_uids = x.uid ∷ [] }))
      × (b ≡ true
          → get_elem? (pair b x y ++ targets) (0 * 2 + 1)
            ≡ some (record { channel_id = x.uid; channel_type = 1; sender_uids = y.uid ∷ [] }))
unfolding pair person_target
pair-first true x y targets = (refl, λ _. refl)
pair-first false x y targets = (refl, λ e. absurd (cc))

pair-later :
    (b : Bool) (x y : Identity) (targets : List SendTarget) (k : ℕ)
    → get_elem? (pair b x y ++ targets) (suc k * width b) ≡ get_elem? targets (k * width b)
unfolding pair person_target
pair-later true x y targets k = let e : suc k * 2 ≡ suc (suc (k * 2)) = omega arith in rw e refl
pair-later false x y targets k = let e : suc k * 1 ≡ suc (k * 1) = omega arith in rw e refl

pair-back :
    (b : Bool) (x y : Identity) (targets : List SendTarget) (k : ℕ)
    → b ≡ true
    → get_elem? (pair b x y ++ targets) (suc k * 2 + 1) ≡ get_elem? targets (k * 2 + 1)
unfolding pair person_target
pair-back true x y targets k t =
    let e : suc k * 2 + 1 ≡ suc (suc (k * 2 + 1)) = omega arith in rw e refl
pair-back false x y targets k t = absurd (cc)

-- The targets of the rounds from `i` on: where the two of a round stand, and whom they join.
abbrev pub IsRing : List Identity → Bool → ℕ → ℕ → List SendTarget → Type 0
IsRing pool bidirectional i n targets =
    (k : ℕ)
    → k < n
    → (x y : Identity) → get_elem? pool ((i + k) % length pool) ≡ some x
    → get_elem? pool ((i + k + 1) % length pool) ≡ some y
    → (get_elem? targets (k * width bidirectional)
        ≡ some (record { channel_id = y.uid; channel_type = 1; sender_uids = x.uid ∷ [] }))
      × (bidirectional ≡ true
          → get_elem? targets (k * 2 + 1)
            ≡ some (record { channel_id = x.uid; channel_type = 1; sender_uids = y.uid ∷ [] }))

pair-IsRing :
    (pool : List Identity) (b : Bool) (i n : ℕ) (x y : Identity) (targets : List SendTarget)
    → get_elem? pool (i % length pool) ≡ some x
    → get_elem? pool ((i + 1) % length pool) ≡ some y
    → IsRing pool b (suc i) n targets
    → IsRing pool b i (suc n) (pair b x y ++ targets)
unfolding pair person_target
pair-IsRing pool b i n x y targets ex ey ring zero l x' y' ex' ey' =
    let z : i + 0 ≡ i = omega arith in
    let gx : some x ≡ some x' = sym ex ∙ rw z at ex' in
    let gy : some y ≡ some y' = sym ey ∙ rw z at ey' in
    let xs : x' ≡ x = cc in let ys : y' ≡ y = cc in rw (xs, ys) (pair-first b x y targets)
pair-IsRing pool b i n x y targets ex ey ring (suc k) l x' y' ex' ey' =
    let z : i + suc k ≡ suc i + k = omega arith in
    let here = ring k (omega arith) x' y' (rw z at ex') (rw z at ey') in
    (rw (pair-later b x y targets k) here.0, λ e. rw (pair-back b x y targets k e) (here.1 e))

targets_from-IsToOther :
    (pool : List Identity) (b : Bool) (i n : ℕ)
    → 1 < length pool
    → IsDistinct pool
    → (targets : List SendTarget) × (targets_from pool b i n ≡ some targets)
      × (length targets ≡ n * width b)
      × All IsToOther targets
      × IsRing pool b i n targets
unfolding targets_from round both extend IsDistinct
targets_from-IsToOther pool b i zero l d = ([], refl, omega arith, tt, λ k l. absurd (omega arith))
targets_from-IsToOther pool b i (suc n) l d =
    let (targets, made, size, others, ring) = targets_from-IsToOther pool b (suc i) n l d in
    let (x, ex) = get_elem?-some pool (i % length pool) (mod-lt i (omega arith)) in
    let (y, ey) = get_elem?-some pool ((i + 1) % length pool) (mod-lt (i + 1) (omega arith)) in
    let ne : x.uid ≢ y.uid = λ e. mod-suc_ne i (length pool) l (d _ _ x y ex ey e) in
    (
      pair b x y ++ targets,
      rw (ex, ey, made) refl,
      (length-append (pair b x y) targets
          ∙ ap (λ k. k + length targets) (length-pair b x y)
          ∙ omega (arith, size)),
      All-append IsToOther (pair b x y) targets (round-IsToOther pool b x y ne) others,
      pair-IsRing pool b i n x y targets ex ey ring,
    )

-- What a run promises for its spec.
pub record IsPairing (spec : Spec) (pool : List Identity) (targets : List SendTarget) : Type 0 where
  pub size : length targets ≡ natural spec.count * width spec.bidirectional
  pub others : All IsToOther targets
  pub ring : IsRing pool spec.bidirectional 0 (natural spec.count) targets

can_make-pos : (max_cap n : ℕ) → n ≤ max_cap → can_make max_cap (pos n) ≡ true
unfolding can_make
can_make-pos max_cap n l = ground (arith, l)

doubled-pos : (n : ℕ) → n * 2 < 2 ^ 63 → doubled (pos n) ≡ pos (n * 2)
unfolding doubled
doubled-pos n l =
    let small : n * 2 % 2 ^ 64 ≡ n * 2 = mod-eq_of_lt {n = n * 2} {m = 2 ^ 64} (omega arith) in
    let fits : ltb (n * 2) (2 ^ 63) ≡ true = ground (arith, l) in rw (small, fits) refl

makes-true :
    {E : Type 0} (decode : Spec → Result E Spec) (max_cap : ℕ) (spec : Spec) (n : ℕ) (b : Bool)
    → n * width b ≤ max_cap
    → max_cap < 2 ^ 63
    → makes decode max_cap (record spec { count = pos n; bidirectional = b }) ≡ true
unfolding makes
makes-true decode max_cap spec n true l m =
    rw
      (
        can_make-pos max_cap n (omega arith),
        doubled-pos n (omega arith),
        can_make-pos max_cap (n * 2) l,
      )
      refl
makes-true decode max_cap spec n false l m = rw (can_make-pos max_cap n (omega arith)) refl

make_targets-IsPairing :
    {E : Type 0} (decode : Spec → Result E Spec) (max_cap : ℕ) (pool : List Identity) (spec : Spec)
    (count : ℤ)
    → 1 < length pool
    → IsDistinct pool
    → check_spec decode (record spec { count = count }) ≡ ok tt
    → natural count * width spec.bidirectional ≤ max_cap
    → max_cap < 2 ^ 63
    → (targets : List SendTarget) × (make_targets decode max_cap pool
          (record spec { count = count })
        ≡ ok targets)
      × IsPairing (record spec { count = count }) pool targets
unfolding make_targets check_spec output
make_targets-IsPairing decode max_cap pool spec (negsuc n) l d c f m = absurd (cc)
make_targets-IsPairing decode max_cap pool spec (pos n) l d c f m =
    let (targets, made, size, others, ring) =
      targets_from-IsToOther pool spec.bidirectional 0 n l d in
    let enough : ltb (length pool) 2 ≡ false = ground arith in
    (
      targets,
      rw (enough, makes-true decode max_cap spec n spec.bidirectional f m, made) refl,
      record { size = size; others = others; ring = ring },
    )

-- If Validate accepts the decoded and normalized spec, the targets it asks for are a capacity that
-- make takes, and the pool has two identities or more, all with different user ids, Run produces one
-- target for each round of the spec, or two if the spec is bidirectional, and each target is a person
-- channel to another user than its one sender. In round k the k-th and the next identity on the ring
-- of the pool are paired: the first target is from the k-th to the next, and a bidirectional spec's
-- second is from the next to the k-th.
pub run-IsPairing :
    {E : Type 0} (decode : Spec → Result E Spec) (max_cap : ℕ) (pool : List Identity) (spec : Spec)
    → 1 < length pool
    → IsDistinct pool
    → decode_spec decode ≡ ok spec
    → validate decode ≡ ok tt
    → natural spec.count * width spec.bidirectional ≤ max_cap
    → max_cap < 2 ^ 63
    → (targets : List SendTarget) × (run decode max_cap pool ≡ ok targets)
      × IsPairing spec pool targets
unfolding validate run
run-IsPairing decode max_cap pool spec l d e v f m =
    let checked : check_spec decode spec ≡ ok tt = rw e at v in
    let (targets, made, good) =
      make_targets-IsPairing decode max_cap pool spec spec.count l d checked f m in
    (targets, rw e made, good)
