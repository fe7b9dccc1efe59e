-- ===== src/Units/Groups.antt =====
-- units/core/static_groups: group channels with numbered names and members.
use wkbench.Base.{
  ℕ, ◌==◌, false, ℤ, pos, negsuc, is_nonpositive, is_negative, natural, zero, suc, ◌+◌, ◌*◌, ◌<◌,
  some, List, [], ◌∷◌, Result, ok, err, ◌>>=◌, Text, text, trim_space, length, get_elem?,
  if◌then◌else◌, ◌≡◌, refl, ap, ◌∙◌, arith,
}
use wkbench.Units.Decimal.{name_at}
use wkbench.Units.Ports.{
  GroupChannel, or_default, UnitError, decode_failed, not_positive, makeslice_panics,
}

pub record Spec : Type 0 where
  pub count : ℤ
  pub members_per_channel : ℤ
  pub channel_prefix : Text
  pub uid_prefix : Text

-- The inner loop of Run, with `n` rounds left and `user_index` users so far
unfoldable pub members_from : Text → ℕ → ℕ → List Text
members_from prefix user_index zero = []
members_from prefix user_index (suc n) =
    name_at prefix user_index ∷ members_from prefix (suc user_index) n

-- The outer loop of Run from `channel_index` on, with `n` rounds left; a channel takes `size` users
unfoldable pub groups_from : Spec → ℕ → ℕ → ℕ → ℕ → List GroupChannel
unfolding members_from
groups_from spec size user_index channel_index zero = []
groups_from spec size user_index channel_index (suc n) =
    record {
      channel_id = name_at spec.channel_prefix channel_index;
      members = members_from spec.uid_prefix user_index size;
    }
    ∷ groups_from spec size (user_index + size) (suc channel_index) n

module _ {E : Type 0} (decode : Spec → Result E Spec) where
  -- decodeSpec; `decode` is env.DecodeSpec, on the struct with the defaults
  unfoldable pub decode_spec : Result (UnitError E) Spec
  decode_spec =
      elim (decode (record {
        count = pos 0;
        members_per_channel = pos 0;
        channel_prefix = text "group";
        uid_prefix = text "user";
      })) [
        | ok spec ↦ ok (record spec {
          channel_prefix = or_default (trim_space spec.channel_prefix) (text "group");
          uid_prefix = or_default (trim_space spec.uid_prefix) (text "user");
        })
        | err e ↦ err (decode_failed e)
      ]

  check_spec : Spec → Result {0, 0} (UnitError E) Unit
  check_spec spec =
      if is_nonpositive spec.count
      then err (not_positive (text "count"))
      else if is_nonpositive spec.members_per_channel
      then err (not_positive (text "members_per_channel"))
      else ok tt

  -- Validate
  unfoldable pub validate : Result {0, 0} (UnitError E) Unit
  unfolding decode_spec check_spec
  validate = decode_spec >>= check_spec

  -- The second `make` runs only if there is a channel. Of the panics of `make` only the one for a
  -- negative capacity is here, not the one for a capacity above the runtime's limit.
  make_groups : Spec → Result (UnitError E) (List GroupChannel)
  unfolding groups_from
  make_groups spec =
      if is_negative spec.count
      then err makeslice_panics
      else if is_nonpositive spec.count
      then ok []
      else if is_negative spec.members_per_channel
      then err makeslice_panics
      else ok (groups_from spec (natural spec.members_per_channel) 0 0 (natural spec.count))

  -- Run, with the value of the output `groups`
  unfoldable pub run : Result (UnitError E) (List GroupChannel)
  unfolding decode_spec make_groups
  run = decode_spec >>= make_groups

length-members_from : (prefix : Text) (i n : ℕ) → length (members_from prefix i n) ≡ n
unfolding members_from
length-members_from prefix i zero = refl
length-members_from prefix i (suc n) = ap suc (length-members_from prefix (suc i) n)

get_elem?-members_from :
    (prefix : Text) (i n k : ℕ)
    → k < n
    → get_elem? (members_from prefix i n) k ≡ some (name_at prefix (i + k))
unfolding members_from
get_elem?-members_from prefix i zero k l = absurd (omega arith)
get_elem?-members_from prefix i (suc n) zero l = ap (λ j. some (name_at prefix j)) (omega arith)
get_elem?-members_from prefix i (suc n) (suc k) l =
    get_elem?-members_from prefix (suc i) n k (omega arith)
    ∙ ap (λ j. some (name_at prefix j)) (omega arith)

-- The group at place `c`: its name, its size, and its members, which continue the count of users.
pub record IsGroup (spec : Spec) (size c : ℕ) (g : GroupChannel) : Type 0 where
  pub name : g.channel_id ≡ name_at spec.channel_prefix c
  pub full : length g.members ≡ size
  pub member :
      (m : ℕ) → m < size → get_elem? g.members m ≡ some (name_at spec.uid_prefix (c * size + m))

length-groups_from : (spec : Spec) (size u c n : ℕ) → length (groups_from spec size u c n) ≡ n
unfolding groups_from
length-groups_from spec size u c zero = refl
length-groups_from spec size u c (suc n) =
    ap suc (length-groups_from spec size (u + size) (suc c) n)

members_from-IsGroup :
    (spec : Spec) (size c : ℕ)
    → IsGroup spec size c (record {
      channel_id = name_at spec.channel_prefix c;
      members = members_from spec.uid_prefix (c * size) size;
    })
members_from-IsGroup spec size c = record {
  name = refl;
  full = length-members_from spec.uid_prefix (c * size) size;
  member = λ m l. get_elem?-members_from spec.uid_prefix (c * size) size m l;
}

get_elem?-groups_from :
    (spec : Spec) (size c n k : ℕ)
    → k < n
    → (g : GroupChannel) × (get_elem? (groups_from spec size (c * size) c n) k ≡ some g)
      × IsGroup spec size (c + k) g
unfolding groups_from
get_elem?-groups_from spec size c zero k l = absurd (omega arith)
get_elem?-groups_from spec size c (suc n) zero l =
    let z : c + 0 ≡ c = omega arith in (_, refl, rw z (members_from-IsGroup spec size c))
get_elem?-groups_from spec size c (suc n) (suc k) l =
    let next : c * size + size ≡ suc c * size = ground arith in
    let place : c + suc k ≡ suc c + k = omega arith in
    rw (next, place) (get_elem?-groups_from spec size (suc c) n k (omega arith))

-- What a run promises for its spec.
pub record IsGroupSet (spec : Spec) (groups : List GroupChannel) : Type 0 where
  pub size : pos (length groups) ≡ spec.count
  pub group :
      (c : ℕ)
      → c < length groups
      → (g : GroupChannel) × (get_elem? groups c ≡ some g)
        × IsGroup spec (natural spec.members_per_channel) c g

groups_from-IsGroupSet :
    (spec : Spec) (n : ℕ)
    → pos n ≡ spec.count
    → IsGroupSet spec (groups_from spec (natural spec.members_per_channel) 0 0 n)
groups_from-IsGroupSet spec n e =
    let members = natural spec.members_per_channel in
    let start : 0 * members ≡ 0 = omega arith in
    let same = length-groups_from spec members 0 0 n in
    record {
      size = ap pos same ∙ e;
      group = λ c l.
          let z : 0 + c ≡ c = omega arith in
          rw (z, start) at (get_elem?-groups_from spec members 0 n c (omega (arith, same)));
    }

make_groups-IsGroupSet :
    {E : Type 0} (decode : Spec → Result E Spec) (spec : Spec) (count members : ℤ)
    → check_spec decode (record spec { count = count; members_per_channel = members }) ≡ ok tt
    → (groups : List GroupChannel) × (make_groups decode
          (record spec { count = count; members_per_channel = members })
        ≡ ok groups)
      × IsGroupSet (record spec { count = count; members_per_channel = members }) groups
unfolding make_groups check_spec
make_groups-IsGroupSet decode spec (negsuc n) members c = absurd (cc)
make_groups-IsGroupSet decode spec (pos zero) members c = absurd (cc)
make_groups-IsGroupSet decode spec (pos (suc n)) (negsuc m) c =
    let z : (suc n == 0) ≡ false = ground arith in absurd (cc)
make_groups-IsGroupSet decode spec (pos (suc n)) (pos m) c =
    let z : (suc n == 0) ≡ false = ground arith in
    (
      groups_from (record spec { count = pos (suc n); members_per_channel = pos m }) m 0 0 (suc n),
      rw z refl,
      groups_from-IsGroupSet (record spec { count = pos (suc n); members_per_channel = pos m })
          (suc n) refl,
    )

accepted :
    {E : Type 0} (decode : Spec → Result E Spec) (r : Result (UnitError E) Spec)
    → (r >>= check_spec decode) ≡ ok tt
    → (spec : Spec) × (groups : List GroupChannel) × (r ≡ ok spec)
      × ((r >>= make_groups decode) ≡ ok groups)
      × IsGroupSet spec groups
accepted decode (err e) v = absurd (cc)
accepted decode (ok spec) v =
    let (groups, made, good) =
      make_groups-IsGroupSet decode spec spec.count spec.members_per_channel v in
    (spec, groups, refl, made, good)

-- If Validate accepts the spec, Run produces as many groups as the spec says, the c-th of them named
-- by the normalized channel prefix and c, with as many members as the spec says, the m-th of them
-- named by the normalized user prefix and c times that many plus m.
pub run-IsGroupSet :
    {E : Type 0} (decode : Spec → Result E Spec)
    → validate decode ≡ ok tt
    → (spec : Spec) × (groups : List GroupChannel) × (decode_spec decode ≡ ok spec)
      × (run decode ≡ ok groups)
      × IsGroupSet spec groups
unfolding validate run
run-IsGroupSet decode v = accepted decode (decode_spec decode) v
