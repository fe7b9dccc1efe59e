-- ===== src/Base/Sort.antt =====
-- sort.Strings: the ascending list of the same strings, by insertion.

use mathlib.Core.List.{Permᴰ}
use mathlib.Core.Logic.{∥∥₁_elim}
use mathlib.Core.Path.{◌≡◌, refl, ◌∙◌}
use mathlib.Core.Bool.{◌||◌}
use mathlib.Core.List.{List, [], ◌∷◌, Perm}
use native.Mathlib.Omega.{arith}
use native.Mathlib.Nat.{ℕ_set}
use wkbench.Base.Lists.{length}
use wkbench.Base.Tests.{if◌then◌else◌}
use wkbench.Base.Texts.{
  Text, text_eq, text_leb, text_leb_total, text_leb_antisymm, text_leb_trans, contains,
}

sorted_insert : Text → List Text → List Text
sorted_insert s [] = s ∷ []
sorted_insert s (t ∷ ts) = if text_leb s t then s ∷ t ∷ ts else t ∷ sorted_insert s ts

unfoldable pub sort : List Text → List Text
unfolding sorted_insert
sort [] = []
sort (s ∷ ss) = sorted_insert s (sort ss)

contains-sorted_insert :
    (x s : Text) (ts : List Text) → contains x (sorted_insert s ts) ≡ (text_eq x s || contains x ts)
unfolding sorted_insert contains
contains-sorted_insert x s [] = refl
contains-sorted_insert x s (t ∷ ts) = ground (arith, contains-sorted_insert x s ts)

-- Sorting keeps the strings.
pub contains-sort : (x : Text) (ts : List Text) → contains x (sort ts) ≡ contains x ts
unfolding sort contains
contains-sort x [] = refl
contains-sort x (t ∷ ts) = ground (arith, contains-sorted_insert x t (sort ts), contains-sort x ts)

-- Two insertions commute, so the sorted list does not depend on the order of its input.
sorted_insert_comm :
    (s t : Text) (us : List Text)
    → sorted_insert s (sorted_insert t us) ≡ sorted_insert t (sorted_insert s us)
unfolding sorted_insert
sorted_insert_comm s t [] = ground (arith, text_leb_total s t, text_leb_antisymm s t)
sorted_insert_comm s t (u ∷ us) = ground (
  arith,
  text_leb_total s t,
  text_leb_antisymm s t,
  text_leb_total s u,
  text_leb_total t u,
  text_leb_trans s t u,
  text_leb_trans t s u,
  sorted_insert_comm s t us,
  text_leb_trans s u t,
  text_leb_trans t u s,
)

sort-permᴰ : {ss ts : List Text} → Permᴰ ss ts → sort ss ≡ sort ts
unfolding sort
sort-permᴰ Permᴰ.nil = refl
sort-permᴰ (Permᴰ.cons e d) = cc (sort-permᴰ d)
sort-permᴰ (Permᴰ.swap {a = a} {b = b} {l = l} e f) = cc (sorted_insert_comm a b (sort l))
sort-permᴰ (Permᴰ.trans d d') = sort-permᴰ d ∙ sort-permᴰ d'

texts_set : IsSet (List Text)
texts_set = hlevel

pub sort-perm : {ss ts : List Text} → Perm ss ts → sort ss ≡ sort ts
sort-perm p = ∥∥₁_elim p (texts_set _ _) sort-permᴰ

length-permᴰ : {ss ts : List Text} → Permᴰ ss ts → length ss ≡ length ts
length-permᴰ Permᴰ.nil = refl
length-permᴰ (Permᴰ.cons e d) = omega (arith, length-permᴰ d)
length-permᴰ (Permᴰ.swap e f) = refl
length-permᴰ (Permᴰ.trans d d') = length-permᴰ d ∙ length-permᴰ d'

pub length-perm : {ss ts : List Text} → Perm ss ts → length ss ≡ length ts
length-perm p = ∥∥₁_elim p (ℕ_set _ _) length-permᴰ
