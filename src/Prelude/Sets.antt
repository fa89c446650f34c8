-- ===== src/Prelude/Sets.antt =====
-- Sets of texts, as `sorted` lists them.
use Prim.Native.String.{String, compare}
use Prim.Native.Nat.{Ordering}
use Prim.Native.Nat.{◌≤◌}
use mathlib.Core.Path.{◌≡◌, refl}
use mathlib.Core.Bool.{true, false, ◌||◌}
use mathlib.Core.Logic.{inl, inr}
use mathlib.Core.List.{List, [], ◌∷◌}
use native.Mathlib.Omega.{arith}
use text.Mathlib.TextEquality.{eq_iff}
use ai_jsunpack.Prelude.Tests.{str_eq, str_eq_refl, Bool-cases}
use ai_jsunpack.Prelude.Lists.{contains, length}

-- Into a sorted list without repetitions
unfoldable pub insert_text : String → List String → List String
insert_text a [] = a ∷ []
insert_text a (b ∷ rest) = elim (compare a b) [
  | Ordering.lt ↦ a ∷ b ∷ rest
  | Ordering.eq ↦ b ∷ rest
  | Ordering.gt ↦ b ∷ insert_text a rest
]

-- `sorted(set(texts))`
unfoldable pub sorted_set : List String → List String
unfolding insert_text
sorted_set [] = []
sorted_set (a ∷ rest) = insert_text a (sorted_set rest)

insert_text-nil : (a : String) (xs : List String) {A : Type 0} → insert_text a xs ≡ [] → A
unfolding insert_text
insert_text-nil a [] h = cc h
insert_text-nil a (b ∷ rest) h = go (compare a b) h
  where
    go :
        (o : Ordering) {A : Type 0}
        → (elim o [
          | Ordering.lt ↦ a ∷ b ∷ rest
          | Ordering.eq ↦ b ∷ rest
          | Ordering.gt ↦ b ∷ insert_text a rest
        ])
          ≡ []
        → A
    go Ordering.lt k = cc k
    go Ordering.eq k = cc k
    go Ordering.gt k = cc k

-- Only the empty list has no elements.
pub sorted_set-nil : (xs : List String) → sorted_set xs ≡ [] → xs ≡ []
unfolding sorted_set
sorted_set-nil [] h = h
sorted_set-nil (a ∷ rest) h = insert_text-nil a (sorted_set rest) h

contains-insert_text :
    (v a : String) (xs : List String)
    → (str_eq v a || contains v xs) ≡ true
    → contains v (insert_text a xs) ≡ true
unfolding insert_text
contains-insert_text v a [] h = h
contains-insert_text v a (b ∷ rest) h = go (contains-insert_text v a rest) (compare a b) refl
  where
    go :
        ((str_eq v a || contains v rest) ≡ true → contains v (insert_text a rest) ≡ true)
        → (o : Ordering) → compare a b ≡ o
        → contains v (elim o [
          | Ordering.lt ↦ a ∷ b ∷ rest
          | Ordering.eq ↦ b ∷ rest
          | Ordering.gt ↦ b ∷ insert_text a rest
        ])
          ≡ true
    go more Ordering.lt e = h
    go more Ordering.eq e =
        let same : a ≡ b = (eq_iff a b).0 (rw e refl) in ground (arith, rw same at h)
    go more Ordering.gt e = elim (Bool-cases (str_eq v b)) [
      | inl here ↦ rw here refl
      | inr there ↦ rw there (more (ground (arith, h, there)))
    ]

pub contains-sorted_set :
    (v : String) (xs : List String) → contains v xs ≡ true → contains v (sorted_set xs) ≡ true
unfolding sorted_set
contains-sorted_set v [] h = cc h
contains-sorted_set v (a ∷ rest) h =
    contains-insert_text v a (sorted_set rest) (ground (arith, h, contains-sorted_set v rest))

-- Two elements that differ make a list of at least two.
pub length-contains :
    (v w : String) (xs : List String)
    → contains v xs ≡ true
    → contains w xs ≡ true
    → str_eq v w ≡ false
    → 2 ≤ length xs
length-contains v w [] hv hw other = cc hv
length-contains v w (x ∷ []) hv hw other =
    let one : v ≡ x = (eq_iff v x).0 (ground (arith, hv)) in
    let two : w ≡ x = (eq_iff w x).0 (ground (arith, hw)) in cc (one, two, other, str_eq_refl x)
length-contains v w (x ∷ y ∷ rest) hv hw other = omega arith
