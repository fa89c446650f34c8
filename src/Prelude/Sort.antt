-- ===== src/Prelude/Sort.antt =====
-- ORDER BY as an insertion sort, with the test of the order as an argument.
use mathlib.Core.Path.{◌≡◌}
use mathlib.Core.Bool.{Bool, true, false}
use mathlib.Core.List.{List, [], ◌∷◌}
use mathlib.Core.Logic.{inl, inr}
use ai_jsunpack.Prelude.Tests.{if◌then◌else◌, Bool-cases}
use ai_jsunpack.Prelude.Lists.{All}

module _ {A : Type 0} (before : A → A → Bool) where
  unfoldable pub place : A → List A → List A
  place j [] = j ∷ []
  place j (k ∷ ks) = if before j k then j ∷ k ∷ ks else k ∷ place j ks

  unfoldable pub order_by : List A → List A
  unfolding place
  order_by [] = []
  order_by (j ∷ js) = place j (order_by js)

  -- The rows that follow the first come after it, and so on down.
  abbrev pub IsOrdered : List A → Type 0
  IsOrdered [] = Unit
  IsOrdered (j ∷ js) = All (λ k. before j k ≡ true) js × IsOrdered js

-- Ordering keeps what holds of every row, both ways.
module _ {ℓ} {A : Type 0} (before : A → A → Bool) (P : A → Type ℓ) where
  All-place : (j : A) (ks : List A) → P j → All P ks → All P (place before j ks)
  unfolding place
  All-place j [] h hs = (h, tt)
  All-place j (k ∷ ks) h hs = elim (Bool-cases (before j k)) [
    | inl e ↦ rw e (h, hs)
    | inr e ↦ rw e (hs.0, All-place j ks h hs.1)
  ]

  pub All-order_by : (js : List A) → All P js → All P (order_by before js)
  unfolding order_by
  All-order_by [] h = tt
  All-order_by (j ∷ js) h = All-place j (order_by before js) h.0 (All-order_by js h.1)

  All-unplace : (j : A) (ks : List A) → All P (place before j ks) → P j × All P ks
  unfolding place
  All-unplace j [] h = h
  All-unplace j (k ∷ ks) h = elim (Bool-cases (before j k)) [
    | inl e ↦ rw e at h
    | inr e ↦
        let h' : P k × All P (place before j ks) = rw e at h in
        let rest = All-unplace j ks h'.1 in (rest.0, (h'.0, rest.1))
  ]

  pub All-of_order_by : (js : List A) → All P (order_by before js) → All P js
  unfolding order_by
  All-of_order_by [] h = tt
  All-of_order_by (j ∷ js) h =
      let parts = All-unplace j (order_by before js) h in (parts.0, All-of_order_by js parts.1)

-- Under a total preorder the result is in order.
module _ {A : Type 0} (before : A → A → Bool)
    (total : (a b : A) → before a b ≡ false → before b a ≡ true)
    (trans : (a b c : A) → before a b ≡ true → before b c ≡ true → before a c ≡ true) where
  All-before :
      (a b : A) (ks : List A)
      → before a b ≡ true
      → All (λ k. before b k ≡ true) ks
      → All (λ k. before a k ≡ true) ks
  All-before a b [] h hs = tt
  All-before a b (k ∷ ks) h hs = (trans a b k h hs.0, All-before a b ks h hs.1)

  place-IsOrdered :
      (j : A) (ks : List A) → IsOrdered before ks → IsOrdered before (place before j ks)
  unfolding place
  place-IsOrdered j [] h = (tt, tt)
  place-IsOrdered j (k ∷ ks) h = elim (Bool-cases (before j k)) [
    | inl e ↦ rw e ((e, All-before j k ks e h.0), h)
    | inr e ↦
        rw e (
          All-place before (λ x. before k x ≡ true) j ks (total j k e) h.0,
          place-IsOrdered j ks h.1,
        )
  ]

  pub order_by-IsOrdered : (js : List A) → IsOrdered before (order_by before js)
  unfolding order_by
  order_by-IsOrdered [] = tt
  order_by-IsOrdered (j ∷ js) = place-IsOrdered j (order_by before js) (order_by-IsOrdered js)
