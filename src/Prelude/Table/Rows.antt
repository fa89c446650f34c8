-- ===== src/Prelude/Table/Rows.antt =====
-- The rows of a keyed table, seen as a list and through SELECT.
use Prim.Native.String.{String}
use mathlib.Core.Path.{◌≡◌, refl, ◌∙◌}
use mathlib.Core.Logic.{inl, inr}
use mathlib.Core.Bool.{Bool, true, false}
use mathlib.Core.Option.{Option, none, some}
use mathlib.Core.List.{List, [], ◌∷◌}
use native.Mathlib.Omega.{arith}
use text.Mathlib.TextEquality.{eq_iff}
use ai_jsunpack.Prelude.Tests.{if◌then◌else◌, str_eq_refl, Bool-cases, ◌==◌}
use ai_jsunpack.Prelude.Lists.{All, filter}
use ai_jsunpack.Prelude.Table.{
  find, update, rowcount, IsFresh, IsKeyed, IsFresh-find, find-IsFresh, rowcount-IsFresh,
  find-update_self, find-update_ne,
}

module _ {R : Type 0} (key : R → String) where
  -- Each row of the list is the one that SELECT finds under its key.
  abbrev pub AreRows : List R → List R → Type 0
  AreRows rows table = All (λ r. find key (key r) table ≡ some r) rows

  AreRows-cons :
      (x : R) (rows table : List R)
      → IsFresh key (key x) rows
      → AreRows rows table
      → AreRows rows (x ∷ table)
  unfolding find
  AreRows-cons x [] table fresh h = tt
  AreRows-cons x (r ∷ rows) table fresh h = (
    ground (arith, eq_iff (key r) (key x), eq_iff (key x) (key r), fresh.0, h.0),
    AreRows-cons x rows table fresh.1 h.1,
  )

  pub AreRows-self : (table : List R) → IsKeyed key table → AreRows table table
  unfolding find
  AreRows-self [] h = tt
  AreRows-self (x ∷ xs) h =
      (ground (arith, str_eq_refl (key x)), AreRows-cons x xs xs h.0 (AreRows-self xs h.1))

  -- An UPDATE that touches a row leaves a row of that key.
  pub find-update-some :
      (k : String) (p : R → Bool) (f : R → R) (rs : List R)
      → ((r : R) → key (f r) ≡ key r)
      → (rowcount key k p rs == 0) ≡ false
      → (r : R) × (find key k (update key k p f rs) ≡ some r)
  find-update-some k p f rs hf h = go (find key k rs) refl
    where
      go :
          (o : Option R) → find key k rs ≡ o → (r : R) × (find key k (update key k p f rs) ≡ some r)
      go none e = absurd (ground (arith, h, rowcount-IsFresh key k p rs (IsFresh-find key k rs e)))
      go (some r) e = (if p r then f r else r, ground (arith, e, find-update_self key k p f rs hf))

module _ {ℓ} {A : Type 0} (P : A → Type ℓ) where
  pub All-filter : (p : A → Bool) (xs : List A) → All P xs → All P (filter p xs)
  All-filter p [] h = tt
  All-filter p (x ∷ xs) h = elim (Bool-cases (p x)) [
    | inl e ↦ rw e (h.0, All-filter p xs h.1)
    | inr e ↦ rw e (All-filter p xs h.1)
  ]

-- What a filter keeps passes its test.
pub filter_passes : {A : Type 0} (p : A → Bool) (xs : List A) → All (λ x. p x ≡ true) (filter p xs)
filter_passes p [] = tt
filter_passes p (x ∷ xs) = elim (Bool-cases (p x)) [
  | inl e ↦ rw e (e, filter_passes p xs)
  | inr e ↦ rw e (filter_passes p xs)
]

-- What holds of the rows that a filter keeps holds of every row that passes its test.
pub All-of_filter {ℓ} :
    {A : Type 0} (P : A → Type ℓ) (p : A → Bool) (xs : List A)
    → All P (filter p xs)
    → All (λ x. p x ≡ true → P x) xs
All-of_filter P p [] h = tt
All-of_filter P p (x ∷ xs) h = elim (Bool-cases (p x)) [
  | inl e ↦
      let h' : P x × All P (filter p xs) = rw e at h in ((λ _. h'.0), All-of_filter P p xs h'.1)
  | inr e ↦
      let h' : All P (filter p xs) = rw e at h in
      ((λ passes. absurd (cc (e, passes))), All-of_filter P p xs h')
]

-- A SELECT's rows have distinct keys too, and are found as the table finds them.
module _ {R : Type 0} (key : R → String) where
  IsFresh-filter :
      (k : String) (p : R → Bool) (rs : List R) → IsFresh key k rs → IsFresh key k (filter p rs)
  IsFresh-filter k p [] h = tt
  IsFresh-filter k p (x ∷ xs) h = elim (Bool-cases (p x)) [
    | inl e ↦ rw e (h.0, IsFresh-filter k p xs h.1)
    | inr e ↦ rw e (IsFresh-filter k p xs h.1)
  ]

  pub IsKeyed-filter : (p : R → Bool) (rs : List R) → IsKeyed key rs → IsKeyed key (filter p rs)
  IsKeyed-filter p [] h = tt
  IsKeyed-filter p (x ∷ xs) h = elim (Bool-cases (p x)) [
    | inl e ↦ rw e (IsFresh-filter (key x) p xs h.0, IsKeyed-filter p xs h.1)
    | inr e ↦ rw e (IsKeyed-filter p xs h.1)
  ]

  abbrev pub kept : (R → Bool) → Option R → Option R
  kept p none = none
  kept p (some r) = if p r then some r else none

  pub find-filter :
      (k : String) (p : R → Bool) (rs : List R)
      → IsKeyed key rs
      → find key k (filter p rs) ≡ kept p (find key k rs)
  unfolding find
  find-filter k p [] h = refl
  find-filter k p (x ∷ xs) h = ground (
    arith,
    eq_iff k (key x),
    find-filter k p xs h.1,
    find-IsFresh key k xs,
    λ (e : k ≡ key x). (let fresh : IsFresh key k xs = rw e h.0 in find-IsFresh key k xs fresh),
  )

  pub AreRows-update :
      (k : String) (p : R → Bool) (f : R → R) (rows table : List R)
      → ((r : R) → key (f r) ≡ key r)
      → IsFresh key k rows
      → AreRows key rows table
      → AreRows key rows (update key k p f table)
  AreRows-update k p f [] table hf fresh h = tt
  AreRows-update k p f (x ∷ xs) table hf fresh h = (
    find-update_ne key k (key x) p f table hf fresh.0 ∙ h.0,
    AreRows-update k p f xs table hf fresh.1 h.1,
  )
