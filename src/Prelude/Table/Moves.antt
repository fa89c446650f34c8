-- ===== src/Prelude/Table/Moves.antt =====
-- What an UPDATE makes of each row, forwards and backwards, in terms of a relation of rows.
use Prim.Native.String.{String}
use mathlib.Core.Path.{◌≡◌, refl, sym}
use mathlib.Core.Logic.{inl, inr}
use mathlib.Core.Bool.{Bool, true}
use mathlib.Core.Option.{Option, none, some}
use mathlib.Core.List.{List, [], ◌∷◌}
use native.Mathlib.Omega.{arith}
use text.Mathlib.TextEquality.{eq_iff}
use ai_jsunpack.Prelude.Tests.{if◌then◌else◌, str_eq, Bool-cases}
use ai_jsunpack.Prelude.Lists.{All}
use ai_jsunpack.Prelude.Table.{find, update, touched, find-update_self, find-update_ne}

module _ {R : Type 0} (key : R → String) where
  -- Each row of the first table is a row of the second, related to what it was.
  abbrev pub Evolves : (R → R → Type 0) → List R → List R → Type 0
  Evolves Q rs rs' =
      (j : String) (r : R) → find key j rs ≡ some r → (r' : R) × (find key j rs' ≡ some r') × Q r r'

  -- Each row of the second table was a row of the first.
  abbrev pub Descends : (R → R → Type 0) → List R → List R → Type 0
  Descends Q rs rs' =
      (j : String) (r' : R) → find key j rs' ≡ some r' → (r : R) × (find key j rs ≡ some r) × Q r r'

  -- A row that is found has what holds of all.
  pub All-find {ℓ} :
      (P : R → Type ℓ) (rs : List R) (j : String) (r : R) → All P rs → find key j rs ≡ some r → P r
  unfolding find
  All-find P [] j r h e = absurd (cc e)
  All-find P (x ∷ xs) j r h e = elim (Bool-cases (str_eq j (key x))) [
    | inl here ↦ let same : x ≡ r = ground (arith, here, e) in rw (sym same) h.0
    | inr there ↦ All-find P xs j r h.1 (ground (arith, there, e))
  ]

module _ {R : Type 0} (key : R → String) (Q : R → R → Type 0) (reflexive : (r : R) → Q r r)
    (k : String) (p : R → Bool) (f : R → R) (rs : List R) (hf : (r : R) → key (f r) ≡ key r)
    (step : (r : R) → find key k rs ≡ some r → p r ≡ true → Q r (f r)) where
  touched-Q : (r : R) → find key k rs ≡ some r → Q r (if p r then f r else r)
  touched-Q r e = elim (Bool-cases (p r)) [
    | inl passes ↦ rw passes (step r e passes)
    | inr fails ↦ rw fails (reflexive r)
  ]

  pub Evolves-update : Evolves key Q rs (update key k p f rs)
  Evolves-update j r e = elim (Bool-cases (str_eq k j)) [
    | inl same ↦
        let e' : find key k rs ≡ some r = rw ((eq_iff k j).0 same) e in
        (
          if p r then f r else r,
          rw (sym ((eq_iff k j).0 same)) (rw (find-update_self key k p f rs hf) (rw e')),
          touched-Q r e',
        )
    | inr ne ↦ (r, rw (find-update_ne key k j p f rs hf ne) e, reflexive r)
  ]

  touched_back :
      (r' : R) (o : Option R)
      → find key k rs ≡ o
      → touched p f o ≡ some r'
      → (r : R) × (find key k rs ≡ some r) × Q r r'
  touched_back r' none e h = absurd (cc h)
  touched_back r' (some r) e h =
      let same : (if p r then f r else r) ≡ r' = ground (arith, h) in
      (r, e, rw (sym same) (touched-Q r e))

  pub Descends-update : Descends key Q rs (update key k p f rs)
  Descends-update j r' e = elim (Bool-cases (str_eq k j)) [
    | inl same ↦
        let e' : find key k (update key k p f rs) ≡ some r' = rw (← (eq_iff k j).0 same) at e in
        let back =
          touched_back r' (find key k rs) refl (rw (find-update_self key k p f rs hf) at e') in
        (back.0, rw (sym ((eq_iff k j).0 same)) back.1, back.2)
    | inr ne ↦ (r', rw (find-update_ne key k j p f rs hf ne) at e, reflexive r')
  ]

module _ {R : Type 0} (key : R → String) (Q : R → R → Type 0)
    (transitive : (a b c : R) → Q a b → Q b c → Q a c) (xs ys zs : List R) where
  pub Evolves-trans : Evolves key Q xs ys → Evolves key Q ys zs → Evolves key Q xs zs
  Evolves-trans h h' j r e =
      let (s, es, qs) = h j r e in let (u, eu, qu) = h' j s es in (u, eu, transitive r s u qs qu)

  pub Descends-trans : Descends key Q xs ys → Descends key Q ys zs → Descends key Q xs zs
  Descends-trans h h' j r e =
      let (s, es, qs) = h' j r e in let (u, eu, qu) = h j s es in (u, eu, transitive u s r qu qs)
