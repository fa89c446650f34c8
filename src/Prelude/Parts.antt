-- ===== src/Prelude/Parts.antt =====
-- Python's `str.split` and `str.join` at one character, and the first part of `str.partition`.
use Prim.Native.Char.{Char, code}
use Prim.Native.String.{String, ◌++◌ as text_append}
use mathlib.Core.Path.{◌≡◌, refl, sym, ap, ◌∙◌}
use mathlib.Core.Logic.{inl, inr}
use mathlib.Core.Bool.{true, false}
use mathlib.Core.List.{List, [], ◌∷◌}
use native.Mathlib.Omega.{arith}
use text.Mathlib.TextLemmas.{cons-append, nil-append}
use text.Mathlib.TextEquality.{Char-path}
use ai_jsunpack.Prelude.Tests.{◌==◌, if◌then◌else◌, Bool-cases}

abbrev pub chars : Char → String
chars c = String.◌∷◌ c String.[]

-- One more character in front of the first part.
abbrev grow : Char → List String → List String
grow c [] = chars c ∷ []
grow c (p ∷ ps) = String.◌∷◌ c p ∷ ps

-- `text.split(sep)`
unfoldable pub split : Char → String → List String
split sep String.[] = "" ∷ []
split sep (String.◌∷◌ c s) =
    let rest = split sep s in if code c == code sep then "" ∷ rest else grow c rest

-- `sep.join(parts)`
unfoldable pub join : Char → List String → String
join sep [] = ""
join sep (p ∷ []) = p
join sep (p ∷ q ∷ ps) = text_append p (String.◌∷◌ sep (join sep (q ∷ ps)))

abbrev pub Lacks : Char → String → Type 0
Lacks sep String.[] = Unit
Lacks sep (String.◌∷◌ c s) = ((code c == code sep) ≡ false) × Lacks sep s

pub split-Lacks : (sep : Char) (s : String) → Lacks sep s → split sep s ≡ s ∷ []
unfolding split
split-Lacks sep String.[] h = refl
split-Lacks sep (String.◌∷◌ c s) h = rw (split-Lacks sep s h.1) (rw h.0 refl)

same_code : (sep : Char) → (code sep == code sep) ≡ true
same_code sep = ground arith

pub split-append :
    (sep : Char) (p rest : String)
    → Lacks sep p
    → split sep (text_append p (String.◌∷◌ sep rest)) ≡ p ∷ split sep rest
unfolding split
split-append sep String.[] rest h = rw (nil-append (String.◌∷◌ sep rest)) (rw (same_code sep) refl)
split-append sep (String.◌∷◌ c s) rest h =
    rw (cons-append c s (String.◌∷◌ sep rest)) (rw (split-append sep s rest h.1) (rw h.0 refl))

join-grow :
    (sep c : Char) (p : String) (ps : List String)
    → join sep (String.◌∷◌ c p ∷ ps) ≡ String.◌∷◌ c (join sep (p ∷ ps))
unfolding join
join-grow sep c p [] = refl
join-grow sep c p (q ∷ ps) = cons-append c p (String.◌∷◌ sep (join sep (q ∷ ps)))

grow-cons : (c : Char) (ps : List String) → (q : String) × (qs : List String) × (grow c ps ≡ q ∷ qs)
grow-cons c [] = (_, _, refl)
grow-cons c (p ∷ ps) = (_, _, refl)

split-cons : (sep : Char) (s : String) → (p : String) × (ps : List String) × (split sep s ≡ p ∷ ps)
unfolding split
split-cons sep String.[] = (_, _, refl)
split-cons sep (String.◌∷◌ c s) = elim (Bool-cases (code c == code sep)) [
  | inl e ↦ ("", split sep s, rw e refl)
  | inr e ↦ let (q, qs, h) = grow-cons c (split sep s) in (q, qs, rw e h)
]

-- Joining the parts of a split gives the text back.
pub join-split : (sep : Char) (s : String) → join sep (split sep s) ≡ s
unfolding split join
join-split sep String.[] = refl
join-split sep (String.◌∷◌ c s) =
    let (p, ps, e) = split-cons sep s in
    let ih : join sep (p ∷ ps) ≡ s = ap (join sep) (sym e) ∙ join-split sep s in
    elim (Bool-cases (code c == code sep)) [
      | inl here ↦
          let same : c ≡ sep = Char-path c sep (ground (arith, here)) in
          rw here (
            rw e (
              nil-append (String.◌∷◌ sep (join sep (p ∷ ps)))
              ∙ ap (λ t. String.◌∷◌ sep t) ih
              ∙ ap (λ d. String.◌∷◌ d s) (sym same)))
      | inr other ↦ rw other (rw e (join-grow sep c p ps ∙ ap (λ t. String.◌∷◌ c t) ih))
    ]
