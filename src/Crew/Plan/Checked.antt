-- ===== src/Crew/Plan/Checked.antt =====
-- What the checks of `validate_specs` on names, stages and dependencies show of the agents.
use mathlib.Core.Path.{subst}
use ai_jsunpack.Prelude.{
  ℕ, ◌≡◌, ◌<◌, refl, String, Option, none, some, List, [], ◌∷◌, leb, str_eq, All, Bool-cases,
  Option-cases, inl, inr, arith,
}
use ai_jsunpack.Crew.Specs.{CrewAgentSpec}
use ai_jsunpack.Crew.Plan.{
  Planned, planned, refused, bind_planned, stage_index, by_name, check_stage, check_dependency,
  check_dependencies, check_spec, check_each,
}

-- The agent is specified, in the stage of this index.
pub record IsAt (specs : List CrewAgentSpec) (order : List String) (name : String) (i : ℕ)
    : Type 0 where
  pub spec : CrewAgentSpec
  pub found : by_name name specs ≡ some spec
  pub index : stage_index spec.stage order ≡ some i

abbrev pub IsBelow : List CrewAgentSpec → List String → ℕ → String → Type 0
IsBelow specs order own name = (i : ℕ) × IsAt specs order name i × (i < own)

-- The stage of a specification is known, and each of its dependencies is in an earlier one.
pub record IsStaged (specs : List CrewAgentSpec) (order : List String) (s : CrewAgentSpec)
    : Type 0 where
  pub own : ℕ
  pub index : stage_index s.stage order ≡ some own
  pub below : All (IsBelow specs order own) s.dependencies

pub bind_planned-planned :
    {A B : Type 0} (m : Planned A) (f : A → Planned B) {b : B}
    → bind_planned m f ≡ planned b
    → (a : A) × (m ≡ planned a) × (f a ≡ planned b)
unfolding bind_planned
bind_planned-planned (planned a) f h = (a, refl, h)
bind_planned-planned (refused e) f h = cc

pub bind_planned-eq :
    {A B : Type 0} (m : Planned A) (f : A → Planned B) {a : A}
    → m ≡ planned a
    → bind_planned m f ≡ f a
unfolding bind_planned
bind_planned-eq m f h = rw h refl

module _ (specs : List CrewAgentSpec) (order : List String) where
  check_stage-planned :
      (name dependency : String) (own : ℕ) (o : Option ℕ) (stage : String)
      → check_stage name dependency own o stage ≡ planned tt
      → (i : ℕ) × (o ≡ some i) × (i < own)
  unfolding check_stage
  check_stage-planned name dependency own none stage h = cc
  check_stage-planned name dependency own (some i) stage h = elim (Bool-cases (leb own i)) [
    | inl e ↦ cc (rw e at h)
    | inr e ↦ (i, refl, ground (arith, e))
  ]

  check_dependency-planned :
      (name : String) (own : ℕ) (d : String)
      → check_dependency specs order name own d ≡ planned tt
      → IsBelow specs order own d
  unfolding check_dependency
  check_dependency-planned name own d h = elim (Option-cases (by_name d specs)) [
    | inl e ↦ cc (rw (e, check_dependency) at h)
    | inr (s, e) ↦
        let (i, index, below) =
          check_stage-planned name d own (stage_index s.stage order) s.stage
            (rw (e, check_dependency) at h) in
        (i, record { spec = s; found = e; index = index }, below)
  ]

  check_dependencies-planned :
      (name : String) (own : ℕ) (ds : List String)
      → check_dependencies specs order name own ds ≡ planned tt
      → All (IsBelow specs order own) ds
  unfolding check_dependencies
  check_dependencies-planned name own [] h = tt
  check_dependencies-planned name own (d ∷ rest) h =
      let (_, first, more) = bind_planned-planned (check_dependency specs order name own d) _ h in
      (check_dependency-planned name own d first, check_dependencies-planned name own rest more)

  check_spec-planned :
      (s : CrewAgentSpec) → check_spec specs order s ≡ planned tt → IsStaged specs order s
  unfolding check_spec
  check_spec-planned s h = elim (Option-cases (stage_index s.stage order)) [
    | inl e ↦ cc (rw (e, check_spec) at h)
    | inr (own, e) ↦ record {
      own = own;
      index = e;
      below = check_dependencies-planned s.name own s.dependencies (rw (e, check_spec) at h);
    }
  ]

  pub check_each-planned :
      (ss : List CrewAgentSpec)
      → check_each specs order ss ≡ planned tt
      → All (IsStaged specs order) ss
  unfolding check_each
  check_each-planned [] h = tt
  check_each-planned (s ∷ rest) h =
      let (_, first, more) = bind_planned-planned (check_spec specs order s) _ h in
      (check_spec-planned s first, check_each-planned rest more)

pub some_inj : {A : Type 0} (a b : A) → some a ≡ some b → a ≡ b
some_inj a b h = cc h

pub by_name-All :
    (P : CrewAgentSpec → Type 0) (name : String) (ss : List CrewAgentSpec) (s : CrewAgentSpec)
    → by_name name ss ≡ some s
    → All P ss
    → P s
unfolding by_name
by_name-All P name [] s h hs = cc
by_name-All P name (x ∷ rest) s h hs = elim (Bool-cases (str_eq name x.name)) [
  | inl e ↦ subst P (some_inj x s (rw e at h)) hs.0
  | inr e ↦ by_name-All P name rest s (rw e at h) hs.1
]
