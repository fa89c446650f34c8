-- ===== src/Crew/Plan/Forward.antt =====
-- No group of `build_stage_order` holds an agent on which it, or an earlier group, depends.
use ai_jsunpack.Prelude.{
  ℕ, ◌≡◌, refl, sym, ◌∙◌, ap, String, Bool, true, false, ◌||◌, some, List, [], ◌∷◌, ◌++◌, map,
  str_eq, contains, filter, All, Bool-cases, inl, inr, arith, eq_iff,
}
use ai_jsunpack.Crew.Specs.{CrewAgentSpec}
use ai_jsunpack.Crew.Plan.{
  planned, stage_index, by_name, name_of, are_distinct, in_stage, stage_names, stages_of,
  check_specs, build_stage_order,
}
use ai_jsunpack.Crew.Plan.Checked.{IsBelow, IsStaged, some_inj}
use ai_jsunpack.Crew.Plan.Visits.{All-map, check_specs-IsStaged}
use ai_jsunpack.Crew.Plan.Indexes.{stage_index-before, stage_index-at, are_distinct-after}
use ai_jsunpack.Crew.Plan.Stages.{agents_of, All-filter, append_one, build_stage_order-planned}

-- The dependencies of each group stand neither in it nor in a later one.
abbrev pub AreForward : List (String × List CrewAgentSpec) → Type 0
AreForward [] = Unit
AreForward ((stage, group) ∷ rest) =
    All
      (λ (s : CrewAgentSpec).
        All (λ d. contains d (map name_of group ++ agents_of rest) ≡ false) s.dependencies)
      group
    × AreForward rest

pub contains-append :
    (v : String) (xs ys : List String) → contains v (xs ++ ys) ≡ (contains v xs || contains v ys)
contains-append v [] ys = refl
contains-append v (x ∷ rest) ys = ground (arith, contains-append v rest ys)

are_distinct-apart :
    (x : String) (pre rest : List String)
    → are_distinct (pre ++ rest) ≡ true
    → contains x pre ≡ true
    → contains x rest ≡ false
unfolding are_distinct
are_distinct-apart x [] rest h k = cc k
are_distinct-apart x (y ∷ pre) rest h k = elim (Bool-cases (str_eq x y)) [
  | inr e ↦ are_distinct-apart x pre rest (ground (arith, h)) (rw e at k)
  | inl e ↦
      let absent : contains y (pre ++ rest) ≡ false = ground (arith, h) in
      rw ((eq_iff x y).0 e) (ground (arith, sym (contains-append y pre rest) ∙ absent))
]

pub contains-filter :
    (name : String) (p : CrewAgentSpec → Bool) (ss : List CrewAgentSpec)
    → contains name (map name_of ss) ≡ false
    → contains name (map name_of (filter p ss)) ≡ false
contains-filter name p [] h = refl
contains-filter name p (x ∷ rest) h =
    let tail = contains-filter name p rest (ground (arith, h)) in
    let head : str_eq name x.name ≡ false = ground (arith, h) in
    elim (Bool-cases (p x)) [ inl e ↦ rw (e, head) tail | inr e ↦ rw e tail ]

-- With distinct names, an agent of a stage is the one that its name finds.
found_elsewhere :
    (stage name : String) (t : CrewAgentSpec) (ss : List CrewAgentSpec)
    → are_distinct (map name_of ss) ≡ true
    → by_name name ss ≡ some t
    → str_eq t.stage stage ≡ false
    → contains name (map name_of (filter (in_stage stage) ss)) ≡ false
unfolding are_distinct by_name
found_elsewhere stage name t [] distinct found other = refl
found_elsewhere stage name t (x ∷ rest) distinct found other =
    elim (Bool-cases (str_eq name x.name)) [
      | inl e ↦
          let same : x ≡ t = some_inj x t (rw e at found) in
          let absent : contains x.name (map name_of rest) ≡ false = ground (arith, distinct) in
          rw (ap (in_stage stage) same ∙ other) (
            contains-filter name (in_stage stage) rest
              (ap (λ v. contains v (map name_of rest)) ((eq_iff name x.name).0 e) ∙ absent))
      | inr e ↦
          let tail =
            found_elsewhere stage name t rest (ground (arith, distinct)) (rw e at found) other in
          elim (Bool-cases (in_stage stage x)) [
            | inl here ↦ rw (here, e) tail
            | inr there ↦ rw there tail
          ]
    ]

module _ (specs : List CrewAgentSpec) (distinct : are_distinct (map name_of specs) ≡ true) where
  agents_of-absent :
      (name : String) (t : CrewAgentSpec) (stages : List String)
      → by_name name specs ≡ some t
      → contains t.stage stages ≡ false
      → contains name (agents_of (stages_of specs stages)) ≡ false
  unfolding agents_of stages_of
  agents_of-absent name t [] found h = refl
  agents_of-absent name t (x ∷ rest) found h =
      contains-append name (map name_of (filter (in_stage x) specs))
        (agents_of (stages_of specs rest))
      ∙ ground (
        arith,
        found_elsewhere x name t specs distinct found (ground (arith, h)),
        agents_of-absent name t rest found (ground (arith, h)),
      )

  module _ (order : List String) (distinct_stages : are_distinct order ≡ true)
      (staged : All (IsStaged specs order) specs) where
    IsBelow-absent :
        (stage : String) (pre rest : List String) (own : ℕ) (d : String)
        → order ≡ pre ++ stage ∷ rest
        → stage_index stage order ≡ some own
        → IsBelow specs order own d
        → contains d (agents_of (stages_of specs (stage ∷ rest))) ≡ false
    IsBelow-absent stage pre rest own d split index (i, there, less) =
        let once : contains stage rest ≡ false =
          are_distinct-after stage pre rest (ap are_distinct (sym split) ∙ distinct_stages) in
        let bound =
          stage_index-at stage pre rest own once (ap (stage_index stage) (sym split) ∙ index) in
        let before =
          stage_index-before there.spec.stage pre (stage ∷ rest) i
            (ap (stage_index there.spec.stage) (sym split) ∙ there.index)
            (omega (arith, less, bound)) in
        agents_of-absent d there.spec (stage ∷ rest) there.found (
          are_distinct-apart there.spec.stage pre (stage ∷ rest)
            (ap are_distinct (sym split) ∙ distinct_stages) before)

    stages_of-AreForward :
        (pre rest : List String) → order ≡ pre ++ rest → AreForward (stages_of specs rest)
    unfolding stages_of agents_of
    stages_of-AreForward pre [] split = tt
    stages_of-AreForward pre (stage ∷ rest) split = (
      All-filter (in_stage stage) specs
          (λ s known here.
            All-map s.dependencies
              (λ d below.
                IsBelow-absent stage pre rest known.own d split
                  (ap (λ x. stage_index x order) (sym ((eq_iff s.stage stage).0 here))
                    ∙ known.index)
                  below)
              known.below)
          staged,
      stages_of-AreForward (pre ++ stage ∷ []) rest (split ∙ sym (append_one pre stage rest)),
    )

check_specs-are_distinct :
    (specs : List CrewAgentSpec) (order : List String)
    → check_specs specs order ≡ planned tt
    → are_distinct (map name_of specs) ≡ true
unfolding check_specs
check_specs-are_distinct specs order h = elim (Bool-cases (are_distinct (map name_of specs))) [
  | inl e ↦ e
  | inr e ↦ cc (rw e at h)
]

pub build_stage_order-AreForward :
    (specs : List CrewAgentSpec) (groups : List (String × List CrewAgentSpec))
    → build_stage_order specs ≡ planned groups
    → AreForward groups
unfolding are_distinct
build_stage_order-AreForward specs groups h =
    let (valid, same) = build_stage_order-planned specs groups h in
    rw same (
      stages_of-AreForward specs (check_specs-are_distinct specs stage_names valid) stage_names refl
        (check_specs-IsStaged specs stage_names valid) [] stage_names refl)
