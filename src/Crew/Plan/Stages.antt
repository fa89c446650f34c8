-- ===== src/Crew/Plan/Stages.antt =====
-- The groups of `build_stage_order`.
use ai_jsunpack.Prelude.{
  ℕ, ◌≡◌, refl, sym, ◌∙◌, ap, String, Bool, true, false, some, List, [], ◌∷◌, ◌++◌, map, ◌⊎◌,
  str_eq, contains, filter, All, Bool-cases, inl, inr, arith, eq_iff,
}
use ai_jsunpack.Crew.Specs.{CrewAgentSpec}
use ai_jsunpack.Crew.Plan.{
  planned, stage_index, are_distinct, by_name, name_of, stage_names, in_stage, stages_of,
  validate_specs, build_stage_order, check_specs,
}
use ai_jsunpack.Crew.Plan.Checked.{IsBelow, IsStaged, by_name-All, bind_planned-planned, some_inj}
use ai_jsunpack.Crew.Plan.Visits.{
  check_specs-IsStaged, validate_specs-check_specs, All-map, by_name-contains,
}
use ai_jsunpack.Crew.Plan.Indexes.{
  stage_index-before, stage_index-at, stage_index-contains, are_distinct-after,
}

-- Each agent of a group depends only on agents that ran before the group.
abbrev pub AreOrdered : List String → List (String × List CrewAgentSpec) → Type 0
AreOrdered ran [] = Unit
AreOrdered ran ((stage, group) ∷ rest) =
    All (λ (s : CrewAgentSpec). All (λ d. contains d ran ≡ true) s.dependencies) group
    × AreOrdered (ran ++ map name_of group) rest

-- The names of all agents in the groups, in their order.
unfoldable pub agents_of : List (String × List CrewAgentSpec) → List String
agents_of [] = []
agents_of ((stage, group) ∷ rest) = map name_of group ++ agents_of rest

contains-append-left :
    (v : String) (xs ys : List String) → contains v xs ≡ true → contains v (xs ++ ys) ≡ true
contains-append-left v [] ys h = cc h
contains-append-left v (x ∷ rest) ys h = elim (Bool-cases (str_eq v x)) [
  | inl e ↦ rw e refl
  | inr e ↦ rw e (contains-append-left v rest ys (rw e at h))
]

contains-append-right :
    (v : String) (xs ys : List String) → contains v ys ≡ true → contains v (xs ++ ys) ≡ true
contains-append-right v [] ys h = h
contains-append-right v (x ∷ rest) ys h = ground (arith, contains-append-right v rest ys h)

-- The agents whose stage is among these.
abbrev RanStages : List CrewAgentSpec → List String → List String → Type 0
RanStages specs stages ran =
    (s : CrewAgentSpec)
    → (name : String) → by_name name specs ≡ some s
    → contains s.stage stages ≡ true
    → contains name ran ≡ true

by_name-filter :
    (name stage : String) (ss : List CrewAgentSpec) (s : CrewAgentSpec)
    → by_name name ss ≡ some s
    → str_eq s.stage stage ≡ true
    → contains name (map name_of (filter (in_stage stage) ss)) ≡ true
unfolding by_name
by_name-filter name stage [] s found h = cc
by_name-filter name stage (x ∷ rest) s found h = elim (Bool-cases (str_eq name x.name)) [
  | inl e ↦
      let same : x ≡ s = some_inj x s (rw e at found) in
      rw (ap (in_stage stage) same ∙ h) (rw e refl)
  | inr e ↦ elim (Bool-cases (in_stage stage x)) [
    | inl here ↦ rw (here, e) (by_name-filter name stage rest s (rw e at found) h)
    | inr other ↦ rw other (by_name-filter name stage rest s (rw e at found) h)
  ]
]

pub All-filter :
    {P Q : CrewAgentSpec → Type 0} (p : CrewAgentSpec → Bool) (ss : List CrewAgentSpec)
    → ((s : CrewAgentSpec) → P s → p s ≡ true → Q s)
    → All P ss
    → All Q (filter p ss)
All-filter p [] f h = tt
All-filter p (x ∷ rest) f h = elim (Bool-cases (p x)) [
  | inl e ↦ rw e (f x h.0 e, All-filter p rest f h.1)
  | inr e ↦ rw e (All-filter p rest f h.1)
]

contains-append_one :
    (v x : String) (pre : List String)
    → contains v (pre ++ x ∷ []) ≡ true
    → (contains v pre ≡ true) ⊎ (str_eq v x ≡ true)
contains-append_one v x [] h = inr (ground (arith, h))
contains-append_one v x (y ∷ pre) h = elim (Bool-cases (str_eq v y)) [
  | inl e ↦ inl (rw e refl)
  | inr e ↦ elim (contains-append_one v x pre (rw e at h)) [ inl k ↦ inl (rw e k) | inr k ↦ inr k ]
]

pub append_one :
    (pre : List String) (x : String) (rest : List String)
    → (pre ++ x ∷ []) ++ rest ≡ pre ++ x ∷ rest
append_one [] x rest = refl
append_one (y ∷ pre) x rest = ap (λ more. y ∷ more) (append_one pre x rest)

module _ (specs : List CrewAgentSpec) (order : List String)
    (staged : All (IsStaged specs order) specs) (distinct : are_distinct order ≡ true) where
  IsBelow-ran :
      (stage : String) (pre rest ran : List String) (own : ℕ) (d : String)
      → order ≡ pre ++ stage ∷ rest
      → stage_index stage order ≡ some own
      → RanStages specs pre ran
      → IsBelow specs order own d
      → contains d ran ≡ true
  IsBelow-ran stage pre rest ran own d split index earlier (i, there, less) =
      let once : contains stage rest ≡ false =
        are_distinct-after stage pre rest (ap are_distinct (sym split) ∙ distinct) in
      let bound =
        stage_index-at stage pre rest own once (ap (stage_index stage) (sym split) ∙ index) in
      earlier there.spec d there.found (
        stage_index-before there.spec.stage pre (stage ∷ rest) i
          (ap (stage_index there.spec.stage) (sym split) ∙ there.index)
          (omega (arith, less, bound)))

  RanStages-group :
      (stage : String) (pre ran : List String)
      → RanStages specs pre ran
      → RanStages specs (pre ++ stage ∷ []) (ran ++ map name_of (filter (in_stage stage) specs))
  RanStages-group stage pre ran earlier s name found h =
      elim (contains-append_one s.stage stage pre h) [
        | inl k ↦ contains-append-left name ran _ (earlier s name found k)
        | inr k ↦ contains-append-right name ran _ (by_name-filter name stage specs s found k)
      ]

  stages_of-AreOrdered :
      (pre rest ran : List String)
      → order ≡ pre ++ rest
      → RanStages specs pre ran
      → AreOrdered ran (stages_of specs rest)
  unfolding stages_of
  stages_of-AreOrdered pre [] ran split earlier = tt
  stages_of-AreOrdered pre (stage ∷ rest) ran split earlier = (
    All-filter (in_stage stage) specs
        (λ s known here.
          All-map s.dependencies
            (λ d below.
              IsBelow-ran stage pre rest ran known.own d split
                (ap (λ x. stage_index x order) (sym ((eq_iff s.stage stage).0 here)) ∙ known.index)
                earlier below)
            known.below)
        staged,
    stages_of-AreOrdered (pre ++ stage ∷ []) rest _ (split ∙ sym (append_one pre stage rest))
        (RanStages-group stage pre ran earlier),
  )

agents_of-contains :
    (specs : List CrewAgentSpec) (stages : List String) (name : String) (s : CrewAgentSpec)
    → by_name name specs ≡ some s
    → contains s.stage stages ≡ true
    → contains name (agents_of (stages_of specs stages)) ≡ true
unfolding agents_of stages_of
agents_of-contains specs [] name s found h = cc h
agents_of-contains specs (x ∷ rest) name s found h = elim (Bool-cases (str_eq s.stage x)) [
  | inl e ↦ contains-append-left name _ _ (by_name-filter name x specs s found e)
  | inr e ↦
      contains-append-right name (map name_of (filter (in_stage x) specs)) _
        (agents_of-contains specs rest name s found (rw e at h))
]

planned_inj : {A : Type 0} (a b : A) → planned a ≡ planned b → a ≡ b
planned_inj a b h = cc h

pub build_stage_order-planned :
    (specs : List CrewAgentSpec) (groups : List (String × List CrewAgentSpec))
    → build_stage_order specs ≡ planned groups
    → (check_specs specs stage_names ≡ planned tt) × (groups ≡ stages_of specs stage_names)
unfolding build_stage_order
build_stage_order-planned specs groups h =
    let (_, valid, same) = bind_planned-planned (validate_specs specs stage_names) _ h in
    (sym (validate_specs-check_specs specs stage_names) ∙ valid, planned_inj _ _ (sym same))

-- When `build_stage_order` gives groups, every agent is in them, and each agent of a group depends
-- only on agents of the groups before it.
pub build_stage_order-AreOrdered :
    (specs : List CrewAgentSpec) (groups : List (String × List CrewAgentSpec))
    → build_stage_order specs ≡ planned groups
    → AreOrdered [] groups
      × ((name : String)
          → contains name (map name_of specs) ≡ true
          → contains name (agents_of groups) ≡ true)
build_stage_order-AreOrdered specs groups h =
    let (valid, same) = build_stage_order-planned specs groups h in
    let staged = check_specs-IsStaged specs stage_names valid in
    rw same (
      stages_of-AreOrdered specs stage_names staged (unfold are_distinct in refl) [] stage_names []
          refl (λ s name found k. cc k),
      λ name k.
          let (s, found) = by_name-contains name specs k in
          let known = by_name-All (IsStaged specs stage_names) name specs s found staged in
          agents_of-contains specs stage_names name s found
            (stage_index-contains s.stage stage_names known.own known.index),
    )
