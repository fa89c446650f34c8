-- ===== src/Crew/Run/Members.antt =====
-- The agents of a stage that run: no more names and no more dependencies than its group has.
use ai_jsunpack.Prelude.{
  ◌≡◌, refl, ◌∙◌, ap, String, Bool, false, ◌&&◌, List, [], ◌∷◌, map, str_eq, contains, filter, All,
  Bool-cases, inl, inr,
}
use ai_jsunpack.Crew.Specs.{CrewAgentSpec}
use ai_jsunpack.Crew.Plan.{name_of}
use ai_jsunpack.Crew.Plan.Forward.{contains-filter}
use ai_jsunpack.Crew.Run.Records.{AreAbsent}
use ai_jsunpack.Crew.Run.Steps.{stage_specs, is_kept}

All-filter_self :
    (P : String → Type 0) (p : String → Bool) (ds : List String) → All P ds → All P (filter p ds)
All-filter_self P p [] h = tt
All-filter_self P p (d ∷ rest) h = elim (Bool-cases (p d)) [
  | inl e ↦ rw e (h.0, All-filter_self P p rest h.1)
  | inr e ↦ rw e (All-filter_self P p rest h.1)
]

-- The agents of a stage that run, as its group has them
module _ (names : List String) where
  abbrev pub Clear : CrewAgentSpec → Type 0
  Clear s = AreAbsent names s.dependencies

  filter-Clear :
      (p : CrewAgentSpec → Bool) (group : List CrewAgentSpec)
      → All Clear group
      → All Clear (filter p group)
  filter-Clear p [] h = tt
  filter-Clear p (s ∷ rest) h = elim (Bool-cases (p s)) [
    | inl e ↦ rw e (h.0, filter-Clear p rest h.1)
    | inr e ↦ rw e (filter-Clear p rest h.1)
  ]

  abbrev keep_dependencies : List String → CrewAgentSpec → CrewAgentSpec
  keep_dependencies selected s = record (s) {
    dependencies = filter (is_kept selected) s.dependencies;
  }

  map-Clear :
      (selected : List String) (group : List CrewAgentSpec)
      → All Clear group
      → All Clear (map (keep_dependencies selected) group)
  map-Clear selected [] h = tt
  map-Clear selected (s ∷ rest) h =
      (All-filter_self _ (is_kept selected) s.dependencies h.0, map-Clear selected rest h.1)

  pub stage_specs-Clear :
      (enabled : Bool) (selected : List String) (stage : String) (group : List CrewAgentSpec)
      → All Clear group
      → All Clear (stage_specs enabled selected stage group)
  unfolding stage_specs
  stage_specs-Clear enabled selected stage group h =
      elim (Bool-cases (str_eq stage "specialists" && enabled)) [
        | inl e ↦ rw e (filter-Clear _ group h)
        | inr e ↦ elim (Bool-cases (str_eq stage "synthesis" && enabled)) [
          | inl k ↦ rw (e, k) (map-Clear selected group h)
          | inr k ↦ rw (e, k) h
        ]
      ]

names-keep_dependencies :
    (selected : List String) (group : List CrewAgentSpec)
    → map name_of (
        map
          (λ (s : CrewAgentSpec). record (s) {
            dependencies = filter (is_kept selected) s.dependencies;
          })
          group)
      ≡ map name_of group
names-keep_dependencies selected [] = refl
names-keep_dependencies selected (s ∷ rest) =
    ap (λ more. s.name ∷ more) (names-keep_dependencies selected rest)

pub stage_specs-absent :
    (enabled : Bool) (selected : List String) (stage : String) (group : List CrewAgentSpec)
    (v : String)
    → contains v (map name_of group) ≡ false
    → contains v (map name_of (stage_specs enabled selected stage group)) ≡ false
unfolding stage_specs
stage_specs-absent enabled selected stage group v h =
    elim (Bool-cases (str_eq stage "specialists" && enabled)) [
      | inl e ↦ rw e (contains-filter v _ group h)
      | inr e ↦ elim (Bool-cases (str_eq stage "synthesis" && enabled)) [
        | inl k ↦ rw (e, k) (ap (contains v) (names-keep_dependencies selected group) ∙ h)
        | inr k ↦ rw (e, k) h
      ]
    ]
