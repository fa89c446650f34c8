-- ===== src/Crew/Plan.antt =====
-- `validate_specs` and `build_stage_order` of `CrewRuntimePlanner`, in
-- apps/worker/worker/agent_runtime.py.
pub mod Checked
pub mod Visits
pub mod Indexes
pub mod Stages
pub mod Forward
use ai_jsunpack.Prelude.{
  ℕ, zero, suc, ◌≡◌, String, Bool, true, false, not, ◌&&◌, Option, none, some, List, [], ◌∷◌, map,
  if◌then◌else◌, leb, str_eq, contains, filter, length,
}
use ai_jsunpack.Crew.Specs.{CrewAgentSpec}

-- The AgentRuntimeErrors, and what a dict raises for a missing key.
pub data PlanError : Type 0 where
  repeated_name : PlanError
  unsupported_stage : String → PlanError
  unknown_dependency : String → String → PlanError
  late_dependency : String → String → PlanError
  dependency_cycle : String → PlanError
  key_error : String → PlanError
  out_of_fuel : PlanError

pub data Planned (A : Type 0) : Type 0 where
  planned : A → Planned A
  refused : PlanError → Planned A

unfoldable pub bind_planned : {A B : Type 0} → Planned A → (A → Planned B) → Planned B
bind_planned (planned a) f = f a
bind_planned (refused e) f = refused e

abbrev pub stage_names : List String
stage_names = "planner" ∷ "analysis" ∷ "specialists" ∷ "synthesis" ∷ "review" ∷ []

-- `order or [...]`
abbrev pub stage_order : List String → List String
stage_order [] = stage_names
stage_order (s ∷ rest) = s ∷ rest

-- `stage_indexes.get(stage)`: the last index of a stage that is listed twice
unfoldable pub stage_index : String → List String → Option ℕ
stage_index stage [] = none
stage_index stage (s ∷ rest) = elim (stage_index stage rest) [
  | none ↦ if str_eq stage s then some zero else none
  | some i ↦ some (suc i)
]

-- `by_name.get(name)`, once the names are known to differ
unfoldable pub by_name : String → List CrewAgentSpec → Option CrewAgentSpec
by_name name [] = none
by_name name (s ∷ rest) = if str_eq name s.name then some s else by_name name rest

-- `len(by_name) == len(specs)`
unfoldable pub are_distinct : List String → Bool
are_distinct [] = true
are_distinct (x ∷ xs) = not (contains x xs) && are_distinct xs

abbrev pub name_of : CrewAgentSpec → String
name_of s = s.name

unfoldable pub check_stage : String → String → ℕ → Option ℕ → String → Planned (Unit {0})
check_stage name dependency own none stage = refused (key_error stage)
check_stage name dependency own (some i) stage =
    if leb own i then refused (late_dependency name dependency) else planned tt

unfoldable pub check_dependency :
    List CrewAgentSpec → List String → String → ℕ → String → Planned (Unit {0})
unfolding by_name stage_index check_stage
check_dependency specs order name own dependency = elim (by_name dependency specs) [
  | none ↦ refused (unknown_dependency name dependency)
  | some d ↦ check_stage name dependency own (stage_index d.stage order) d.stage
]

unfoldable pub check_dependencies :
    List CrewAgentSpec → List String → String → ℕ → List String → Planned (Unit {0})
unfolding check_dependency
check_dependencies specs order name own [] = planned tt
check_dependencies specs order name own (d ∷ rest) =
    bind_planned (check_dependency specs order name own d)
      λ _. check_dependencies specs order name own rest

unfoldable pub check_spec : List CrewAgentSpec → List String → CrewAgentSpec → Planned (Unit {0})
unfolding stage_index check_dependencies
check_spec specs order s = elim (stage_index s.stage order) [
  | none ↦ refused (unsupported_stage s.stage)
  | some own ↦ check_dependencies specs order s.name own s.dependencies
]

-- `for spec in specs`
unfoldable pub check_each :
    List CrewAgentSpec → List String → List CrewAgentSpec → Planned (Unit {0})
unfolding check_spec bind_planned
check_each specs order [] = planned tt
check_each specs order (s ∷ rest) =
    bind_planned (check_spec specs order s) λ _. check_each specs order rest

-- The sets of `visit`.
pub record Marks : Type 0 where
  pub visiting : List String
  pub visited : List String

abbrev pub enter : String → Marks → Marks
enter name m = record { visiting = name ∷ m.visiting; visited = m.visited }

abbrev pub leave : String → Marks → Marks
leave name m = record {
  visiting = filter (λ v. not (str_eq name v)) m.visiting;
  visited = name ∷ m.visited;
}

unfoldable pub visit_each : (String → Marks → Planned Marks) → List String → Marks → Planned Marks
unfolding bind_planned
visit_each f [] m = planned m
visit_each f (name ∷ rest) m = bind_planned (f name m) (visit_each f rest)

unfoldable pub visit : ℕ → List CrewAgentSpec → String → Marks → Planned Marks
unfolding visit_each bind_planned by_name
visit zero specs name m = refused out_of_fuel
visit (suc fuel) specs name m =
    if contains name m.visiting
    then refused (dependency_cycle name)
    else if contains name m.visited
    then planned m
    else elim (by_name name specs) [
      | none ↦ refused (key_error name)
      | some s ↦
          bind_planned (visit_each (visit fuel specs) s.dependencies (enter name m))
            λ done. planned (leave name done)
    ]

abbrev pub no_marks : Marks
no_marks = record { visiting = []; visited = [] }

-- The search for a cycle, with fuel for one call on each stage.
unfoldable pub visit_all : List CrewAgentSpec → List String → Planned (Unit {0})
unfolding visit visit_each bind_planned
visit_all specs order =
    bind_planned (visit_each (visit (length order) specs) (map name_of specs) no_marks)
      λ _. planned tt

-- The checks before the search for a cycle.
unfoldable pub check_specs : List CrewAgentSpec → List String → Planned (Unit {0})
unfolding are_distinct check_each
check_specs specs order =
    if are_distinct (map name_of specs) then check_each specs order specs else refused repeated_name

unfoldable pub validate_specs : List CrewAgentSpec → List String → Planned (Unit {0})
unfolding check_specs visit_all bind_planned
validate_specs specs order =
    bind_planned (check_specs specs (stage_order order)) λ _. visit_all specs (stage_order order)

abbrev pub in_stage : String → CrewAgentSpec → Bool
in_stage stage s = str_eq s.stage stage

unfoldable pub stages_of : List CrewAgentSpec → List String → List (String × List CrewAgentSpec)
stages_of specs order = map (λ stage. (stage, filter (in_stage stage) specs)) order

unfoldable pub build_stage_order : List CrewAgentSpec → Planned (List (String × List CrewAgentSpec))
unfolding validate_specs bind_planned stages_of
build_stage_order specs =
    bind_planned (validate_specs specs stage_names) λ _. planned (stages_of specs stage_names)
