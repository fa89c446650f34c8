-- ===== src/Crew/Run/Steps.antt =====
-- The stages of `execute` of `CrewExecutionManager`, in apps/worker/worker/agent_runtime.py, and the
-- limits on its threads.
use Prim.Native.Nat.{min, max}
use ai_jsunpack.Prelude.{
  ℕ, String, Bool, true, false, not, ◌&&◌, ◌||◌, Option, none, some, List, [], ◌∷◌, ◌++◌, map,
  if◌then◌else◌, leb, ltb, str_eq, contains, filter, length,
}
use ai_jsunpack.Json.{Json, text, Items, nil, cons, get}
use ai_jsunpack.Store.Types.{FailureClass}
use ai_jsunpack.Worker.Pipeline.Config.{to_int, clamp}
use ai_jsunpack.Crew.Specs.{CrewAgentSpec, specialist_agent_names}
use ai_jsunpack.Crew.Plan.{Planned, planned, bind_planned, build_stage_order, name_of}
use ai_jsunpack.Crew.Executions.{
  ExecutionStatus, CrewAgentExecution, CrewStageExecution, has_failed, stage_execution,
}
use ai_jsunpack.Crew.Budget.{agents_setting, list_of}
use ai_jsunpack.Crew.Run.{RuntimeContext, execution_of, put_all, execute_spec}

-- Why every available specialist runs
pub data FallbackReason : Type 0 where
  planner_not_executed planner_execution_missing planner_selection_empty
        planner_selection_outside_allowlist planner_selection_unavailable :
      FallbackReason
  planner_execution : ExecutionStatus → FailureClass → FallbackReason

-- `not isinstance(name, str) or name not in SPECIALIST_AGENT_NAMES`
unfoldable pub is_outside : Json → Bool
is_outside (text name) = not (contains name specialist_agent_names)
is_outside _ = true

unfoldable pub any_outside : Items → Bool
unfolding is_outside
any_outside nil = false
any_outside (cons j rest) = is_outside j || any_outside rest

-- `name in raw_selection`
unfoldable pub is_chosen : String → Items → Bool
is_chosen name nil = false
is_chosen name (cons (text s) rest) = str_eq name s || is_chosen name rest
is_chosen name (cons _ rest) = is_chosen name rest

unfoldable pub unless_empty : List String → List String → List String × Option FallbackReason
unless_empty available [] = (available, some planner_selection_unavailable)
unless_empty available (name ∷ rest) = (name ∷ rest, none)

unfoldable pub selected_of : List String → Items → List String × Option FallbackReason
unfolding is_chosen unless_empty
selected_of available raw =
    unless_empty available
      (filter (λ name. is_chosen name raw && contains name available) specialist_agent_names)

-- `plannedAgents`, if it is a list
unfoldable pub selection_from : List String → Option Items → List String × Option FallbackReason
unfolding any_outside selected_of
selection_from available none = (available, some planner_selection_empty)
selection_from available (some nil) = (available, some planner_selection_empty)
selection_from available (some (cons j rest)) =
    if any_outside (cons j rest)
    then (available, some planner_selection_outside_allowlist)
    else selected_of available (cons j rest)

unfoldable pub planner_specialist_selection :
    Option CrewAgentExecution → List String → List String × Option FallbackReason
unfolding has_failed selection_from get
planner_specialist_selection none available = (available, some planner_execution_missing)
planner_specialist_selection (some e) available =
    if has_failed e
    then (available, some (planner_execution e.status e.failure_class))
    else selection_from available (list_of (get "plannedAgents" e.raw_output))

unfoldable pub requested_max_parallel : RuntimeContext → ℕ
unfolding agents_setting to_int clamp
requested_max_parallel c = elim (to_int c.int (agents_setting "maxParallel" 5 c.job_config)) [
  | none ↦ 5
  | some z ↦ clamp 1 10 z
]

unfoldable pub all_parallel : List CrewAgentSpec → Bool
all_parallel [] = true
all_parallel (s ∷ rest) = s.allow_parallel && all_parallel rest

unfoldable pub stage_worker_count : RuntimeContext → List CrewAgentSpec → ℕ → ℕ
unfolding all_parallel
stage_worker_count c specs requested =
    if leb (length specs) 1 || not (all_parallel specs)
    then 1
    else if not c.adapter_parallel_safe
    then 1
    else max 1 (min requested (length specs))

-- The variables of the loop over the stages
pub record Progress : Type 0 where
  pub stages : List CrewStageExecution
  pub executions : List CrewAgentExecution
  pub selected_specialists : List String
  pub planner_fallback_reason : Option FallbackReason
  pub effective_max_parallel : ℕ
  pub stage_worker_counts : List (String × ℕ)
  pub parallel_stages : List String

-- `name not in SPECIALIST_AGENT_NAMES or name in selected_specialists`
unfoldable pub is_kept : List String → String → Bool
is_kept selected name = not (contains name specialist_agent_names) || contains name selected

unfoldable pub stage_specs : Bool → List String → String → List CrewAgentSpec → List CrewAgentSpec
unfolding is_kept
stage_specs enabled selected stage specs =
    if str_eq stage "specialists" && enabled
    then filter (λ (s : CrewAgentSpec). contains s.name selected) specs
    else if str_eq stage "synthesis" && enabled
    then map
        (λ (s : CrewAgentSpec). record (s) {
          dependencies = filter (is_kept selected) s.dependencies;
        })
        specs
    else specs

-- The specialists that the plan has
unfoldable pub available_specialists : List CrewAgentSpec → List String
available_specialists specs =
    filter (λ name. contains name (map name_of specs)) specialist_agent_names

unfoldable pub next_selection :
    Bool
    → List CrewAgentSpec
    → String
    → List CrewAgentExecution
    → List String × Option FallbackReason
    → List String × Option FallbackReason
unfolding planner_specialist_selection execution_of available_specialists
next_selection enabled specs stage executions before =
    if str_eq stage "planner" && enabled
    then planner_specialist_selection (execution_of "PlannerAgent" executions)
        (available_specialists specs)
    else before

unfoldable pub run_stage :
    RuntimeContext → Bool → List CrewAgentSpec → String × List CrewAgentSpec → Progress → Progress
unfolding stage_specs stage_worker_count requested_max_parallel execute_spec put_all next_selection
    stage_execution
run_stage c enabled specs (stage, group) p =
    let members = stage_specs enabled p.selected_specialists stage group in
    let workers = stage_worker_count c members (requested_max_parallel c) in
    let executions = map (execute_spec c p.stages p.executions) members in
    let selection =
      next_selection enabled specs stage executions
        (p.selected_specialists, p.planner_fallback_reason) in
    record {
      stages = p.stages ++ stage_execution stage executions ∷ [];
      executions = put_all executions p.executions;
      selected_specialists = selection.0;
      planner_fallback_reason = selection.1;
      effective_max_parallel = max p.effective_max_parallel workers;
      stage_worker_counts = p.stage_worker_counts ++ (stage, workers) ∷ [];
      parallel_stages =
          if ltb 1 workers then p.parallel_stages ++ stage ∷ [] else p.parallel_stages;
    }

unfoldable pub run_stages :
    RuntimeContext
    → Bool
    → List CrewAgentSpec
    → List (String × List CrewAgentSpec)
    → Progress
    → Progress
unfolding run_stage
run_stages c enabled specs [] p = p
run_stages c enabled specs (group ∷ rest) p =
    run_stages c enabled specs rest (run_stage c enabled specs group p)

-- `any(spec.name == "PlannerAgent" for spec in specs)`
abbrev pub has_planner : List CrewAgentSpec → Bool
has_planner specs = contains "PlannerAgent" (map name_of specs)

abbrev pub no_progress : List CrewAgentSpec → Progress
no_progress specs = record {
  stages = [];
  executions = [];
  selected_specialists = available_specialists specs;
  planner_fallback_reason = if has_planner specs then some planner_not_executed else none;
  effective_max_parallel = 1;
  stage_worker_counts = [];
  parallel_stages = [];
}

unfoldable pub execute : RuntimeContext → List CrewAgentSpec → Planned Progress
unfolding build_stage_order bind_planned run_stages available_specialists
execute c specs =
    bind_planned (build_stage_order specs)
      λ groups. planned (run_stages c (has_planner specs) specs groups (no_progress specs))
