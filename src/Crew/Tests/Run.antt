-- ===== src/Crew/Tests/Run.antt =====
-- A run of the crew in which the naming agent fails, and prompts with small budgets.
use ai_jsunpack.Prelude.{
  ℕ, ◌≡◌, ◌⊎◌, refl, String, Bool, true, false, Option, none, some, List, [], ◌∷◌, map, All,
  if◌then◌else◌, str_eq, contains,
}
use ai_jsunpack.Json.{Json, Fields, end, field, text, arr, obj, nil, cons, get, num, pos}
use ai_jsunpack.Store.Types.{no_failure, agent_failed}
use ai_jsunpack.Crew.Specs.{CrewAgentSpec, build_specs, planner_agent}
use ai_jsunpack.Crew.Plan.{planned, stage_names, stages_of}
use ai_jsunpack.Crew.Executions.{
  pass, fail, skipped, AgentReviewDraft, CrewAgentExecution, CrewStageExecution, runtime_status,
  status_of,
}
use ai_jsunpack.Crew.Executions.Passing.{
  recorded_status, all_agents_pass, runtime_status-all_agents_pass,
}
use ai_jsunpack.Crew.Budget.{ContextBudgetAudit, apply_context_budget}
use ai_jsunpack.Crew.Budget.Keeps.{IsCut, apply_context_budget-keeps}
use ai_jsunpack.Crew.Budget.Bounds.{IsBounded, apply_context_budget-bounds}
use ai_jsunpack.Crew.Run.{RuntimeContext}
use ai_jsunpack.Crew.Run.Steps.{
  Progress, execute, run_stages, no_progress, planner_specialist_selection,
}
use ai_jsunpack.Crew.Run.Skips.{IsRespectful, execute-IsRespectful}
use ai_jsunpack.Crew.Run.Selection.{
  IsSelection, IsLimited, planner_specialist_selection-IsSelection, execute-IsLimited,
}
use ai_jsunpack.Crew.Reviews.{
  aggregate_review, first_review, known_repair_ids, all_executions, aggregate_review-known,
}

-- The planner chooses two specialists; the naming agent fails.
abbrev chosen : Fields
chosen = field "plannedAgents" (arr (cons (text "TypeAgent") (cons (text "NamingAgent") nil))) end

abbrev answer : CrewAgentSpec → Fields → CrewAgentExecution
answer spec prompt = record {
  spec = spec;
  status = if str_eq spec.name "NamingAgent" then fail else pass;
  failure_class = if str_eq spec.name "NamingAgent" then agent_failed else no_failure;
  attempt = 1;
  input_artifact_ids = [];
  evidence_refs = [];
  message = "";
  raw_output = if str_eq spec.name "PlannerAgent" then chosen else end;
  inferences = [];
  repair_instructions = [];
  review = none;
}

abbrev context : RuntimeContext
context = record {
  execute_agent = answer;
  adapter_parallel_safe = true;
  prompt_context_for_agent = λ spec stages executions. end;
  int = λ s. none;
  bytes = λ j. 40;
  job_config = end;
  input_artifact_ids = [];
  evidence_refs = [];
}

abbrev ran : Progress
ran =
    run_stages context true build_specs (stages_of build_specs stage_names)
      (no_progress build_specs)

execute-ran : execute context build_specs ≡ planned ran
unfolding execute build_specs
execute-ran = refl

-- The two specialists that were chosen run, and what depends on the one that failed is skipped.
ran-statuses :
    map status_of ran.executions ≡ pass ∷ pass ∷ fail ∷ pass ∷ skipped ∷ skipped ∷ skipped ∷ []
unfolding run_stages build_specs stages_of apply_context_budget
ran-statuses = refl

execute-IsRespectful_example : All (IsRespectful ran.executions) ran.executions
execute-IsRespectful_example =
    execute-IsRespectful context build_specs ran (λ spec prompt. refl) execute-ran

execute-IsLimited_example : IsLimited ran
execute-IsLimited_example = execute-IsLimited context build_specs ran execute-ran

planner_specialist_selection-IsSelection_example : IsSelection ("NamingAgent" ∷ "TypeAgent" ∷ []) (
    planner_specialist_selection
      (some (answer planner_agent end))
      ("NamingAgent" ∷ "TypeAgent" ∷ []))
planner_specialist_selection-IsSelection_example =
    planner_specialist_selection-IsSelection (some (answer planner_agent end))
      ("NamingAgent" ∷ "TypeAgent" ∷ [])

-- Two stages, of which the first has a failed agent
abbrev two_stages : List (String × List CrewAgentExecution)
two_stages = ("planner", answer planner_agent end ∷ []) ∷ ("analysis", []) ∷ []

runtime_status-all_agents_pass_example :
    str_eq (runtime_status (map recorded_status two_stages)) "completed"
    ≡ all_agents_pass two_stages
runtime_status-all_agents_pass_example = runtime_status-all_agents_pass two_stages

-- A review that names a repair that nobody made
abbrev rash_review : AgentReviewDraft
rash_review = record {
  status = pass;
  decision = "ok";
  failure_class = no_failure;
  repair_instruction_ids = "r9" ∷ [];
}

abbrev reviewed : List CrewStageExecution
reviewed =
    record {
      stage = "review";
      status = pass;
      agent_executions =
          record (answer planner_agent end) {
            spec = record (planner_agent) { name = "ReviewAgent" };
            review = some rash_review;
          }
          ∷ [];
      failure_class = no_failure;
    }
    ∷ []

aggregate_review-reviewed : (aggregate_review reviewed).status ≡ fail
unfolding aggregate_review
aggregate_review-reviewed = refl

aggregate_review-known_example :
    All
      (λ id. contains id (known_repair_ids (all_executions reviewed)) ≡ true)
      (aggregate_review reviewed).repair_instruction_ids
    × ((aggregate_review reviewed ≡ first_review reviewed)
        ⊎ ((aggregate_review reviewed).status ≡ fail))
aggregate_review-known_example = aggregate_review-known reviewed

-- A prompt of a memory and a rule; a value counts for as many bytes as a memory that is kept has.
abbrev prompt : Fields
prompt = field "memory" (text "long") (field "agent" (text "PlannerAgent") end)

abbrev is_long : Option Json → Bool
is_long (some (text s)) = str_eq s "long"
is_long _ = false

abbrev prompt_bytes : Json → ℕ
prompt_bytes (obj fields) = if is_long (get "memory" fields) then 9000 else 3000
prompt_bytes _ = 0

abbrev small_budget : Fields
small_budget = field "agents" (obj (field "contextBudget" (num (pos 1)) end)) end

abbrev small : Fields × ContextBudgetAudit
small = apply_context_budget (λ s. none) prompt_bytes small_budget planner_agent prompt

small-memory : small.1.omissions.memory ≡ 1
unfolding apply_context_budget get
small-memory = refl

apply_context_budget-bounds_example : IsBounded prompt_bytes prompt small
apply_context_budget-bounds_example =
    apply_context_budget-bounds (λ s. none) prompt_bytes small_budget planner_agent prompt

apply_context_budget-keeps_example : IsCut planner_agent small.0 prompt
apply_context_budget-keeps_example =
    apply_context_budget-keeps (λ s. none) prompt_bytes small_budget planner_agent prompt
