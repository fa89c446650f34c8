-- ===== src/Crew/Executions.antt =====
-- The executions of agents and stages, as apps/worker/worker/agent_contracts.py declares them and
-- `CrewExecutionManager` of apps/worker/worker/agent_runtime.py summarises them. Left out are the
-- durations, the columns about the model, the diagnoses and the report sections, which the manager
-- only hands on.
pub mod Passing
use ai_jsunpack.Prelude.{
  ℕ, String, Bool, true, false, not, ◌&&◌, ◌||◌, Option, none, some, List, [], ◌∷◌, map,
  if◌then◌else◌, ◌==◌,
}
use ai_jsunpack.Json.{Fields}
use ai_jsunpack.Store.Types.{FailureClass, no_failure}
use ai_jsunpack.Crew.Specs.{CrewAgentSpec}

-- `CrewExecutionStatus`
pub data ExecutionStatus : Type 0 where
  pass retry best_effort fail skipped : ExecutionStatus

pub record AgentInferenceDraft : Type 0 where
  pub type : String
  pub agent_name : String

pub record AgentRepairInstructionDraft : Type 0 where
  pub id : String
  pub target_stage : String
  pub decision : String

pub record AgentReviewDraft : Type 0 where
  pub status : ExecutionStatus
  pub decision : String
  pub failure_class : FailureClass
  pub repair_instruction_ids : List String

pub record CrewAgentExecution : Type 0 where
  pub spec : CrewAgentSpec
  pub status : ExecutionStatus
  pub failure_class : FailureClass
  pub attempt : ℕ
  pub input_artifact_ids : List String
  pub evidence_refs : List String
  pub message : String
  pub raw_output : Fields
  pub inferences : List AgentInferenceDraft
  pub repair_instructions : List AgentRepairInstructionDraft
  pub review : Option AgentReviewDraft

abbrev pub is_no_failure : FailureClass → Bool
is_no_failure no_failure = true
is_no_failure _ = false

-- `status in {"fail", "retry", "skipped"}`
unfoldable pub is_unfinished : ExecutionStatus → Bool
is_unfinished fail = true
is_unfinished retry = true
is_unfinished skipped = true
is_unfinished _ = false

-- The condition under which `_execute_spec` and the planner's selection take a run for failed
unfoldable pub has_failed : CrewAgentExecution → Bool
unfolding is_unfinished
has_failed e = is_unfinished e.status || not (is_no_failure e.failure_class)

abbrev status_code : ExecutionStatus → ℕ
status_code pass = 0
status_code retry = 1
status_code best_effort = 2
status_code fail = 3
status_code skipped = 4

-- `status in statuses`
unfoldable pub has_status : ExecutionStatus → List ExecutionStatus → Bool
has_status s [] = false
has_status s (x ∷ xs) = (status_code s == status_code x) || has_status s xs

-- `statuses == {"skipped"}`
unfoldable pub are_all_skipped : List ExecutionStatus → Bool
unfolding has_status
are_all_skipped xs =
    has_status skipped xs
    && not (
        has_status pass xs
        || has_status retry xs
        || has_status best_effort xs
        || has_status fail xs)

-- `_stage_status`, of the statuses of the executions
unfoldable pub stage_status : List ExecutionStatus → ExecutionStatus
unfolding has_status are_all_skipped
stage_status xs =
    if has_status fail xs
    then fail
    else if has_status best_effort xs
    then best_effort
    else if has_status retry xs
    then retry
    else if are_all_skipped xs
    then skipped
    else if has_status skipped xs
    then best_effort
    else pass

-- `_stage_failure_class`
unfoldable pub stage_failure_class : List CrewAgentExecution → FailureClass
stage_failure_class [] = no_failure
stage_failure_class (e ∷ rest) =
    if is_no_failure e.failure_class then stage_failure_class rest else e.failure_class

pub record CrewStageExecution : Type 0 where
  pub stage : String
  pub status : ExecutionStatus
  pub agent_executions : List CrewAgentExecution
  pub failure_class : FailureClass

-- `_runtime_status`, of the statuses of the stages
unfoldable pub runtime_status : List ExecutionStatus → String
unfolding has_status
runtime_status xs =
    if has_status fail xs
    then "agent_failed"
    else if has_status best_effort xs || has_status retry xs || has_status skipped xs
    then "completed_best_effort"
    else "completed"

abbrev pub status_of : CrewAgentExecution → ExecutionStatus
status_of e = e.status

-- The stage that `execute` records, without its conflicts and notes
unfoldable pub stage_execution : String → List CrewAgentExecution → CrewStageExecution
unfolding stage_status stage_failure_class
stage_execution stage executions = record {
  stage = stage;
  status = stage_status (map status_of executions);
  agent_executions = executions;
  failure_class = stage_failure_class executions;
}
