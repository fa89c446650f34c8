-- ===== src/Worker/Pipeline/Types.antt =====
-- What apps/worker/worker/pipeline.py passes around: the context of a run, the results of the
-- runners that it is constructed with, and the runners themselves, which are parameters here.
use ai_jsunpack.Prelude.{ℕ, String, Bool, Option, List}
use ai_jsunpack.Json.{Fields}
use ai_jsunpack.Store.Types.{JobStatus, FailureClass, CloudMode}
use ai_jsunpack.Store.Jobs.{Job}
use ai_jsunpack.Store.Artifacts.{Artifact}

pub record PipelineEvent : Type 0 where
  pub status : JobStatus
  pub message : String

-- The exceptions that a stage may raise: those that the pipeline names, and any other.
pub data Fault : Type 0 where
  pipeline_cancelled : String → Fault
  core_bridge_error agent_runtime_error reconstruction_error build_validation_error packaging_error
        other_error :
      String → Fault

-- `RunStatus`
pub data RunStatus : Type 0 where
  pass retry best_effort fail : RunStatus

-- The two stages of the build validation, of `ReviewType`.
pub data ReviewType : Type 0 where
  build typecheck : ReviewType

pub record CoreResult : Type 0 where
  pub inventory_artifact_payload : String
  pub ast_index_artifact_payload : String
  pub source_index_artifact_payload : Option String

pub record AgentRuntimeRequest : Type 0 where
  pub job_id : String
  pub project_id : String
  pub cloud_mode : CloudMode
  pub job_config : Fields
  pub inventory_artifact_id : String
  pub ast_index_artifact_id : String
  pub inventory_payload : String
  pub ast_index_payload : String
  pub source_index_artifact_id : Option String
  pub source_index_payload : Option String

pub record AgentRuntimeResult : Type 0 where
  pub message : String
  pub plan_artifact : Artifact
  pub memory_artifacts : List Artifact
  pub knowledge_artifact : Artifact
  pub tool_registry_artifact : Artifact
  pub agent_execution_artifacts : List Artifact
  pub inference_artifacts : List Artifact
  pub runtime_diagnosis_artifacts : List Artifact
  pub report_section_artifacts : List Artifact
  pub repair_instruction_artifacts : List Artifact
  pub review_artifact : Artifact
  pub tool_call_artifact : Artifact

pub record ReconstructionResult : Type 0 where
  pub message : String
  pub generated_project_artifact : Artifact
  pub artifact_ids : List String

-- `BuildValidationStageResult` with its `ReviewRun`
pub record BuildValidationStageResult : Type 0 where
  pub message : String
  pub review_type : ReviewType
  pub attempt : ℕ
  pub status : RunStatus
  pub failure_class : FailureClass

pub record BuildValidationResult : Type 0 where
  pub build : BuildValidationStageResult
  pub typecheck : BuildValidationStageResult
  pub repair_artifacts : List Artifact
  pub artifact_ids : List String

pub record RuntimeSmokeResult : Type 0 where
  pub message : String
  pub artifact_ids : List String

pub record RuntimeCompareResult : Type 0 where
  pub message : String
  pub comparison_artifacts : List Artifact
  pub report_artifacts : List Artifact
  pub trace_artifacts : List Artifact
  pub scenario_artifacts : List Artifact
  pub screenshot_artifacts : List Artifact
  pub artifact_ids : List String

pub record RuntimeCompareReviewGateResult : Type 0 where
  pub enabled : Bool
  pub triggered : Bool
  pub review_artifact : Option Artifact
  pub repair_artifact : Option Artifact
  pub message : String
  pub artifact_ids : List String

pub record RuntimeCompareRepairResult : Type 0 where
  pub repair_artifact : Option Artifact
  pub applied_project_artifact : Option Artifact
  pub message : String
  pub artifact_ids : List String

pub record PackagingResult : Type 0 where
  pub message : String
  pub primary_result_artifact : Option Artifact
  pub result_summary_artifact : Artifact
  pub delivery_kind : String
  pub final_status : JobStatus
  pub failure_class : FailureClass
  pub failure_reason : Option String

-- The dict that the pipeline keeps of one attempt of the runtime comparison.
pub record RuntimeAttempt : Type 0 where
  pub attempt : ℕ
  pub comparison_artifact_ids : List String
  pub validation_artifact_ids : List String
  pub trace_artifact_ids : List String
  pub scenario_artifact_ids : List String
  pub screenshot_artifact_ids : List String
  pub compare_message : String
  pub review_gate_enabled : Bool
  pub review_gate_triggered : Bool
  pub review_artifact_id : Option String
  pub planned_repair_artifact_id : Option String
  pub review_message : String
  pub repair_artifact_id : Option String
  pub applied_project_artifact_id : Option String
  pub repair_message : Option String

-- `runtime_compare_stop_reason`; the context starts with `unknown`.
pub data StopReason : Type 0 where
  unknown_stop review_gate_passed_or_disabled retry_budget_exhausted repair_not_applied : StopReason

-- `PipelineContext`, less the job id, the input and the store, which do not change, with the
-- events of its `run`.
pub record PipelineContext : Type 0 where
  pub events : List PipelineEvent
  pub job : Option Job
  pub agent_result : Option AgentRuntimeResult
  pub build_validation_result : Option BuildValidationResult
  pub evidence_parent_ids : List String
  pub packaging_parent_ids : List String
  pub runtime_compare_attempts : List RuntimeAttempt
  pub runtime_compare_stop_reason : StopReason
  pub runtime_compare_max_attempts : ℕ
  pub current_project_artifact : Option Artifact

-- A call outside the pipeline, which answers or raises.
pub data Answer (A : Type 0) : Type 0 where
  returns : A → Answer A
  raises : Fault → Answer A

abbrev pub Act : Type 0 → Type 0 → Type 0
Act W A = W → Answer A × W
