-- ===== src/Crew/Run.antt =====
-- `execute` and `_execute_spec` of `CrewExecutionManager`, in apps/worker/worker/agent_runtime.py.
-- The adapter and the text of a prompt are parameters. An agent of a stage reads only what the
-- stages before it recorded, so that the threads of a stage are one pass over its agents.
pub mod Steps
pub mod Records
pub mod Members
pub mod Skips
pub mod Selection
use Prim.Native.Nat.{min, max}
use ai_jsunpack.Prelude.{
  ℕ, suc, String, text_append, Bool, true, false, not, ◌&&◌, ◌||◌, Option, none, some, List, [],
  ◌∷◌, ◌++◌, map, if◌then◌else◌, leb, ltb, str_eq, str, contains, filter, length,
}
use ai_jsunpack.Json.{Json, Fields, end, field, arr, text, Items, nil, cons, get}
use ai_jsunpack.Store.Types.{FailureClass, no_failure, agent_failed, resource_limit}
use ai_jsunpack.Worker.Pipeline.Config.{IntOfText, to_int, clamp}
use ai_jsunpack.Crew.Specs.{CrewAgentSpec, specialist_agent_names}
use ai_jsunpack.Crew.Plan.{Planned, planned, refused, bind_planned, build_stage_order}
use ai_jsunpack.Crew.Executions.{
  ExecutionStatus, pass, fail, skipped, AgentRepairInstructionDraft, AgentReviewDraft,
  CrewAgentExecution, CrewStageExecution, has_failed, is_no_failure, stage_execution, is_unfinished,
}
use ai_jsunpack.Crew.Budget.{
  DumpedBytes, agents_setting, ContextBudgetAudit, apply_context_budget, audit_json,
}

-- What an execution manager is built with, and the request: the adapter, `_prompt_context_for_agent`
-- (an agent, the stages and the executions so far), and the request of the job.
pub record RuntimeContext : Type 0 where
  pub execute_agent : CrewAgentSpec → Fields → CrewAgentExecution
  pub adapter_parallel_safe : Bool
  pub prompt_context_for_agent :
      CrewAgentSpec → List CrewStageExecution → List CrewAgentExecution → Fields
  pub int : IntOfText
  pub bytes : DumpedBytes
  pub job_config : Fields
  pub input_artifact_ids : List String
  pub evidence_refs : List String

-- `executions_by_name.get(name)`
unfoldable pub execution_of : String → List CrewAgentExecution → Option CrewAgentExecution
execution_of name [] = none
execution_of name (e ∷ rest) = if str_eq name e.spec.name then some e else execution_of name rest

-- `executions_by_name[name] = execution`: a name that is there keeps its place.
unfoldable pub put_execution :
    CrewAgentExecution → List CrewAgentExecution → List CrewAgentExecution
put_execution e [] = e ∷ []
put_execution e (x ∷ rest) =
    if str_eq e.spec.name x.spec.name then e ∷ rest else x ∷ put_execution e rest

-- `executions_by_name.update(...)`
unfoldable pub put_all : List CrewAgentExecution → List CrewAgentExecution → List CrewAgentExecution
unfolding put_execution
put_all [] known = known
put_all (e ∷ rest) known = put_all rest (put_execution e known)

-- `spec.name == "AnalysisAgent" and name == "PlannerAgent"`
unfoldable pub is_exempt : String → String → Bool
is_exempt name dependency = str_eq name "AnalysisAgent" && str_eq dependency "PlannerAgent"

unfoldable pub blocker : String → String → Option CrewAgentExecution → List CrewAgentExecution
unfolding is_exempt has_failed
blocker name dependency none = []
blocker name dependency (some e) =
    if not (is_exempt name dependency) && has_failed e then e ∷ [] else []

-- The dependencies that `_execute_spec` finds failed
unfoldable pub blocked : String → List String → List CrewAgentExecution → List CrewAgentExecution
unfolding blocker execution_of
blocked name [] executions = []
blocked name (d ∷ rest) executions =
    blocker name d (execution_of d executions) ++ blocked name rest executions

unfoldable pub skipped_execution :
    RuntimeContext → CrewAgentSpec → CrewAgentExecution → CrewAgentExecution
skipped_execution c spec first = record {
  spec = spec;
  status = skipped;
  failure_class = if is_no_failure first.failure_class then agent_failed else first.failure_class;
  attempt = 0;
  input_artifact_ids = c.input_artifact_ids;
  evidence_refs = c.evidence_refs;
  message =
      text_append spec.name (text_append " 已跳过，因为依赖 " (text_append first.spec.name " 未成功完成。"));
  raw_output = end;
  inferences = [];
  repair_instructions = [];
  review = none;
}

abbrev budget_message : CrewAgentSpec → ContextBudgetAudit → String
budget_message spec audit = text_append "未调用 " (
    text_append spec.name (
      text_append "，因为所需上下文超过 agents.contextBudget （预估 token 数 " (
        text_append (str audit.estimated_tokens_after)
          (text_append " > " (text_append (str audit.budget_tokens) "）。")))))

unfoldable pub context_budget_exceeded_execution :
    RuntimeContext → CrewAgentSpec → ContextBudgetAudit → CrewAgentExecution
unfolding audit_json
context_budget_exceeded_execution c spec audit =
    let message = budget_message spec audit in
    record {
      spec = spec;
      status = fail;
      failure_class = resource_limit;
      attempt = 0;
      input_artifact_ids = c.input_artifact_ids;
      evidence_refs = c.evidence_refs;
      message = message;
      raw_output =
          field "limitations" (arr (cons (text message) nil))
            (field "contextBudgetAudit" (audit_json audit) end);
      inferences = [];
      repair_instructions = [];
      review =
          if str_eq spec.name "ReviewAgent"
          then some (record {
            status = fail;
            decision = message;
            failure_class = resource_limit;
            repair_instruction_ids = [];
          })
          else none;
    }

-- `draft.id or f"{spec.name}:repair:{index}"`
unfoldable pub number_repairs :
    String → ℕ → List AgentRepairInstructionDraft → List AgentRepairInstructionDraft
number_repairs name index [] = []
number_repairs name index (draft ∷ rest) =
    let named =
      if str_eq draft.id ""
      then text_append name (text_append ":repair:" (str index))
      else draft.id in
    record (draft) { id = named } ∷ number_repairs name (suc index) rest

-- The call of the adapter, if the prompt is within the budget
unfoldable pub call_agent :
    RuntimeContext → CrewAgentSpec → Fields × ContextBudgetAudit → CrewAgentExecution
unfolding context_budget_exceeded_execution number_repairs
call_agent c spec (prompt, audit) =
    let execution = c.execute_agent spec prompt in
    if audit.within_budget
    then record (execution) {
      repair_instructions = number_repairs spec.name 1 execution.repair_instructions;
    }
    else context_budget_exceeded_execution c spec audit

unfoldable pub run_unless_blocked :
    RuntimeContext
    → CrewAgentSpec
    → List CrewStageExecution
    → List CrewAgentExecution
    → List CrewAgentExecution
    → CrewAgentExecution
unfolding skipped_execution call_agent apply_context_budget
run_unless_blocked c spec stages executions [] = call_agent c spec (
    apply_context_budget c.int c.bytes c.job_config spec
      (c.prompt_context_for_agent spec stages executions))
run_unless_blocked c spec stages executions (first ∷ _) = skipped_execution c spec first

-- `_execute_spec`
unfoldable pub execute_spec :
    RuntimeContext
    → List CrewStageExecution
    → List CrewAgentExecution
    → CrewAgentSpec
    → CrewAgentExecution
unfolding blocked run_unless_blocked
execute_spec c stages executions spec =
    run_unless_blocked c spec stages executions (blocked spec.name spec.dependencies executions)
