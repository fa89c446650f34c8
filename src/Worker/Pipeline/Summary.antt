-- ===== src/Worker/Pipeline/Summary.antt =====
-- The summaries of the review and repair loop in apps/worker/worker/pipeline.py: what the loop did,
-- how the build validation ended, and the outcome that is reported.
use Prim.Native.Nat.{max}
use ai_jsunpack.Prelude.{
  ℕ, String, Bool, true, false, not, ◌&&◌, ◌||◌, ◌==◌, ltb, Option, none, some, List, [], ◌∷◌, ◌++◌,
  map, if◌then◌else◌, length, filter, str_eq,
}
use ai_jsunpack.Store.Types.{
  FailureClass, no_failure, build_error, type_error, dependency_missing, runtime_error,
  invalid_input, agent_failed, install_failed, parse_error, policy_denied, resource_limit,
  sandbox_denied, timeout, unknown,
}
use ai_jsunpack.Store.Artifacts.{ArtifactKind, generated_project, repair_instruction}
use ai_jsunpack.Worker.Pipeline.Types.{
  RunStatus, pass, best_effort, fail, ReviewType, BuildValidationResult, RuntimeAttempt, StopReason,
  retry_budget_exhausted, repair_not_applied,
}
use ai_jsunpack.Worker.Pipeline.Config.{unique_ids, ReviewFixPolicy}

-- The truth of an optional id.
abbrev pub is_truthy : Option String → Bool
is_truthy none = false
is_truthy (some s) = not (str_eq s "")

abbrev pub last : {A : Type 0} → List A → Option A
last [] = none
last (x ∷ []) = some x
last (x ∷ y ∷ ys) = last (y ∷ ys)

unfoldable pub is_budget_exhausted : StopReason → Bool
is_budget_exhausted retry_budget_exhausted = true
is_budget_exhausted _ = false

unfoldable pub is_repair_not_applied : StopReason → Bool
is_repair_not_applied repair_not_applied = true
is_repair_not_applied _ = false

unfoldable pub is_pass : RunStatus → Bool
is_pass pass = true
is_pass _ = false

-- The summary of the retries.
pub record RetrySummary : Type 0 where
  pub max_attempts : ℕ
  pub attempts_used : ℕ
  pub budget_exhausted : Bool
  pub stopped_reason : StopReason
  pub final_project_artifact_id : Option String
  pub final_review_status : RunStatus
  pub attempts : List RuntimeAttempt

-- `"fail" if triggered else "pass"` of the last attempt whose gate is enabled
unfoldable pub retry_status : List RuntimeAttempt → RunStatus
retry_status attempts = elim (last (filter (λ a. a.review_gate_enabled) attempts)) [
  | none ↦ best_effort
  | some a ↦ if a.review_gate_triggered then fail else pass
]

unfoldable pub retry_summary : ℕ → List RuntimeAttempt → StopReason → Option String → RetrySummary
unfolding retry_status is_budget_exhausted
retry_summary max_attempts attempts stop_reason project = record {
  max_attempts = max_attempts;
  attempts_used = length attempts;
  budget_exhausted = is_budget_exhausted stop_reason;
  stopped_reason = stop_reason;
  final_project_artifact_id = project;
  final_review_status = retry_status attempts;
  attempts = attempts;
}

pub record BuildSummary : Type 0 where
  pub max_attempt : ℕ
  pub latest_status_by_review_type : List (ReviewType × RunStatus)
  pub all_passed : Bool
  pub needs_attention : Bool
  pub failed_review_types : List ReviewType
  pub failure_classes : List FailureClass
  pub repair_instruction_ids : List String
  pub repair_instruction_count : ℕ
  pub applied_project_artifact_ids : List String
  pub applied_repair_count : ℕ
  pub evidence_artifact_ids : List String

unfoldable pub is_generated_project : ArtifactKind → Bool
is_generated_project generated_project = true
is_generated_project _ = false

unfoldable pub is_repair_instruction : ArtifactKind → Bool
is_repair_instruction repair_instruction = true
is_repair_instruction _ = false

unfoldable pub is_failure : FailureClass → Bool
is_failure no_failure = false
is_failure _ = true

-- The place of a class in the order of the names.
unfoldable pub class_rank : FailureClass → ℕ
class_rank agent_failed = 0
class_rank build_error = 1
class_rank dependency_missing = 2
class_rank install_failed = 3
class_rank invalid_input = 4
class_rank no_failure = 5
class_rank parse_error = 6
class_rank policy_denied = 7
class_rank resource_limit = 8
class_rank runtime_error = 9
class_rank sandbox_denied = 10
class_rank timeout = 11
class_rank type_error = 12
class_rank unknown = 13

-- `sorted({...})`
unfoldable pub insert_class : FailureClass → List FailureClass → List FailureClass
unfolding class_rank
insert_class a [] = a ∷ []
insert_class a (b ∷ bs) =
    let rest = insert_class a bs in
    if class_rank a == class_rank b
    then b ∷ bs
    else if ltb (class_rank a) (class_rank b)
    then a ∷ b ∷ bs
    else b ∷ rest

unfoldable pub sorted_classes : List FailureClass → List FailureClass
unfolding insert_class
sorted_classes [] = []
sorted_classes (a ∷ rest) = insert_class a (sorted_classes rest)

unfoldable pub build_summary_of : BuildValidationResult → BuildSummary
unfolding is_generated_project is_repair_instruction is_pass is_failure unique_ids sorted_classes
build_summary_of result =
    let stages = result.build ∷ result.typecheck ∷ [] in
    let failed_stages = filter (λ s. not (is_pass s.status)) stages in
    let applied =
      map (λ a. a.id) (filter (λ a. is_generated_project a.kind) result.repair_artifacts) in
    let planned =
      map (λ a. a.id) (filter (λ a. is_repair_instruction a.kind) result.repair_artifacts) in
    record {
      max_attempt = max result.build.attempt result.typecheck.attempt;
      latest_status_by_review_type = map (λ s. (s.review_type, s.status)) stages;
      all_passed = is_pass result.build.status && is_pass result.typecheck.status;
      needs_attention = not (is_pass result.build.status) || not (is_pass result.typecheck.status);
      failed_review_types = map (λ s. s.review_type) failed_stages;
      failure_classes =
          sorted_classes (filter is_failure (map (λ s. s.failure_class) failed_stages));
      repair_instruction_ids = planned;
      repair_instruction_count = length planned;
      applied_project_artifact_ids = applied;
      applied_repair_count = length applied;
      evidence_artifact_ids = unique_ids result.artifact_ids;
    }

pub record RuntimeSummary : Type 0 where
  pub max_attempts : ℕ
  pub attempts_used : ℕ
  pub budget_exhausted : Bool
  pub stopped_reason : StopReason
  pub final_review_status : RunStatus
  pub final_project_artifact_id : Option String
  pub planned_repair_count : ℕ
  pub applied_repair_count : ℕ
  pub triggered_review_count : ℕ
  pub has_runtime_error : Bool
  pub attempts : List RuntimeAttempt
  pub evidence_artifact_ids : List String

unfoldable pub final_review_status_of : List RuntimeAttempt → RunStatus
final_review_status_of attempts = elim (last attempts) [
  | none ↦ pass
  | some a ↦
      if not a.review_gate_enabled
      then best_effort
      else if a.review_gate_triggered
      then fail
      else pass
]

-- The ids of one attempt that are not None and not blank.
unfoldable pub attempt_evidence : RuntimeAttempt → List String
attempt_evidence a =
    filter (λ s. not (str_eq s ""))
      (a.comparison_artifact_ids
        ++ (a.validation_artifact_ids
            ++ (a.trace_artifact_ids
                ++ (a.scenario_artifact_ids
                    ++ (a.screenshot_artifact_ids
                        ++ (to_list a.review_artifact_id
                            ++ (to_list a.planned_repair_artifact_id
                                ++ (to_list a.repair_artifact_id
                                    ++ to_list a.applied_project_artifact_id))))))))
  where
    to_list : Option String → List String
    to_list none = []
    to_list (some s) = s ∷ []

unfoldable pub evidence_of : List RuntimeAttempt → List String
unfolding attempt_evidence
evidence_of [] = []
evidence_of (a ∷ rest) = attempt_evidence a ++ evidence_of rest

unfoldable pub runtime_summary_of :
    ℕ → List RuntimeAttempt → StopReason → Option String → String → RuntimeSummary
unfolding is_budget_exhausted final_review_status_of evidence_of unique_ids
runtime_summary_of max_attempts attempts stop_reason project retry_summary_artifact_id =
    let triggered = length (filter (λ a. a.review_gate_triggered) attempts) in
    record {
      max_attempts = max_attempts;
      attempts_used = length attempts;
      budget_exhausted = is_budget_exhausted stop_reason;
      stopped_reason = stop_reason;
      final_review_status = final_review_status_of attempts;
      final_project_artifact_id = project;
      planned_repair_count = length (filter (λ a. is_truthy a.planned_repair_artifact_id) attempts);
      applied_repair_count =
          length (filter (λ a. is_truthy a.applied_project_artifact_id) attempts);
      triggered_review_count = triggered;
      has_runtime_error = ltb 0 triggered;
      attempts = attempts;
      evidence_artifact_ids = unique_ids (retry_summary_artifact_id ∷ evidence_of attempts);
    }

pub data FinalOutcome : Type 0 where
  budget_exhausted_best_effort no_deterministic_repair repaired_passed passed_without_repair
        best_effort_with_limitations :
      FinalOutcome

unfoldable pub review_fix_final_outcome : BuildSummary → RuntimeSummary → FinalOutcome
unfolding is_pass is_repair_not_applied
review_fix_final_outcome b r =
    if r.budget_exhausted
    then budget_exhausted_best_effort
    else if is_repair_not_applied r.stopped_reason
    then no_deterministic_repair
    else if ltb 0 r.applied_repair_count && is_pass r.final_review_status
    then repaired_passed
    else if ltb 0 b.applied_repair_count && b.all_passed && is_pass r.final_review_status
    then repaired_passed
    else if (b.repair_instruction_count == 0)
        && (r.planned_repair_count == 0)
        && is_pass r.final_review_status
        && b.all_passed
    then passed_without_repair
    else best_effort_with_limitations

-- `final_outcome in {"passed_without_repair", "repaired_passed"}`
unfoldable pub is_passed : FinalOutcome → Bool
is_passed passed_without_repair = true
is_passed repaired_passed = true
is_passed _ = false

-- The summary that `_write_review_fix_convergence_summary` writes, less the texts for its reader.
pub record ConvergenceSummary : Type 0 where
  pub final_outcome : FinalOutcome
  pub status : RunStatus
  pub failure_class : FailureClass
  pub policy : ReviewFixPolicy
  pub build_typecheck : BuildSummary
  pub runtime_compare : RuntimeSummary
  pub agent_review_artifact_id : String
  pub repair_instruction_ids : List String
  pub evidence_artifact_ids : List String

unfoldable pub convergence_summary :
    ReviewFixPolicy
    → BuildSummary
    → RuntimeSummary
    → String
    → List String
    → String
    → Option String
    → ConvergenceSummary
unfolding review_fix_final_outcome is_passed unique_ids
convergence_summary policy b r agent_review agent_repairs retry_summary_artifact_id project =
    let outcome = review_fix_final_outcome b r in
    record {
      final_outcome = outcome;
      status = if is_passed outcome then pass else best_effort;
      failure_class = if is_passed outcome then no_failure else runtime_error;
      policy = policy;
      build_typecheck = b;
      runtime_compare = r;
      agent_review_artifact_id = agent_review;
      repair_instruction_ids = agent_repairs;
      evidence_artifact_ids = unique_ids (
          b.evidence_artifact_ids
          ++ (agent_review ∷ agent_repairs
              ++ (retry_summary_artifact_id ∷ r.evidence_artifact_ids
                  ++ elim project [ none ↦ [] | some p ↦ p ∷ [] ])));
    }
