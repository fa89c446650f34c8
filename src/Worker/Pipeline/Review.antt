-- ===== src/Worker/Pipeline/Review.antt =====
-- The review and repair loop of apps/worker/worker/pipeline.py.
use ai_jsunpack.Prelude.{
  ℕ, zero, suc, ◌+◌, String, Bool, true, false, ◌&&◌, Option, none, some, List, [], ◌∷◌, ◌++◌,
  if◌then◌else◌, leb, ltb,
}
use ai_jsunpack.Json.{Fields}
use ai_jsunpack.Store.Types.{runtime_smoke, runtime_compare, reviewing, repairing}
use ai_jsunpack.Store.Jobs.{Job}
use ai_jsunpack.Store.Artifacts.{Artifact}
use ai_jsunpack.Worker.Pipeline.Types.{
  PipelineContext, RuntimeAttempt, RuntimeCompareResult, RuntimeCompareReviewGateResult,
  RuntimeCompareRepairResult, StopReason, review_gate_passed_or_disabled, retry_budget_exhausted,
  repair_not_applied,
}
use ai_jsunpack.Worker.Pipeline.Config.{unique_ids, runtime_compare_config}
use ai_jsunpack.Worker.Pipeline.Host.{
  Host, Step, out_of_fuel, call, modify, return, with_context, ◌>>=◌, ◌>>◌,
}
use ai_jsunpack.Worker.Pipeline.Stages.{transition, raise_if_cancelled, ids, id_of}

-- `context.job.config if context.job is not None else None`
abbrev pub config_of : Option Job → Option Fields
config_of none = none
config_of (some job) = some job.config

-- `context.packaging_parent_ids = self._unique_ids([*context.packaging_parent_ids, *more])`
abbrev pub add_parents : List String → PipelineContext → PipelineContext
add_parents more c = record c { packaging_parent_ids = unique_ids (c.packaging_parent_ids ++ more) }

unfoldable pub attempt_of :
    ℕ → RuntimeCompareResult → RuntimeCompareReviewGateResult → RuntimeAttempt
attempt_of n compared gate = record {
  attempt = n;
  comparison_artifact_ids = ids compared.comparison_artifacts;
  validation_artifact_ids = ids compared.report_artifacts;
  trace_artifact_ids = ids compared.trace_artifacts;
  scenario_artifact_ids = ids compared.scenario_artifacts;
  screenshot_artifact_ids = ids compared.screenshot_artifacts;
  compare_message = compared.message;
  review_gate_enabled = gate.enabled;
  review_gate_triggered = gate.triggered;
  review_artifact_id = id_of gate.review_artifact;
  planned_repair_artifact_id = id_of gate.repair_artifact;
  review_message = gate.message;
  repair_artifact_id = none;
  applied_project_artifact_id = none;
  repair_message = none;
}

-- `context.runtime_compare_attempts[-1].update(...)` after a repair
unfoldable pub note_repair : RuntimeCompareRepairResult → List RuntimeAttempt → List RuntimeAttempt
note_repair result [] = []
note_repair result (a ∷ []) =
    record a {
      repair_artifact_id = id_of result.repair_artifact;
      applied_project_artifact_id = id_of result.applied_project_artifact;
      repair_message = some result.message;
    }
    ∷ []
note_repair result (a ∷ b ∷ rest) = a ∷ note_repair result (b ∷ rest)

-- `context.runtime_compare_stop_reason = reason`, then `break`
abbrev pub stop : {W : Type 0} → StopReason → Step W (Unit {0})
stop reason = modify (λ c. record c { runtime_compare_stop_reason = reason })

module _ {W : Type 0} (host : Host W) where
  -- `if gate.triggered and runtime_attempt + 1 < max_attempts`
  unfoldable pub note_planned_repair : Bool → Step W (Unit {0})
  unfolding transition
  note_planned_repair true = transition repairing "运行时对比审查已生成用于后续 Review/Fix 流程的修复证据。"
  note_planned_repair false = return tt

  unfoldable pub note_review_if : Bool → ℕ → RuntimeCompareReviewGateResult → Step W (Unit {0})
  unfolding transition note_planned_repair
  note_review_if true n gate = do
    transition reviewing gate.message
    with_context
        λ c. note_planned_repair (gate.triggered && ltb (n + 1) c.runtime_compare_max_attempts)
  note_review_if false n gate = return tt

  -- `if gate.enabled`
  unfoldable pub note_review : ℕ → RuntimeCompareReviewGateResult → Step W (Unit {0})
  unfolding note_review_if
  note_review n gate = note_review_if gate.enabled n gate

  -- The end of an attempt, from `context.runtime_compare_attempts.append` on
  unfoldable pub record_attempt :
      ℕ
      → RuntimeCompareResult
      → RuntimeCompareReviewGateResult
      → Step W RuntimeCompareReviewGateResult
  unfolding modify raise_if_cancelled attempt_of
  record_attempt n compared gate = do
    modify λ c. record c {
      runtime_compare_attempts = c.runtime_compare_attempts ++ attempt_of n compared gate ∷ [];
    }
    raise_if_cancelled host
    modify (add_parents gate.artifact_ids)
    return gate

  -- `_run_runtime_compare_attempt`
  unfoldable pub run_runtime_compare_attempt : ℕ → Step W RuntimeCompareReviewGateResult
  unfolding call modify transition raise_if_cancelled note_review record_attempt
  run_runtime_compare_attempt n = do
    smoke ← with_context λ c. call (host.smoke c.current_project_artifact c.packaging_parent_ids n)
    transition runtime_smoke smoke.message
    raise_if_cancelled host
    modify (add_parents smoke.artifact_ids)
    compared ← with_context λ c. call (
        host.compare c.current_project_artifact (runtime_compare_config (config_of c.job))
          c.packaging_parent_ids n)
    transition runtime_compare compared.message
    raise_if_cancelled host
    modify (add_parents compared.artifact_ids)
    gate ← with_context λ c.
        call
          (host.review_gate compared.comparison_artifacts (config_of c.job) compared.artifact_ids n)
    note_review n gate
    record_attempt n compared gate

  -- What is kept of a repair that was not cancelled.
  unfoldable pub record_repair : RuntimeCompareRepairResult → Step W RuntimeCompareRepairResult
  unfolding modify note_repair
  record_repair result = do
    modify (add_parents result.artifact_ids)
    modify
        λ c. record c { runtime_compare_attempts = note_repair result c.runtime_compare_attempts }
    return result

  -- The repair after attempt `n`, up to the test of what it applied.
  unfoldable pub run_repair : ℕ → RuntimeCompareReviewGateResult → Step W RuntimeCompareRepairResult
  unfolding call transition raise_if_cancelled record_repair
  run_repair n gate = do
    result ← with_context λ c. call (
        host.repair c.current_project_artifact gate.repair_artifact (config_of c.job)
          c.packaging_parent_ids (n + 1))
    transition repairing result.message
    raise_if_cancelled host
    record_repair result

  -- `while True`, on fuel. `again` is the loop from the next attempt on.
  unfoldable pub after_repair : Step W (Unit {0}) → Option Artifact → Step W (Unit {0})
  unfolding modify
  after_repair again none = stop repair_not_applied
  after_repair again (some project) = do
    modify (λ c. record c { current_project_artifact = some project })
    again

  unfoldable pub after_attempt :
      Step W (Unit {0}) → ℕ → RuntimeCompareReviewGateResult → Step W (Unit {0})
  unfolding modify run_repair after_repair
  after_attempt again n gate = with_context λ c.
      if gate.enabled && gate.triggered
      then if leb c.runtime_compare_max_attempts (n + 1)
        then stop retry_budget_exhausted
        else (do result ← run_repair n gate; after_repair again result.applied_project_artifact)
      else stop review_gate_passed_or_disabled

  unfoldable pub review_loop : ℕ → ℕ → Step W (Unit {0})
  unfolding run_runtime_compare_attempt after_attempt
  review_loop zero n r = (out_of_fuel, r)
  review_loop (suc fuel) n r =
      (do gate ← run_runtime_compare_attempt n; after_attempt (review_loop fuel (n + 1)) n gate) r
