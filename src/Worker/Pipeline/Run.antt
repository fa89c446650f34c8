-- ===== src/Worker/Pipeline/Run.antt =====
-- The summaries after the review loop of apps/worker/worker/pipeline.py, and the run of all stages.
use ai_jsunpack.Prelude.{ℕ, String, Option, none, some, [], ◌∷◌}
use ai_jsunpack.Json.{end}
use ai_jsunpack.Store.Types.{
  leased, runtime_compare, reviewing, cancelled, failed, FailureClass, parse_error, agent_failed,
  unknown, build_error,
}
use ai_jsunpack.Store.Artifacts.{runtime_trace}
use ai_jsunpack.Worker.Pipeline.Types.{
  Fault, pipeline_cancelled, core_bridge_error, agent_runtime_error, reconstruction_error,
  build_validation_error, packaging_error, other_error, BuildValidationResult, AgentRuntimeResult,
}
use ai_jsunpack.Worker.Pipeline.Config.{
  IntOfText, runtime_compare_max_attempts, review_fix_policy, ReviewFixPolicy,
}
use ai_jsunpack.Worker.Pipeline.Summary.{
  retry_summary, build_summary_of, runtime_summary_of, convergence_summary,
}
use ai_jsunpack.Worker.Pipeline.Host.{
  Host, retry_payload, convergence_payload, Run, Step, Outcome, value, fault, out_of_fuel, call,
  modify, throw, return, with_context, ◌>>=◌, ◌>>◌,
}
use ai_jsunpack.Worker.Pipeline.Stages.{
  transition, message_for, raise_if_cancelled, ids, id_of, run_core_and_agent,
  run_reconstruction_and_build, finalize_packaging,
}
use ai_jsunpack.Worker.Pipeline.Review.{config_of, add_parents, review_loop}

module _ {W : Type 0} (host : Host W) where
  -- The policy is read while the summary is built: its TypeError is no exception that the pipeline
  -- names.
  unfoldable pub require_policy : Option ReviewFixPolicy → Step W ReviewFixPolicy
  require_policy none = throw (other_error "unhashable type")
  require_policy (some policy) = return policy

  unfoldable pub require_results :
      Option BuildValidationResult
      → Option AgentRuntimeResult
      → Step W (BuildValidationResult × AgentRuntimeResult)
  require_results (some b) (some a) = return (b, a)
  require_results _ _ = throw (packaging_error "Review/Fix 收敛摘要缺少上游阶段结果。")

  -- The two summaries that are written after the loop.
  unfoldable pub write_summaries : IntOfText → Step W (Unit {0})
  unfolding call modify raise_if_cancelled require_policy require_results retry_summary
      build_summary_of runtime_summary_of convergence_summary review_fix_policy
  write_summaries int = do
    retried ← with_context λ c. call (
        host.write_artifact runtime_trace runtime_compare "runtime-compare-retry-summary.json"
          (retry_payload (
            retry_summary c.runtime_compare_max_attempts c.runtime_compare_attempts
              c.runtime_compare_stop_reason (id_of c.current_project_artifact)))
          c.packaging_parent_ids)
    modify (add_parents (retried.id ∷ []))
    results ← with_context λ c. require_results c.build_validation_result c.agent_result
    policy ← with_context λ c. require_policy (
        review_fix_policy int (elim (config_of c.job) [ none ↦ end | some fields ↦ fields ])
          c.runtime_compare_max_attempts)
    converged ← with_context λ c. call (
        host.write_artifact runtime_trace reviewing "review-fix-convergence-summary.json"
          (convergence_payload (
            convergence_summary policy (build_summary_of results.0)
              (runtime_summary_of c.runtime_compare_max_attempts c.runtime_compare_attempts
                c.runtime_compare_stop_reason (id_of c.current_project_artifact) retried.id)
              results.1.review_artifact.id (ids results.1.repair_instruction_artifacts) retried.id
              (id_of c.current_project_artifact)))
          c.packaging_parent_ids)
    modify (add_parents (converged.id ∷ []))
    raise_if_cancelled host

  -- `_run_runtime_review_fix`, with fuel for the loop
  unfoldable pub run_runtime_review_fix : IntOfText → ℕ → Step W (Unit {0})
  unfolding modify review_loop write_summaries runtime_compare_max_attempts
  run_runtime_review_fix int fuel = do
    modify λ c. record c {
      runtime_compare_max_attempts = runtime_compare_max_attempts int (config_of c.job);
    }
    review_loop host fuel 0
    write_summaries int

  -- The body of the `try` of `_run_core_analysis`
  unfoldable pub run_stages : IntOfText → ℕ → Step W (Unit {0})
  unfolding run_core_and_agent run_reconstruction_and_build run_runtime_review_fix
      finalize_packaging
  run_stages int fuel = do
    run_core_and_agent host
    run_reconstruction_and_build host
    run_runtime_review_fix int fuel
    finalize_packaging host

  unfoldable pub fail_job : FailureClass → String → Step W (Unit {0})
  unfolding call transition
  fail_job failure message = do
    call (host.update_status failed (some message) (some failure))
    transition failed message

  -- The `except` clauses
  unfoldable pub handle : Fault → Step W (Unit {0})
  unfolding transition fail_job
  handle (pipeline_cancelled message) = transition cancelled message
  handle (core_bridge_error message) = fail_job parse_error message
  handle (agent_runtime_error message) = fail_job agent_failed message
  handle (reconstruction_error message) = fail_job unknown message
  handle (build_validation_error message) = fail_job build_error message
  handle (packaging_error message) = fail_job unknown message
  handle (other_error message) = throw (other_error message)

  unfoldable pub handled : Outcome (Unit {0}) × Run W → Outcome (Unit {0}) × Run W
  unfolding handle
  handled (fault e, r) = handle e r
  handled (value u, r) = (value u, r)
  handled (out_of_fuel, r) = (out_of_fuel, r)

  -- `_run_core_analysis`
  unfoldable pub run_core_analysis : IntOfText → ℕ → Step W (Unit {0})
  unfolding transition message_for run_stages handled
  run_core_analysis int fuel = do
    transition leased (message_for leased)
    λ r. handled (run_stages int fuel r)
