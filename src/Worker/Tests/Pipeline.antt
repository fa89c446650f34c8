-- ===== src/Worker/Tests/Pipeline.antt =====
-- Runners in memory, on which the theorems of the pipeline are applied: the first comparison asks
-- for a repair, which is applied, and the second passes.
use ai_jsunpack.Prelude.{
  ℕ, ◌==◌, ◌≡◌, refl, String, Bool, true, false, ◌&&◌, Option, none, some, List, [], ◌∷◌, ◌++◌,
  arith,
}
use ai_jsunpack.Store.Types.{JobStatus, intake, completed, no_failure}
use ai_jsunpack.Store.Artifacts.{Artifact}
use ai_jsunpack.Store.Tests.{job}
use ai_jsunpack.Store.Tests.Deletion.{artifact}
use ai_jsunpack.Worker.Pipeline.Types.{
  PipelineContext, RuntimeAttempt, returns, pass, fail, build, typecheck,
  review_gate_passed_or_disabled, BuildValidationStageResult,
}
use ai_jsunpack.Worker.Pipeline.Config.{IntOfText}
use ai_jsunpack.Worker.Pipeline.Host.{Host}
use ai_jsunpack.Worker.Pipeline.Summary.{
  BuildSummary, is_passed, review_fix_final_outcome, runtime_summary_of,
}
use ai_jsunpack.Worker.Pipeline.Review.{review_loop}
use ai_jsunpack.Worker.Pipeline.Run.{run_core_analysis}
use ai_jsunpack.Worker.Pipeline.Triples.{Post}
use ai_jsunpack.Worker.Pipeline.Loop.{HasConverged, review_loop-HasConverged}
use ai_jsunpack.Worker.Pipeline.Ends.{new_context, RunEnds, run_core_analysis-RunEnds}
use ai_jsunpack.Worker.Pipeline.Verdict.{
  passes_review, explains_pass, review_fix_final_outcome-is_passed,
}

-- The world is the statuses that the pipeline has reported.
abbrev World : Type 0
World = List JobStatus

abbrev file : String → Artifact
file id = artifact id "a"

abbrev stage : BuildValidationStageResult
stage = record {
  message = "ok";
  review_type = build;
  attempt = 1;
  status = pass;
  failure_class = no_failure;
}

abbrev runners : Host World
runners = record {
  job_id = "a";
  update_status = λ s why class w. (returns tt, w ++ s ∷ []);
  get_job = λ w. (returns (some (job "a" intake 1 none "x+")), w);
  write_artifact = λ kind at name payload parents w. (returns (file name), w);
  latest_project = λ w. (returns none, w);
  update_job_delivery = λ kind primary summary w. (returns tt, w);
  analyze_input_package = λ w. (
    returns (record {
      inventory_artifact_payload = "i";
      ast_index_artifact_payload = "t";
      source_index_artifact_payload = none;
    }),
    w,
  );
  run_agents = λ request w. (
    returns (record {
      message = "done";
      plan_artifact = file "plan";
      memory_artifacts = [];
      knowledge_artifact = file "knowledge";
      tool_registry_artifact = file "tools";
      agent_execution_artifacts = [];
      inference_artifacts = [];
      runtime_diagnosis_artifacts = [];
      report_section_artifacts = [];
      repair_instruction_artifacts = [];
      review_artifact = file "review";
      tool_call_artifact = file "calls";
    }),
    w,
  );
  reconstruct = λ parents w. (
    returns (record {
      message = "done";
      generated_project_artifact = file "project";
      artifact_ids = "project" ∷ [];
    }),
    w,
  );
  validate_build = λ parents w. (
    returns (record {
      build = stage;
      typecheck = record stage { review_type = typecheck };
      repair_artifacts = [];
      artifact_ids = "log" ∷ [];
    }),
    w,
  );
  smoke = λ project parents n w. (returns (record { message = "ok"; artifact_ids = [] }), w);
  compare = λ project config parents n w. (
    returns (record {
      message = "compared";
      comparison_artifacts = file "comparison" ∷ [];
      report_artifacts = [];
      trace_artifacts = [];
      scenario_artifacts = [];
      screenshot_artifacts = [];
      artifact_ids = "comparison" ∷ [];
    }),
    w,
  );
  review_gate = λ compared config parents n w. (
    returns (record {
      enabled = true;
      triggered = n == 0;
      review_artifact = none;
      repair_artifact = none;
      message = "reviewed";
      artifact_ids = [];
    }),
    w,
  );
  repair = λ project planned config parents n w. (
    returns (record {
      repair_artifact = none;
      applied_project_artifact = some (file "project2");
      message = "repaired";
      artifact_ids = "project2" ∷ [];
    }),
    w,
  );
  run_packaging = λ parents w. (
    returns (record {
      message = "packed";
      primary_result_artifact = some (file "result");
      result_summary_artifact = file "summary";
      delivery_kind = "project_package";
      final_status = completed;
      failure_class = no_failure;
      failure_reason = none;
    }),
    w,
  );
}

abbrev no_texts : IntOfText
no_texts = λ s. none

run_core_analysis-RunEnds_example :
    RunEnds (run_core_analysis runners no_texts 5 (record { context = new_context; world = [] }))
run_core_analysis-RunEnds_example =
    run_core_analysis-RunEnds runners (λ s why class w f e. cc e) no_texts []

review_loop-HasConverged_example :
    Post
      (λ _ c. HasConverged 2 c)
      (review_loop runners 2 0 (record { context = new_context; world = [] }))
review_loop-HasConverged_example =
    review_loop-HasConverged runners 2 2 0 (record { context = new_context; world = [] })
      (record { budget = refl; in_budget = omega arith; used = refl; repaired = tt }) (omega arith)

-- Two attempts: the first was repaired, the second passed.
abbrev attempt_at : ℕ → Bool → Option String → RuntimeAttempt
attempt_at n triggered project = record {
  attempt = n;
  comparison_artifact_ids = [];
  validation_artifact_ids = [];
  trace_artifact_ids = [];
  scenario_artifact_ids = [];
  screenshot_artifact_ids = [];
  compare_message = "";
  review_gate_enabled = true;
  review_gate_triggered = triggered;
  review_artifact_id = none;
  planned_repair_artifact_id = none;
  review_message = "";
  repair_artifact_id = none;
  applied_project_artifact_id = project;
  repair_message = none;
}

abbrev repaired_once : PipelineContext
repaired_once = record new_context {
  runtime_compare_attempts = attempt_at 0 true (some "project2") ∷ attempt_at 1 false none ∷ [];
  runtime_compare_stop_reason = review_gate_passed_or_disabled;
}

abbrev repaired_once-HasConverged : HasConverged 2 repaired_once
repaired_once-HasConverged = record {
  earlier = attempt_at 0 true (some "project2") ∷ [];
  final = attempt_at 1 false none;
  recorded = refl;
  repaired = (record { asked = refl; project = "project2"; applied = refl }, tt);
  in_budget = omega arith;
  stops = refl;
}

-- The build has failed.
abbrev broken_build : BuildSummary
broken_build = record {
  max_attempt = 1;
  latest_status_by_review_type = (build, fail) ∷ (typecheck, pass) ∷ [];
  all_passed = false;
  needs_attention = true;
  failed_review_types = build ∷ [];
  failure_classes = [];
  repair_instruction_ids = [];
  repair_instruction_count = 0;
  applied_project_artifact_ids = [];
  applied_repair_count = 0;
  evidence_artifact_ids = [];
}

review_fix_final_outcome-is_passed_example :
    is_passed (
      review_fix_final_outcome broken_build (
        runtime_summary_of 2 repaired_once.runtime_compare_attempts
          repaired_once.runtime_compare_stop_reason
          (some "project2")
          "s"))
    ≡ (passes_review (attempt_at 1 false none)
        && explains_pass broken_build (
            runtime_summary_of 2 repaired_once.runtime_compare_attempts
              repaired_once.runtime_compare_stop_reason
              (some "project2")
              "s"))
review_fix_final_outcome-is_passed_example =
    review_fix_final_outcome-is_passed 2 repaired_once repaired_once-HasConverged broken_build 2
      (some "project2") "s"
