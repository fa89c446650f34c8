-- ===== src/Worker/Tests/Runner.antt =====
-- Runs of a leased job whose source input is missing, by the worker that holds the lease and by one
-- that lost it.
use ai_jsunpack.Prelude.{◌≡◌, refl, String, none, some, [], ◌∷◌}
use ai_jsunpack.Prelude.Table.{find}
use ai_jsunpack.Store.Types.{intake, is_terminal}
use ai_jsunpack.Store.Jobs.{Job, find_live, is_not_holder}
use ai_jsunpack.Store.Tests.{job}
use ai_jsunpack.Worker.Runner.{
  invalid_value_error, finished, raised, WorkerQueueRunner, source_artifact, run_source,
  run_leased_job,
}
use ai_jsunpack.Worker.Runner.Failures.{
  unchanged, IsReported, failed_with, failed_answer, run_leased_job-raised,
  run_leased_job-IsReported,
}

abbrev held : Job
held = job "a" intake 1 (some (record { worker_id = "worker-b"; expires_at = "xxxxx+" })) "x+"

abbrev runner : String → WorkerQueueRunner
runner name = record {
  worker_id = name;
  lease_seconds = 300;
  max_attempts = 3;
  prepare_input = λ artifact. none;
  pipeline_run = λ job_id jobs. (finished none, jobs);
}

abbrev missing_text : String
missing_text = "任务 a 的源输入 artifact 缺失：artifact_1"

missing :
    (name : String)
    → run_source (runner name) "a" (source_artifact held []) (held ∷ [])
      ≡ (raised invalid_value_error missing_text, held ∷ [])
unfolding run_source source_artifact
missing name = refl

run_leased_job-raised_example :
    run_leased_job (runner "worker-a") held [] "xx+" (held ∷ [])
    ≡ unchanged "a" missing_text (find_live "a" (held ∷ [])) (held ∷ [])
unfolding find_live is_not_holder find is_terminal
run_leased_job-raised_example =
    run_leased_job-raised (runner "worker-a") held [] "xx+" (held ∷ []) (held ∷ [])
      invalid_value_error missing_text (missing "worker-a") refl

run_leased_job-IsReported_example :
    IsReported "a"
      (failed_with invalid_value_error missing_text "xx+" held)
      (held ∷ [])
      (failed_answer "a" missing_text)
      (run_leased_job (runner "worker-b") held [] "xx+" (held ∷ []))
unfolding find_live is_not_holder find is_terminal
run_leased_job-IsReported_example =
    run_leased_job-IsReported (runner "worker-b") held [] "xx+" (held ∷ []) (held ∷ [])
      invalid_value_error missing_text held (missing "worker-b") (tt, tt) refl refl
