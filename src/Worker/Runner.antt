-- ===== src/Worker/Runner.antt =====
-- `WorkerQueueRunner` of apps/worker/worker/queue.py: `run_once` and `run_leased_job`, over the table
-- of jobs. The pipeline's run, together with what others commit to the table meanwhile and the
-- renewals of the lease, is one change of the table; heartbeats go to another table and are left out.
pub mod Failures
use ai_jsunpack.Prelude.{
  ℕ, String, text_append, Bool, false, not, ◌&&◌, Option, none, some, List, [], ◌∷◌, if◌then◌else◌,
  str_eq, is_some,
}
use ai_jsunpack.Store.Types.{
  JobStatus, failed, FailureClass, timeout, invalid_input, sandbox_denied, unknown,
}
use ai_jsunpack.Store.Datetime.{Datetime}
use ai_jsunpack.Store.Jobs.{Job, Jobs, Error, Result, ok, err, get_job, update_status}
use ai_jsunpack.Store.Leases.{Collation, lease_next_job}
use ai_jsunpack.Store.Requeue.{requeue_expired_leases}
use ai_jsunpack.Store.Artifacts.{Artifact, Artifacts}

-- The classes of exceptions that `classify_worker_error` tells apart
pub data WorkerError : Type 0 where
  timeout_error file_not_found_error invalid_value_error permission_error other_error : WorkerError

unfoldable pub classify_worker_error : WorkerError → FailureClass
classify_worker_error timeout_error = timeout
classify_worker_error file_not_found_error = invalid_input
classify_worker_error invalid_value_error = invalid_input
classify_worker_error permission_error = sandbox_denied
classify_worker_error other_error = unknown

-- How the run of a pipeline ends: with the message of its last event, if there is one, or with an
-- exception and its text.
pub data PipelineEnd : Type 0 where
  finished : Option String → PipelineEnd
  raised : WorkerError → String → PipelineEnd

pub record QueueRunResult : Type 0 where
  pub job_id : String
  pub status : JobStatus
  pub message : String

-- The worker, the preparation of the source input, which may raise, and the run of the pipeline
pub record WorkerQueueRunner : Type 0 where
  pub worker_id : String
  pub lease_seconds : ℕ
  pub max_attempts : ℕ
  pub prepare_input : Artifact → Option (WorkerError × String)
  pub pipeline_run : String → Jobs → PipelineEnd × Jobs

-- `get_artifact` of the store
unfoldable pub get_artifact : String → String → Artifacts → Option Artifact
get_artifact job_id artifact_id [] = none
get_artifact job_id artifact_id (a ∷ rest) =
    if str_eq a.job_id job_id && str_eq a.id artifact_id && not (is_some a.deleted_at)
    then some a
    else get_artifact job_id artifact_id rest

-- What `_source_artifact` finds, or the text of its ValueError
pub data SourceInput : Type 0 where
  source_found : Artifact → SourceInput
  source_missing : String → SourceInput

abbrev found_or_missing : String → String → Option Artifact → SourceInput
found_or_missing job_id artifact_id (some artifact) = source_found artifact
found_or_missing job_id artifact_id none =
    source_missing
      (text_append "任务 " (text_append job_id (text_append " 的源输入 artifact 缺失：" artifact_id)))

abbrev input_of : Option String → String → Artifacts → SourceInput
input_of none job_id artifacts =
    source_missing (text_append "任务 " (text_append job_id " 没有源输入 artifact。"))
input_of (some id) job_id artifacts = found_or_missing job_id id (get_artifact job_id id artifacts)

-- `_source_artifact`
unfoldable pub source_artifact : Job → Artifacts → SourceInput
unfolding get_artifact
source_artifact job artifacts = input_of job.input_artifact_id job.id artifacts

unfoldable pub run_prepared :
    WorkerQueueRunner → String → Option (WorkerError × String) → Jobs → PipelineEnd × Jobs
run_prepared runner job_id none jobs = runner.pipeline_run job_id jobs
run_prepared runner job_id (some (error, message)) jobs = (raised error message, jobs)

-- The body of the `try`
unfoldable pub run_source : WorkerQueueRunner → String → SourceInput → Jobs → PipelineEnd × Jobs
unfolding run_prepared
run_source runner job_id (source_missing message) jobs = (raised invalid_value_error message, jobs)
run_source runner job_id (source_found artifact) jobs =
    run_prepared runner job_id (runner.prepare_input artifact) jobs

abbrev status_or_failed : Option Job → JobStatus
status_or_failed none = failed
status_or_failed (some job) = job.status

abbrev message_or_ended : Option String → String
message_or_ended none = "Worker pipeline 已结束。"
message_or_ended (some message) = message

unfoldable pub report_failure : String → String → Result Job × Jobs → Result QueueRunResult × Jobs
report_failure job_id message (err e, jobs) = (err e, jobs)
report_failure job_id message (ok updated, jobs) =
    (ok (record { job_id = job_id; status = updated.status; message = message }), jobs)

unfoldable pub end_run :
    WorkerQueueRunner → String → String → PipelineEnd × Jobs → Result QueueRunResult × Jobs
unfolding get_job update_status classify_worker_error report_failure
end_run runner job_id now (finished message, jobs) = (
  ok (record {
    job_id = job_id;
    status = status_or_failed (get_job job_id false jobs);
    message = message_or_ended message;
  }),
  jobs,
)
end_run runner job_id now (raised error message, jobs) = report_failure job_id message (
    update_status job_id failed (some message) (some (classify_worker_error error))
      (some runner.worker_id) now jobs)

unfoldable pub run_leased_job :
    WorkerQueueRunner → Job → Artifacts → String → Jobs → Result QueueRunResult × Jobs
unfolding source_artifact run_source end_run
run_leased_job runner job artifacts now jobs =
    end_run runner job.id now (run_source runner job.id (source_artifact job artifacts) jobs)

abbrev some_result : Result QueueRunResult × Jobs → Result (Option QueueRunResult) × Jobs
some_result (ok r, jobs) = (ok (some r), jobs)
some_result (err e, jobs) = (err e, jobs)

unfoldable pub run_next :
    WorkerQueueRunner
    → Artifacts
    → String
    → Result (Option Job) × Jobs
    → Result (Option QueueRunResult) × Jobs
unfolding run_leased_job
run_next runner artifacts now (err e, jobs) = (err e, jobs)
run_next runner artifacts now (ok none, jobs) = (ok none, jobs)
run_next runner artifacts now (ok (some job), jobs) =
    some_result (run_leased_job runner job artifacts now jobs)

unfoldable pub lease_and_run :
    Datetime
    → Collation
    → WorkerQueueRunner
    → Artifacts
    → ℕ
    → String
    → Result (List Job) × Jobs
    → Result (Option QueueRunResult) × Jobs
unfolding lease_next_job run_next
lease_and_run d le runner artifacts clock now (err e, jobs) = (err e, jobs)
lease_and_run d le runner artifacts clock now (ok _, jobs) = run_next runner artifacts now (
    lease_next_job d le runner.worker_id runner.lease_seconds runner.max_attempts none clock jobs
      jobs)

-- The clock when the expired leases are requeued and when a job is leased, and the time of the
-- report
unfoldable pub run_once :
    Datetime
    → Collation
    → WorkerQueueRunner
    → Artifacts
    → ℕ
    → ℕ
    → String
    → Jobs
    → Result (Option QueueRunResult) × Jobs
unfolding requeue_expired_leases lease_and_run
run_once d le runner artifacts requeue_clock lease_clock now jobs =
    lease_and_run d le runner artifacts lease_clock now
      (requeue_expired_leases d runner.max_attempts none requeue_clock jobs)
