-- ===== src/Worker/Runner/Failures.antt =====
-- What `run_leased_job` does when its pipeline has raised.
use ai_jsunpack.Prelude.{
  ℕ, ◌≡◌, refl, sym, ◌∙◌, ap, String, Bool, true, false, not, ◌&&◌, ◌||◌, Option, none, some,
  if◌then◌else◌, str_eq, Bool-cases, Option-cases, inl, inr, arith,
}
use ai_jsunpack.Prelude.Table.{
  find, IsKeyed, rowcount, update, touched, find-update_self, find-update_ne, rowcount-find,
}
use ai_jsunpack.Store.Types.{
  failed, FailureClass, timeout, invalid_input, sandbox_denied, unknown, is_terminal, status_eq,
  is_queue_eligible,
}
use ai_jsunpack.Store.Leases.{is_eligible}
use ai_jsunpack.Store.Jobs.{
  Job, Jobs, job_key, is_live, key_error, Result, ok, err, find_live, update_status, has_lost_lease,
  is_not_holder, write_row, set_status,
}
use ai_jsunpack.Store.Artifacts.{Artifacts}
use ai_jsunpack.Worker.Runner.{
  WorkerError, timeout_error, file_not_found_error, invalid_value_error, permission_error,
  other_error, classify_worker_error, raised, QueueRunResult, WorkerQueueRunner, source_artifact,
  run_source, report_failure, end_run, run_leased_job,
}

-- The answer for a job that is left as it is
abbrev pub unchanged : String → String → Option Job → Jobs → Result QueueRunResult × Jobs
unchanged job_id message none jobs = (err key_error, jobs)
unchanged job_id message (some j) jobs =
    (ok (record { job_id = job_id; status = j.status; message = message }), jobs)

-- The job is gone, or it is final and not failed, or the worker does not hold its lease.
abbrev pub is_out_of_reach : String → Option Job → Bool
is_out_of_reach worker_id none = true
is_out_of_reach worker_id (some j) =
    (is_terminal j.status && not (status_eq failed j.status))
    || is_not_holder j.worker_lease worker_id

module _ (job_id message now worker_id : String) (failure : FailureClass) (jobs : Jobs) where
  abbrev reported : Result QueueRunResult × Jobs
  reported =
      report_failure job_id message
        (update_status job_id failed (some message) (some failure) (some worker_id) now jobs)

  report_failure-unchanged :
      (found : Option Job)
      → find_live job_id jobs ≡ found
      → is_out_of_reach worker_id found ≡ true
      → reported ≡ unchanged job_id message found jobs
  unfolding report_failure update_status has_lost_lease
  report_failure-unchanged none e out = rw (e, update_status) refl
  report_failure-unchanged (some j) e out =
      elim (Bool-cases (is_terminal j.status && not (status_eq failed j.status))) [
        | inl final ↦ rw (e, update_status) (rw final refl)
        | inr open_job ↦
            let lost : is_not_holder j.worker_lease worker_id ≡ true = rw open_job at out in
            rw (e, update_status) (rw (open_job, lost) refl)
      ]

-- When a leased job's source or pipeline raises, and by then the job is deleted, or is final but not
-- failed, or is not leased by this worker, the table stays as the pipeline left it: the answer has
-- the status of the job as it is, and for a deleted job it is a KeyError.
pub run_leased_job-raised :
    (runner : WorkerQueueRunner) (job : Job) (artifacts : Artifacts) (now : String)
    (jobs jobs' : Jobs) (error : WorkerError) (message : String)
    → run_source runner job.id (source_artifact job artifacts) jobs ≡ (raised error message, jobs')
    → is_out_of_reach runner.worker_id (find_live job.id jobs') ≡ true
    → run_leased_job runner job artifacts now jobs
      ≡ unchanged job.id message (find_live job.id jobs') jobs'
unfolding run_leased_job end_run
run_leased_job-raised runner job artifacts now jobs jobs' error message h out = rw h (
    report_failure-unchanged job.id message now runner.worker_id (classify_worker_error error) jobs'
      (find_live job.id jobs') refl out)

find_live-find :
    (job_id : String) (jobs : Jobs) (j : Job)
    → find_live job_id jobs ≡ some j
    → find job_key job_id jobs ≡ some j
unfolding find_live
find_live-find job_id jobs j h = elim (Option-cases (find job_key job_id jobs)) [
  | inl e ↦ cc (rw (e, find_live) at h)
  | inr (k, e) ↦ elim (Bool-cases (is_live k)) [
    | inl live ↦ e ∙ (ap (λ b. if b then some k else none) (sym live) ∙ rw (e, find_live) at h)
    | inr dead ↦ cc (rw dead at (rw (e, find_live) at h))
  ]
]

write_row-found :
    (job_id : String) (f : Job → Job) (jobs : Jobs) (j : Job)
    → ((r : Job) → job_key (f r) ≡ job_key r)
    → IsKeyed job_key jobs
    → find job_key job_id jobs ≡ some j
    → (write_row job_id (λ _. true) f jobs ≡ (ok (f j), update job_key job_id (λ _. true) f jobs))
      × (find job_key job_id (update job_key job_id (λ _. true) f jobs) ≡ some (f j))
unfolding write_row
write_row-found job_id f jobs j same keyed found =
    let there : find job_key job_id (update job_key job_id (λ _. true) f jobs) ≡ some (f j) =
      find-update_self job_key job_id (λ _. true) f jobs same ∙ ap (touched (λ _. true) f) found in
    let counted : rowcount job_key job_id (λ _. true) jobs ≡ 1 =
      rowcount-find job_key job_id (λ _. true) jobs keyed ∙ rw found refl in
    (rw (counted, there) refl, there)

-- The class of failure under which an exception is reported
abbrev class_of : WorkerError → FailureClass
class_of timeout_error = timeout
class_of permission_error = sandbox_denied
class_of other_error = unknown
class_of _ = invalid_input

classify_worker_error-class_of :
    (error : WorkerError) → classify_worker_error error ≡ class_of error
unfolding classify_worker_error
classify_worker_error-class_of timeout_error = refl
classify_worker_error-class_of file_not_found_error = refl
classify_worker_error-class_of invalid_value_error = refl
classify_worker_error-class_of permission_error = refl
classify_worker_error-class_of other_error = refl

-- A job that failed with an exception: failed, of the exception's class, with its text unless that is
-- empty, and without a lease. Every column that is not named here is as it was.
abbrev pub failed_with : WorkerError → String → String → Job → Job
failed_with error message now j = record j {
  status = failed;
  updated_at = now;
  failure_reason = if str_eq message "" then j.failure_reason else some message;
  failure_class = class_of error;
  worker_lease = none;
}

-- The report of a failure reached the job's row, and no other row; the queue does not offer the job
-- again.
pub record IsReported (job_id : String) (row : Job) (before : Jobs) (answer : QueueRunResult)
    (r : Result QueueRunResult × Jobs) : Type 0 where
  pub answered : r.0 ≡ ok answer
  pub stored : find job_key job_id r.1 ≡ some row
  pub others : (k : String) → str_eq job_id k ≡ false → find job_key k r.1 ≡ find job_key k before
  pub not_offered : (max_attempts : ℕ) → is_eligible max_attempts row ≡ false

abbrev pub failed_answer : String → String → QueueRunResult
failed_answer job_id message = record { job_id = job_id; status = failed; message = message }

module _ (job_id message now worker_id : String) (error : WorkerError) (jobs : Jobs) where
  abbrev failed_row : Job → Job
  failed_row = set_status failed (some message) (some (classify_worker_error error)) now

  failed_row-failed_with : (j : Job) → failed_row j ≡ failed_with error message now j
  unfolding set_status is_terminal
  failed_row-failed_with j = rw (classify_worker_error-class_of error) refl

  report_failure-IsReported :
      (j : Job)
      → IsKeyed job_key jobs
      → find_live job_id jobs ≡ some j
      → is_out_of_reach worker_id (some j) ≡ false
      → IsReported job_id (failed_with error message now j) jobs (failed_answer job_id message) (
          report_failure job_id message (
            update_status job_id failed
              (some message)
              (some (classify_worker_error error))
              (some worker_id)
              now
              jobs))
  unfolding report_failure update_status has_lost_lease set_status
  report_failure-IsReported j keyed e reach =
      let (written, stored) =
        write_row-found job_id failed_row jobs j (λ r. refl) keyed
          (find_live-find job_id jobs j e) in
      let open_job : (is_terminal j.status && not (status_eq failed j.status)) ≡ false =
        ground (arith, reach) in
      let held : is_not_holder j.worker_lease worker_id ≡ false = ground (arith, reach) in
      rw (e, update_status)
        (rw (open_job, held)
          (rw written (record {
            answered = refl;
            stored = stored ∙ ap (λ row. some row) (failed_row-failed_with j);
            others = λ k other.
                find-update_ne job_key job_id k (λ _. true) failed_row jobs (λ r. refl) other;
            not_offered = λ m. unfold is_eligible is_queue_eligible in refl;
          })))

-- When a leased job's source or pipeline raises, and by then this worker still holds the lease of the
-- job, whose status is not a final one or is `failed`, the answer is that it failed with the
-- exception's text, and in the table the job is `failed`, without a lease, with the class of the
-- exception (timeout, invalid input, sandbox denied or unknown) and with its text, where that is not
-- empty. Its other columns and every other job stay as the pipeline left them, and the queue does not
-- offer the job again.
pub run_leased_job-IsReported :
    (runner : WorkerQueueRunner) (job : Job) (artifacts : Artifacts) (now : String)
    (jobs jobs' : Jobs) (error : WorkerError) (message : String) (j : Job)
    → run_source runner job.id (source_artifact job artifacts) jobs ≡ (raised error message, jobs')
    → IsKeyed job_key jobs'
    → find_live job.id jobs' ≡ some j
    → is_out_of_reach runner.worker_id (some j) ≡ false
    → IsReported job.id
        (failed_with error message now j)
        jobs'
        (failed_answer job.id message)
        (run_leased_job runner job artifacts now jobs)
unfolding run_leased_job end_run
run_leased_job-IsReported runner job artifacts now jobs jobs' error message j h keyed e reach =
    rw h (report_failure-IsReported job.id message now runner.worker_id error jobs' j keyed e reach)
