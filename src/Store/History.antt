-- ===== src/Store/History.antt =====
-- The transactions of apps/api/app/store.py on the jobs table, in any order: a history of the
-- store is a list of calls, from the API and from any number of workers.
pub mod Follows
pub mod Calls
pub mod Queue
pub mod Reach
use ai_jsunpack.Prelude.{
  ℕ, String, Bool, true, Option, none, some, List, [], ◌∷◌, not, ◌&&◌, is_some, if◌then◌else◌,
}
use ai_jsunpack.Prelude.Table.{update}
use ai_jsunpack.Store.Types.{JobStatus, FailureClass, InputKind, DeliveryKind}
use ai_jsunpack.Store.Datetime.{Datetime}
use ai_jsunpack.Store.Jobs.{
  Job, Jobs, job_key, is_live, CreateJobRequest, new_job, insert_job, update_job_input_metadata,
  update_status, request_cancel, write_row,
}
use ai_jsunpack.Store.Leases.{Collation, lease_next_job, renew_lease}
use ai_jsunpack.Store.Requeue.{requeue_expired_leases}
use ai_jsunpack.Store.Deletion.{set_job_deleted}

-- `not current_job_row.input_artifact_id`: the id of an artifact, which the store draws, is not empty.
abbrev pub lacks_input : Job → Bool
lacks_input j = not (is_some j.input_artifact_id)

unfoldable pub set_input : String → String → Job → Job
set_input artifact_id now j = record j { input_artifact_id = some artifact_id; updated_at = now }

-- What `write_artifact` does to the job when it registers a source input.
unfoldable pub attach_input : String → String → String → Jobs → Jobs
unfolding set_input
attach_input job_id artifact_id now =
    update job_key job_id (λ j. is_live j && lacks_input j) (set_input artifact_id now)

unfoldable pub set_delivery : DeliveryKind → String → Option String → String → Job → Job
set_delivery kind primary summary now j = record j {
  delivery_kind = some kind;
  primary_result_artifact_id = some primary;
  result_summary_artifact_id = summary;
  updated_at = now;
}

-- One transaction on the jobs table, with the arguments of its method.
pub data JobCall : Type 0 where
  create : String → String → String → CreateJobRequest → JobCall
  input_metadata : String → String → InputKind → Option String → String → JobCall
  input_artifact : String → String → String → JobCall
  delivery : String → DeliveryKind → String → Option String → String → JobCall
  status :
      String → JobStatus → Option String → Option FailureClass → Option String → String → JobCall
  cancel : String → String → String → JobCall
  lease : String → ℕ → ℕ → Option String → ℕ → JobCall
  renew : String → String → ℕ → Option String → ℕ → JobCall
  requeue : ℕ → Option String → ℕ → JobCall
  delete : String → String → JobCall

-- The table after one transaction.
unfoldable pub run : Datetime → Collation → JobCall → Jobs → Jobs
unfolding attach_input
run d le (create job_id files_expires_at now request) jobs =
    (insert_job (new_job job_id files_expires_at now request) jobs).1
run d le (input_metadata job_id name kind files_expires_at now) jobs =
    (update_job_input_metadata job_id name kind files_expires_at now jobs).1
run d le (input_artifact job_id artifact_id now) jobs = attach_input job_id artifact_id now jobs
run d le (delivery job_id kind primary summary now) jobs =
    (write_row job_id is_live (set_delivery kind primary summary now) jobs).1
run d le (status job_id new reason failure expected now) jobs =
    (update_status job_id new reason failure expected now jobs).1
run d le (cancel job_id reason now) jobs = (request_cancel job_id reason now jobs).1
run d le (lease worker_id seconds max_attempts now clock) jobs =
    (lease_next_job d le worker_id seconds max_attempts now clock jobs jobs).1
run d le (renew job_id worker_id seconds now clock) jobs =
    (renew_lease d job_id worker_id seconds now clock jobs).1
run d le (requeue max_attempts now clock) jobs =
    (requeue_expired_leases d max_attempts now clock jobs).1
run d le (delete job_id now) jobs = update job_key job_id is_live (set_job_deleted now) jobs

unfoldable pub run_all : Datetime → Collation → List JobCall → Jobs → Jobs
run_all d le [] jobs = jobs
run_all d le (c ∷ calls) jobs = run_all d le calls (run d le c jobs)
