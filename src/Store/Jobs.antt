-- ===== src/Store/Jobs.antt =====
-- The jobs table of apps/api/app/store.py and the methods of `DatabaseStore` that change one job.
-- A method runs in one transaction, so a method that raises leaves the table as it was. The time
-- that the method reads (`utc_now`) and the ids that it draws are arguments.
use ai_jsunpack.Prelude.{
  ℕ, String, Bool, true, false, not, ◌&&◌, Option, none, some, List, [], ◌∷◌, ◌++◌, ◌==◌, str_eq,
  strip, is_some, if◌then◌else◌,
}
use ai_jsunpack.Prelude.Table.{find, update, rowcount}
use ai_jsunpack.Json.{Fields}
use ai_jsunpack.Store.Types.{
  JobStatus, queued, cancelled, status_eq, is_terminal, FailureClass, no_failure, CloudMode,
  InputKind, DeliveryKind, WorkerLease,
}

pub record Job : Type 0 where
  pub id : String
  pub status : JobStatus
  pub owner_id : String
  pub project_id : String
  pub input_artifact_id : Option String
  pub input_name : Option String
  pub input_kind : Option InputKind
  pub delivery_kind : Option DeliveryKind
  pub primary_result_artifact_id : Option String
  pub result_summary_artifact_id : Option String
  pub files_expires_at : Option String
  pub deleted_at : Option String
  pub config : Fields
  pub cloud_mode : CloudMode
  pub review_attempt : ℕ
  pub run_attempt : ℕ
  pub worker_lease : Option WorkerLease
  pub failure_class : FailureClass
  pub failure_reason : Option String
  pub created_at : String
  pub updated_at : String

abbrev pub Jobs : Type 0
Jobs = List Job

abbrev pub job_key : Job → String
job_key j = j.id

-- What a method raises.
pub data Error : Type 0 where
  key_error value_error integrity_error file_not_found : Error
  artifact_deletion : List String → Error

pub data Result {ℓ} (A : Type ℓ) : Type ℓ where
  ok : A → Result A
  err : Error → Result A

-- `deleted_at IS NULL`
abbrev pub is_live : Job → Bool
is_live j = not (is_some j.deleted_at)

-- SELECT ... WHERE id = job_id AND deleted_at IS NULL; `id` is the primary key
unfoldable pub find_live : String → Jobs → Option Job
find_live job_id jobs = elim (find job_key job_id jobs) [
  | none ↦ none
  | some j ↦ if is_live j then some j else none
]

-- UPDATE, a test of `rowcount`, and the SELECT that reads the row back.
unfoldable pub write_row : String → (Job → Bool) → (Job → Job) → Jobs → Result Job × Jobs
write_row job_id p f jobs =
    if rowcount job_key job_id p jobs == 0
    then (err key_error, jobs)
    else elim (find job_key job_id (update job_key job_id p f jobs)) [
      | none ↦ (err key_error, jobs)
      | some row ↦ (ok row, update job_key job_id p f jobs)
    ]

pub record CreateJobRequest : Type 0 where
  pub project_id : String
  pub owner_id : String
  pub cloud_mode : CloudMode
  pub config : Fields

-- The row that `create_job` inserts.
unfoldable pub new_job : String → String → String → CreateJobRequest → Job
new_job job_id files_expires_at now request = record {
  id = job_id;
  status = queued;
  owner_id = request.owner_id;
  project_id = request.project_id;
  input_artifact_id = none;
  input_name = none;
  input_kind = none;
  delivery_kind = none;
  primary_result_artifact_id = none;
  result_summary_artifact_id = none;
  files_expires_at = some files_expires_at;
  deleted_at = none;
  config = request.config;
  cloud_mode = request.cloud_mode;
  review_attempt = 0;
  run_attempt = 0;
  worker_lease = none;
  failure_class = no_failure;
  failure_reason = none;
  created_at = now;
  updated_at = now;
}

-- `insert(jobs_table)`: the primary key refuses an id that is there.
unfoldable pub insert_job : Job → Jobs → Result Job × Jobs
insert_job row jobs = elim (find job_key row.id jobs) [
  | none ↦ (ok row, jobs ++ row ∷ [])
  | some _ ↦ (err integrity_error, jobs)
]

unfoldable pub get_job : String → Bool → Jobs → Option Job
unfolding find_live
get_job job_id include_deleted jobs =
    if include_deleted then find job_key job_id jobs else find_live job_id jobs

unfoldable pub set_input_metadata : String → InputKind → Option String → String → Job → Job
set_input_metadata name kind files_expires_at now j = record j {
  input_name = some name;
  input_kind = some kind;
  updated_at = now;
  files_expires_at = if is_some files_expires_at then files_expires_at else j.files_expires_at;
}

unfoldable pub update_job_input_metadata :
    String → String → InputKind → Option String → String → Jobs → Result Job × Jobs
unfolding write_row set_input_metadata
update_job_input_metadata job_id name kind files_expires_at now =
    write_row job_id is_live (set_input_metadata name kind files_expires_at now)

-- `if failure_reason:`, the truth of an optional text
abbrev pub given_text : Option String → Option String → Option String
given_text none old = old
given_text (some s) old = if str_eq s "" then old else some s

abbrev pub given {ℓ} : {A : Type ℓ} → Option A → A → A
given none old = old
given (some a) old = a

unfoldable pub set_status : JobStatus → Option String → Option FailureClass → String → Job → Job
set_status status reason failure now j = record j {
  status = status;
  updated_at = now;
  failure_reason = given_text reason j.failure_reason;
  failure_class = given failure j.failure_class;
  worker_lease = if is_terminal status then none else j.worker_lease;
}

unfoldable pub lease_worker_id : Option WorkerLease → Option String
lease_worker_id none = none
lease_worker_id (some lease) = some lease.worker_id

-- `lease_worker_id(lease) != worker_id`
unfoldable pub is_not_holder : Option WorkerLease → String → Bool
unfolding lease_worker_id
is_not_holder lease worker_id = elim (lease_worker_id lease) [
  | none ↦ true
  | some holder ↦ not (str_eq holder worker_id)
]

-- `expected is not None and lease_worker_id(lease) != expected`
unfoldable pub has_lost_lease : Option String → Option WorkerLease → Bool
unfolding is_not_holder
has_lost_lease none lease = false
has_lost_lease (some worker_id) lease = is_not_holder lease worker_id

unfoldable pub update_status :
    String
    → JobStatus
    → Option String
    → Option FailureClass
    → Option String
    → String
    → Jobs
    → Result Job × Jobs
unfolding find_live write_row set_status has_lost_lease is_terminal
update_status job_id status reason failure expected now jobs = elim (find_live job_id jobs) [
  | none ↦ (err key_error, jobs)
  | some current ↦
      if is_terminal current.status && not (status_eq status current.status)
      then (ok current, jobs)
      else if has_lost_lease expected current.worker_lease
      then (ok current, jobs)
      else write_row job_id (λ _. true) (set_status status reason failure now) jobs
]

unfoldable pub normalize_cleanup_reason : String → String
unfolding strip
normalize_cleanup_reason reason = if str_eq (strip reason) "" then "保留策略清理" else strip reason

unfoldable pub set_cancelled : String → String → Job → Job
set_cancelled reason now j = record j {
  status = cancelled;
  worker_lease = none;
  failure_class = no_failure;
  failure_reason = some (normalize_cleanup_reason reason);
  updated_at = now;
}

unfoldable pub request_cancel : String → String → String → Jobs → Result Job × Jobs
unfolding find_live write_row set_cancelled is_terminal
request_cancel job_id reason now jobs = elim (find_live job_id jobs) [
  | none ↦ (err key_error, jobs)
  | some job ↦
      if is_terminal job.status
      then (ok job, jobs)
      else write_row job_id (λ _. true) (set_cancelled reason now) jobs
]
