-- ===== src/Api/Jobs.antt =====
-- The routes of apps/api/app/main.py that cancel, delete and clean up a job, over the tables of the
-- store. What a route answers is the status code; an exception that a route does not catch is
-- answered with 500.
pub mod Allowed
use ai_jsunpack.Prelude.{
  ℕ, String, Bool, true, false, not, ◌&&◌, Option, none, some, if◌then◌else◌, str_eq,
}
use ai_jsunpack.Store.Jobs.{
  Job, Jobs, Error, key_error, value_error, integrity_error, file_not_found, artifact_deletion,
  Result, ok, err, request_cancel, get_job,
}
use ai_jsunpack.Store.Leases.{Collation}
use ai_jsunpack.Store.Datetime.{Datetime}
use ai_jsunpack.Store.Artifacts.{ArtifactStore, Db}
use ai_jsunpack.Store.Retention.{RetentionCleanupRequest, cleanup_retention}
use ai_jsunpack.Store.Deletion.{soft_delete_job}
use ai_jsunpack.Auth.Roles.{maintainer, AccessContext, is_service, has_project_role}
use ai_jsunpack.Api.Guards.{
  Reply, reply, http_exception, require_job, require_authenticated_user, is_foreign_service,
}

-- A request to change a job
pub data JobRoute : Type 0 where
  cancel : String → JobRoute
  delete : JobRoute
  cleanup : RetentionCleanupRequest → JobRoute

-- The exceptions of `request_cancel`, `soft_delete_job` and `cleanup_retention` as status codes
unfoldable pub cancel_code : Error → ℕ
cancel_code key_error = 404
cancel_code _ = 500

unfoldable pub delete_code : Error → ℕ
delete_code key_error = 404
delete_code _ = 500

unfoldable pub cleanup_code : Error → ℕ
cleanup_code key_error = 404
cleanup_code value_error = 400
cleanup_code _ = 500

abbrev code_of {ℓ} : {A : Type ℓ} → (Error → ℕ) → Result A → ℕ
code_of code (ok a) = 200
code_of code (err e) = code e

-- A guard that raises ends the route.
abbrev pub unless_refused : {A S : Type 0} → S → Reply A → (A → ℕ × S) → ℕ × S
unless_refused s (reply a) f = f a
unless_refused s (http_exception code) f = (code, s)

module _ {Files : Type 0} (store : ArtifactStore Files) (d : Datetime) (le : Collation) where
  -- The call of the store
  unfoldable pub perform : JobRoute → String → String → Db Files → ℕ × Db Files
  unfolding request_cancel soft_delete_job cleanup_retention cancel_code delete_code cleanup_code
  perform (cancel reason) job_id now db =
      let (result, jobs) = request_cancel job_id reason now db.jobs in
      (code_of cancel_code result, record (db) { jobs = jobs })
  perform delete job_id now db =
      let (result, after) = soft_delete_job store le job_id "user_deleted" now db in
      (code_of delete_code result, after)
  perform (cleanup request) job_id now db =
      let (result, after) = cleanup_retention d le store job_id request now db in
      (code_of cleanup_code result, after)

  unfoldable pub delete_if_owner : AccessContext → Job → String → String → Db Files → ℕ × Db Files
  unfolding perform require_authenticated_user
  delete_if_owner access job job_id now db =
      unless_refused db (require_authenticated_user access) λ _.
        if not (str_eq job.owner_id access.subject) then (403, db) else perform delete job_id now db

  -- `delete_job` asks for more than a role.
  unfoldable pub perform_for :
      JobRoute → AccessContext → Job → String → String → Db Files → ℕ × Db Files
  unfolding perform delete_if_owner
  perform_for (cancel reason) access job job_id now db = perform (cancel reason) job_id now db
  perform_for delete access job job_id now db = delete_if_owner access job job_id now db
  perform_for (cleanup request) access job job_id now db = perform (cleanup request) job_id now db

  -- `cancel_job`, `delete_job` and `cleanup_retention`
  unfoldable pub serve : JobRoute → AccessContext → String → String → Db Files → ℕ × Db Files
  unfolding require_job perform_for
  serve route access job_id now db =
      unless_refused db (require_job job_id access maintainer db.jobs)
        λ job. perform_for route access job job_id now db
