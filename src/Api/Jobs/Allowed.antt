-- ===== src/Api/Jobs/Allowed.antt =====
-- Who may cancel, delete and clean up a job.
use ai_jsunpack.Prelude.{
  ℕ, ◌≡◌, refl, sym, ◌∙◌, ap, String, Bool, true, false, not, ◌&&◌, Option, none, some,
  if◌then◌else◌, str_eq, Bool-cases, Option-cases, inl, inr,
}
use ai_jsunpack.Store.Jobs.{Job, Jobs, get_job}
use ai_jsunpack.Store.Leases.{Collation}
use ai_jsunpack.Store.Datetime.{Datetime}
use ai_jsunpack.Store.Artifacts.{ArtifactStore, Db}
use ai_jsunpack.Auth.Roles.{ProjectRole, maintainer, AccessContext, is_service, has_project_role}
use ai_jsunpack.Api.Guards.{
  Reply, reply, http_exception, bind_reply, found_job, require_project_role, require_job,
  require_authenticated_user, is_foreign_service,
}
use ai_jsunpack.Api.Jobs.{
  JobRoute, cancel, delete, cleanup, perform, delete_if_owner, perform_for, serve,
}

-- The caller has the role in the project of the job, and is no service but a worker.
abbrev pub has_access : ProjectRole → AccessContext → Job → Bool
has_access minimum_role access job =
    not (is_foreign_service access) && has_project_role access job.project_id minimum_role

-- To delete a job, the caller is also the user who owns it.
abbrev pub is_allowed : JobRoute → AccessContext → Job → Bool
is_allowed delete access job =
    has_access maintainer access job
    && not (is_service access.kind)
    && str_eq job.owner_id access.subject
is_allowed _ access job = has_access maintainer access job

abbrev granted_job : ProjectRole → AccessContext → Job → Reply Job
granted_job minimum_role access job =
    if has_access minimum_role access job then reply job else http_exception 403

require_project_role-bind :
    (access : AccessContext) (job : Job) (minimum_role : ProjectRole)
    → bind_reply (require_project_role access job.project_id minimum_role) (λ _. reply job)
      ≡ granted_job minimum_role access job
unfolding require_project_role bind_reply
require_project_role-bind access job minimum_role = elim (Bool-cases (is_foreign_service access)) [
  | inl e ↦ rw e refl
  | inr e ↦ elim (Bool-cases (has_project_role access job.project_id minimum_role)) [
    | inl k ↦ rw (e, k) refl
    | inr k ↦ rw (e, k) refl
  ]
]

require_job-found :
    (job_id : String) (access : AccessContext) (minimum_role : ProjectRole) (jobs : Jobs)
    (job : Job)
    → get_job job_id false jobs ≡ some job
    → require_job job_id access minimum_role jobs ≡ granted_job minimum_role access job
unfolding require_job found_job
require_job-found job_id access minimum_role jobs job h =
    rw h (rw (bind_reply, require_project_role-bind access job minimum_role) refl)

module _ {Files : Type 0} (store : ArtifactStore Files) (d : Datetime) (le : Collation) where
  -- What a request to change a job does, by the job that is there
  unfoldable pub permitted :
      JobRoute → AccessContext → String → String → Db Files → Option Job → ℕ × Db Files
  permitted route access job_id now db none = (404, db)
  permitted route access job_id now db (some job) =
      if is_allowed route access job then perform store d le route job_id now db else (403, db)

  delete_if_owner-permitted :
      (access : AccessContext) (job : Job) (job_id now : String) (db : Db Files)
      → has_access maintainer access job ≡ true
      → delete_if_owner store d le access job job_id now db
        ≡ permitted delete access job_id now db (some job)
  unfolding delete_if_owner require_authenticated_user permitted
  delete_if_owner-permitted access job job_id now db h =
      elim (Bool-cases (is_service access.kind)) [
        | inl e ↦ rw (h, e) refl
        | inr e ↦ elim (Bool-cases (str_eq job.owner_id access.subject)) [
          | inl k ↦ rw (h, e, k) refl
          | inr k ↦ rw (h, e, k) refl
        ]
      ]

  perform_for-permitted :
      (route : JobRoute) (access : AccessContext) (job : Job) (job_id now : String) (db : Db Files)
      → has_access maintainer access job ≡ true
      → perform_for store d le route access job job_id now db
        ≡ permitted route access job_id now db (some job)
  unfolding perform_for permitted
  perform_for-permitted (cancel reason) access job job_id now db h = rw h refl
  perform_for-permitted delete access job job_id now db h =
      delete_if_owner-permitted access job job_id now db h
  perform_for-permitted (cleanup request) access job job_id now db h = rw h refl

  permitted-refused :
      (route : JobRoute) (access : AccessContext) (job : Job) (job_id now : String) (db : Db Files)
      → has_access maintainer access job ≡ false
      → permitted route access job_id now db (some job) ≡ (403, db)
  unfolding permitted
  permitted-refused (cancel reason) access job job_id now db h = rw h refl
  permitted-refused delete access job job_id now db h = rw h refl
  permitted-refused (cleanup request) access job job_id now db h = rw h refl

  serve-found :
      (route : JobRoute) (access : AccessContext) (job : Job) (job_id now : String) (db : Db Files)
      → get_job job_id false db.jobs ≡ some job
      → serve store d le route access job_id now db
        ≡ permitted route access job_id now db (some job)
  unfolding serve
  serve-found route access job job_id now db h =
      elim (Bool-cases (has_access maintainer access job)) [
        | inl e ↦
            rw (require_job-found job_id access maintainer db.jobs job h)
              (rw e (perform_for-permitted route access job job_id now db e))
        | inr e ↦
            rw (require_job-found job_id access maintainer db.jobs job h)
              (rw e (sym (permitted-refused route access job job_id now db e)))
      ]

  -- A request to cancel, delete or clean up a job is answered 404 and changes nothing, if there is no
  -- such job; it is answered 403 and changes nothing, unless the caller is a maintainer of the job's
  -- project, and no service but a worker, and to delete the job also the user who owns it; and
  -- otherwise it is the call of the store.
  pub serve-permitted :
      (route : JobRoute) (access : AccessContext) (job_id now : String) (db : Db Files)
      → serve store d le route access job_id now db
        ≡ permitted route access job_id now db (get_job job_id false db.jobs)
  unfolding serve permitted
  serve-permitted route access job_id now db = elim (Option-cases (get_job job_id false db.jobs)) [
    | inl e ↦ rw e refl
    | inr (job, e) ↦
        serve-found route access job job_id now db e
        ∙ ap (permitted route access job_id now db) (sym e)
  ]
