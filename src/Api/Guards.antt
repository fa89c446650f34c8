-- ===== src/Api/Guards.antt =====
-- The guards of apps/api/app/main.py that ask for roles. A refusal is the status code of an
-- HTTPException; its detail is a text and is left out.
use ai_jsunpack.Prelude.{
  ℕ, String, Bool, true, false, not, ◌&&◌, ◌||◌, Option, none, some, [], ◌∷◌, if◌then◌else◌, str_eq,
}
use ai_jsunpack.Store.Jobs.{Job, Jobs, get_job}
use ai_jsunpack.Auth.Roles.{
  ProjectRole, viewer, maintainer, owner, is_service, AccessContext, Projects, has_project_role,
  has_service_role,
}

pub data Reply (A : Type 0) : Type 0 where
  reply : A → Reply A
  http_exception : ℕ → Reply A

unfoldable pub bind_reply : {A B : Type 0} → Reply A → (A → Reply B) → Reply B
bind_reply (reply a) f = f a
bind_reply (http_exception code) f = http_exception code

-- `SERVICE_ROLE_WORKER`
abbrev pub service_role_worker : String
service_role_worker = "worker"

unfoldable pub is_foreign_service : AccessContext → Bool
unfolding has_service_role
is_foreign_service access =
    is_service access.kind && not (has_service_role access service_role_worker)

unfoldable pub require_project_role : AccessContext → String → ProjectRole → Reply (Unit {0})
unfolding is_foreign_service has_project_role
require_project_role access project_id minimum_role =
    if is_foreign_service access
    then http_exception 403
    else if has_project_role access project_id minimum_role
    then reply tt
    else http_exception 403

unfoldable pub require_create_access : String → String → AccessContext → Reply (Unit {0})
unfolding require_project_role bind_reply
require_create_access project_id owner_id access =
    bind_reply (require_project_role access project_id maintainer) λ _.
      if not (is_service access.kind) && not (str_eq owner_id access.subject)
      then http_exception 403
      else reply tt

unfoldable pub found_job : Option Job → Reply Job
found_job none = http_exception 404
found_job (some job) = reply job

unfoldable pub require_job : String → AccessContext → ProjectRole → Jobs → Reply Job
unfolding get_job found_job require_project_role bind_reply
require_job job_id access minimum_role jobs =
    bind_reply (found_job (get_job job_id false jobs))
      λ job. bind_reply (require_project_role access job.project_id minimum_role) λ _. reply job

unfoldable pub require_authenticated_user : AccessContext → Reply (Unit {0})
require_authenticated_user access = if is_service access.kind then http_exception 403 else reply tt

unfoldable pub require_job_owner : Job → AccessContext → Reply (Unit {0})
require_job_owner job access =
    if is_service access.kind || not (str_eq job.owner_id access.subject)
    then http_exception 403
    else reply tt

abbrev is_owner : ProjectRole → Bool
is_owner owner = true
is_owner _ = false

abbrev is_maintainer : ProjectRole → Bool
is_maintainer viewer = false
is_maintainer _ = true

unfoldable pub owns_any : Projects → Bool
owns_any [] = false
owns_any ((project, role) ∷ rest) = is_owner role || owns_any rest

unfoldable pub maintains_any : Projects → Bool
maintains_any [] = false
maintains_any ((project, role) ∷ rest) = is_maintainer role || maintains_any rest

unfoldable pub require_system_settings_write : AccessContext → Reply (Unit {0})
unfolding require_authenticated_user owns_any bind_reply
require_system_settings_write access =
    bind_reply (require_authenticated_user access)
      λ _. if owns_any access.projects then reply tt else http_exception 403

unfoldable pub require_ops_service : AccessContext → Reply (Unit {0})
unfolding has_service_role
require_ops_service access =
    if not (is_service access.kind) || not (has_service_role access service_role_worker)
    then http_exception 403
    else reply tt

unfoldable pub require_ops_read_access : AccessContext → Reply (Unit {0})
unfolding has_service_role maintains_any
require_ops_read_access access =
    if is_service access.kind && has_service_role access service_role_worker
    then reply tt
    else if not (is_service access.kind) && maintains_any access.projects
    then reply tt
    else http_exception 403
