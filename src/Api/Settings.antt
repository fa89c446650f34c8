-- ===== src/Api/Settings.antt =====
-- The routes of apps/api/app/main.py that write settings and roll them back, over the revisions of
-- the store. Pydantic's validation of a patch is a parameter; what a route gives back hides secrets
-- and is left out.
pub mod Writers
use ai_jsunpack.Prelude.{
  ℕ, String, Bool, true, false, not, ◌&&◌, Option, none, some, List, if◌then◌else◌, leb, str_eq,
}
use ai_jsunpack.Json.{ℤ, pos, negsuc, Json, num, Fields, end, field, get}
use ai_jsunpack.Store.Jobs.{Result, ok, err}
use ai_jsunpack.Store.Settings.{
  SettingScope, system, project, account, SettingsRow, SettingsRevision, SettingsWrite,
  get_settings_revision, write_settings_revision,
}
use ai_jsunpack.Auth.Roles.{owner, AccessContext}
use ai_jsunpack.Api.Guards.{
  Reply, reply, http_exception, bind_reply, require_authenticated_user, require_project_role,
  require_system_settings_write,
}
use ai_jsunpack.Api.Jobs.{unless_refused}

-- The settings of which scope
pub data SettingsTarget : Type 0 where
  system_settings account_settings : SettingsTarget
  project_settings : String → SettingsTarget

-- What a request carries, with the drawn id and the time
pub record SettingsRequest : Type 0 where
  pub id : String
  pub reason : String
  pub expected_revision : ℕ
  pub now : String

unfoldable pub guard_write : SettingsTarget → AccessContext → Reply (Unit {0})
unfolding require_system_settings_write require_authenticated_user require_project_role
guard_write system_settings access = require_system_settings_write access
guard_write account_settings access = require_authenticated_user access
guard_write (project_settings project_id) access = require_project_role access project_id owner

abbrev pub scope_of : SettingsTarget → SettingScope
scope_of system_settings = system
scope_of account_settings = account
scope_of (project_settings _) = project

abbrev pub scope_id_of : SettingsTarget → AccessContext → Option String
scope_id_of system_settings access = none
scope_id_of account_settings access = some access.subject
scope_id_of (project_settings project_id) access = some project_id

abbrev pub write_of : SettingsTarget → AccessContext → SettingsRequest → Fields → SettingsWrite
write_of target access request settings = record {
  id = request.id;
  scope = scope_of target;
  scope_id = scope_id_of target access;
  settings = settings;
  actor_id = access.subject;
  reason = request.reason;
  expected_revision = request.expected_revision;
  now = request.now;
}

abbrev only_retention : Fields → Bool
only_retention end = true
only_retention (field key _ rest) = str_eq key "fileRetentionDays" && only_retention rest

-- A Boolean is not taken for a number here.
abbrev days_of : Option Json → Reply ℕ
days_of none = reply 90
days_of (some (num (pos n))) = if leb 1 n && leb n 3650 then reply n else http_exception 422
days_of (some _) = http_exception 422

abbrev retention_of : ℕ → Reply Fields
retention_of days = reply (field "fileRetentionDays" (num (pos days)) end)

unfoldable pub validated_account_settings : Fields → Reply Fields
unfolding get bind_reply
validated_account_settings settings =
    if only_retention settings
    then bind_reply (days_of (get "fileRetentionDays" settings)) retention_of
    else http_exception 422

-- A ValueError of the store is a conflict.
abbrev conflict : Result SettingsRevision → ℕ
conflict (ok _) = 200
conflict (err _) = 409

unfoldable pub write_settings : SettingsWrite → List SettingsRow → ℕ × List SettingsRow
unfolding write_settings_revision
write_settings w rows =
    let (result, after) = write_settings_revision w rows rows in (conflict result, after)

module _ (validated_runtime_settings_patch : Fields → Reply Fields) where
  unfoldable pub validated : SettingsTarget → Fields → Reply Fields
  unfolding validated_account_settings
  validated account_settings settings = validated_account_settings settings
  validated _ settings = validated_runtime_settings_patch settings

  -- `update_system_settings`, `update_project_settings` and `update_account_settings`
  unfoldable pub update_settings :
      SettingsTarget
      → AccessContext
      → SettingsRequest
      → Fields
      → List SettingsRow
      → ℕ × List SettingsRow
  unfolding guard_write validated write_settings
  update_settings target access request settings rows =
      unless_refused rows (guard_write target access) λ _.
        unless_refused rows (validated target settings)
          λ checked. write_settings (write_of target access request checked) rows

-- `rollback_settings`; a ValueError of `get_settings_revision` is not caught.
unfoldable pub rollback_found :
    SettingsTarget
    → AccessContext
    → SettingsRequest
    → Result (Option SettingsRevision)
    → List SettingsRow
    → ℕ × List SettingsRow
unfolding write_settings
rollback_found target access request (err e) rows = (500, rows)
rollback_found target access request (ok none) rows = (404, rows)
rollback_found target access request (ok (some revision)) rows =
    write_settings (write_of target access request revision.settings) rows

-- `rollback_system_settings`, `rollback_project_settings` and `rollback_account_settings`
unfoldable pub rollback :
    SettingsTarget → AccessContext → SettingsRequest → ℕ → List SettingsRow → ℕ × List SettingsRow
unfolding guard_write get_settings_revision rollback_found
rollback target access request revision rows = unless_refused rows (guard_write target access) λ _.
    rollback_found target access request
      (get_settings_revision (scope_of target) revision (scope_id_of target access) rows) rows
