-- ===== src/Api/Settings/Writers.antt =====
-- Who may write settings, and what a write leaves in the table.
use ai_jsunpack.Prelude.{
  ℕ, ◌+◌, ◌≡◌, ◌⊎◌, refl, String, Bool, true, false, ◌==◌, Option, none, some, List, [], ◌∷◌, ◌++◌,
  Bool-cases, inl, inr,
}
use ai_jsunpack.Json.{Fields}
use ai_jsunpack.Store.Jobs.{Result, ok, err}
use ai_jsunpack.Store.Settings.{
  SettingsRow, SettingsRevision, SettingsWrite, row_of, normalize_settings_scope_id,
  current_revision, latest, clashes, insert_revision, insert_if, write_at, write_settings_revision,
}
use ai_jsunpack.Auth.Roles.{owner, AccessContext, is_service, has_project_role}
use ai_jsunpack.Api.Guards.{
  Reply, reply, http_exception, bind_reply, is_foreign_service, owns_any,
  require_authenticated_user, require_project_role, require_system_settings_write,
}
use ai_jsunpack.Api.Jobs.{unless_refused}
use ai_jsunpack.Api.Settings.{
  SettingsTarget, system_settings, account_settings, project_settings, SettingsRequest, guard_write,
  scope_of, scope_id_of, write_of, write_settings, validated, update_settings, rollback_found,
  rollback,
}

-- Who may write the settings: of the system, a user who owns a project; of an account, its user; of
-- a project, who owns it, and no service but a worker.
abbrev pub MayWrite : SettingsTarget → AccessContext → Type 0
MayWrite system_settings access =
    (is_service access.kind ≡ false) × (owns_any access.projects ≡ true)
MayWrite account_settings access = is_service access.kind ≡ false
MayWrite (project_settings project_id) access =
    (is_foreign_service access ≡ false) × (has_project_role access project_id owner ≡ true)

-- One more row, in the scope of the target and in the name of the caller
pub record IsWritten (target : SettingsTarget) (access : AccessContext)
    (rows after : List SettingsRow) : Type 0 where
  pub row : SettingsRow
  pub after_row : after ≡ rows ++ row ∷ []
  pub may_write : MayWrite target access
  pub actor : row.actor_id ≡ access.subject
  pub scope : row.scope ≡ scope_of target
  pub scope_id :
      normalize_settings_scope_id (scope_of target) (scope_id_of target access) ≡ some row.scope_id

abbrev Kept : SettingsTarget → AccessContext → List SettingsRow → List SettingsRow → Type 0
Kept target access rows after = (after ≡ rows) ⊎ IsWritten target access rows after

require_authenticated_user-reply :
    (access : AccessContext)
    → require_authenticated_user access ≡ reply tt
    → is_service access.kind ≡ false
unfolding require_authenticated_user
require_authenticated_user-reply access h = elim (Bool-cases (is_service access.kind)) [
  | inl e ↦ cc (rw e at h)
  | inr e ↦ e
]

guard_write-MayWrite :
    (target : SettingsTarget) (access : AccessContext)
    → guard_write target access ≡ reply tt
    → MayWrite target access
unfolding guard_write require_system_settings_write require_project_role require_authenticated_user
    bind_reply
guard_write-MayWrite account_settings access h = require_authenticated_user-reply access h
guard_write-MayWrite system_settings access h = elim (Bool-cases (is_service access.kind)) [
  | inl e ↦ cc (rw e at h)
  | inr e ↦ elim (Bool-cases (owns_any access.projects)) [
    | inl k ↦ (e, k)
    | inr k ↦ cc (rw (e, k) at h)
  ]
]
guard_write-MayWrite (project_settings project_id) access h =
    elim (Bool-cases (is_foreign_service access)) [
      | inl e ↦ cc (rw e at h)
      | inr e ↦ elim (Bool-cases (has_project_role access project_id owner)) [
        | inl k ↦ (e, k)
        | inr k ↦ cc (rw (e, k) at h)
      ]
    ]

module _ (w : SettingsWrite) (id : String) (rows : List SettingsRow) (revision : ℕ) where
  -- A row is added, or none
  insert_if-rows :
      (same : Bool)
      → ((insert_if same (row_of w id revision) rows).1 ≡ rows)
        ⊎ ((insert_if same (row_of w id revision) rows).1 ≡ rows ++ row_of w id revision ∷ [])
  unfolding insert_if insert_revision
  insert_if-rows false = inl refl
  insert_if-rows true = elim (Bool-cases (clashes (row_of w id revision) rows)) [
    | inl e ↦ inl (rw e refl)
    | inr e ↦ inr (rw e refl)
  ]

write_settings-Kept :
    (target : SettingsTarget) (access : AccessContext) (request : SettingsRequest)
    (settings : Fields) (rows : List SettingsRow)
    → MayWrite target access
    → Kept target access rows (write_settings (write_of target access request settings) rows).1
unfolding write_settings write_settings_revision write_at
write_settings-Kept target access request settings rows may =
    go (normalize_settings_scope_id (scope_of target) (scope_id_of target access)) refl
  where
    go :
        (o : Option String)
        → normalize_settings_scope_id (scope_of target) (scope_id_of target access) ≡ o
        → Kept target access rows
            (write_at
              (write_of target access request settings)
              (normalize_settings_scope_id (scope_of target) (scope_id_of target access))
              rows
              rows).1
    go none e = rw (e, write_at) (inl refl)
    go (some id) e =
        let w = write_of target access request settings in
        let current = current_revision (latest w.scope id rows) in
        rw (e, write_at)
          (elim (insert_if-rows w id rows (current + 1) (current == w.expected_revision)) [
            | inl same ↦ inl same
            | inr more ↦ inr (record {
              row = row_of w id (current + 1);
              after_row = more;
              may_write = may;
              actor = refl;
              scope = refl;
              scope_id = e;
            })
          ])

unless_refused-Kept :
    {A : Type 0} (target : SettingsTarget) (access : AccessContext) (rows : List SettingsRow)
    (m : Reply A) (f : A → ℕ × List SettingsRow)
    → ((a : A) → m ≡ reply a → Kept target access rows (f a).1)
    → Kept target access rows (unless_refused rows m f).1
unless_refused-Kept target access rows (reply a) f h = h a refl
unless_refused-Kept target access rows (http_exception code) f h = inl refl

rollback_found-Kept :
    (target : SettingsTarget) (access : AccessContext) (request : SettingsRequest)
    (found : Result (Option SettingsRevision)) (rows : List SettingsRow)
    → MayWrite target access
    → Kept target access rows (rollback_found target access request found rows).1
unfolding rollback_found
rollback_found-Kept target access request (err e) rows may = inl refl
rollback_found-Kept target access request (ok none) rows may = inl refl
rollback_found-Kept target access request (ok (some revision)) rows may =
    write_settings-Kept target access request revision.settings rows may

update_settings-Kept :
    (patch : Fields → Reply Fields) (target : SettingsTarget) (access : AccessContext)
    (request : SettingsRequest) (settings : Fields) (rows : List SettingsRow)
    → Kept target access rows (update_settings patch target access request settings rows).1
unfolding update_settings
update_settings-Kept patch target access request settings rows =
    unless_refused-Kept target access rows (guard_write target access) _ λ u guarded.
      unless_refused-Kept target access rows (validated patch target settings) _ λ checked valid.
        write_settings-Kept target access request checked rows
          (guard_write-MayWrite target access guarded)

rollback-Kept :
    (target : SettingsTarget) (access : AccessContext) (request : SettingsRequest) (revision : ℕ)
    (rows : List SettingsRow)
    → Kept target access rows (rollback target access request revision rows).1
unfolding rollback
rollback-Kept target access request revision rows =
    unless_refused-Kept target access rows (guard_write target access) _ λ u guarded.
      rollback_found-Kept target access request _ rows (guard_write-MayWrite target access guarded)

-- A request to write settings and a request to roll them back each leave the table as it was, or add
-- one row, in the scope that was asked for and in the name of the caller, who may write it: for the
-- system a user who owns a project, for an account its user, for a project its owner.
pub update_settings-IsWritten :
    (patch : Fields → Reply Fields) (target : SettingsTarget) (access : AccessContext)
    (request : SettingsRequest) (settings : Fields) (revision : ℕ) (rows : List SettingsRow)
    → ((update_settings patch target access request settings rows).1 ≡ rows
        ⊎ IsWritten target access rows
            (update_settings patch target access request settings rows).1)
      × ((rollback target access request revision rows).1 ≡ rows
          ⊎ IsWritten target access rows (rollback target access request revision rows).1)
update_settings-IsWritten patch target access request settings revision rows = (
  update_settings-Kept patch target access request settings rows,
  rollback-Kept target access request revision rows,
)
