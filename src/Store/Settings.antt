-- ===== src/Store/Settings.antt =====
-- The revisions of settings in apps/api/app/store.py: `get_settings`, `get_settings_revision` and
-- `write_settings_revision`.
pub mod Writes
use ai_jsunpack.Prelude.{
  ℕ, ◌+◌, String, Bool, true, false, ◌&&◌, ◌||◌, ◌==◌, Option, none, some, List, [], ◌∷◌, ◌++◌,
  str_eq, ltb, strip, filter, if◌then◌else◌,
}
use ai_jsunpack.Json.{Fields, end, field, num, pos}
use ai_jsunpack.Store.Jobs.{Result, ok, err, value_error}

pub data SettingScope : Type 0 where
  system project account : SettingScope

abbrev pub scope_code : SettingScope → ℕ
scope_code system = 0
scope_code project = 1
scope_code account = 2

abbrev pub scope_eq : SettingScope → SettingScope → Bool
scope_eq a b = scope_code a == scope_code b

-- A row of `settings_revisions_table`.
pub record SettingsRow : Type 0 where
  pub id : String
  pub scope : SettingScope
  pub scope_id : String
  pub revision : ℕ
  pub settings : Fields
  pub actor_id : String
  pub reason : String
  pub created_at : String

pub record SettingsRevision : Type 0 where
  pub id : String
  pub scope : SettingScope
  pub scope_id : Option String
  pub revision : ℕ
  pub settings : Fields
  pub actor_id : String
  pub reason : String
  pub created_at : String

pub record SettingsSnapshot : Type 0 where
  pub scope : SettingScope
  pub scope_id : Option String
  pub revision : ℕ
  pub settings : Fields
  pub updated_at : Option String

-- `none` is a ValueError.
unfoldable pub normalize_settings_scope_id : SettingScope → Option String → Option String
unfolding strip
normalize_settings_scope_id system none = some ""
normalize_settings_scope_id system (some s) = if str_eq s "" then some "" else none
normalize_settings_scope_id _ none = none
normalize_settings_scope_id _ (some s) = if str_eq (strip s) "" then none else some (strip s)

-- `_settings_revision_from_row`
unfoldable pub settings_revision_from_row : SettingsRow → SettingsRevision
settings_revision_from_row row = record {
  id = row.id;
  scope = row.scope;
  scope_id = if str_eq row.scope_id "" then none else some row.scope_id;
  revision = row.revision;
  settings = row.settings;
  actor_id = row.actor_id;
  reason = row.reason;
  created_at = row.created_at;
}

abbrev pub in_scope : SettingScope → String → SettingsRow → Bool
in_scope scope scope_id row = scope_eq row.scope scope && str_eq row.scope_id scope_id

-- ORDER BY revision DESC LIMIT 1
unfoldable pub highest : List SettingsRow → Option SettingsRow
highest [] = none
highest (row ∷ rows) = elim (highest rows) [
  | none ↦ some row
  | some best ↦ if ltb row.revision best.revision then some best else some row
]

unfoldable pub latest : SettingScope → String → List SettingsRow → Option SettingsRow
unfolding highest
latest scope scope_id rows = highest (filter (in_scope scope scope_id) rows)

unfoldable pub default_settings : SettingScope → Fields
default_settings account = field "fileRetentionDays" (num (pos 90)) end
default_settings _ = end

-- The snapshot of the latest row, or of none.
unfoldable pub snapshot : SettingScope → Option String → Option SettingsRow → SettingsSnapshot
unfolding default_settings
snapshot scope scope_id none = record {
  scope = scope;
  scope_id = scope_id;
  revision = 0;
  settings = default_settings scope;
  updated_at = none;
}
snapshot scope scope_id (some row) = record {
  scope = scope;
  scope_id = scope_id;
  revision = row.revision;
  settings = row.settings;
  updated_at = some row.created_at;
}

unfoldable pub get_settings :
    SettingScope → Option String → List SettingsRow → Result SettingsSnapshot
unfolding normalize_settings_scope_id latest snapshot
get_settings scope scope_id rows = elim (normalize_settings_scope_id scope scope_id) [
  | none ↦ err value_error
  | some id ↦ ok (snapshot scope scope_id (latest scope id rows))
]

unfoldable pub first_with_revision : ℕ → List SettingsRow → Option SettingsRow
first_with_revision revision [] = none
first_with_revision revision (row ∷ rows) =
    let rest = first_with_revision revision rows in
    if row.revision == revision then some row else rest

unfoldable pub get_settings_revision :
    SettingScope → ℕ → Option String → List SettingsRow → Result (Option SettingsRevision)
unfolding normalize_settings_scope_id first_with_revision settings_revision_from_row
get_settings_revision scope revision scope_id rows =
    elim (normalize_settings_scope_id scope scope_id) [
      | none ↦ err value_error
      | some id ↦ elim (first_with_revision revision (filter (in_scope scope id) rows)) [
        | none ↦ ok none
        | some row ↦ ok (some (settings_revision_from_row row))
      ]
    ]

-- `int(current_row.revision) if current_row is not None else 0`
unfoldable pub current_revision : Option SettingsRow → ℕ
current_revision none = 0
current_revision (some row) = row.revision

-- The primary key, or the unique constraint on scope, scope id and revision, refuses a row.
unfoldable pub clashes : SettingsRow → List SettingsRow → Bool
clashes row [] = false
clashes row (old ∷ rows) =
    let rest = clashes row rows in
    str_eq old.id row.id
    || (in_scope row.scope row.scope_id old && (old.revision == row.revision))
    || rest

-- An IntegrityError is raised again as a ValueError.
unfoldable pub insert_revision :
    SettingsRow → List SettingsRow → Result SettingsRevision × List SettingsRow
unfolding clashes settings_revision_from_row
insert_revision row rows =
    if clashes row rows
    then (err value_error, rows)
    else (ok (settings_revision_from_row row), rows ++ row ∷ [])

-- What a caller of `write_settings_revision` gives, with the drawn id and the time.
pub record SettingsWrite : Type 0 where
  pub id : String
  pub scope : SettingScope
  pub scope_id : Option String
  pub settings : Fields
  pub actor_id : String
  pub reason : String
  pub expected_revision : ℕ
  pub now : String

abbrev pub row_of : SettingsWrite → String → ℕ → SettingsRow
row_of w scope_id revision = record {
  id = w.id;
  scope = w.scope;
  scope_id = scope_id;
  revision = revision;
  settings = w.settings;
  actor_id = w.actor_id;
  reason = strip w.reason;
  created_at = w.now;
}

-- `if current_revision != expected_revision: raise`
unfoldable pub insert_if :
    Bool → SettingsRow → List SettingsRow → Result SettingsRevision × List SettingsRow
unfolding insert_revision
insert_if true row rows = insert_revision row rows
insert_if false row rows = (err value_error, rows)

-- The write at a scope id that was normalised.
unfoldable pub write_at :
    SettingsWrite
    → Option String
    → List SettingsRow
    → List SettingsRow
    → Result SettingsRevision × List SettingsRow
unfolding latest current_revision insert_if
write_at w none seen rows = (err value_error, rows)
write_at w (some id) seen rows =
    let current = current_revision (latest w.scope id seen) in
    insert_if (current == w.expected_revision) (row_of w id (current + 1)) rows

-- The current revision is read from `seen`, and the row inserted into `rows`, which another
-- transaction may have changed in between.
unfoldable pub write_settings_revision :
    SettingsWrite → List SettingsRow → List SettingsRow → Result SettingsRevision × List SettingsRow
unfolding normalize_settings_scope_id write_at
write_settings_revision w seen rows =
    write_at w (normalize_settings_scope_id w.scope w.scope_id) seen rows
