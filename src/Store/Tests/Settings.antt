-- ===== src/Store/Tests/Settings.antt =====
-- Settings of one project, on which the theorems of the writes are applied.
use ai_jsunpack.Prelude.{String, ◌≡◌, refl, some, List, [], ◌∷◌}
use ai_jsunpack.Json.{end, field, num, pos}
use ai_jsunpack.Store.Jobs.{err, value_error}
use ai_jsunpack.Store.Settings.{
  SettingsRow, SettingsWrite, project, settings_revision_from_row, row_of, write_settings_revision,
}
use ai_jsunpack.Store.Settings.Writes.{
  WriteOutcome, write_settings_revision_lem, write_settings_revision-second,
}

abbrev write : String → SettingsWrite
write id = record {
  id = id;
  scope = project;
  scope_id = some " p ";
  settings = field "fileRetentionDays" (num (pos 7)) end;
  actor_id = "owner";
  reason = "shorter";
  expected_revision = 1;
  now = "x+";
}

-- The project has one revision, and another project has three.
abbrev rows : List SettingsRow
rows = row_of (record (write "r1") { settings = end }) "p" 1 ∷ row_of (write "r2") "q" 3 ∷ []

write_settings_revision_lem_example :
    WriteOutcome (write "r3") rows (write_settings_revision (write "r3") rows rows)
write_settings_revision_lem_example = write_settings_revision_lem (write "r3") rows

write_settings_revision-second_example :
    write_settings_revision (write "r4") rows (write_settings_revision (write "r3") rows rows).1
    ≡ (err value_error, (write_settings_revision (write "r3") rows rows).1)
unfolding write_settings_revision settings_revision_from_row
write_settings_revision-second_example =
    write_settings_revision-second (write "r3") (write "r4") rows rows
      (settings_revision_from_row (row_of (write "r3") "p" 2)) refl refl refl
