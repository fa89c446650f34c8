-- ===== src/Api/Tests.antt =====
-- Callers and uploads on which the theorems of the API are applied.
use ai_jsunpack.Prelude.{ℕ, ◌≡◌, ◌≤◌, ◌⊎◌, refl, false, List, [], ◌∷◌, length, All}
use ai_jsunpack.Json.{Fields, end, field, num, pos}
use ai_jsunpack.Store.Jobs.{get_job}
use ai_jsunpack.Store.Tests.{by_size, strokes}
use ai_jsunpack.Store.Tests.Deletion.{memory, stored}
use ai_jsunpack.Auth.Roles.{owner, user, AccessContext}
use ai_jsunpack.Api.Guards.{reply, http_exception}
use ai_jsunpack.Api.Paths.{
  with_slashes, normalize_directory_upload_path, inferred_directory_name, read_files,
}
use ai_jsunpack.Api.Paths.Safe.{
  IsSafe, normalize_directory_upload_path-IsSafe, total_length, read_files-bounds,
}
use ai_jsunpack.Api.Jobs.{delete, serve}
use ai_jsunpack.Api.Jobs.Allowed.{permitted, serve-permitted}
use ai_jsunpack.Api.Settings.{account_settings, SettingsRequest, update_settings, rollback}
use ai_jsunpack.Api.Settings.Writers.{IsWritten, update_settings-IsWritten}

abbrev caller : AccessContext
caller = record { subject = "lin"; kind = user; projects = ("web", owner) ∷ []; service_roles = [] }

normalize-backslash : normalize_directory_upload_path "src\\a.js" ≡ reply "src/a.js"
unfolding normalize_directory_upload_path
normalize-backslash = refl

normalize-outside : normalize_directory_upload_path "src/../../etc" ≡ http_exception 400
unfolding normalize_directory_upload_path
normalize-outside = refl

inferred_directory_name-one : inferred_directory_name ("app/a.js" ∷ "app/b.js" ∷ []) ≡ "app"
unfolding inferred_directory_name
inferred_directory_name-one = refl

normalize_directory_upload_path-IsSafe_example :
    IsSafe "src/a.js"
    × ("src/a.js" ≡ with_slashes "src\\a.js")
    × (normalize_directory_upload_path "src/a.js" ≡ reply "src/a.js")
normalize_directory_upload_path-IsSafe_example =
    normalize_directory_upload_path-IsSafe "src\\a.js" "src/a.js" normalize-backslash

abbrev two_files : List (List ℕ)
two_files = (1 ∷ 2 ∷ []) ∷ (3 ∷ []) ∷ []

read_files-two : read_files 2 3 0 two_files ≡ reply two_files
unfolding read_files
read_files-two = refl

read_files-bounds_example :
    (two_files ≡ two_files) × (total_length two_files ≤ 3) × All (λ f. length f ≤ 2) two_files
read_files-bounds_example = read_files-bounds 2 3 two_files two_files read_files-two

serve-permitted_example :
    serve memory strokes by_size delete caller "a" "xx+" stored
    ≡ permitted memory strokes by_size delete caller "a" "xx+" stored
        (get_job "a" false stored.jobs)
serve-permitted_example = serve-permitted memory strokes by_size delete caller "a" "xx+" stored

abbrev asked : SettingsRequest
asked = record { id = "s1"; reason = "less"; expected_revision = 0; now = "x+" }

abbrev thirty_days : Fields
thirty_days = field "fileRetentionDays" (num (pos 30)) end

update_settings-thirty :
    (update_settings reply account_settings caller asked thirty_days []).0 ≡ 200
unfolding update_settings
update_settings-thirty = refl

update_settings-IsWritten_example :
    ((update_settings reply account_settings caller asked thirty_days []).1 ≡ []
      ⊎ IsWritten account_settings caller []
          (update_settings reply account_settings caller asked thirty_days []).1)
    × ((rollback account_settings caller asked 1 []).1 ≡ []
        ⊎ IsWritten account_settings caller [] (rollback account_settings caller asked 1 []).1)
update_settings-IsWritten_example =
    update_settings-IsWritten reply account_settings caller asked thirty_days 1 []
