-- ===== src/Store/Retention.antt =====
-- `cleanup_matches` and `cleanup_retention` of apps/api/app/store.py. A write to the database
-- succeeds; what may raise in the loop is the artifact store.
pub mod Spares
use mathlib.Core.Logic.{ite}
use ai_jsunpack.Prelude.{
  ℕ, ◌+◌, ◌-◌, String, Bool, true, false, not, ◌&&◌, ◌||◌, Option, none, some, List, [], ◌∷◌, ◌++◌,
  filter, length, leb, str_eq, if◌then◌else◌, text_append,
}
use ai_jsunpack.Prelude.Sort.{order_by}
use ai_jsunpack.Store.Leases.{Collation}
use ai_jsunpack.Prelude.Table.{update}
use ai_jsunpack.Store.Datetime.{Datetime, parse_timestamp}
use ai_jsunpack.Store.Jobs.{
  key_error, value_error, Result, ok, err, get_job, normalize_cleanup_reason,
}
use ai_jsunpack.Store.Artifacts.{
  ArtifactKind, RetentionClass, RetentionCategory, RetentionClass-discrete,
  RetentionCategory-discrete, retention_category_for_kind, Artifact, Artifacts, artifact_key,
  is_kept, set_deleted, Attempt, done, raised, ArtifactStore, Db,
}

pub record RetentionCleanupRequest : Type 0 where
  pub dry_run : Bool
  pub categories : List RetentionCategory
  pub retention_classes : List RetentionClass
  pub delete_expired : Bool
  pub reason : String
  pub now : Option String

pub record RetentionCleanupItem : Type 0 where
  pub artifact_id : String
  pub kind : ArtifactKind
  pub category : RetentionCategory
  pub retention_class : RetentionClass
  pub storage_uri : String
  pub deleted : Bool
  pub reason : String
  pub error : Option String

pub record RetentionCleanupResult : Type 0 where
  pub job_id : String
  pub dry_run : Bool
  pub requested_at : String
  pub candidate_count : ℕ
  pub deleted_count : ℕ
  pub skipped_count : ℕ
  pub error_count : ℕ
  pub items : List RetentionCleanupItem
  pub errors : List String

-- `a in set`
abbrev pub has : {A : Type 0} → Discrete A → List A → A → Bool
has dec [] a = false
has dec (x ∷ xs) a = let rest = has dec xs a in ite (dec a x) true rest

abbrev pub is_nonempty : {A : Type 0} → List A → Bool
is_nonempty [] = false
is_nonempty (x ∷ xs) = true

-- `if not artifact.expires_at` holds of a blank text too. `none` is a ValueError.
unfoldable pub artifact_is_expired : Datetime → Artifact → ℕ → Option Bool
artifact_is_expired d a now = elim a.expires_at [
  | none ↦ some false
  | some at ↦
      if str_eq at ""
      then some false
      else elim (parse_timestamp d at) [ none ↦ none | some t ↦ some (leb t now) ]
]

-- The selectors of a request, once it is known whether the artifact has expired.
unfoldable pub is_selected : RetentionCleanupRequest → Bool → Artifact → Bool
unfolding retention_category_for_kind
is_selected request expired a =
    if request.delete_expired && not expired
    then false
    else if not request.delete_expired
        && not (is_nonempty request.categories || is_nonempty request.retention_classes)
    then false
    else if is_nonempty request.categories
        && not
            (has RetentionCategory-discrete request.categories (retention_category_for_kind a.kind))
    then false
    else if is_nonempty request.retention_classes
        && not (has RetentionClass-discrete request.retention_classes a.retention_class)
    then false
    else true

unfoldable pub cleanup_matches : Datetime → RetentionCleanupRequest → ℕ → Artifact → Option Bool
unfolding artifact_is_expired is_selected
cleanup_matches d request now a =
    let expired = artifact_is_expired d a now in
    if request.delete_expired
    then elim expired [ none ↦ none | some e ↦ some (is_selected request e a) ]
    else some (is_selected request false a)

-- `[artifact for artifact in active_artifacts if cleanup_matches(...)]`
unfoldable pub candidates_of :
    Datetime → RetentionCleanupRequest → ℕ → List Artifact → Option (List Artifact)
unfolding cleanup_matches
candidates_of d request now [] = some []
candidates_of d request now (a ∷ rest) = elim (cleanup_matches d request now a) [
  | none ↦ none
  | some false ↦ candidates_of d request now rest
  | some true ↦ elim (candidates_of d request now rest) [
    | none ↦ none
    | some more ↦ some (a ∷ more)
  ]
]

unfoldable pub cleanup_item : Artifact → Bool → String → Option String → RetentionCleanupItem
unfolding retention_category_for_kind
cleanup_item a deleted reason error = record {
  artifact_id = a.id;
  kind = a.kind;
  category = retention_category_for_kind a.kind;
  retention_class = a.retention_class;
  storage_uri = a.storage_uri;
  deleted = deleted;
  reason = reason;
  error = error;
}

-- The variables of the loop over the candidates, with the database and the files that it changes.
pub record Sweep (Files : Type 0) : Type 0 where
  pub items : List RetentionCleanupItem
  pub errors : List String
  pub deleted_count : ℕ
  pub artifacts : Artifacts
  pub files : Files

module _ {Files : Type 0} (store : ArtifactStore Files) (requested_at reason : String) where
  -- What follows the deletion of the file: the UPDATE, or the `except`.
  unfoldable pub note_deletion : Artifact → Attempt (Unit {0}) × Files → Sweep Files → Sweep Files
  unfolding cleanup_item set_deleted
  note_deletion a (done _, files) s = record {
    items = s.items ++ cleanup_item a true reason none ∷ [];
    errors = s.errors;
    deleted_count = s.deleted_count + 1;
    artifacts = update artifact_key a.id (λ _. true) (set_deleted requested_at reason) s.artifacts;
    files = files;
  }
  note_deletion a (raised error, files) s = record {
    items = s.items ++ cleanup_item a false reason (some error) ∷ [];
    errors = s.errors ++ text_append a.id (text_append ": " error) ∷ [];
    deleted_count = s.deleted_count;
    artifacts = s.artifacts;
    files = files;
  }

  unfoldable pub delete_candidate : Artifact → Sweep Files → Sweep Files
  unfolding note_deletion
  delete_candidate a s = note_deletion a (store.delete a.storage_uri s.files) s

  unfoldable pub sweep : Bool → List Artifact → Sweep Files → Sweep Files
  unfolding delete_candidate
  sweep dry_run [] s = s
  sweep dry_run (a ∷ rest) s = sweep dry_run rest (
      if dry_run
      then record s { items = s.items ++ cleanup_item a false "dry_run" none ∷ [] }
      else delete_candidate a s)

-- `request.now or utc_now()`
abbrev pub requested_time : Option String → String → String
requested_time none clock = clock
requested_time (some now) clock = if str_eq now "" then clock else now

-- ORDER BY created_at, id
abbrev pub artifact_before : Collation → Artifact → Artifact → Bool
artifact_before le a b =
    if le a.created_at b.created_at
    then (if le b.created_at a.created_at then le a.id b.id else true)
    else false

unfoldable pub list_artifacts : Collation → String → Artifacts → List Artifact
unfolding order_by
list_artifacts le job_id artifacts =
    order_by (artifact_before le) (filter (λ a. str_eq a.job_id job_id && is_kept a) artifacts)

module _ {Files : Type 0} (d : Datetime) (le : Collation) (store : ArtifactStore Files) where
  -- The result of a sweep of the candidates among the active artifacts.
  unfoldable pub cleanup_candidates :
      String
      → RetentionCleanupRequest
      → String
      → List Artifact
      → List Artifact
      → Db Files
      → RetentionCleanupResult × Db Files
  unfolding sweep normalize_cleanup_reason
  cleanup_candidates job_id request requested_at active candidates db =
      let s =
        sweep store requested_at (normalize_cleanup_reason request.reason) request.dry_run
          candidates
          (record {
            items = [];
            errors = [];
            deleted_count = 0;
            artifacts = db.artifacts;
            files = db.files;
          }) in
      (
        record {
          job_id = job_id;
          dry_run = request.dry_run;
          requested_at = requested_at;
          candidate_count = length candidates;
          deleted_count = s.deleted_count;
          skipped_count = length active - length candidates;
          error_count = length s.errors;
          items = s.items;
          errors = s.errors;
        },
        record db { artifacts = s.artifacts; files = s.files },
      )

  unfoldable pub cleanup_retention :
      String
      → RetentionCleanupRequest
      → String
      → Db Files
      → Result RetentionCleanupResult × Db Files
  unfolding candidates_of cleanup_candidates list_artifacts get_job
  cleanup_retention job_id request clock db =
      let requested_at = requested_time request.now clock in
      let active = list_artifacts le job_id db.artifacts in
      elim (get_job job_id false db.jobs) [
        | none ↦ (err key_error, db)
        | some _ ↦ elim (parse_timestamp d requested_at) [
          | none ↦ (err value_error, db)
          | some now ↦ elim (candidates_of d request now active) [
            | none ↦ (err value_error, db)
            | some candidates ↦
                let (result, db') =
                  cleanup_candidates job_id request requested_at active candidates db in
                (ok result, db')
          ]
        ]
      ]
