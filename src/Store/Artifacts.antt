-- ===== src/Store/Artifacts.antt =====
-- The artifacts table of apps/api/app/store.py, its retention classes, and the artifact store that
-- keeps the files.
use ai_jsunpack.Prelude.{ℕ, String, Bool, true, false, not, Option, some, List, is_some}
use ai_jsunpack.Store.Types.{JobStatus}
use ai_jsunpack.Store.Jobs.{Jobs}

pub data ArtifactKind : Type 0 where
  source_input input_inventory source_index ast_index agent_plan agent_execution inference_record
        reconstruction_plan generated_project build_log build_artifact runtime_validation
        runtime_trace runtime_screenshot runtime_scenario runtime_comparison review_run tool_call
        tool_registry memory_record knowledge_evidence repair_instruction runtime_diagnosis
        report_section ops_alert_event result_file result_summary evidence_package result_package
        audit_report html_report evidence_index :
      ArtifactKind

pub data SensitivityClass : Type 0 where
  public derived source_sensitive secret : SensitivityClass

pub data RetentionClass : Type 0 where
  ephemeral project archive : RetentionClass

pub data RetentionCategory : Type 0 where
  source derived package_files logs screenshots memory : RetentionCategory

pub RetentionClass-discrete : Discrete RetentionClass
RetentionClass-discrete = hlevel

pub RetentionCategory-discrete : Discrete RetentionCategory
RetentionCategory-discrete = hlevel

-- `RETENTION_CATEGORY_BY_KIND.get(kind, "derived")`
unfoldable pub retention_category_for_kind : ArtifactKind → RetentionCategory
retention_category_for_kind source_input = source
retention_category_for_kind result_file = package_files
retention_category_for_kind evidence_package = package_files
retention_category_for_kind result_package = package_files
retention_category_for_kind audit_report = package_files
retention_category_for_kind html_report = package_files
retention_category_for_kind evidence_index = package_files
retention_category_for_kind build_log = logs
retention_category_for_kind runtime_trace = logs
retention_category_for_kind runtime_screenshot = screenshots
retention_category_for_kind memory_record = memory
retention_category_for_kind _ = RetentionCategory.derived

-- `DEFAULT_RETENTION_BY_CATEGORY`
unfoldable pub default_retention_by_category : RetentionCategory → RetentionClass
default_retention_by_category source = archive
default_retention_by_category RetentionCategory.derived = project
default_retention_by_category package_files = archive
default_retention_by_category logs = ephemeral
default_retention_by_category screenshots = ephemeral
default_retention_by_category memory = project

unfoldable pub default_retention_class : ArtifactKind → RetentionClass
unfolding retention_category_for_kind default_retention_by_category
default_retention_class kind = default_retention_by_category (retention_category_for_kind kind)

-- `kind in FILE_RETENTION_ARTIFACT_KINDS`
unfoldable pub is_file_retention_kind : ArtifactKind → Bool
is_file_retention_kind source_input = true
is_file_retention_kind result_file = true
is_file_retention_kind result_package = true
is_file_retention_kind audit_report = true
is_file_retention_kind html_report = true
is_file_retention_kind _ = false

pub record Artifact : Type 0 where
  pub id : String
  pub job_id : String
  pub kind : ArtifactKind
  pub stage : JobStatus
  pub attempt : ℕ
  pub schema_version : String
  pub content_type : String
  pub hash : String
  pub size : ℕ
  pub storage_uri : String
  pub filename : String
  pub parent_artifact_ids : List String
  pub producer : String
  pub sensitivity_class : SensitivityClass
  pub retention_class : RetentionClass
  pub created_at : String
  pub expires_at : Option String
  pub deleted_at : Option String
  pub deletion_reason : Option String

abbrev pub Artifacts : Type 0
Artifacts = List Artifact

abbrev pub artifact_key : Artifact → String
artifact_key a = a.id

abbrev pub is_kept : Artifact → Bool
is_kept a = not (is_some a.deleted_at)

-- The columns that a deletion sets.
unfoldable pub set_deleted : String → String → Artifact → Artifact
set_deleted now reason a = record a { deleted_at = some now; deletion_reason = some reason }

-- A call that may raise an exception, which prints as the text.
pub data Attempt {ℓ} (A : Type ℓ) : Type ℓ where
  done : A → Attempt A
  raised : String → Attempt A

-- The part of the `ArtifactStore` protocol that deletions use, over the files that it keeps. A
-- deletion that raises may have removed part of what it was to remove.
pub record ArtifactStore (Files : Type 0) : Type 0 where
  pub exists : String → Files → Attempt Bool
  pub delete : String → Files → Attempt (Unit {0}) × Files

pub record Db (Files : Type 0) : Type 0 where
  pub jobs : Jobs
  pub artifacts : Artifacts
  pub files : Files
