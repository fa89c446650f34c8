-- ===== src/Store/Deletion.antt =====
-- `soft_delete_job`, `_delete_artifact_record` and `cleanup_expired_artifacts` of
-- apps/api/app/store.py.
pub mod Complete
use ai_jsunpack.Prelude.{
  ℕ, ◌+◌, String, Bool, true, false, ◌&&◌, Option, none, some, List, [], ◌∷◌, ◌++◌, ◌==◌, filter,
  is_some, if◌then◌else◌, text_append,
}
use ai_jsunpack.Prelude.Table.{find, update, rowcount}
use ai_jsunpack.Store.Datetime.{Datetime, parse_timestamp}
use ai_jsunpack.Store.Jobs.{
  Job, Jobs, job_key, is_live, key_error, value_error, artifact_deletion, Result, ok, err,
  normalize_cleanup_reason,
}
use ai_jsunpack.Store.Leases.{Collation}
use ai_jsunpack.Store.Artifacts.{
  Artifact, Artifacts, artifact_key, is_kept, set_deleted, Attempt, done, raised, ArtifactStore, Db,
}
use ai_jsunpack.Store.Retention.{list_artifacts, requested_time}

-- The columns that the deletion of a job sets.
unfoldable pub set_job_deleted : String → Job → Job
set_job_deleted now j = record j { deleted_at = some now; updated_at = now }

-- The variables of the loop over the artifacts of a job.
pub record Removal (Files : Type 0) : Type 0 where
  pub errors : List String
  pub artifacts : Artifacts
  pub files : Files

module _ {Files : Type 0} (store : ArtifactStore Files) where
  -- `if store.exists(uri): store.delete(uri)`
  unfoldable pub delete_if_exists : String → Files → Attempt (Unit {0}) × Files
  delete_if_exists uri files = elim (store.exists uri files) [
    | raised e ↦ (raised e, files)
    | done false ↦ (done tt, files)
    | done true ↦ store.delete uri files
  ]

  -- The `except` of one artifact, or the UPDATE behind it.
  unfoldable pub note_removal :
      String → String → Artifact → Attempt (Unit {0}) × Files → Removal Files → Removal Files
  unfolding set_deleted
  note_removal now reason a (raised e, files) s = record s {
    errors = s.errors ++ text_append a.id (text_append ": " e) ∷ [];
    files = files;
  }
  note_removal now reason a (done _, files) s = record s {
    artifacts = update artifact_key a.id is_kept (set_deleted now reason) s.artifacts;
    files = files;
  }

  unfoldable pub remove_artifact : String → String → Artifact → Removal Files → Removal Files
  unfolding delete_if_exists note_removal
  remove_artifact now reason a s =
      note_removal now reason a (delete_if_exists a.storage_uri s.files) s

  unfoldable pub remove_all : String → String → List Artifact → Removal Files → Removal Files
  unfolding remove_artifact
  remove_all now reason [] s = s
  remove_all now reason (a ∷ rest) s = remove_all now reason rest (remove_artifact now reason a s)

  -- What follows the loop, by the errors that it met. The transaction commits what was deleted
  -- before the method raises.
  unfoldable pub finish_delete :
      List String → String → String → Artifacts → Files → Jobs → Result Job × Db Files
  unfolding set_job_deleted
  finish_delete (e ∷ more) job_id now artifacts files jobs = (
    err (artifact_deletion (e ∷ more)),
    record { jobs = jobs; artifacts = artifacts; files = files },
  )
  finish_delete [] job_id now artifacts files jobs =
      let jobs' = update job_key job_id is_live (set_job_deleted now) jobs in
      (
        elim (find job_key job_id jobs') [ none ↦ err key_error | some row ↦ ok row ],
        record { jobs = jobs'; artifacts = artifacts; files = files },
      )

  unfoldable pub soft_delete_job :
      Collation → String → String → String → Db Files → Result Job × Db Files
  unfolding remove_all finish_delete list_artifacts normalize_cleanup_reason
  soft_delete_job le job_id reason now db =
      if rowcount job_key job_id is_live db.jobs == 0
      then (elim (find job_key job_id db.jobs) [ none ↦ err key_error | some row ↦ ok row ], db)
      else let s =
          remove_all now (normalize_cleanup_reason reason) (list_artifacts le job_id db.artifacts)
            (record { errors = []; artifacts = db.artifacts; files = db.files }) in
        finish_delete s.errors job_id now s.artifacts s.files db.jobs

  -- `_delete_artifact_record`
  unfoldable pub delete_artifact_record :
      String → String → Artifact → Db Files → Attempt (Unit {0}) × Db Files
  unfolding delete_if_exists set_deleted
  delete_artifact_record now reason a db =
      let (r, files) = delete_if_exists a.storage_uri db.files in
      if is_some a.deleted_at then (done tt, db) else elim r [
        | raised e ↦ (raised e, record db { files = files })
        | done _ ↦ (
          done tt,
          record db {
            artifacts = update artifact_key a.id is_kept (set_deleted now reason) db.artifacts;
            files = files;
          },
        )
      ]

  unfoldable pub expire_loop : String → List Artifact → ℕ → Db Files → ℕ × Db Files
  unfolding delete_artifact_record
  expire_loop now [] deleted_count db = (deleted_count, db)
  expire_loop now (a ∷ rest) deleted_count db =
      let (r, db') = delete_artifact_record now "expired" a db in
      expire_loop now rest (elim r [ done _ ↦ deleted_count + 1 | raised _ ↦ deleted_count ]) db'

  -- The WHERE compares `expires_at` with the time as texts.
  unfoldable pub is_expired_row : Collation → String → Artifact → Bool
  is_expired_row le now a = is_kept a && elim a.expires_at [ none ↦ false | some at ↦ le at now ]

  unfoldable pub cleanup_expired_artifacts :
      Datetime → Collation → Option String → String → Db Files → Result ℕ × Db Files
  unfolding expire_loop is_expired_row parse_timestamp
  cleanup_expired_artifacts d le now clock db =
      elim (parse_timestamp d (requested_time now clock)) [
        | none ↦ (err value_error, db)
        | some t ↦
            let (count, db') =
              expire_loop (d.isoformat t) (filter (is_expired_row le (d.isoformat t)) db.artifacts)
                0 db in
            (ok count, db')
      ]
