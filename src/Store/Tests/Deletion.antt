-- ===== src/Store/Tests/Deletion.antt =====
-- A file store in memory, and a job with one artifact, on which the deletion theorems are applied.
use ai_jsunpack.Prelude.{
  String, refl, Option, none, some, List, [], ◌∷◌, filter, str_eq, not, is_some,
}
use ai_jsunpack.Prelude.Table.{find}
use ai_jsunpack.Store.Types.{intake, completed}
use ai_jsunpack.Store.Jobs.{Job}
use ai_jsunpack.Store.Artifacts.{
  Artifact, source_input, source_sensitive, project, done, ArtifactStore, Db,
}
use ai_jsunpack.Store.Deletion.{soft_delete_job}
use ai_jsunpack.Store.Deletion.Complete.{DeleteOutcome, soft_delete_job_complete}
use ai_jsunpack.Store.Tests.{by_size, job}

-- The files are the list of the URIs that are there.
abbrev pub memory : ArtifactStore (List String)
memory = record {
  exists = λ uri files. done (is_some (first (filter (str_eq uri) files)));
  delete = λ uri files. (done tt, filter (λ u. not (str_eq u uri)) files);
}
  where
    first : List String → Option String
    first [] = none
    first (x ∷ xs) = some x

abbrev pub artifact : String → String → Artifact
artifact id job_id = record {
  id = id;
  job_id = job_id;
  kind = source_input;
  stage = intake;
  attempt = 1;
  schema_version = "1.0";
  content_type = "text/javascript";
  hash = "h";
  size = 3;
  storage_uri = id;
  filename = id;
  parent_artifact_ids = [];
  producer = "api";
  sensitivity_class = source_sensitive;
  retention_class = project;
  created_at = "x+";
  expires_at = none;
  deleted_at = none;
  deletion_reason = none;
}

abbrev finished : Job
finished = job "a" completed 1 none "x+"

abbrev pub stored : Db (List String)
stored = record {
  jobs = finished ∷ [];
  artifacts = artifact "f1" "a" ∷ artifact "f2" "b" ∷ [];
  files = "f1" ∷ "f2" ∷ [];
}

soft_delete_job_complete_example :
    DeleteOutcome "a" stored (soft_delete_job memory by_size "a" "old" "xx+" stored)
unfolding find
soft_delete_job_complete_example =
    soft_delete_job_complete memory by_size "a" "xx+" "old" stored finished (tt, tt) refl refl
