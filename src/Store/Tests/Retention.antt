-- ===== src/Store/Tests/Retention.antt =====
-- A sweep of the artifacts of one job.
use ai_jsunpack.Prelude.{refl, some, [], ◌∷◌, false}
use ai_jsunpack.Prelude.Table.{find}
use ai_jsunpack.Store.Jobs.{normalize_cleanup_reason}
use ai_jsunpack.Store.Artifacts.{artifact_key}
use ai_jsunpack.Store.Datetime.{parse_timestamp}
use ai_jsunpack.Store.Artifacts.{source}
use ai_jsunpack.Store.Retention.{RetentionCleanupRequest, cleanup_retention}
use ai_jsunpack.Store.Retention.Spares.{Spared, MayDelete, cleanup_retention-Spared}
use ai_jsunpack.Store.Tests.{strokes, by_size}
use ai_jsunpack.Store.Tests.Deletion.{memory, stored}

-- Delete the sources of a job, at the second tick.
abbrev sources : RetentionCleanupRequest
sources = record {
  categories = source ∷ [];
  retention_classes = [];
  delete_expired = false;
  dry_run = false;
  now = some "xx+";
  reason = "old";
}

cleanup_retention-Spared_example :
    Spared
      (MayDelete strokes "a" sources 2)
      "xx+"
      (normalize_cleanup_reason "old")
      (find artifact_key "f1" stored.artifacts)
      (find artifact_key "f1"
        (cleanup_retention strokes by_size memory "a" sources "+" stored).1.artifacts)
unfolding parse_timestamp
cleanup_retention-Spared_example =
    cleanup_retention-Spared strokes by_size memory "a" sources "+" 2 stored "f1"
      ((refl, tt), (tt, tt)) refl
