-- ===== src/Store/Deletion/Complete.antt =====
-- What `soft_delete_job` guarantees, whether it succeeds or an artifact cannot be removed.
use ai_jsunpack.Prelude.{
  String, ◌≡◌, ◌≢◌, ◌⊎◌, refl, sym, ◌∙◌, true, false, ◌&&◌, some, List, [], ◌∷◌, ◌++◌, arith, inl,
  inr, str_eq, All, Bool-cases, ◌==◌,
}
use ai_jsunpack.Prelude.Sort.{All-of_order_by}
use ai_jsunpack.Prelude.Table.{
  find, update, rowcount, IsKeyed, find-update_self, find_key, rowcount-find,
}
use ai_jsunpack.Prelude.Table.Rows.{All-of_filter}
use ai_jsunpack.Prelude.Table.Moves.{Descends, Descends-update, Descends-trans, All-find}
use ai_jsunpack.Store.Jobs.{Job, job_key, is_live, Result, ok, err, normalize_cleanup_reason}
use ai_jsunpack.Store.Leases.{Collation}
use ai_jsunpack.Store.Artifacts.{
  Artifact, Artifacts, artifact_key, is_kept, set_deleted, Attempt, done, raised, ArtifactStore, Db,
}
use ai_jsunpack.Store.Retention.{list_artifacts, artifact_before}
use ai_jsunpack.Store.Deletion.{
  Removal, delete_if_exists, note_removal, remove_artifact, remove_all, finish_delete,
  soft_delete_job, set_job_deleted,
}

-- A row changes only by being deleted, and stays in its job.
pub record Fades (old new : Artifact) : Type 0 where
  pub same_job : new.job_id ≡ old.job_id
  pub same_uri : new.storage_uri ≡ old.storage_uri
  pub stays_deleted : is_kept old ≡ false → new ≡ old

Fades-refl : (a : Artifact) → Fades a a
Fades-refl a = record { same_job = refl; same_uri = refl; stays_deleted = λ _. refl }

Fades-trans : (a b c : Artifact) → Fades a b → Fades b c → Fades a c
Fades-trans a b c h k = record {
  same_job = k.same_job ∙ h.same_job;
  same_uri = k.same_uri ∙ h.same_uri;
  stays_deleted = λ gone. let e = h.stays_deleted gone in k.stays_deleted (rw e gone) ∙ e;
}

-- The artifact of an id, if there is one, is deleted.
abbrev pub IsGone : String → Artifacts → Type 0
IsGone k artifacts = (x : Artifact) → find artifact_key k artifacts ≡ some x → is_kept x ≡ false

append_ne_nil : (x : String) (xs : List String) → xs ++ x ∷ [] ≢ []
append_ne_nil x [] h = cc
append_ne_nil x (y ∷ ys) h = cc

module _ {Files : Type 0} (store : ArtifactStore Files) (now reason : String) where
  set_deleted-Fades : (r : Artifact) → is_kept r ≡ true → Fades r (set_deleted now reason r)
  unfolding set_deleted
  set_deleted-Fades r kept = record {
    same_job = refl;
    same_uri = refl;
    stays_deleted = λ gone. absurd (cc (kept, gone));
  }

  -- The two ways that one artifact's removal can go.
  abbrev Removed : Artifact → Removal Files → Removal Files → Type 0
  Removed a s r =
      ((r.artifacts ≡ s.artifacts) × (r.errors ≢ []))
      ⊎ ((r.artifacts ≡ update artifact_key a.id is_kept (set_deleted now reason) s.artifacts)
          × (r.errors ≡ s.errors))

  note_removal-cases :
      (a : Artifact) (r : Attempt (Unit {0}) × Files) (s : Removal Files)
      → Removed a s (note_removal store now reason a r s)
  unfolding note_removal
  note_removal-cases a (raised e, files) s = inl (refl, append_ne_nil _ s.errors)
  note_removal-cases a (done _, files) s = inr (refl, refl)

  remove_artifact-cases :
      (a : Artifact) (s : Removal Files) → Removed a s (remove_artifact store now reason a s)
  remove_artifact-cases a s =
      unfold remove_artifact in
      note_removal-cases a (delete_if_exists store a.storage_uri s.files) s

  remove_artifact-Descends :
      (a : Artifact) (s : Removal Files)
      → Descends artifact_key Fades s.artifacts (remove_artifact store now reason a s).artifacts
  remove_artifact-Descends a s = elim (remove_artifact-cases a s) [
    | inl failed ↦ rw failed.0 (λ j x e. (x, e, Fades-refl x))
    | inr removed ↦ rw removed.0 (
        Descends-update artifact_key Fades Fades-refl a.id is_kept (set_deleted now reason)
          s.artifacts (unfold set_deleted in λ r. refl) (λ r _ kept. set_deleted-Fades r kept))
  ]

  remove_all-Descends :
      (rows : List Artifact) (s : Removal Files)
      → Descends artifact_key Fades s.artifacts (remove_all store now reason rows s).artifacts
  unfolding remove_all
  remove_all-Descends [] s = λ j x e. (x, e, Fades-refl x)
  remove_all-Descends (a ∷ rest) s =
      Descends-trans artifact_key Fades Fades-trans s.artifacts _ _ (remove_artifact-Descends a s)
        (remove_all-Descends rest (remove_artifact store now reason a s))

  -- An error that was met is not forgotten.
  errors_stay :
      (rows : List Artifact) (s : Removal Files)
      → (remove_all store now reason rows s).errors ≡ []
      → s.errors ≡ []
  unfolding remove_all
  errors_stay [] s h = h
  errors_stay (a ∷ rest) s h =
      let e = errors_stay rest (remove_artifact store now reason a s) h in
      elim (remove_artifact-cases a s) [
        | inl failed ↦ absurd (failed.1 e)
        | inr removed ↦ sym removed.1 ∙ e
      ]

  -- Where nothing failed, each artifact that was to be removed is deleted.
  remove_artifact-IsGone :
      (a : Artifact) (s : Removal Files)
      → (remove_artifact store now reason a s).errors ≡ []
      → IsGone a.id (remove_artifact store now reason a s).artifacts
  remove_artifact-IsGone a s e x found = elim (remove_artifact-cases a s) [
    | inl failed ↦ absurd (failed.1 e)
    | inr removed ↦
        let found' = rw removed.0 at found in
        unfold set_deleted in
        ground (
          arith,
          found',
          find-update_self artifact_key a.id is_kept (set_deleted now reason) s.artifacts
              (λ r. refl),
        )
  ]

  IsGone-stays :
      (k : String) (xs ys : Artifacts)
      → Descends artifact_key Fades xs ys
      → IsGone k xs
      → IsGone k ys
  IsGone-stays k xs ys d gone y found =
      let (x, found_x, fades) = d k y found in
      let dead = gone x found_x in rw (fades.stays_deleted dead) dead

  remove_all-IsGone :
      (rows : List Artifact) (s : Removal Files)
      → (remove_all store now reason rows s).errors ≡ []
      → All (λ a. IsGone a.id (remove_all store now reason rows s).artifacts) rows
  unfolding remove_all
  remove_all-IsGone [] s h = tt
  remove_all-IsGone (a ∷ rest) s h =
      let s' = remove_artifact store now reason a s in
      (
        IsGone-stays a.id s'.artifacts (remove_all store now reason rest s').artifacts
            (remove_all-Descends rest s') (remove_artifact-IsGone a s (errors_stay rest s' h)),
        remove_all-IsGone rest s' h,
      )

-- No artifact of the job is kept.
abbrev pub HasNoFiles : String → Artifacts → Type 0
HasNoFiles job_id artifacts =
    (k : String) (x : Artifact)
    → find artifact_key k artifacts ≡ some x
    → str_eq x.job_id job_id ≡ true
    → is_kept x ≡ false

-- What `soft_delete_job` may answer: the job is deleted with all its artifacts, or the call fails
-- and no job has changed.
abbrev pub DeleteOutcome : {Files : Type 0} → String → Db Files → Result Job × Db Files → Type 0
DeleteOutcome job_id db (ok row, db') =
    (find job_key job_id db'.jobs ≡ some row)
    × (is_live row ≡ false)
    × HasNoFiles job_id db'.artifacts
DeleteOutcome job_id db (err e, db') = db'.jobs ≡ db.jobs

module _ {Files : Type 0} (store : ArtifactStore Files) (le : Collation)
    (job_id now reason : String) where
  listed_gone :
      (final artifacts : Artifacts)
      → Descends artifact_key Fades artifacts final
      → All (λ a. IsGone a.id final) (list_artifacts le job_id artifacts)
      → HasNoFiles job_id final
  unfolding list_artifacts
  listed_gone final artifacts d gone k x found in_job =
      let (x0, found0, fades) = d k x found in
      let all =
        All-of_filter (λ a. IsGone a.id final) (λ a. str_eq a.job_id job_id && is_kept a) artifacts
          (All-of_order_by (artifact_before le) (λ a. IsGone a.id final) _ gone) in
      let here = All-find artifact_key _ artifacts k x0 all found0 in
      elim (Bool-cases (is_kept x0)) [
        | inl kept ↦
            here (ground (arith, fades.same_job, in_job, kept)) x
              (rw (find_key artifact_key k artifacts x0 found0) at found)
        | inr dead ↦ rw (fades.stays_deleted dead) dead
      ]

  finish_delete-DeleteOutcome :
      (errors : List String) (artifacts : Artifacts) (files : Files) (db : Db Files) (j : Job)
      → find job_key job_id db.jobs ≡ some j
      → is_live j ≡ true
      → (errors ≡ [] → HasNoFiles job_id artifacts)
      → DeleteOutcome job_id db (finish_delete store errors job_id now artifacts files db.jobs)
  unfolding finish_delete
  finish_delete-DeleteOutcome (m ∷ more) artifacts files db j found live empty = refl
  finish_delete-DeleteOutcome [] artifacts files db j found live empty =
      rw stored (stored, refl, empty refl)
    where
      stored :
          find job_key job_id (update job_key job_id is_live (set_job_deleted now) db.jobs)
          ≡ some (set_job_deleted now j)
      stored = ground (
        arith,
        found,
        live,
        find-update_self job_key job_id is_live (set_job_deleted now) db.jobs (λ r. refl),
      )

  -- `soft_delete_job` of a job that is there and not deleted either deletes it, and then every
  -- artifact of the job is deleted too, or raises and leaves the jobs as they were.
  pub soft_delete_job_complete :
      (db : Db Files) (j : Job)
      → IsKeyed job_key db.jobs
      → find job_key job_id db.jobs ≡ some j
      → is_live j ≡ true
      → DeleteOutcome job_id db (soft_delete_job store le job_id reason now db)
  unfolding soft_delete_job
  soft_delete_job_complete db j keyed found live =
      let start : Removal Files = record {
        errors = [];
        artifacts = db.artifacts;
        files = db.files;
      } in
      let rows = list_artifacts le job_id db.artifacts in
      let why = normalize_cleanup_reason reason in
      let final = remove_all store now why rows start in
      let busy : (rowcount job_key job_id is_live db.jobs == 0) ≡ false =
        ground (arith, found, live, rowcount-find job_key job_id is_live db.jobs keyed) in
      rw busy (
        finish_delete-DeleteOutcome final.errors final.artifacts final.files db j found live λ e.
          listed_gone final.artifacts db.artifacts (remove_all-Descends store now why rows start)
            (remove_all-IsGone store now why rows start e))
