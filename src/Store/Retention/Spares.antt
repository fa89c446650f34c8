-- ===== src/Store/Retention/Spares.antt =====
-- What a retention sweep may do to an artifact, and what it leaves alone.
use ai_jsunpack.Prelude.{
  ℕ, String, ◌≡◌, ◌⊎◌, inl, inr, refl, sym, ◌∙◌, Bool, true, false, ◌&&◌, Option, some, List, [],
  ◌∷◌, arith, eq_iff, str_eq, Bool-cases, Option-cases, All, filter,
}
use ai_jsunpack.Prelude.Sort.{All-order_by}
use ai_jsunpack.Prelude.Table.{find, update, IsKeyed, find-update_self, find-update_ne}
use ai_jsunpack.Prelude.Table.Rows.{AreRows-self}
use ai_jsunpack.Store.Datetime.{Datetime, parse_timestamp}
use ai_jsunpack.Store.Jobs.{normalize_cleanup_reason, get_job}
use ai_jsunpack.Store.Leases.{Collation}
use ai_jsunpack.Store.Artifacts.{
  Artifact, Artifacts, artifact_key, is_kept, set_deleted, Attempt, done, raised, ArtifactStore, Db,
}
use ai_jsunpack.Store.Retention.{
  RetentionCleanupRequest, cleanup_matches, candidates_of, Sweep, note_deletion, delete_candidate,
  sweep, requested_time, artifact_before, list_artifacts, cleanup_candidates, cleanup_retention,
}

All-filter_test :
    {A : Type 0} (P : A → Type 0) (p : A → Bool) (xs : List A)
    → All P xs
    → All (λ x. (p x ≡ true) × P x) (filter p xs)
All-filter_test P p [] h = tt
All-filter_test P p (x ∷ xs) h = elim (Bool-cases (p x)) [
  | inl e ↦ rw e ((e, h.0), All-filter_test P p xs h.1)
  | inr e ↦ rw e (All-filter_test P p xs h.1)
]

-- A row is as it was, or it is one that `P` allows and has been deleted now.
abbrev pub Spared :
    (Artifact → Type 0) → String → String → Option Artifact → Option Artifact → Type 0
Spared P now reason old new =
    (new ≡ old) ⊎ ((a : Artifact) × (old ≡ some a) × P a × (new ≡ some (set_deleted now reason a)))

All-map :
    {A : Type 0} {P Q : A → Type 0} (xs : List A) → ((a : A) → P a → Q a) → All P xs → All Q xs
All-map [] f h = tt
All-map (x ∷ xs) f h = (f x h.0, All-map xs f h.1)

module _ {Files : Type 0} (store : ArtifactStore Files) (now reason : String)
    (P : Artifact → Type 0) (old : Artifacts) where
  -- The rows that the sweep goes over: those of the table as it was that `P` allows.
  abbrev Listed : Artifact → Type 0
  Listed a = P a × (find artifact_key a.id old ≡ some a)

  deleted-Spared :
      (k : String) (a : Artifact) (artifacts : Artifacts)
      → Listed a
      → Spared P now reason (find artifact_key k old) (find artifact_key k artifacts)
      → Spared P now reason (find artifact_key k old) (
          find artifact_key k
            (update artifact_key a.id (λ _. true) (set_deleted now reason) artifacts))
  deleted-Spared k a artifacts listed h = elim (Bool-cases (str_eq a.id k)) [
    | inr ne ↦
        rw
          (find-update_ne artifact_key a.id k (λ _. true) (set_deleted now reason) artifacts
            (unfold set_deleted in λ r. refl) ne)
          h
    | inl e ↦
        let same : k ≡ a.id = sym ((eq_iff a.id k).0 e) in
        let h' = rw same at h in
        rw same (
          rw
            (find-update_self artifact_key a.id (λ _. true) (set_deleted now reason) artifacts
              (unfold set_deleted in λ r. refl))
            (elim h' [
              | inl kept ↦ inr (a, listed.1, listed.0, rw (kept ∙ listed.1) refl)
              | inr (b, found, allowed, gone) ↦
                  inr (b, found, allowed, rw gone (unfold set_deleted in refl))
            ]))
  ]

  note_deletion-Spared :
      (k : String) (a : Artifact) (r : Attempt (Unit {0}) × Files) (s : Sweep Files)
      → Listed a
      → Spared P now reason (find artifact_key k old) (find artifact_key k s.artifacts)
      → Spared P now reason
          (find artifact_key k old)
          (find artifact_key k (note_deletion store now reason a r s).artifacts)
  unfolding note_deletion
  note_deletion-Spared k a (done _, files) s listed h = deleted-Spared k a s.artifacts listed h
  note_deletion-Spared k a (raised m, files) s listed h = h

  sweep-Spared :
      (k : String) (rows : List Artifact) (s : Sweep Files)
      → All Listed rows
      → Spared P now reason (find artifact_key k old) (find artifact_key k s.artifacts)
      → Spared P now reason
          (find artifact_key k old)
          (find artifact_key k (sweep store now reason false rows s).artifacts)
  unfolding sweep
  sweep-Spared k [] s all h = h
  sweep-Spared k (a ∷ rest) s all h =
      sweep-Spared k rest (delete_candidate store now reason a s) all.1 (
        unfold delete_candidate in
        note_deletion-Spared k a (store.delete a.storage_uri s.files) s all.0 h)

  dry_sweep :
      (rows : List Artifact) (s : Sweep Files)
      → (sweep store now reason true rows s).artifacts ≡ s.artifacts
  unfolding sweep
  dry_sweep [] s = refl
  dry_sweep (a ∷ rest) s = dry_sweep rest _

-- A dry run deletes nothing.
sweep_if-Spared :
    {Files : Type 0} (store : ArtifactStore Files) (now reason : String) (P : Artifact → Type 0)
    (old : Artifacts) (dry_run : Bool) (k : String) (rows : List Artifact) (s : Sweep Files)
    → (dry_run ≡ false → All (λ a. P a × (find artifact_key a.id old ≡ some a)) rows)
    → Spared P now reason (find artifact_key k old) (find artifact_key k s.artifacts)
    → Spared P now reason
        (find artifact_key k old)
        (find artifact_key k (sweep store now reason dry_run rows s).artifacts)
sweep_if-Spared store now reason P old true k rows s all h =
    rw (dry_sweep store now reason P old rows s) h
sweep_if-Spared store now reason P old false k rows s all h =
    sweep-Spared store now reason P old k rows s (all refl) h

-- The candidates are active artifacts that match.
candidates_of-All :
    (d : Datetime) (request : RetentionCleanupRequest) (t : ℕ) (P : Artifact → Type 0)
    (active candidates : List Artifact)
    → All P active
    → candidates_of d request t active ≡ some candidates
    → All (λ a. (cleanup_matches d request t a ≡ some true) × P a) candidates
unfolding candidates_of
candidates_of-All d request t P [] candidates all h =
    let same : candidates ≡ [] = cc h in rw same tt
candidates_of-All d request t P (a ∷ rest) candidates all h =
    elim (Option-cases (cleanup_matches d request t a)) [
      | inl e ↦ cc (rw (e, candidates_of) at h)
      | inr (false, e) ↦
          candidates_of-All d request t P rest candidates all.1 (rw (e, candidates_of) at h)
      | inr (true, e) ↦ elim (Option-cases (candidates_of d request t rest)) [
        | inl f ↦ cc (rw f at (rw (e, candidates_of) at h))
        | inr (more, f) ↦
            let h' = rw f at (rw (e, candidates_of) at h) in
            let same : candidates ≡ a ∷ more = cc h' in
            rw same ((e, all.0), candidates_of-All d request t P rest more all.1 f)
      ]
    ]

-- An active artifact of the job that matches the request at the time `t`, which is no dry run.
pub record MayDelete (d : Datetime) (job_id : String) (request : RetentionCleanupRequest) (t : ℕ)
    (a : Artifact) : Type 0 where
  pub in_job : str_eq a.job_id job_id ≡ true
  pub active : is_kept a ≡ true
  pub matches : cleanup_matches d request t a ≡ some true
  pub wet : request.dry_run ≡ false

module _ {Files : Type 0} (d : Datetime) (le : Collation) (store : ArtifactStore Files) where
  cleanup_candidates-Spared :
      (job_id : String) (request : RetentionCleanupRequest) (now : String) (t : ℕ)
      (active candidates : List Artifact) (db : Db Files) (k : String)
      → All
          (λ a.
            (cleanup_matches d request t a ≡ some true)
            × (((str_eq a.job_id job_id && is_kept a) ≡ true)
                × (find artifact_key a.id db.artifacts ≡ some a)))
          candidates
      → Spared
          (MayDelete d job_id request t)
          now
          (normalize_cleanup_reason request.reason)
          (find artifact_key k db.artifacts)
          (find artifact_key k
            (cleanup_candidates d le store job_id request now active candidates db).1.artifacts)
  unfolding cleanup_candidates
  cleanup_candidates-Spared job_id request now t active candidates db k all =
      let reason = normalize_cleanup_reason request.reason in
      let start : Sweep Files = record {
        items = [];
        errors = [];
        deleted_count = 0;
        artifacts = db.artifacts;
        files = db.files;
      } in
      sweep_if-Spared store now reason (MayDelete d job_id request t) db.artifacts request.dry_run k
        candidates start
        (λ wet.
          All-map candidates
            (λ a listed.
              let here = listed.1.0 in
              (
                record {
                  in_job = ground (arith, here);
                  active = ground (arith, here);
                  matches = listed.0;
                  wet = wet;
                },
                listed.1.1,
              ))
            all)
        (inl refl)

  -- `cleanup_retention` leaves each row of the artifacts as it was, or marks it deleted, and then it
  -- was an active artifact of the job that matches the request, which was no dry run.
  pub cleanup_retention-Spared :
      (job_id : String) (request : RetentionCleanupRequest) (clock : String) (t : ℕ) (db : Db Files)
      (k : String)
      → IsKeyed artifact_key db.artifacts
      → parse_timestamp d (requested_time request.now clock) ≡ some t
      → Spared
          (MayDelete d job_id request t)
          (requested_time request.now clock)
          (normalize_cleanup_reason request.reason)
          (find artifact_key k db.artifacts)
          (find artifact_key k (cleanup_retention d le store job_id request clock db).1.artifacts)
  unfolding cleanup_retention list_artifacts
  cleanup_retention-Spared job_id request clock t db k keyed at =
      elim (Option-cases (get_job job_id false db.jobs)) [
        | inl e ↦ rw (e, cleanup_retention) (inl refl)
        | inr (j, e) ↦
            elim (Option-cases
              (candidates_of d request t (list_artifacts le job_id db.artifacts))) [
                | inl f ↦ rw (e, cleanup_retention) (rw at (rw f (inl refl)))
                | inr (candidates, f) ↦
                    rw (e, cleanup_retention)
                      (rw at (
                        rw f (
                          cleanup_candidates-Spared job_id request
                            (requested_time request.now clock) t
                            (list_artifacts le job_id db.artifacts) candidates db k
                            (candidates_of-All d request t _ (list_artifacts le job_id db.artifacts)
                              candidates
                              (All-order_by (artifact_before le) _ _ (
                                All-filter_test _ (λ a. str_eq a.job_id job_id && is_kept a)
                                  db.artifacts (AreRows-self artifact_key db.artifacts keyed)))
                              f))))
              ]
      ]
