-- ===== src/Worker/Pipeline/Attempts.antt =====
-- What one attempt of the review loop of apps/worker/worker/pipeline.py, and its repair, record.
use ai_jsunpack.Prelude.{
  ℕ, String, Bool, true, false, some, List, [], ◌∷◌, ◌++◌, ◌≡◌, refl, ◌∙◌, ap,
}
use ai_jsunpack.Worker.Pipeline.Types.{
  PipelineContext, RuntimeAttempt, RuntimeCompareResult, RuntimeCompareReviewGateResult,
  RuntimeCompareRepairResult,
}
use ai_jsunpack.Worker.Pipeline.Host.{Host, Run, modify, ◌>>=◌, ◌>>◌}
use ai_jsunpack.Worker.Pipeline.Stages.{raise_if_cancelled, id_of}
use ai_jsunpack.Worker.Pipeline.Review.{
  add_parents, attempt_of, note_repair, note_planned_repair, note_review_if, note_review,
  record_attempt, run_runtime_compare_attempt, record_repair, run_repair,
}
use ai_jsunpack.Worker.Pipeline.Triples.{
  Post, Post-continue, SameReview, Keeps, Keeps-then, Keeps-next, >>-Keeps, with_context-Keeps,
  return-Keeps, call-Keeps, transition-Keeps, raise_if_cancelled-Keeps,
}

-- What one attempt adds to the context.
pub record Adds (n : ℕ) (old : PipelineContext) (gate : RuntimeCompareReviewGateResult)
    (new : PipelineContext) : Type 0 where
  pub compared : RuntimeCompareResult
  pub added :
      new.runtime_compare_attempts ≡ old.runtime_compare_attempts ++ attempt_of n compared gate ∷ []
  pub same_max : new.runtime_compare_max_attempts ≡ old.runtime_compare_max_attempts

Adds-stable :
    (n : ℕ) (old new c : PipelineContext) (gate : RuntimeCompareReviewGateResult)
    → SameReview old new
    → Adds n new gate c
    → Adds n old gate c
Adds-stable n old new c gate same adds = record {
  compared = adds.compared;
  added = adds.added ∙ ap (λ xs. xs ++ attempt_of n adds.compared gate ∷ []) same.same_attempts;
  same_max = adds.same_max ∙ same.same_max;
}

module _ {W : Type 0} (host : Host W) where
  pub parents-Keeps : (more : List String) → Keeps {W = W} (modify (add_parents more))
  unfolding modify Post
  parents-Keeps more r = record { same_attempts = refl; same_max = refl; same_stop = refl }

  note_planned_repair-Keeps : (b : Bool) → Keeps (note_planned_repair host b)
  unfolding note_planned_repair
  note_planned_repair-Keeps true = transition-Keeps _ _
  note_planned_repair-Keeps false = return-Keeps tt

  note_review_if-Keeps :
      (b : Bool) (n : ℕ) (gate : RuntimeCompareReviewGateResult)
      → Keeps (note_review_if host b n gate)
  unfolding note_review_if
  note_review_if-Keeps true n gate =
      >>-Keeps _ _ (transition-Keeps _ _) (with_context-Keeps _ λ c. note_planned_repair-Keeps _)
  note_review_if-Keeps false n gate = return-Keeps tt

  -- After the review, the attempt is recorded.
  record_attempt-Adds :
      (n : ℕ) (compared : RuntimeCompareResult) (gate : RuntimeCompareReviewGateResult) (r : Run W)
      → Post (Adds n r.context) (record_attempt host n compared gate r)
  unfolding record_attempt modify Post ◌>>◌ ◌>>=◌
  record_attempt-Adds n compared gate r =
      Post-continue (λ _ c. SameReview s.context c) (Adds n r.context) _ (raise_if_cancelled host s)
        (raise_if_cancelled-Keeps host s)
        λ _ t same. record {
          compared = compared;
          added = same.same_attempts;
          same_max = same.same_max;
        }
    where
      s : Run W
      s = record r {
        context = record r.context {
          runtime_compare_attempts =
              r.context.runtime_compare_attempts ++ attempt_of n compared gate ∷ [];
        };
      }

  pub run_runtime_compare_attempt-Adds :
      (n : ℕ) (r : Run W) → Post (Adds n r.context) (run_runtime_compare_attempt host n r)
  unfolding run_runtime_compare_attempt note_review
  run_runtime_compare_attempt-Adds n =
      Keeps-then (Adds n) (Adds-stable n) _ _ (with_context-Keeps _ λ c. call-Keeps _) λ smoke.
        Keeps-next (Adds n) (Adds-stable n) _ _ (transition-Keeps _ _) (
          Keeps-next (Adds n) (Adds-stable n) _ _ (raise_if_cancelled-Keeps host) (
            Keeps-next (Adds n) (Adds-stable n) _ _ (parents-Keeps _) (
              Keeps-then (Adds n) (Adds-stable n) _ _ (with_context-Keeps _ λ c. call-Keeps _)
                λ compared. Keeps-next (Adds n) (Adds-stable n) _ _ (transition-Keeps _ _) (
                  Keeps-next (Adds n) (Adds-stable n) _ _ (raise_if_cancelled-Keeps host) (
                    Keeps-next (Adds n) (Adds-stable n) _ _ (parents-Keeps _) (
                      Keeps-then (Adds n) (Adds-stable n) _ _
                        (with_context-Keeps _ λ c. call-Keeps _)
                        λ gate.
                          Keeps-next (Adds n) (Adds-stable n) _ _
                            (note_review_if-Keeps gate.enabled n gate)
                            (record_attempt-Adds n compared gate)))))))

-- The attempt that a repair completes.
abbrev pub repaired_by : RuntimeCompareRepairResult → RuntimeAttempt → RuntimeAttempt
repaired_by result a = record a {
  repair_artifact_id = id_of result.repair_artifact;
  applied_project_artifact_id = id_of result.applied_project_artifact;
  repair_message = some result.message;
}

pub note_repair-append :
    (result : RuntimeCompareRepairResult) (xs : List RuntimeAttempt) (a : RuntimeAttempt)
    → note_repair result (xs ++ a ∷ []) ≡ xs ++ repaired_by result a ∷ []
unfolding note_repair
note_repair-append result [] a = refl
note_repair-append result (x ∷ []) a = refl
note_repair-append result (x ∷ y ∷ ys) a = ap (λ zs. x ∷ zs) (note_repair-append result (y ∷ ys) a)

-- What a repair changes in the record of the loop.
pub record Repairs (old : PipelineContext) (result : RuntimeCompareRepairResult)
    (new : PipelineContext) : Type 0 where
  pub noted : new.runtime_compare_attempts ≡ note_repair result old.runtime_compare_attempts
  pub same_max : new.runtime_compare_max_attempts ≡ old.runtime_compare_max_attempts

Repairs-stable :
    (old new c : PipelineContext) (result : RuntimeCompareRepairResult)
    → SameReview old new
    → Repairs new result c
    → Repairs old result c
Repairs-stable old new c result same h = record {
  noted = h.noted ∙ ap (note_repair result) same.same_attempts;
  same_max = h.same_max ∙ same.same_max;
}

module _ {W : Type 0} (host : Host W) where
  record_repair-Repairs :
      (result : RuntimeCompareRepairResult) (r : Run W)
      → Post (Repairs r.context) (record_repair host result r)
  unfolding record_repair modify Post ◌>>◌ ◌>>=◌
  record_repair-Repairs result r = record { noted = refl; same_max = refl }

  pub run_repair-Repairs :
      (n : ℕ) (gate : RuntimeCompareReviewGateResult) (r : Run W)
      → Post (Repairs r.context) (run_repair host n gate r)
  unfolding run_repair
  run_repair-Repairs n gate =
      Keeps-then Repairs Repairs-stable _ _ (with_context-Keeps _ λ c. call-Keeps _) λ result.
        Keeps-next Repairs Repairs-stable _ _ (transition-Keeps _ _) (
          Keeps-next Repairs Repairs-stable _ _ (raise_if_cancelled-Keeps host)
            (record_repair-Repairs result))
