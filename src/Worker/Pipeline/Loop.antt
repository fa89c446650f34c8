-- ===== src/Worker/Pipeline/Loop.antt =====
-- The review loop of apps/worker/worker/pipeline.py and what its steps record.
use ai_jsunpack.Prelude.{
  ℕ, zero, suc, ◌+◌, ◌≤◌, ◌<◌, String, Bool, true, false, ◌&&◌, Option, none, some, List, [], ◌∷◌,
  ◌++◌, ◌≡◌, refl, ◌∙◌, inl, inr, ap, Bool-cases, leb, arith, length, length-append, All,
  All-append,
}
use ai_jsunpack.Store.Artifacts.{Artifact}
use ai_jsunpack.Worker.Pipeline.Types.{
  PipelineContext, RuntimeAttempt, RuntimeCompareResult, RuntimeCompareReviewGateResult,
  RuntimeCompareRepairResult, StopReason, unknown_stop, review_gate_passed_or_disabled,
  retry_budget_exhausted, repair_not_applied,
}
use ai_jsunpack.Worker.Pipeline.Host.{Host, Run, Step, modify, ◌>>=◌, ◌>>◌}
use ai_jsunpack.Worker.Pipeline.Stages.{id_of}
use ai_jsunpack.Worker.Pipeline.Review.{
  attempt_of, note_repair, run_runtime_compare_attempt, run_repair, after_repair, after_attempt,
  review_loop,
}
use ai_jsunpack.Worker.Pipeline.Triples.{Post, Post-continue}
use ai_jsunpack.Worker.Pipeline.Attempts.{
  Adds, run_runtime_compare_attempt-Adds, repaired_by, note_repair-append, Repairs,
  run_repair-Repairs,
}

-- The comparison of an attempt was reviewed, and the review asks for a repair.
abbrev pub asks_repair : RuntimeAttempt → Bool
asks_repair a = a.review_gate_enabled && a.review_gate_triggered

-- An attempt whose review asked for a repair, which was applied.
pub record IsRepaired (a : RuntimeAttempt) : Type 0 where
  pub asked : asks_repair a ≡ true
  pub project : String
  pub applied : a.applied_project_artifact_id ≡ some project

-- Why the loop may stop at attempt number `n` of at most `m`.
abbrev pub StopsAt : StopReason → ℕ → ℕ → RuntimeAttempt → Type 0
StopsAt unknown_stop m n a = ⊥
StopsAt review_gate_passed_or_disabled m n a = asks_repair a ≡ false
StopsAt retry_budget_exhausted m n a = (asks_repair a ≡ true) × (n + 1 ≡ m)
StopsAt repair_not_applied m n a =
    (asks_repair a ≡ true) × (n + 1 < m) × (a.applied_project_artifact_id ≡ none)

-- The loop has run at least once and at most `m` times; each attempt but the last was repaired,
-- and the last is one to stop at.
pub record HasConverged (m : ℕ) (c : PipelineContext) : Type 0 where
  pub earlier : List RuntimeAttempt
  pub final : RuntimeAttempt
  pub recorded : c.runtime_compare_attempts ≡ earlier ++ final ∷ []
  pub repaired : All IsRepaired earlier
  pub in_budget : length earlier < m
  pub stops : StopsAt c.runtime_compare_stop_reason m (length earlier) final

-- Before attempt number `n`: each attempt so far was repaired, and the budget is not used up.
pub record IsReady (m n : ℕ) (c : PipelineContext) : Type 0 where
  pub budget : c.runtime_compare_max_attempts ≡ m
  pub in_budget : n < m
  pub used : length c.runtime_compare_attempts ≡ n
  pub repaired : All IsRepaired c.runtime_compare_attempts

module _ {W : Type 0} (host : Host W) where
  module _ (m n : ℕ) (c : PipelineContext) (gate : RuntimeCompareReviewGateResult)
      (again : Step W (Unit {0})) (ready : IsReady m n c)
      (goes_on : (s : Run W)
        → IsReady m (n + 1) s.context
        → Post (λ _ d. HasConverged m d) (again s)) where
    after_repair-HasConverged :
        (compared : RuntimeCompareResult) (result : RuntimeCompareRepairResult)
        (o : Option Artifact)
        → result.applied_project_artifact ≡ o
        → (gate.enabled && gate.triggered) ≡ true
        → n + 1 < m
        → (s : Run W)
        → s.context.runtime_compare_attempts
          ≡ c.runtime_compare_attempts ++ repaired_by result (attempt_of n compared gate) ∷ []
        → s.context.runtime_compare_max_attempts ≡ m
        → Post (λ _ d. HasConverged m d) (after_repair host again o s)
    unfolding after_repair modify Post attempt_of ◌>>◌ ◌>>=◌
    after_repair-HasConverged compared result none e asked more s recorded budget = record {
      earlier = c.runtime_compare_attempts;
      final = repaired_by result (attempt_of n compared gate);
      recorded = recorded;
      repaired = ready.repaired;
      in_budget = rw ready.used ready.in_budget;
      stops = (asked, rw ready.used more, ap id_of e);
    }
    after_repair-HasConverged compared result (some p) e asked more s recorded budget =
        goes_on _ (record {
          budget = budget;
          in_budget = more;
          used =
              ap length recorded ∙ length-append c.runtime_compare_attempts _ ∙ rw ready.used refl;
          repaired = rw recorded (
              All-append IsRepaired c.runtime_compare_attempts _ ready.repaired
                ((record { asked = asked; project = p.id; applied = ap id_of e }), tt));
        })

    after_attempt-HasConverged :
        (s : Run W)
        → Adds n c gate s.context
        → Post (λ _ d. HasConverged m d) (after_attempt host again n gate s)
    unfolding after_attempt modify Post ◌>>=◌
    after_attempt-HasConverged s adds = elim (Bool-cases (gate.enabled && gate.triggered)) [
      | inr e ↦ rw e (record {
        earlier = c.runtime_compare_attempts;
        final = attempt_of n adds.compared gate;
        recorded = adds.added;
        repaired = ready.repaired;
        in_budget = rw ready.used ready.in_budget;
        stops = unfold attempt_of in e;
      })
      | inl e ↦ elim (Bool-cases (leb s.context.runtime_compare_max_attempts (n + 1))) [
        | inl full ↦ rw e (
            rw full (record {
              earlier = c.runtime_compare_attempts;
              final = attempt_of n adds.compared gate;
              recorded = adds.added;
              repaired = ready.repaired;
              in_budget = rw ready.used ready.in_budget;
              stops = (
                unfold attempt_of in e,
                ground (arith, full, adds.same_max, ready.budget, ready.used, ready.in_budget),
              );
            }))
        | inr more ↦ rw e (
            rw more (
              Post-continue (Repairs s.context) (λ _ d. HasConverged m d) _
                (run_repair host n gate s) (run_repair-Repairs host n gate s)
                λ result t repairs.
                  after_repair-HasConverged adds.compared result result.applied_project_artifact
                    refl e (ground (arith, more, adds.same_max, ready.budget)) t
                    (repairs.noted
                      ∙ ap (note_repair result) adds.added
                      ∙ note_repair-append result c.runtime_compare_attempts _)
                    (repairs.same_max ∙ adds.same_max ∙ ready.budget)))
      ]
    ]

  -- The review loop, entered before attempt `n` of at most `m` with fuel for those that are left,
  -- does not run out of fuel, and where it raises nothing it has recorded at most `m` attempts: each
  -- but the last asked for a repair, which was applied, and the last did not ask for one, or had no
  -- attempt left, or its repair was not applied, as the stop reason says.
  pub review_loop-HasConverged :
      (m fuel n : ℕ) (r : Run W)
      → IsReady m n r.context
      → m ≤ fuel + n
      → Post (λ _ c. HasConverged m c) (review_loop host fuel n r)
  unfolding review_loop ◌>>=◌
  review_loop-HasConverged m zero n r ready enough = absurd (omega (arith, ready.in_budget, enough))
  review_loop-HasConverged m (suc fuel) n r ready enough =
      Post-continue (Adds n r.context) (λ _ c. HasConverged m c) _
        (run_runtime_compare_attempt host n r) (run_runtime_compare_attempt-Adds host n r)
        λ gate s adds.
          after_attempt-HasConverged m n r.context gate (review_loop host fuel (n + 1)) ready
            (λ t next. review_loop-HasConverged m fuel (n + 1) t next (omega (arith, enough))) s
            adds
