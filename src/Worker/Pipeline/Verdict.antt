-- ===== src/Worker/Pipeline/Verdict.antt =====
-- The outcome that apps/worker/worker/pipeline.py reports of its review loop.
use ai_jsunpack.Prelude.{
  ℕ, String, Bool, not, ◌&&◌, ◌||◌, ◌==◌, ltb, Option, some, List, [], ◌∷◌, ◌++◌, ◌≡◌, refl, arith,
  length,
}
use ai_jsunpack.Worker.Pipeline.Types.{
  PipelineContext, RuntimeAttempt, StopReason, unknown_stop, review_gate_passed_or_disabled,
  retry_budget_exhausted, repair_not_applied,
}
use ai_jsunpack.Worker.Pipeline.Summary.{
  last, BuildSummary, RuntimeSummary, is_passed, is_pass, is_budget_exhausted,
  is_repair_not_applied, review_fix_final_outcome, runtime_summary_of, final_review_status_of,
}
use ai_jsunpack.Worker.Pipeline.Loop.{HasConverged, StopsAt}

last_append : {A : Type 0} (xs : List A) (x : A) → last (xs ++ x ∷ []) ≡ some x
last_append [] x = refl
last_append (y ∷ []) x = refl
last_append (y ∷ z ∷ zs) x = last_append (z ∷ zs) x

-- The comparison was reviewed and the review asks for nothing.
abbrev pub passes_review : RuntimeAttempt → Bool
passes_review a = a.review_gate_enabled && not a.review_gate_triggered

is_pass-final_review_status_of :
    (earlier : List RuntimeAttempt) (a : RuntimeAttempt)
    → is_pass (final_review_status_of (earlier ++ a ∷ [])) ≡ passes_review a
unfolding final_review_status_of is_pass
is_pass-final_review_status_of earlier a =
    rw (last_append earlier a, is_pass, final_review_status_of) (ground arith)

-- The three ways in which an attempt that passed its review makes the outcome a success.
abbrev pub explains_pass : BuildSummary → RuntimeSummary → Bool
explains_pass b r =
    ltb 0 r.applied_repair_count
    || (b.all_passed
        && (ltb 0 b.applied_repair_count
            || ((b.repair_instruction_count == 0) && (r.planned_repair_count == 0))))

outcome_by_stop :
    (reason : StopReason) (m n : ℕ) (a : RuntimeAttempt) (b : BuildSummary) (r : RuntimeSummary)
    → StopsAt reason m n a
    → r.budget_exhausted ≡ is_budget_exhausted reason
    → r.stopped_reason ≡ reason
    → is_pass r.final_review_status ≡ passes_review a
    → is_passed (review_fix_final_outcome b r) ≡ (passes_review a && explains_pass b r)
unfolding review_fix_final_outcome is_passed is_pass is_budget_exhausted is_repair_not_applied
outcome_by_stop review_gate_passed_or_disabled m n a b r stops h k l =
    ground (arith, h, k, l, stops)
outcome_by_stop retry_budget_exhausted m n a b r stops h k l = ground (arith, h, k, l, stops.0)
outcome_by_stop repair_not_applied m n a b r stops h k l = ground (arith, h, k, l, stops.0)
outcome_by_stop unknown_stop m n a b r stops h k l = absurd stops

-- After a review loop that has converged, the outcome is reported as a success exactly if the last
-- comparison was reviewed and asked for no repair, and a repair at run time was applied, or the
-- build and the type check passed with a repair applied or with no repair planned at all.
pub review_fix_final_outcome-is_passed :
    (m : ℕ) (c : PipelineContext) (h : HasConverged m c) (b : BuildSummary) (max_attempts : ℕ)
    (project : Option String) (retry_summary_artifact_id : String)
    → let r =
        runtime_summary_of max_attempts c.runtime_compare_attempts c.runtime_compare_stop_reason
          project retry_summary_artifact_id in
      is_passed (review_fix_final_outcome b r) ≡ (passes_review h.final && explains_pass b r)
unfolding runtime_summary_of
review_fix_final_outcome-is_passed m c h b max_attempts project id =
    outcome_by_stop c.runtime_compare_stop_reason m (length h.earlier) h.final b _ h.stops refl refl
      (rw h.recorded (is_pass-final_review_status_of h.earlier h.final))
