-- ===== src/Worker/Pipeline/Ends.antt =====
-- How a whole run of the pipeline ends.
use ai_jsunpack.Prelude.{
  ℕ, ◌≤◌, String, Option, none, some, List, [], ◌∷◌, ◌++◌, ◌≡◌, refl, ◌∙◌, ap, ◌⊎◌, inl, inr, arith,
  length,
}
use ai_jsunpack.Json.{ℤ, pos, negsuc, Fields}
use ai_jsunpack.Store.Types.{JobStatus, cancelled, failed, FailureClass}
use ai_jsunpack.Worker.Pipeline.Types.{
  PipelineContext, PipelineEvent, Fault, pipeline_cancelled, core_bridge_error, agent_runtime_error,
  reconstruction_error, build_validation_error, packaging_error, other_error, Act, Answer, returns,
  raises, unknown_stop,
}
use ai_jsunpack.Worker.Pipeline.Config.{IntOfText, clamp, runtime_compare_max_attempts}
use ai_jsunpack.Worker.Pipeline.Summary.{last}
use ai_jsunpack.Worker.Pipeline.Host.{
  Host, Run, Outcome, value, fault, out_of_fuel, call, modify, answered, continue, ◌>>=◌, ◌>>◌,
}
use ai_jsunpack.Worker.Pipeline.Stages.{
  transition, run_core_and_agent, run_reconstruction_and_build, finalize_packaging,
}
use ai_jsunpack.Worker.Pipeline.Review.{config_of, review_loop}
use ai_jsunpack.Worker.Pipeline.Run.{
  write_summaries, run_runtime_review_fix, run_stages, fail_job, handle, handled, run_core_analysis,
}
use ai_jsunpack.Worker.Pipeline.Triples.{Post, Post-continue, Post-imp, SameReview}
use ai_jsunpack.Worker.Pipeline.Loop.{HasConverged, review_loop-HasConverged}
use ai_jsunpack.Worker.Pipeline.Frames.{
  run_core_and_agent-Keeps, run_reconstruction_and_build-Keeps, finalize_packaging-Keeps,
  write_summaries-Keeps,
}

-- The context that `_run_core_analysis` starts from.
abbrev pub new_context : PipelineContext
new_context = record {
  events = [];
  job = none;
  agent_result = none;
  build_validation_result = none;
  evidence_parent_ids = [];
  packaging_parent_ids = [];
  runtime_compare_attempts = [];
  runtime_compare_stop_reason = unknown_stop;
  runtime_compare_max_attempts = 2;
  current_project_artifact = none;
}

clamp_bounds : (z : ℤ) → (1 ≤ clamp 1 5 z) × (clamp 1 5 z ≤ 5)
unfolding clamp
clamp_bounds (pos n) = (omega arith, omega arith)
clamp_bounds (negsuc n) = (omega arith, omega arith)

-- The budget of the runtime comparison is between one attempt and five, whatever the configuration.
pub runtime_compare_max_attempts_bounds :
    (int : IntOfText) (config : Option Fields)
    → (1 ≤ runtime_compare_max_attempts int config) × (runtime_compare_max_attempts int config ≤ 5)
unfolding runtime_compare_max_attempts
runtime_compare_max_attempts_bounds int none = (omega arith, omega arith)
runtime_compare_max_attempts_bounds int (some config) = clamp_bounds _

HasConverged-stable :
    (m : ℕ) (old new : PipelineContext)
    → SameReview old new
    → HasConverged m old
    → HasConverged m new
HasConverged-stable m old new same h = record {
  earlier = h.earlier;
  final = h.final;
  recorded = same.same_attempts ∙ h.recorded;
  repaired = h.repaired;
  in_budget = h.in_budget;
  stops = rw same.same_stop h.stops;
}

-- The review loop has converged within a budget of at most five attempts.
abbrev pub Reviewed : PipelineContext → Type 0
Reviewed c = (m : ℕ) × (m ≤ 5) × HasConverged m c

-- The record of the review loop is empty, as it is before the loop.
abbrev Unreviewed : PipelineContext → Type 0
Unreviewed c = c.runtime_compare_attempts ≡ []

module _ {W : Type 0} (host : Host W) (int : IntOfText) where
  run_runtime_review_fix-Reviewed :
      (r : Run W)
      → Unreviewed r.context
      → Post (λ _ c. Reviewed c) (run_runtime_review_fix host int 5 r)
  unfolding run_runtime_review_fix modify ◌>>◌ ◌>>=◌
  run_runtime_review_fix-Reviewed r fresh =
      let m = runtime_compare_max_attempts int (config_of r.context.job) in
      let bounds = runtime_compare_max_attempts_bounds int (config_of r.context.job) in
      let s : Run W = record r {
        context = record r.context { runtime_compare_max_attempts = m };
      } in
      Post-continue (λ _ c. HasConverged m c) (λ _ c. Reviewed c) _ (review_loop host 5 0 s)
        (review_loop-HasConverged host m 5 0 s
          (record {
            budget = refl;
            in_budget = bounds.0;
            used = ap length fresh;
            repaired = rw fresh tt;
          })
          (omega (arith, bounds.1)))
        λ _ t done.
          Post-imp (λ _ c. SameReview t.context c) (λ _ c. Reviewed c) (write_summaries host int t)
            (write_summaries-Keeps host int t)
            λ _ c same. (m, bounds.1, HasConverged-stable m t.context c same done)

  run_stages-Reviewed :
      (r : Run W) → Unreviewed r.context → Post (λ _ c. Reviewed c) (run_stages host int 5 r)
  unfolding run_stages ◌>>◌ ◌>>=◌
  run_stages-Reviewed r fresh =
      Post-continue (λ _ c. SameReview r.context c) (λ _ c. Reviewed c) _
        (run_core_and_agent host r) (run_core_and_agent-Keeps host r)
        λ _ s first.
          Post-continue (λ _ c. SameReview s.context c) (λ _ c. Reviewed c) _
            (run_reconstruction_and_build host s) (run_reconstruction_and_build-Keeps host s)
            λ _ t second.
              Post-continue (λ _ c. Reviewed c) (λ _ c. Reviewed c) _
                (run_runtime_review_fix host int 5 t)
                (run_runtime_review_fix-Reviewed t
                  (second.same_attempts ∙ first.same_attempts ∙ fresh))
                λ _ u reviewed.
                  let (m, small, done) = reviewed in
                  Post-imp (λ _ c. SameReview u.context c) (λ _ c. Reviewed c)
                    (finalize_packaging host u) (finalize_packaging-Keeps host u)
                    λ _ c same. (m, small, HasConverged-stable m u.context c same done)

-- The last event of a run that was not completed.
abbrev pub IsBroken : PipelineContext → Type 0
IsBroken c =
    (e : PipelineEvent) × (last c.events ≡ some e) × ((e.status ≡ cancelled) ⊎ (e.status ≡ failed))

-- What is left of a run when `_run_core_analysis` is done.
abbrev pub RunEnds : {W : Type 0} → Outcome (Unit {0}) × Run W → Type 0
RunEnds (value _, r) = IsBroken r.context ⊎ Reviewed r.context
RunEnds (fault e, r) = (message : String) × (e ≡ other_error message)
RunEnds (out_of_fuel, r) = ⊥

-- A call that raises none of the exceptions that the pipeline names.
abbrev pub RaisesOther : {W A : Type 0} → Act W A → Type 0
RaisesOther act =
    (w : _) (f : Fault) → (act w).0 ≡ raises f → (message : String) × (f ≡ other_error message)

last_append : {A : Type 0} (xs : List A) (x : A) → last (xs ++ x ∷ []) ≡ some x
last_append [] x = refl
last_append (y ∷ []) x = refl
last_append (y ∷ z ∷ zs) x = last_append (z ∷ zs) x

module _ {W : Type 0} (host : Host W)
    (plain : (s : JobStatus) (why : Option String) (class : Option FailureClass)
      → RaisesOther (host.update_status s why class)) where
  fail_answered :
      (c : PipelineContext) (message : String) (x : Answer (Unit {0}) × W)
      → ((f : Fault) → x.0 ≡ raises f → (text : String) × (f ≡ other_error text))
      → RunEnds (continue (λ _. transition failed message) (answered c x))
  unfolding transition modify
  fail_answered c message (returns u, w) h = inl (_, last_append c.events _, inr refl)
  fail_answered c message (raises f, w) h = h f refl

  fail_job-RunEnds :
      (class : FailureClass) (message : String) (r : Run W)
      → RunEnds (fail_job host class message r)
  unfolding fail_job call ◌>>◌ ◌>>=◌
  fail_job-RunEnds class message r =
      fail_answered r.context message
        (host.update_status failed (some message) (some class) r.world)
        (plain failed (some message) (some class) r.world)

  handle-RunEnds : (e : Fault) (r : Run W) → RunEnds (handle host e r)
  unfolding handle transition modify
  handle-RunEnds (pipeline_cancelled m) r = inl (_, last_append r.context.events _, inl refl)
  handle-RunEnds (core_bridge_error m) r = fail_job-RunEnds _ m r
  handle-RunEnds (agent_runtime_error m) r = fail_job-RunEnds _ m r
  handle-RunEnds (reconstruction_error m) r = fail_job-RunEnds _ m r
  handle-RunEnds (build_validation_error m) r = fail_job-RunEnds _ m r
  handle-RunEnds (packaging_error m) r = fail_job-RunEnds _ m r
  handle-RunEnds (other_error m) r = (m, refl)

  handled-RunEnds :
      (x : Outcome (Unit {0}) × Run W) → Post (λ _ c. Reviewed c) x → RunEnds (handled host x)
  unfolding handled Post
  handled-RunEnds (value u, r) h = inr h
  handled-RunEnds (fault e, r) h = handle-RunEnds e r
  handled-RunEnds (out_of_fuel, r) h = absurd h

  -- With fuel for five attempts, a run of the pipeline always ends, whatever its runners answer:
  -- it is reviewed within a budget of at most five attempts, each but the last of them repaired;
  -- or its last event says that it was cancelled or that it failed; or an exception escapes that
  -- the pipeline does not name. `update_status` is taken to raise no exception that it names.
  pub run_core_analysis-RunEnds :
      (int : IntOfText) (w : W)
      → RunEnds (run_core_analysis host int 5 (record { context = new_context; world = w }))
  unfolding run_core_analysis transition modify ◌>>◌ ◌>>=◌
  run_core_analysis-RunEnds int w =
      handled-RunEnds (run_stages host int 5 _) (run_stages-Reviewed host int _ refl)
