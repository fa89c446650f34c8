-- ===== src/Worker/Pipeline/Frames.antt =====
-- The stages of a pipeline before and after its review loop, and the record of that loop.
use ai_jsunpack.Prelude.{String, Option, none, some, List, [], ◌∷◌, refl}
use ai_jsunpack.Store.Jobs.{Job}
use ai_jsunpack.Store.Artifacts.{Artifact}
use ai_jsunpack.Worker.Pipeline.Types.{
  PipelineContext, Fault, CoreResult, BuildValidationResult, AgentRuntimeResult,
}
use ai_jsunpack.Worker.Pipeline.Config.{IntOfText, ReviewFixPolicy}
use ai_jsunpack.Worker.Pipeline.Host.{Host, modify, throw}
use ai_jsunpack.Worker.Pipeline.Stages.{
  write_source_index, run_agents_on, run_core_and_agent, note_build_repairs,
  run_reconstruction_and_build, deliver, finalize_packaging, set_evidence,
}
use ai_jsunpack.Worker.Pipeline.Run.{require_policy, require_results, write_summaries}
use ai_jsunpack.Worker.Pipeline.Triples.{
  Post, SameReview, Keeps, >>=-Keeps, >>-Keeps, with_context-Keeps, return-Keeps, call-Keeps,
  transition-Keeps, raise_if_cancelled-Keeps,
}
use ai_jsunpack.Worker.Pipeline.Attempts.{parents-Keeps}

module _ {W : Type 0} (host : Host W) where
  -- An assignment to another part of the context.
  pub assign-Keeps :
      (f : PipelineContext → PipelineContext)
      → ((c : PipelineContext) → SameReview c (f c))
      → Keeps {W = W} (modify f)
  unfolding modify Post
  assign-Keeps f h r = h r.context

  throw-Keeps : (A : Type 0) (e : Fault) → Keeps {W = W} {A = A} (throw e)
  unfolding Post
  throw-Keeps A e r = tt

  write_source_index-Keeps :
      (payload : Option String) (inventory ast : Artifact)
      → Keeps (write_source_index host payload inventory ast)
  unfolding write_source_index
  write_source_index-Keeps none inventory ast = return-Keeps none
  write_source_index-Keeps (some p) inventory ast =
      >>=-Keeps _ _ (call-Keeps _) λ a. return-Keeps (some a)

  run_agents_on-Keeps :
      (core : CoreResult) (job : Option Job) (inventory ast : Artifact) (source : Option Artifact)
      → Keeps (run_agents_on host core job inventory ast source)
  unfolding run_agents_on set_evidence
  run_agents_on-Keeps core none inventory ast source = throw-Keeps _ _
  run_agents_on-Keeps core (some job) inventory ast source =
      >>-Keeps _ _
        (assign-Keeps _ λ c. record { same_attempts = refl; same_max = refl; same_stop = refl })
        (>>=-Keeps _ _ (call-Keeps _) λ result.
          >>-Keeps _ _
            (assign-Keeps _ λ c. record { same_attempts = refl; same_max = refl; same_stop = refl })
            (>>-Keeps _ _ (transition-Keeps _ _) (
              >>-Keeps _ _ (transition-Keeps _ _) (
                >>-Keeps _ _ (raise_if_cancelled-Keeps host) (
                  assign-Keeps _
                    λ c. record { same_attempts = refl; same_max = refl; same_stop = refl })))))

  pub run_core_and_agent-Keeps : Keeps (run_core_and_agent host)
  unfolding run_core_and_agent
  run_core_and_agent-Keeps = >>-Keeps _ _ (raise_if_cancelled-Keeps host) (
      >>-Keeps _ _ (call-Keeps _) (
        >>-Keeps _ _ (transition-Keeps _ _) (
          >>=-Keeps _ _ (call-Keeps _) λ result. >>-Keeps _ _ (raise_if_cancelled-Keeps host) (
            >>=-Keeps _ _ (call-Keeps _) λ inventory. >>-Keeps _ _ (call-Keeps _) (
              >>-Keeps _ _ (transition-Keeps _ _) (
                >>=-Keeps _ _ (call-Keeps _) λ ast.
                  >>=-Keeps _ _ (write_source_index-Keeps _ _ _) λ source.
                    >>-Keeps _ _ (raise_if_cancelled-Keeps host)
                      (>>=-Keeps _ _ (call-Keeps _) λ job. run_agents_on-Keeps _ _ _ _ _)))))))

  note_build_repairs-Keeps : (xs : List Artifact) → Keeps (note_build_repairs host xs)
  unfolding note_build_repairs
  note_build_repairs-Keeps [] = return-Keeps tt
  note_build_repairs-Keeps (x ∷ xs) = transition-Keeps _ _

  pub run_reconstruction_and_build-Keeps : Keeps (run_reconstruction_and_build host)
  unfolding run_reconstruction_and_build
  run_reconstruction_and_build-Keeps = with_context-Keeps _ λ c.
      >>=-Keeps _ _ (call-Keeps _) λ reconstruction. >>-Keeps _ _ (transition-Keeps _ _) (
        >>-Keeps _ _ (raise_if_cancelled-Keeps host) (
          >>=-Keeps _ _ (call-Keeps _) λ validation.
            >>-Keeps _ _
              (assign-Keeps _
                λ c. record { same_attempts = refl; same_max = refl; same_stop = refl })
              (>>-Keeps _ _ (transition-Keeps _ _) (
                >>-Keeps _ _ (transition-Keeps _ _) (
                  >>-Keeps _ _ (note_build_repairs-Keeps _) (
                    >>-Keeps _ _ (raise_if_cancelled-Keeps host) (
                      >>=-Keeps _ _ (call-Keeps _) λ latest. assign-Keeps _ λ c. record {
                        same_attempts = refl;
                        same_max = refl;
                        same_stop = refl;
                      })))))))

  deliver-Keeps : (result : _) (primary : Option Artifact) → Keeps (deliver host result primary)
  unfolding deliver
  deliver-Keeps result none = return-Keeps tt
  deliver-Keeps result (some a) = call-Keeps _

  pub finalize_packaging-Keeps : Keeps (finalize_packaging host)
  unfolding finalize_packaging
  finalize_packaging-Keeps = with_context-Keeps _ λ c. >>=-Keeps _ _ (call-Keeps _) λ result.
      >>-Keeps _ _ (transition-Keeps _ _)
        (>>-Keeps _ _ (deliver-Keeps result _) (>>-Keeps _ _ (call-Keeps _) (transition-Keeps _ _)))

  require_policy-Keeps : (p : Option ReviewFixPolicy) → Keeps (require_policy host p)
  unfolding require_policy
  require_policy-Keeps none = throw-Keeps _ _
  require_policy-Keeps (some p) = return-Keeps p

  require_results-Keeps :
      (b : Option BuildValidationResult) (a : Option AgentRuntimeResult)
      → Keeps (require_results host b a)
  unfolding require_results
  require_results-Keeps none a = throw-Keeps _ _
  require_results-Keeps (some b) none = throw-Keeps _ _
  require_results-Keeps (some b) (some a) = return-Keeps _

  pub write_summaries-Keeps : (int : IntOfText) → Keeps (write_summaries host int)
  unfolding write_summaries
  write_summaries-Keeps int = >>=-Keeps _ _ (with_context-Keeps _ λ c. call-Keeps _) λ retried.
      >>-Keeps _ _ (parents-Keeps host _) (
        >>=-Keeps _ _
          (with_context-Keeps _ λ c. require_results-Keeps c.build_validation_result c.agent_result)
          λ results. >>=-Keeps _ _ (with_context-Keeps _ λ c. require_policy-Keeps _) λ policy.
            >>=-Keeps _ _ (with_context-Keeps _ λ c. call-Keeps _)
              λ converged. >>-Keeps _ _ (parents-Keeps host _) (raise_if_cancelled-Keeps host))
