-- ===== src/Worker/Pipeline/Host.antt =====
-- The store and the runners, as the pipeline calls them, and the steps of a pipeline over them.
use ai_jsunpack.Prelude.{ℕ, String, Option, List}
use ai_jsunpack.Json.{Json, Fields}
use ai_jsunpack.Store.Types.{JobStatus, FailureClass}
use ai_jsunpack.Store.Jobs.{Job}
use ai_jsunpack.Store.Artifacts.{Artifact, ArtifactKind}
use ai_jsunpack.Worker.Pipeline.Types.{
  Act, Answer, returns, raises, Fault, PipelineContext, CoreResult, AgentRuntimeRequest,
  AgentRuntimeResult, ReconstructionResult, BuildValidationResult, RuntimeSmokeResult,
  RuntimeCompareResult, RuntimeCompareReviewGateResult, RuntimeCompareRepairResult, PackagingResult,
}
use ai_jsunpack.Worker.Pipeline.Summary.{RetrySummary, ConvergenceSummary}

-- The content of an artifact that the pipeline writes.
pub data Payload : Type 0 where
  core_payload : String → Payload
  retry_payload : RetrySummary → Payload
  convergence_payload : ConvergenceSummary → Payload

-- What the pipeline calls: the store of its job, behind the lease proxy, and the runners that its
-- constructor takes. `W` is everything that they change.
pub record Host (W : Type 0) : Type 0 where
  pub job_id : String
  pub update_status : JobStatus → Option String → Option FailureClass → Act W (Unit {0})
  pub get_job : Act W (Option Job)
  pub write_artifact : ArtifactKind → JobStatus → String → Payload → List String → Act W Artifact
  pub latest_project : Act W (Option Artifact)
  pub update_job_delivery : String → String → String → Act W (Unit {0})
  pub analyze_input_package : Act W CoreResult
  pub run_agents : AgentRuntimeRequest → Act W AgentRuntimeResult
  pub reconstruct : List String → Act W ReconstructionResult
  pub validate_build : List String → Act W BuildValidationResult
  pub smoke : Option Artifact → List String → ℕ → Act W RuntimeSmokeResult
  pub compare : Option Artifact → Option Json → List String → ℕ → Act W RuntimeCompareResult
  pub review_gate :
      List Artifact → Option Fields → List String → ℕ → Act W RuntimeCompareReviewGateResult
  pub repair :
      Option Artifact
      → Option Artifact
      → Option Fields
      → List String
      → ℕ
      → Act W RuntimeCompareRepairResult
  pub run_packaging : List String → Act W PackagingResult

-- The state of a run: the context, and the world behind the host.
pub record Run (W : Type 0) : Type 0 where
  pub context : PipelineContext
  pub world : W

-- How a step ends. A loop that is cut off ends `out_of_fuel`.
pub data Outcome (A : Type 0) : Type 0 where
  value : A → Outcome A
  fault : Fault → Outcome A
  out_of_fuel : Outcome A

abbrev pub Step : Type 0 → Type 0 → Type 0
Step W A = Run W → Outcome A × Run W

-- A statement after one that ended so: an exception leaves the rest undone.
abbrev pub continue : {W A B : Type 0} → (A → Step W B) → Outcome A × Run W → Outcome B × Run W
continue f (value a, r) = f a r
continue f (fault e, r) = (fault e, r)
continue f (out_of_fuel, r) = (out_of_fuel, r)

infixl 5 ◌>>=◌ ◌>>◌
unfoldable pub ◌>>=◌ : {W A B : Type 0} → Step W A → (A → Step W B) → Step W B
◌>>=◌ m f r = continue f (m r)

unfoldable pub ◌>>◌ : {W B : Type 0} → Step W (Unit {0}) → Step W B → Step W B
unfolding ◌>>=◌
m >> k = m >>= λ _. k

abbrev pub answered : {W A : Type 0} → PipelineContext → Answer A × W → Outcome A × Run W
answered c (returns a, w) = (value a, record { context = c; world = w })
answered c (raises e, w) = (fault e, record { context = c; world = w })

-- A call of the host.
unfoldable pub call : {W A : Type 0} → Act W A → Step W A
call act r = answered r.context (act r.world)

abbrev pub return : {W A : Type 0} → A → Step W A
return a r = (value a, r)

abbrev pub throw : {W A : Type 0} → Fault → Step W A
throw e r = (fault e, r)

-- Assignments to the context.
unfoldable pub modify : {W : Type 0} → (PipelineContext → PipelineContext) → Step W (Unit {0})
modify f r = (value tt, record r { context = f r.context })

-- Reading the context.
abbrev pub with_context : {W A : Type 0} → (PipelineContext → Step W A) → Step W A
with_context f r = f r.context r
