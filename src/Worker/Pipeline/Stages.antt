-- ===== src/Worker/Pipeline/Stages.antt =====
-- The stages of `WorkerPipeline` in apps/worker/worker/pipeline.py before and after the review loop.
use ai_jsunpack.Prelude.{
  String, Option, none, some, List, [], ◌∷◌, ◌++◌, map, if◌then◌else◌, str_eq, text_append,
}
use ai_jsunpack.Store.Types.{
  JobStatus, queued, planning, parsing, analyzing, runtime_smoke, runtime_compare, reviewing,
  failed, leased, intake, indexing, agent_planning, agent_pass, reconstructing, building,
  typechecking, repairing, packaging, cancelled, completed, completed_best_effort, status_eq,
}
use ai_jsunpack.Store.Jobs.{Job}
use ai_jsunpack.Store.Artifacts.{Artifact, input_inventory, ast_index, source_index}
use ai_jsunpack.Worker.Pipeline.Types.{
  PipelineContext, pipeline_cancelled, agent_runtime_error, CoreResult, AgentRuntimeResult,
  PackagingResult,
}
use ai_jsunpack.Worker.Pipeline.Config.{unique_ids}
use ai_jsunpack.Worker.Pipeline.Host.{
  Host, core_payload, Step, call, modify, throw, return, with_context, ◌>>=◌, ◌>>◌,
}

abbrev pub add_event : JobStatus → String → PipelineContext → PipelineContext
add_event status message c = record c {
  events = c.events ++ record { status = status; message = message } ∷ [];
}

-- `run.transition(status, message)`
unfoldable pub transition : {W : Type 0} → JobStatus → String → Step W (Unit {0})
unfolding modify
transition status message = modify (add_event status message)

-- `job.failure_reason or "任务已取消。"`
unfoldable pub cancel_message : Option String → String
cancel_message none = "任务已取消。"
cancel_message (some s) = if str_eq s "" then "任务已取消。" else s

unfoldable pub check_cancelled : {W : Type 0} → Option Job → Step W (Unit {0})
unfolding cancel_message
check_cancelled none = return tt
check_cancelled (some job) =
    if status_eq job.status cancelled
    then throw (pipeline_cancelled (cancel_message job.failure_reason))
    else return tt

abbrev pub ids : List Artifact → List String
ids = map (λ a. a.id)

abbrev pub id_of : Option Artifact → Option String
id_of none = none
id_of (some a) = some a.id

abbrev pub listed : Option Artifact → List String
listed none = []
listed (some a) = a.id ∷ []

-- `_message_for`: a status that has no message stands for itself.
unfoldable pub message_for : JobStatus → String
message_for queued = "queued"
message_for leased = "已获取 Worker 租约。"
message_for intake = "input inventory 和敏感度分类已准备完成。"
message_for planning = "已根据产品和运行时约束准备任务计划。"
message_for parsing = "已安排 HTML、JS、CSS、source map 和 manifest 解析。"
message_for indexing = "已安排 AST、符号、源码范围和资源索引。"
message_for analyzing = "已安排运行时和 bundle 模式分析。"
message_for agent_planning = "CrewAI 规划上下文和证据已准备完成。"
message_for agent_pass = "已安排语义推断流程。"
message_for reconstructing = "已安排 deterministic writer。"
message_for building = "已安排沙箱构建。"
message_for typechecking = "已安排 TypeScript 检查。"
message_for runtime_smoke = "已安排 Playwright 运行时冒烟测试。"
message_for runtime_compare = "已安排原始版本与重建版本的运行时对比。"
message_for reviewing = "已安排 Review Agent。"
message_for repairing = "repairing"
message_for packaging = "已安排结果包和审计报告。"
message_for completed = "流水线已完成。"
message_for completed_best_effort = "流水线已完成，但存在尽力而为限制。"
message_for failed = "failed"
message_for cancelled = "cancelled"

module _ {W : Type 0} (host : Host W) where
  unfoldable pub raise_if_cancelled : Step W (Unit {0})
  unfolding call check_cancelled
  raise_if_cancelled = do job ← call host.get_job; check_cancelled job

  -- The index of the sources is written where the core has one.
  unfoldable pub write_source_index : Option String → Artifact → Artifact → Step W (Option Artifact)
  unfolding call
  write_source_index none inventory ast = return none
  write_source_index (some payload) inventory ast = do
    a ← call (
        host.write_artifact source_index indexing "source-index.json" (core_payload payload)
          (inventory.id ∷ ast.id ∷ []))
    return (some a)

  -- What the agents' stage adds to the context.
  unfoldable pub set_evidence :
      Artifact → Artifact → Option Artifact → AgentRuntimeResult → PipelineContext → PipelineContext
  set_evidence inventory ast source result c = record c {
    agent_result = some result;
    evidence_parent_ids =
        inventory.id ∷ ast.id ∷ listed source
        ++ (result.plan_artifact.id ∷ ids result.memory_artifacts
            ++ (result.knowledge_artifact.id
                  ∷ result.tool_registry_artifact.id
                  ∷ ids result.agent_execution_artifacts
                ++ (ids result.inference_artifacts
                    ++ (ids result.runtime_diagnosis_artifacts
                        ++ (ids result.report_section_artifacts
                            ++ (ids result.repair_instruction_artifacts
                                ++ (result.review_artifact.id ∷ result.tool_call_artifact.id
                                    ∷ [])))))));
  }

  unfoldable pub run_agents_on :
      CoreResult → Option Job → Artifact → Artifact → Option Artifact → Step W (Unit {0})
  unfolding call modify transition raise_if_cancelled set_evidence
  run_agents_on core none inventory ast source =
      throw (agent_runtime_error (text_append "设置 Agent runtime 时未找到 Job：" host.job_id))
  run_agents_on core (some job) inventory ast source = do
    modify (λ c. record c { job = some job })
    result ← call (
        host.run_agents (record {
          job_id = host.job_id;
          project_id = job.project_id;
          cloud_mode = job.cloud_mode;
          job_config = job.config;
          inventory_artifact_id = inventory.id;
          ast_index_artifact_id = ast.id;
          inventory_payload = core.inventory_artifact_payload;
          ast_index_payload = core.ast_index_artifact_payload;
          source_index_artifact_id = id_of source;
          source_index_payload = core.source_index_artifact_payload;
        }))
    modify (λ c. record c { agent_result = some result })
    transition agent_planning "CrewAI 规划上下文和证据已持久化。"
    transition agent_pass result.message
    raise_if_cancelled
    modify (set_evidence inventory ast source result)

  -- `_run_core_and_agent`
  unfoldable pub run_core_and_agent : Step W (Unit {0})
  unfolding call transition raise_if_cancelled write_source_index run_agents_on
  run_core_and_agent = do
    raise_if_cancelled
    call (host.update_status intake none none)
    transition intake "Core input inventory 生成已开始。"
    result ← call host.analyze_input_package
    raise_if_cancelled
    inventory ← call (
        host.write_artifact input_inventory intake "input-inventory.json"
          (core_payload result.inventory_artifact_payload) [])
    call (host.update_status indexing none none)
    transition indexing "Core AST 索引生成已完成。"
    ast ← call (
        host.write_artifact ast_index indexing "ast-index.json"
          (core_payload result.ast_index_artifact_payload) (inventory.id ∷ []))
    source ← write_source_index result.source_index_artifact_payload inventory ast
    raise_if_cancelled
    job ← call host.get_job
    run_agents_on result job inventory ast source

  -- `if context.build_validation_result.repair_artifacts:`
  unfoldable pub note_build_repairs : List Artifact → Step W (Unit {0})
  unfolding transition
  note_build_repairs [] = return tt
  note_build_repairs (_ ∷ _) = transition repairing "构建和类型检查审查已生成用于验证重试的修复证据。"

  -- `_run_reconstruction_and_build`
  unfoldable pub run_reconstruction_and_build : Step W (Unit {0})
  unfolding call modify transition raise_if_cancelled note_build_repairs unique_ids
  run_reconstruction_and_build = with_context λ c. do
    reconstruction ← call (host.reconstruct c.evidence_parent_ids)
    transition reconstructing reconstruction.message
    raise_if_cancelled
    let parents = c.evidence_parent_ids ++ reconstruction.artifact_ids
    validation ← call (host.validate_build parents)
    modify (λ c. record c { build_validation_result = some validation })
    transition building validation.build.message
    transition typechecking validation.typecheck.message
    note_build_repairs validation.repair_artifacts
    raise_if_cancelled
    latest ← call host.latest_project
    modify λ c. record c {
      current_project_artifact = elim latest [
        | none ↦ some reconstruction.generated_project_artifact
        | some a ↦ some a
      ];
      packaging_parent_ids = unique_ids (parents ++ validation.artifact_ids);
    }

  -- `if packaging_result.primary_result_artifact is not None:`
  unfoldable pub deliver : PackagingResult → Option Artifact → Step W (Unit {0})
  unfolding call
  deliver result none = return tt
  deliver result (some primary) =
      call
        (host.update_job_delivery result.delivery_kind primary.id result.result_summary_artifact.id)

  -- `_finalize_packaging`
  unfoldable pub finalize_packaging : Step W (Unit {0})
  unfolding call transition deliver message_for
  finalize_packaging = with_context λ c. do
    result ← call (host.run_packaging c.packaging_parent_ids)
    transition packaging result.message
    deliver result result.primary_result_artifact
    call (host.update_status result.final_status result.failure_reason (some result.failure_class))
    transition result.final_status (message_for result.final_status)
