-- ===== src/Crew/Specs.antt =====
-- `CrewAgentSpec` of apps/worker/worker/agent_contracts.py, and the specifications that
-- `CrewRuntimePlanner.build_specs` of apps/worker/worker/agent_runtime.py lists.
use ai_jsunpack.Prelude.{String, Bool, true, false, List, [], ◌∷◌}

pub record CrewAgentSpec : Type 0 where
  pub name : String
  pub stage : String
  pub responsibility : String
  pub role : String
  pub goal : String
  pub backstory : String
  pub output_kind : String
  pub allow_parallel : Bool
  pub dependencies : List String

abbrev pub specialist_agent_names : List String
specialist_agent_names =
    "NamingAgent" ∷ "TypeAgent" ∷ "FrameworkAgent" ∷ "DeadCodeAgent" ∷ "RuntimeAgent" ∷ []

abbrev pub planner_agent : CrewAgentSpec
planner_agent = record {
  name = "PlannerAgent";
  stage = "planner";
  responsibility = "规划 Agent 图、阶段顺序和证据重点。";
  role = "Planner Agent";
  goal = "根据已审计的 Artifact 规划安全的 JavaScript 重建分析流程。";
  backstory = "你为 Artifact 驱动的逆向分析创建 schema-first plan。";
  output_kind = "agent_plan";
  allow_parallel = false;
  dependencies = [];
}

abbrev analysis_agent : CrewAgentSpec
analysis_agent = record {
  name = "AnalysisAgent";
  stage = "analysis";
  responsibility = "生成整体语义与模块级分析。";
  role = "Analysis Agent";
  goal = "识别整体语义结构、可能的模块拆分边界和不确定性。";
  backstory = "你只能依据提供的证据引用和确定性摘要进行推理。";
  output_kind = "inference_record";
  allow_parallel = false;
  dependencies = "PlannerAgent" ∷ [];
}

abbrev naming_agent : CrewAgentSpec
naming_agent = record {
  name = "NamingAgent";
  stage = "specialists";
  responsibility = "仅提出面向命名的推断。";
  role = "Naming Agent";
  goal = "评估符号命名质量，并保留逆向命名中的不确定性。";
  backstory = "你只生成命名范围内的证据，绝不直接重写源码。";
  output_kind = "inference_record";
  allow_parallel = true;
  dependencies = "AnalysisAgent" ∷ [];
}

abbrev type_agent : CrewAgentSpec
type_agent = record {
  name = "TypeAgent";
  stage = "specialists";
  responsibility = "仅提出类型边界推断。";
  role = "Type Agent";
  goal = "评估 TypeScript 边界线索和类型推断机会。";
  backstory = "你只生成面向类型的证据，并保留保守默认值。";
  output_kind = "inference_record";
  allow_parallel = true;
  dependencies = "AnalysisAgent" ∷ [];
}

abbrev framework_agent : CrewAgentSpec
framework_agent = record {
  name = "FrameworkAgent";
  stage = "specialists";
  responsibility = "仅评估框架和运行时框架信号。";
  role = "Framework Agent";
  goal = "根据证据对框架线索以及组件和运行时模式进行分类。";
  backstory = "你只能依据确定性证据推理框架线索。";
  output_kind = "inference_record";
  allow_parallel = true;
  dependencies = "AnalysisAgent" ∷ [];
}

abbrev dead_code_agent : CrewAgentSpec
dead_code_agent = record {
  name = "DeadCodeAgent";
  stage = "specialists";
  responsibility = "仅评估死代码与保留决策。";
  role = "Dead Code Agent";
  goal = "识别保守的死代码假设，并保留回滚选项。";
  backstory = "你只输出死代码范围内的假设，并明确标注不确定性。";
  output_kind = "inference_record";
  allow_parallel = true;
  dependencies = "AnalysisAgent" ∷ [];
}

abbrev runtime_agent : CrewAgentSpec
runtime_agent = record {
  name = "RuntimeAgent";
  stage = "specialists";
  responsibility = "仅评估运行时和浏览器行为诊断。";
  role = "Runtime Agent";
  goal = "根据证据总结运行时和浏览器执行风险与诊断。";
  backstory = "你要保留不确定性，并让运行时决策经过确定性门禁。";
  output_kind = "runtime_diagnosis";
  allow_parallel = true;
  dependencies = "AnalysisAgent" ∷ [];
}

abbrev repair_agent : CrewAgentSpec
repair_agent = record {
  name = "RepairAgent";
  stage = "synthesis";
  responsibility = "仅输出结构化修复草案。";
  role = "Repair Agent";
  goal = "仅提出结构化且满足确定性安全要求的修复指令。";
  backstory = "你绝不直接修改源码，只输出受约束的修复动作。";
  output_kind = "repair_instruction";
  allow_parallel = true;
  dependencies = specialist_agent_names;
}

abbrev report_agent : CrewAgentSpec
report_agent = record {
  name = "ReportAgent";
  stage = "synthesis";
  responsibility = "输出面向用户的执行摘要与可审计报告章节。";
  role = "Report Agent";
  goal = "将跨 Agent 发现总结为用于打包和审计的报告章节，并且必须提供 anchor=executive-summary 的用户结果摘要。";
  backstory = "你生成结构化报告章节并保留审计可追溯性；执行摘要描述本次反混淆做了什么、取得了什么效果、有哪些风险与限制，绝不使用某个 Agent 的完成状态代替结果总结。";
  output_kind = "report_section";
  allow_parallel = true;
  dependencies = specialist_agent_names;
}

abbrev review_agent : CrewAgentSpec
review_agent = record {
  name = "ReviewAgent";
  stage = "review";
  responsibility = "仅审查冲突、共识和最终运行时结论。";
  role = "Review Agent";
  goal = "审查跨 Agent 发现、检测冲突、给出最终结论，并且只明确列出已获准进行确定性应用的现有低风险修复指令 ID。";
  backstory = "你要拒绝缺乏依据的结论，绝不编造修复指令 ID，并在审计记录中保留不确定性。";
  output_kind = "review_run";
  allow_parallel = false;
  dependencies = "RepairAgent" ∷ "ReportAgent" ∷ [];
}

unfoldable pub build_specs : List CrewAgentSpec
build_specs =
    planner_agent ∷ analysis_agent ∷ naming_agent ∷ type_agent ∷ framework_agent ∷ dead_code_agent
    ∷ runtime_agent ∷ repair_agent ∷ report_agent ∷ review_agent ∷ []
