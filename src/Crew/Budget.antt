-- ===== src/Crew/Budget.antt =====
-- `_apply_context_budget` of `CrewExecutionManager`, in apps/worker/worker/agent_runtime.py. The
-- size of a prompt is what `json.dumps` makes of it in UTF-8, which is a parameter. A float that is
-- the value of `memory` or of an `excerpt` counts as not zero.
pub mod Cuts
pub mod Values
pub mod Keeps
pub mod Bounds
use Prim.Native.Nat.{◌/◌}
use package.text.Mathlib.Text.{starts_with}
use ai_jsunpack.Prelude.{
  ℕ, zero, suc, ◌+◌, String, Bool, true, false, not, ◌&&◌, ◌||◌, Option, none, some, List, [], ◌∷◌,
  ◌++◌, if◌then◌else◌, leb, str_eq, contains, given_or,
}
use ai_jsunpack.Json.{
  ℤ, pos, negsuc, Json, null, bool, num, real, text, arr, obj, Items, nil, cons, Fields, end, field,
  get, set,
}
use ai_jsunpack.Worker.Pipeline.Config.{IntOfText, to_int, clamp, get_or}
use ai_jsunpack.Crew.Specs.{CrewAgentSpec, specialist_agent_names}

-- The length of `json.dumps(value, ...).encode("utf-8")`
abbrev pub DumpedBytes : Type 0
DumpedBytes = Json → ℕ

-- `_estimate_prompt_tokens`
unfoldable pub estimate_prompt_tokens : DumpedBytes → Fields → ℕ
estimate_prompt_tokens bytes prompt = (bytes (obj prompt) + 3) / 4

-- `agents_config.get(key, default)`, if the configuration of the agents is a dict
unfoldable pub agents_setting : String → ℕ → Fields → Option Json
unfolding get get_or
agents_setting key default config = elim (get "agents" config) [
  | some (obj fields) ↦ get_or key (some (num (pos default))) fields
  | some _ ↦ some (num (pos default))
  | none ↦ some (num (pos default))
]

unfoldable pub context_budget : IntOfText → Fields → ℕ
unfolding agents_setting to_int clamp
context_budget int config = elim (to_int int (agents_setting "contextBudget" 16000 config)) [
  | none ↦ 16000
  | some z ↦ clamp 1000 1000000 z
]

-- `bool(value)`
unfoldable pub is_truthy : Json → Bool
is_truthy null = false
is_truthy (bool b) = b
is_truthy (num (pos zero)) = false
is_truthy (num _) = true
is_truthy (real _) = true
is_truthy (text s) = not (str_eq s "")
is_truthy (arr nil) = false
is_truthy (arr _) = true
is_truthy (obj end) = false
is_truthy (obj _) = true

unfoldable pub has_value : String → Fields → Bool
unfolding get is_truthy
has_value key fields = elim (get key fields) [ none ↦ false | some v ↦ is_truthy v ]

abbrev pub omitted : Json
omitted = text "[因上下文预算限制而省略]"

-- `str(hit.get("category", "")).startswith("historical_")`, for a dict
abbrev is_historical_category : Option Json → Bool
is_historical_category (some (text s)) = starts_with s "historical_"
is_historical_category _ = false

unfoldable pub is_historical : Json → Bool
unfolding get
is_historical (obj hit) = is_historical_category (get "category" hit)
is_historical _ = false

unfoldable pub retained_hits : Items → Items × ℕ
unfolding is_historical
retained_hits nil = (nil, 0)
retained_hits (cons hit rest) =
    let (kept, n) = retained_hits rest in
    if is_historical hit then (kept, suc n) else (cons hit kept, n)

-- The loop over `completedAgents`, which stops once the rest is within the budget
unfoldable pub omit_agents : (Fields → Bool) → (String → Bool) → Fields → Fields × ℕ
omit_agents within is_needed end = (end, 0)
omit_agents within is_needed (field name summary rest) = elim (is_needed name) [
  | true ↦
      let (kept, n) = omit_agents (λ more. within (field name summary more)) is_needed rest in
      (field name summary kept, n)
  | false ↦
      let (fewer, n) = omit_agents within is_needed rest in
      if within rest then (rest, 1) else (fewer, suc n)
]

-- `isinstance(value, list)` and `isinstance(value, dict)`
abbrev pub list_of : Option Json → Option Items
list_of (some (arr items)) = some items
list_of _ = none

abbrev pub fields_of : Option Json → Option Fields
fields_of (some (obj fields)) = some fields
fields_of _ = none

-- A reference whose excerpt is replaced
unfoldable pub without_excerpt : Json → Option Json
unfolding has_value set
without_excerpt (obj ref) =
    if has_value "excerpt" ref then some (obj (set "excerpt" omitted ref)) else none
without_excerpt _ = none

-- The loop over `evidenceRefs`, which stops once the prompt is within the budget
unfoldable pub omit_excerpts : (Items → Bool) → Items → Items × ℕ
unfolding without_excerpt
omit_excerpts within nil = (nil, 0)
omit_excerpts within (cons ref rest) = elim (without_excerpt ref) [
  | none ↦ let (kept, n) = omit_excerpts (λ more. within (cons ref more)) rest in (cons ref kept, n)
  | some short ↦
      let (kept, n) = omit_excerpts (λ more. within (cons short more)) rest in
      if within (cons short rest) then (cons short rest, 1) else (cons short kept, suc n)
]

pub record Omissions : Type 0 where
  pub historical_knowledge_hits : ℕ
  pub memory : ℕ
  pub non_dependency_agent_summaries : ℕ
  pub evidence_excerpts : ℕ

pub record ContextBudgetAudit : Type 0 where
  pub agent_name : String
  pub budget_tokens : ℕ
  pub estimated_tokens_before : ℕ
  pub estimated_tokens_after : ℕ
  pub omissions : Omissions
  pub within_budget : Bool

abbrev count_json : ℕ → Json
count_json n = num (pos n)

-- The dict of an audit
unfoldable pub audit_json : ContextBudgetAudit → Json
audit_json a = obj (
    field "agentName" (text a.agent_name) (
      field "budgetTokens" (count_json a.budget_tokens) (
        field "estimatedTokensBefore" (count_json a.estimated_tokens_before) (
          field "estimatedTokensAfter" (count_json a.estimated_tokens_after) (
            field "omissions"
              (obj (
                field "historicalKnowledgeHits" (count_json a.omissions.historical_knowledge_hits) (
                  field "memory" (count_json a.omissions.memory) (
                    field "nonDependencyAgentSummaries"
                      (count_json a.omissions.non_dependency_agent_summaries)
                      (field "evidenceExcerpts" (count_json a.omissions.evidence_excerpts) end)))))
              (field "withinBudget" (bool a.within_budget)
                (field "estimateMethod" (text "ceil_utf8_bytes_div_4") end)))))))

module _ (bytes : DumpedBytes) (budget : ℕ) where
  abbrev pub fits : Fields → Bool
  fits prompt = leb (estimate_prompt_tokens bytes prompt) budget

  -- What a loop kept takes the place of the value, if the prompt was above the budget.
  unfoldable pub cut : String → Fields → Json × ℕ → Fields × ℕ
  unfolding set estimate_prompt_tokens
  cut key prompt (kept, n) = if fits prompt then (prompt, 0) else (set key kept prompt, n)

  unfoldable pub trim_hits : Fields → Option Items → Fields × ℕ
  unfolding cut retained_hits
  trim_hits prompt none = (prompt, 0)
  trim_hits prompt (some hits) =
      let (kept, n) = retained_hits hits in cut "knowledgeHits" prompt (arr kept, n)

  unfoldable pub trim_knowledge : Fields → Fields × ℕ
  unfolding get trim_hits
  trim_knowledge prompt = trim_hits prompt (list_of (get "knowledgeHits" prompt))

  unfoldable pub trim_memory : Fields → Fields × ℕ
  unfolding set has_value estimate_prompt_tokens
  trim_memory prompt =
      if not (fits prompt) && has_value "memory" prompt
      then (set "memory" omitted prompt, 1)
      else (prompt, 0)

  -- `name in dependency_names`
  unfoldable pub is_dependency_name : CrewAgentSpec → String → Bool
  is_dependency_name spec name =
      contains name spec.dependencies
      || (str_eq spec.name "ReviewAgent"
          && (contains name specialist_agent_names
              || str_eq name "RepairAgent"
              || str_eq name "ReportAgent"))

  unfoldable pub trim_completed : CrewAgentSpec → Fields → Option Fields → Fields × ℕ
  unfolding cut set omit_agents is_dependency_name estimate_prompt_tokens
  trim_completed spec prompt none = (prompt, 0)
  trim_completed spec prompt (some completed) =
      let (kept, n) =
        omit_agents (λ more. fits (set "completedAgents" (obj more) prompt))
          (is_dependency_name spec) completed in
      cut "completedAgents" prompt (obj kept, n)

  unfoldable pub trim_agents : CrewAgentSpec → Fields → Fields × ℕ
  unfolding get trim_completed
  trim_agents spec prompt = trim_completed spec prompt (fields_of (get "completedAgents" prompt))

  unfoldable pub trim_excerpts : Fields → Option Items → Fields × ℕ
  unfolding cut set omit_excerpts estimate_prompt_tokens
  trim_excerpts prompt none = (prompt, 0)
  trim_excerpts prompt (some refs) =
      let (kept, n) = omit_excerpts (λ more. fits (set "evidenceRefs" (arr more) prompt)) refs in
      cut "evidenceRefs" prompt (arr kept, n)

  unfoldable pub trim_evidence : Fields → Fields × ℕ
  unfolding get trim_excerpts
  trim_evidence prompt = trim_excerpts prompt (list_of (get "evidenceRefs" prompt))

  -- The four cuts in their order, and what each left out
  unfoldable pub trim : CrewAgentSpec → Fields → Fields × Omissions
  unfolding trim_knowledge trim_memory trim_agents trim_evidence
  trim spec prompt =
      let hits = trim_knowledge prompt in
      let memory = trim_memory hits.0 in
      let agents = trim_agents spec memory.0 in
      let evidence = trim_evidence agents.0 in
      (
        evidence.0,
        record {
          historical_knowledge_hits = hits.1;
          memory = memory.1;
          non_dependency_agent_summaries = agents.1;
          evidence_excerpts = evidence.1;
        },
      )

  unfoldable pub first_audit : CrewAgentSpec → Fields → Fields → Omissions → ContextBudgetAudit
  unfolding estimate_prompt_tokens
  first_audit spec prompt trimmed omissions = record {
    agent_name = spec.name;
    budget_tokens = budget;
    estimated_tokens_before = estimate_prompt_tokens bytes prompt;
    estimated_tokens_after = estimate_prompt_tokens bytes trimmed;
    omissions = omissions;
    within_budget = fits trimmed;
  }

  -- The audit, once it is in the prompt and the prompt is measured again
  unfoldable pub last_audit : Fields → ContextBudgetAudit → ContextBudgetAudit
  unfolding audit_json set estimate_prompt_tokens
  last_audit trimmed audit =
      let prompt = set "contextBudgetAudit" (audit_json audit) trimmed in
      record (audit) {
        estimated_tokens_after = estimate_prompt_tokens bytes prompt;
        within_budget = fits prompt;
      }

  -- The audit is the same object in the prompt, so that the prompt has its last values.
  unfoldable pub apply_budget : CrewAgentSpec → Fields → Fields × ContextBudgetAudit
  unfolding trim first_audit last_audit audit_json set
  apply_budget spec prompt =
      let (trimmed, omissions) = trim spec prompt in
      let audit = last_audit trimmed (first_audit spec prompt trimmed omissions) in
      (set "contextBudgetAudit" (audit_json audit) trimmed, audit)

unfoldable pub apply_context_budget :
    IntOfText → DumpedBytes → Fields → CrewAgentSpec → Fields → Fields × ContextBudgetAudit
unfolding context_budget apply_budget
apply_context_budget int bytes config spec prompt =
    apply_budget bytes (context_budget int config) spec prompt
