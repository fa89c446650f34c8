-- ===== src/Crew/Reviews.antt =====
-- How `_aggregate_provider_draft` of `CrewExecutionManager`, in
-- apps/worker/worker/agent_runtime.py, takes over the review of the crew.
use ai_jsunpack.Prelude.{
  ◌≡◌, refl, String, text_append, true, not, Option, none, some, List, [], ◌∷◌, ◌++◌, if◌then◌else◌,
  str_eq, contains, filter, All, Bool-cases, inl, inr, ◌⊎◌,
}
use ai_jsunpack.Prelude.Sets.{sorted_set, sorted_set-nil}
use ai_jsunpack.Store.Types.{FailureClass, unknown, agent_failed}
use ai_jsunpack.Crew.Executions.{
  best_effort, fail, AgentRepairInstructionDraft, AgentReviewDraft, CrewAgentExecution,
  CrewStageExecution, is_no_failure,
}
use ai_jsunpack.Crew.Run.{execution_of}

-- `next((stage.failure_class for stage in stages if ...), "unknown")`
unfoldable pub fallback_failure_class : List CrewStageExecution → FailureClass
fallback_failure_class [] = unknown
fallback_failure_class (s ∷ rest) =
    if is_no_failure s.failure_class then fallback_failure_class rest else s.failure_class

-- `[execution for stage in stages for execution in stage.agent_executions]`
unfoldable pub all_executions : List CrewStageExecution → List CrewAgentExecution
all_executions [] = []
all_executions (s ∷ rest) = s.agent_executions ++ all_executions rest

unfoldable pub default_review : List CrewStageExecution → AgentReviewDraft
unfolding fallback_failure_class
default_review stages = record {
  status = best_effort;
  decision = "CrewAI runtime 已完成，但 ReviewAgent 未给出明确结论。";
  failure_class = fallback_failure_class stages;
  repair_instruction_ids = [];
}

abbrev review_or : AgentReviewDraft → Option AgentReviewDraft → AgentReviewDraft
review_or default none = default
review_or default (some review) = review

unfoldable pub first_review : List CrewStageExecution → AgentReviewDraft
unfolding default_review all_executions execution_of
first_review stages = elim (execution_of "ReviewAgent" (all_executions stages)) [
  | none ↦ default_review stages
  | some e ↦ review_or (default_review stages) e.review
]

-- `{draft.id for draft in aggregated_repairs if draft.id}`
unfoldable pub repair_ids : List AgentRepairInstructionDraft → List String
repair_ids [] = []
repair_ids (draft ∷ rest) =
    let ids = repair_ids rest in if str_eq draft.id "" then ids else draft.id ∷ ids

unfoldable pub known_repair_ids : List CrewAgentExecution → List String
unfolding repair_ids
known_repair_ids [] = []
known_repair_ids (e ∷ rest) = repair_ids e.repair_instructions ++ known_repair_ids rest

abbrev join_names : List String → String
join_names [] = ""
join_names (n ∷ []) = n
join_names (n ∷ m ∷ rest) = text_append n (text_append ", " (join_names (m ∷ rest)))

unfoldable pub check_review : List String → AgentReviewDraft → List String → AgentReviewDraft
check_review known review [] = review
check_review known review (u ∷ more) = record {
  status = fail;
  decision =
      text_append review.decision
        (text_append " ReviewAgent 引用了未知的修复指令 ID：" (text_append (join_names (u ∷ more)) "."));
  failure_class = agent_failed;
  repair_instruction_ids = filter (λ id. contains id known) review.repair_instruction_ids;
}

unfoldable pub aggregate_review : List CrewStageExecution → AgentReviewDraft
unfolding first_review known_repair_ids all_executions check_review sorted_set
aggregate_review stages =
    let known = known_repair_ids (all_executions stages) in
    let review = first_review stages in
    check_review known review
      (sorted_set (filter (λ id. not (contains id known)) review.repair_instruction_ids))

filter-known :
    (known ids : List String)
    → All (λ id. contains id known ≡ true) (filter (λ id. contains id known) ids)
filter-known known [] = tt
filter-known known (x ∷ rest) = elim (Bool-cases (contains x known)) [
  | inl e ↦ rw e (e, filter-known known rest)
  | inr e ↦ rw e (filter-known known rest)
]

none_unknown :
    (known ids : List String)
    → filter (λ id. not (contains id known)) ids ≡ []
    → All (λ id. contains id known ≡ true) ids
none_unknown known [] h = tt
none_unknown known (x ∷ rest) h = elim (Bool-cases (contains x known)) [
  | inl e ↦ (e, none_unknown known rest (rw e at h))
  | inr e ↦ cc (rw e at h)
]

check_review-known :
    (known : List String) (review : AgentReviewDraft) (unknowns : List String)
    → sorted_set (filter (λ id. not (contains id known)) review.repair_instruction_ids) ≡ unknowns
    → All
        (λ id. contains id known ≡ true)
        (check_review known review unknowns).repair_instruction_ids
      × ((check_review known review unknowns ≡ review)
          ⊎ ((check_review known review unknowns).status ≡ fail))
unfolding check_review
check_review-known known review [] h =
    (none_unknown known review.repair_instruction_ids (sorted_set-nil _ h), inl refl)
check_review-known known review (u ∷ more) h =
    (filter-known known review.repair_instruction_ids, inr refl)

-- The review of a crew names only repair instructions that an agent of the crew made, whatever the
-- review agent wrote, and it is the agent's own review, or the default one, or else it is failed.
pub aggregate_review-known :
    (stages : List CrewStageExecution)
    → All
        (λ id. contains id (known_repair_ids (all_executions stages)) ≡ true)
        (aggregate_review stages).repair_instruction_ids
      × ((aggregate_review stages ≡ first_review stages)
          ⊎ ((aggregate_review stages).status ≡ fail))
unfolding aggregate_review
aggregate_review-known stages =
    check_review-known (known_repair_ids (all_executions stages)) (first_review stages) _ refl
