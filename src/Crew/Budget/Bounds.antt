-- ===== src/Crew/Budget/Bounds.antt =====
-- The limits of the context budget, and prompts that are within it.
use ai_jsunpack.Prelude.{
  ◌⊎◌, ◌<◌, ℕ, ◌≡◌, ◌≤◌, refl, ap, String, true, Option, none, some, Bool-cases, Option-cases, inl,
  inr, arith,
}
use ai_jsunpack.Json.{ℤ, pos, negsuc, Json, Items, Fields, get, set}
use ai_jsunpack.Worker.Pipeline.Config.{IntOfText, to_int, clamp}
use ai_jsunpack.Crew.Specs.{CrewAgentSpec}
use ai_jsunpack.Crew.Budget.{
  estimate_prompt_tokens, audit_json, Omissions, DumpedBytes, agents_setting, context_budget,
  ContextBudgetAudit, fits, trim_knowledge, trim_memory, cut, trim_hits, trim_completed,
  trim_excerpts, list_of, fields_of, trim_agents, trim_evidence, trim, last_audit, first_audit,
  apply_budget, apply_context_budget,
}

pub clamp-bounds :
    (low high : ℕ) (z : ℤ) → low ≤ high → (low ≤ clamp low high z) × (clamp low high z ≤ high)
unfolding clamp
clamp-bounds low high (pos n) h = (omega arith, omega (arith, h))
clamp-bounds low high (negsuc n) h = (omega arith, h)

context_budget-bounds :
    (int : IntOfText) (config : Fields)
    → (1000 ≤ context_budget int config) × (context_budget int config ≤ 1000000)
unfolding context_budget
context_budget-bounds int config =
    elim (Option-cases (to_int int (agents_setting "contextBudget" 16000 config))) [
      | inl e ↦ rw (e, context_budget) (omega arith, omega arith)
      | inr (z, e) ↦ rw (e, context_budget) (clamp-bounds 1000 1000000 z (omega arith))
    ]

abbrev pub no_omissions : Omissions
no_omissions = record {
  historical_knowledge_hits = 0;
  memory = 0;
  non_dependency_agent_summaries = 0;
  evidence_excerpts = 0;
}

module _ (bytes : DumpedBytes) (budget : ℕ) (spec : CrewAgentSpec) (prompt : Fields)
    (small : fits bytes budget prompt ≡ true) where
  cut-fits :
      (key : String) (kept : Json) (n : ℕ) → cut bytes budget key prompt (kept, n) ≡ (prompt, 0)
  unfolding cut
  cut-fits key kept n = rw small refl

  trim_hits-fits : (o : Option Items) → trim_hits bytes budget prompt o ≡ (prompt, 0)
  unfolding trim_hits
  trim_hits-fits none = refl
  trim_hits-fits (some hits) = cut-fits "knowledgeHits" _ _

  trim_memory-fits : trim_memory bytes budget prompt ≡ (prompt, 0)
  unfolding trim_memory
  trim_memory-fits = rw small refl

  trim_completed-fits :
      (o : Option Fields) → trim_completed bytes budget spec prompt o ≡ (prompt, 0)
  unfolding trim_completed
  trim_completed-fits none = refl
  trim_completed-fits (some completed) = cut-fits "completedAgents" _ _

  trim_excerpts-fits : (o : Option Items) → trim_excerpts bytes budget prompt o ≡ (prompt, 0)
  unfolding trim_excerpts
  trim_excerpts-fits none = refl
  trim_excerpts-fits (some refs) = cut-fits "evidenceRefs" _ _

  trim-fits : trim bytes budget spec prompt ≡ (prompt, no_omissions)
  unfolding trim trim_knowledge trim_agents trim_evidence
  trim-fits =
      rw
        (
          trim_hits-fits (list_of (get "knowledgeHits" prompt)),
          trim_memory-fits,
          trim_completed-fits (fields_of (get "completedAgents" prompt)),
          trim_excerpts-fits (list_of (get "evidenceRefs" prompt)),
        )
        refl

-- What is sent for a prompt, and its audit.
pub record IsBounded (bytes : DumpedBytes) (prompt : Fields) (r : Fields × ContextBudgetAudit)
    : Type 0 where
  pub low : 1000 ≤ r.1.budget_tokens
  pub high : r.1.budget_tokens ≤ 1000000
  pub whole :
      (r.1.budget_tokens < estimate_prompt_tokens bytes prompt)
      ⊎ ((r.0 ≡ set "contextBudgetAudit" (audit_json r.1) prompt) × (r.1.omissions ≡ no_omissions))

apply_budget-whole :
    (bytes : DumpedBytes) (budget : ℕ) (spec : CrewAgentSpec) (prompt : Fields)
    → fits bytes budget prompt ≡ true
    → ((apply_budget bytes budget spec prompt).0
        ≡ set "contextBudgetAudit" (audit_json (apply_budget bytes budget spec prompt).1) prompt)
      × ((apply_budget bytes budget spec prompt).1.omissions ≡ no_omissions)
unfolding apply_budget last_audit first_audit
apply_budget-whole bytes budget spec prompt small =
    let same = trim-fits bytes budget spec prompt small in
    (
      ap
          (λ (t : Fields × Omissions).
            set "contextBudgetAudit" (audit_json (apply_budget bytes budget spec prompt).1) t.0)
          same,
      ap (λ (t : Fields × Omissions). t.1) same,
    )

-- The budget is at least 1,000 and at most 1,000,000 tokens whatever the configuration of the job
-- says, where it has no infinite number, and a prompt that is not above the budget is sent whole: the
-- audit is added, and counts nothing as left out.
pub apply_context_budget-bounds :
    (int : IntOfText) (bytes : DumpedBytes) (config : Fields) (spec : CrewAgentSpec)
    (prompt : Fields)
    → IsBounded bytes prompt (apply_context_budget int bytes config spec prompt)
unfolding apply_context_budget
apply_context_budget-bounds int bytes config spec prompt =
    let budget = context_budget int config in
    let (low, high) = context_budget-bounds int config in
    record {
      low = unfold apply_budget last_audit first_audit in low;
      high = unfold apply_budget last_audit first_audit in high;
      whole = elim (Bool-cases (fits bytes budget prompt)) [
        | inl e ↦ inr (apply_budget-whole bytes budget spec prompt e)
        | inr e ↦ inl (unfold apply_budget last_audit first_audit in ground (arith, e))
      ];
    }
