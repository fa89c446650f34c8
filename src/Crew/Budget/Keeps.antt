-- ===== src/Crew/Budget/Keeps.antt =====
-- What the cuts of `_apply_context_budget` leave as it was.
use ai_jsunpack.Prelude.{
  ◌⊎◌, ℕ, ◌≡◌, refl, sym, ◌∙◌, ap, String, false, not, ◌&&◌, Option, none, some, List, [], ◌∷◌,
  if◌then◌else◌, str_eq, contains, eq_iff, Bool-cases, inl, inr, arith,
}
use ai_jsunpack.Json.{Json, Items, Fields, end, field, get, set}
use ai_jsunpack.Worker.Pipeline.Config.{IntOfText}
use ai_jsunpack.Crew.Specs.{CrewAgentSpec}
use ai_jsunpack.Crew.Budget.Cuts.{AreCurrent, AreNeeded, AreShortened}
use ai_jsunpack.Crew.Budget.Values.{
  IsCutList, IsCutDict, trim_hits-value, trim_memory-value, trim_completed-value,
  trim_excerpts-value,
}
use ai_jsunpack.Crew.Budget.{
  DumpedBytes, context_budget, fits, trim_knowledge, trim_memory, cut, trim_hits, trim_completed,
  trim_excerpts, list_of, fields_of, trim_agents, trim_evidence, trim, apply_budget,
  apply_context_budget, has_value, omitted,
}

get-set_other :
    (key k : String) (v : Json) (fs : Fields)
    → str_eq key k ≡ false
    → get key (set k v fs) ≡ get key fs
unfolding get set
get-set_other key k v end h = rw h refl
get-set_other key k v (field j w rest) h = elim (Bool-cases (str_eq k j)) [
  | inl e ↦ rw e (rw (ap (str_eq key) (sym ((eq_iff k j).0 e)) ∙ h) refl)
  | inr e ↦ rw e (ap (λ o. if str_eq key j then some w else o) (get-set_other key k v rest h))
]

-- The keys of a prompt that the cuts and the audit may change
abbrev pub cut_keys : List String
cut_keys =
    "knowledgeHits" ∷ "memory" ∷ "completedAgents" ∷ "evidenceRefs" ∷ "contextBudgetAudit" ∷ []

module _ (bytes : DumpedBytes) (budget : ℕ) (key : String) where
  cut-keeps :
      (k : String) (prompt : Fields) (result : Json × ℕ)
      → str_eq key k ≡ false
      → get key (cut bytes budget k prompt result).0 ≡ get key prompt
  unfolding cut
  cut-keeps k prompt (kept, n) h = elim (Bool-cases (fits bytes budget prompt)) [
    | inl e ↦ rw e refl
    | inr e ↦ rw e (get-set_other key k kept prompt h)
  ]

  trim_hits-keeps :
      (prompt : Fields) (hits : Option Items)
      → str_eq key "knowledgeHits" ≡ false
      → get key (trim_hits bytes budget prompt hits).0 ≡ get key prompt
  unfolding trim_hits
  trim_hits-keeps prompt none h = refl
  trim_hits-keeps prompt (some hits) h = cut-keeps "knowledgeHits" prompt _ h

  trim_memory-keeps :
      (prompt : Fields)
      → str_eq key "memory" ≡ false
      → get key (trim_memory bytes budget prompt).0 ≡ get key prompt
  unfolding trim_memory
  trim_memory-keeps prompt h =
      elim (Bool-cases (not (fits bytes budget prompt) && has_value "memory" prompt)) [
        | inl e ↦ rw e (get-set_other key "memory" omitted prompt h)
        | inr e ↦ rw e refl
      ]

  trim_completed-keeps :
      (spec : CrewAgentSpec) (prompt : Fields) (completed : Option Fields)
      → str_eq key "completedAgents" ≡ false
      → get key (trim_completed bytes budget spec prompt completed).0 ≡ get key prompt
  unfolding trim_completed
  trim_completed-keeps spec prompt none h = refl
  trim_completed-keeps spec prompt (some completed) h = cut-keeps "completedAgents" prompt _ h

  trim_excerpts-keeps :
      (prompt : Fields) (refs : Option Items)
      → str_eq key "evidenceRefs" ≡ false
      → get key (trim_excerpts bytes budget prompt refs).0 ≡ get key prompt
  unfolding trim_excerpts
  trim_excerpts-keeps prompt none h = refl
  trim_excerpts-keeps prompt (some refs) h = cut-keeps "evidenceRefs" prompt _ h

  trim-keeps :
      (spec : CrewAgentSpec) (prompt : Fields)
      → contains key cut_keys ≡ false
      → get key (trim bytes budget spec prompt).0 ≡ get key prompt
  unfolding trim trim_knowledge trim_agents trim_evidence
  trim-keeps spec prompt h =
      let hits = (trim_knowledge bytes budget prompt).0 in
      let memory = (trim_memory bytes budget hits).0 in
      let agents = (trim_agents bytes budget spec memory).0 in
      trim_excerpts-keeps agents (list_of (get "evidenceRefs" agents)) (ground (arith, h))
      ∙ trim_completed-keeps spec memory (fields_of (get "completedAgents" memory))
          (ground (arith, h))
      ∙ trim_memory-keeps hits (ground (arith, h))
      ∙ trim_hits-keeps prompt (list_of (get "knowledgeHits" prompt)) (ground (arith, h))

IsCutList-cong :
    (R : Items → Items → Type 0) {a b x y : Option Json}
    → x ≡ a
    → y ≡ b
    → IsCutList R a b
    → IsCutList R x y
IsCutList-cong R h k less = rw (h, k) less

IsCutDict-cong :
    (R : Fields → Fields → Type 0) {a b x y : Option Json}
    → x ≡ a
    → y ≡ b
    → IsCutDict R a b
    → IsCutDict R x y
IsCutDict-cong R h k less = rw (h, k) less

-- The value is the same, or is replaced.
replaced_cong : {a b x y v : Option Json} → x ≡ a → y ≡ b → (a ≡ b) ⊎ (a ≡ v) → (x ≡ y) ⊎ (x ≡ v)
replaced_cong h k less = rw (h, k) less

-- What a prompt may have lost.
pub record IsCut (spec : CrewAgentSpec) (after before : Fields) : Type 0 where
  pub hits : IsCutList AreCurrent (get "knowledgeHits" after) (get "knowledgeHits" before)
  pub memory : (get "memory" after ≡ get "memory" before) ⊎ (get "memory" after ≡ some omitted)
  pub agents :
      IsCutDict (AreNeeded spec) (get "completedAgents" after) (get "completedAgents" before)
  pub evidence : IsCutList AreShortened (get "evidenceRefs" after) (get "evidenceRefs" before)
  pub others : (key : String) → contains key cut_keys ≡ false → get key after ≡ get key before

module _ (bytes : DumpedBytes) (budget : ℕ) (spec : CrewAgentSpec) (prompt : Fields) where
  trim-IsCut : IsCut spec (trim bytes budget spec prompt).0 prompt
  unfolding trim trim_knowledge trim_agents trim_evidence
  trim-IsCut =
      let hits = (trim_knowledge bytes budget prompt).0 in
      let memory = (trim_memory bytes budget hits).0 in
      let agents = (trim_agents bytes budget spec memory).0 in
      let keep_hits : (key : String)
          → str_eq key "knowledgeHits" ≡ false
          → get key hits ≡ get key prompt =
        λ key h. trim_hits-keeps bytes budget key prompt (list_of (get "knowledgeHits" prompt)) h in
      let keep_memory : (key : String)
          → str_eq key "memory" ≡ false
          → get key memory ≡ get key hits =
        λ key h. trim_memory-keeps bytes budget key hits h in
      let keep_agents : (key : String)
          → str_eq key "completedAgents" ≡ false
          → get key agents ≡ get key memory =
        λ key h.
          trim_completed-keeps bytes budget key spec memory
            (fields_of (get "completedAgents" memory)) h in
      let keep_evidence : (key : String)
          → str_eq key "evidenceRefs" ≡ false
          → get key (trim_evidence bytes budget agents).0 ≡ get key agents =
        λ key h.
          trim_excerpts-keeps bytes budget key agents (list_of (get "evidenceRefs" agents)) h in
      record {
        hits =
            IsCutList-cong AreCurrent
              (keep_evidence "knowledgeHits" refl
                ∙ keep_agents "knowledgeHits" refl
                ∙ keep_memory "knowledgeHits" refl)
              refl
              (trim_hits-value bytes budget prompt (list_of (get "knowledgeHits" prompt)) refl);
        memory =
            replaced_cong (keep_evidence "memory" refl ∙ keep_agents "memory" refl)
              (sym (keep_hits "memory" refl)) (trim_memory-value bytes budget hits);
        agents =
            IsCutDict-cong (AreNeeded spec) (keep_evidence "completedAgents" refl)
              (sym (keep_memory "completedAgents" refl ∙ keep_hits "completedAgents" refl))
              (trim_completed-value bytes budget spec memory
                (fields_of (get "completedAgents" memory)) refl);
        evidence =
            IsCutList-cong AreShortened refl
              (sym (
                keep_agents "evidenceRefs" refl
                ∙ keep_memory "evidenceRefs" refl
                ∙ keep_hits "evidenceRefs" refl))
              (trim_excerpts-value bytes budget agents (list_of (get "evidenceRefs" agents)) refl);
        others = λ key h. trim-keeps bytes budget key spec prompt h;
      }

IsCut-set :
    (spec : CrewAgentSpec) (prompt fs : Fields) (audit : Json)
    → IsCut spec fs prompt
    → IsCut spec (set "contextBudgetAudit" audit fs) prompt
IsCut-set spec prompt fs audit less =
    let keep : (key : String)
        → str_eq key "contextBudgetAudit" ≡ false
        → get key (set "contextBudgetAudit" audit fs) ≡ get key fs =
      λ key h. get-set_other key "contextBudgetAudit" audit fs h in
    record {
      hits = IsCutList-cong AreCurrent (keep "knowledgeHits" refl) refl less.hits;
      memory = replaced_cong (keep "memory" refl) refl less.memory;
      agents = IsCutDict-cong (AreNeeded spec) (keep "completedAgents" refl) refl less.agents;
      evidence = IsCutList-cong AreShortened (keep "evidenceRefs" refl) refl less.evidence;
      others = λ key h. keep key (ground (arith, h)) ∙ less.others key h;
    }

-- The context budget takes nothing from a prompt but hits of the knowledge of a category that starts
-- with `historical_`, the memory, summaries of agents that the agent does not depend on (for the
-- review agent only of those that are no specialists, repairs or reports) and excerpts of the
-- evidence. The other hits, summaries and references stay in their order, a reference keeps all but
-- its excerpt, and every other key but that of the audit has the value that it had.
pub apply_context_budget-keeps :
    (int : IntOfText) (bytes : DumpedBytes) (config : Fields) (spec : CrewAgentSpec)
    (prompt : Fields)
    → IsCut spec (apply_context_budget int bytes config spec prompt).0 prompt
unfolding apply_context_budget apply_budget
apply_context_budget-keeps int bytes config spec prompt =
    IsCut-set spec prompt _ _ (trim-IsCut bytes (context_budget int config) spec prompt)
