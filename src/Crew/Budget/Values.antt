-- ===== src/Crew/Budget/Values.antt =====
-- The values of the four keys of a prompt that the cuts may change.
use ai_jsunpack.Prelude.{
  Bool, ◌⊎◌, str_eq_refl, ℕ, ◌≡◌, refl, String, not, ◌&&◌, Option, none, some, str_eq, Bool-cases,
  inl, inr,
}
use ai_jsunpack.Json.{
  Json, null, bool, num, real, text, arr, obj, Items, Fields, end, field, get, set,
}
use ai_jsunpack.Crew.Specs.{CrewAgentSpec}
use ai_jsunpack.Crew.Budget.Cuts.{
  AreCurrent, AreNeeded, AreShortened, retained_hits-AreCurrent, omit_agents-AreNeeded,
  omit_excerpts-AreShortened, is_dependency_name-IsUnneeded,
}
use ai_jsunpack.Crew.Budget.{
  retained_hits, omit_agents, omit_excerpts, is_dependency_name, DumpedBytes, fits, trim_memory,
  cut, trim_hits, trim_completed, trim_excerpts, list_of, fields_of, has_value, omitted,
}

get-set : (key : String) (v : Json) (fs : Fields) → get key (set key v fs) ≡ some v
unfolding get set
get-set key v end = rw (str_eq_refl key) refl
get-set key v (field j w rest) = elim (Bool-cases (str_eq key j)) [
  | inl e ↦ rw (e, set) (rw e refl)
  | inr e ↦ rw (e, set) (rw e (get-set key v rest))
]

list_of-some : (o : Option Json) (items : Items) → list_of o ≡ some items → o ≡ some (arr items)
list_of-some (some (arr items)) kept h = cc h
list_of-some none items h = cc h
list_of-some (some null) items h = cc h
list_of-some (some (bool _)) items h = cc h
list_of-some (some (num _)) items h = cc h
list_of-some (some (real _)) items h = cc h
list_of-some (some (text _)) items h = cc h
list_of-some (some (obj _)) items h = cc h

fields_of-some :
    (o : Option Json) (fields : Fields) → fields_of o ≡ some fields → o ≡ some (obj fields)
fields_of-some (some (obj fields)) kept h = cc h
fields_of-some none fields h = cc h
fields_of-some (some null) fields h = cc h
fields_of-some (some (bool _)) fields h = cc h
fields_of-some (some (num _)) fields h = cc h
fields_of-some (some (real _)) fields h = cc h
fields_of-some (some (text _)) fields h = cc h
fields_of-some (some (arr _)) fields h = cc h

-- The value of a key after the cuts, and the one before: the same, or a list of which `R` tells what
-- was taken.
abbrev pub IsCutList : (Items → Items → Type 0) → Option Json → Option Json → Type 0
IsCutList R after before =
    (after ≡ before)
    ⊎ ((kept : Items) × (items : Items) × (before ≡ some (arr items))
        × (after ≡ some (arr kept))
        × R kept items)

abbrev pub IsCutDict : (Fields → Fields → Type 0) → Option Json → Option Json → Type 0
IsCutDict R after before =
    (after ≡ before)
    ⊎ ((kept : Fields) × (fields : Fields) × (before ≡ some (obj fields))
        × (after ≡ some (obj kept))
        × R kept fields)

module _ (bytes : DumpedBytes) (budget : ℕ) where
  cut-value :
      (k : String) (prompt : Fields) (kept : Json) (n : ℕ)
      → (get k (cut bytes budget k prompt (kept, n)).0 ≡ get k prompt)
        ⊎ (get k (cut bytes budget k prompt (kept, n)).0 ≡ some kept)
  unfolding cut
  cut-value k prompt kept n = elim (Bool-cases (fits bytes budget prompt)) [
    | inl e ↦ rw e (inl refl)
    | inr e ↦ rw e (inr (get-set k kept prompt))
  ]

  pub trim_hits-value :
      (prompt : Fields) (o : Option Items)
      → list_of (get "knowledgeHits" prompt) ≡ o
      → IsCutList AreCurrent
          (get "knowledgeHits" (trim_hits bytes budget prompt o).0)
          (get "knowledgeHits" prompt)
  unfolding trim_hits
  trim_hits-value prompt none e = inl refl
  trim_hits-value prompt (some hits) e =
      let (kept, n) = retained_hits hits in
      elim (cut-value "knowledgeHits" prompt (arr kept) n) [
        | inl same ↦ inl same
        | inr less ↦ inr (
          kept,
          hits,
          list_of-some (get "knowledgeHits" prompt) hits e,
          less,
          retained_hits-AreCurrent hits,
        )
      ]

  pub trim_memory-value :
      (prompt : Fields)
      → (get "memory" (trim_memory bytes budget prompt).0 ≡ get "memory" prompt)
        ⊎ (get "memory" (trim_memory bytes budget prompt).0 ≡ some omitted)
  unfolding trim_memory
  trim_memory-value prompt =
      elim (Bool-cases (not (fits bytes budget prompt) && has_value "memory" prompt)) [
        | inl e ↦ rw e (inr (get-set "memory" omitted prompt))
        | inr e ↦ rw e (inl refl)
      ]

  pub trim_completed-value :
      (spec : CrewAgentSpec) (prompt : Fields) (o : Option Fields)
      → fields_of (get "completedAgents" prompt) ≡ o
      → IsCutDict
          (AreNeeded spec)
          (get "completedAgents" (trim_completed bytes budget spec prompt o).0)
          (get "completedAgents" prompt)
  unfolding trim_completed
  trim_completed-value spec prompt none e = inl refl
  trim_completed-value spec prompt (some completed) e =
      let within : Fields → Bool =
        λ more. fits bytes budget (set "completedAgents" (obj more) prompt) in
      let (kept, n) = omit_agents within (is_dependency_name bytes budget spec) completed in
      elim (cut-value "completedAgents" prompt (obj kept) n) [
        | inl same ↦ inl same
        | inr less ↦ inr (
          kept,
          completed,
          fields_of-some (get "completedAgents" prompt) completed e,
          less,
          omit_agents-AreNeeded spec within (is_dependency_name bytes budget spec) completed
              (is_dependency_name-IsUnneeded bytes budget spec),
        )
      ]

  pub trim_excerpts-value :
      (prompt : Fields) (o : Option Items)
      → list_of (get "evidenceRefs" prompt) ≡ o
      → IsCutList AreShortened
          (get "evidenceRefs" (trim_excerpts bytes budget prompt o).0)
          (get "evidenceRefs" prompt)
  unfolding trim_excerpts
  trim_excerpts-value prompt none e = inl refl
  trim_excerpts-value prompt (some refs) e =
      let within : Items → Bool =
        λ more. fits bytes budget (set "evidenceRefs" (arr more) prompt) in
      let (kept, n) = omit_excerpts within refs in
      elim (cut-value "evidenceRefs" prompt (arr kept) n) [
        | inl same ↦ inl same
        | inr less ↦ inr (
          kept,
          refs,
          list_of-some (get "evidenceRefs" prompt) refs e,
          less,
          omit_excerpts-AreShortened within refs,
        )
      ]
