-- ===== src/Crew/Budget/Cuts.antt =====
-- What each loop of `_apply_context_budget` takes from a list of the prompt.
use package.text.Mathlib.Text.{starts_with}
use ai_jsunpack.Prelude.{
  ℕ, ◌≡◌, refl, String, Bool, true, false, Option, none, some, str_eq, contains, Bool-cases,
  Option-cases, inl, inr, arith,
}
use ai_jsunpack.Json.{
  Json, null, bool, num, real, text, arr, obj, Items, nil, cons, Fields, end, field, get, set,
}
use ai_jsunpack.Crew.Specs.{CrewAgentSpec, specialist_agent_names}
use ai_jsunpack.Crew.Budget.{
  omitted, is_historical, retained_hits, omit_agents, without_excerpt, omit_excerpts,
  is_dependency_name, has_value, DumpedBytes,
}

-- The hits that are left: every one but those of a category that starts with `historical_`.
pub data AreCurrent : Items → Items → Type 0 where
  none_left : AreCurrent nil nil
  keep :
      {kept hits : Items} (hit : Json)
      → AreCurrent kept hits
      → AreCurrent (cons hit kept) (cons hit hits)
  drop :
      {kept hits : Items} (hit : Fields) (category : String)
      → get "category" hit ≡ some (text category)
      → starts_with category "historical_" ≡ true
      → AreCurrent kept hits
      → AreCurrent kept (cons (obj hit) hits)

-- An agent that the agent of a specification does not depend on, and for the review agent one that is
-- neither a specialist nor the agent of the repairs or the report
pub data IsUnneeded (spec : CrewAgentSpec) (name : String) : Type 0 where
  of_other :
      contains name spec.dependencies ≡ false
      → str_eq spec.name "ReviewAgent" ≡ false
      → IsUnneeded spec name
  of_review :
      contains name spec.dependencies ≡ false
      → contains name specialist_agent_names ≡ false
      → str_eq name "RepairAgent" ≡ false
      → str_eq name "ReportAgent" ≡ false
      → IsUnneeded spec name

-- The summaries that are left: every one but some of unneeded agents.
pub data AreNeeded (spec : CrewAgentSpec) : Fields → Fields → Type 0 where
  none_left : AreNeeded spec end end
  keep :
      {kept summaries : Fields} (name : String) (summary : Json)
      → AreNeeded spec kept summaries
      → AreNeeded spec (field name summary kept) (field name summary summaries)
  drop :
      {kept summaries : Fields} (name : String) (summary : Json)
      → IsUnneeded spec name
      → AreNeeded spec kept summaries
      → AreNeeded spec kept (field name summary summaries)

-- The references as they were, but that excerpts of some are replaced.
pub data AreShortened : Items → Items → Type 0 where
  none_left : AreShortened nil nil
  same :
      {kept refs : Items} (ref : Json)
      → AreShortened kept refs
      → AreShortened (cons ref kept) (cons ref refs)
  short :
      {kept refs : Items} (ref : Fields)
      → AreShortened kept refs
      → AreShortened (cons (obj (set "excerpt" omitted ref)) kept) (cons (obj ref) refs)

is_historical-fields :
    (hit : Json)
    → is_historical hit ≡ true
    → (fields : Fields) × (category : String) × (hit ≡ obj fields)
      × (get "category" fields ≡ some (text category))
      × (starts_with category "historical_" ≡ true)
unfolding is_historical
is_historical-fields (obj fields) h = go (get "category" fields) refl
  where
    go :
        (o : Option Json)
        → get "category" fields ≡ o
        → (found : Fields) × (category : String) × (obj fields ≡ obj found)
          × (get "category" found ≡ some (text category))
          × (starts_with category "historical_" ≡ true)
    go (some (text category)) e = (fields, category, refl, e, rw e at h)
    go none e = cc (rw e at h)
    go (some null) e = cc (rw e at h)
    go (some (bool _)) e = cc (rw e at h)
    go (some (num _)) e = cc (rw e at h)
    go (some (real _)) e = cc (rw e at h)
    go (some (arr _)) e = cc (rw e at h)
    go (some (obj _)) e = cc (rw e at h)
is_historical-fields null h = cc h
is_historical-fields (bool _) h = cc h
is_historical-fields (num _) h = cc h
is_historical-fields (real _) h = cc h
is_historical-fields (text _) h = cc h
is_historical-fields (arr _) h = cc h

pub retained_hits-AreCurrent : (hits : Items) → AreCurrent (retained_hits hits).0 hits
unfolding retained_hits
retained_hits-AreCurrent nil = none_left
retained_hits-AreCurrent (cons hit rest) = elim (Bool-cases (is_historical hit)) [
  | inl e ↦
      let (fields, category, same_hit, found, old) = is_historical-fields hit e in
      rw e (rw same_hit (drop fields category found old (retained_hits-AreCurrent rest)))
  | inr e ↦ rw e (keep hit (retained_hits-AreCurrent rest))
]

AreShortened-self : (refs : Items) → AreShortened refs refs
AreShortened-self nil = none_left
AreShortened-self (cons ref rest) = same ref (AreShortened-self rest)

without_excerpt-fields :
    (ref r : Json)
    → without_excerpt ref ≡ some r
    → (fields : Fields) × (ref ≡ obj fields) × (r ≡ obj (set "excerpt" omitted fields))
unfolding without_excerpt
without_excerpt-fields (obj fields) r h = elim (Bool-cases (has_value "excerpt" fields)) [
  | inl e ↦ (fields, refl, cc (rw e at h))
  | inr e ↦ cc (rw e at h)
]
without_excerpt-fields null r h = cc h
without_excerpt-fields (bool _) r h = cc h
without_excerpt-fields (num _) r h = cc h
without_excerpt-fields (real _) r h = cc h
without_excerpt-fields (text _) r h = cc h
without_excerpt-fields (arr _) r h = cc h

pub omit_excerpts-AreShortened :
    (within : Items → Bool) (refs : Items) → AreShortened (omit_excerpts within refs).0 refs
unfolding omit_excerpts
omit_excerpts-AreShortened within nil = none_left
omit_excerpts-AreShortened within (cons ref rest) = elim (Option-cases (without_excerpt ref)) [
  | inl e ↦ rw (e, omit_excerpts) (same ref (omit_excerpts-AreShortened _ rest))
  | inr (r, e) ↦
      let (fields, was, is_now) = without_excerpt-fields ref r e in
      let it : AreShortened (cons r (omit_excerpts (λ more. within (cons r more)) rest).0)
          (cons ref rest) =
        rw (was, is_now)
          (short fields (
            omit_excerpts-AreShortened
              (λ more. within (cons (obj (set "excerpt" omitted fields)) more)) rest)) in
      let first : AreShortened (cons r rest) (cons ref rest) =
        rw (was, is_now) (short fields (AreShortened-self rest)) in
      elim (Bool-cases (within (cons r rest))) [
        | inl stop ↦ rw (e, omit_excerpts) (rw stop first)
        | inr more ↦ rw (e, omit_excerpts) (rw more it)
      ]
]

AreNeeded-self : (spec : CrewAgentSpec) (summaries : Fields) → AreNeeded spec summaries summaries
AreNeeded-self spec end = none_left
AreNeeded-self spec (field name summary rest) = keep name summary (AreNeeded-self spec rest)

pub omit_agents-AreNeeded :
    (spec : CrewAgentSpec) (within : Fields → Bool) (is_needed : String → Bool) (summaries : Fields)
    → ((name : String) → is_needed name ≡ false → IsUnneeded spec name)
    → AreNeeded spec (omit_agents within is_needed summaries).0 summaries
unfolding omit_agents
omit_agents-AreNeeded spec within is_needed end unneeded = none_left
omit_agents-AreNeeded spec within is_needed (field name summary rest) unneeded =
    elim (Bool-cases (is_needed name)) [
      | inl e ↦
          rw (e, omit_agents)
            (keep name summary (omit_agents-AreNeeded spec _ is_needed rest unneeded))
      | inr e ↦ elim (Bool-cases (within rest)) [
        | inl stop ↦
            rw (e, omit_agents)
              (rw stop (drop name summary (unneeded name e) (AreNeeded-self spec rest)))
        | inr more ↦
            rw (e, omit_agents)
              (rw more (
                drop name summary (unneeded name e)
                  (omit_agents-AreNeeded spec within is_needed rest unneeded)))
      ]
    ]

pub is_dependency_name-IsUnneeded :
    (bytes : DumpedBytes) (budget : ℕ) (spec : CrewAgentSpec) (name : String)
    → is_dependency_name bytes budget spec name ≡ false
    → IsUnneeded spec name
unfolding is_dependency_name
is_dependency_name-IsUnneeded bytes budget spec name h =
    elim (Bool-cases (str_eq spec.name "ReviewAgent")) [
      | inl e ↦
          of_review (ground (arith, h)) (ground (arith, h, e)) (ground (arith, h, e))
            (ground (arith, h, e))
      | inr e ↦ of_other (ground (arith, h)) e
    ]
