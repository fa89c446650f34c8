-- ===== src/Crew/Run/Skips.antt =====
-- What `execute` records of an agent, one of whose dependencies failed.
use mathlib.Core.Path.{subst}
use ai_jsunpack.Prelude.{
  ◌≡◌, ◌⊎◌, refl, sym, ◌∙◌, ap, String, Bool, false, List, [], ◌∷◌, ◌++◌, map, contains, All,
  Bool-cases, inl, inr, arith,
}
use ai_jsunpack.Json.{Fields}
use ai_jsunpack.Crew.Specs.{CrewAgentSpec}
use ai_jsunpack.Crew.Plan.{planned, build_stage_order, name_of}
use ai_jsunpack.Crew.Plan.Checked.{bind_planned-planned}
use ai_jsunpack.Crew.Plan.Visits.{All-map}
use ai_jsunpack.Crew.Plan.Stages.{agents_of}
use ai_jsunpack.Crew.Plan.Forward.{AreForward, contains-append, build_stage_order-AreForward}
use ai_jsunpack.Crew.Executions.{skipped, CrewAgentExecution, CrewStageExecution}
use ai_jsunpack.Crew.Budget.{ContextBudgetAudit}
use ai_jsunpack.Crew.Run.{
  RuntimeContext, put_all, blocked, skipped_execution, call_agent, run_unless_blocked, execute_spec,
  context_budget_exceeded_execution,
}
use ai_jsunpack.Crew.Run.Records.{AreAbsent, executed_name, All-put_all, blocked-put_all}
use ai_jsunpack.Crew.Run.Members.{Clear, stage_specs-Clear, stage_specs-absent}
use ai_jsunpack.Crew.Run.Steps.{
  Progress, stage_specs, run_stage, run_stages, has_planner, no_progress, execute,
}

-- No dependency of the agent failed, or the agent was skipped.
abbrev pub IsRespectful : List CrewAgentExecution → CrewAgentExecution → Type 0
IsRespectful executions e =
    (blocked e.spec.name e.spec.dependencies executions ≡ []) ⊎ (e.status ≡ skipped)

-- The adapter answers with an execution of the agent that it was given.
abbrev pub KeepsSpec : RuntimeContext → Type 0
KeepsSpec c = (spec : CrewAgentSpec) (prompt : Fields) → (c.execute_agent spec prompt).spec ≡ spec

-- No dependency of the agent is among these names.
abbrev IsClear : List String → CrewAgentExecution → Type 0
IsClear names e = AreAbsent names e.spec.dependencies

module _ (c : RuntimeContext) (keeps : KeepsSpec c) where
  call_agent-spec :
      (spec : CrewAgentSpec) (made : Fields × ContextBudgetAudit)
      → (call_agent c spec made).spec ≡ spec
  unfolding call_agent context_budget_exceeded_execution
  call_agent-spec spec (prompt, audit) = elim (Bool-cases audit.within_budget) [
    | inl e ↦ rw e (keeps spec prompt)
    | inr e ↦ rw e refl
  ]

  run_unless_blocked-lem :
      (spec : CrewAgentSpec) (stages : List CrewStageExecution)
      (known blockers : List CrewAgentExecution)
      → ((run_unless_blocked c spec stages known blockers).spec ≡ spec)
        × ((blockers ≡ []) ⊎ ((run_unless_blocked c spec stages known blockers).status ≡ skipped))
  unfolding run_unless_blocked skipped_execution
  run_unless_blocked-lem spec stages known [] = (call_agent-spec spec _, inl refl)
  run_unless_blocked-lem spec stages known (first ∷ rest) = (refl, inr refl)

  execute_spec-IsRespectful :
      (stages : List CrewStageExecution) (known : List CrewAgentExecution) (spec : CrewAgentSpec)
      → ((execute_spec c stages known spec).spec ≡ spec)
        × IsRespectful known (execute_spec c stages known spec)
  unfolding execute_spec
  execute_spec-IsRespectful stages known spec =
      let (same, end) =
        run_unless_blocked-lem spec stages known (blocked spec.name spec.dependencies known) in
      (
        same,
        elim end [
          | inl e ↦ inl (ap (λ (s : CrewAgentSpec). blocked s.name s.dependencies known) same ∙ e)
          | inr e ↦ inr e
        ],
      )

  executed-names :
      (stages : List CrewStageExecution) (known : List CrewAgentExecution)
      (members : List CrewAgentSpec)
      → map executed_name (map (execute_spec c stages known) members) ≡ map name_of members
  executed-names stages known [] = refl
  executed-names stages known (s ∷ rest) =
      rw (ap name_of (execute_spec-IsRespectful stages known s).0)
        (ap (λ more. s.name ∷ more) (executed-names stages known rest))

  -- What holds of each recorded execution while these agents are still to run
  abbrev IsSettled : List String → List CrewAgentExecution → CrewAgentExecution → Type 0
  IsSettled waiting known e = IsClear waiting e × IsRespectful known e

  -- The stage's own agents, and those of the stages after it
  module _ (now later : List String) (new known : List CrewAgentExecution)
      (within : (v : String)
        → contains v now ≡ false
        → contains v (map executed_name new) ≡ false) where
    absent-later : (d : String) → contains d (now ++ later) ≡ false → contains d later ≡ false
    absent-later d h = ground (arith, sym (contains-append d now later) ∙ h)

    absent-new :
        (d : String)
        → contains d (now ++ later) ≡ false
        → contains d (map executed_name new) ≡ false
    absent-new d h = within d (ground (arith, sym (contains-append d now later) ∙ h))

    IsSettled-put_all :
        (e : CrewAgentExecution)
        → IsSettled (now ++ later) known e
        → IsSettled later (put_all new known) e
    IsSettled-put_all e (clear, end) =
        let same =
          blocked-put_all e.spec.name e.spec.dependencies new known
            (All-map e.spec.dependencies absent-new clear) in
        (
          All-map e.spec.dependencies absent-later clear,
          elim end [ inl none_failed ↦ inl (same ∙ none_failed) | inr k ↦ inr k ],
        )

  All-executions :
      {P Q : CrewAgentExecution → Type 0} (es : List CrewAgentExecution)
      → ((e : CrewAgentExecution) → P e → Q e)
      → All P es
      → All Q es
  All-executions [] f h = tt
  All-executions (e ∷ rest) f h = (f e h.0, All-executions rest f h.1)

  executed-IsSettled :
      (names : List String) (stages : List CrewStageExecution) (known : List CrewAgentExecution)
      (members : List CrewAgentSpec)
      → All (Clear names) members
      → All (IsSettled names known) (map (execute_spec c stages known) members)
  executed-IsSettled names stages known [] h = tt
  executed-IsSettled names stages known (s ∷ rest) h =
      let (same, respectful) = execute_spec-IsRespectful stages known s in
      (
        (subst (Clear names) (sym same) h.0, respectful),
        executed-IsSettled names stages known rest h.1,
      )

  run_stage-IsSettled :
      (enabled : Bool) (specs : List CrewAgentSpec) (stage : String) (group : List CrewAgentSpec)
      (later : List String) (p : Progress)
      → All (Clear (map name_of group ++ later)) group
      → All (IsSettled (map name_of group ++ later) p.executions) p.executions
      → All
          (IsSettled later (run_stage c enabled specs (stage, group) p).executions)
          (run_stage c enabled specs (stage, group) p).executions
  unfolding run_stage
  run_stage-IsSettled enabled specs stage group later p clear settled =
      let now = map name_of group in
      let members = stage_specs enabled p.selected_specialists stage group in
      let new = map (execute_spec c p.stages p.executions) members in
      let within : (v : String)
          → contains v now ≡ false
          → contains v (map executed_name new) ≡ false =
        λ v h.
          ap (contains v) (executed-names p.stages p.executions members)
          ∙ stage_specs-absent enabled p.selected_specialists stage group v h in
      let all_settled =
        All-put_all (IsSettled (now ++ later) p.executions) new p.executions
          (executed-IsSettled (now ++ later) p.stages p.executions members
            (stage_specs-Clear (now ++ later) enabled p.selected_specialists stage group clear))
          settled in
      All-executions (put_all new p.executions)
        (IsSettled-put_all now later new p.executions within) all_settled

  run_stages-IsSettled :
      (enabled : Bool) (specs : List CrewAgentSpec) (groups : List (String × List CrewAgentSpec))
      (p : Progress)
      → AreForward groups
      → All (IsSettled (agents_of groups) p.executions) p.executions
      → All
          (IsSettled [] (run_stages c enabled specs groups p).executions)
          (run_stages c enabled specs groups p).executions
  unfolding run_stages agents_of
  run_stages-IsSettled enabled specs [] p forward settled = settled
  run_stages-IsSettled enabled specs ((stage, group) ∷ rest) p forward settled =
      run_stages-IsSettled enabled specs rest (run_stage c enabled specs (stage, group) p) forward.1
        (run_stage-IsSettled enabled specs stage group (agents_of rest) p forward.0 settled)

planned_inj : {A : Type 0} (a b : A) → planned a ≡ planned b → a ≡ b
planned_inj a b h = cc h

-- When the crew has run, with an adapter that answers for the agent that it was given, each agent
-- whose execution is recorded was skipped, or none of its dependencies failed but for the planner
-- before the analysis.
pub execute-IsRespectful :
    (c : RuntimeContext) (specs : List CrewAgentSpec) (p : Progress)
    → KeepsSpec c
    → execute c specs ≡ planned p
    → All (IsRespectful p.executions) p.executions
unfolding execute
execute-IsRespectful c specs p keeps h =
    let (groups, plan, ran) = bind_planned-planned (build_stage_order specs) _ h in
    subst (λ (q : Progress). All (IsRespectful q.executions) q.executions) (planned_inj _ p ran)
      (All-executions c keeps _ (λ e settled. settled.1)
        (run_stages-IsSettled c keeps (has_planner specs) specs groups (no_progress specs)
          (build_stage_order-AreForward specs groups plan) tt))
