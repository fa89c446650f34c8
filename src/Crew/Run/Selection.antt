-- ===== src/Crew/Run/Selection.antt =====
-- The specialists that the planner may choose, and the limits on the threads of a stage.
use Prim.Native.Nat.{min}
use mathlib.Core.Path.{subst}
use ai_jsunpack.Prelude.{
  ℕ, ◌≡◌, ◌≤◌, refl, String, Bool, true, ◌&&◌, Option, none, some, List, [], ◌∷◌, str_eq_refl,
  contains, filter, length, All, All-append, Bool-cases, Option-cases, inl, inr, arith,
}
use ai_jsunpack.Json.{Items, nil, cons, get}
use ai_jsunpack.Worker.Pipeline.Config.{to_int}
use ai_jsunpack.Crew.Specs.{CrewAgentSpec, specialist_agent_names}
use ai_jsunpack.Crew.Plan.{planned, build_stage_order}
use ai_jsunpack.Crew.Plan.Checked.{bind_planned-planned}
use ai_jsunpack.Crew.Executions.{CrewAgentExecution, has_failed}
use ai_jsunpack.Crew.Budget.{agents_setting, list_of}
use ai_jsunpack.Crew.Budget.Bounds.{clamp-bounds}
use ai_jsunpack.Crew.Run.{RuntimeContext}
use ai_jsunpack.Crew.Run.Steps.{
  FallbackReason, unless_empty, selected_of, any_outside, selection_from,
  planner_specialist_selection, is_chosen, requested_max_parallel, stage_worker_count, Progress,
  stage_specs, run_stage, run_stages, has_planner, no_progress, execute,
}

-- Names that are available, and at least one of them if there is one
abbrev pub IsSelection : List String → List String × Option FallbackReason → Type 0
IsSelection available (selected, reason) =
    All (λ name. contains name available ≡ true) selected
    × (min 1 (length available) ≤ length selected)

contains_self :
    (xs ys : List String)
    → ((v : String) → contains v xs ≡ true → contains v ys ≡ true)
    → All (λ v. contains v ys ≡ true) xs
contains_self [] ys h = tt
contains_self (x ∷ rest) ys h =
    (h x (rw (str_eq_refl x) refl), contains_self rest ys λ v k. h v (ground (arith, k)))

available-IsSelection :
    (available : List String) (reason : Option FallbackReason)
    → IsSelection available (available, reason)
available-IsSelection available reason = (contains_self available available (λ v h. h), omega arith)

filter-contains :
    (p : String → Bool) (available names : List String)
    → All
        (λ v. contains v available ≡ true)
        (filter (λ name. p name && contains name available) names)
filter-contains p available [] = tt
filter-contains p available (x ∷ rest) = elim (Bool-cases (p x && contains x available)) [
  | inl e ↦ rw e (ground (arith, e), filter-contains p available rest)
  | inr e ↦ rw e (filter-contains p available rest)
]

unless_empty-IsSelection :
    (available chosen : List String)
    → All (λ v. contains v available ≡ true) chosen
    → IsSelection available (unless_empty available chosen)
unfolding unless_empty
unless_empty-IsSelection available [] h = available-IsSelection available none
unless_empty-IsSelection available (x ∷ rest) h = (h, omega arith)

selection_from-IsSelection :
    (available : List String) (raw : Option Items)
    → IsSelection available (selection_from available raw)
unfolding selection_from selected_of
selection_from-IsSelection available none = available-IsSelection available none
selection_from-IsSelection available (some nil) = available-IsSelection available none
selection_from-IsSelection available (some (cons j rest)) =
    elim (Bool-cases (any_outside (cons j rest))) [
      | inl e ↦ rw e (available-IsSelection available none)
      | inr e ↦ rw e (
          unless_empty-IsSelection available _ (
            filter-contains (λ name. is_chosen name (cons j rest)) available
              specialist_agent_names))
    ]

-- Whatever the planner answered, and if it failed or did not run, the specialists that are selected
-- are available ones, and at least one of them if any is available.
pub planner_specialist_selection-IsSelection :
    (planner : Option CrewAgentExecution) (available : List String)
    → IsSelection available (planner_specialist_selection planner available)
unfolding planner_specialist_selection
planner_specialist_selection-IsSelection none available = available-IsSelection available none
planner_specialist_selection-IsSelection (some e) available = elim (Bool-cases (has_failed e)) [
  | inl bad ↦ rw bad (available-IsSelection available none)
  | inr fine ↦
      rw fine (selection_from-IsSelection available (list_of (get "plannedAgents" e.raw_output)))
]

requested_max_parallel-bounds :
    (c : RuntimeContext) → (1 ≤ requested_max_parallel c) × (requested_max_parallel c ≤ 10)
unfolding requested_max_parallel
requested_max_parallel-bounds c =
    elim (Option-cases (to_int c.int (agents_setting "maxParallel" 5 c.job_config))) [
      | inl e ↦ rw (e, requested_max_parallel) (omega arith, omega arith)
      | inr (z, e) ↦ rw (e, requested_max_parallel) (clamp-bounds 1 10 z (omega arith))
    ]

stage_worker_count-bounds :
    (c : RuntimeContext) (specs : List CrewAgentSpec) (requested : ℕ)
    → requested ≤ 10
    → (1 ≤ stage_worker_count c specs requested) × (stage_worker_count c specs requested ≤ 10)
unfolding stage_worker_count
stage_worker_count-bounds c specs requested h = (ground (arith, h), ground (arith, h))

-- The limits on the threads of what has run
abbrev pub IsLimited : Progress → Type 0
IsLimited p =
    (1 ≤ p.effective_max_parallel)
    × (p.effective_max_parallel ≤ 10)
    × All (λ ((stage, workers) : String × ℕ). (1 ≤ workers) × (workers ≤ 10)) p.stage_worker_counts

run_stage-IsLimited :
    (c : RuntimeContext) (enabled : Bool) (specs : List CrewAgentSpec)
    (group : String × List CrewAgentSpec) (p : Progress)
    → IsLimited p
    → IsLimited (run_stage c enabled specs group p)
unfolding run_stage
run_stage-IsLimited c enabled specs (stage, group) p (low, high, counts) =
    let (a, b) =
      stage_worker_count-bounds c (stage_specs enabled p.selected_specialists stage group)
        (requested_max_parallel c) (requested_max_parallel-bounds c).1 in
    (
      omega (arith, low),
      omega (arith, high, b),
      All-append _ p.stage_worker_counts _ counts ((a, b), tt),
    )

run_stages-IsLimited :
    (c : RuntimeContext) (enabled : Bool) (specs : List CrewAgentSpec)
    (groups : List (String × List CrewAgentSpec)) (p : Progress)
    → IsLimited p
    → IsLimited (run_stages c enabled specs groups p)
unfolding run_stages
run_stages-IsLimited c enabled specs [] p h = h
run_stages-IsLimited c enabled specs (group ∷ rest) p h =
    run_stages-IsLimited c enabled specs rest (run_stage c enabled specs group p)
      (run_stage-IsLimited c enabled specs group p h)

planned_inj : {A : Type 0} (a b : A) → planned a ≡ planned b → a ≡ b
planned_inj a b h = cc h

-- A crew runs each stage on at least one and at most ten threads, and reports such a number as the
-- most that it used, whatever the configuration of the job says.
pub execute-IsLimited :
    (c : RuntimeContext) (specs : List CrewAgentSpec) (p : Progress)
    → execute c specs ≡ planned p
    → IsLimited p
unfolding execute
execute-IsLimited c specs p h =
    let (groups, plan, ran) = bind_planned-planned (build_stage_order specs) _ h in
    subst IsLimited (planned_inj _ p ran) (
      run_stages-IsLimited c (has_planner specs) specs groups (no_progress specs)
        (omega arith, omega arith, tt))
