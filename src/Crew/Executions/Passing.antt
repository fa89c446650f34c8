-- ===== src/Crew/Executions/Passing.antt =====
-- What the statuses of the stages and of the crew say of the agents.
use ai_jsunpack.Prelude.{
  ◌≡◌, refl, sym, ◌∙◌, ap, String, Bool, true, false, not, ◌&&◌, ◌||◌, List, [], ◌∷◌, map,
  if◌then◌else◌, str_eq, arith,
}
use ai_jsunpack.Crew.Executions.{
  ExecutionStatus, pass, retry, best_effort, fail, skipped, has_status, are_all_skipped,
  stage_status, runtime_status, CrewAgentExecution, status_of, stage_execution,
}

-- A status is `pass`.
abbrev pub is_pass : ExecutionStatus → Bool
is_pass pass = true
is_pass _ = false

abbrev pub all_pass : List ExecutionStatus → Bool
all_pass [] = true
all_pass (s ∷ rest) = is_pass s && all_pass rest

abbrev lacks_all : List ExecutionStatus → Bool
lacks_all xs = not (
    has_status fail xs || has_status best_effort xs || has_status retry xs || has_status skipped xs)

all_pass-lacks_all : (xs : List ExecutionStatus) → all_pass xs ≡ lacks_all xs
unfolding has_status
all_pass-lacks_all [] = refl
all_pass-lacks_all (pass ∷ rest) = all_pass-lacks_all rest
all_pass-lacks_all (retry ∷ rest) = ground arith
all_pass-lacks_all (best_effort ∷ rest) = ground arith
all_pass-lacks_all (fail ∷ rest) = ground arith
all_pass-lacks_all (skipped ∷ rest) = ground arith

is_pass-choice :
    (f b r a s : Bool)
    → is_pass (
        if f
        then fail
        else if b
        then best_effort
        else if r
        then retry
        else if s && a
        then skipped
        else if s
        then best_effort
        else pass)
      ≡ not (f || b || r || s)
is_pass-choice true b r a s = refl
is_pass-choice false true r a s = refl
is_pass-choice false false true a s = refl
is_pass-choice false false false true true = refl
is_pass-choice false false false true false = refl
is_pass-choice false false false false true = refl
is_pass-choice false false false false false = refl

is_pass-stage_status : (xs : List ExecutionStatus) → is_pass (stage_status xs) ≡ all_pass xs
unfolding stage_status are_all_skipped
is_pass-stage_status xs =
    is_pass-choice (has_status fail xs) (has_status best_effort xs) (has_status retry xs) _
      (has_status skipped xs)
    ∙ sym (all_pass-lacks_all xs)

completed-choice :
    (f b r s : Bool)
    → str_eq
        (if f then "agent_failed" else if b || r || s then "completed_best_effort" else "completed")
        "completed"
      ≡ not (f || b || r || s)
completed-choice true b r s = refl
completed-choice false true r s = refl
completed-choice false false true s = refl
completed-choice false false false true = refl
completed-choice false false false false = refl

runtime_status-all_pass :
    (xs : List ExecutionStatus) → str_eq (runtime_status xs) "completed" ≡ all_pass xs
unfolding runtime_status
runtime_status-all_pass xs =
    completed-choice (has_status fail xs) (has_status best_effort xs) (has_status retry xs)
      (has_status skipped xs)
    ∙ sym (all_pass-lacks_all xs)

-- Every agent of every stage passed.
unfoldable pub all_agents_pass : List (String × List CrewAgentExecution) → Bool
all_agents_pass [] = true
all_agents_pass ((stage, executions) ∷ rest) =
    all_pass (map status_of executions) && all_agents_pass rest

abbrev pub recorded_status : String × List CrewAgentExecution → ExecutionStatus
recorded_status (stage, executions) = (stage_execution stage executions).status

all_pass-stages :
    (stages : List (String × List CrewAgentExecution))
    → all_pass (map recorded_status stages) ≡ all_agents_pass stages
unfolding all_agents_pass stage_execution
all_pass-stages [] = refl
all_pass-stages ((stage, executions) ∷ rest) =
    rw (is_pass-stage_status (map status_of executions))
      (ap (λ b. all_pass (map status_of executions) && b) (all_pass-stages rest))

-- The crew is reported as `completed` exactly when every agent of every stage ended with `pass`.
pub runtime_status-all_agents_pass :
    (stages : List (String × List CrewAgentExecution))
    → str_eq (runtime_status (map recorded_status stages)) "completed" ≡ all_agents_pass stages
runtime_status-all_agents_pass stages =
    runtime_status-all_pass (map recorded_status stages) ∙ all_pass-stages stages
