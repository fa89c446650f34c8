-- ===== src/Store/Types.antt =====
-- apps/api/app/models.py and the tables of apps/api/app/store.py: the rows and their enumerations.
-- An enumeration of the source is a data type, and `status_eq` compares by the position in it.
use ai_jsunpack.Prelude.{
  ℕ, zero, suc, String, ◌≡◌, ◌↔◌, refl, ap, Bool, true, false, ◌==◌, ==_iff, sym, ◌∙◌,
}

pub data JobStatus : Type 0 where
  queued leased intake planning parsing indexing analyzing agent_planning agent_pass reconstructing
        building typechecking runtime_smoke runtime_compare reviewing repairing packaging completed
        completed_best_effort failed cancelled :
      JobStatus

-- Position in the `Literal`.
abbrev pub status_code : JobStatus → ℕ
status_code queued = 0
status_code leased = 1
status_code intake = 2
status_code planning = 3
status_code parsing = 4
status_code indexing = 5
status_code analyzing = 6
status_code agent_planning = 7
status_code agent_pass = 8
status_code reconstructing = 9
status_code building = 10
status_code typechecking = 11
status_code runtime_smoke = 12
status_code runtime_compare = 13
status_code reviewing = 14
status_code repairing = 15
status_code packaging = 16
status_code completed = 17
status_code completed_best_effort = 18
status_code failed = 19
status_code cancelled = 20

-- `a == b` on statuses
abbrev pub status_eq : JobStatus → JobStatus → Bool
status_eq a b = status_code a == status_code b

-- the status at a position; past the end it does not matter which
status_at : ℕ → JobStatus
status_at zero = queued
status_at (suc zero) = leased
status_at (suc (suc zero)) = intake
status_at (suc (suc (suc zero))) = planning
status_at (suc (suc (suc (suc zero)))) = parsing
status_at (suc (suc (suc (suc (suc zero))))) = indexing
status_at (suc (suc (suc (suc (suc (suc zero)))))) = analyzing
status_at (suc (suc (suc (suc (suc (suc (suc zero))))))) = agent_planning
status_at (suc (suc (suc (suc (suc (suc (suc (suc zero)))))))) = agent_pass
status_at (suc (suc (suc (suc (suc (suc (suc (suc (suc zero))))))))) = reconstructing
status_at (suc (suc (suc (suc (suc (suc (suc (suc (suc (suc zero)))))))))) = building
status_at (suc (suc (suc (suc (suc (suc (suc (suc (suc (suc (suc zero))))))))))) = typechecking
status_at (suc (suc (suc (suc (suc (suc (suc (suc (suc (suc (suc (suc zero)))))))))))) =
    runtime_smoke
status_at (suc (suc (suc (suc (suc (suc (suc (suc (suc (suc (suc (suc (suc zero))))))))))))) =
    runtime_compare
status_at (suc (suc (suc (suc (suc (suc (suc (suc (suc (suc (suc (suc (suc (suc zero)))))))))))))) =
    reviewing
status_at
      (suc
        (suc (suc (suc (suc (suc (suc (suc (suc (suc (suc (suc (suc (suc (suc zero))))))))))))))) =
    repairing
status_at
      (suc (
        suc (
          suc
            (suc (suc (suc (suc (suc (suc (suc (suc (suc (suc (suc (suc (suc zero)))))))))))))))) =
    packaging
status_at
      (suc (
        suc (
          suc (
            suc (
              suc
                (suc (suc (suc (suc (suc (suc (suc (suc (suc (suc (suc (suc zero))))))))))))))))) =
    completed
status_at
      (suc (
        suc (
          suc (
            suc (
              suc (
                suc (
                  suc
                    (suc (suc (suc (suc (suc (suc (suc (suc (suc (suc (suc zero)))))))))))))))))) =
    completed_best_effort
status_at
      (suc (
        suc (
          suc (
            suc (
              suc (
                suc (
                  suc (
                    suc (
                      suc
                        (suc (suc (suc (suc (suc (suc (suc (suc (suc (suc zero))))))))))))))))))) =
    failed
status_at _ = cancelled

status_at-status_code : (a : JobStatus) → status_at (status_code a) ≡ a
unfolding status_at
status_at-status_code queued = refl
status_at-status_code _ = refl

pub status_eq_iff : (a b : JobStatus) → (status_eq a b ≡ true) ↔ (a ≡ b)
status_eq_iff a b = (
  λ h. sym (status_at-status_code a) ∙ ap status_at ((==_iff _ _).0 h) ∙ status_at-status_code b,
  λ h. (==_iff _ _).1 (ap status_code h),
)

-- `status in TERMINAL_JOB_STATUSES`
unfoldable pub is_terminal : JobStatus → Bool
is_terminal completed = true
is_terminal completed_best_effort = true
is_terminal failed = true
is_terminal cancelled = true
is_terminal _ = false

-- `status in QUEUE_ELIGIBLE_STATUSES`
unfoldable pub is_queue_eligible : JobStatus → Bool
is_queue_eligible queued = true
is_queue_eligible intake = true
is_queue_eligible _ = false

pub data FailureClass : Type 0 where
  no_failure invalid_input parse_error agent_failed dependency_missing install_failed type_error
        build_error runtime_error sandbox_denied policy_denied timeout resource_limit unknown :
      FailureClass

pub data CloudMode : Type 0 where
  cloud_allowed local_only desensitized : CloudMode

pub data InputKind : Type 0 where
  single_script archive folder : InputKind

pub data DeliveryKind : Type 0 where
  single_file project_package : DeliveryKind

pub record WorkerLease : Type 0 where
  pub worker_id : String
  pub expires_at : String
