-- ===== src/Store/Leases.antt =====
-- The worker queue in apps/api/app/store.py: `lease_next_job`, `renew_lease` and
-- `requeue_expired_leases`. A negative `lease_seconds` or `max_attempts` acts as 0 does.
pub mod Order
pub mod Take
pub mod Takeover
use Prim.Native.Nat.{max}
use ai_jsunpack.Prelude.{
  ℕ, ◌+◌, String, Bool, true, false, ◌&&◌, Option, none, some, List, [], ◌∷◌, ◌==◌, ltb, is_some,
  if◌then◌else◌, filter,
}
use ai_jsunpack.Prelude.Sort.{order_by}
use ai_jsunpack.Prelude.Table.{find, update, rowcount}
use ai_jsunpack.Store.Types.{leased, status_eq, is_terminal, is_queue_eligible, no_failure}
use ai_jsunpack.Store.Datetime.{Datetime, now_or}
use ai_jsunpack.Store.Jobs.{
  Job, Jobs, job_key, key_error, value_error, Result, ok, err, is_live, find_live, is_not_holder,
}

-- The database's order of texts, behind ORDER BY.
abbrev pub Collation : Type 0
Collation = String → String → Bool

-- ORDER BY created_at, id
abbrev pub comes_before : Collation → Job → Job → Bool
comes_before le a b =
    if le a.created_at b.created_at
    then (if le b.created_at a.created_at then le a.id b.id else true)
    else false

-- The WHERE of the candidates' SELECT.
unfoldable pub is_eligible : ℕ → Job → Bool
unfolding is_queue_eligible
is_eligible max_attempts j =
    is_queue_eligible j.status
    && is_live j
    && is_some j.input_artifact_id
    && ltb j.run_attempt max_attempts

-- The WHERE of the UPDATE that takes a candidate: its status is still the one that was read.
unfoldable pub can_take : ℕ → Job → Job → Bool
can_take max_attempts row j =
    status_eq j.status row.status
    && is_live j
    && is_some j.input_artifact_id
    && ltb j.run_attempt max_attempts

-- The columns that this UPDATE sets; `row` is the row that was read.
unfoldable pub set_leased : String → String → String → Job → Job → Job
set_leased worker_id expires_at now row j = record j {
  status = leased;
  run_attempt = row.run_attempt + 1;
  worker_lease = some (record { worker_id = worker_id; expires_at = expires_at });
  failure_class = no_failure;
  failure_reason = none;
  updated_at = now;
}

-- The loop over the candidates that the SELECT returned, on the table as it is by now. Another
-- transaction may have changed the table in between, so the candidates are an argument.
unfoldable pub take_first : ℕ → String → String → String → List Job → Jobs → Option Job × Jobs
unfolding can_take set_leased
take_first max_attempts worker_id expires_at now [] jobs = (none, jobs)
take_first max_attempts worker_id expires_at now (row ∷ rows) jobs =
    let rest = take_first max_attempts worker_id expires_at now rows jobs in
    let taken =
      update job_key row.id (can_take max_attempts row) (set_leased worker_id expires_at now row)
        jobs in
    if rowcount job_key row.id (can_take max_attempts row) jobs == 0
    then rest
    else elim (find job_key row.id taken) [
      | none ↦ take_first max_attempts worker_id expires_at now rows taken
      | some leased_row ↦ (some leased_row, taken)
    ]

-- `lease_next_job`, with the candidates read from `seen` and the updates made on `jobs`. In a
-- database that runs one transaction at a time the two are one table.
unfoldable pub lease_next_job :
    Datetime
    → Collation
    → String
    → ℕ
    → ℕ
    → Option String
    → ℕ
    → Jobs
    → Jobs
    → Result (Option Job) × Jobs
unfolding is_eligible order_by take_first now_or
lease_next_job d le worker_id lease_seconds max_attempts now clock seen jobs =
    elim (now_or d now clock) [
      | none ↦ (err value_error, jobs)
      | some leased_at ↦
          let (taken, jobs') =
            take_first (max 1 max_attempts) worker_id
              (d.isoformat (leased_at + d.seconds (max 1 lease_seconds))) (d.isoformat leased_at)
              (order_by (comes_before le) (filter (is_eligible (max 1 max_attempts)) seen)) jobs in
          (ok taken, jobs')
    ]

unfoldable pub set_renewed : String → String → String → Job → Job
set_renewed worker_id expires_at now j = record j {
  worker_lease = some (record { worker_id = worker_id; expires_at = expires_at });
  updated_at = now;
}

unfoldable pub renew_lease :
    Datetime → String → String → ℕ → Option String → ℕ → Jobs → Result (Option Job) × Jobs
unfolding now_or find_live is_terminal is_not_holder set_renewed
renew_lease d job_id worker_id lease_seconds now clock jobs = elim (now_or d now clock) [
  | none ↦ (err value_error, jobs)
  | some renewed_at ↦ elim (find_live job_id jobs) [
    | none ↦ (err key_error, jobs)
    | some job ↦
        if is_terminal job.status
        then (ok none, jobs)
        else if is_not_holder job.worker_lease worker_id
        then (ok none, jobs)
        else let renewed =
            update job_key job_id (λ _. true)
              (set_renewed worker_id (d.isoformat (renewed_at + d.seconds (max 1 lease_seconds)))
                (d.isoformat renewed_at))
              jobs in
          (ok (find job_key job_id renewed), renewed)
  ]
]
