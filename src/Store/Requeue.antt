-- ===== src/Store/Requeue.antt =====
-- `requeue_expired_leases` of apps/api/app/store.py.
pub mod Rows
use Prim.Native.Nat.{max}
use ai_jsunpack.Prelude.{
  ℕ, String, Bool, true, Option, none, some, List, [], ◌∷◌, ◌++◌, leb, ltb, str_eq, strip, str,
  text_append, if◌then◌else◌, filter,
}
use ai_jsunpack.Prelude.Table.{find, update}
use ai_jsunpack.Store.Types.{queued, leased, failed, status_eq, no_failure, timeout, WorkerLease}
use ai_jsunpack.Store.Datetime.{Datetime, parse_timestamp, now_or}
use ai_jsunpack.Store.Jobs.{Job, Jobs, job_key, value_error, Result, ok, err}

-- A blank or unreadable time is `none`.
unfoldable pub lease_expires_at : Datetime → Option WorkerLease → Option ℕ
unfolding strip parse_timestamp
lease_expires_at d none = none
lease_expires_at d (some lease) =
    if str_eq (strip lease.expires_at) "" then none else parse_timestamp d lease.expires_at

unfoldable pub timeout_reason : ℕ → String
unfolding str
timeout_reason attempt =
    text_append "Worker lease 在第 " (text_append (str attempt) " 次 attempt 后过期。")

unfoldable pub set_timed_out : String → Job → Job → Job
set_timed_out now row j = record j {
  status = failed;
  worker_lease = none;
  failure_class = timeout;
  failure_reason = some (timeout_reason row.run_attempt);
  updated_at = now;
}

unfoldable pub set_requeued : String → Job → Job
set_requeued now j = record j {
  status = queued;
  worker_lease = none;
  failure_class = no_failure;
  failure_reason = some "上一个 Worker lease 已过期；Job 已返回 queue。";
  updated_at = now;
}

-- `expires_at is None or expires_at > current_time`
unfoldable pub is_held : Datetime → ℕ → Job → Bool
unfolding lease_expires_at
is_held d current_time row = elim (lease_expires_at d row.worker_lease) [
  | none ↦ true
  | some t ↦ ltb current_time t
]

-- What the loop does to the job of one row that it read.
unfoldable pub requeue_row : ℕ → String → Job → Job → Job
unfolding set_timed_out set_requeued
requeue_row max_attempts now row j =
    if leb max_attempts row.run_attempt then set_timed_out now row j else set_requeued now j

unfoldable pub requeue_loop :
    Datetime → ℕ → ℕ → String → List Job → List Job → Jobs → List Job × Jobs
unfolding is_held requeue_row
requeue_loop d max_attempts current_time now [] updated_jobs jobs = (updated_jobs, jobs)
requeue_loop d max_attempts current_time now (row ∷ rows) updated_jobs jobs =
    let jobs' =
      if is_held d current_time row
      then jobs
      else update job_key row.id (λ _. true) (requeue_row max_attempts now row) jobs in
    let updated =
      if is_held d current_time row then updated_jobs else elim (find job_key row.id jobs') [
        | none ↦ updated_jobs
        | some j ↦ updated_jobs ++ j ∷ []
      ] in
    requeue_loop d max_attempts current_time now rows updated jobs'

-- SELECT ... WHERE status = 'leased'
abbrev pub is_leased : Job → Bool
is_leased j = status_eq j.status leased

-- `now` is read, printed and read again.
unfoldable pub requeue_expired_leases :
    Datetime → ℕ → Option String → ℕ → Jobs → Result (List Job) × Jobs
unfolding requeue_loop now_or parse_timestamp
requeue_expired_leases d max_attempts now clock jobs = elim (now_or d now clock) [
  | none ↦ (err value_error, jobs)
  | some t ↦ elim (parse_timestamp d (d.isoformat t)) [
    | none ↦ (err value_error, jobs)
    | some current_time ↦
        let (updated, jobs') =
          requeue_loop d (max 1 max_attempts) current_time (d.isoformat t) (filter is_leased jobs)
            [] jobs in
        (ok updated, jobs')
  ]
]
