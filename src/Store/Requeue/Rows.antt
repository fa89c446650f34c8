-- ===== src/Store/Requeue/Rows.antt =====
-- `requeue_expired_leases` against its description row by row.
use Prim.Native.Nat.{max}
use mathlib.Core.Option
use ai_jsunpack.Prelude.{
  ℕ, String, ◌≡◌, refl, ◌∙◌, true, not, ◌&&◌, Option, none, some, List, [], ◌∷◌, arith, eq_iff, inl,
  inr, str_eq, if◌then◌else◌, filter, Bool-cases, Option-cases, leb, ltb, strip, Bool, false,
}
use ai_jsunpack.Prelude.Table.{
  find, update, IsFresh, IsKeyed, find-IsFresh, find-update_self, find-update_ne,
}
use ai_jsunpack.Prelude.Table.Rows.{
  AreRows, AreRows-self, AreRows-update, All-filter, IsKeyed-filter, find-filter, kept,
}
use ai_jsunpack.Store.Datetime.{Datetime, now_or, parse_timestamp, parse_timestamp-isoformat}
use ai_jsunpack.Store.Types.{queued, leased, failed, status_eq, no_failure, timeout, WorkerLease}
use ai_jsunpack.Store.Jobs.{Job, Jobs, job_key}
use ai_jsunpack.Store.Requeue.{
  lease_expires_at, timeout_reason, set_timed_out, set_requeued, is_held, is_leased, requeue_row,
  requeue_loop, requeue_expired_leases,
}

module _ (d : Datetime) (m t : ℕ) (now : String) where
  -- What the loop makes of the job of a row that it read.
  abbrev after : Option Job → Option Job → Option Job
  after none old = old
  after (some row) old = some (if is_held d t row then row else requeue_row m now row row)

  requeue_row-id : (row j : Job) → (requeue_row m now row j).id ≡ j.id
  unfolding requeue_row
  requeue_row-id row j = ground arith

  -- One round of the loop, on the table alone.
  requeue_one : Job → Jobs → Jobs
  requeue_one row jobs =
      if is_held d t row
      then jobs
      else update job_key row.id (λ _. true) (requeue_row m now row) jobs

  requeue_jobs : List Job → Jobs → Jobs
  requeue_jobs [] jobs = jobs
  requeue_jobs (row ∷ rows) jobs = requeue_jobs rows (requeue_one row jobs)

  requeue_loop-eq :
      (rows acc jobs : List Job) → (requeue_loop d m t now rows acc jobs).1 ≡ requeue_jobs rows jobs
  unfolding requeue_loop requeue_jobs requeue_one
  requeue_loop-eq [] acc jobs = refl
  requeue_loop-eq (row ∷ rows) acc jobs = requeue_loop-eq rows _ _

  find-requeue_one_self :
      (row : Job) (jobs : Jobs)
      → find job_key row.id jobs ≡ some row
      → find job_key row.id (requeue_one row jobs) ≡ after (some row) (some row)
  unfolding requeue_one
  find-requeue_one_self row jobs h = ground (
    arith,
    h,
    find-update_self job_key row.id (λ _. true) (requeue_row m now row) jobs (requeue_row-id row),
  )

  find-requeue_one_ne :
      (k : String) (row : Job) (jobs : Jobs)
      → str_eq row.id k ≡ false
      → find job_key k (requeue_one row jobs) ≡ find job_key k jobs
  unfolding requeue_one
  find-requeue_one_ne k row jobs ne = ground (
    arith,
    find-update_ne job_key row.id k (λ _. true) (requeue_row m now row) jobs (requeue_row-id row)
        ne,
  )

  requeue_one-AreRows :
      (row : Job) (rows jobs : List Job)
      → IsFresh job_key row.id rows
      → AreRows job_key rows jobs
      → AreRows job_key rows (requeue_one row jobs)
  unfolding requeue_one
  requeue_one-AreRows row rows jobs fresh h = elim (Bool-cases (is_held d t row)) [
    | inl e ↦ rw e h
    | inr e ↦ rw e (
        AreRows-update job_key row.id (λ _. true) (requeue_row m now row) rows jobs
          (requeue_row-id row) fresh h)
  ]

  find-requeue_jobs :
      (k : String) (rows jobs : List Job)
      → IsKeyed job_key rows
      → AreRows job_key rows jobs
      → find job_key k (requeue_jobs rows jobs) ≡ after (find job_key k rows) (find job_key k jobs)
  unfolding requeue_jobs find
  find-requeue_jobs k [] jobs keyed h = refl
  find-requeue_jobs k (row ∷ rows) jobs keyed h =
      let ih =
        find-requeue_jobs k rows (requeue_one row jobs) keyed.1
          (requeue_one-AreRows row rows jobs keyed.0 h.1) in
      elim (Bool-cases (str_eq k row.id)) [
        | inl e ↦
            let same : k ≡ row.id = (eq_iff k row.id).0 e in
            let fresh : IsFresh job_key k rows = rw same keyed.0 in
            let stored : find job_key k (requeue_one row jobs) ≡ after (some row) (some row) =
              rw same (find-requeue_one_self row jobs h.0) in
            rw e (ih ∙ rw (find-IsFresh job_key k rows fresh) stored)
        | inr e ↦
            let ne : str_eq row.id k ≡ false =
              ground (arith, e, eq_iff row.id k, eq_iff k row.id) in
            rw e (rw (find-requeue_one_ne k row jobs ne) at ih)
      ]

-- The lease has an end, which can be read and is not after `t`.
abbrev pub has_ended : Datetime → ℕ → Option WorkerLease → Bool
has_ended d t none = false
has_ended d t (some lease) =
    not (str_eq (strip lease.expires_at) "")
    && elim (parse_timestamp d lease.expires_at) [ none ↦ false | some end ↦ leb end t ]

-- What becomes of one job at the time `t`.
abbrev pub requeued : Datetime → ℕ → ℕ → String → Job → Job
requeued d m t now j =
    if not (status_eq j.status leased && has_ended d t j.worker_lease)
    then j
    else if leb m j.run_attempt
    then record j {
      status = failed;
      worker_lease = none;
      failure_class = timeout;
      failure_reason = some (timeout_reason j.run_attempt);
      updated_at = now;
    }
    else record j {
      status = queued;
      worker_lease = none;
      failure_class = no_failure;
      failure_reason = some "上一个 Worker lease 已过期；Job 已返回 queue。";
      updated_at = now;
    }

has_ended-lease_expires_at :
    (d : Datetime) (t : ℕ) (lease : Option WorkerLease)
    → has_ended d t lease
      ≡ not (elim (lease_expires_at d lease) [ none ↦ true | some end ↦ ltb t end ])
unfolding lease_expires_at
has_ended-lease_expires_at d t none = refl
has_ended-lease_expires_at d t (some lease) =
    elim (Option-cases (parse_timestamp d lease.expires_at)) [
      | inl r ↦ rw r (ground arith)
      | inr (end, r) ↦ rw r (ground arith)
    ]

has_ended-is_held :
    (d : Datetime) (t : ℕ) (j : Job) → has_ended d t j.worker_lease ≡ not (is_held d t j)
unfolding is_held
has_ended-is_held d t j = has_ended-lease_expires_at d t j.worker_lease

pub requeued_lem :
    (d : Datetime) (m t : ℕ) (now : String) (j : Job)
    → requeued d m t now j
      ≡ (if is_leased j && not (is_held d t j) then requeue_row m now j j else j)
unfolding requeue_row set_timed_out set_requeued
requeued_lem d m t now j = ground (arith, has_ended-is_held d t j)

after-kept :
    (d : Datetime) (m t : ℕ) (now : String) (o : Option Job)
    → after d m t now (kept job_key is_leased o) o ≡ Option.map (requeued d m t now) o
unfolding requeue_row set_timed_out set_requeued
after-kept d m t now none = refl
after-kept d m t now (some j) = ground (arith, has_ended-is_held d t j)

-- `requeue_expired_leases` does to each job, whatever its place in the table, exactly this: a
-- leased job whose lease has a readable end that is past goes back to the queue, or fails with
-- `timeout` where no attempt is left; every other job, deleted or not, stays as it is.
pub find-requeue_expired_leases :
    (d : Datetime) (m : ℕ) (now : Option String) (clock t : ℕ) (k : String) (jobs : Jobs)
    → IsKeyed job_key jobs
    → now_or d now clock ≡ some t
    → find job_key k (requeue_expired_leases d m now clock jobs).1
      ≡ Option.map (requeued d (max 1 m) t (d.isoformat t)) (find job_key k jobs)
unfolding requeue_expired_leases
find-requeue_expired_leases d m now clock t k jobs keyed at =
    rw (at, parse_timestamp-isoformat d t, requeue_expired_leases)
      (rw (requeue_loop-eq d (max 1 m) t (d.isoformat t)) (
        find-requeue_jobs d (max 1 m) t (d.isoformat t) k (filter is_leased jobs) jobs
          (IsKeyed-filter job_key is_leased jobs keyed)
          (All-filter _ is_leased jobs (AreRows-self job_key jobs keyed))
        ∙ (rw (find-filter job_key k is_leased jobs keyed)
            (after-kept d (max 1 m) t (d.isoformat t) (find job_key k jobs)))))
