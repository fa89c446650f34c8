-- ===== src/Worker/Proxy/Fence.antt =====
-- The status updates of a worker that does not hold the lease, through `LeasedStoreProxy` of
-- apps/worker/worker/queue.py.
use Prim.Native.Nat.{max}
use mathlib.Core.Path.{subst}
use ai_jsunpack.Prelude.{
  ℕ, ◌+◌, String, ◌≡◌, sym, ap, ◌∙◌, true, false, Option, none, some, arith, str_eq, str_eq_refl,
}
use ai_jsunpack.Prelude.Table.{find, IsKeyed}
use ai_jsunpack.Store.Types.{JobStatus, FailureClass}
use ai_jsunpack.Store.Datetime.{Datetime, now_or}
use ai_jsunpack.Store.Jobs.{Job, Jobs, job_key, is_live, is_not_holder, ok, update_status}
use ai_jsunpack.Store.Leases.{Collation, is_eligible, lease_next_job}
use ai_jsunpack.Store.Leases.Order.{IsTotal}
use ai_jsunpack.Store.Leases.Take.{leased_to, IsTaken, LeaseOutcome, lease_next_job_fifo}
use ai_jsunpack.Worker.Proxy.{LeasedStoreProxy, proxy_update_status}

module _ (proxy : LeasedStoreProxy) (status : JobStatus) (reason : Option String)
    (failure : Option FailureClass) (now : String) where
  -- A worker that does not hold the lease of its job changes nothing by any status update that its
  -- pipeline makes through the proxy, and is told the row as it is.
  pub proxy_update_status-not_holder :
      (j : Job) (jobs : Jobs)
      → find job_key proxy.job_id jobs ≡ some j
      → is_live j ≡ true
      → is_not_holder j.worker_lease proxy.worker_id ≡ true
      → proxy_update_status proxy proxy.job_id status reason failure none now jobs ≡ (ok j, jobs)
  unfolding proxy_update_status update_status
  proxy_update_status-not_holder j jobs found live lost = ground (arith, str_eq_refl proxy.job_id)

  taken_fences :
      (le : Collation) (m : ℕ) (w e n : String) (jobs : Jobs) (row j : Job) (jobs' : Jobs)
      → IsTaken le m w e n jobs row j jobs'
      → j.id ≡ proxy.job_id
      → str_eq w proxy.worker_id ≡ false
      → proxy_update_status proxy proxy.job_id status reason failure none now jobs' ≡ (ok j, jobs')
  taken_fences le m w e n jobs row j jobs' taken same other =
      let result : j ≡ leased_to w e n row = taken.result in
      let row_id : row.id ≡ proxy.job_id = sym (ap (λ (x : Job). x.id) result) ∙ same in
      proxy_update_status-not_holder j jobs' (rw row_id at taken.stored)
        (rw result (unfold is_eligible in ground (arith, taken.eligible)))
        (rw result (unfold is_not_holder in ground (arith, other)))

  -- Once `lease_next_job` has given a job to a worker, the pipeline of any other worker that still
  -- runs that job changes nothing by its status updates.
  pub lease_next_job-fences :
      (d : Datetime) (le : Collation) (w : String) (secs m : ℕ) (at : Option String) (clock t : ℕ)
      (jobs : Jobs) (j : Job) (jobs' : Jobs)
      → IsTotal le
      → IsKeyed job_key jobs
      → now_or d at clock ≡ some t
      → lease_next_job d le w secs m at clock jobs jobs ≡ (ok (some j), jobs')
      → j.id ≡ proxy.job_id
      → str_eq w proxy.worker_id ≡ false
      → proxy_update_status proxy proxy.job_id status reason failure none now jobs' ≡ (ok j, jobs')
  lease_next_job-fences d le w secs m at clock t jobs j jobs' total keyed read leased_it same
        other =
      let (r, eq, outcome) = lease_next_job_fifo d le w secs m at clock t jobs total keyed read in
      let answer : r ≡ (some j, jobs') = ground (arith, eq, leased_it) in
      let (row, taken) =
        subst
          (λ x.
            LeaseOutcome le (max 1 m) w (d.isoformat (t + d.seconds (max 1 secs))) (d.isoformat t)
              jobs x)
          answer outcome in
      taken_fences le (max 1 m) w _ _ jobs row j jobs' taken same other
