-- ===== src/Store/Leases/Takeover.antt =====
-- `lease_next_job` of apps/api/app/store.py on a job that a worker runs in `intake`.
use Prim.Native.Nat.{max}
use ai_jsunpack.Prelude.{
  ℕ, ◌+◌, ◌<◌, String, ◌≡◌, true, Option, none, some, arith, All, is_some, str_eq, false, refl, sym,
  ap, ◌∙◌, ◌⊎◌, inl, inr,
}
use ai_jsunpack.Prelude.Table.{find, IsKeyed}
use ai_jsunpack.Prelude.Table.Moves.{All-find}
use ai_jsunpack.Store.Types.{intake}
use ai_jsunpack.Store.Datetime.{Datetime, now_or}
use ai_jsunpack.Store.Jobs.{Job, Jobs, job_key, is_live, ok}
use ai_jsunpack.Store.Leases.{Collation, comes_before, is_eligible, lease_next_job}
use ai_jsunpack.Store.Leases.Order.{IsTotal}
use ai_jsunpack.Store.Leases.Take.{leased_to, LeaseOutcome, lease_next_job_fifo}
use ai_jsunpack.Store.Requeue.{lease_expires_at}

-- A job that a worker runs in `intake` under a lease that ends after `t`.
pub record RunsInIntake (d : Datetime) (t m : ℕ) (j : Job) : Type 0 where
  pub in_intake : j.status ≡ intake
  pub live : is_live j ≡ true
  pub has_input : is_some j.input_artifact_id ≡ true
  pub has_attempts : j.run_attempt < m
  pub ends : ℕ
  pub leased_until : lease_expires_at d j.worker_lease ≡ some ends
  pub not_expired : t < ends

RunsInIntake-eligible :
    (d : Datetime) (t m : ℕ) (j : Job) → RunsInIntake d t m j → is_eligible m j ≡ true
unfolding is_eligible
RunsInIntake-eligible d t m j h =
    rw h.in_intake (ground (arith, h.live, h.has_input, h.has_attempts))

-- `lease_next_job` gives a job that a worker runs in `intake` to whoever asks next, although the
-- lease of that worker has not expired, when the job has an attempt left and comes before every other
-- eligible job: in the answer and in the table the job then has the lease of the worker that asked and
-- one more attempt, and every other job stays as it is.
pub lease_next_job_takeover :
    (d : Datetime) (le : Collation) (w : String) (secs m : ℕ) (now : Option String) (clock t : ℕ)
    (j : Job) (jobs : Jobs)
    → IsTotal le
    → IsKeyed job_key jobs
    → now_or d now clock ≡ some t
    → find job_key j.id jobs ≡ some j
    → RunsInIntake d t (max 1 m) j
    → All (λ k. is_eligible (max 1 m) k ≡ true → (k ≡ j) ⊎ (comes_before le k j ≡ false)) jobs
    → (jobs' : Jobs) × (lease_next_job d le w secs m now clock jobs jobs ≡ (
      ok (some (leased_to w (d.isoformat (t + d.seconds (max 1 secs))) (d.isoformat t) j)),
      jobs',
    ))
      × (find job_key j.id jobs'
          ≡ some (leased_to w (d.isoformat (t + d.seconds (max 1 secs))) (d.isoformat t) j))
      × ((k : String) → str_eq j.id k ≡ false → find job_key k jobs' ≡ find job_key k jobs)
lease_next_job_takeover d le w secs m now clock t j jobs total keyed read found runs only =
    let (r, eq, outcome) = lease_next_job_fifo d le w secs m now clock t jobs total keyed read in
    go r eq outcome
  where
    e : String
    e = d.isoformat (t + d.seconds (max 1 secs))

    eligible : is_eligible (max 1 m) j ≡ true
    eligible = RunsInIntake-eligible d t (max 1 m) j runs

    go :
        (r : Option Job × Jobs)
        → lease_next_job d le w secs m now clock jobs jobs ≡ (ok r.0, r.1)
        → LeaseOutcome le (max 1 m) w e (d.isoformat t) jobs r
        → (jobs' : Jobs) × (lease_next_job d le w secs m now clock jobs jobs
            ≡ (ok (some (leased_to w e (d.isoformat t) j)), jobs'))
          × (find job_key j.id jobs' ≡ some (leased_to w e (d.isoformat t) j))
          × ((k : String) → str_eq j.id k ≡ false → find job_key k jobs' ≡ find job_key k jobs)
    go (none, jobs') eq (same, nobody) =
        absurd (cc (All-find job_key _ jobs j.id j nobody found, eligible))
    go (some k, jobs') eq (row, taken) =
        let it : row ≡ j =
          elim (All-find job_key _ jobs row.id row only taken.found taken.eligible) [
            | inl same ↦ same
            | inr after ↦
                absurd (cc (after, All-find job_key _ jobs j.id j taken.first found eligible))
          ] in
        let result : k ≡ leased_to w e (d.isoformat t) j = rw it at taken.result in
        (
          jobs',
          rw eq (rw result refl),
          (ap (λ (x : Job). find job_key x.id jobs') (sym it) ∙ taken.stored)
              ∙ ap (λ x. some x) result,
          λ i other. taken.others i (rw it other),
        )
