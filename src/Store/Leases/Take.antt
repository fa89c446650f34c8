-- ===== src/Store/Leases/Take.antt =====
-- What `lease_next_job` returns and leaves behind when its transaction runs alone.
use Prim.Native.Nat.{max}
use ai_jsunpack.Prelude.{
  ℕ, ◌+◌, String, ◌≡◌, refl, true, false, Option, none, some, [], ◌∷◌, arith, inl, inr, str_eq,
  filter, All, Bool-cases,
}
use ai_jsunpack.Prelude.Table.{
  find, update, IsKeyed, rowcount-find, find-update_self, find-update_ne,
}
use ai_jsunpack.Prelude.Table.Rows.{AreRows, AreRows-self, All-filter, filter_passes, All-of_filter}
use ai_jsunpack.Store.Types.{leased, no_failure}
use ai_jsunpack.Store.Datetime.{Datetime, now_or}
use ai_jsunpack.Store.Jobs.{Job, Jobs, job_key, ok}
use ai_jsunpack.Store.Leases.{
  Collation, comes_before, is_eligible, can_take, set_leased, take_first, lease_next_job,
}
use ai_jsunpack.Store.Leases.Order.{
  IsTotal, comes_before-total, comes_before_trans, comes_before_refl,
}
use ai_jsunpack.Prelude.Sort.{
  order_by, IsOrdered, order_by-IsOrdered, All-order_by, All-of_order_by,
}

-- A row that the SELECT returned, and that nobody changed since, is taken.
can_take_self : (m : ℕ) (row : Job) → is_eligible m row ≡ true → can_take m row row ≡ true
unfolding is_eligible can_take
can_take_self m row h = ground arith

abbrev Leased : ℕ → String → String → String → Job → Jobs → Jobs
Leased m w e n row jobs = update job_key row.id (can_take m row) (set_leased w e n row) jobs

take_first-head :
    (m : ℕ) (w e n : String) (row : Job) (rows jobs : Jobs)
    → IsKeyed job_key jobs
    → find job_key row.id jobs ≡ some row
    → is_eligible m row ≡ true
    → take_first m w e n (row ∷ rows) jobs
      ≡ (some (set_leased w e n row row), Leased m w e n row jobs)
unfolding take_first
take_first-head m w e n row rows jobs keyed found eligible = ground (
  arith,
  can_take_self m row eligible,
  rowcount-find job_key row.id (can_take m row) jobs keyed,
  find-update_self job_key row.id (can_take m row) (set_leased w e n row) jobs (λ r. refl),
  found,
)

-- The row as the worker `w` has it after taking it at `n`, with a lease until `e`: every column that
-- is not named here is as it was.
abbrev pub leased_to : String → String → String → Job → Job
leased_to w e n row = record row {
  status = leased;
  run_attempt = row.run_attempt + 1;
  worker_lease = some (record { worker_id = w; expires_at = e });
  failure_class = no_failure;
  failure_reason = none;
  updated_at = n;
}

-- The row that `lease_next_job` takes: eligible, before every other eligible row, and leased.
pub record IsTaken (le : Collation) (m : ℕ) (w e n : String) (jobs : Jobs) (row j : Job)
    (jobs' : Jobs) : Type 0 where
  pub found : find job_key row.id jobs ≡ some row
  pub eligible : is_eligible m row ≡ true
  pub first : All (λ k. is_eligible m k ≡ true → comes_before le row k ≡ true) jobs
  pub result : j ≡ leased_to w e n row
  pub stored : find job_key row.id jobs' ≡ some j
  pub others : (k : String) → str_eq row.id k ≡ false → find job_key k jobs' ≡ find job_key k jobs

-- What taking a job from `jobs` may answer, and the table that it leaves.
abbrev pub LeaseOutcome :
    Collation → ℕ → String → String → String → Jobs → Option Job × Jobs → Type 0
LeaseOutcome le m w e n jobs (none, jobs') =
    (jobs' ≡ jobs) × All (λ k. is_eligible m k ≡ false) jobs
LeaseOutcome le m w e n jobs (some j, jobs') = (row : Job) × IsTaken le m w e n jobs row j jobs'

module _ (le : Collation) (t : IsTotal le) (m : ℕ) (w e n : String) (jobs : Jobs) where
  not_eligible :
      (ks : Jobs)
      → All (λ k. is_eligible m k ≡ true → is_eligible m k ≡ false) ks
      → All (λ k. is_eligible m k ≡ false) ks
  not_eligible [] h = tt
  not_eligible (k ∷ ks) h =
      (elim (Bool-cases (is_eligible m k)) [ inl y ↦ h.0 y | inr z ↦ z ], not_eligible ks h.1)

  take_first-LeaseOutcome :
      (cs : Jobs)
      → IsKeyed job_key jobs
      → order_by (comes_before le) (filter (is_eligible m) jobs) ≡ cs
      → LeaseOutcome le m w e n jobs (take_first m w e n cs jobs)
  take_first-LeaseOutcome [] keyed eq =
      unfold take_first in
      (
        refl,
        not_eligible jobs (
            All-of_filter (λ k. is_eligible m k ≡ false) (is_eligible m) jobs
              (All-of_order_by (comes_before le) (λ k. is_eligible m k ≡ false) _ (rw eq tt))),
      )
  take_first-LeaseOutcome (row ∷ rows) keyed eq =
      let found : AreRows job_key (row ∷ rows) jobs = rw eq at (
        All-order_by (comes_before le) _ _
          (All-filter _ (is_eligible m) jobs (AreRows-self job_key jobs keyed))) in
      let passes : All (λ k. is_eligible m k ≡ true) (row ∷ rows) =
        rw eq at (All-order_by (comes_before le) _ _ (filter_passes (is_eligible m) jobs)) in
      let sorted : IsOrdered (comes_before le) (row ∷ rows) = rw eq at (
        order_by-IsOrdered (comes_before le) (comes_before-total le t) (comes_before_trans le t)
          (filter (is_eligible m) jobs)) in
      rw (take_first-head m w e n row rows jobs keyed found.0 passes.0) (
        row,
        record {
          found = found.0;
          eligible = passes.0;
          first =
              All-of_filter (λ k. comes_before le row k ≡ true) (is_eligible m) jobs
                (All-of_order_by (comes_before le) (λ k. comes_before le row k ≡ true) _
                  (rw eq (comes_before_refl le t row, sorted.0)));
          result = unfold set_leased in refl;
          stored =
              unfold set_leased in
              ground (
                arith,
                can_take_self m row passes.0,
                found.0,
                find-update_self job_key row.id (can_take m row) (set_leased w e n row) jobs
                    (λ r. refl),
              );
          others = λ k ne.
              unfold set_leased in
              find-update_ne job_key row.id k (can_take m row) (set_leased w e n row) jobs
                (λ r. refl) ne;
        },
      )

-- `lease_next_job`, run alone, either takes the first eligible job in the order of creation, or finds
-- that no job is eligible and changes nothing. The job that it takes has status `leased`, one more
-- attempt, a lease of this worker that ends `lease_seconds` (at least 1) after the time of the call,
-- no failure and that time in `updated_at`; its other columns and every other job stay as they are.
pub lease_next_job_fifo :
    (d : Datetime) (le : Collation) (w : String) (secs m : ℕ) (now : Option String) (clock t : ℕ)
    (jobs : Jobs)
    → IsTotal le
    → IsKeyed job_key jobs
    → now_or d now clock ≡ some t
    → (r : Option Job × Jobs) × (lease_next_job d le w secs m now clock jobs jobs ≡ (ok r.0, r.1))
      × LeaseOutcome le
          (max 1 m)
          w
          (d.isoformat (t + d.seconds (max 1 secs)))
          (d.isoformat t)
          jobs
          r
unfolding lease_next_job
lease_next_job_fifo d le w secs m now clock t jobs total keyed at = (
  take_first (max 1 m) w (d.isoformat (t + d.seconds (max 1 secs))) (d.isoformat t)
      (order_by (comes_before le) (filter (is_eligible (max 1 m)) jobs)) jobs,
  rw (at, lease_next_job),
  take_first-LeaseOutcome le total (max 1 m) w (d.isoformat (t + d.seconds (max 1 secs)))
      (d.isoformat t) jobs (order_by (comes_before le) (filter (is_eligible (max 1 m)) jobs)) keyed
      refl,
)
