-- ===== src/Store/History/Queue.antt =====
-- The calls of the workers' queue, as transactions of a history.
use Prim.Native.Nat.{max}
use ai_jsunpack.Prelude.{
  ℕ, ◌+◌, String, ◌≡◌, ◌⊎◌, refl, Bool, true, false, Option, none, some, List, [], ◌∷◌, arith, inl,
  inr, if◌then◌else◌, filter, All, Bool-cases, Option-cases, ◌==◌,
}
use ai_jsunpack.Prelude.Sort.{order_by, All-order_by}
use ai_jsunpack.Prelude.Table.{
  find, update, rowcount, IsKeyed, update-IsKeyed, append-IsKeyed, IsFresh-find, find-append,
}
use ai_jsunpack.Prelude.Table.Rows.{
  AreRows, AreRows-self, All-filter, filter_passes, find-update-some,
}
use ai_jsunpack.Store.Types.{is_terminal}
use ai_jsunpack.Store.Datetime.{Datetime, now_or, parse_timestamp-isoformat}
use ai_jsunpack.Store.Jobs.{Job, Jobs, job_key, insert_job}
use ai_jsunpack.Store.Leases.{
  Collation, comes_before, is_eligible, can_take, set_leased, take_first, lease_next_job,
  set_renewed, renew_lease,
}
use ai_jsunpack.Store.Requeue.{
  requeue_expired_leases, requeue_loop, is_held, is_leased, requeue_row,
}
use ai_jsunpack.Store.Requeue.Rows.{requeued, find-requeue_expired_leases}
use ai_jsunpack.Store.History.Follows.{
  Follows, Follows-refl, set_leased-Follows, set_renewed-Follows, requeued-Follows,
}
use ai_jsunpack.Store.History.Calls.{Advances, Advances-refl, Advances-update, guarded-Advances}

-- Rows that a SELECT for the queue returned from this table.
take_first-Advances :
    (m : ℕ) (w e n : String) (rows jobs : List Job)
    → IsKeyed job_key jobs
    → AreRows job_key rows jobs
    → All (λ r. is_eligible m r ≡ true) rows
    → Advances jobs (take_first m w e n rows jobs).1
unfolding take_first
take_first-Advances m w e n [] jobs keyed found passes = Advances-refl jobs keyed
take_first-Advances m w e n (row ∷ rows) jobs keyed found passes =
    elim (Bool-cases (rowcount job_key row.id (can_take m row) jobs == 0)) [
      | inl skipped ↦ rw skipped (take_first-Advances m w e n rows jobs keyed found.1 passes.1)
      | inr taken ↦
          let stored =
            find-update-some job_key row.id (can_take m row) (set_leased w e n row) jobs (λ r. refl)
              taken in
          rw taken (
            rw stored.1 (
              Advances-update row.id (can_take m row) (set_leased w e n row) jobs (λ r. refl)
                (λ r e' _. same r e') keyed))
    ]
  where
    same : (r : Job) → find job_key row.id jobs ≡ some r → Follows r (set_leased w e n row r)
    same r e' =
        let eq : r ≡ row = cc (e', found.0) in rw eq (set_leased-Follows m w e n row passes.0)

pub lease_next_job-Advances :
    (d : Datetime) (le : Collation) (w : String) (secs m : ℕ) (now : Option String) (clock : ℕ)
    (jobs : Jobs)
    → IsKeyed job_key jobs
    → Advances jobs (lease_next_job d le w secs m now clock jobs jobs).1
unfolding lease_next_job
lease_next_job-Advances d le w secs m now clock jobs keyed =
    elim (Option-cases (now_or d now clock)) [
      | inl bad ↦ rw (bad, lease_next_job) (Advances-refl jobs keyed)
      | inr (t, at) ↦
          rw (at, lease_next_job)
            (take_first-Advances (max 1 m) w _ _
              (order_by (comes_before le) (filter (is_eligible (max 1 m)) jobs)) jobs keyed
              (All-order_by (comes_before le) _ _
                (All-filter _ (is_eligible (max 1 m)) jobs (AreRows-self job_key jobs keyed)))
              (All-order_by (comes_before le) _ _ (filter_passes (is_eligible (max 1 m)) jobs)))
    ]

renew_lease_unread :
    (d : Datetime) (job_id w : String) (secs : ℕ) (now : Option String) (clock : ℕ) (jobs : Jobs)
    → now_or d now clock ≡ none
    → (renew_lease d job_id w secs now clock jobs).1 ≡ jobs
unfolding renew_lease
renew_lease_unread d job_id w secs now clock jobs bad = ground arith

renew_lease_table :
    (d : Datetime) (job_id w : String) (secs t : ℕ) (now : Option String) (clock : ℕ) (jobs : Jobs)
    → now_or d now clock ≡ some t
    → let jobs' = (renew_lease d job_id w secs now clock jobs).1 in
      (jobs' ≡ jobs)
      ⊎ (jobs'
          ≡ update job_key job_id
              (λ _. true)
              (set_renewed w (d.isoformat (t + d.seconds (max 1 secs))) (d.isoformat t))
              jobs)
unfolding renew_lease
renew_lease_table d job_id w secs t now clock jobs at = ground arith

renew_lease_stop :
    (d : Datetime) (job_id w : String) (secs : ℕ) (now : Option String) (clock : ℕ) (jobs : Jobs)
    (r : Job)
    → find job_key job_id jobs ≡ some r
    → is_terminal r.status ≡ true
    → (renew_lease d job_id w secs now clock jobs).1 ≡ jobs
unfolding renew_lease
renew_lease_stop d job_id w secs now clock jobs r e final = ground arith

pub renew_lease-Advances :
    (d : Datetime) (job_id w : String) (secs : ℕ) (now : Option String) (clock : ℕ) (jobs : Jobs)
    → IsKeyed job_key jobs
    → Advances jobs (renew_lease d job_id w secs now clock jobs).1
renew_lease-Advances d job_id w secs now clock jobs keyed =
    elim (Option-cases (now_or d now clock)) [
      | inl bad ↦
          rw (renew_lease_unread d job_id w secs now clock jobs bad) (Advances-refl jobs keyed)
      | inr (t, at) ↦
          let ends = d.isoformat (t + d.seconds (max 1 secs)) in
          guarded-Advances job_id jobs (set_renewed w ends (d.isoformat t))
            (λ r. is_terminal r.status) _ (unfold set_renewed in λ r. refl)
            (λ r live. set_renewed-Follows w ends (d.isoformat t) r live)
            (renew_lease_stop d job_id w secs now clock jobs)
            (renew_lease_table d job_id w secs t now clock jobs at) keyed
    ]

requeue_loop-IsKeyed :
    (d : Datetime) (m t : ℕ) (now : String) (rows acc jobs : List Job)
    → IsKeyed job_key jobs
    → IsKeyed job_key (requeue_loop d m t now rows acc jobs).1
unfolding requeue_loop
requeue_loop-IsKeyed d m t now [] acc jobs keyed = keyed
requeue_loop-IsKeyed d m t now (row ∷ rows) acc jobs keyed =
    requeue_loop-IsKeyed d m t now rows _ _ (round (is_held d t row))
  where
    round :
        (held : Bool)
        → IsKeyed job_key
            (if held then jobs else update job_key row.id (λ _. true) (requeue_row m now row) jobs)
    round true = keyed
    round false =
        update-IsKeyed job_key row.id (λ _. true) (requeue_row m now row) jobs
          (unfold requeue_row in λ r. ground arith) keyed

requeue_unread :
    (d : Datetime) (m : ℕ) (now : Option String) (clock : ℕ) (jobs : Jobs)
    → now_or d now clock ≡ none
    → (requeue_expired_leases d m now clock jobs).1 ≡ jobs
unfolding requeue_expired_leases
requeue_unread d m now clock jobs bad = ground arith

requeue_read :
    (d : Datetime) (m : ℕ) (now : Option String) (clock t : ℕ) (jobs : Jobs)
    → now_or d now clock ≡ some t
    → (requeue_expired_leases d m now clock jobs).1
      ≡ (requeue_loop d (max 1 m) t (d.isoformat t) (filter is_leased jobs) [] jobs).1
unfolding requeue_expired_leases
requeue_read d m now clock t jobs at =
    rw (at, parse_timestamp-isoformat d t, requeue_expired_leases)

pub requeue_expired_leases-Advances :
    (d : Datetime) (m : ℕ) (now : Option String) (clock : ℕ) (jobs : Jobs)
    → IsKeyed job_key jobs
    → Advances jobs (requeue_expired_leases d m now clock jobs).1
requeue_expired_leases-Advances d m now clock jobs keyed =
    elim (Option-cases (now_or d now clock)) [
      | inl bad ↦ rw (requeue_unread d m now clock jobs bad) (Advances-refl jobs keyed)
      | inr (t, at) ↦ (
        λ j r e. (
          requeued d (max 1 m) t (d.isoformat t) r,
          rw (find-requeue_expired_leases d m now clock t j jobs keyed at) (rw e),
          requeued-Follows d (max 1 m) t (d.isoformat t) r,
        ),
        rw (requeue_read d m now clock t jobs at) (
            requeue_loop-IsKeyed d (max 1 m) t (d.isoformat t) (filter is_leased jobs) [] jobs
              keyed),
      )
    ]

pub insert_job-Advances :
    (row : Job) (jobs : Jobs) → IsKeyed job_key jobs → Advances jobs (insert_job row jobs).1
unfolding insert_job
insert_job-Advances row jobs keyed = elim (Option-cases (find job_key row.id jobs)) [
  | inl new ↦
      rw (new, insert_job)
        (
          λ j r e. (r, rw (find-append job_key j jobs row) (rw e), Follows-refl r),
          append-IsKeyed job_key jobs row keyed (IsFresh-find job_key row.id jobs new),
        )
  | inr (old, e) ↦ rw (e, insert_job) (Advances-refl jobs keyed)
]
