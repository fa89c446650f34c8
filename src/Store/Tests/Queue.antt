-- ===== src/Store/Tests/Queue.antt =====
-- The theorems of the queue on a table of two jobs.
use Prim.Native.Nat.{max}
use ai_jsunpack.Prelude.{
  String, str_eq, false, inl, inr, ◌+◌, ◌≡◌, refl, Option, none, some, List, [], ◌∷◌, arith,
}
use ai_jsunpack.Prelude.Table.{find, update, rowcount, IsKeyed}
use ai_jsunpack.Store.Types.{queued, leased, intake, completed, WorkerLease}
use ai_jsunpack.Store.Datetime.{now_or}
use ai_jsunpack.Store.Jobs.{Job, Jobs, job_key, ok}
use ai_jsunpack.Store.Leases.{lease_next_job, set_leased}
use ai_jsunpack.Store.Leases.Take.{leased_to, LeaseOutcome, lease_next_job_fifo}
use ai_jsunpack.Store.Leases.Takeover.{lease_next_job_takeover}
use ai_jsunpack.Store.Requeue.{requeue_expired_leases, lease_expires_at}
use ai_jsunpack.Store.Requeue.Rows.{requeued, find-requeue_expired_leases}
use ai_jsunpack.Store.History.{JobCall, status, lease, requeue, cancel, run_all}
use ai_jsunpack.Store.History.Calls.{Advances}
use ai_jsunpack.Store.History.Reach.{run_all-Advances}
use ai_jsunpack.Store.Tests.{strokes, by_size, by_size-IsTotal, job}
use mathlib.Core.Option

abbrev old_lease : Option WorkerLease
old_lease = some (record { worker_id = "worker-a"; expires_at = "xx+" })

-- The second job was created first.
abbrev table : Jobs
table =
    job "b" queued 0 none "xx+" ∷ job "a" intake 1 none "x+" ∷ job "c" leased 1 old_lease "+" ∷ []

abbrev running : Job
running = job "a" intake 1 (some (record { worker_id = "worker-a"; expires_at = "xxxxx+" })) "x+"

table-IsKeyed : IsKeyed job_key table
table-IsKeyed = ((refl, (refl, tt)), ((refl, tt), (tt, tt)))

-- The job that was created first is leased, although it stands second.
lease_test :
    (lease_next_job strokes by_size "w" 3 3 none 4 table table).0
    ≡ ok (
        some (
          set_leased "w" "xxxxxxx+" "xxxx+"
            (job "a" intake 1 none "x+")
            (job "a" intake 1 none "x+")))
unfolding lease_next_job find rowcount update
lease_test = refl

lease_next_job_fifo_example :
    (r : Option Job × Jobs) × (lease_next_job strokes by_size "w" 3 3 none 4 table table
      ≡ (ok r.0, r.1))
    × LeaseOutcome by_size
        (max 1 3)
        "w"
        (strokes.isoformat (4 + strokes.seconds (max 1 3)))
        (strokes.isoformat 4)
        table
        r
unfolding now_or
lease_next_job_fifo_example =
    lease_next_job_fifo strokes by_size "w" 3 3 none 4 4 table by_size-IsTotal table-IsKeyed refl

find-requeue_expired_leases_example :
    find job_key "c" (requeue_expired_leases strokes 3 none 4 table).1
    ≡ Option.map (requeued strokes 3 4 "xxxx+") (find job_key "c" table)
unfolding now_or
find-requeue_expired_leases_example =
    find-requeue_expired_leases strokes 3 none 4 4 "c" table table-IsKeyed refl

abbrev waiting : Jobs
waiting = job "b" queued 0 none "xx+" ∷ running ∷ []

abbrev taken_over : Job
taken_over = leased_to "worker-b" "xxxxxxx+" "xxxx+" running

lease_next_job_takeover_example :
    (jobs' : Jobs) × (lease_next_job strokes by_size "worker-b" 3 3 none 4 waiting waiting
      ≡ (ok (some taken_over), jobs'))
    × (find job_key "a" jobs' ≡ some taken_over)
    × ((k : String) → str_eq "a" k ≡ false → find job_key k jobs' ≡ find job_key k waiting)
unfolding now_or find lease_expires_at
lease_next_job_takeover_example =
    lease_next_job_takeover strokes by_size "worker-b" 3 3 none 4 4 running waiting by_size-IsTotal
      ((refl, tt), (tt, tt)) refl refl
      (record {
        in_intake = refl;
        live = refl;
        has_input = refl;
        has_attempts = omega arith;
        ends = 5;
        leased_until = refl;
        not_expired = omega arith;
      })
      ((λ _. inr refl), ((λ _. inl refl), tt))

-- A worker leases a job, reports it complete, and later someone cancels it and requeues.
abbrev history : List JobCall
history =
    lease "w" 3 3 none 4
    ∷ status "a" completed none none (some "w") "x+"
    ∷ cancel "a" "late" "xx+"
    ∷ requeue 3 none 9
    ∷ []

run_all-Advances_example : Advances table (run_all strokes by_size history table)
run_all-Advances_example = run_all-Advances strokes by_size history table table-IsKeyed
