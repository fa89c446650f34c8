-- ===== src/Store/History/Calls.antt =====
-- The transactions of apps/api/app/store.py on jobs, one by one, and the rows that they leave.
use ai_jsunpack.Prelude.{
  String, ◌≡◌, ◌⊎◌, refl, Bool, true, false, not, ◌&&◌, Option, none, some, arith, inl, inr,
  Bool-cases,
}
use ai_jsunpack.Prelude.Table.{find, update, IsKeyed, update-IsKeyed}
use ai_jsunpack.Prelude.Table.Moves.{Evolves, Evolves-update}
use ai_jsunpack.Store.Types.{JobStatus, FailureClass, is_terminal, status_eq}
use ai_jsunpack.Store.Jobs.{
  Job, Jobs, job_key, is_live, find_live, write_row, update_status, request_cancel, set_status,
  set_cancelled,
}
use ai_jsunpack.Store.History.Follows.{
  Follows, Follows-refl, set_status-Follows, set_cancelled-Follows,
}

-- The jobs of the first table are in the second, each in a later state, under distinct ids.
abbrev pub Advances : Jobs → Jobs → Type 0
Advances jobs jobs' = Evolves job_key Follows jobs jobs' × IsKeyed job_key jobs'

pub Advances-refl : (jobs : Jobs) → IsKeyed job_key jobs → Advances jobs jobs
Advances-refl jobs keyed = ((λ j r e. (r, e, Follows-refl r)), keyed)

pub Advances-update :
    (k : String) (p : Job → Bool) (f : Job → Job) (jobs : Jobs)
    → ((r : Job) → (f r).id ≡ r.id)
    → ((r : Job) → find job_key k jobs ≡ some r → p r ≡ true → Follows r (f r))
    → IsKeyed job_key jobs
    → Advances jobs (update job_key k p f jobs)
Advances-update k p f jobs hf step keyed = (
  Evolves-update job_key Follows Follows-refl k p f jobs hf step,
  update-IsKeyed job_key k p f jobs hf keyed,
)

write_row-cases :
    (k : String) (p : Job → Bool) (f : Job → Job) (jobs : Jobs)
    → ((write_row k p f jobs).1 ≡ jobs) ⊎ ((write_row k p f jobs).1 ≡ update job_key k p f jobs)
unfolding write_row
write_row-cases k p f jobs = ground arith

pub write_row-Advances :
    (k : String) (p : Job → Bool) (f : Job → Job) (jobs : Jobs)
    → ((r : Job) → (f r).id ≡ r.id)
    → ((r : Job) → find job_key k jobs ≡ some r → p r ≡ true → Follows r (f r))
    → IsKeyed job_key jobs
    → Advances jobs (write_row k p f jobs).1
write_row-Advances k p f jobs hf step keyed = elim (write_row-cases k p f jobs) [
  | inl e ↦ rw e (Advances-refl jobs keyed)
  | inr e ↦ rw e (Advances-update k p f jobs hf step keyed)
]

-- A live row is the row of its id.
pub find_live-find :
    (k : String) (jobs : Jobs) (r : Job)
    → find_live k jobs ≡ some r
    → (find job_key k jobs ≡ some r) × (is_live r ≡ true)
unfolding find_live
find_live-find k jobs r h = ground arith

unique_row :
    (k : String) (jobs : Jobs) (a b : Job)
    → find job_key k jobs ≡ some a
    → find job_key k jobs ≡ some b
    → a ≡ b
unique_row k jobs a b h h' = cc

module _ (job_id : String) (jobs : Jobs) where
  -- An UPDATE of one job behind a test of its row changes no other table.
  pub guarded-Advances :
      (f : Job → Job) (bad : Job → Bool) (jobs' : Jobs)
      → ((r : Job) → (f r).id ≡ r.id)
      → ((r : Job) → bad r ≡ false → Follows r (f r))
      → ((r : Job) → find job_key job_id jobs ≡ some r → bad r ≡ true → jobs' ≡ jobs)
      → (jobs' ≡ jobs) ⊎ (jobs' ≡ update job_key job_id (λ _. true) f jobs)
      → IsKeyed job_key jobs
      → Advances jobs jobs'
  guarded-Advances f bad jobs' hf step stop (inl same) keyed = rw same (Advances-refl jobs keyed)
  guarded-Advances f bad jobs' hf step stop (inr changed) keyed = go (find job_key job_id jobs) refl
    where
      updated :
          ((r : Job) → find job_key job_id jobs ≡ some r → Follows r (f r)) → Advances jobs jobs'
      updated h = rw changed (Advances-update job_id (λ _. true) f jobs hf (λ r e _. h r e) keyed)

      go : (o : Option Job) → find job_key job_id jobs ≡ o → Advances jobs jobs'
      go none e = updated (λ r e'. absurd (cc (e, e')))
      go (some r) e = elim (Bool-cases (bad r)) [
        | inl stops ↦ rw (stop r e stops) (Advances-refl jobs keyed)
        | inr goes ↦ updated (λ r' e'. rw (unique_row job_id jobs r' r e' e) (step r goes))
      ]

  module _ (new : JobStatus) (reason : Option String) (failure : Option FailureClass)
      (expected : Option String) (now : String) where
    update_status_table :
        let jobs' = (update_status job_id new reason failure expected now jobs).1 in
        (jobs' ≡ jobs)
        ⊎ (jobs' ≡ update job_key job_id (λ _. true) (set_status new reason failure now) jobs)
    unfolding update_status
    update_status_table = ground arith

    update_status_stop :
        (r : Job)
        → find job_key job_id jobs ≡ some r
        → (is_terminal r.status && not (status_eq new r.status)) ≡ true
        → (update_status job_id new reason failure expected now jobs).1 ≡ jobs
    unfolding update_status
    update_status_stop r e h = ground arith

    pub update_status-Advances :
        IsKeyed job_key jobs
        → Advances jobs (update_status job_id new reason failure expected now jobs).1
    update_status-Advances =
        guarded-Advances (set_status new reason failure now)
          (λ r. is_terminal r.status && not (status_eq new r.status)) _
          (unfold set_status in λ r. refl) (set_status-Follows new reason failure now)
          update_status_stop update_status_table

  module _ (reason now : String) where
    request_cancel_table :
        let jobs' = (request_cancel job_id reason now jobs).1 in
        (jobs' ≡ jobs) ⊎ (jobs' ≡ update job_key job_id (λ _. true) (set_cancelled reason now) jobs)
    unfolding request_cancel
    request_cancel_table = ground arith

    request_cancel_stop :
        (r : Job)
        → find job_key job_id jobs ≡ some r
        → is_terminal r.status ≡ true
        → (request_cancel job_id reason now jobs).1 ≡ jobs
    unfolding request_cancel
    request_cancel_stop r e h = ground arith

    pub request_cancel-Advances :
        IsKeyed job_key jobs → Advances jobs (request_cancel job_id reason now jobs).1
    request_cancel-Advances =
        guarded-Advances (set_cancelled reason now) (λ r. is_terminal r.status) _
          (unfold set_cancelled in λ r. refl) (set_cancelled-Follows reason now) request_cancel_stop
          request_cancel_table
