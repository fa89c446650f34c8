-- ===== src/Store/History/Follows.antt =====
-- The relation between the row of a job before and after a transaction of apps/api/app/store.py,
-- and the column changes that those transactions make.
use ai_jsunpack.Prelude.{
  ℕ, ◌≤◌, String, ◌≡◌, refl, ◌∙◌, true, false, not, ◌&&◌, Option, none, arith, is_some, Bool-cases,
  inl, inr,
}
use ai_jsunpack.Store.Types.{
  JobStatus, status_eq, status_eq_iff, is_terminal, is_queue_eligible, FailureClass, InputKind,
  DeliveryKind, leased,
}
use ai_jsunpack.Store.Datetime.{Datetime}
use ai_jsunpack.Store.Jobs.{Job, is_live, set_input_metadata, set_status, set_cancelled}
use ai_jsunpack.Store.Leases.{is_eligible, set_leased, set_renewed}
use ai_jsunpack.Store.Requeue.{is_leased, is_held, requeue_row}
use ai_jsunpack.Store.Requeue.Rows.{requeued, requeued_lem}
use ai_jsunpack.Store.Deletion.{set_job_deleted}
use ai_jsunpack.Store.History.{set_input, set_delivery, lacks_input}

-- A job in a final status has no lease.
abbrev pub IsClean : Job → Type 0
IsClean j = is_terminal j.status ≡ true → j.worker_lease ≡ none

-- A later state of a job: the job keeps its identity, a final status is never left, the number of
-- attempts never falls, an input that is attached stays, a deleted job stays deleted,
-- and one that has no lease in a final status goes on so.
pub record Follows (old new : Job) : Type 0 where
  pub same_id : new.id ≡ old.id
  pub same_owner : new.owner_id ≡ old.owner_id
  pub same_project : new.project_id ≡ old.project_id
  pub same_creation : new.created_at ≡ old.created_at
  pub final_status : is_terminal old.status ≡ true → new.status ≡ old.status
  pub attempts : old.run_attempt ≤ new.run_attempt
  pub input_stays :
      is_some old.input_artifact_id ≡ true → new.input_artifact_id ≡ old.input_artifact_id
  pub deleted_stays : is_live old ≡ false → new.deleted_at ≡ old.deleted_at
  pub clean_stays : IsClean old → IsClean new

pub Follows-refl : (j : Job) → Follows j j
Follows-refl j = ground arith

pub Follows-trans : (a b c : Job) → Follows a b → Follows b c → Follows a c
Follows-trans a b c h k = record {
  same_id = k.same_id ∙ h.same_id;
  same_owner = k.same_owner ∙ h.same_owner;
  same_project = k.same_project ∙ h.same_project;
  same_creation = k.same_creation ∙ h.same_creation;
  final_status = λ f. let e = h.final_status f in k.final_status (rw e f) ∙ e;
  attempts = omega (arith, h.attempts, k.attempts);
  input_stays = λ f. let e = h.input_stays f in k.input_stays (rw e f) ∙ e;
  deleted_stays = λ f. let e = h.deleted_stays f in k.deleted_stays (rw e f) ∙ e;
  clean_stays = λ f. k.clean_stays (h.clean_stays f);
}

pub set_input_metadata-Follows :
    (name : String) (kind : InputKind) (expires : Option String) (now : String) (j : Job)
    → Follows j (set_input_metadata name kind expires now j)
unfolding set_input_metadata
set_input_metadata-Follows name kind expires now j = ground arith

pub set_input-Follows :
    (artifact_id now : String) (j : Job)
    → (is_live j && lacks_input j) ≡ true
    → Follows j (set_input artifact_id now j)
unfolding set_input
set_input-Follows artifact_id now j h = ground arith

pub set_delivery-Follows :
    (kind : DeliveryKind) (primary : String) (summary : Option String) (now : String) (j : Job)
    → Follows j (set_delivery kind primary summary now j)
unfolding set_delivery
set_delivery-Follows kind primary summary now j = ground arith

pub set_status-Follows :
    (new : JobStatus) (reason : Option String) (failure : Option FailureClass) (now : String)
    (j : Job)
    → (is_terminal j.status && not (status_eq new j.status)) ≡ false
    → Follows j (set_status new reason failure now j)
unfolding set_status
set_status-Follows new reason failure now j h = record {
  same_id = refl;
  same_owner = refl;
  same_project = refl;
  same_creation = refl;
  final_status = λ f. (status_eq_iff new j.status).0 (ground (arith, h, f));
  attempts = omega arith;
  input_stays = λ _. refl;
  deleted_stays = λ _. refl;
  clean_stays = λ _ f. rw f;
}

pub set_cancelled-Follows :
    (reason now : String) (j : Job)
    → is_terminal j.status ≡ false
    → Follows j (set_cancelled reason now j)
unfolding set_cancelled
set_cancelled-Follows reason now j h = ground arith

eligible_not_final : (s : JobStatus) → is_queue_eligible s ≡ true → is_terminal s ≡ false
unfolding is_queue_eligible is_terminal
eligible_not_final s h = ground arith

leased_not_final : (s : JobStatus) → status_eq s leased ≡ true → is_terminal s ≡ false
leased_not_final s h = rw ((status_eq_iff s leased).0 h) (unfold is_terminal in refl)

pub set_leased-Follows :
    (m : ℕ) (worker_id expires_at now : String) (j : Job)
    → is_eligible m j ≡ true
    → Follows j (set_leased worker_id expires_at now j j)
unfolding set_leased is_eligible
set_leased-Follows m worker_id expires_at now j h = record {
  same_id = refl;
  same_owner = refl;
  same_project = refl;
  same_creation = refl;
  final_status = λ f. absurd (cc (f, eligible_not_final j.status (ground (arith, h))));
  attempts = omega arith;
  input_stays = λ _. refl;
  deleted_stays = λ _. refl;
  clean_stays = λ _ f. absurd (unfold is_terminal in cc f);
}

pub set_renewed-Follows :
    (worker_id expires_at now : String) (j : Job)
    → is_terminal j.status ≡ false
    → Follows j (set_renewed worker_id expires_at now j)
unfolding set_renewed
set_renewed-Follows worker_id expires_at now j h = ground arith

requeue_row-Follows :
    (m : ℕ) (now : String) (j : Job) → is_leased j ≡ true → Follows j (requeue_row m now j j)
unfolding requeue_row
requeue_row-Follows m now j h = ground (arith, leased_not_final j.status h)

pub requeued-Follows :
    (d : Datetime) (m t : ℕ) (now : String) (j : Job) → Follows j (requeued d m t now j)
requeued-Follows d m t now j =
    rw (requeued_lem d m t now j) (elim (Bool-cases (is_leased j && not (is_held d t j))) [
      | inl expired ↦ rw expired (requeue_row-Follows m now j (ground (arith, expired)))
      | inr same ↦ rw same (Follows-refl j)
    ])

pub set_job_deleted-Follows :
    (now : String) (j : Job) → is_live j ≡ true → Follows j (set_job_deleted now j)
unfolding set_job_deleted
set_job_deleted-Follows now j h = ground arith
