-- ===== src/Store/History/Reach.antt =====
-- Histories of transactions of apps/api/app/store.py, and what becomes of each job.
use ai_jsunpack.Prelude.{String, refl, Option, List, [], ◌∷◌}
use ai_jsunpack.Prelude.Table.{IsKeyed}
use ai_jsunpack.Prelude.Table.Moves.{Evolves-trans}
use ai_jsunpack.Store.Types.{InputKind}
use ai_jsunpack.Store.Datetime.{Datetime}
use ai_jsunpack.Store.Jobs.{
  Jobs, job_key, is_live, new_job, update_job_input_metadata, set_input_metadata,
}
use ai_jsunpack.Store.Leases.{Collation}
use ai_jsunpack.Store.Deletion.{set_job_deleted}
use ai_jsunpack.Store.History.{
  JobCall, create, input_metadata, input_artifact, delivery, status, cancel, lease, renew, requeue,
  delete, run, run_all, set_delivery,
}
use ai_jsunpack.Store.History.Follows.{
  Follows, Follows-trans, set_input_metadata-Follows, set_input-Follows, set_delivery-Follows,
  set_job_deleted-Follows,
}
use ai_jsunpack.Store.History.Calls.{
  Advances, Advances-refl, Advances-update, write_row-Advances, update_status-Advances,
  request_cancel-Advances,
}
use ai_jsunpack.Store.History.Queue.{
  lease_next_job-Advances, renew_lease-Advances, requeue_expired_leases-Advances,
  insert_job-Advances,
}

update_job_input_metadata-Advances :
    (job_id name : String) (kind : InputKind) (expires : Option String) (now : String) (jobs : Jobs)
    → IsKeyed job_key jobs
    → Advances jobs (update_job_input_metadata job_id name kind expires now jobs).1
update_job_input_metadata-Advances job_id name kind expires now jobs keyed =
    unfold update_job_input_metadata in
    write_row-Advances job_id is_live (set_input_metadata name kind expires now) jobs (λ r. refl)
      (λ r _ _. set_input_metadata-Follows name kind expires now r) keyed

module _ (d : Datetime) (le : Collation) where
  -- One transaction.
  pub run-Advances :
      (c : JobCall) (jobs : Jobs) → IsKeyed job_key jobs → Advances jobs (run d le c jobs)
  unfolding run
  run-Advances (create job_id expires now request) jobs keyed =
      insert_job-Advances (new_job job_id expires now request) jobs keyed
  run-Advances (input_metadata job_id name kind expires now) jobs keyed =
      update_job_input_metadata-Advances job_id name kind expires now jobs keyed
  run-Advances (input_artifact job_id artifact_id now) jobs keyed =
      Advances-update job_id _ _ jobs (λ r. refl) (λ r _ ok. set_input-Follows artifact_id now r ok)
        keyed
  run-Advances (delivery job_id kind primary summary now) jobs keyed =
      write_row-Advances job_id is_live (set_delivery kind primary summary now) jobs
        (unfold set_delivery in λ r. refl)
        (λ r _ _. set_delivery-Follows kind primary summary now r) keyed
  run-Advances (status job_id new reason failure expected now) jobs keyed =
      update_status-Advances job_id jobs new reason failure expected now keyed
  run-Advances (cancel job_id reason now) jobs keyed =
      request_cancel-Advances job_id jobs reason now keyed
  run-Advances (lease w secs m now clock) jobs keyed =
      lease_next_job-Advances d le w secs m now clock jobs keyed
  run-Advances (renew job_id w secs now clock) jobs keyed =
      renew_lease-Advances d job_id w secs now clock jobs keyed
  run-Advances (requeue m now clock) jobs keyed =
      requeue_expired_leases-Advances d m now clock jobs keyed
  run-Advances (delete job_id now) jobs keyed =
      Advances-update job_id is_live (set_job_deleted now) jobs
        (unfold set_job_deleted in λ r. refl) (λ r _ live. set_job_deleted-Follows now r live) keyed

  -- After any history of transactions, of the API and of any number of workers, every job that was
  -- there is there under distinct ids, and in a later state: it has its owner, project and
  -- creation, it has left no final status, it has not fewer attempts, it has kept an attached
  -- input, if it was deleted it still is, and in a final status it holds no lease, if so before.
  pub run_all-Advances :
      (calls : List JobCall) (jobs : Jobs)
      → IsKeyed job_key jobs
      → Advances jobs (run_all d le calls jobs)
  unfolding run_all
  run_all-Advances [] jobs keyed = Advances-refl jobs keyed
  run_all-Advances (c ∷ calls) jobs keyed =
      let (now, keyed') = run-Advances c jobs keyed in
      let (later, keyed'') = run_all-Advances calls (run d le c jobs) keyed' in
      (
        Evolves-trans job_key Follows Follows-trans jobs (run d le c jobs)
            (run_all d le calls (run d le c jobs)) now later,
        keyed'',
      )
