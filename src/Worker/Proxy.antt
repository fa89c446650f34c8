-- ===== src/Worker/Proxy.antt =====
-- `LeasedStoreProxy` of apps/worker/worker/queue.py: the store as a worker's pipeline sees it.
pub mod Fence
use ai_jsunpack.Prelude.{
  String, Bool, Option, none, some, str_eq, is_some, not, ◌&&◌, if◌then◌else◌,
}
use ai_jsunpack.Store.Types.{JobStatus, FailureClass}
use ai_jsunpack.Store.Jobs.{Job, Jobs, Result, update_status}

pub record LeasedStoreProxy : Type 0 where
  pub job_id : String
  pub worker_id : String

-- The keyword `expected_worker_id` that the proxy passes on: its own worker, for its own job,
-- where the caller gives none.
unfoldable pub expected_worker : LeasedStoreProxy → String → Option (Option String) → Option String
expected_worker proxy job_id none =
    if str_eq job_id proxy.job_id then some proxy.worker_id else none
expected_worker proxy job_id (some given) = given

-- `update_status` of the proxy. `expected` is the keyword argument, if the caller gives it.
unfoldable pub proxy_update_status :
    LeasedStoreProxy
    → String
    → JobStatus
    → Option String
    → Option FailureClass
    → Option (Option String)
    → String
    → Jobs
    → Result Job × Jobs
unfolding expected_worker
proxy_update_status proxy job_id status reason failure expected now =
    update_status job_id status reason failure (expected_worker proxy job_id expected) now
