-- ===== src/Worker/Tests.antt =====
-- The fence of the leased store on a table of one job.
mod Pipeline
mod Runner
use ai_jsunpack.Prelude.{◌≡◌, refl, none, some, [], ◌∷◌}
use ai_jsunpack.Prelude.Table.{find, update, rowcount}
use ai_jsunpack.Store.Types.{intake, indexing, queued}
use ai_jsunpack.Store.Datetime.{now_or}
use ai_jsunpack.Store.Jobs.{Job, ok, is_not_holder}
use ai_jsunpack.Store.Leases.{lease_next_job, set_leased}
use ai_jsunpack.Store.Tests.{strokes, by_size, by_size-IsTotal, job}
use ai_jsunpack.Worker.Proxy.{LeasedStoreProxy, proxy_update_status}
use ai_jsunpack.Worker.Proxy.Fence.{proxy_update_status-not_holder, lease_next_job-fences}

abbrev held : Job
held = job "a" intake 1 (some (record { worker_id = "worker-b"; expires_at = "xxxxx+" })) "x+"

abbrev proxy : LeasedStoreProxy
proxy = record { job_id = "a"; worker_id = "worker-a" }

proxy_update_status-not_holder_example :
    proxy_update_status proxy "a" indexing none none none "xx+" (held ∷ []) ≡ (ok held, held ∷ [])
unfolding find is_not_holder
proxy_update_status-not_holder_example =
    proxy_update_status-not_holder proxy indexing none none "xx+" held (held ∷ []) refl refl refl

abbrev waiting : Job
waiting = job "a" queued 0 none "x+"

lease_next_job-fences_example :
    let j = set_leased "worker-b" "xxxxxxx+" "xxxx+" waiting waiting in
    proxy_update_status proxy "a" indexing none none none "xxxxx+" (j ∷ []) ≡ (ok j, j ∷ [])
unfolding now_or lease_next_job set_leased find rowcount update
lease_next_job-fences_example =
    lease_next_job-fences proxy indexing none none "xxxxx+" strokes by_size "worker-b" 3 3 none 4 4
      (waiting ∷ []) (set_leased "worker-b" "xxxxxxx+" "xxxx+" waiting waiting)
      (set_leased "worker-b" "xxxxxxx+" "xxxx+" waiting waiting ∷ []) by_size-IsTotal (tt, tt) refl
      refl refl refl
