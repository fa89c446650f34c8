-- ===== src/Store/Tests.antt =====
-- A datetime, a collation and small tables on which the theorems of the store are applied.
pub mod Queue
pub mod Deletion
pub mod Settings
pub mod Retention
use Prim.Native.String.{[], ◌∷◌}
use ai_jsunpack.Prelude.{
  ℕ, zero, suc, ◌<◌, String, ◌≡◌, refl, Bool, true, false, Option, none, some, ap, arith, leb,
  str_eq, if◌then◌else◌,
}
use Prim.Native.Char.{code}
use ai_jsunpack.Store.Types.{JobStatus, queued, intake, leased, no_failure, local_only, WorkerLease}
use ai_jsunpack.Store.Datetime.{Datetime, Stamp, naive, aware, ends_with_z}
use ai_jsunpack.Json.{Fields, end}
use ai_jsunpack.Store.Jobs.{Job}
use ai_jsunpack.Store.Leases.{Collation}
use ai_jsunpack.Store.Leases.Order.{IsTotal}

-- A clock that prints the instant n as n strokes and a plus.
abbrev pub print : ℕ → String
print zero = "+"
print (suc n) = "x" ∷ print n

abbrev pub next_tick : Option Stamp → Option Stamp
next_tick none = none
next_tick (some (naive t)) = some (naive (suc t))
next_tick (some (aware t)) = some (aware (suc t))

abbrev pub read : String → Option Stamp
read [] = none
read (c ∷ s) =
    let rest = next_tick (read s) in if str_eq (c ∷ []) "x" then rest else some (aware zero)

pub read-print : (n : ℕ) → read (print n) ≡ some (aware n)
read-print zero = refl
read-print (suc n) = ap next_tick (read-print n)

pub ends_with_z-print : (n : ℕ) → ends_with_z (print n) ≡ false
unfolding ends_with_z
ends_with_z-print zero = refl
ends_with_z-print (suc zero) = refl
ends_with_z-print (suc (suc n)) = ends_with_z-print (suc n)

abbrev pub strokes : Datetime
strokes = record {
  fromisoformat = read;
  isoformat = print;
  seconds = λ n. n;
  fromisoformat-isoformat = read-print;
  isoformat_offset = ends_with_z-print;
  seconds_pos = λ n h. h;
}

-- The order of texts by their number of characters.
abbrev pub size : String → ℕ
size [] = 0
size (c ∷ s) = suc (size s)

abbrev pub by_size : Collation
by_size a b = leb (size a) (size b)

pub by_size-IsTotal : IsTotal by_size
by_size-IsTotal = record { total = λ a b h. ground arith; trans = λ a b c h k. ground arith }

-- A job as `create_job` and an upload leave it, in the given state.
abbrev pub job : String → JobStatus → ℕ → Option WorkerLease → String → Job
job id status attempts lease created = record {
  id = id;
  status = status;
  owner_id = "local-user";
  project_id = "default";
  input_artifact_id = some "artifact_1";
  input_name = none;
  input_kind = none;
  delivery_kind = none;
  primary_result_artifact_id = none;
  result_summary_artifact_id = none;
  files_expires_at = none;
  deleted_at = none;
  config = end;
  cloud_mode = local_only;
  review_attempt = 0;
  run_attempt = attempts;
  worker_lease = lease;
  failure_class = no_failure;
  failure_reason = none;
  created_at = created;
  updated_at = created;
}
