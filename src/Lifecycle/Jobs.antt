-- ===== src/Lifecycle/Jobs.antt =====
-- service.go: the managed CDC job of a task and direction.
pub mod Stopping
use dts.Common.{
  ℕ, String, Bool, true, false, ◌&&◌, not, ◌=s=◌, List, [], ◌∷◌, Result, ok, err, if◌then◌else◌,
}
use dts.Domain.{Task, Mode, full, incremental, full_and_incremental, EngineJob, JobStatus}
use dts.Store.Defs.{Store}
use dts.Store.Jobs.{list_engine_jobs, update_engine_job, create_engine_job}
use dts.Lifecycle.Service.{Fault, Service, Action, ◌>>◌, done, write}

-- `cdcEngineForDirection` of a task that is not nil.
abbrev pub cdc_engine_for_direction : Task → String
cdc_engine_for_direction task = elim task.mode [
  | full ↦ ""
  | incremental ↦ "dts"
  | full_and_incremental ↦ "dts"
]

-- `j.Kind == "CDC" && j.Direction == direction`
abbrev pub is_cdc_of : String → EngineJob → Bool
is_cdc_of direction j = j.kind =s= "CDC" && j.direction =s= direction

-- `j.Status != EngineJobStopped && j.Status != EngineJobFailed`
abbrev pub is_open : JobStatus → Bool
is_open JobStatus.stopped = false
is_open JobStatus.failed = false
is_open _ = true

-- The loop of `ensureManagedCDCJob`: one of the jobs is such a job.
unfoldable pub has_open_job : String → String → List EngineJob → Bool
has_open_job direction engine [] = false
has_open_job direction engine (j ∷ js) =
    if is_cdc_of direction j && j.engine =s= engine && is_open j.status
    then true
    else has_open_job direction engine js

abbrev pub new_job : ℕ → String → Task → String → EngineJob
new_job now id task direction = record {
  id = id;
  task_id = task.id;
  kind = "CDC";
  direction = direction;
  engine = cdc_engine_for_direction task;
  status = JobStatus.pending;
  worker_id = "";
  lease_until = 0;
  retry_count = 0;
  last_error = "";
  started_at = 0;
  updated_at = now;
  finished_at = 0;
}

-- The new status and time of one job in `requestStopEngineJobs`, where it changes.
abbrev pub stop_job : ℕ → EngineJob → EngineJob
stop_job now j = elim j.status [
  | JobStatus.running ↦ record j { status = JobStatus.stop_requested; updated_at = now }
  | JobStatus.pending ↦ record j { status = JobStatus.stopped; updated_at = now; finished_at = now }
  | _ ↦ j
]

-- A job that the loop stops.
abbrev pub can_stop : JobStatus → Bool
can_stop JobStatus.running = true
can_stop JobStatus.pending = true
can_stop _ = false

module _ {E : Type 0} where
  -- `ensureManagedCDCJob`, with the id that `newID` returns. The adapter is always there.
  unfoldable pub ensure_managed_cdc_job : ℕ → String → Task → String → Action E (Unit {0})
  unfolding has_open_job
  ensure_managed_cdc_job now id task direction s =
      if has_open_job direction (cdc_engine_for_direction task) (list_engine_jobs s.store task.id)
      then (ok tt, s)
      else write (λ t. create_engine_job t (new_job now id task direction)) s

  -- The loop of `requestStopEngineJobs`.
  unfoldable pub stop_jobs : ℕ → String → List EngineJob → Action E (Unit {0})
  stop_jobs now direction [] = done
  stop_jobs now direction (j ∷ js) =
      let rest = stop_jobs now direction js in
      if is_cdc_of direction j && can_stop j.status
      then write (λ t. update_engine_job t (stop_job now j)) >> rest
      else rest

  -- `requestStopEngineJobs`
  unfoldable pub request_stop_engine_jobs : ℕ → String → String → Action E (Unit {0})
  unfolding stop_jobs
  request_stop_engine_jobs now task_id direction s =
      stop_jobs now direction (list_engine_jobs s.store task_id) s
