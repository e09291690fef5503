-- ===== src/Lifecycle/Workers.antt =====
-- service.go: what a worker reports of the engine job that it runs.
pub mod Failing
use dts.Common.{
  ℕ, String, Bool, true, false, ◌&&◌, ◌||◌, not, ◌==◌, ◌=s=◌, ◌+◌, ltb, leb, List, [], ◌∷◌, Option,
  none, some, Result, ok, err, guard, if◌then◌else◌,
}
use dts.Domain.{
  Status, Task, Mode, full, incremental, full_and_incremental, CdcPosition, EngineJob, JobStatus,
  cdc_initializing, cdc_catching_up, full_migrating, full_finished, rollback_preparing,
}
use dts.Store.Defs.{Store, StoreError, lease_owner}
use dts.Store.Jobs.{get_engine_job, update_engine_job, is_running, renew_engine_job_lease}
use dts.Store.Positions.{create_cdc_position}
use dts.Lifecycle.Service.{
  Fault, of_store, refused, Service, Action, ◌>>=◌, ◌>>◌, done, query, write, ignore, get_task,
  save_task, from_store, transition,
}
use dts.Lifecycle.Control.{fail_task}
use dts.Lifecycle.Positions.{cdc_capture_ready}
use dts.Lifecycle.Rollback.{is_preparing, mark_rollback_cdc_started}

abbrev pub is_initializing : Status → Bool
is_initializing cdc_initializing = true
is_initializing _ = false

abbrev pub is_stop_requested : JobStatus → Bool
is_stop_requested JobStatus.stop_requested = true
is_stop_requested _ = false

-- `_ = Transition(task, to)`: without effect if the table forbids it.
unfoldable pub try_transition : Task → Status → Task
unfolding transition
try_transition m to = elim (transition m to) [ ok m' ↦ m' | err e ↦ m ]

-- The middle of `MarkCDCStarted`: the task's next status.
unfoldable pub started_task : Task → Result Fault Task
unfolding transition try_transition
started_task m = elim m.mode [
  | incremental ↦ transition m cdc_catching_up
  | _ ↦ elim (transition m full_migrating) [
    | err e ↦ err e
    | ok m' ↦
        if m.total_chunks == 0
        then ok (
            try_transition (try_transition (record m' { progress = 100 }) full_finished)
              cdc_catching_up)
        else ok m'
  ]
]

-- The job as `CompleteEngineJob` writes it; "" is no error.
unfoldable pub completed_job : ℕ → String → EngineJob → EngineJob
completed_job now error j =
    let left = record j { worker_id = ""; lease_until = 0; finished_at = now; updated_at = now } in
    if is_stop_requested j.status || error =s= ""
    then record left { status = JobStatus.stopped }
    else record left { status = JobStatus.failed; last_error = error }

-- `maxRetries` of `FailEngineJob`, for the task if it is found.
abbrev pub max_retries_of : Result Fault Task → ℕ
max_retries_of (err e) = 3
max_retries_of (ok m) = if ltb 0 m.max_retries then m.max_retries else 3

-- The job as `FailEngineJob` writes it.
unfoldable pub failed_job : ℕ → String → ℕ → EngineJob → EngineJob
failed_job now error max j =
    let left = record j {
      retry_count = j.retry_count + 1;
      last_error = error;
      worker_id = "";
      lease_until = 0;
      updated_at = now;
    } in
    if leb (j.retry_count + 1) max
    then record left { status = JobStatus.pending }
    else record left { status = JobStatus.failed; finished_at = now }

module _ {E : Type 0} where
  abbrev pub get_job : String → Store E → Result Fault EngineJob
  get_job id s = from_store (get_engine_job s id)

  -- `MarkCDCStarted`, with the id that `newID` returns. The spool drain that it schedules runs by itself.
  unfoldable pub mark_cdc_started : ℕ → String → String → Option CdcPosition → Action E (Unit {0})
  unfolding started_task create_cdc_position
  mark_cdc_started now new_id id p = do
    task ← query (get_task id)
    query (λ _. guard (is_initializing task.status) (refused "task cannot start CDC"))
    (elim p [
      | none ↦ done
      | some q ↦
          if not (q.position_value =s= "") || not (q.lag_ms == 0)
          then ignore (
              write (λ s. ok (
                create_cdc_position s (record q {
                  id = new_id;
                  task_id = id;
                  direction = "forward";
                  recorded_at = now;
                }))))
          else done
    ])
    task' ← query (λ _. started_task task)
    save_task now task'

  -- `StartEngineJob`
  unfoldable pub start_engine_job : ℕ → String → String → String → Action E (Unit {0})
  unfolding mark_cdc_started
  start_engine_job now new_id worker_id job_id = do
    j ← query (get_job job_id)
    query (λ _. guard (is_running j.status && j.worker_id =s= worker_id) (of_store lease_owner))
    task ← query (get_task j.task_id)
    write (λ s. update_engine_job s (record j { updated_at = now }))
    (if j.direction =s= "reverse"
        then (if is_preparing task.status
            then mark_rollback_cdc_started now new_id task.id none
            else done)
        else (if is_initializing task.status
            then mark_cdc_started now new_id task.id none
            else done))

  -- `EngineJobControl`: has the job been asked to stop?
  unfoldable pub engine_job_control : String → String → Store E → Result Fault Bool
  engine_job_control worker_id job_id s = elim (get_job job_id s) [
    | err e ↦ err e
    | ok j ↦
        if j.worker_id =s= worker_id
        then ok (is_stop_requested j.status)
        else err (of_store lease_owner)
  ]

  -- `CompleteEngineJob`, without the cleanup of the checkpoint at the source.
  unfoldable pub complete_engine_job : ℕ → String → String → String → Action E (Unit {0})
  unfolding completed_job
  complete_engine_job now worker_id job_id error = do
    j ← query (get_job job_id)
    query (λ _. guard (j.worker_id =s= worker_id) (of_store lease_owner))
    write (λ s. update_engine_job s (completed_job now error j))

  -- `FailEngineJob`; `cause` is the text of the error that fails the task.
  unfoldable pub fail_engine_job : ℕ → String → String → String → String → Action E (Unit {0})
  unfolding failed_job fail_task
  fail_engine_job now cause worker_id job_id error = do
    j ← query (get_job job_id)
    query (λ _. guard (j.worker_id =s= worker_id) (of_store lease_owner))
    task ← query (λ s. ok (get_task j.task_id s))
    let max = max_retries_of task
    (elim task [
      | err e ↦ done
      | ok m ↦ if leb (j.retry_count + 1) max then done else fail_task now m.id cause
    ])
    write (λ s. update_engine_job s (failed_job now error (max_retries_of task) j))
