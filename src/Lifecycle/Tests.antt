-- ===== src/Lifecycle/Tests.antt =====
-- The theorems on the life of a task at concrete tasks and jobs.
use dts.Common.{length, ℕ, String, true, false, ◌≡◌, ◌⊎◌, refl, [], ◌∷◌, none, some, ok, err}
use dts.Common.Keyed.{lookup, insert}
use dts.Domain.{
  CdcEvent, CdcOperation, Status, Task, full_and_incremental, CdcPosition, EngineJob, JobStatus,
  cdc_catching_up, rollback_syncing, rollback_ready, rolled_back, failed,
}
use dts.Store.Defs.{Store, get_migration}
use dts.Store.Jobs.{get_engine_job}
use dts.Lifecycle.Service.{refused, Fault, Service, with_task, get_task}
use dts.Lifecycle.Rollback.{ready_for_rollback}
use dts.Lifecycle.Rollback.Gates.{IsCaughtUp, ready_for_rollback_lem}
use dts.Lifecycle.Workers.{fail_engine_job, get_job}
use dts.Lifecycle.Workers.Failing.{fail_engine_job_lem, job_after}
use dts.Lifecycle.Staging.{Settings, ApplyResult, new_record, is_blank, stage_cdc_events}

abbrev task : Status → Task
task status = record {
  id = "t";
  source_id = "s";
  target_id = "d";
  mode = full_and_incremental;
  status = status;
  paused_from_status = none;
  full_engine = "dts";
  cdc_engine = "dts";
  rollback_cdc_engine = "dts";
  max_retries = 2;
  validation_enabled = false;
  progress = 100;
  total_chunks = 4;
  finished_chunks = 4;
  cdc_lag_ms = 10;
  last_error = "";
  updated_at = 1;
}

abbrev job : String → JobStatus → ℕ → EngineJob
job direction status retries = record {
  id = "j";
  task_id = "t";
  kind = "CDC";
  direction = direction;
  engine = "dts";
  status = status;
  worker_id = "w";
  lease_until = 100;
  retry_count = retries;
  last_error = "";
  started_at = 1;
  updated_at = 1;
  finished_at = 0;
}

abbrev position : CdcPosition
position = record {
  id = "p";
  task_id = "t";
  direction = "reverse";
  position_type = "LSN";
  position_value = "0/1";
  resource = "";
  lag_ms = 3;
  events_total = 9;
  events_pending = 0;
  recorded_at = 1;
}

abbrev service : Task → EngineJob → Service ℕ
service m j = record {
  store = record {
    migrations = ("t", m) ∷ [];
    engine_jobs = ("j", j) ∷ [];
    cdc_positions = position ∷ [];
    cdc_spool = [];
    cdc_dead_letters = [];
    control_operations = [];
  };
  runners = ("t", tt) ∷ [];
}

found : (m : Task) (j : EngineJob) → get_task "t" (service m j).store ≡ ok m
unfolding get_migration lookup
found m j = refl

found_job : (m : Task) (j : EngineJob) → get_job "j" (service m j).store ≡ ok j
unfolding get_engine_job lookup
found_job m j = refl

abbrev syncing : Service ℕ
syncing = service (task rollback_syncing) (job "reverse" JobStatus.running 0)

ready_for_rollback_lem_example :
    ((m : Task) × (p : CdcPosition) × (get_task "t" syncing.store ≡ ok m)
      × IsCaughtUp syncing.store "t" 0 m p
      × (ready_for_rollback 7 "t" 0 syncing
          ≡ (ok tt, with_task 7 (record m { status = rollback_ready }) syncing)))
    ⊎ ((e : Fault) × (ready_for_rollback 7 "t" 0 syncing ≡ (err e, syncing)))
ready_for_rollback_lem_example = ready_for_rollback_lem 7 "t" 0 syncing

abbrev ready : Service ℕ
ready = service (task rollback_ready) (job "reverse" JobStatus.running 0)

abbrev stopping : EngineJob
stopping = record (job "reverse" JobStatus.stop_requested 0) { updated_at = 7 }

abbrev catching_up : Service ℕ
catching_up = service (task cdc_catching_up) (job "forward" JobStatus.pending 0)

abbrev paused_job : EngineJob
paused_job = record (job "forward" JobStatus.stopped 0) { updated_at = 7; finished_at = 7 }

abbrev broken : Service ℕ
broken = service (task rolled_back) (job "reverse" JobStatus.stop_requested 2)

fail_engine_job_lem_example :
    let (result, after) = fail_engine_job 7 "gone" "w" "j" "lost" broken in
    (result ≡ ok tt)
    × (lookup "j" after.store.engine_jobs
        ≡ some (job_after 7 "lost" false (job "reverse" JobStatus.stop_requested 2)))
    × (lookup "t" after.store.migrations
        ≡ some (record (task failed) { last_error = "gone"; updated_at = 7 }))
fail_engine_job_lem_example =
    fail_engine_job_lem 7 "gone" "w" "j" "lost" broken (job "reverse" JobStatus.stop_requested 2)
      (task rolled_back) (found_job (task rolled_back) (job "reverse" JobStatus.stop_requested 2))
      refl refl (found (task rolled_back) (job "reverse" JobStatus.stop_requested 2)) refl

abbrev change : String → CdcEvent String
change position_value = record {
  id = "e";
  operation = CdcOperation.insert;
  source_schema = "s";
  source_table = "t";
  before = [];
  after = [];
  position_type = "LSN";
  position_value = position_value;
  resource = "";
  source_timestamp_ms = 5;
}

abbrev settings : Settings
settings = record {
  max_transaction_bytes = 100;
  max_pending_bytes = 1000;
  fault_before_persist = none;
  fault_after_persist = none;
  json_bytes = λ events. some (length events);
  digest = λ task direction type_ value resource. value;
}

abbrev empty : Store (CdcEvent String)
empty = record {
  migrations = [];
  engine_jobs = [];
  cdc_positions = [];
  cdc_spool = [];
  cdc_dead_letters = [];
  control_operations = [];
}

abbrev staged_store : Store (CdcEvent String)
staged_store = record empty {
  cdc_spool =
      record (new_record settings 7 "t" "forward" (change "0/9" ∷ []) 1 (change "0/9")) {
        sequence = 1;
      }
      ∷ [];
}

abbrev staged_result : ApplyResult
staged_result = record {
  last_event_id = "e";
  position_type = "LSN";
  position_value = "0/9";
  staged = true;
  spool_sequence = 1;
}

blank_refused :
    stage_cdc_events settings 7 "t" "forward" (change " " ∷ []) staged_store
    ≡ (err (refused "CDC spool requires a durable source position"), staged_store)
unfolding stage_cdc_events is_blank
blank_refused = refl
