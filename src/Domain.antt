-- ===== src/Domain.antt =====
-- backend/internal/domain/models.go: the records that the modelled operations read and write, with the
-- fields that they use. Times and durations are milliseconds, the zero time is 0; Go's empty string as
-- "no status" is `none`. Counts, lags and times are taken non-negative and below the width of int64.
use dts.Common.{ℕ, String, Bool, List, Option}

-- `MigrationStatus`
pub data Status : Type 0 where
  created prechecking precheck_success preparing cdc_initializing full_migrating full_finished :
      Status
  cdc_catching_up validating ready_cutover cutover_running finished paused failed cancelled : Status
  rollback_preparing rollback_syncing rollback_ready rollback_running rolled_back : Status

-- `MigrationMode`
pub data Mode : Type 0 where
  full incremental full_and_incremental : Mode

-- `MigrationTask`
pub record Task : Type 0 where
  pub id : String
  pub source_id : String
  pub target_id : String
  pub mode : Mode
  pub status : Status
  pub paused_from_status : Option Status
  pub full_engine : String
  pub cdc_engine : String
  pub rollback_cdc_engine : String
  pub max_retries : ℕ
  pub validation_enabled : Bool
  pub progress : ℕ
  pub total_chunks : ℕ
  pub finished_chunks : ℕ
  pub cdc_lag_ms : ℕ
  pub last_error : String
  pub updated_at : ℕ

-- `CDCOperation`
pub data CdcOperation : Type 0 where
  insert update delete truncate ddl checkpoint : CdcOperation

-- `CDCField` and `CDCEvent`, over a type of texts.
pub record CdcField (T : Type 0) : Type 0 where
  pub column : T
  pub null : Bool
  pub value : T
  pub encoding : T

pub record CdcEvent (T : Type 0) : Type 0 where
  pub id : T
  pub operation : CdcOperation
  pub source_schema : T
  pub source_table : T
  pub before : List (CdcField T)
  pub after : List (CdcField T)
  pub position_type : T
  pub position_value : T
  pub resource : T
  pub source_timestamp_ms : ℕ

-- `CDCPosition`
pub record CdcPosition : Type 0 where
  pub id : String
  pub task_id : String
  pub direction : String
  pub position_type : String
  pub position_value : String
  pub resource : String
  pub lag_ms : ℕ
  pub events_total : ℕ
  pub events_pending : ℕ
  pub recorded_at : ℕ

-- `CDCSpoolStatus`
pub data SpoolStatus : Type 0 where
  pending applied : SpoolStatus

-- `CDCSpoolRecord`, over a type of events.
pub record SpoolRecord (E : Type 0) : Type 0 where
  pub id : String
  pub task_id : String
  pub direction : String
  pub sequence : ℕ
  pub position_type : String
  pub position_value : String
  pub resource : String
  pub events : List E
  pub event_count : ℕ
  pub payload_bytes : ℕ
  pub status : SpoolStatus
  pub created_at : ℕ
  pub applied_at : ℕ

-- `CDCSpoolStats`, without the storage report of the file and object backends.
pub record SpoolStats : Type 0 where
  pub pending_transactions : ℕ
  pub pending_events : ℕ
  pub pending_bytes : ℕ
  pub first_position : String
  pub last_position : String

-- `EngineJobStatus`
pub data JobStatus : Type 0 where
  pending running stop_requested stopped failed : JobStatus

-- `EngineJob`
pub record EngineJob : Type 0 where
  pub id : String
  pub task_id : String
  pub kind : String
  pub direction : String
  pub engine : String
  pub status : JobStatus
  pub worker_id : String
  pub lease_until : ℕ
  pub retry_count : ℕ
  pub last_error : String
  pub started_at : ℕ
  pub updated_at : ℕ
  pub finished_at : ℕ

-- `CDCDeadLetterStatus`
pub data DeadLetterStatus : Type 0 where
  open_ commit_uncertain replay_required resolved : DeadLetterStatus

-- `CDCDeadLetter`, over a type of events.
pub record DeadLetter (E : Type 0) : Type 0 where
  pub id : String
  pub task_id : String
  pub direction : String
  pub position_type : String
  pub position_value : String
  pub resource : String
  pub events : List E
  pub last_error : String
  pub retry_count : ℕ
  pub status : DeadLetterStatus
  pub created_at : ℕ
  pub updated_at : ℕ
  pub resolved_at : ℕ
