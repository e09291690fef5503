-- ===== src/Store/Tests.antt =====
-- The store's theorems at concrete stores.
use dts.Common.{
  All, ℕ, String, false, ◌≡◌, ◌≢◌, refl, sym, List, [], ◌∷◌, ◌++◌, Option, some, ok, inr, arith,
  length, eq_iff,
}
use dts.Common.Keyed.{lookup, insert}
use dts.Domain.{CdcPosition, SpoolRecord, SpoolStatus, EngineJob, JobStatus}
use dts.Store.Defs.{Store, ControlOperation}
use dts.Store.Control.{
  ControlCall, acquire, release, foreign_acquire, foreign_release, acquire_control_operation,
  call_controls, control_exclusive,
}
use dts.Store.Jobs.{claim_engine_job}
use dts.Store.Jobs.Claiming.{claim_spares_held}
use dts.Store.Spool.{create_cdc_spool, mark_cdc_spool_applied, complete_record, pending_records}
use dts.Store.Spool.Sequence.{IsSequenced, stage, SpoolStep-IsSequenced}
use dts.Store.Spool.Queue.{queue, stage_queue}
use dts.Store.Spool.Draining.{mark_queue, HasUniqueIds}
use dts.Store.Positions.{compact_cdc_positions_hard_limit}
use dts.Store.Positions.Compaction.{HasAsLate, compact_cdc_positions_hard_limit_lem}

abbrev empty : Store ℕ
empty = record {
  migrations = [];
  engine_jobs = [];
  cdc_positions = [];
  cdc_spool = [];
  cdc_dead_letters = [];
  control_operations = [];
}

abbrev lease : ControlOperation
lease = record {
  task_id = "t";
  operation = "prepare";
  owner = "a";
  lease_until = 100;
  updated_at = 10;
}

abbrev leased : Store ℕ
leased = record empty { control_operations = ("t", lease) ∷ [] }

leased_task : lookup "t" leased.control_operations ≡ some lease
unfolding lookup
leased_task = refl

abbrev intruders : List ControlCall
intruders = acquire "t" "validation" "b" 50 20 ∷ release "t" "prepare" "b" ∷ []

b-ne-a : ◌≢◌ {A = String} "b" "a"
b-ne-a = ground (arith, eq_iff "b" "a")

control_exclusive_example :
    (lookup "t" (call_controls leased intruders).control_operations ≡ some lease)
    × ((acquire_control_operation (call_controls leased intruders) "t" "prepare" "c" 50 99).1
        ≡ false)
control_exclusive_example =
    control_exclusive leased "t" intruders "prepare" "c" 50 99 leased_task
      (
        foreign_acquire "t" "validation" "b" 50 20 (omega arith),
        (foreign_release "t" "prepare" "b" b-ne-a, tt),
      )
      (omega arith)

abbrev job : JobStatus → ℕ → EngineJob
job status until = record {
  id = "j";
  task_id = "t";
  kind = "CDC";
  direction = "forward";
  engine = "dts";
  status = status;
  worker_id = "w";
  lease_until = until;
  retry_count = 0;
  last_error = "";
  started_at = 1;
  updated_at = 1;
  finished_at = 0;
}

abbrev with_job : EngineJob → Store ℕ
with_job j = record empty { engine_jobs = ("j", j) ∷ [] }

found_job : (j : EngineJob) → lookup "j" (with_job j).engine_jobs ≡ some j
unfolding lookup
found_job j = refl

claim_spares_held_example :
    lookup "j"
      (claim_engine_job
        (with_job (job JobStatus.running 90))
        "x"
        50
        ("native" ∷ [])
        60).0.engine_jobs
    ≡ some (job JobStatus.running 90)
claim_spares_held_example =
    claim_spares_held (with_job (job JobStatus.running 90)) "x" 50 ("native" ∷ []) 60 "j"
      (found_job (job JobStatus.running 90))
      (record { not_pending = λ e. cc; lease_runs = inr (inr (omega arith)) })

abbrev taken : EngineJob
taken = record {
  id = "j";
  task_id = "t";
  kind = "CDC";
  direction = "forward";
  engine = "dts";
  status = JobStatus.running;
  worker_id = "x";
  lease_until = 150;
  retry_count = 1;
  last_error = "";
  started_at = 1;
  updated_at = 100;
  finished_at = 0;
}

claimed :
    claim_engine_job (with_job (job JobStatus.running 90)) "x" 50 ("native" ∷ []) 100
    ≡ (with_job taken, ok taken)
unfolding claim_engine_job lookup insert
claimed = refl

abbrev staged : String → ℕ → SpoolStatus → SpoolRecord ℕ
staged id n status = record {
  id = id;
  task_id = "t";
  direction = "forward";
  sequence = n;
  position_type = "LSN";
  position_value = id;
  resource = "";
  events = 7 ∷ [];
  event_count = 1;
  payload_bytes = 3;
  status = status;
  created_at = 0;
  applied_at = 0;
}

abbrev spool : Store ℕ
spool = record empty {
  cdc_spool =
      staged "a" 1 SpoolStatus.applied
      ∷ staged "b" 2 SpoolStatus.pending
      ∷ staged "c" 3 SpoolStatus.pending
      ∷ [];
}

abbrev json_bytes : List ℕ → Option ℕ
json_bytes es = some (length es)

spool-IsSequenced : IsSequenced spool.cdc_spool
spool-IsSequenced =
    ((λ _ _. omega arith, (λ _ _. omega arith, tt)), ((λ _ _. omega arith, tt), (tt, tt)))

SpoolStep-IsSequenced_example :
    IsSequenced (create_cdc_spool json_bytes spool (staged "d" 0 SpoolStatus.pending)).0.cdc_spool
SpoolStep-IsSequenced_example =
    SpoolStep-IsSequenced json_bytes {s = spool} (stage (staged "d" 0 SpoolStatus.pending) refl)
      spool-IsSequenced

stage_queue_example :
    queue (create_cdc_spool json_bytes spool (staged "d" 0 SpoolStatus.pending)).0 "t" "forward"
    ≡ queue spool "t" "forward"
      ++ (complete_record json_bytes
            (create_cdc_spool json_bytes spool (staged "d" 0 SpoolStatus.pending)).1
            (staged "d" 0 SpoolStatus.pending)
          ∷ [])
unfolding create_cdc_spool
stage_queue_example =
    stage_queue json_bytes spool (staged "d" 0 SpoolStatus.pending) "t" "forward" refl refl

a-ne-b : ◌≢◌ {A = String} "a" "b"
a-ne-b = ground (arith, eq_iff "a" "b")

a-ne-c : ◌≢◌ {A = String} "a" "c"
a-ne-c = ground (arith, eq_iff "a" "c")

b-ne-c : ◌≢◌ {A = String} "b" "c"
b-ne-c = ground (arith, eq_iff "b" "c")

spool-HasUniqueIds : HasUniqueIds spool.cdc_spool
spool-HasUniqueIds =
    ((λ e. a-ne-b (sym e), (λ e. a-ne-c (sym e), tt)), ((λ e. b-ne-c (sym e), tt), (tt, tt)))

spool-queue :
    queue spool "t" "forward"
    ≡ staged "b" 2 SpoolStatus.pending ∷ staged "c" 3 SpoolStatus.pending ∷ []
unfolding pending_records
spool-queue = refl

mark_queue_example :
    (t : Store ℕ) × (mark_cdc_spool_applied spool "b" 9 ≡ ok t)
    × (queue t "t" "forward" ≡ staged "c" 3 SpoolStatus.pending ∷ [])
mark_queue_example =
    mark_queue spool "t" "forward" 9 (staged "b" 2 SpoolStatus.pending)
      (staged "c" 3 SpoolStatus.pending ∷ []) spool-HasUniqueIds spool-queue

abbrev checkpoint : String → ℕ → CdcPosition
checkpoint task at = record {
  id = "p";
  task_id = task;
  direction = "forward";
  position_type = "LSN";
  position_value = "0/1";
  resource = "";
  lag_ms = 0;
  events_total = 0;
  events_pending = 0;
  recorded_at = at;
}

abbrev checkpoints : List CdcPosition
checkpoints = checkpoint "t" 1 ∷ checkpoint "u" 2 ∷ checkpoint "t" 3 ∷ []

compact_cdc_positions_hard_limit_lem_example :
    All (λ p. HasAsLate p (compact_cdc_positions_hard_limit checkpoints 1)) checkpoints
compact_cdc_positions_hard_limit_lem_example = compact_cdc_positions_hard_limit_lem checkpoints 1
