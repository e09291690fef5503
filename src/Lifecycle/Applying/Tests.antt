-- ===== src/Lifecycle/Applying/Tests.antt =====
-- The theorems on the application of transactions at a concrete transaction, and a few runs.
use dts.Common.{ℕ, String, false, ◌≡◌, refl, List, [], ◌∷◌, some, none, ok, arith}
use dts.Domain.{
  Task, CdcEvent, CdcOperation, DeadLetterStatus, SpoolStatus, full_and_incremental,
  cdc_catching_up,
}
use dts.Store.Defs.{Store}
use dts.Common.Keyed.{lookup, insert, delete}
use dts.Lifecycle.Applying.Effects.{World, after}
use dts.Store.DeadLetters.{get_cdc_dead_letter}
use dts.Lifecycle.Applying.Fence.{Settings, Letter, new_letter}
use dts.Lifecycle.Applying.Events.{
  confirmed, applied_result, apply_cdc_events, is_duplicate, Delivery, deliver, checkpoint_of,
}
use dts.Lifecycle.Applying.Kept.{Kept}
use dts.Lifecycle.Applying.Recovery.{replay_cdc_dead_letter, resolve_cdc_commit_uncertain}
use dts.Lifecycle.Applying.Replays.{IsDecided, resolve_committed_lem}
use dts.Lifecycle.Applying.Draining.{Staged, Attempt, drain_loop, drain_cdc_spool_locked}
use dts.Lifecycle.Applying.Rounds.{drain_loop_enough}
use dts.Lifecycle.Applying.Acknowledged.{
  IsAcknowledged, apply-IsAcknowledged, untyped-not_duplicate,
}

abbrev task : Task
task = record {
  id = "t";
  source_id = "s";
  target_id = "d";
  mode = full_and_incremental;
  status = cdc_catching_up;
  paused_from_status = none;
  full_engine = "dts";
  cdc_engine = "dts";
  rollback_cdc_engine = "dts";
  max_retries = 2;
  validation_enabled = false;
  progress = 100;
  total_chunks = 4;
  finished_chunks = 4;
  cdc_lag_ms = 10;
  last_error = "";
  updated_at = 1;
}

abbrev event : String → CdcEvent String
event type_ = record {
  id = "e";
  operation = CdcOperation.update;
  source_schema = "a";
  source_table = "b";
  before = [];
  after = [];
  position_type = type_;
  position_value = "0/7";
  resource = "slot";
  source_timestamp_ms = 90;
}

abbrev typed : CdcEvent String
typed = event "LSN"

abbrev untyped : CdcEvent String
untyped = event ""

abbrev settings : Settings
settings = record {
  digest = λ task direction type_ value resource. "dlq";
  json_bytes = λ events. 64;
  max_letter_bytes = 4096;
  fault_before_checkpoint = none;
  fault_after_checkpoint = none;
  find_sources = λ task. none;
  find_read_source = λ task direction. none;
  open_target = λ task. none;
  take_rows = λ events target. none;
}

abbrev world : World
world = record {
  store = record {
    migrations = ("t", task) ∷ [];
    engine_jobs = [];
    cdc_positions = [];
    cdc_spool = [];
    cdc_dead_letters = [];
    control_operations = [];
  };
  target = [];
}

-- The first delivery dies after its COMMIT, the second is whole.
abbrev deliveries : List Delivery
deliveries =
    record { now = 100; new_id = "c1"; outcome = confirmed; effects = 2; tasks = ("t", task) ∷ [] }
    ∷ record {
      now = 200;
      new_id = "c2";
      outcome = confirmed;
      effects = 9;
      tasks = ("t", task) ∷ [];
    }
    ∷ []

-- The second delivery is blocked: the target holds the transaction once.
crash_after_commit :
    (deliver settings "t" "forward" (typed ∷ []) deliveries world).target ≡ (typed ∷ []) ∷ []
unfolding deliver lookup insert
crash_after_commit = refl

applied_once :
    (apply_cdc_events settings 100 "c1" none confirmed "t" "forward" (typed ∷ []) 9 world).0
    ≡ ok (applied_result typed 1)
unfolding apply_cdc_events lookup
applied_once = refl

apply-IsAcknowledged_example :
    IsAcknowledged settings "t" "forward"
      (typed ∷ [])
      typed
      []
      (applied_result typed 1)
      (after (apply_cdc_events settings 100 "c1" none confirmed "t" "forward" (typed ∷ [])) 9 world)
apply-IsAcknowledged_example =
    apply-IsAcknowledged settings 100 "c1" none confirmed "t" "forward" (typed ∷ []) typed 9 world
      (applied_result typed 1) refl refl (omega arith) applied_once

-- Two whole deliveries of events that name no type of position.
abbrev whole : List Delivery
whole =
    record { now = 100; new_id = "c1"; outcome = confirmed; effects = 9; tasks = ("t", task) ∷ [] }
    ∷ record {
      now = 200;
      new_id = "c2";
      outcome = confirmed;
      effects = 9;
      tasks = ("t", task) ∷ [];
    }
    ∷ []

-- They commit twice.
untyped_twice :
    (deliver settings "t" "forward" (untyped ∷ []) whole world).target
    ≡ (untyped ∷ []) ∷ (untyped ∷ []) ∷ []
unfolding deliver lookup delete insert
untyped_twice = refl

-- With a type they commit once.
typed_once : (deliver settings "t" "forward" (typed ∷ []) whole world).target ≡ (typed ∷ []) ∷ []
unfolding deliver lookup delete insert
typed_once = refl

abbrev bridged : Store (CdcEvent String)
bridged = record world.store { cdc_positions = checkpoint_of 100 "c1" "t" "forward" untyped 1 ∷ [] }

untyped-not_duplicate_example : is_duplicate "t" "forward" untyped bridged ≡ false
untyped-not_duplicate_example =
    untyped-not_duplicate 100 "c1" "t" "forward" untyped 1 [] bridged refl refl

-- A dead letter of the transaction, after an attempt that failed before its COMMIT.
abbrev letter : DeadLetterStatus → Letter
letter status = new_letter 50 "dlq" "t" "forward" typed (typed ∷ []) 1 status "apply failed"

abbrev world_with : DeadLetterStatus → World
world_with status = record world {
  store = record world.store { cdc_dead_letters = ("dlq", letter status) ∷ [] };
}

-- The checkpoint fails after the COMMIT of a replay.
abbrev failing : Settings
failing = record settings { fault_before_checkpoint = some "checkpoint store is away" }

abbrev replayed : World
replayed =
    after (apply_cdc_events failing 100 "c1" (some "dlq") confirmed "t" "forward" (typed ∷ [])) 9
      (world_with DeadLetterStatus.open_)

-- A delivery after that commits the transaction again.
replayed_twice :
    (deliver settings "t" "forward"
      (typed ∷ [])
      (record {
        now = 200;
        new_id = "c2";
        outcome = confirmed;
        effects = 9;
        tasks = ("t", task) ∷ [];
      }
        ∷ [])
      (after
        (replay_cdc_dead_letter failing 100 "c1" confirmed "t" "dlq")
        9
        (world_with DeadLetterStatus.open_))).target
    ≡ (typed ∷ []) ∷ (typed ∷ []) ∷ []
unfolding replay_cdc_dead_letter deliver lookup insert delete
replayed_twice = refl

resolve_committed_lem_example :
    IsDecided "t"
      (letter DeadLetterStatus.commit_uncertain)
      typed
      (world_with DeadLetterStatus.commit_uncertain)
      (resolve_cdc_commit_uncertain settings 100 "c1" confirmed "t" "dlq" "COMMITTED" 9
        (world_with DeadLetterStatus.commit_uncertain))
unfolding get_cdc_dead_letter lookup
resolve_committed_lem_example =
    resolve_committed_lem settings 100 "c1" confirmed "t" "dlq"
      (letter DeadLetterStatus.commit_uncertain) typed 9
      (world_with DeadLetterStatus.commit_uncertain) refl refl refl (omega arith)

-- The confirmation stores the checkpoint and closes the letter.
confirmed_once :
    (resolve_cdc_commit_uncertain settings 100 "c1" confirmed "t" "dlq" "COMMITTED" 9
      (world_with DeadLetterStatus.commit_uncertain)).0
    ≡ ok (applied_result typed 1)
unfolding resolve_cdc_commit_uncertain lookup insert
confirmed_once = refl

abbrev staged : ℕ → String → CdcEvent String → Staged
staged sequence id e = record {
  id = id;
  task_id = "t";
  direction = "forward";
  sequence = sequence;
  position_type = "LSN";
  position_value = e.position_value;
  resource = "slot";
  events = e ∷ [];
  event_count = 1;
  payload_bytes = 64;
  status = SpoolStatus.pending;
  created_at = sequence;
  applied_at = 0;
}

abbrev next_event : CdcEvent String
next_event = record typed { position_value = "0/8" }

abbrev two_staged : List Staged
two_staged = staged 1 "a" typed ∷ staged 2 "b" next_event ∷ []

abbrev spooled : World
spooled = record world { store = record world.store { cdc_spool = two_staged } }

abbrev whole_attempt : ℕ → Attempt
whole_attempt r = record {
  now = 300;
  new_id = "c";
  outcome = confirmed;
  before_apply = none;
  before_mark = none;
  after_mark = none;
}

drained :
    (after (drain_cdc_spool_locked settings whole_attempt "t" "forward" 5 0) 30 spooled).target
    ≡ (next_event ∷ []) ∷ (typed ∷ []) ∷ []
unfolding drain_cdc_spool_locked lookup insert delete
drained = refl

drain_loop_enough_example :
    drain_loop settings whole_attempt "t" "forward" 2 2 30 spooled
    ≡ drain_loop settings whole_attempt "t" "forward" 3 2 30 spooled
drain_loop_enough_example =
    drain_loop_enough settings "t" "forward" whole_attempt 2 2 (omega arith) 30 spooled
