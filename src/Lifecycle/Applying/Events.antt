-- ===== src/Lifecycle/Applying/Events.antt =====
-- service.go: `ApplyCDCEvents` of a row transaction on a target whose connector is transactional, with the
-- conflict mode SOURCE_WINS, which records no conflicts; and the last lines of
-- `ApplyEngineJobCDCEvents`, which call it. `direction` is one that `strings.ToLower` and
-- `strings.TrimSpace` leave as it is. The rows themselves go to the connector.
use dts.Common.{
  ℕ, String, Bool, true, false, ◌-◌, ◌&&◌, ◌||◌, not, ◌=s=◌, ltb, if◌then◌else◌, List, [], ◌∷◌,
  Option, none, some, Result, ok, err, last?, length,
}
use dts.Common.Bytes.{equal_fold}
use dts.Domain.{Task, CdcEvent, CdcPosition, CdcOperation}
use dts.Store.Defs.{Store, get_migration, update_migration}
use dts.Store.Positions.{create_cdc_position, list_cdc_positions}
use dts.Lifecycle.Service.{refused}
use dts.Lifecycle.Positions.{cdc_apply_ready}
use dts.Lifecycle.Applying.Effects.{
  Events, World, Failure, crashed, fault, outcome_unknown, blocked, Run, ◌>>=◌, ◌>>◌, return, throw,
  ask, effect, write, lift, after,
}
use dts.Lifecycle.Applying.Fence.{
  Settings, CommitFence, Letter, is_replay_required, begin_cdc_commit_fence,
  complete_cdc_commit_fence, cleanup_transient_cdc_commit_fence, unresolved_commit_recovery,
  record_cdc_dead_letter,
}

-- What becomes of a COMMIT: the target confirms it, or its answer is lost, after it committed or not.
pub data Commit : Type 0 where
  confirmed : Commit
  lost : Bool → Commit

-- `CDCApplyResult`
pub record Applied : Type 0 where
  pub applied : ℕ
  pub last_event_id : String
  pub position_type : String
  pub position_value : String
  pub duplicate : Bool

-- `if positionType == "" { positionType = "EVENT_BRIDGE" }`
abbrev pub stored_type : CdcEvent String → String
stored_type last = if last.position_type =s= "" then "EVENT_BRIDGE" else last.position_type

-- The checkpoint of `persistCDCApplyResult`, as `recordCDCProgress` and `RecordRollbackCDCProgress`
-- complete it.
abbrev pub checkpoint_of : ℕ → String → String → String → CdcEvent String → ℕ → CdcPosition
checkpoint_of now new_id task_id direction last total = record {
  id = new_id;
  task_id = task_id;
  direction = direction;
  position_type = stored_type last;
  position_value = last.position_value;
  resource = last.resource;
  lag_ms =
      if ltb 0 last.source_timestamp_ms && ltb last.source_timestamp_ms now
      then now - last.source_timestamp_ms
      else 0;
  events_total = total;
  events_pending = 0;
  recorded_at = now;
}

-- The two writes of a progress report.
unfoldable pub store_progress : ℕ → CdcPosition → Task → Run (Unit {0})
unfolding create_cdc_position update_migration
store_progress now p task = do
  write (λ s. ok (create_cdc_position s p))
  write (λ s. update_migration s (record task { cdc_lag_ms = p.lag_ms; updated_at = now }))

-- `recordCDCProgress` or `RecordRollbackCDCProgress`, after the direction; their alerts are left out. Both
-- accept a task where `cdcApplyReady` holds.
unfoldable pub record_progress : ℕ → String → String → CdcPosition → Run (Unit {0})
unfolding get_migration cdc_apply_ready store_progress
record_progress now id direction p = do
  task ← ask (λ s. lift (get_migration s id))
  (if cdc_apply_ready task.status direction
      then store_progress now p task
      else throw (fault (refused "task cannot accept CDC progress")))

-- `persistCDCApplyResult`: an error of its own, or the fault that is injected once the checkpoint stands.
unfoldable pub persist_cdc_apply_result :
    Settings → ℕ → String → String → String → CdcEvent String → ℕ → Run (Option String)
unfolding record_progress
persist_cdc_apply_result settings now new_id id direction last total =
    elim settings.fault_before_checkpoint [
      | some e ↦ throw (fault (refused e))
      | none ↦
          record_progress now id direction (checkpoint_of now new_id id direction last total)
          >> return settings.fault_after_checkpoint
    ]

-- The first checkpoint of the direction, if it is the one of the event: the loop over the positions, up
-- to its `break`.
unfoldable pub is_checkpointed : String → CdcEvent String → List CdcPosition → Bool
unfolding equal_fold
is_checkpointed direction last [] = false
is_checkpointed direction last (p ∷ ps) =
    if not (p.direction =s= direction)
    then is_checkpointed direction last ps
    else equal_fold p.position_type last.position_type && p.position_value =s= last.position_value

unfoldable pub is_duplicate : String → String → CdcEvent String → Store (CdcEvent String) → Bool
unfolding is_checkpointed list_cdc_positions
is_duplicate id direction last s = is_checkpointed direction last (list_cdc_positions s id 50)

-- A recovery that is open blocks, but for the explicit replay of its letter.
abbrev pub blocks : Option String → Option Letter → Bool
blocks bypass none = false
blocks none (some v) = true
blocks (some id) (some v) = not (is_replay_required v.status && id =s= v.id)

abbrev pub is_checkpoint : CdcOperation → Bool
is_checkpoint CdcOperation.checkpoint = true
is_checkpoint _ = false

unfoldable pub all_checkpoints : Events → Bool
all_checkpoints [] = true
all_checkpoints (e ∷ events) = is_checkpoint e.operation && all_checkpoints events

-- `tx.CommitCDCTransaction`
unfoldable pub commit_transaction : Events → Commit → Run (Unit {0})
commit_transaction events confirmed = effect λ w. (ok tt, record w { target = events ∷ w.target })
commit_transaction events (lost true) =
    effect λ w. (err outcome_unknown, record w { target = events ∷ w.target })
commit_transaction events (lost false) = effect λ w. (err outcome_unknown, w)

abbrev pub check : Bool → String → Run (Unit {0})
check true message = return tt
check false message = throw (fault (refused message))

abbrev pub fail_if : Option String → Run (Unit {0})
fail_if none = return tt
fail_if (some message) = throw (fault (refused message))

-- The result of a transaction whose position is stored.
abbrev pub applied_result : CdcEvent String → ℕ → Applied
applied_result last count = record {
  applied = count;
  last_event_id = last.id;
  position_type = stored_type last;
  position_value = last.position_value;
  duplicate = false;
}

-- From the commit of the target on: the checkpoint, and the end of the fence.
unfoldable pub settle :
    Settings → ℕ → String → String → String → Events → CdcEvent String → CommitFence → Run Applied
unfolding persist_cdc_apply_result complete_cdc_commit_fence
settle settings now new_id id direction events last fence = do
  late ← persist_cdc_apply_result settings now new_id id direction last (length events)
  complete_cdc_commit_fence now fence
  fail_if late
  return (applied_result last (length events))

-- From the begin of the target's transaction on.
unfoldable pub apply_rows :
    Settings → ℕ → String → String → String → Events → CdcEvent String → Commit → Run Applied
unfolding begin_cdc_commit_fence commit_transaction settle
apply_rows settings now new_id id direction events last outcome = do
  (λ n w. fail_if (settings.take_rows events w.target) n w)
  fence ← begin_cdc_commit_fence settings now id direction events last
  commit_transaction events outcome
  settle settings now new_id id direction events last fence

-- A batch of checkpoints only moves the position.
unfoldable pub apply_checkpoints :
    Settings → ℕ → String → String → String → CdcEvent String → Run Applied
unfolding persist_cdc_apply_result
apply_checkpoints settings now new_id id direction last = do
  late ← persist_cdc_apply_result settings now new_id id direction last 0
  fail_if late
  return (applied_result last 0)

-- `ApplyCDCEvents` once the data sources are found.
unfoldable pub apply_found :
    Settings → ℕ → String → Commit → Task → String → String → Events → CdcEvent String → Run Applied
unfolding apply_checkpoints apply_rows all_checkpoints
apply_found settings now new_id outcome task id direction events last =
    if all_checkpoints events
    then apply_checkpoints settings now new_id id direction last
    else (fail_if (settings.open_target task)
        >> apply_rows settings now new_id id direction events last outcome)

-- `ApplyCDCEvents` after the checks of the request.
unfoldable pub apply_new :
    Settings
    → ℕ
    → String
    → Option String
    → Commit
    → Task
    → String
    → String
    → Events
    → CdcEvent String
    → Run Applied
unfolding unresolved_commit_recovery apply_found
apply_new settings now new_id bypass outcome task id direction events last = do
  recovery ← ask (λ s. ok (unresolved_commit_recovery id direction s))
  (if blocks bypass recovery then throw blocked else return tt)
  fail_if (settings.find_sources task)
  apply_found settings now new_id outcome task id direction events last

abbrev pub known_result : CdcEvent String → Applied
known_result last = record {
  applied = 0;
  last_event_id = last.id;
  position_type = last.position_type;
  position_value = last.position_value;
  duplicate = true;
}

-- A transaction whose checkpoint is the newest of its direction was applied before.
unfoldable pub apply_duplicate : Settings → String → String → CdcEvent String → Run Applied
unfolding cleanup_transient_cdc_commit_fence
apply_duplicate settings id direction last =
    cleanup_transient_cdc_commit_fence settings id direction last >> return (known_result last)

-- `ApplyCDCEvents` from its look at the newest checkpoint on.
unfoldable pub apply_checked :
    Settings
    → ℕ
    → String
    → Option String
    → Commit
    → Task
    → String
    → String
    → Events
    → CdcEvent String
    → Run Applied
unfolding is_duplicate apply_duplicate apply_new
apply_checked settings now new_id bypass outcome task id direction events last = do
  again ← ask (λ s. ok (is_duplicate id direction last s))
  (if again
      then apply_duplicate settings id direction last
      else apply_new settings now new_id bypass outcome task id direction events last)

-- `ApplyCDCEvents` from the checks of the request on.
unfoldable pub apply_to :
    Settings
    → ℕ
    → String
    → Option String
    → Commit
    → String
    → String
    → Events
    → Task
    → Option (CdcEvent String)
    → Run Applied
unfolding cdc_apply_ready apply_checked
apply_to settings now new_id bypass outcome id direction events task none =
    throw (fault (refused "CDC event batch is empty"))
apply_to settings now new_id bypass outcome id direction events task (some last) = do
  check (not (last.position_value =s= "")) "final CDC event must include a durable source position"
  check (cdc_apply_ready task.status direction) "CDC apply is unsafe"
  apply_checked settings now new_id bypass outcome task id direction events last

-- `ApplyCDCEvents`. `bypass` is the dead letter that an explicit replay is about.
unfoldable pub apply_cdc_events :
    Settings → ℕ → String → Option String → Commit → String → String → Events → Run Applied
unfolding get_migration apply_to
apply_cdc_events settings now new_id bypass outcome id direction events = do
  task ← ask (λ s. lift (get_migration s id))
  check (direction =s= "forward" || direction =s= "reverse") "invalid CDC direction"
  apply_to settings now new_id bypass outcome id direction events task (last? events)

-- The caller: an error is recorded as a dead letter, unless the process died.
abbrev pub recorded : Settings → ℕ → String → String → Events → Result Failure Applied → Run Applied
recorded settings now id direction events (ok r) = return r
recorded settings now id direction events (err crashed) = throw crashed
recorded settings now id direction events (err e) =
    record_cdc_dead_letter settings now id direction events e "apply failed" >> throw e

-- `result, applyErr := s.ApplyCDCEvents(...)` and the rest of `ApplyEngineJobCDCEvents`.
unfoldable pub apply_and_record :
    Settings → ℕ → String → Commit → String → String → Events → Run Applied
unfolding apply_cdc_events record_cdc_dead_letter
apply_and_record settings now new_id outcome id direction events n w =
    let (r, left, w') = apply_cdc_events settings now new_id none outcome id direction events n w in
    recorded settings now id direction events r left w'

-- One delivery of a transaction: the time, the id of its checkpoint, what becomes of its COMMIT, how many
-- effects the server makes before it dies, and the tasks as others have left them.
pub record Delivery : Type 0 where
  pub now : ℕ
  pub new_id : String
  pub outcome : Commit
  pub effects : ℕ
  pub tasks : List (String × Task)

-- The source delivers one transaction again and again.
unfoldable pub deliver : Settings → String → String → Events → List Delivery → World → World
unfolding apply_and_record
deliver settings id direction events [] w = w
deliver settings id direction events (d ∷ ds) w =
    let met : World = record w { store = record w.store { migrations = d.tasks } } in
    deliver settings id direction events ds
      (after (apply_and_record settings d.now d.new_id d.outcome id direction events) d.effects met)
