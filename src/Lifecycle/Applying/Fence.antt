-- ===== src/Lifecycle/Applying/Fence.antt =====
-- service.go: the fence that `ApplyCDCEvents` puts into the dead letters before a commit, and what is
-- recorded of a transaction that failed.
use dts.Common.{
  ℕ, String, Bool, true, false, ◌+◌, ◌&&◌, ◌||◌, not, ◌==◌, ◌=s=◌, ltb, if◌then◌else◌, List, Option,
  none, some, Result, ok, err, last?,
}
use dts.Common.Bytes.{equal_fold}
use dts.Domain.{Task, CdcEvent, DeadLetter, DeadLetterStatus}
use dts.Store.Defs.{Store, StoreError}
use dts.Store.DeadLetters.{
  create_cdc_dead_letter, update_cdc_dead_letter, get_cdc_dead_letter, delete_cdc_dead_letter,
  list_cdc_dead_letters, find_letter,
}
use dts.Lifecycle.Applying.Effects.{
  Events, Failure, outcome_unknown, blocked, Run, ◌>>=◌, ◌>>◌, return, ask, write, ignore, lift,
}

-- What the environment decides: the digest of the five texts that a dead letter's id is made of, the
-- length of the JSON text of a transaction and its limit, the injected faults, whether the task's data
-- sources are stored, the one that a direction reads in particular, and the connector of its target can be
-- opened, and whether the target takes the rows
-- of a transaction.
pub record Settings : Type 0 where
  pub digest : String → String → String → String → String → String
  pub json_bytes : Events → ℕ
  pub max_letter_bytes : ℕ
  pub fault_before_checkpoint : Option String
  pub fault_after_checkpoint : Option String
  pub find_sources : Task → Option String
  pub find_read_source : Task → String → Option String
  pub open_target : Task → Option String
  pub take_rows : Events → List Events → Option String

abbrev pub Letter : Type 0
Letter = DeadLetter (CdcEvent String)

abbrev pub is_uncertain : DeadLetterStatus → Bool
is_uncertain DeadLetterStatus.commit_uncertain = true
is_uncertain _ = false

abbrev pub is_replay_required : DeadLetterStatus → Bool
is_replay_required DeadLetterStatus.replay_required = true
is_replay_required _ = false

-- `cdcDeadLetterID`
abbrev pub cdc_dead_letter_id : Settings → String → String → CdcEvent String → String
cdc_dead_letter_id settings task_id direction e =
    settings.digest task_id direction e.position_type e.position_value e.resource

abbrev pub fence_message : String
fence_message =
    "pre-COMMIT durable ambiguity fence; target outcome must never be inferred without checkpoint"

-- `cdcCommitFence`
pub record CommitFence : Type 0 where
  pub id : String
  pub existed : Bool

-- The letter as the fence leaves it.
abbrev pub fenced : ℕ → String → CdcEvent String → Events → Letter → Letter
fenced now direction last events v = record v {
  direction = direction;
  position_type = last.position_type;
  position_value = last.position_value;
  resource = last.resource;
  events = events;
  status = DeadLetterStatus.commit_uncertain;
  last_error = fence_message;
  updated_at = now;
  resolved_at = 0;
}

abbrev pub new_letter :
    ℕ → String → String → String → CdcEvent String → Events → ℕ → DeadLetterStatus → String → Letter
new_letter now id task_id direction last events retries status message = record {
  id = id;
  task_id = task_id;
  direction = direction;
  position_type = last.position_type;
  position_value = last.position_value;
  resource = last.resource;
  events = events;
  last_error = message;
  retry_count = retries;
  status = status;
  created_at = now;
  updated_at = now;
  resolved_at = 0;
}

-- The two branches of `beginCDCCommitFence`: a dead letter of that id is reused.
unfoldable pub write_fence :
    Settings → ℕ → String → String → Events → CdcEvent String → Option Letter → Run CommitFence
unfolding update_cdc_dead_letter create_cdc_dead_letter
write_fence settings now task_id direction events last (some v) =
    write (λ s. update_cdc_dead_letter s (fenced now direction last events v))
    >> return (record { id = cdc_dead_letter_id settings task_id direction last; existed = true })
write_fence settings now task_id direction events last none =
    let id = cdc_dead_letter_id settings task_id direction last in
    write (λ s. ok (
      create_cdc_dead_letter s (
        new_letter now id task_id direction last events 0 DeadLetterStatus.commit_uncertain
          fence_message)))
    >> return (record { id = id; existed = false })

-- `beginCDCCommitFence`, of events whose last one has a position.
unfoldable pub begin_cdc_commit_fence :
    Settings → ℕ → String → String → Events → CdcEvent String → Run CommitFence
unfolding list_cdc_dead_letters find_letter write_fence
begin_cdc_commit_fence settings now task_id direction events last = do
  found ← ask (λ s. ok (
      find_letter (λ v. v.id =s= cdc_dead_letter_id settings task_id direction last)
        (list_cdc_dead_letters s task_id)))
  write_fence settings now task_id direction events last found

-- `completeCDCCommitFence`
unfoldable pub complete_cdc_commit_fence : ℕ → CommitFence → Run (Unit {0})
unfolding delete_cdc_dead_letter get_cdc_dead_letter update_cdc_dead_letter
complete_cdc_commit_fence now fence =
    if not fence.existed then write (λ s. ok (delete_cdc_dead_letter s fence.id)) else (do
      v ← ask (λ s. lift (get_cdc_dead_letter s fence.id))
      write (λ s. update_cdc_dead_letter s (record v {
        status = DeadLetterStatus.resolved;
        last_error = "";
        resolved_at = now;
        updated_at = now;
      })))

-- The fence of a first attempt, which nothing else has touched.
abbrev pub is_transient : Letter → Bool
is_transient v = is_uncertain v.status && v.retry_count == 0 && v.last_error =s= fence_message

abbrev pub clean_letter : String → Result StoreError Letter → Run (Unit {0})
clean_letter id (err e) = return tt
clean_letter id (ok v) =
    if is_transient v then write (λ s. ok (delete_cdc_dead_letter s id)) else return tt

-- `cleanupTransientCDCCommitFence`
unfoldable pub cleanup_transient_cdc_commit_fence :
    Settings → String → String → CdcEvent String → Run (Unit {0})
unfolding get_cdc_dead_letter delete_cdc_dead_letter
cleanup_transient_cdc_commit_fence settings task_id direction last = do
  let id = cdc_dead_letter_id settings task_id direction last
  found ← ask (λ s. ok (get_cdc_dead_letter s id))
  clean_letter id found

-- The test of `unresolvedCommitRecovery`.
abbrev pub is_unresolved : String → Letter → Bool
is_unresolved direction v =
    equal_fold v.direction direction && (is_uncertain v.status || is_replay_required v.status)

-- `unresolvedCommitRecovery`
unfoldable pub unresolved_commit_recovery :
    String → String → Store (CdcEvent String) → Option Letter
unfolding list_cdc_dead_letters find_letter
unresolved_commit_recovery task_id direction s =
    find_letter (is_unresolved direction) (list_cdc_dead_letters s task_id)

abbrev pub status_of : Failure → DeadLetterStatus
status_of outcome_unknown = DeadLetterStatus.commit_uncertain
status_of _ = DeadLetterStatus.open_

-- The existing letter after another failure: COMMIT_UNCERTAIN is never downgraded.
abbrev pub failed_again : ℕ → Events → String → DeadLetterStatus → Letter → Letter
failed_again now events message status v = record v {
  events = events;
  last_error = message;
  retry_count = v.retry_count + 1;
  status = if is_uncertain v.status then DeadLetterStatus.commit_uncertain else status;
  updated_at = now;
  resolved_at = 0;
}

abbrev pub is_blocked : Failure → Bool
is_blocked blocked = true
is_blocked _ = false

-- The two branches of `recordCDCDeadLetter`: a letter that is there fails again.
unfoldable pub write_letter :
    Settings
    → ℕ
    → String
    → String
    → Events
    → CdcEvent String
    → DeadLetterStatus
    → String
    → Result StoreError Letter
    → Run (Unit {0})
unfolding update_cdc_dead_letter create_cdc_dead_letter
write_letter settings now task_id direction events last status message (ok v) =
    ignore (write (λ s. update_cdc_dead_letter s (failed_again now events message status v)))
write_letter settings now task_id direction events last status message (err e) =
    let id = cdc_dead_letter_id settings task_id direction last in
    ignore (
      write (λ s. ok (
        create_cdc_dead_letter s
          (new_letter now id task_id direction last events 1 status message))))

-- `recordCDCDeadLetter`, without its alerts. `message` is the text of the error.
unfoldable pub record_cdc_dead_letter :
    Settings → ℕ → String → String → Events → Failure → String → Run (Unit {0})
unfolding get_cdc_dead_letter write_letter
record_cdc_dead_letter settings now task_id direction events cause message = elim (last? events) [
  | none ↦ return tt
  | some last ↦
      if is_blocked cause
        || last.position_value =s= ""
        || settings.max_letter_bytes == 0
        || ltb settings.max_letter_bytes (settings.json_bytes events)
      then return tt
      else (do
        found ←
            ask
              (λ s. ok (get_cdc_dead_letter s (cdc_dead_letter_id settings task_id direction last)))
        write_letter settings now task_id direction events last (status_of cause) message found)
]
