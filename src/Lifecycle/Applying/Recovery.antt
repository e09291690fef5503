-- ===== src/Lifecycle/Applying/Recovery.antt =====
-- service.go: what an operator does about a dead letter: replay it, or decide an unknown outcome.
use dts.Common.{
  ℕ, String, ◌+◌, not, ◌=s=◌, if◌then◌else◌, Option, none, some, Result, ok, err, last?, length,
}
use dts.Domain.{CdcEvent, DeadLetterStatus}
use dts.Store.Defs.{get_migration}
use dts.Store.DeadLetters.{get_cdc_dead_letter, update_cdc_dead_letter}
use dts.Lifecycle.Service.{refused}
use dts.Lifecycle.Applying.Effects.{
  Failure, crashed, fault, outcome_unknown, Run, ◌>>=◌, ◌>>◌, return, throw, ask, write, ignore,
  lift,
}
use dts.Lifecycle.Applying.Fence.{Settings, Letter, is_uncertain}
use dts.Lifecycle.Applying.Events.{
  Commit, Applied, applied_result, apply_cdc_events, persist_cdc_apply_result, check, fail_if,
}

-- The letter after a replay that failed. It is the one that was read before the replay.
abbrev pub replay_failed : ℕ → Failure → Letter → Letter
replay_failed now outcome_unknown v = record v {
  updated_at = now;
  retry_count = v.retry_count + 1;
  last_error = "replay failed";
  status = DeadLetterStatus.commit_uncertain;
}
replay_failed now _ v = record v {
  updated_at = now;
  retry_count = v.retry_count + 1;
  last_error = "replay failed";
}

abbrev pub resolved_letter : ℕ → String → Letter → Letter
resolved_letter now message v = record v {
  status = DeadLetterStatus.resolved;
  last_error = message;
  resolved_at = now;
  updated_at = now;
}

-- What `ReplayCDCDeadLetter` does with the result of `ApplyCDCEvents`.
unfoldable pub after_replay : ℕ → Letter → Result Failure Applied → Run Applied
unfolding update_cdc_dead_letter
after_replay now v (ok r) =
    write (λ s. update_cdc_dead_letter s (resolved_letter now "" v)) >> return r
after_replay now v (err crashed) = throw crashed
after_replay now v (err e) =
    ignore (write (λ s. update_cdc_dead_letter s (replay_failed now e v))) >> throw e

-- `ReplayCDCDeadLetter` of the letter that was read.
unfoldable pub replay_letter :
    Settings → ℕ → String → Commit → String → String → Letter → Run Applied
unfolding apply_cdc_events after_replay
replay_letter settings now new_id outcome task_id id v n w =
    let (r, left, w') =
      apply_cdc_events settings now new_id (some id) outcome task_id v.direction v.events n w in
    after_replay now v r left w'

-- `ReplayCDCDeadLetter`
unfoldable pub replay_cdc_dead_letter :
    Settings → ℕ → String → Commit → String → String → Run Applied
unfolding get_cdc_dead_letter replay_letter
replay_cdc_dead_letter settings now new_id outcome task_id id = do
  v ← ask (λ s. lift (get_cdc_dead_letter s id))
  check (v.task_id =s= task_id) "CDC dead letter does not belong to migration"
  check (not (is_uncertain v.status)) "automatic replay is forbidden"
  replay_letter settings now new_id outcome task_id id v

-- The decision COMMITTED, from the checkpoint on.
unfoldable pub close_confirmed : ℕ → Letter → CdcEvent String → Option String → Run Applied
unfolding update_cdc_dead_letter
close_confirmed now v last late = do
  fail_if late
  write (λ s.
      update_cdc_dead_letter s
        (resolved_letter now "operator confirmed target transaction COMMITTED" v))
  return (applied_result last (length v.events))

-- The decision COMMITTED: the checkpoint advances without a replay.
unfoldable pub confirm_committed :
    Settings → ℕ → String → String → Letter → Option (CdcEvent String) → Run Applied
unfolding get_migration persist_cdc_apply_result close_confirmed
confirm_committed settings now new_id task_id v none =
    throw (fault (refused "COMMIT_UNCERTAIN dead letter has no retained events"))
confirm_committed settings now new_id task_id v (some last) = do
  task ← ask (λ s. lift (get_migration s task_id))
  fail_if (settings.find_read_source task v.direction)
  late ← persist_cdc_apply_result settings now new_id task_id v.direction last (length v.events)
  close_confirmed now v last late

-- The decision NOT_COMMITTED: the letter is replayed.
abbrev pub to_replay : ℕ → Letter → Letter
to_replay now v = record v {
  status = DeadLetterStatus.replay_required;
  last_error = "operator confirmed target transaction NOT_COMMITTED";
  updated_at = now;
}

-- `ResolveCDCCommitUncertain` of the letter that was read, and of a decision that `strings.ToUpper` and
-- `strings.TrimSpace` leave as it is.
unfoldable pub resolve_letter :
    Settings → ℕ → String → Commit → String → String → String → Letter → Run Applied
unfolding confirm_committed update_cdc_dead_letter replay_cdc_dead_letter
resolve_letter settings now new_id outcome task_id id decision v = do
  check (v.task_id =s= task_id) "CDC dead letter does not belong to migration"
  check (is_uncertain v.status) "CDC dead letter is not COMMIT_UNCERTAIN"
  (if decision =s= "COMMITTED"
      then confirm_committed settings now new_id task_id v (last? v.events)
      else (if decision =s= "NOT_COMMITTED"
          then (write (λ s. update_cdc_dead_letter s (to_replay now v))
              >> replay_cdc_dead_letter settings now new_id outcome task_id id)
          else throw (fault (refused "decision must be COMMITTED or NOT_COMMITTED"))))

-- `ResolveCDCCommitUncertain`
unfoldable pub resolve_cdc_commit_uncertain :
    Settings → ℕ → String → Commit → String → String → String → Run Applied
unfolding get_cdc_dead_letter resolve_letter
resolve_cdc_commit_uncertain settings now new_id outcome task_id id decision = do
  v ← ask (λ s. lift (get_cdc_dead_letter s id))
  resolve_letter settings now new_id outcome task_id id decision v
