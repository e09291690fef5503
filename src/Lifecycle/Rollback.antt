-- ===== src/Lifecycle/Rollback.antt =====
-- service.go: from the start of reverse CDC to the end of the rollback.
pub mod Gates
pub mod Ending
use dts.Common.{
  ℕ, String, Bool, true, false, ◌&&◌, ◌||◌, not, ◌==◌, ◌=s=◌, ltb, leb, List, [], ◌∷◌, Option, none,
  some, Result, ok, err, guard, if◌then◌else◌,
}
use text.Mathlib.Text.{starts_with}
use dts.Domain.{
  Status, Task, CdcPosition, rollback_preparing, rollback_syncing, rollback_ready, rollback_running,
  rolled_back,
}
use dts.Store.Defs.{Store}
use dts.Store.Positions.{create_cdc_position}
use dts.Store.Spool.{cdc_spool_stats}
use dts.Lifecycle.Service.{
  Fault, refused, Service, Action, ◌>>=◌, ◌>>◌, done, query, write, ignore, get_task, save_task,
  transition,
}
use dts.Lifecycle.Positions.{latest_cdc}
use dts.Lifecycle.Jobs.{request_stop_engine_jobs}

abbrev pub is_preparing : Status → Bool
is_preparing rollback_preparing = true
is_preparing _ = false

abbrev pub is_syncing : Status → Bool
is_syncing rollback_syncing = true
is_syncing _ = false

abbrev pub is_ready : Status → Bool
is_ready rollback_ready = true
is_ready _ = false

-- `if maxLagMS <= 0 { maxLagMS = 5000 }`
abbrev pub lag_bound : ℕ → ℕ
lag_bound max = if max == 0 then 5000 else max

-- The position as the service completes it.
abbrev pub reported : ℕ → String → String → CdcPosition → CdcPosition
reported now new_id task_id p = record p {
  id = new_id;
  task_id = task_id;
  direction = "reverse";
  recorded_at = now;
}

-- The three checks of the newest position in `ReadyForRollback`.
unfoldable pub check_latest : ℕ → Option CdcPosition → Result Fault (Unit {0})
check_latest max none = err (refused "no reverse CDC position has been reported")
check_latest max (some p) =
    if p.position_type =s= "EXTERNAL_MANAGED" && starts_with p.position_value "pending external"
    then err (refused "external reverse CDC engine has not reported an active source position")
    else (if ltb 0 p.events_pending
        then err (refused "reverse cdc still has pending events")
        else (if ltb max p.lag_ms
            then err (refused "latest reverse cdc lag exceeds threshold")
            else ok tt))

module _ {E : Type 0} where
  abbrev pub record_position : CdcPosition → Action E (Unit {0})
  record_position p = write (λ s. ok (create_cdc_position s p))

  -- `MarkRollbackCDCStarted`, with the id that `newID` returns.
  unfoldable pub mark_rollback_cdc_started :
      ℕ → String → String → Option CdcPosition → Action E (Unit {0})
  unfolding transition create_cdc_position
  mark_rollback_cdc_started now new_id id p = do
    task ← query (get_task id)
    query (λ _. guard (is_preparing task.status) (refused "reverse CDC cannot start"))
    (elim p [
      | none ↦ done
      | some q ↦
          if not (q.position_value =s= "") || not (q.lag_ms == 0) || not (q.events_total == 0)
          then record_position (reported now new_id id q)
          else done
    ])
    task' ← query (λ _. transition task rollback_syncing)
    save_task now task'

  -- `RecordRollbackCDCProgress`, without the alert.
  unfoldable pub record_rollback_cdc_progress :
      ℕ → String → String → CdcPosition → Action E (Unit {0})
  unfolding create_cdc_position
  record_rollback_cdc_progress now new_id id p = do
    task ← query (get_task id)
    query (λ _.
        guard (is_syncing task.status || is_ready task.status)
          (refused "task cannot accept reverse CDC progress"))
    record_position (reported now new_id id p)
    save_task now (record task { cdc_lag_ms = p.lag_ms })

  -- The checks of `ReadyForRollback`, up to the transition.
  unfoldable pub rollback_gates : ℕ → String → Task → Store E → Result Fault (Unit {0})
  unfolding check_latest latest_cdc cdc_spool_stats
  rollback_gates max id task s =
      if not (is_syncing task.status)
      then err (refused "task cannot enter rollback-ready")
      else (if ltb (lag_bound max) task.cdc_lag_ms
          then err (refused "reverse cdc lag exceeds threshold")
          else (if ltb 0 (cdc_spool_stats s id "reverse").pending_transactions
              then err (refused "reverse cdc spool still has pending transactions")
              else check_latest (lag_bound max) (latest_cdc s id "reverse")))

  -- `ReadyForRollback`
  unfoldable pub ready_for_rollback : ℕ → String → ℕ → Action E (Unit {0})
  unfolding transition rollback_gates
  ready_for_rollback now id max = do
    task ← query (get_task id)
    query (rollback_gates max id task)
    task' ← query (λ _. transition task rollback_ready)
    save_task now task'

  -- `Rollback`, without the archive of the validation report.
  unfoldable pub rollback : ℕ → String → Action E (Unit {0})
  unfolding transition
  rollback now id = do
    task ← query (get_task id)
    query (λ _. guard (is_ready task.status) (refused "task cannot roll back"))
    running ← query (λ _. transition task rollback_running)
    save_task now running
    over ← query (λ _. transition running rolled_back)
    save_task now over
    ignore (request_stop_engine_jobs now id "reverse")
