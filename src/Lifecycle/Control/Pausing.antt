-- ===== src/Lifecycle/Control/Pausing.antt =====
-- What `Pause` leaves behind.
use dts.Common.{
  ℕ, String, ◌≡◌, ◌∙◌, ap, Option, none, some, ok, err, Bool-cases, inl, inr, if◌then◌else◌, arith,
}
use dts.Common.Keyed.{lookup, delete}
use dts.Domain.{
  Status, Task, cancelled, paused, cdc_initializing, cdc_catching_up, rollback_syncing,
}
use dts.Lifecycle.Service.{refused, Service, with_task, save_task-found, get_task, get_task-lookup}
use dts.Lifecycle.Control.{cancel, is_finished}

-- The direction whose CDC jobs run for nothing else than this status.
abbrev pub direction_of : Status → Option String
direction_of cdc_initializing = some "forward"
direction_of cdc_catching_up = some "forward"
direction_of rollback_syncing = some "reverse"
direction_of _ = none

module _ {E : Type 0} where
  -- The service when the jobs are to be stopped.
  abbrev paused_service : ℕ → String → Task → Service E → Service E
  paused_service now id task sv =
      with_task now (record task { status = paused; paused_from_status = some task.status })
        (record sv { runners = delete id sv.runners })

  -- `Cancel` does not ask the table: of a stored task it accepts every status but FINISHED, also those
  -- that the table does not let go to CANCELLED, and stores the task as CANCELLED, its runner gone; it
  -- refuses a FINISHED one and leaves everything as it was.
  pub cancel_lem :
      (now : ℕ) (id : String) (sv : Service E) (task : Task)
      → get_task id sv.store ≡ ok task
      → task.id ≡ id
      → cancel now id sv ≡ (
          if is_finished task.status
          then (err (refused "finished task cannot be cancelled"), sv)
          else (
            ok tt,
            with_task now
                (record task { status = cancelled })
                (record sv { runners = delete id sv.runners }),
          ))
  unfolding cancel
  cancel_lem now id sv task f own =
      let g = ap (λ i. lookup i sv.store.migrations) own ∙ get_task-lookup sv.store id task f in
      elim (Bool-cases (is_finished task.status)) [
        | inl e ↦ ground (arith, f, e)
        | inr e ↦ ground (
          arith,
          f,
          e,
          save_task-found now (record task { status = cancelled })
              (record sv { runners = delete id sv.runners }) g,
        )
      ]
