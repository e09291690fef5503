-- ===== src/Lifecycle/Control.antt =====
-- service.go: `Pause`, `Cancel` and `failTask`.
pub mod Pausing
use dts.Common.{
  ℕ, String, Bool, true, false, ◌&&◌, not, List, [], ◌∷◌, Option, none, some, Result, ok, err,
  guard, if◌then◌else◌,
}
use dts.Common.Keyed.{delete}
use dts.Domain.{
  Status, Task, paused, cancelled, finished, cdc_initializing, cdc_catching_up, rollback_syncing,
}
use dts.Store.Defs.{Store}
use dts.Lifecycle.Service.{
  Fault, refused, Service, Action, ◌>>=◌, ◌>>◌, done, query, write, ignore, get_task, save_task,
  transition,
}
use dts.Lifecycle.Jobs.{request_stop_engine_jobs}

abbrev pub is_finished : Status → Bool
is_finished finished = true
is_finished _ = false

-- The statuses that `failTask` leaves alone.
abbrev pub is_settled : Status → Bool
is_settled cancelled = true
is_settled paused = true
is_settled finished = true
is_settled _ = false

module _ {E : Type 0} where
  -- `if c := s.runners[id]; c != nil { c(); delete(s.runners, id) }`
  abbrev pub stop_runner : String → Action E (Unit {0})
  stop_runner id s = (ok tt, record s { runners = delete id s.runners })

  -- The last switch of `Pause`.
  abbrev pub stop_paused_jobs : ℕ → String → Status → Action E (Unit {0})
  stop_paused_jobs now id cdc_initializing = ignore (request_stop_engine_jobs now id "forward")
  stop_paused_jobs now id cdc_catching_up = ignore (request_stop_engine_jobs now id "forward")
  stop_paused_jobs now id rollback_syncing = ignore (request_stop_engine_jobs now id "reverse")
  stop_paused_jobs now id _ = done

  -- `Pause`
  unfoldable pub pause : ℕ → String → Action E (Unit {0})
  unfolding transition
  pause now id = do
    m ← query (get_task id)
    m' ← query (λ _. transition m paused)
    stop_runner id
    save_task now (record m' { paused_from_status = some m.status })
    stop_paused_jobs now id m.status

  -- `Cancel`
  unfoldable pub cancel : ℕ → String → Action E (Unit {0})
  cancel now id = do
    m ← query (get_task id)
    query (λ _. guard (not (is_finished m.status)) (refused "finished task cannot be cancelled"))
    stop_runner id
    save_task now (record m { status = cancelled })

  -- `failTask`, without its alert and log line.
  unfoldable pub fail_task : ℕ → String → String → Action E (Unit {0})
  fail_task now id cause s =
      ignore
        (do
          m ← query (get_task id)
          if is_settled m.status
              then done
              else save_task now (record m { status = Status.failed; last_error = cause }))
        s
