-- ===== src/Lifecycle/Transitions.antt =====
-- state_machine.go: the table of allowed status changes, and what follows from it alone.
use dts.Common.{Bool, true, false, ◌≡◌, refl, ◌⊎◌, inl, inr, arith}
use dts.Domain.{
  Status, created, prechecking, precheck_success, preparing, cdc_initializing, full_migrating,
  full_finished, cdc_catching_up, validating, ready_cutover, cutover_running, finished, paused,
  cancelled, rollback_preparing, rollback_syncing, rollback_ready, rollback_running, rolled_back,
}

-- `CanTransition`, the table `transitions`: what it does not list is false.
unfoldable pub can_transition : Status → Status → Bool
can_transition created prechecking = true
can_transition created cancelled = true
can_transition prechecking precheck_success = true
can_transition prechecking Status.failed = true
can_transition prechecking cancelled = true
can_transition precheck_success preparing = true
can_transition precheck_success cancelled = true
can_transition preparing cdc_initializing = true
can_transition preparing full_migrating = true
can_transition preparing Status.failed = true
can_transition preparing cancelled = true
can_transition cdc_initializing full_migrating = true
can_transition cdc_initializing cdc_catching_up = true
can_transition cdc_initializing paused = true
can_transition cdc_initializing Status.failed = true
can_transition cdc_initializing cancelled = true
can_transition full_migrating paused = true
can_transition full_migrating full_finished = true
can_transition full_migrating Status.failed = true
can_transition full_migrating cancelled = true
can_transition paused cdc_initializing = true
can_transition paused full_migrating = true
can_transition paused cdc_catching_up = true
can_transition paused validating = true
can_transition paused rollback_syncing = true
can_transition paused cancelled = true
can_transition full_finished cdc_catching_up = true
can_transition full_finished validating = true
can_transition full_finished finished = true
can_transition cdc_catching_up paused = true
can_transition cdc_catching_up validating = true
can_transition cdc_catching_up ready_cutover = true
can_transition cdc_catching_up Status.failed = true
can_transition validating paused = true
can_transition validating ready_cutover = true
can_transition validating finished = true
can_transition validating Status.failed = true
can_transition ready_cutover cutover_running = true
can_transition ready_cutover Status.failed = true
can_transition cutover_running finished = true
can_transition cutover_running Status.failed = true
can_transition finished rollback_preparing = true
can_transition rollback_preparing rollback_syncing = true
can_transition rollback_preparing Status.failed = true
can_transition rollback_preparing cancelled = true
can_transition rollback_syncing paused = true
can_transition rollback_syncing rollback_ready = true
can_transition rollback_syncing Status.failed = true
can_transition rollback_syncing cancelled = true
can_transition rollback_ready rollback_running = true
can_transition rollback_ready Status.failed = true
can_transition rollback_running rolled_back = true
can_transition rollback_running Status.failed = true
can_transition _ _ = false

-- A status that can be paused can also be resumed: the table has the way back from PAUSED.
pub pausable_resumable :
    (s : Status) → can_transition s paused ≡ true → can_transition paused s ≡ true
unfolding can_transition
pausable_resumable s h = ground arith

-- The table lets a task leave every status but FAILED, CANCELLED and ROLLED_BACK.
pub stuck_statuses :
    (s : Status)
    → ((t : Status) → can_transition s t ≡ false)
    → (s ≡ Status.failed) ⊎ (s ≡ cancelled) ⊎ (s ≡ rolled_back)
unfolding can_transition
stuck_statuses created h = cc (h prechecking)
stuck_statuses prechecking h = cc (h precheck_success)
stuck_statuses precheck_success h = cc (h preparing)
stuck_statuses preparing h = cc (h full_migrating)
stuck_statuses cdc_initializing h = cc (h paused)
stuck_statuses full_migrating h = cc (h paused)
stuck_statuses full_finished h = cc (h finished)
stuck_statuses cdc_catching_up h = cc (h paused)
stuck_statuses validating h = cc (h paused)
stuck_statuses ready_cutover h = cc (h cutover_running)
stuck_statuses cutover_running h = cc (h finished)
stuck_statuses finished h = cc (h rollback_preparing)
stuck_statuses paused h = cc (h validating)
stuck_statuses rollback_preparing h = cc (h rollback_syncing)
stuck_statuses rollback_syncing h = cc (h paused)
stuck_statuses rollback_ready h = cc (h rollback_running)
stuck_statuses rollback_running h = cc (h rolled_back)
stuck_statuses Status.failed h = inl refl
stuck_statuses cancelled h = inr (inl refl)
stuck_statuses rolled_back h = inr (inr refl)
