-- ===== src/Lifecycle/Positions.antt =====
-- service.go: the newest checkpoint of a direction, and where capture and apply are allowed.
use dts.Common.{
  String, Bool, true, false, ◌||◌, ◌&&◌, ◌=s=◌, List, [], ◌∷◌, Option, none, some, if◌then◌else◌,
  ◌≡◌, Bool-cases, arith, inl, inr,
}
use dts.Domain.{
  Status, CdcPosition, rollback_syncing, rollback_ready, rollback_preparing, cdc_catching_up,
  ready_cutover, full_migrating, full_finished, validating,
}
use dts.Store.Defs.{Store}
use dts.Store.Positions.{list_cdc_positions}

-- The loop of `latestCDC`.
unfoldable pub first_of_direction : String → List CdcPosition → Option CdcPosition
first_of_direction direction [] = none
first_of_direction direction (p ∷ ps) =
    if p.direction =s= direction || (direction =s= "forward" && p.direction =s= "")
    then some p
    else first_of_direction direction ps

-- `latestCDC`
unfoldable pub latest_cdc : {E : Type 0} → Store E → String → String → Option CdcPosition
unfolding first_of_direction
latest_cdc s task_id direction = first_of_direction direction (list_cdc_positions s task_id 200)

-- The statuses of `cdcApplyReady`, for the reverse direction and for any other.
abbrev pub applies_reverse : Status → Bool
applies_reverse rollback_syncing = true
applies_reverse rollback_ready = true
applies_reverse _ = false

abbrev pub applies_forward : Status → Bool
applies_forward cdc_catching_up = true
applies_forward ready_cutover = true
applies_forward _ = false

-- `cdcApplyReady`
unfoldable pub cdc_apply_ready : Status → String → Bool
cdc_apply_ready status direction =
    if direction =s= "reverse" then applies_reverse status else applies_forward status

-- The statuses of `cdcCaptureReady`, likewise.
abbrev pub captures_reverse : Status → Bool
captures_reverse rollback_syncing = true
captures_reverse rollback_ready = true
captures_reverse rollback_preparing = true
captures_reverse _ = false

abbrev pub captures_forward : Status → Bool
captures_forward full_migrating = true
captures_forward full_finished = true
captures_forward validating = true
captures_forward cdc_catching_up = true
captures_forward ready_cutover = true
captures_forward _ = false

-- `cdcCaptureReady`
unfoldable pub cdc_capture_ready : Status → String → Bool
cdc_capture_ready status direction =
    if direction =s= "reverse" then captures_reverse status else captures_forward status

forward-captured :
    (status : Status) → applies_forward status ≡ true → captures_forward status ≡ true
forward-captured status h = ground arith

reverse-captured :
    (status : Status) → applies_reverse status ≡ true → captures_reverse status ≡ true
reverse-captured status h = ground arith

-- Wherever staged transactions may be applied to the target, capture of the source goes on too, in both
-- directions.
pub apply_ready_captures :
    (status : Status) (direction : String)
    → cdc_apply_ready status direction ≡ true
    → cdc_capture_ready status direction ≡ true
unfolding cdc_apply_ready cdc_capture_ready
apply_ready_captures status direction h = elim (Bool-cases (direction =s= "reverse")) [
  | inl e ↦ rw (e, cdc_capture_ready) (reverse-captured status (rw (e, cdc_apply_ready) at h))
  | inr e ↦ rw (e, cdc_capture_ready) (forward-captured status (rw (e, cdc_apply_ready) at h))
]
