-- ===== src/Lifecycle/Rollback/Ending.antt =====
-- What a rollback leaves behind.
use dts.Common.{ℕ}
use dts.Domain.{Task, rollback_running, rolled_back}
use dts.Lifecycle.Service.{Service, with_task}

module _ {E : Type 0} where
  abbrev rolled_back_service : ℕ → Task → Service E → Service E
  rolled_back_service now task sv =
      with_task now (record task { status = rolled_back })
        (with_task now (record task { status = rollback_running }) sv)
