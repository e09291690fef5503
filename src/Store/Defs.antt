-- ===== src/Store/Defs.antt =====
-- memory.go: the store, and the operations on migrations. A Go map is an association list, whose order
-- stands for the order of a `range` over the map. The mutex makes each operation one step. The store is
-- the one that `New` returns: its path is empty, so that `persistLocked` does nothing and cannot fail.
use dts.Common.{ℕ, String, List, none, some, Result, ok, err}
use dts.Common.Keyed.{lookup, insert}
use dts.Domain.{Task, CdcPosition, SpoolRecord, EngineJob, DeadLetter}

-- The errors that the operations return.
pub data StoreError : Type 0 where
  not_found lease_owner no_chunk already_exists : StoreError

-- `persistedControlOperation`
pub record ControlOperation : Type 0 where
  pub task_id : String
  pub operation : String
  pub owner : String
  pub lease_until : ℕ
  pub updated_at : ℕ

-- `Store`, with the parts that the modelled operations use.
pub record Store (E : Type 0) : Type 0 where
  pub migrations : List (String × Task)
  pub engine_jobs : List (String × EngineJob)
  pub cdc_positions : List CdcPosition
  pub cdc_spool : List (SpoolRecord E)
  pub cdc_dead_letters : List (String × DeadLetter E)
  pub control_operations : List (String × ControlOperation)

module _ {E : Type 0} where
  -- `GetMigration`
  unfoldable pub get_migration : Store E → String → Result StoreError Task
  get_migration s id = elim (lookup id s.migrations) [ none ↦ err not_found | some m ↦ ok m ]

  -- `UpdateMigration`
  unfoldable pub update_migration : Store E → Task → Result StoreError (Store E)
  update_migration s m = elim (lookup m.id s.migrations) [
    | none ↦ err not_found
    | some old ↦ ok (record s { migrations = insert m.id m s.migrations })
  ]
