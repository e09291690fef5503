-- ===== src/Lifecycle/Service.antt =====
-- service.go: the service's state, its errors, and the shape of its operations.
use dts.Common.{
  Option-cases, inl, inr, arith, Bool, true, false, ◌≡◌, refl, String, ℕ, List, none, some, Result,
  ok, err, if◌then◌else◌,
}
use dts.Common.Keyed.{lookup, insert}
use dts.Domain.{Status, Task}
use dts.Store.Defs.{Store, StoreError, not_found, get_migration, update_migration}
use dts.Lifecycle.Transitions.{can_transition}

-- `error`: the repository's, `Transition`'s, and the others by their fixed words.
pub data Fault : Type 0 where
  of_store : StoreError → Fault
  invalid_transition : Status → Status → Fault
  refused : String → Fault

-- `Service`: the repository, and `runners`, the tasks with a cancellable goroutine.
pub record Service (E : Type 0) : Type 0 where
  pub store : Store E
  pub runners : List (String × Unit {0})

-- An operation: an error leaves what was written before it.
abbrev pub Action : Type 0 → Type 0 → Type 0
Action E A = Service E → Result Fault A × Service E

-- A repository's error passed on.
abbrev pub from_store : {A : Type 0} → Result StoreError A → Result Fault A
from_store (ok a) = ok a
from_store (err e) = err (of_store e)

-- `Transition`, which returns the task with the new status.
unfoldable pub transition : Task → Status → Result Fault Task
transition m to =
    if can_transition m.status to
    then ok (record m { status = to })
    else err (invalid_transition m.status to)

-- A check that passed.
pub passed :
    {A : Type 0} (b : Bool) (e : Fault) (r : Result Fault A) {a : A}
    → (if b then err e else r) ≡ ok a
    → (b ≡ false) × (r ≡ ok a)
passed true e r h = cc
passed false e r h = (refl, h)

module _ {E : Type 0} where
  infixl 5 ◌>>=◌ ◌>>◌
  abbrev pub ◌>>=◌ : {A B : Type 0} → Action E A → (A → Action E B) → Action E B
  ◌>>=◌ m f s = let (r, t) = m s in elim r [ ok a ↦ f a t | err e ↦ (err e, t) ]

  abbrev pub ◌>>◌ : {A B : Type 0} → Action E A → Action E B → Action E B
  m >> k = m >>= λ _. k

  abbrev pub done : Action E (Unit {0})
  done s = (ok tt, s)

  -- What only reads the store.
  abbrev pub query : {A : Type 0} → (Store E → Result Fault A) → Action E A
  query f s = (f s.store, s)

  -- A write of the repository.
  abbrev pub write : (Store E → Result StoreError (Store E)) → Action E (Unit {0})
  write f s = elim (f s.store) [
    | ok t ↦ (ok tt, record s { store = t })
    | err e ↦ (err (of_store e), s)
  ]

  -- `_ = ...`: an error is dropped.
  abbrev pub ignore : Action E (Unit {0}) → Action E (Unit {0})
  ignore m s = (ok tt, (m s).1)

  -- `s.repo.GetMigration`
  abbrev pub get_task : String → Store E → Result Fault Task
  get_task id s = from_store (get_migration s id)

  -- `m.UpdatedAt = time.Now()` and `s.repo.UpdateMigration`.
  abbrev pub save_task : ℕ → Task → Action E (Unit {0})
  save_task now m = write (λ s. update_migration s (record m { updated_at = now }))

  -- The service with the task stored.
  abbrev pub with_task : ℕ → Task → Service E → Service E
  with_task now m s = record s {
    store = record s.store {
      migrations = insert m.id (record m { updated_at = now }) s.store.migrations;
    };
  }

  pub save_task-missing :
      (now : ℕ) (m : Task) (s : Service E)
      → lookup m.id s.store.migrations ≡ none
      → save_task now m s ≡ (err (of_store not_found), s)
  unfolding update_migration
  save_task-missing now m s e = ground (arith, e)

  pub save_task-found :
      (now : ℕ) (m : Task) (s : Service E) {old : Task}
      → lookup m.id s.store.migrations ≡ some old
      → save_task now m s ≡ (ok tt, with_task now m s)
  unfolding update_migration
  save_task-found now m s e = ground (arith, e)

pub get_task-lookup :
    {E : Type 0} (s : Store E) (id : String) (task : Task)
    → get_task id s ≡ ok task
    → lookup id s.migrations ≡ some task
unfolding get_migration
get_task-lookup s id task h = elim (Option-cases (lookup id s.migrations)) [
  | inl e ↦ ground (arith, h, e)
  | inr (m, e) ↦ ground (arith, h, e)
]
