-- ===== src/Store/Control.antt =====
-- memory.go: the leases that keep two servers from running one control operation on a task.
use dts.Common.{
  ℕ, String, Bool, true, false, ◌+◌, ◌<◌, ◌≡◌, ◌≢◌, List, [], ◌∷◌, none, some, Result, ok, err, ltb,
  lt→ltb, not, ◌||◌, ◌=s=◌, if◌then◌else◌, arith, eq_iff, All, Option-cases, inl, inr,
}
use dts.Common.Keyed.{lookup, insert, delete, lookup-insert, lookup-delete}
use dts.Store.Defs.{Store, StoreError, ControlOperation, lease_owner}

module _ {E : Type 0} where
  -- `AcquireControlOperation` at time `now`.
  unfoldable pub acquire_control_operation :
      Store E → String → String → String → ℕ → ℕ → Store E × Bool
  acquire_control_operation s task_id operation owner lease now =
      let taken = record s {
        control_operations =
            insert task_id
              (record {
                task_id = task_id;
                operation = operation;
                owner = owner;
                lease_until = now + lease;
                updated_at = now;
              })
              s.control_operations;
      } in
      elim (lookup task_id s.control_operations) [
        | none ↦ (taken, true)
        | some current ↦ if ltb now current.lease_until then (s, false) else (taken, true)
      ]

  -- `RenewControlOperation` at time `now`.
  unfoldable pub renew_control_operation :
      Store E → String → String → String → ℕ → ℕ → Result StoreError (Store E)
  renew_control_operation s task_id operation owner lease now =
      elim (lookup task_id s.control_operations) [
        | none ↦ err lease_owner
        | some current ↦
            if not (current.owner =s= owner) || not (current.operation =s= operation)
            then err lease_owner
            else ok (record s {
              control_operations =
                  insert task_id (record current { lease_until = now + lease; updated_at = now })
                    s.control_operations;
            })
      ]

  -- `ReleaseControlOperation`
  unfoldable pub release_control_operation :
      Store E → String → String → String → Result StoreError (Store E)
  release_control_operation s task_id operation owner = elim (lookup task_id s.control_operations) [
    | none ↦ ok s
    | some current ↦
        if not (current.owner =s= owner) || not (current.operation =s= operation)
        then err lease_owner
        else ok (record s { control_operations = delete task_id s.control_operations })
  ]

-- A call by some server, at a time.
pub data ControlCall : Type 0 where
  acquire : String → String → String → ℕ → ℕ → ControlCall
  renew : String → String → String → ℕ → ℕ → ControlCall
  release : String → String → String → ControlCall

-- An acquisition by anybody before the time `until`, or another call by another server than `owner`.
pub data IsForeign (owner : String) (until : ℕ) : ControlCall → Type 0 where
  foreign_acquire :
      (task_id operation other : String) (lease now : ℕ)
      → now < until
      → IsForeign owner until (acquire task_id operation other lease now)
  foreign_renew :
      (task_id operation other : String) (lease now : ℕ)
      → other ≢ owner
      → IsForeign owner until (renew task_id operation other lease now)
  foreign_release :
      (task_id operation other : String)
      → other ≢ owner
      → IsForeign owner until (release task_id operation other)

module _ {E : Type 0} where
  -- The store after a result that may be an error, which leaves it as it was.
  abbrev pub or_same : Store E → Result StoreError (Store E) → Store E
  or_same s (ok t) = t
  or_same s (err e) = s

  -- The store after a call.
  unfoldable pub call_control : Store E → ControlCall → Store E
  unfolding acquire_control_operation renew_control_operation release_control_operation
  call_control s (acquire task operation owner lease now) =
      (acquire_control_operation s task operation owner lease now).0
  call_control s (renew task operation owner lease now) =
      or_same s (renew_control_operation s task operation owner lease now)
  call_control s (release task operation owner) =
      or_same s (release_control_operation s task operation owner)

  unfoldable pub call_controls : Store E → List ControlCall → Store E
  unfolding call_control
  call_controls s [] = s
  call_controls s (c ∷ cs) = call_controls (call_control s c) cs

  call_control-holds :
      (s : Store E) (task : String) (c : ControlCall) {held : ControlOperation}
      → lookup task s.control_operations ≡ some held
      → IsForeign held.owner held.lease_until c
      → lookup task (call_control s c).control_operations ≡ some held
  unfolding call_control
  call_control-holds s task (acquire t op other lease now) {held} h (foreign_acquire _ _ _ _ _ e) =
      ground (
        arith,
        eq_iff t task,
        lookup-insert t task
            (record {
              task_id = t;
              operation = op;
              owner = other;
              lease_until = now + lease;
              updated_at = now;
            })
            s.control_operations,
      )
  call_control-holds s task (renew t op other lease now) {held} h (foreign_renew _ _ _ _ _ ne) =
      elim (Option-cases (lookup t s.control_operations)) [
        | inl e ↦ rw (e, call_control, renew_control_operation) h
        | inr (c, e) ↦ ground (
          arith,
          eq_iff t task,
          eq_iff c.owner other,
          lookup-insert t task (record c { lease_until = now + lease; updated_at = now })
              s.control_operations,
        )
      ]
  call_control-holds s task (release t op other) {held} h (foreign_release _ _ _ ne) =
      elim (Option-cases (lookup t s.control_operations)) [
        | inl e ↦ rw (e, call_control, release_control_operation) h
        | inr (c, e) ↦
            ground (
              arith,
              eq_iff t task,
              eq_iff c.owner other,
              lookup-delete t task s.control_operations,
            )
      ]

  -- While a control operation's lease has not run out, nothing that other servers call takes it away or
  -- changes it: after any calls, of which each acquisition comes before the lease's end and each
  -- renewal and release comes from another server than the owner, the store holds the same operation,
  -- and an acquisition before the lease's end is refused.
  pub control_exclusive :
      (s : Store E) (task : String) (cs : List ControlCall) {held : ControlOperation}
      (operation owner : String) (lease now : ℕ)
      → lookup task s.control_operations ≡ some held
      → All (IsForeign held.owner held.lease_until) cs
      → now < held.lease_until
      → (lookup task (call_controls s cs).control_operations ≡ some held)
        × ((acquire_control_operation (call_controls s cs) task operation owner lease now).1
            ≡ false)
  unfolding call_controls acquire_control_operation
  control_exclusive s task [] operation owner lease now h k early =
      (h, rw (h, acquire_control_operation) (rw (lt→ltb _ _ early)))
  control_exclusive s task (c ∷ cs) operation owner lease now h k early =
      control_exclusive (call_control s c) task cs operation owner lease now
        (call_control-holds s task c h k.0) k.1 early
