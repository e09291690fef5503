-- ===== src/Lifecycle/Rollback/Gates.antt =====
-- What `ReadyForRollback` guarantees.
use dts.Common.{
  ℕ, String, false, ◌≡◌, ◌⊎◌, ◌≤◌, refl, ◌∙◌, ap, not, List, [], ◌∷◌, Option, none, some, ok, err,
  Result-cases, Bool-cases, Option-cases, inl, inr, arith, ltb, length, ◌=s=◌, ◌&&◌,
}
use text.Mathlib.Text.{starts_with}
use dts.Common.Keyed.{lookup}
use dts.Domain.{Task, CdcPosition, rollback_syncing, rollback_ready}
use dts.Store.Defs.{Store, not_found, get_migration}
use dts.Store.Spool.{cdc_spool_stats}
use dts.Store.Spool.Queue.{queue}
use dts.Store.Spool.Draining.{stats_queue}
use dts.Lifecycle.Service.{
  Fault, of_store, refused, Service, get_task, passed, from_store, transition, save_task,
  save_task-missing, save_task-found, with_task,
}
use dts.Lifecycle.Transitions.{can_transition}
use dts.Lifecycle.Positions.{latest_cdc}
use dts.Lifecycle.Rollback.{lag_bound, check_latest, rollback_gates, ready_for_rollback, is_syncing}

length-zero : {A : Type 0} (vs : List A) → length vs ≡ 0 → vs ≡ []
length-zero [] h = refl
length-zero (v ∷ vs) h = ground (arith, h)

check_latest-ok :
    (max : ℕ) (o : Option CdcPosition)
    → check_latest max o ≡ ok tt
    → (p : CdcPosition) × (o ≡ some p)
      × ((p.position_type =s= "EXTERNAL_MANAGED" && starts_with p.position_value "pending external")
          ≡ false)
      × (p.events_pending ≡ 0)
      × (p.lag_ms ≤ max)
unfolding check_latest
check_latest-ok max none h = cc
check_latest-ok max (some p) h =
    elim (Bool-cases
      (p.position_type =s= "EXTERNAL_MANAGED" && starts_with p.position_value "pending external")) [
        | inl e ↦ cc (rw (check_latest, e) at h)
        | inr e ↦
            let h' = rw (check_latest, e) at h in
            (p, refl, e, ground (arith, h'), ground (arith, h'))
      ]

module _ {E : Type 0} where
  -- The task may go back: what the store held when the task became ROLLBACK_READY.
  pub record IsCaughtUp (s : Store E) (id : String) (max : ℕ) (task : Task) (p : CdcPosition)
      : Type 0 where
    pub syncing : task.status ≡ rollback_syncing
    pub task_lag : task.cdc_lag_ms ≤ lag_bound max
    pub drained : queue s id "reverse" ≡ []
    pub newest : latest_cdc s id "reverse" ≡ some p
    pub active :
        (p.position_type =s= "EXTERNAL_MANAGED" && starts_with p.position_value "pending external")
        ≡ false
    pub no_events : p.events_pending ≡ 0
    pub lag : p.lag_ms ≤ lag_bound max

  rollback_gates-ok :
      (max : ℕ) (id : String) (task : Task) (s : Store E)
      → rollback_gates max id task s ≡ ok tt
      → (p : CdcPosition) × IsCaughtUp s id max task p
  unfolding rollback_gates
  rollback_gates-ok max id task s h =
      let (syncing, h1) =
        passed (not (is_syncing task.status)) (refused "task cannot enter rollback-ready") _ h in
      let (task_lag, h2) =
        passed (ltb (lag_bound max) task.cdc_lag_ms) (refused "reverse cdc lag exceeds threshold") _
          h1 in
      let (drained, h3) =
        passed (ltb 0 (cdc_spool_stats s id "reverse").pending_transactions)
          (refused "reverse cdc spool still has pending transactions") _ h2 in
      let (p, newest, active, no_events, lag) =
        check_latest-ok (lag_bound max) (latest_cdc s id "reverse") h3 in
      (
        p,
        record {
          syncing = ground (arith, syncing);
          task_lag = ground (arith, task_lag);
          drained =
              length-zero (queue s id "reverse")
                (ground (arith, (stats_queue s id "reverse").0, drained));
          newest = newest;
          active = active;
          no_events = no_events;
          lag = lag;
        },
      )

  after-gates :
      (now : ℕ) (id : String) (max : ℕ) (sv : Service E) (task : Task)
      → get_migration sv.store id ≡ ok task
      → rollback_gates max id task sv.store ≡ ok tt
      → task.status ≡ rollback_syncing
      → ready_for_rollback now id max sv
        ≡ save_task now (record task { status = rollback_ready }) sv
  unfolding ready_for_rollback transition can_transition
  after-gates now id max sv task f g e =
      let go : transition task rollback_ready ≡ ok (record task { status = rollback_ready }) =
        rw (e, can_transition) refl in
      ground (arith, f, g, go)

  -- `ReadyForRollback` either returns an error and leaves the store as it was, or it found the task in
  -- ROLLBACK_SYNCING with a lag within the bound, no reverse transaction in the spool, and a newest
  -- reverse position that is reported by an active engine, has no pending events and a lag within the
  -- bound; then the only change is that the task is stored as ROLLBACK_READY.
  pub ready_for_rollback_lem :
      (now : ℕ) (id : String) (max : ℕ) (sv : Service E)
      → ((task : Task) × (p : CdcPosition) × (get_task id sv.store ≡ ok task)
          × IsCaughtUp sv.store id max task p
          × (ready_for_rollback now id max sv
              ≡ (ok tt, with_task now (record task { status = rollback_ready }) sv)))
        ⊎ ((e : Fault) × (ready_for_rollback now id max sv ≡ (err e, sv)))
  unfolding ready_for_rollback
  ready_for_rollback_lem now id max sv = elim (Result-cases (get_migration sv.store id)) [
    | inr (e, f) ↦ inr (of_store e, ground (arith, f))
    | inl (task, f) ↦ elim (Result-cases (rollback_gates max id task sv.store)) [
      | inr (e, g) ↦ inr (e, ground (arith, f, g))
      | inl (_, g) ↦
          let (p, caught) = rollback_gates-ok max id task sv.store g in
          let ready = record task { status = rollback_ready } in
          let same = after-gates now id max sv task f g caught.syncing in
          elim (Option-cases (lookup task.id sv.store.migrations)) [
            | inl e ↦ inr (of_store not_found, same ∙ save_task-missing now ready sv e)
            | inr (old, e) ↦
                inl (task, p, ap from_store f, caught, same ∙ save_task-found now ready sv e)
          ]
    ]
  ]
