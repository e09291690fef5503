-- ===== src/Lifecycle/Applying/Spooled.antt =====
-- service.go: `ApplyCDCEvents` and its caller leave the spool alone.
use dts.Common.{
  ℕ, zero, suc, String, Bool, true, false, ◌≡◌, ◌∙◌, ap, if◌then◌else◌, length, not, ◌=s=◌, ◌||◌,
  last?, List, Option, none, some, Result, arith, Option-cases, inl, inr,
}
use dts.Domain.{Task, CdcEvent, CdcPosition, SpoolRecord}
use dts.Store.Defs.{Store, get_migration, update_migration}
use dts.Lifecycle.Positions.{cdc_apply_ready}
use dts.Lifecycle.Service.{refused}
use dts.Store.Positions.{create_cdc_position}
use dts.Lifecycle.Applying.Effects.{
  Events, World, Failure, fault, blocked, Run, ◌>>=◌, ◌>>◌, return, throw, ask, lift, after,
  after->>=,
}
use dts.Lifecycle.Applying.Fence.{
  Settings, CommitFence, begin_cdc_commit_fence, complete_cdc_commit_fence,
  cleanup_transient_cdc_commit_fence, unresolved_commit_recovery,
}
use dts.Lifecycle.Applying.Events.{
  Commit, check, fail_if, store_progress, record_progress, persist_cdc_apply_result,
  commit_transaction, settle, apply_rows, apply_checkpoints, apply_found, apply_new,
  apply_duplicate, apply_checked, apply_to, apply_cdc_events, is_duplicate, blocks, all_checkpoints,
  known_result, applied_result, checkpoint_of,
}
use dts.Lifecycle.Applying.Kept.{begin-Kept, complete-Kept, cleanup-Kept, commit_cases}

module _ (spool : List (SpoolRecord (CdcEvent String))) where
  -- The world holds this spool.
  abbrev pub Holds : World → Type 0
  Holds w = w.store.cdc_spool ≡ spool

  -- A program that leaves it, in every world and however far it gets.
  abbrev pub Keeps : {A : Type 0} → Run A → Type 0
  Keeps m = (n : ℕ) (w : World) → Holds w → Holds (after m n w)

  Keeps->>= :
      {A B : Type 0} (m : Run A) (f : A → Run B)
      → Keeps m
      → ((a : A) → Keeps (f a))
      → Keeps (m >>= f)
  Keeps->>= m f first rest n w h =
      after->>= Holds m f n w (first n w h) (λ a e. rest a (m n w).1 (m n w).2 (first n w h))

  Keeps-ask :
      {A B : Type 0} (g : Store (CdcEvent String) → Result Failure A) (f : A → Run B)
      → ((a : A) → Keeps (f a))
      → Keeps (ask g >>= f)
  Keeps-ask g f rest = Keeps->>= (ask g) f (λ n w h. h) rest

  Keeps-check :
      {B : Type 0} (k : Run B) (b : Bool) (message : String)
      → Keeps k
      → Keeps (check b message >> k)
  Keeps-check k true message go = go
  Keeps-check k false message go = λ n w h. h

  Keeps-fail_if :
      {B : Type 0} (k : Run B) (message : Option String) → Keeps k → Keeps (fail_if message >> k)
  Keeps-fail_if k none go = go
  Keeps-fail_if k (some message) go = λ n w h. h

  Keeps-if : {A : Type 0} (b : Bool) (m k : Run A) → Keeps m → Keeps k → Keeps (if b then m else k)
  Keeps-if true m k first second = first
  Keeps-if false m k first second = second

  store_progress-Keeps :
      (now : ℕ) (p : CdcPosition) (task : Task) → Keeps (store_progress now p task)
  unfolding store_progress create_cdc_position update_migration
  store_progress-Keeps now p task zero w h = h
  store_progress-Keeps now p task (suc zero) w h = h
  store_progress-Keeps now p task (suc (suc n)) w h = ground (arith, h)

  record_progress-Keeps :
      (now : ℕ) (id direction : String) (p : CdcPosition)
      → Keeps (record_progress now id direction p)
  unfolding record_progress
  record_progress-Keeps now id direction p =
      Keeps-ask (λ s. lift (get_migration s id))
        (λ task.
          if cdc_apply_ready task.status direction
          then store_progress now p task
          else throw (fault (refused "task cannot accept CDC progress")))
        λ task.
          Keeps-if (cdc_apply_ready task.status direction) (store_progress now p task)
            (throw (fault (refused "task cannot accept CDC progress")))
            (store_progress-Keeps now p task) (λ n w h. h)

  module _ (settings : Settings) (now : ℕ) (new_id id direction : String) where
    persist-Keeps :
        (last : CdcEvent String) (total : ℕ)
        → Keeps (persist_cdc_apply_result settings now new_id id direction last total)
    unfolding persist_cdc_apply_result
    persist-Keeps last total n w h =
        let p : CdcPosition = checkpoint_of now new_id id direction last total in
        elim (Option-cases settings.fault_before_checkpoint) [
          | inl e ↦ rw e (
              Keeps->>= (record_progress now id direction p)
                (λ a. return settings.fault_after_checkpoint)
                (record_progress-Keeps now id direction p) (λ a n w h. h) n w h)
          | inr (message, e) ↦ rw e h
        ]

    module _ (events : Events) (last : CdcEvent String) where
      settle-Keeps :
          (fence : CommitFence) → Keeps (settle settings now new_id id direction events last fence)
      unfolding settle
      settle-Keeps fence =
          let result = return (applied_result last (length events)) in
          let complete = complete_cdc_commit_fence now fence in
          Keeps->>= (persist_cdc_apply_result settings now new_id id direction last (length events))
            (λ late. complete >> (fail_if late >> result)) (persist-Keeps last (length events))
            λ late.
              Keeps->>= complete (λ a. fail_if late >> result)
                (λ n w h. (complete-Kept settings id direction last now events fence n w).spool ∙ h)
                λ a. Keeps-fail_if result late (λ n w h. h)

      apply_rows-Keeps :
          (outcome : Commit)
          → Keeps (apply_rows settings now new_id id direction events last outcome)
      unfolding apply_rows
      apply_rows-Keeps outcome n w h =
          let begin = begin_cdc_commit_fence settings now id direction events last in
          let commit = commit_transaction events outcome in
          let rest = settle settings now new_id id direction events last in
          Keeps-fail_if (begin >>= λ fence. commit >> rest fence)
            (settings.take_rows events w.target)
            (Keeps->>= begin (λ fence. commit >> rest fence)
              (λ n w h. (begin-Kept settings id direction last now events n w).spool ∙ h)
              λ fence.
                Keeps->>= commit (λ a. rest fence)
                  (λ n w h. ap (λ s. s.cdc_spool) (commit_cases events outcome n w).0 ∙ h)
                  (λ a. settle-Keeps fence))
            n w h

      apply_checkpoints-Keeps : Keeps (apply_checkpoints settings now new_id id direction last)
      unfolding apply_checkpoints
      apply_checkpoints-Keeps =
          let result = return (applied_result last 0) in
          Keeps->>= (persist_cdc_apply_result settings now new_id id direction last 0)
            (λ late. fail_if late >> result) (persist-Keeps last 0)
            λ late. Keeps-fail_if result late (λ n w h. h)

      apply_found-Keeps :
          (outcome : Commit) (task : Task)
          → Keeps (apply_found settings now new_id outcome task id direction events last)
      unfolding apply_found
      apply_found-Keeps outcome task =
          let rows = apply_rows settings now new_id id direction events last outcome in
          Keeps-if (all_checkpoints events)
            (apply_checkpoints settings now new_id id direction last)
            (fail_if (settings.open_target task) >> rows) apply_checkpoints-Keeps
            (Keeps-fail_if rows (settings.open_target task) (apply_rows-Keeps outcome))

      apply_new-Keeps :
          (bypass : Option String) (outcome : Commit) (task : Task)
          → Keeps (apply_new settings now new_id bypass outcome task id direction events last)
      unfolding apply_new
      apply_new-Keeps bypass outcome task n w h =
          let found = apply_found settings now new_id outcome task id direction events last in
          let blocked_now = blocks bypass (unresolved_commit_recovery id direction w.store) in
          Keeps->>= (if blocked_now then throw blocked else return tt)
            (λ a. fail_if (settings.find_sources task) >> found)
            (Keeps-if blocked_now (throw blocked) (return tt) (λ n w h. h) (λ n w h. h))
            (λ a. Keeps-fail_if found (settings.find_sources task) (apply_found-Keeps outcome task))
            n w h

      apply_checked-Keeps :
          (bypass : Option String) (outcome : Commit) (task : Task)
          → Keeps (apply_checked settings now new_id bypass outcome task id direction events last)
      unfolding apply_checked apply_duplicate
      apply_checked-Keeps bypass outcome task n w h =
          let cleanup = cleanup_transient_cdc_commit_fence settings id direction last in
          Keeps-if (is_duplicate id direction last w.store) (cleanup >> return (known_result last))
            (apply_new settings now new_id bypass outcome task id direction events last)
            (Keeps->>= cleanup (λ a. return (known_result last))
              (λ n w h. (cleanup-Kept settings id direction last n w).spool ∙ h) (λ a n w h. h))
            (apply_new-Keeps bypass outcome task) n w h

    apply_to-Keeps :
        (bypass : Option String) (outcome : Commit) (events : Events) (task : Task)
        (last : Option (CdcEvent String))
        → Keeps (apply_to settings now new_id bypass outcome id direction events task last)
    unfolding apply_to
    apply_to-Keeps bypass outcome events task none = λ n w h. h
    apply_to-Keeps bypass outcome events task (some last) =
        let rest = apply_checked settings now new_id bypass outcome task id direction events last in
        let ready = cdc_apply_ready task.status direction in
        Keeps-check (check ready "CDC apply is unsafe" >> rest) (not (last.position_value =s= ""))
          "final CDC event must include a durable source position"
          (Keeps-check rest ready "CDC apply is unsafe"
            (apply_checked-Keeps events last bypass outcome task))

    -- `ApplyCDCEvents`, whatever becomes of it.
    pub apply_cdc_events-Keeps :
        (bypass : Option String) (outcome : Commit) (events : Events)
        → Keeps (apply_cdc_events settings now new_id bypass outcome id direction events)
    unfolding apply_cdc_events
    apply_cdc_events-Keeps bypass outcome events =
        let known = direction =s= "forward" || direction =s= "reverse" in
        let rest = λ (task : Task).
          apply_to settings now new_id bypass outcome id direction events task (last? events) in
        Keeps-ask (λ s. lift (get_migration s id))
          (λ task. check known "invalid CDC direction" >> rest task)
          λ task.
            Keeps-check (rest task) known "invalid CDC direction"
              (apply_to-Keeps bypass outcome events task (last? events))
