-- ===== src/Lifecycle/Applying/Acknowledged.antt =====
-- service.go: what a result of `ApplyCDCEvents` without an error means to the source, which then lets the
-- transaction go.
use dts.Common.{
  ℕ, String, Bool, true, false, ◌<◌, ◌≡◌, refl, sym, subst, ◌∙◌, ap, not, ◌=s=◌, ◌||◌, ◌++◌,
  if◌then◌else◌, List, [], ◌∷◌, Option, none, some, Result, ok, last?, length, eq_iff,
}
use dts.Common.Bytes.{equal_fold}
use dts.Domain.{Task, CdcEvent, CdcPosition}
use dts.Store.Defs.{Store, get_migration}
use dts.Lifecycle.Positions.{cdc_apply_ready}
use dts.Lifecycle.Applying.Effects.{
  Events, World, Failure, blocked, Run, ◌>>=◌, ◌>>◌, return, throw, after, continue-Ends, lift,
}
use dts.Lifecycle.Applying.Fence.{
  Settings, CommitFence, begin_cdc_commit_fence, complete_cdc_commit_fence,
  cleanup_transient_cdc_commit_fence, unresolved_commit_recovery,
}
use dts.Lifecycle.Applying.Events.{
  Commit, Applied, commit_transaction, persist_cdc_apply_result, is_duplicate, check, fail_if,
  blocks, all_checkpoints, settle, apply_rows, apply_checkpoints, apply_found, apply_new,
  apply_duplicate, apply_checked, apply_to, apply_cdc_events, checkpoint_of, stored_type,
  applied_result, known_result,
}
use dts.Lifecycle.Applying.Kept.{
  Kept, begin-Kept, complete-Kept, cleanup-Kept, commit_cases, commit-ok,
}
use dts.Lifecycle.Applying.Progress.{persist-Moved, duplicate-appended, duplicate-newest}

-- What holds of a result, and the world after it, if there is one.
abbrev OnOk : {A : Type 0} → (A → World → Type 0) → Result Failure A × ℕ × World → Type 0
OnOk {A} Q out = (a : A) → out.0 ≡ ok a → Q a out.2

module _ {A B : Type 0} (Q : B → World → Type 0) where
  OnOk->>= :
      (m : Run A) (f : A → Run B) (n : ℕ) (w : World)
      → ((a : A) → (m n w).0 ≡ ok a → OnOk Q (f a (m n w).1 (m n w).2))
      → OnOk Q ((m >>= f) n w)
  OnOk->>= m f n w go =
      continue-Ends (OnOk Q) f (m n w).0 (m n w).1 (m n w).2 (λ e failed b h. cc) go

module _ {B : Type 0} (Q : B → World → Type 0) (k : Run B) (n : ℕ) (w : World) where
  OnOk-check : (b : Bool) (message : String) → OnOk Q (k n w) → OnOk Q ((check b message >> k) n w)
  OnOk-check true message go = go
  OnOk-check false message go = λ b h. cc

  OnOk-fail_if : (message : Option String) → OnOk Q (k n w) → OnOk Q ((fail_if message >> k) n w)
  OnOk-fail_if none go = go
  OnOk-fail_if (some message) go = λ b h. cc

  OnOk-unless :
      (b : Bool) (e : Failure)
      → OnOk Q (k n w)
      → OnOk Q (((if b then throw e else return tt) >> k) n w)
  OnOk-unless true e go = λ b h. cc
  OnOk-unless false e go = go

  OnOk-if :
      (b : Bool) (other : Run B)
      → (b ≡ true → OnOk Q (k n w))
      → (b ≡ false → OnOk Q (other n w))
      → OnOk Q ((if b then k else other) n w)
  OnOk-if true other first second = first refl
  OnOk-if false other first second = second refl

module _ (settings : Settings) (id direction : String) (events : Events) (last : CdcEvent String)
    (base : List Events) where
  -- The position is stored, and the transaction is on the target: it was known for a duplicate and the
  -- target is as it was, or it only held checkpoints, or it has just been committed.
  pub record IsAcknowledged (r : Applied) (w : World) : Type 0 where
    pub stored : is_duplicate id direction last w.store ≡ true
    pub placed : w.target ≡ (if r.duplicate || all_checkpoints events then base else events ∷ base)

  abbrev IsStored : World → Type 0
  IsStored w = is_duplicate id direction last w.store ≡ true

  duplicate-Kept : {w w' : World} → Kept w w' → IsStored w → IsStored w'
  unfolding is_duplicate
  duplicate-Kept kept again = rw kept.positions again

  return-IsAcknowledged :
      (r : Applied) (n : ℕ) (w : World)
      → IsStored w
      → w.target ≡ (if r.duplicate || all_checkpoints events then base else events ∷ base)
      → OnOk IsAcknowledged (return r n w)
  return-IsAcknowledged r n w known at a h =
      let same : r ≡ a = cc in
      subst (λ b. IsAcknowledged b w) same (record { stored = known; placed = at })

  module _ (typed : (last.position_type =s= "") ≡ false) (now : ℕ) (new_id : String) where
    settle-IsAcknowledged :
        (fence : CommitFence) (n : ℕ) (w : World)
        → all_checkpoints events ≡ false
        → w.target ≡ events ∷ base
        → length w.store.cdc_positions < 60000
        → OnOk IsAcknowledged (settle settings now new_id id direction events last fence n w)
    unfolding settle
    settle-IsAcknowledged fence n w rows at few =
        let persist =
          persist_cdc_apply_result settings now new_id id direction last (length events) in
        let moved = persist-Moved settings now new_id id direction last (length events) n w few in
        OnOk->>= IsAcknowledged persist _ n w λ late went.
          let w' = after persist n w in
          let left = (persist n w).1 in
          let known : IsStored w' =
            duplicate-appended now new_id id direction last (length events) w.store.cdc_positions
              w'.store typed (moved.1 late went) in
          let complete = complete_cdc_commit_fence now fence in
          OnOk->>= IsAcknowledged complete _ left w' λ a ended.
            let kept = complete-Kept settings id direction last now events fence left w' in
            OnOk-fail_if IsAcknowledged (return (applied_result last (length events)))
              (complete left w').1 (after complete left w') late
              (return-IsAcknowledged (applied_result last (length events)) (complete left w').1
                (after complete left w') (duplicate-Kept kept known)
                (kept.target ∙ moved.0.target ∙ at ∙ rw rows))

    apply_rows-IsAcknowledged :
        (outcome : Commit) (n : ℕ) (w : World)
        → all_checkpoints events ≡ false
        → w.target ≡ base
        → length w.store.cdc_positions < 60000
        → OnOk IsAcknowledged (apply_rows settings now new_id id direction events last outcome n w)
    unfolding apply_rows
    apply_rows-IsAcknowledged outcome n w rows at few =
        let begin = begin_cdc_commit_fence settings now id direction events last in
        let commit = commit_transaction events outcome in
        let kept = begin-Kept settings id direction last now events n w in
        OnOk-fail_if IsAcknowledged
          (begin >>= λ fence. commit >> settle settings now new_id id direction events last fence) n
          w (settings.take_rows events w.target)
          (OnOk->>= IsAcknowledged begin _ n w λ fence begun.
            let w1 = after begin n w in
            let left = (begin n w).1 in
            OnOk->>= IsAcknowledged commit _ left w1 λ a went.
              settle-IsAcknowledged fence (commit left w1).1 (after commit left w1) rows
                (commit-ok events outcome left w1 went ∙ ap (λ t. events ∷ t) (kept.target ∙ at))
                (rw
                  (ap (λ s. s.cdc_positions) (commit_cases events outcome left w1).0
                    ∙ kept.positions)
                  few))

    apply_checkpoints-IsAcknowledged :
        (n : ℕ) (w : World)
        → all_checkpoints events ≡ true
        → w.target ≡ base
        → length w.store.cdc_positions < 60000
        → OnOk IsAcknowledged (apply_checkpoints settings now new_id id direction last n w)
    unfolding apply_checkpoints
    apply_checkpoints-IsAcknowledged n w only at few =
        let persist = persist_cdc_apply_result settings now new_id id direction last 0 in
        let moved = persist-Moved settings now new_id id direction last 0 n w few in
        OnOk->>= IsAcknowledged persist _ n w λ late went.
          OnOk-fail_if IsAcknowledged (return (applied_result last 0)) (persist n w).1
            (after persist n w) late
            (return-IsAcknowledged (applied_result last 0) (persist n w).1 (after persist n w)
              (duplicate-appended now new_id id direction last 0 w.store.cdc_positions
                (after persist n w).store typed (moved.1 late went))
              (moved.0.target ∙ at ∙ rw only))

    apply_found-IsAcknowledged :
        (outcome : Commit) (task : Task) (n : ℕ) (w : World)
        → w.target ≡ base
        → length w.store.cdc_positions < 60000
        → OnOk IsAcknowledged
            (apply_found settings now new_id outcome task id direction events last n w)
    unfolding apply_found
    apply_found-IsAcknowledged outcome task n w at few =
        let rows = apply_rows settings now new_id id direction events last outcome in
        OnOk-if IsAcknowledged (apply_checkpoints settings now new_id id direction last) n w
          (all_checkpoints events) (fail_if (settings.open_target task) >> rows)
          (λ only. apply_checkpoints-IsAcknowledged n w only at few)
          (λ other.
            OnOk-fail_if IsAcknowledged rows n w (settings.open_target task)
              (apply_rows-IsAcknowledged outcome n w other at few))

    apply_new-IsAcknowledged :
        (bypass : Option String) (outcome : Commit) (task : Task) (n : ℕ) (w : World)
        → w.target ≡ base
        → length w.store.cdc_positions < 60000
        → OnOk IsAcknowledged
            (apply_new settings now new_id bypass outcome task id direction events last n w)
    unfolding apply_new
    apply_new-IsAcknowledged bypass outcome task n w at few =
        let found = apply_found settings now new_id outcome task id direction events last in
        OnOk-unless IsAcknowledged (fail_if (settings.find_sources task) >> found) n w
          (blocks bypass (unresolved_commit_recovery id direction w.store)) blocked
          (OnOk-fail_if IsAcknowledged found n w (settings.find_sources task)
            (apply_found-IsAcknowledged outcome task n w at few))

    apply_checked-IsAcknowledged :
        (bypass : Option String) (outcome : Commit) (task : Task) (n : ℕ) (w : World)
        → w.target ≡ base
        → length w.store.cdc_positions < 60000
        → OnOk IsAcknowledged
            (apply_checked settings now new_id bypass outcome task id direction events last n w)
    unfolding apply_checked apply_duplicate
    apply_checked-IsAcknowledged bypass outcome task n w at few =
        let cleanup = cleanup_transient_cdc_commit_fence settings id direction last in
        let kept = cleanup-Kept settings id direction last n w in
        OnOk-if IsAcknowledged (apply_duplicate settings id direction last) n w
          (is_duplicate id direction last w.store)
          (apply_new settings now new_id bypass outcome task id direction events last)
          (λ again. OnOk->>= IsAcknowledged cleanup _ n w λ a went.
            return-IsAcknowledged (known_result last) (cleanup n w).1 (after cleanup n w)
              (duplicate-Kept kept again) (kept.target ∙ at))
          (λ fresh. apply_new-IsAcknowledged bypass outcome task n w at few)

    apply_to-IsAcknowledged :
        (bypass : Option String) (outcome : Commit) (task : Task) (n : ℕ) (w : World)
        → w.target ≡ base
        → length w.store.cdc_positions < 60000
        → OnOk IsAcknowledged
            (apply_to settings now new_id bypass outcome id direction events task (some last) n w)
    unfolding apply_to
    apply_to-IsAcknowledged bypass outcome task n w at few =
        let rest = apply_checked settings now new_id bypass outcome task id direction events last in
        let ready = cdc_apply_ready task.status direction in
        OnOk-check IsAcknowledged (check ready "CDC apply is unsafe" >> rest) n w
          (not (last.position_value =s= ""))
          "final CDC event must include a durable source position"
          (OnOk-check IsAcknowledged rest n w ready "CDC apply is unsafe"
            (apply_checked-IsAcknowledged bypass outcome task n w at few))

-- A source may let a transaction go when `ApplyCDCEvents` returns no error: its position is the newest
-- checkpoint of the direction, so that a redelivery is known, and the target is as it was if the
-- transaction was known already or held only checkpoints, and otherwise has just committed it. The events
-- name the type of their positions, and fewer than 60000 checkpoints are stored.
pub apply-IsAcknowledged :
    (settings : Settings) (now : ℕ) (new_id : String) (bypass : Option String) (outcome : Commit)
    (id direction : String) (events : Events) (last : CdcEvent String) (n : ℕ) (w : World)
    (r : Applied)
    → last? events ≡ some last
    → (last.position_type =s= "") ≡ false
    → length w.store.cdc_positions < 60000
    → (apply_cdc_events settings now new_id bypass outcome id direction events n w).0 ≡ ok r
    → IsAcknowledged settings id direction events last w.target r
        (after (apply_cdc_events settings now new_id bypass outcome id direction events) n w)
unfolding apply_cdc_events
apply-IsAcknowledged settings now new_id bypass outcome id direction events last n w r ends typed
      few =
    let Q = IsAcknowledged settings id direction events last w.target in
    continue-Ends (OnOk Q) _ (lift (get_migration w.store id)) n w (λ e failed a h. cc)
      (λ task found.
        OnOk-check Q
          (apply_to settings now new_id bypass outcome id direction events task (last? events)) n w
          (direction =s= "forward" || direction =s= "reverse") "invalid CDC direction"
          (subst
            (λ o.
              OnOk Q (apply_to settings now new_id bypass outcome id direction events task o n w))
            (sym ends)
            (apply_to-IsAcknowledged settings id direction events last w.target typed now new_id
              bypass outcome task n w refl few)))
      r

bridge_untyped : equal_fold "EVENT_BRIDGE" "" ≡ false
unfolding equal_fold
bridge_untyped = refl

-- A checkpoint of events that name no type of position is stored as EVENT_BRIDGE, and the look at the
-- newest checkpoint compares it with the missing one: a redelivery of such a transaction is never known
-- for a duplicate, whatever its position and whatever the store holds besides.
pub untyped-not_duplicate :
    (now : ℕ) (new_id id direction : String) (last : CdcEvent String) (total : ℕ)
    (ps : List CdcPosition) (s : Store (CdcEvent String))
    → last.position_type ≡ ""
    → s.cdc_positions ≡ ps ++ checkpoint_of now new_id id direction last total ∷ []
    → is_duplicate id direction last s ≡ false
untyped-not_duplicate now new_id id direction last total ps s untyped e =
    let named : stored_type last ≡ "EVENT_BRIDGE" = rw ((eq_iff _ _).1 untyped) refl in
    let differ : equal_fold (stored_type last) last.position_type ≡ false =
      rw named (subst (λ t. equal_fold "EVENT_BRIDGE" t ≡ false) (sym untyped) bridge_untyped) in
    duplicate-newest id direction last (checkpoint_of now new_id id direction last total) ps s
      ((eq_iff id id).1 refl) ((eq_iff direction direction).1 refl) e
    ∙ rw differ refl
