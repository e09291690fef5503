-- ===== src/Lifecycle/Applying/Progress.antt =====
-- service.go: what `persistCDCApplyResult` leaves, and that a redelivery then finds the checkpoint.
use mathlib.Core.List.{reverse-append}
use dts.Common.{
  ℕ, zero, suc, String, true, false, ◌<◌, ◌≡◌, ◌⊎◌, refl, ◌&&◌, ◌=s=◌, List, [], ◌∷◌, ◌++◌, Option,
  Result, ok, length, length-append, Option-cases, Bool-cases, inl, inr, arith, eq_iff,
}
use dts.Common.Bytes.{equal_fold, equal_fold_refl}
use dts.Domain.{Task, CdcEvent, CdcPosition}
use dts.Store.Defs.{Store, get_migration, update_migration}
use dts.Store.Positions.{create_cdc_position, list_cdc_positions, positions_of}
use dts.Lifecycle.Positions.{cdc_apply_ready}
use dts.Lifecycle.Applying.Effects.{World, Failure, continue-Ends, lift}
use dts.Lifecycle.Applying.Fence.{Settings}
use dts.Lifecycle.Applying.Events.{
  checkpoint_of, store_progress, record_progress, persist_cdc_apply_result, is_checkpointed,
  is_duplicate,
}

-- What a checkpoint may change: the list of checkpoints, which gets one more, or the tasks.
pub record Moved (p : CdcPosition) (w w' : World) : Type 0 where
  pub target : w'.target ≡ w.target
  pub letters : w'.store.cdc_dead_letters ≡ w.store.cdc_dead_letters
  pub spool : w'.store.cdc_spool ≡ w.store.cdc_spool
  pub positions :
      (w'.store.cdc_positions ≡ w.store.cdc_positions)
      ⊎ (w'.store.cdc_positions ≡ w.store.cdc_positions ++ p ∷ [])

module _ (now : ℕ) (id direction : String) (p : CdcPosition) where
  create-small :
      (s : Store (CdcEvent String))
      → length s.cdc_positions < 60000
      → (create_cdc_position s p).cdc_positions ≡ s.cdc_positions ++ p ∷ []
  unfolding create_cdc_position
  create-small s small = ground (arith, length-append s.cdc_positions (p ∷ []))

  create-letters :
      (s : Store (CdcEvent String))
      → (create_cdc_position s p).cdc_dead_letters ≡ s.cdc_dead_letters
  unfolding create_cdc_position
  create-letters s = refl

  create-spool : (s : Store (CdcEvent String)) → (create_cdc_position s p).cdc_spool ≡ s.cdc_spool
  unfolding create_cdc_position
  create-spool s = refl

  -- What is true of the end of a progress report that began in `w`.
  abbrev pub EndsMoved : (A : Type 0) → World → Result Failure A × ℕ × World → Type 0
  EndsMoved A w out =
      Moved p w out.2
      × ((a : A) → out.0 ≡ ok a → out.2.store.cdc_positions ≡ w.store.cdc_positions ++ p ∷ [])

  store_progress-Moved :
      (task : Task) (n : ℕ) (w : World)
      → length w.store.cdc_positions < 60000
      → EndsMoved (Unit {0}) w (store_progress now p task n w)
  unfolding store_progress update_migration
  store_progress-Moved task zero w small =
      (record { target = refl; letters = refl; spool = refl; positions = inl refl }, λ a h. cc)
  store_progress-Moved task (suc zero) w small = (
    record {
      target = refl;
      letters = create-letters w.store;
      spool = create-spool w.store;
      positions = inr (create-small w.store small);
    },
    λ a h. cc,
  )
  store_progress-Moved task (suc (suc n)) w small =
      let more = create-small w.store small in
      let same = create-letters w.store in
      (
        record {
          target = ground arith;
          letters = ground (arith, same);
          spool = ground (arith, create-spool w.store);
          positions = inr (ground (arith, more));
        },
        λ a h. ground (arith, more),
      )

  record_progress-Moved :
      (n : ℕ) (w : World)
      → length w.store.cdc_positions < 60000
      → EndsMoved (Unit {0}) w (record_progress now id direction p n w)
  unfolding record_progress
  record_progress-Moved n w small =
      let still : Moved p w w = record {
        target = refl;
        letters = refl;
        spool = refl;
        positions = inl refl;
      } in
      continue-Ends (EndsMoved (Unit {0}) w) _ (lift (get_migration w.store id)) n w
        (λ e failed. (still, λ a h. cc))
        (λ task found. elim (Bool-cases (cdc_apply_ready task.status direction)) [
          | inl e ↦ rw e (store_progress-Moved task n w small)
          | inr e ↦ rw e (still, λ a h. cc)
        ])

module _ (settings : Settings) (now : ℕ) (new_id id direction : String) (last : CdcEvent String)
    (total : ℕ) where
  pub persist-Moved :
      (n : ℕ) (w : World)
      → length w.store.cdc_positions < 60000
      → EndsMoved now id direction
          (checkpoint_of now new_id id direction last total)
          (Option String)
          w
          (persist_cdc_apply_result settings now new_id id direction last total n w)
  unfolding persist_cdc_apply_result
  persist-Moved n w small =
      let p : CdcPosition = checkpoint_of now new_id id direction last total in
      let still : Moved p w w = record {
        target = refl;
        letters = refl;
        spool = refl;
        positions = inl refl;
      } in
      elim (Option-cases settings.fault_before_checkpoint) [
        | inr (e, f) ↦ rw (f, persist_cdc_apply_result) (still, λ a h. cc)
        | inl f ↦
            let made = record_progress-Moved now id direction p n w small in
            rw (f, persist_cdc_apply_result)
              (continue-Ends (EndsMoved now id direction p (Option String) w) _
                (record_progress now id direction p n w).0
                (record_progress now id direction p n w).1
                (record_progress now id direction p n w).2 (λ e failed. (made.0, λ a h. cc))
                (λ a went. (made.0, λ b h. made.1 a went)))
      ]

-- The look at the newest checkpoint compares it with the last event.
pub duplicate-newest :
    (id direction : String) (last : CdcEvent String) (p : CdcPosition) (ps : List CdcPosition)
    (s : Store (CdcEvent String))
    → (p.task_id =s= id) ≡ true
    → (p.direction =s= direction) ≡ true
    → s.cdc_positions ≡ ps ++ p ∷ []
    → is_duplicate id direction last s
      ≡ (equal_fold p.position_type last.position_type && p.position_value =s= last.position_value)
unfolding is_duplicate is_checkpointed list_cdc_positions positions_of
duplicate-newest id direction last p ps s own along e =
    rw (e, is_duplicate) (rw reverse-append (rw own (rw along refl)))

-- A store whose newest checkpoint is that of the transaction knows it for a duplicate, if its events say
-- of which type their positions are.
pub duplicate-appended :
    (now : ℕ) (new_id id direction : String) (last : CdcEvent String) (total : ℕ)
    (ps : List CdcPosition) (s : Store (CdcEvent String))
    → (last.position_type =s= "") ≡ false
    → s.cdc_positions ≡ ps ++ checkpoint_of now new_id id direction last total ∷ []
    → is_duplicate id direction last s ≡ true
unfolding is_duplicate is_checkpointed list_cdc_positions positions_of
duplicate-appended now new_id id direction last total ps s typed e =
    rw (e, is_duplicate)
      (rw reverse-append (
        ground (
          arith,
          eq_iff id id,
          eq_iff direction direction,
          eq_iff last.position_value last.position_value,
          typed,
          equal_fold_refl last.position_type,
        )))
