-- ===== src/Lifecycle/Applying/Kept.antt =====
-- service.go: what each part of `ApplyCDCEvents` leaves of the target, the checkpoints and the fence.
use dts.Common.{
  ℕ, zero, suc, String, true, false, ◌≡◌, ◌⊎◌, refl, sym, ◌∙◌, subst, ◌||◌, ◌==◌, ◌=s=◌, ltb, ◌∷◌,
  Option, none, some, Result, ok, err, last?, Option-cases, Bool-cases, inl, inr, arith, eq_iff,
}
use dts.Common.Bytes.{equal_fold, equal_fold_refl}
use dts.Common.Keyed.{lookup, insert, lookup-insert}
use dts.Domain.{CdcEvent, DeadLetterStatus}
use dts.Store.Defs.{StoreError}
use dts.Store.DeadLetters.{
  create_cdc_dead_letter, update_cdc_dead_letter, get_cdc_dead_letter, delete_cdc_dead_letter,
  is_listed, find_letter-is_listed, find_letter-ne_none,
}
use dts.Lifecycle.Applying.Effects.{Events, World, Failure, after}
use dts.Lifecycle.Applying.Fence.{
  Settings, Letter, CommitFence, is_uncertain, is_unresolved, is_blocked, status_of, failed_again,
  cdc_dead_letter_id, fenced, new_letter, write_fence, fence_message, write_letter,
  begin_cdc_commit_fence, complete_cdc_commit_fence, cleanup_transient_cdc_commit_fence,
  unresolved_commit_recovery, record_cdc_dead_letter,
}
use dts.Lifecycle.Applying.Events.{Commit, confirmed, lost, commit_transaction}

-- Neither the target nor the checkpoints nor the spool change.
pub record Kept (w w' : World) : Type 0 where
  pub target : w'.target ≡ w.target
  pub positions : w'.store.cdc_positions ≡ w.store.cdc_positions
  pub spool : w'.store.cdc_spool ≡ w.store.cdc_spool

module _ (settings : Settings) (id direction : String) (now : ℕ) (events : Events) where
  pub record-Kept :
      (cause : Failure) (message : String) (n : ℕ) (w : World)
      → Kept w (after (record_cdc_dead_letter settings now id direction events cause message) n w)
  unfolding record_cdc_dead_letter get_cdc_dead_letter write_letter update_cdc_dead_letter
      create_cdc_dead_letter
  record-Kept cause message zero w = ground arith
  record-Kept cause message (suc n) w = ground arith

module _ (settings : Settings) (id direction : String) (last : CdcEvent String) where
  -- The fence of the transaction stands: COMMIT_UNCERTAIN.
  pub record Uncertain (w : World) : Type 0 where
    pub letter : Letter
    pub found :
        lookup (cdc_dead_letter_id settings id direction last) w.store.cdc_dead_letters
        ≡ some letter
    pub listed : is_listed id letter ≡ true
    pub uncertain : is_uncertain letter.status ≡ true
    pub along : letter.direction ≡ direction

  -- While it stands, the recovery of the direction is open.
  pub Uncertain-unresolved :
      (w : World) → Uncertain w → (unresolved_commit_recovery id direction w.store ≡ none) → ⊥
  unfolding unresolved_commit_recovery
  Uncertain-unresolved w u h =
      let fails =
        find_letter-ne_none (is_unresolved direction) id _ u.letter w.store u.found u.listed h in
      let same : equal_fold u.letter.direction direction ≡ true =
        rw u.along (equal_fold_refl direction) in
      ground (arith, fails, same, u.uncertain)

  module _ (now : ℕ) (events : Events) where
    write_fence-Kept :
        (found : Option Letter) (n : ℕ) (w : World)
        → Kept w (after (write_fence settings now id direction events last found) n w)
    unfolding write_fence update_cdc_dead_letter create_cdc_dead_letter
    write_fence-Kept none zero w = ground arith
    write_fence-Kept none (suc n) w = ground arith
    write_fence-Kept (some v) zero w = ground arith
    write_fence-Kept (some v) (suc n) w = ground arith

    pub begin-Kept :
        (n : ℕ) (w : World)
        → Kept w (after (begin_cdc_commit_fence settings now id direction events last) n w)
    unfolding begin_cdc_commit_fence
    begin-Kept n w = write_fence-Kept _ n w

    -- A fence that was begun stands.
    write_fence-Uncertain :
        (found : Option Letter) (n : ℕ) (w : World) (fence : CommitFence)
        → ((v : Letter)
            → found ≡ some v
            → (is_listed id v ≡ true)
              × ((v.id =s= cdc_dead_letter_id settings id direction last) ≡ true))
        → (write_fence settings now id direction events last found n w).0 ≡ ok fence
        → Uncertain (after (write_fence settings now id direction events last found) n w)
    unfolding write_fence update_cdc_dead_letter create_cdc_dead_letter
    write_fence-Uncertain none zero w fence known h = cc
    write_fence-Uncertain none (suc n) w fence known h =
        let fid = cdc_dead_letter_id settings id direction last in
        record {
          letter =
              new_letter now fid id direction last events 0 DeadLetterStatus.commit_uncertain
                fence_message;
          found = lookup-insert fid fid _ w.store.cdc_dead_letters ∙ ground (arith, eq_iff fid fid);
          listed = ground (arith, eq_iff id id);
          uncertain = refl;
          along = refl;
        }
    write_fence-Uncertain (some v) zero w fence known h = cc
    write_fence-Uncertain (some v) (suc n) w fence known h =
        let (listed, same) = known v refl in
        let fid : v.id ≡ cdc_dead_letter_id settings id direction last = (eq_iff _ _).0 same in
        elim (Option-cases (lookup v.id w.store.cdc_dead_letters)) [
          | inl e ↦ ground (arith, h, e)
          | inr (old, e) ↦
              let letter : Letter = fenced now direction last events v in
              let w' : World = record w {
                store = record w.store {
                  cdc_dead_letters = insert v.id letter w.store.cdc_dead_letters;
                };
              } in
              let made : after (write_fence settings now id direction events last (some v)) (suc n)
                    w
                  ≡ w' =
                ground (arith, e) in
              let stands : Uncertain w' = record {
                letter = letter;
                found = rw (sym fid) (
                    lookup-insert v.id v.id letter w.store.cdc_dead_letters
                    ∙ ground (arith, eq_iff v.id v.id));
                listed = listed;
                uncertain = refl;
                along = refl;
              } in
              subst (λ x. Uncertain x) (sym made) stands
        ]

    pub begin-Uncertain :
        (n : ℕ) (w : World) (fence : CommitFence)
        → (begin_cdc_commit_fence settings now id direction events last n w).0 ≡ ok fence
        → Uncertain (after (begin_cdc_commit_fence settings now id direction events last) n w)
    unfolding begin_cdc_commit_fence
    begin-Uncertain n w fence h =
        write_fence-Uncertain _ n w fence (λ v e. find_letter-is_listed _ id v w.store e) h

    pub complete-Kept :
        (fence : CommitFence) (n : ℕ) (w : World)
        → Kept w (after (complete_cdc_commit_fence now fence) n w)
    unfolding complete_cdc_commit_fence delete_cdc_dead_letter get_cdc_dead_letter
        update_cdc_dead_letter
    complete-Kept fence zero w = ground arith
    complete-Kept fence (suc n) w = ground arith

    -- What is recorded of a failure leaves the fence: COMMIT_UNCERTAIN is never downgraded.
    write_letter-Uncertain :
        (status : DeadLetterStatus) (message : String) (found : Result StoreError Letter) (n : ℕ)
        (w : World)
        → get_cdc_dead_letter w.store (cdc_dead_letter_id settings id direction last) ≡ found
        → Uncertain w
        → Uncertain
            (after (write_letter settings now id direction events last status message found) n w)
    unfolding write_letter get_cdc_dead_letter update_cdc_dead_letter create_cdc_dead_letter
    write_letter-Uncertain status message (err e) n w h u = absurd (ground (arith, h, u.found))
    write_letter-Uncertain status message (ok v) zero w h u = u
    write_letter-Uncertain status message (ok v) (suc n) w h u =
        let same : v ≡ u.letter = ground (arith, h, u.found) in
        elim (Option-cases (lookup v.id w.store.cdc_dead_letters)) [
          | inl e ↦
              let made : after
                    (write_letter settings now id direction events last status message (ok v))
                    (suc n) w
                  ≡ w =
                ground (arith, e) in
              subst (λ x. Uncertain x) (sym made) u
          | inr (old, e) ↦
              let letter : Letter = failed_again now events message status v in
              let w' : World = record w {
                store = record w.store {
                  cdc_dead_letters = insert v.id letter w.store.cdc_dead_letters;
                };
              } in
              let made : after
                    (write_letter settings now id direction events last status message (ok v))
                    (suc n) w
                  ≡ w' =
                ground (arith, e) in
              let fid = cdc_dead_letter_id settings id direction last in
              let stands : Uncertain w' = elim (Bool-cases (v.id =s= fid)) [
                | inl here ↦ record {
                  letter = letter;
                  found = lookup-insert v.id fid letter w.store.cdc_dead_letters ∙ rw here;
                  listed = ground (arith, same, u.listed);
                  uncertain = ground (arith, same, u.uncertain);
                  along = ground (arith, same, u.along);
                }
                | inr other ↦ record {
                  letter = u.letter;
                  found = lookup-insert v.id fid letter w.store.cdc_dead_letters ∙ rw other u.found;
                  listed = u.listed;
                  uncertain = u.uncertain;
                  along = u.along;
                }
              ] in
              subst (λ x. Uncertain x) (sym made) stands
        ]

    pub record-Uncertain :
        (cause : Failure) (message : String) (n : ℕ) (w : World)
        → last? events ≡ some last
        → Uncertain w
        → Uncertain
            (after (record_cdc_dead_letter settings now id direction events cause message) n w)
    unfolding record_cdc_dead_letter
    record-Uncertain cause message n w e u =
        rw (e, record_cdc_dead_letter)
          (elim (Bool-cases (
            is_blocked cause
            || last.position_value =s= ""
            || settings.max_letter_bytes == 0
            || ltb settings.max_letter_bytes (settings.json_bytes events))) [
              | inl skip ↦ rw skip u
              | inr go ↦ rw go (write_letter-Uncertain (status_of cause) message _ n w refl u)
            ])

  pub cleanup-Kept :
      (n : ℕ) (w : World)
      → Kept w (after (cleanup_transient_cdc_commit_fence settings id direction last) n w)
  unfolding cleanup_transient_cdc_commit_fence get_cdc_dead_letter delete_cdc_dead_letter
  cleanup-Kept zero w = ground arith
  cleanup-Kept (suc n) w = ground arith

-- A commit takes the transaction, or leaves the target; only the second without an error.
pub commit_cases :
    (events : Events) (outcome : Commit) (n : ℕ) (w : World)
    → let w' = after (commit_transaction events outcome) n w in
      (w'.store ≡ w.store) × ((w' ≡ w) ⊎ (w'.target ≡ events ∷ w.target))
unfolding commit_transaction
commit_cases events confirmed zero w = (refl, inl refl)
commit_cases events confirmed (suc n) w = (refl, inr refl)
commit_cases events (lost true) zero w = (refl, inl refl)
commit_cases events (lost true) (suc n) w = (refl, inr refl)
commit_cases events (lost false) zero w = (refl, inl refl)
commit_cases events (lost false) (suc n) w = (refl, inl refl)

pub commit-ok :
    (events : Events) (outcome : Commit) (n : ℕ) (w : World)
    → (commit_transaction events outcome n w).0 ≡ ok tt
    → (after (commit_transaction events outcome) n w).target ≡ events ∷ w.target
unfolding commit_transaction
commit-ok events confirmed zero w h = cc
commit-ok events confirmed (suc n) w h = refl
commit-ok events (lost true) zero w h = cc
commit-ok events (lost true) (suc n) w h = cc
commit-ok events (lost false) zero w h = cc
commit-ok events (lost false) (suc n) w h = cc
