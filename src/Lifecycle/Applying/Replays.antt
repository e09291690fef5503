-- ===== src/Lifecycle/Applying/Replays.antt =====
-- service.go: what the recovery of a dead letter guarantees, and where it does not.
use dts.Common.{
  ℕ, zero, suc, String, Bool, true, false, ◌<◌, ◌≡◌, ◌⊎◌, inl, inr, refl, sym, subst, ◌=s=◌, Option,
  none, some, Result, ok, err, last?, length, arith,
}
use dts.Domain.{CdcEvent}
use dts.Store.Defs.{get_migration}
use dts.Store.DeadLetters.{get_cdc_dead_letter, update_cdc_dead_letter}
use dts.Lifecycle.Applying.Effects.{World, Failure, Run, ◌>>=◌, ◌>>◌, continue-Ends, lift}
use dts.Lifecycle.Applying.Fence.{Settings, Letter, is_uncertain}
use dts.Lifecycle.Applying.Events.{
  Commit, Applied, persist_cdc_apply_result, is_duplicate, check, fail_if,
}
use dts.Lifecycle.Applying.Kept.{Kept}
use dts.Lifecycle.Applying.Progress.{persist-Moved, duplicate-appended}
use dts.Lifecycle.Applying.Recovery.{
  close_confirmed, confirm_committed, resolve_letter, resolve_cdc_commit_uncertain,
}

-- What a confirmation that began in a world leaves: the target as it was, and if it succeeds, the
-- position of the letter's last event as the newest checkpoint of its direction.
module _ (task_id : String) (v : Letter) (last : CdcEvent String) where
  abbrev EndsConfirmed : World → Result Failure Applied × ℕ × World → Type 0
  EndsConfirmed w out =
      (out.2.target ≡ w.target)
      × ((r : Applied) → out.0 ≡ ok r → is_duplicate task_id v.direction last out.2.store ≡ true)

  close_confirmed-Ends :
      (now : ℕ) (late : Option String) (n : ℕ) (w w' : World)
      → w'.target ≡ w.target
      → is_duplicate task_id v.direction last w'.store ≡ true
      → EndsConfirmed w (close_confirmed now v last late n w')
  unfolding close_confirmed update_cdc_dead_letter is_duplicate
  close_confirmed-Ends now (some e) n w w' same known = (same, λ r h. known)
  close_confirmed-Ends now none zero w w' same known = (same, λ r h. known)
  close_confirmed-Ends now none (suc n) w w' same known =
      (ground (arith, same), λ r h. ground (arith, known))

  module _ (typed : (last.position_type =s= "") ≡ false) (settings : Settings) (now : ℕ)
      (new_id : String) where
    persisted-Ends :
        (n : ℕ) (w : World)
        → length w.store.cdc_positions < 60000
        → EndsConfirmed w (
            (persist_cdc_apply_result settings now new_id task_id v.direction last (length v.events)
                >>= close_confirmed now v last)
              n w)
    persisted-Ends n w few =
        let persist =
          persist_cdc_apply_result settings now new_id task_id v.direction last (length v.events) in
        let moved =
          persist-Moved settings now new_id task_id v.direction last (length v.events) n w few in
        continue-Ends (EndsConfirmed w) (close_confirmed now v last) (persist n w).0 (persist n w).1
          (persist n w).2 (λ e failed. (moved.0.target, λ r h. cc))
          (λ late went.
            close_confirmed-Ends now late (persist n w).1 w (persist n w).2 moved.0.target (
              duplicate-appended now new_id task_id v.direction last (length v.events)
                w.store.cdc_positions (persist n w).2.store typed (moved.1 late went)))

    fail_if-Ends :
        (late : Option String) (k : Run Applied) (n : ℕ) (w : World)
        → EndsConfirmed w (k n w)
        → EndsConfirmed w ((fail_if late >> k) n w)
    fail_if-Ends none k n w go = go
    fail_if-Ends (some e) k n w go = (refl, λ r h. cc)

    confirm_committed-Ends :
        (n : ℕ) (w : World)
        → length w.store.cdc_positions < 60000
        → EndsConfirmed w (confirm_committed settings now new_id task_id v (some last) n w)
    unfolding confirm_committed
    confirm_committed-Ends n w few =
        continue-Ends (EndsConfirmed w) _ (lift (get_migration w.store task_id)) n w
          (λ e failed. (refl, λ r h. cc))
          (λ task found.
            fail_if-Ends (settings.find_read_source task v.direction)
              (persist_cdc_apply_result settings now new_id task_id v.direction last
                  (length v.events)
                >>= close_confirmed now v last)
              n w (persisted-Ends n w few))

    check-Ends :
        (b : Bool) (message : String) (k : Run Applied) (n : ℕ) (w : World)
        → EndsConfirmed w (k n w)
        → EndsConfirmed w ((check b message >> k) n w)
    check-Ends true message k n w go = go
    check-Ends false message k n w go = (refl, λ r h. cc)

    resolve_letter-Ends :
        (outcome : Commit) (id : String) (n : ℕ) (w : World)
        → last? v.events ≡ some last
        → length w.store.cdc_positions < 60000
        → EndsConfirmed w (resolve_letter settings now new_id outcome task_id id "COMMITTED" v n w)
    unfolding resolve_letter
    resolve_letter-Ends outcome id n w ends few =
        let confirm = confirm_committed settings now new_id task_id v (last? v.events) in
        check-Ends (v.task_id =s= task_id) "CDC dead letter does not belong to migration"
          (check (is_uncertain v.status) "CDC dead letter is not COMMIT_UNCERTAIN" >> confirm) n w
          (check-Ends (is_uncertain v.status) "CDC dead letter is not COMMIT_UNCERTAIN" confirm n w
            (subst (λ o. EndsConfirmed w (confirm_committed settings now new_id task_id v o n w))
              (sym ends) (confirm_committed-Ends n w few)))

module _ (task_id : String) (v : Letter) (last : CdcEvent String) where
  -- What the decision COMMITTED leaves in each case: the target as it was; and the position as the newest
  -- checkpoint of the letter's direction, or an error.
  abbrev pub IsDecided : World → Result Failure Applied × ℕ × World → Type 0
  IsDecided w out =
      (out.2.target ≡ w.target)
      × (((r : Applied) × (out.0 ≡ ok r)
            × (is_duplicate task_id v.direction last out.2.store ≡ true))
          ⊎ ((e : Failure) × (out.0 ≡ err e)))

  decided :
      (w : World) (r : Result Failure Applied) (n : ℕ) (w' : World)
      → EndsConfirmed task_id v last w (r, n, w')
      → IsDecided w (r, n, w')
  decided w (ok r) n w' h = (h.0, inl (r, refl, h.1 r refl))
  decided w (err e) n w' h = (h.0, inr (e, refl))

-- An operator's decision that a transaction of unknown outcome is COMMITTED never writes to the target;
-- and it fails, or the position of the transaction is the newest checkpoint of its direction, so that a
-- redelivery is known. The letter is stored and its last event names the type of its
-- position, and fewer than 60000 checkpoints are stored.
pub resolve_committed_lem :
    (settings : Settings) (now : ℕ) (new_id : String) (outcome : Commit) (task_id id : String)
    (v : Letter) (last : CdcEvent String) (n : ℕ) (w : World)
    → get_cdc_dead_letter w.store id ≡ ok v
    → last? v.events ≡ some last
    → (last.position_type =s= "") ≡ false
    → length w.store.cdc_positions < 60000
    → IsDecided task_id v last w
        (resolve_cdc_commit_uncertain settings now new_id outcome task_id id "COMMITTED" n w)
unfolding resolve_cdc_commit_uncertain
resolve_committed_lem settings now new_id outcome task_id id v last n w found ends typed few =
    let out = resolve_letter settings now new_id outcome task_id id "COMMITTED" v n w in
    rw found (
      decided task_id v last w out.0 out.1 out.2
        (resolve_letter-Ends task_id v last typed settings now new_id outcome id n w ends few))
