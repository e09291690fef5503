-- ===== src/Lifecycle/Applying/Drained.antt =====
-- service.go: what a drain of the spool makes of its queue and of the target.
use dts.Common.{
  ℕ, zero, suc, String, ◌≡◌, refl, sym, subst, ◌∙◌, List, ◌∷◌, Option, none, some, Result, ok, err,
  arith,
}
use dts.Store.Spool.{mark_cdc_spool_applied}
use dts.Store.Spool.Sequence.{IsSequenced, mark-IsSequenced}
use dts.Store.Spool.Queue.{queue}
use dts.Store.Spool.Draining.{HasUniqueIds, mark_queue, mark-HasUniqueIds}
use dts.Lifecycle.Applying.Effects.{
  Events, World, Failure, crashed, fault, outcome_unknown, blocked, Run, ◌>>◌, throw, write, after,
  continue, continue-Ends,
}
use dts.Lifecycle.Applying.Fence.{Settings, record_cdc_dead_letter}
use dts.Lifecycle.Applying.Events.{Applied, apply_cdc_events, apply_and_record, recorded, fail_if}
use dts.Lifecycle.Applying.Kept.{Kept, record-Kept}
use dts.Lifecycle.Applying.Spooled.{apply_cdc_events-Keeps}
use dts.Lifecycle.Applying.Draining.{Staged, Attempt, drain_item}

module _ (settings : Settings) (id direction : String) where
  abbrev pub apply : Attempt → Staged → Run Applied
  apply a v = apply_cdc_events settings a.now a.new_id none a.outcome id direction v.events

  -- From a queue and a target to a queue and a target by applying the transactions in turn: one leaves the
  -- queue only after `ApplyCDCEvents` returned no error for it, and the next is tried only then.
  pub data Drains : List Staged → List Events → List Staged → List Events → Type 0 where
    at_rest : {q : List Staged} {t : List Events} → Drains q t q t
    tried :
        {v : Staged} {q : List Staged} {t t' : List Events} (a : Attempt) (n : ℕ) (w : World)
        → w.target ≡ t
        → (after (apply a v) n w).target ≡ t'
        → Drains (v ∷ q) t (v ∷ q) t'
    taken :
        {v : Staged} {q q' : List Staged} {t t' t'' : List Events} (a : Attempt) (n : ℕ) (w : World)
        (r : Applied)
        → w.target ≡ t
        → (apply a v n w).0 ≡ ok r
        → (after (apply a v) n w).target ≡ t'
        → Drains q t' q' t''
        → Drains (v ∷ q) t q' t''

  failed-lem :
      (a : Attempt) (v : Staged) (e : Failure) (n : ℕ) (w : World)
      → let record_it =
          record_cdc_dead_letter settings a.now id direction v.events e "apply failed" in
        let out = (record_it >> throw {A = Applied} e) n w in
        Kept w out.2 × ((b : Applied) → out.0 ≡ ok b → Path (Result Failure Applied) (err e) (ok b))
  failed-lem a v e n w =
      let record_it =
        record_cdc_dead_letter settings a.now id direction v.events e "apply failed" in
      let kept = record-Kept settings id direction a.now v.events e "apply failed" n w in
      continue-Ends
        (λ (out : Result Failure Applied × ℕ × World).
          Kept w out.2
          × ((b : Applied) → out.0 ≡ ok b → Path (Result Failure Applied) (err e) (ok b)))
        (λ (x : Unit {0}). throw e) (record_it n w).0 (record_it n w).1 (record_it n w).2
        (λ e' failed. (kept, λ b h. cc)) (λ x went. (kept, λ b h. h))

  -- What the caller does about an error.
  recorded-lem :
      (a : Attempt) (v : Staged) (r : Result Failure Applied) (n : ℕ) (w : World)
      → let out = recorded settings a.now id direction v.events r n w in
        Kept w out.2 × ((b : Applied) → out.0 ≡ ok b → r ≡ ok b)
  recorded-lem a v (ok r) n w = (record { target = refl; positions = refl; spool = refl }, λ b h. h)
  recorded-lem a v (err crashed) n w =
      (record { target = refl; positions = refl; spool = refl }, λ b h. cc)
  recorded-lem a v (err (fault e)) n w = failed-lem a v (fault e) n w
  recorded-lem a v (err outcome_unknown) n w = failed-lem a v outcome_unknown n w
  recorded-lem a v (err blocked) n w = failed-lem a v blocked n w

  -- The queue of a world whose spool is in order: its ids are unique and its sequences rise.
  pub record IsWaiting (q : List Staged) (w : World) : Type 0 where
    pub waiting : queue w.store id direction ≡ q
    pub unique : HasUniqueIds w.store.cdc_spool
    pub sequenced : IsSequenced w.store.cdc_spool

  spool-IsWaiting :
      {q : List Staged} {w w' : World}
      → w'.store.cdc_spool ≡ w.store.cdc_spool
      → IsWaiting q w
      → IsWaiting q w'
  spool-IsWaiting same is = record {
    waiting = rw same is.waiting;
    unique = rw same is.unique;
    sequenced = rw same is.sequenced;
  }

  abbrev pub DrainsTo : List Staged → List Events → World → Type 0
  DrainsTo q t w = Drains q t (queue w.store id direction) w.target

  pub drains_to :
      {q q' : List Staged} {t t' : List Events} (w : World)
      → Drains q t q' t'
      → queue w.store id direction ≡ q'
      → w.target ≡ t'
      → DrainsTo q t w
  drains_to {q = q} {q' = q'} {t = t} w d e f =
      subst (λ x. Drains q t x w.target) (sym e) (subst (λ y. Drains q t q' y) (sym f) d)

  module _ (attempts : ℕ → Attempt) (a : Attempt) (v : Staged) (q : List Staged) (w : World) where
    -- How one transaction ends: off the queue after it was applied, or with an error.
    pub data ItemEnds (out : Result Failure (Unit {0}) × ℕ × World) : Type 0 where
      applied :
          (n : ℕ) (r : Applied)
          → (apply a v n w).0 ≡ ok r
          → out.2.target ≡ (after (apply a v) n w).target
          → IsWaiting q out.2
          → ItemEnds out
      stopped : (e : Failure) → out.0 ≡ err e → DrainsTo (v ∷ q) w.target out.2 → ItemEnds out

    ItemEnds-fail_if :
        (k : Run (Unit {0})) (message : Option String) (n : ℕ) (w' : World)
        → DrainsTo (v ∷ q) w.target w'
        → ItemEnds (k n w')
        → ItemEnds ((fail_if message >> k) n w')
    ItemEnds-fail_if k none n w' d go = go
    ItemEnds-fail_if k (some message) n w' d go = stopped _ refl d

    -- Off the queue, whatever fault is injected then.
    marked-ItemEnds :
        (m : ℕ) (r : Applied) (message : Option String) (n : ℕ) (w' : World)
        → (apply a v m w).0 ≡ ok r
        → w'.target ≡ (after (apply a v) m w).target
        → IsWaiting q w'
        → ItemEnds (fail_if message n w')
    marked-ItemEnds m r none n w' went same is = applied m r went same is
    marked-ItemEnds m r (some message) n w' went same is = applied m r went same is

    -- From the mark on.
    mark-ItemEnds :
        (m : ℕ) (r : Applied) (n : ℕ) (w' : World)
        → (apply a v m w).0 ≡ ok r
        → w'.target ≡ (after (apply a v) m w).target
        → IsWaiting (v ∷ q) w'
        → ItemEnds ((write (λ s. mark_cdc_spool_applied s v.id a.now) >> fail_if a.after_mark) n w')
    mark-ItemEnds m r zero w' went same is =
        stopped crashed refl (drains_to w' (tried a m w refl refl) is.waiting same)
    mark-ItemEnds m r (suc n) w' went same is =
        let (t, marked, next) = mark_queue w'.store id direction a.now v q is.unique is.waiting in
        let w2 : World = record w' { store = t } in
        let end : IsWaiting q w2 = record {
          waiting = next;
          unique = mark-HasUniqueIds w'.store v.id a.now is.unique marked;
          sequenced = mark-IsSequenced w'.store v.id a.now is.sequenced marked;
        } in
        let made : write (λ s. mark_cdc_spool_applied s v.id a.now) (suc n) w' ≡ (ok tt, n, w2) =
          ground (arith, marked) in
        subst (λ out. ItemEnds (continue (λ x. fail_if a.after_mark) out.0 out.1 out.2)) (sym made)
          (marked-ItemEnds m r a.after_mark n w2 went same end)

    pub drain_item-ItemEnds :
        (n : ℕ) → IsWaiting (v ∷ q) w → ItemEnds (drain_item settings attempts id direction a v n w)
    unfolding drain_item apply_and_record
    drain_item-ItemEnds n is =
        let marking = write (λ s. mark_cdc_spool_applied s v.id a.now) >> fail_if a.after_mark in
        let rest = fail_if a.before_mark >> marking in
        let applying = apply_and_record settings a.now a.new_id a.outcome id direction v.events in
        let (r, left, w1) = apply a v n w in
        let (kept, same) = recorded-lem a v r left w1 in
        let w2 = after applying n w in
        let is2 : IsWaiting (v ∷ q) w2 =
          spool-IsWaiting
            (kept.spool
              ∙ apply_cdc_events-Keeps w.store.cdc_spool settings a.now a.new_id id direction none
                  a.outcome v.events n w refl)
            is in
        let tries : DrainsTo (v ∷ q) w.target w2 =
          drains_to w2 (tried a n w refl refl) is2.waiting kept.target in
        ItemEnds-fail_if (applying >> rest) a.before_apply n w (drains_to w at_rest is.waiting refl)
          (continue-Ends ItemEnds (λ x. rest) (applying n w).0 (applying n w).1 w2
            (λ e failed. stopped e refl tries)
            (λ b went.
              ItemEnds-fail_if marking a.before_mark (applying n w).1 w2 tries
                (mark-ItemEnds n b (applying n w).1 w2 (same b went) kept.target is2)))
