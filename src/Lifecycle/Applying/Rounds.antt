-- ===== src/Lifecycle/Applying/Rounds.antt =====
-- service.go: the loops of `drainCDCSpoolLocked`: the order in which the queue reaches the target, and the
-- end of the loops.
use dts.Common.{
  ℕ, zero, suc, String, false, ◌≡◌, refl, ltb, ◌==◌, ◌≤◌, if◌then◌else◌, List, [], ◌∷◌, Result, ok,
  err, arith,
}
use dts.Store.Spool.{list_cdc_spool, delete_applied_cdc_spool}
use dts.Lifecycle.Applying.Effects.{
  World, Failure, Run, write, ignore, after, continue, continue-Ends,
}
use dts.Lifecycle.Applying.Fence.{Settings}
use dts.Lifecycle.Applying.Drained.{IsWaiting, DrainsTo}
use dts.Lifecycle.Applying.Draining.{
  Staged, Attempt, drain_item, drain_items, drain_loop, drain_round,
}

continue_agrees :
    {A B : Type 0} (k k' : A → Run B) (r : Result Failure A) (n : ℕ) (w : World)
    → ((a : A) → r ≡ ok a → k a n w ≡ k' a n w)
    → continue k r n w ≡ continue k' r n w
continue_agrees k k' (ok a) n w same = same a refl
continue_agrees k k' (err e) n w same = refl

module _ (settings : Settings) (id direction : String) (attempts : ℕ → Attempt) where
  -- A program that drains whatever queue it finds.
  abbrev Draining : {A : Type 0} → Run A → Type 0
  Draining m =
      (q : List Staged) (n : ℕ) (w : World)
      → IsWaiting settings id direction q w
      → DrainsTo settings id direction q w.target (after m n w)

  -- The removal of old applied records.
  abbrev pub tidy : ℕ → Run (Unit {0})
  tidy keep = ignore (write (λ s. ok (delete_applied_cdc_spool s id direction keep)))

  -- What remains after the first of some items, if it goes well.
  first_item-le :
      (r : ℕ) (v : Staged) (vs : List Staged)
      → ((n : ℕ) (w : World) (left : ℕ)
          → (drain_items settings attempts id direction r vs n w).0 ≡ ok left
          → left ≤ r)
      → (n : ℕ) (w : World) (left : ℕ)
      → (drain_items settings attempts id direction (suc r) (v ∷ vs) n w).0 ≡ ok left
      → left ≤ r
  unfolding drain_items
  first_item-le r v vs later n w left e =
      let item = drain_item settings attempts id direction (attempts r) v in
      continue-Ends (λ (out : Result Failure ℕ × ℕ × World). out.0 ≡ ok left → left ≤ r)
        (λ x. drain_items settings attempts id direction r vs) (item n w).0 (item n w).1
        (item n w).2 (λ e' failed h. cc) (λ x went h. later _ _ left h) e

  drain_items-le :
      (r : ℕ) (items : List Staged) (n : ℕ) (w : World) (left : ℕ)
      → (drain_items settings attempts id direction r items n w).0 ≡ ok left
      → left ≤ r
  drain_items-le zero items n w left e = unfold drain_items in ground (arith, e)
  drain_items-le (suc r) [] n w left e = unfold drain_items in ground (arith, e)
  drain_items-le (suc r) (v ∷ vs) n w left e =
      omega (arith, first_item-le r v vs (drain_items-le r vs) n w left e)

  -- Two continuations that agree on what may remain.
  drain_round_agrees :
      (k k' : ℕ → Run (Unit {0})) (r : ℕ)
      → ((left : ℕ) → left ≤ r → (n : ℕ) (w : World) → k left n w ≡ k' left n w)
      → (items : List Staged) (n : ℕ) (w : World)
      → drain_round settings attempts id direction k (suc r) items n w
        ≡ drain_round settings attempts id direction k' (suc r) items n w
  drain_round_agrees k k' r same [] n w = refl
  drain_round_agrees k k' r same (v ∷ vs) n w =
      let run = drain_items settings attempts id direction (suc r) (v ∷ vs) in
      continue_agrees k k' (run n w).0 (run n w).1 (run n w).2 (λ left went.
        same left (first_item-le r v vs (drain_items-le r vs) n w left went) (run n w).1
          (run n w).2)

  -- The outer loop makes at most as many rounds as it may drain transactions: more fuel changes nothing.
  pub drain_loop_enough :
      (fuel r : ℕ)
      → r ≤ fuel
      → (n : ℕ) (w : World)
      → drain_loop settings attempts id direction fuel r n w
        ≡ drain_loop settings attempts id direction (suc fuel) r n w
  unfolding drain_loop
  drain_loop_enough zero zero h n w = refl
  drain_loop_enough zero (suc r) h n w = ground arith
  drain_loop_enough (suc fuel) zero h n w = refl
  drain_loop_enough (suc fuel) (suc r) h n w =
      let some_left : (suc r == 0) ≡ false = ground arith in
      rw some_left (
        drain_round_agrees (drain_loop settings attempts id direction fuel)
          (drain_loop settings attempts id direction (suc fuel)) r
          (λ left few m u. drain_loop_enough fuel left (omega (arith, h, few)) m u)
          (list_cdc_spool w.store id direction (if ltb 100 (suc r) then 100 else suc r)) n w)
