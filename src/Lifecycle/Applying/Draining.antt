-- ===== src/Lifecycle/Applying/Draining.antt =====
-- service.go: `drainCDCSpoolLocked` over the in-memory repository, which has no leases for it: the staged
-- transactions of a task and direction are applied one by one.
use dts.Common.{ℕ, zero, suc, String, not, ◌==◌, ltb, if◌then◌else◌, List, [], ◌∷◌, Option, ok}
use dts.Domain.{CdcEvent, SpoolRecord, SpoolStats}
use dts.Store.Defs.{get_migration}
use dts.Store.Spool.{
  list_cdc_spool, mark_cdc_spool_applied, delete_applied_cdc_spool, cdc_spool_stats,
}
use dts.Lifecycle.Positions.{cdc_apply_ready}
use dts.Lifecycle.Applying.Effects.{Run, ◌>>=◌, ◌>>◌, return, ask, write, ignore, lift}
use dts.Lifecycle.Applying.Fence.{Settings}
use dts.Lifecycle.Applying.Events.{Commit, apply_and_record, fail_if}

abbrev pub Staged : Type 0
Staged = SpoolRecord (CdcEvent String)

-- What the environment decides for one transaction: the time, the id of its checkpoint, what becomes of its
-- COMMIT, and the three injected faults.
pub record Attempt : Type 0 where
  pub now : ℕ
  pub new_id : String
  pub outcome : Commit
  pub before_apply : Option String
  pub before_mark : Option String
  pub after_mark : Option String

abbrev pub normal_max : ℕ → ℕ
normal_max most = if most == 0 then 1000 else most

module _ (settings : Settings) (attempts : ℕ → Attempt) (id direction : String) where
  -- One transaction of the inner loop.
  unfoldable pub drain_item : Attempt → Staged → Run (Unit {0})
  unfolding apply_and_record mark_cdc_spool_applied
  drain_item a v = do
    fail_if a.before_apply
    apply_and_record settings a.now a.new_id a.outcome id direction v.events
    fail_if a.before_mark
    write (λ s. mark_cdc_spool_applied s v.id a.now)
    fail_if a.after_mark

  -- `for _, item := range items`, with what remains to be drained.
  unfoldable pub drain_items : ℕ → List Staged → Run ℕ
  unfolding drain_item
  drain_items zero items = return zero
  drain_items (suc r) [] = return (suc r)
  drain_items (suc r) (v ∷ vs) = drain_item (attempts r) v >> drain_items r vs

  -- A round of the outer loop: nothing listed ends it.
  abbrev pub drain_round : (ℕ → Run (Unit {0})) → ℕ → List Staged → Run (Unit {0})
  drain_round k r [] = return tt
  drain_round k r (v ∷ vs) = drain_items r (v ∷ vs) >>= k

  -- `for remaining > 0`, within so many rounds.
  unfoldable pub drain_loop : ℕ → ℕ → Run (Unit {0})
  unfolding drain_items list_cdc_spool
  drain_loop zero r = return tt
  drain_loop (suc fuel) r = if r == 0 then return tt else (do
    items ← ask (λ s. ok (list_cdc_spool s id direction (if ltb 100 r then 100 else r)))
    drain_round (drain_loop fuel) r items)

  -- `drainCDCSpoolLocked`, of a `maxTransactions` that is 0 where it is negative.
  unfoldable pub drain_cdc_spool_locked : ℕ → ℕ → Run SpoolStats
  unfolding drain_loop get_migration cdc_apply_ready delete_applied_cdc_spool cdc_spool_stats
  drain_cdc_spool_locked keep most = do
    task ← ask (λ s. lift (get_migration s id))
    (if not (cdc_apply_ready task.status direction)
        then return tt
        else (drain_loop (normal_max most) (normal_max most)
            >> ignore (write (λ s. ok (delete_applied_cdc_spool s id direction keep)))))
    ask (λ s. ok (cdc_spool_stats s id direction))
